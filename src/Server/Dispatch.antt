-- ===== src/Server/Dispatch.antt =====
-- The packets that server/main.py gets from its clients: `_handle_client` with all its handlers.
pub mod State
pub mod Queries
pub mod Rows
pub mod Defs
pub mod Runs
pub mod Answers
pub mod Served
pub mod Cards

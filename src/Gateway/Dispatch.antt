-- ===== src/Gateway/Dispatch.antt =====
-- The packets that gateway/main.py gets from its clients: `_handle_client` with the handlers it calls.
-- `Call` is what the outside gives while one packet is handled, and `System` hashlib and sqlite's
-- ORDER BY with a LIMIT. A request to create or join a room names it.
pub mod State
pub mod Queries
pub mod Defs
pub mod Guards
pub mod Runs
pub mod Leaks

-- ===== src/Server.antt =====
-- The process server, src/netcourier/server/main.py.
pub mod Rooms
pub mod Transfers
pub mod Posts
pub mod Dispatch

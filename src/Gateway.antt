-- ===== src/Gateway.antt =====
-- The gateway process, src/netcourier/gateway.
pub mod Backends
pub mod LoadBalancer
pub mod Presence
pub mod Sessions
pub mod RoomDirectory
pub mod Accounts
pub mod Messages
pub mod Dispatch

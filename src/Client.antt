-- ===== src/Client.antt =====
-- The client's ends of the connections, src/netcourier/client.
pub mod Connections

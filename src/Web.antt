-- ===== src/Web.antt =====
-- The web API, src/netcourier/web/api/.
pub mod Chunks
pub mod Events
pub mod Downloads
pub mod Http

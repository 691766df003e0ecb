-- ===== src/Server/Transfers.antt =====
-- The file transfers of src/netcourier/server/main.py.
pub mod Disk
pub mod Filenames
pub mod Defs
pub mod Init
pub mod Chunks
pub mod Files
pub mod Reassembly
pub mod Receiving
pub mod Uploads
pub mod Progress
pub mod Downloads
pub mod Timeouts
pub mod Answers

-- ===== src/Tests.antt =====
-- The theorems at concrete inputs.
mod Rooms
mod Posts
mod ServerPackets
mod Transfers
mod Gateway
mod Accounts
mod GatewayPackets
mod Protocol
mod Client
mod Web

-- ===== src/Server/Rooms.antt =====
-- Who is connected and who is in which room: `clients` and `rooms` of server/main.py, with the
-- handlers that change them. Each handler runs as one step, but for the join, whose part behind the lock is
-- a function of its own as well. What it does to the outside is the list
-- of its effects, in order. A payload text that the code tests by truth is an Option: none stands
-- for a missing one and for "".
pub mod Defs
pub mod Handlers
mod Sets
pub mod Consistency
pub mod Steps
pub mod Speaking
pub mod Delivery
pub mod Answers
pub mod Kicks

-- ===== src/Server/Posts.antt =====
-- The messages of a room and the reactions to them: the tables `room_messages` and
-- `message_reactions` of server/main.py.
pub mod Like
pub mod Defs
pub mod Reactions
pub mod Deletion

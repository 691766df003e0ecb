-- ===== src/Server/Dispatch/Rows.antt =====
-- The rows of `room_messages` that the handlers of server/main.py leave.
use netcourier.Prelude.{ℕ, ◌+◌, false, List, [], ◌∷◌, ◌++◌, Text, codes}
use netcourier.Server.Rooms.Defs.{
  Effect, Event, saves_event, saves_chat, joined, left_room, was_kicked, file_deleted, uploaded,
}
use netcourier.Server.Posts.Defs.{text, system, Message}

-- The text of a system event.
unfoldable pub event_text : Event → Text
event_text (joined username) = codes "User " ++ (codes username ++ codes " joined the room.")
event_text (left_room username) = codes "User " ++ (codes username ++ codes " left the room.")
event_text (was_kicked username) =
    codes "User " ++ (codes username ++ codes " has been kicked by the owner.")
event_text file_deleted = codes "A file was deleted by the owner."
event_text (uploaded username filename) =
    codes "User " ++ (codes username ++ (codes " uploaded " ++ filename))

-- The rows that the effects add to `room_messages`, with the ids that follow.
unfoldable pub saved_rows : (now message_id : ℕ) → List Effect → List Message
unfolding event_text
saved_rows now message_id [] = []
saved_rows now message_id (saves_event room_id event ∷ effects) =
    (record {
      message_id = message_id;
      room_id = room_id;
      message_type = system;
      sender_username = "System";
      created_at = now;
      content = event_text event;
      is_deleted = false;
    })
    ∷ saved_rows now (message_id + 1) effects
saved_rows now message_id (saves_chat room_id user_id username message ∷ effects) =
    (record {
      message_id = message_id;
      room_id = room_id;
      message_type = text;
      sender_username = username;
      created_at = now;
      content = codes message;
      is_deleted = false;
    })
    ∷ saved_rows now (message_id + 1) effects
saved_rows now message_id (_ ∷ effects) = saved_rows now message_id effects

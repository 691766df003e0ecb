-- ===== src/Tests/Posts.antt =====
-- The reactions and the deletion of files of server/main.py, by the owner of a room.
use netcourier.Prelude.{arith, ◌≡◌, refl, true, false, [], ◌∷◌, ◌++◌, codes, string_eq, nat_eq}
use netcourier.Dict.{get}
use netcourier.Server.Rooms.Handlers.{is_room_owner}
use netcourier.Server.Posts.Defs.{text, file, Message, Posts, file_pattern, handle_room_delete_file}
use netcourier.Server.Posts.Deletion.{handle_room_delete_file-longer}
use netcourier.Tests.Rooms.{ada_inside, ada_joined}

abbrev hello : Message
hello = record {
  message_id = 5;
  room_id = 7;
  message_type = text;
  content = codes "hello";
  sender_username = "ada";
  created_at = 1;
  is_deleted = false;
}

abbrev one_message : Posts
one_message = record { messages = hello ∷ []; reactions = [] }

-- The card of file 12, in another room.
abbrev card : Message
card = record {
  message_id = 6;
  room_id = 8;
  message_type = file;
  content = codes "{" ++ (file_pattern 12 ++ codes ", \"filename\": \"a\"}");
  sender_username = "ada";
  created_at = 1;
  is_deleted = false;
}

abbrev one_card : Posts
one_card = record { messages = card ∷ []; reactions = [] }

-- Deleting file 1.
handle_room_delete_file-longer_example :
    (handle_room_delete_file true 10 1 ada_inside ada_joined [] one_card).1.messages
    ≡ record card { is_deleted = true } ∷ []
unfolding is_room_owner get
handle_room_delete_file-longer_example =
    handle_room_delete_file-longer 10 1 2 "lobby" ada_inside ada_joined [] one_card [] card []
      (codes "{") (codes ", \"filename\": \"a\"}") refl refl (omega arith) (omega arith) refl refl
      refl

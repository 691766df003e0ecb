-- ===== src/Tests/ServerPackets.antt =====
-- The packets of server/main.py, from an idle server.
use netcourier.Prelude.{◌≡◌, refl, true, some, List, [], ◌∷◌, ◌++◌, map, codes, string_eq, nat_eq}
use netcourier.Dict.{get, put}
use netcourier.Server.Rooms.Defs.{
  valid, Effect, saves_event, sends, system_event, uploaded, broadcast_system_event,
  handle_auth_backend, get_room_members, usernames, members_of, event_members, room_id_of,
  save_event, broadcast_to_room,
}
use netcourier.Server.Rooms.Handlers.{is_room_owner}
use netcourier.Server.Transfers.Files.{Announcement}
use netcourier.Server.Posts.Defs.{hide, handle_room_delete_file}
use netcourier.Server.Dispatch.State.{ProcessServer, Call, auth_backend, join_room_backend}
use netcourier.Server.Dispatch.Rows.{saved_rows}
use netcourier.Server.Dispatch.Defs.{handle_packet, announce_upload, in_rooms, save}
use netcourier.Server.Dispatch.Runs.{GoesOn, starts, next, receives, Reach-GoesOn}
use netcourier.Server.Dispatch.Cards.{card_of, announce_upload-deleted}
use netcourier.Tests.Rooms.{ada_inside, ada_joined, ada_waits, idle, idle-Consistent}

abbrev idle_process : ProcessServer
idle_process = record {
  server = idle;
  chat_limiter = record { limit = 5; last_action = [] };
  transfers = record { transfer_progress = []; file_transfers = []; files = []; disk = [] };
  posts = record { messages = []; reactions = [] };
}

abbrev waiting_process : ProcessServer
waiting_process = record idle_process { server = ada_waits }

abbrev joined_process : ProcessServer
joined_process = record idle_process { server = ada_joined }

abbrev call : Call
call = record {
  db_up = true;
  now = 100;
  conn = 10;
  message_id = 1;
  file_id = 1;
  transfer_id = 1;
  stored_path = "f";
  users = [];
  latest = λ limit rows. rows;
}

-- ada authenticates, then joins the lobby.
Reach-GoesOn_example :
    GoesOn (handle_packet call (λ bytes. "") (join_room_backend (some "lobby")) waiting_process)
unfolding handle_packet in_rooms save saved_rows handle_auth_backend put get
Reach-GoesOn_example =
    Reach-GoesOn {sha256 = λ bytes. ""} {p = idle_process}
      {h = handle_packet call (λ bytes. "") (join_room_backend (some "lobby")) waiting_process}
      idle-Consistent
      (next (next starts (receives call (auth_backend (some (valid 1 "ada"))) (λ r. refl)))
        (receives call (join_room_backend (some "lobby")) tt))

abbrev announced : Announcement
announced = record {
  room_name = "lobby";
  username = "ada";
  original_filename = codes "a.txt";
  file_id = 4;
  size_bytes = 3;
}

abbrev event : List Effect
event =
    saves_event 7 (uploaded "ada" (codes "a.txt"))
    ∷ sends 10 (system_event "lobby" (uploaded "ada" (codes "a.txt")) ("ada" ∷ []))
    ∷ []

announce_upload-deleted_example :
    let (p', sent) = announce_upload call (some announced) joined_process in
    let before = saved_rows call.now call.message_id event in
    let (files', posts', effects) =
      handle_room_delete_file true 10 4 ada_inside p'.server p'.transfers.files p'.posts in
    (p'.posts.messages ≡ before ++ card_of call 7 announced ∷ [])
    × (posts'.messages
        ≡ map (hide 4) before ++ record (card_of call 7 announced) { is_deleted = true } ∷ [])
unfolding get is_room_owner broadcast_system_event event_members get_room_members usernames
    members_of room_id_of save_event broadcast_to_room
announce_upload-deleted_example =
    announce_upload-deleted call announced (record { room_id = 7; created_by = 1 }) event
      joined_process 10 "lobby" ada_inside refl refl refl refl refl

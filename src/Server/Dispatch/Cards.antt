-- ===== src/Server/Dispatch/Cards.antt =====
-- From the end of an upload in server/main.py to the deletion of its file.
use netcourier.Prelude.{
  ℕ, ◌+◌, ◌≡◌, refl, true, false, string_eq, nat_eq, String, some, List, [], ◌∷◌, ◌++◌, map, codes,
  decimal,
}
use netcourier.Dict.{get}
use netcourier.Server.Rooms.Defs.{Client, RoomRow, Effect, broadcast_system_event, uploaded}
use netcourier.Server.Rooms.Handlers.{is_room_owner}
use netcourier.Server.Transfers.Files.{Announcement}
use netcourier.Server.Posts.Defs.{Message, Posts, file, hide, handle_room_delete_file}
use netcourier.Server.Posts.Deletion.{hide-card, handle_room_delete_file-hides}
use netcourier.Server.Dispatch.State.{ProcessServer, Call}
use netcourier.Server.Dispatch.Rows.{saved_rows}
use netcourier.Server.Dispatch.Defs.{save, file_card, post_file, announce_upload}

module _ (call : Call) where
  -- The message of type "file".
  abbrev pub card_of : ℕ → Announcement → Message
  card_of room_id a = record {
    message_id = call.message_id + 1;
    room_id = room_id;
    message_type = file;
    sender_username = a.username;
    created_at = call.now;
    content = file_card call a.file_id a.original_filename a.size_bytes;
    is_deleted = false;
  }

  hide-file_card :
      (room_id : ℕ) (a : Announcement)
      → hide a.file_id (card_of room_id a) ≡ record (card_of room_id a) { is_deleted = true }
  unfolding file_card
  hide-file_card room_id a =
      hide-card a.file_id (codes "{")
        (codes ", \"filename\": \""
          ++ (a.original_filename
              ++ (codes "\", \"size_bytes\": " ++ (decimal a.size_bytes ++ codes "}"))))
        (card_of room_id a) refl refl

  announced :
      (a : Announcement) (row : RoomRow) (event : List Effect) (p : ProcessServer)
      → call.db_up ≡ true
      → broadcast_system_event p.server a.room_name (uploaded a.username a.original_filename) []
        ≡ some event
      → get p.server.room_table a.room_name ≡ some row
      → (announce_upload call (some a) p).0 ≡ record p {
        posts = record p.posts {
          messages =
              (p.posts.messages ++ saved_rows call.now call.message_id event)
              ++ card_of row.room_id a ∷ [];
        };
      }
  unfolding announce_upload post_file save
  announced a row event p up told listed = rw (announce_upload, told, listed, up) refl

  -- With sqlite up, the end of an upload that is announced leaves a message of type "file" behind the ones
  -- before, and an owner of any room, the one of the file or another one, hides that message by deleting
  -- the file from its own room.
  pub announce_upload-deleted :
      (a : Announcement) (row : RoomRow) (event : List Effect) (p : ProcessServer) (conn : ℕ)
      (room : String) (info : Client)
      → call.db_up ≡ true
      → broadcast_system_event p.server a.room_name (uploaded a.username a.original_filename) []
        ≡ some event
      → get p.server.room_table a.room_name ≡ some row
      → info.current_room ≡ some room
      → is_room_owner true info.user_id (some room) p.server ≡ true
      → let (p', sent) = announce_upload call (some a) p in
        let before = p.posts.messages ++ saved_rows call.now call.message_id event in
        let (files', posts', effects) =
          handle_room_delete_file true conn a.file_id info p'.server p'.transfers.files p'.posts in
        (p'.posts.messages ≡ before ++ card_of row.room_id a ∷ [])
        × (posts'.messages
            ≡ map (hide a.file_id) before
              ++ record (card_of row.room_id a) { is_deleted = true } ∷ [])
  announce_upload-deleted a row event p conn room info up told listed inside owner =
      let before = p.posts.messages ++ saved_rows call.now call.message_id event in
      let card = card_of row.room_id a in
      let posts' : Posts = record p.posts { messages = before ++ card ∷ [] } in
      rw (announced a row event p up told listed) (
        refl,
        handle_room_delete_file-hides conn a.file_id room info p.server p.transfers.files posts'
            before card [] inside owner refl (hide-file_card row.room_id a),
      )

-- ===== src/Server/Dispatch/Queries.antt =====
-- FILE_LIST_REQUEST and ROOM_HISTORY_REQUEST of server/main.py, which read the tables.
use mathlib.Core.List.{reverse}
use netcourier.Prelude.{
  ℕ, not, ◌&&◌, String, Option, none, some, List, [], ◌∷◌, if◌then◌else◌, ◌==◌, nat_eq, string_eq,
}
use netcourier.Dict.{Dict, get}
use netcourier.Server.Rooms.Defs.{
  Client, Server, error, missing_field, room_not_found, not_in_room, internal_error, sends,
  room_id_of,
}
use netcourier.Server.Rooms.Handlers.{same_room}
use netcourier.Server.Transfers.Defs.{FileRow}
use netcourier.Server.Transfers.Files.{is_available}
use netcourier.Server.Posts.Defs.{Message, Reaction, Posts, group_reactions}
use netcourier.Server.Dispatch.State.{
  Call, Sent, ListedFile, HistoryItem, effect, lists_files, shows_history,
}

-- The join of `files` and `users`: the available files of a room.
unfoldable pub files_of : Dict ℕ String → ℕ → Dict ℕ FileRow → List ListedFile
files_of users room_id [] = []
files_of users room_id ((file_id, row) ∷ files) =
    let rest = files_of users room_id files in
    elim (get users row.uploader_id) [
      | none ↦ rest
      | some username ↦
          if row.room_id == room_id && is_available row.status
          then (record {
            file_id = file_id;
            original_filename = row.original_filename;
            size_bytes = row.size_bytes;
            uploader_username = username;
          })
            ∷ rest
          else rest
    ]

-- WHERE room_id = ? AND is_deleted = 0
unfoldable pub shown_in : ℕ → List Message → List Message
shown_in room_id [] = []
shown_in room_id (m ∷ messages) =
    let rest = shown_in room_id messages in
    if m.room_id == room_id && not m.is_deleted then m ∷ rest else rest

unfoldable pub with_reactions : List Reaction → List Message → List HistoryItem
with_reactions rs [] = []
with_reactions rs (m ∷ messages) =
    (record { message = m; reactions = group_reactions m.message_id [] rs })
    ∷ with_reactions rs messages

module _ (call : Call) where
  unfoldable pub handle_file_list_request : Option String → Server → Dict ℕ FileRow → List Sent
  unfolding files_of
  handle_file_list_request none s files = effect (sends call.conn (error missing_field)) ∷ []
  handle_file_list_request (some room) s files = elim (room_id_of s room) [
    | none ↦ effect (sends call.conn (error room_not_found)) ∷ []
    | some room_id ↦
        if call.db_up
        then lists_files call.conn room (files_of call.users room_id files) ∷ []
        else effect (sends call.conn (error internal_error)) ∷ []
  ]

  unfoldable pub show_history : String → (limit : ℕ) → Server → Posts → List Sent
  unfolding shown_in with_reactions
  show_history room limit s posts = elim (room_id_of s room) [
    | none ↦ effect (sends call.conn (error room_not_found)) ∷ []
    | some room_id ↦
        if call.db_up
        then shows_history call.conn room (
            with_reactions posts.reactions
              (reverse (call.latest limit (shown_in room_id posts.messages))))
          ∷ []
        else effect (sends call.conn (error internal_error)) ∷ []
  ]

  -- A client in no room that names none is told that there is no such room.
  unfoldable pub handle_room_history_request :
      Option String → (limit : ℕ) → Client → Server → Posts → List Sent
  unfolding show_history
  handle_room_history_request room limit info s posts =
      if same_room info.current_room room
      then elim room [
        | none ↦ effect (sends call.conn (error room_not_found)) ∷ []
        | some name ↦ show_history name limit s posts
      ]
      else effect (sends call.conn (error not_in_room)) ∷ []

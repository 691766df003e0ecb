-- ===== src/Server/Dispatch/Defs.antt =====
-- `_handle_client` of server/main.py. `none` is a KeyError or a TypeError that leaves the loop.
use netcourier.Prelude.{
  ℕ, ◌+◌, Bool, true, false, String, Option, none, some, List, [], ◌∷◌, ◌++◌, map, if◌then◌else◌,
  Text, codes, decimal, nat_eq, string_eq,
}
use netcourier.Dict.{Dict, get}
use netcourier.RateLimiter.{is_allowed}
use netcourier.Server.Rooms.Defs.{
  Client, RoomRow, Packet, Effect, Outcome, error, invalid_token, rate_limit_exceeded,
  internal_error, pong, closes, sends, uploaded, room_file_broadcast, handle_auth_backend,
  handle_join_room, broadcast_system_event, broadcast_to_room,
}
use netcourier.Server.Rooms.Handlers.{
  handle_leave_room, cleanup_client, handle_room_kick_user, handle_room_chat_send,
  handle_room_typing_indicator, handle_room_member_list_request,
}
use netcourier.Server.Transfers.Defs.{
  missing_field, Transfers, Reply, FileRow, flush_all_dirty_transfers,
}
use netcourier.Server.Transfers.Init.{handle_upload_init, all_given_text}
use netcourier.Server.Transfers.Chunks.{handle_upload_chunk}
use netcourier.Server.Transfers.Files.{
  Announcement, handle_upload_finish, handle_download_request, handle_resume_transfer,
}
use netcourier.Server.Dispatch.Queries.{handle_room_history_request, handle_file_list_request}
use netcourier.Server.Dispatch.Rows.{saved_rows}
use netcourier.Server.Dispatch.State.{
  room_history_request, file_list_request, ProcessServer, Call, Request, Sent, Handled,
  auth_backend, join_room_backend, leave_room, ping, room_chat_send, room_message_reaction,
  room_kick_user, room_delete_file, room_typing_indicator, room_member_list_request, upload_init,
  upload_init_text, upload_chunk, upload_finish, download_request, resume_transfer, effect, replies,
  pushes,
}
use netcourier.Server.Posts.Defs.{
  file, Message, Posts, handle_room_message_reaction, handle_room_delete_file, file_pattern,
}

module _ (call : Call) where
  unfoldable pub save : List Effect → Posts → Posts
  unfolding saved_rows
  save effects posts =
      if call.db_up
      then record posts { messages = posts.messages ++ saved_rows call.now call.message_id effects }
      else posts

  -- A handler of the rooms, in the whole state.
  unfoldable pub in_rooms : ProcessServer → Outcome → Handled
  unfolding save
  in_rooms p none = none
  in_rooms p (some (s, effects)) =
      some (record p { server = s; posts = save effects p.posts }, map effect effects)

  -- The clean-up of a kicked client writes the cache of the transfers first.
  abbrev pub closes_one : List Effect → Bool
  closes_one [] = false
  closes_one (closes c ∷ effects) = true
  closes_one (_ ∷ effects) = closes_one effects

  abbrev pub flush_kicked : List Effect → ProcessServer → ProcessServer
  flush_kicked effects p =
      if closes_one effects
      then record p { transfers = flush_all_dirty_transfers call.db_up p.transfers }
      else p

  unfoldable pub kick_in_rooms : ProcessServer → Outcome → Handled
  unfolding in_rooms
  kick_in_rooms p none = none
  kick_in_rooms p (some (s, effects)) = in_rooms (flush_kicked effects p) (some (s, effects))

  abbrev pub in_transfers : ProcessServer → Transfers → Reply → Handled
  in_transfers p t reply = some (record p { transfers = t }, replies call.conn reply ∷ [])

  abbrev pub refuse : ProcessServer → Packet → Handled
  refuse p packet = some (p, effect (sends call.conn packet) ∷ [])

  -- `json.dumps` of the message of type "file"; a sanitized filename needs no escape.
  unfoldable pub file_card : ℕ → Text → ℕ → Text
  unfolding file_pattern decimal
  file_card file_id filename size_bytes =
      codes "{"
      ++ (file_pattern file_id
          ++ (codes ", \"filename\": \""
              ++ (filename ++ (codes "\", \"size_bytes\": " ++ (decimal size_bytes ++ codes "}")))))

  -- The file message, behind the system event, whose row comes first.
  unfoldable pub post_file :
      ℕ → Announcement → List Effect → ProcessServer → ProcessServer × List Sent
  unfolding save file_card
  post_file room_id a event p =
      let posts' = save event p.posts in
      let card : Message = record {
        message_id = call.message_id + 1;
        room_id = room_id;
        message_type = file;
        sender_username = a.username;
        created_at = call.now;
        content = file_card a.file_id a.original_filename a.size_bytes;
        is_deleted = false;
      } in
      (
        record p { posts = record posts' { messages = posts'.messages ++ card ∷ [] } },
        map effect (
            event
            ++ broadcast_to_room p.server a.room_name (
                room_file_broadcast room_id a.room_name a.username a.file_id a.original_filename
                  a.size_bytes)),
      )

  -- The members of the room cannot be listed: INTERNAL_ERROR follows the success.
  unfoldable pub announce_upload : Option Announcement → ProcessServer → ProcessServer × List Sent
  unfolding post_file
  announce_upload none p = (p, [])
  announce_upload (some a) p =
      elim (broadcast_system_event p.server a.room_name (uploaded a.username a.original_filename)
        []) [
          | none ↦ (p, effect (sends call.conn (error internal_error)) ∷ [])
          | some event ↦ elim (get p.server.room_table a.room_name) [
            | none ↦ (p, map effect event)
            | some row ↦ post_file row.room_id a event p
          ]
        ]

  -- `SELECT room_name FROM rooms WHERE room_id = ?`
  unfoldable pub room_names : Dict String RoomRow → Dict ℕ String
  room_names [] = []
  room_names ((room_name, row) ∷ rooms) = (row.room_id, room_name) ∷ room_names rooms

  unfoldable pub finish_upload : (List ℕ → String) → ℕ → Client → ProcessServer → Handled
  unfolding announce_upload room_names
  finish_upload sha256 id info p =
      let (t, reply, announcement) =
        handle_upload_finish sha256 call.db_up (room_names p.server.room_table) info.username id
          p.transfers in
      let (p', sent) = announce_upload announcement (record p { transfers = t }) in
      some (p', replies call.conn reply ∷ sent)

  unfoldable pub chat : Option String → Option String → Client → ProcessServer → Handled
  unfolding in_rooms
  chat room message info p =
      let (limiter', allowed) = is_allowed call.now info.user_id p.chat_limiter in
      let saved = if call.db_up then some call.message_id else none in
      let p' = record p { chat_limiter = limiter' } in
      if allowed
      then in_rooms p' (handle_room_chat_send saved call.conn room message p.server)
      else refuse p (error rate_limit_exceeded)

  -- `_handle_room_message_reaction` and `_handle_room_delete_file`, whose system event is a row too.
  abbrev pub reacted_to : ProcessServer → Posts × List Effect → Handled
  reacted_to p (posts', effects) = some (record p { posts = posts' }, map effect effects)

  abbrev pub deleted_from : ProcessServer → Dict ℕ FileRow × Posts × List Effect → Handled
  deleted_from p (files', posts', effects) = some (
    record p { transfers = record p.transfers { files = files' }; posts = save effects posts' },
    map effect effects,
  )

  abbrev pub pushed : ProcessServer → Transfers × Reply × List (ℕ × List ℕ) → Handled
  pushed p (t, reply, chunks) =
      some (record p { transfers = t }, replies call.conn reply ∷ pushes call.conn chunks ∷ [])

  -- The requests that only a client may make.
  unfoldable pub serve : (List ℕ → String) → Client → Request → ProcessServer → Handled
  unfolding chat finish_upload kick_in_rooms
  serve sha256 info (room_chat_send room message) p = chat room message info p
  serve sha256 info (room_message_reaction message_id emoji adds) p = reacted_to p (
      handle_room_message_reaction call.db_up call.conn message_id emoji adds info p.server p.posts)
  serve sha256 info (room_kick_user username) p =
      kick_in_rooms p (handle_room_kick_user call.db_up call.conn username p.server)
  serve sha256 info (room_delete_file file_id) p =
      deleted_from p (
        handle_room_delete_file call.db_up call.conn file_id info p.server p.transfers.files
          p.posts)
  serve sha256 info (room_typing_indicator is_typing) p =
      in_rooms p (handle_room_typing_indicator call.conn is_typing p.server)
  serve sha256 info (room_member_list_request room) p =
      in_rooms p (handle_room_member_list_request call.conn room p.server)
  serve sha256 info (room_history_request room limit) p =
      some (p, handle_room_history_request call room limit info p.server p.posts)
  serve sha256 info (file_list_request room) p =
      some (p, handle_file_list_request call room p.server p.transfers.files)
  serve sha256 info (upload_init u) p =
      let (t, reply) =
        handle_upload_init call.db_up call.now info.user_id call.file_id call.transfer_id
          call.stored_path u p.transfers in
      in_transfers p t reply
  -- A text is not compared with a number: TypeError.
  serve sha256 info (upload_init_text u filesize) p =
      if all_given_text u filesize then none else in_transfers p p.transfers missing_field
  serve sha256 info (upload_chunk id chunk_index bytes) p =
      let (t, reply) = handle_upload_chunk call.db_up call.now id chunk_index bytes p.transfers in
      in_transfers p t reply
  serve sha256 info (upload_finish id) p = finish_upload sha256 id info p
  serve sha256 info (download_request file_id) p = pushed p (
      handle_download_request call.db_up call.now info.user_id call.transfer_id file_id p.transfers)
  serve sha256 info (resume_transfer direction id start_chunk) p =
      pushed p
        (handle_resume_transfer call.db_up (some info.user_id) direction id start_chunk p.transfers)
  serve sha256 info _ p = some (p, [])

  unfoldable pub serve_client :
      (List ℕ → String) → Option Client → Request → ProcessServer → Handled
  unfolding serve
  serve_client sha256 none request p = refuse p (error invalid_token)
  serve_client sha256 (some info) request p = serve sha256 info request p

  -- The branches on the type of the packet.
  unfoldable pub handle_packet : (List ℕ → String) → Request → ProcessServer → Handled
  unfolding in_rooms serve_client
  handle_packet sha256 (auth_backend answer) p =
      in_rooms p (handle_auth_backend call.conn answer p.server)
  handle_packet sha256 (join_room_backend room) p =
      in_rooms p (handle_join_room call.conn room p.server)
  handle_packet sha256 leave_room p = in_rooms p (handle_leave_room call.conn p.server)
  handle_packet sha256 ping p = refuse p pong
  handle_packet sha256 request p = serve_client sha256 (get p.server.clients call.conn) request p

  -- The `finally`.
  unfoldable pub close_connection : ProcessServer → Handled
  unfolding in_rooms
  close_connection p =
      in_rooms (record p { transfers = flush_all_dirty_transfers call.db_up p.transfers })
        (cleanup_client call.conn p.server)

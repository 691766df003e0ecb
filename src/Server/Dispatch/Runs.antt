-- ===== src/Server/Dispatch/Runs.antt =====
-- The loop of `_handle_client` in server/main.py meets no KeyError, and keeps clients and rooms consistent.
use netcourier.Prelude.{
  ℕ, ◌≡◌, refl, ap, inl, inr, String, Option, none, some, List, [], Bool-cases, Option-cases,
  is_some, if◌then◌else◌, nat_eq, string_eq,
}
use netcourier.Dict.{get}
use netcourier.RateLimiter.{is_allowed}
use netcourier.Server.Rooms.Defs.{
  Client, Outcome, handle_auth_backend, handle_join_room, broadcast_system_event, uploaded,
}
use netcourier.Server.Rooms.Handlers.{
  handle_room_kick_user, handle_leave_room, cleanup_client, handle_room_chat_send,
  handle_room_typing_indicator, handle_room_member_list_request,
}
use netcourier.Server.Rooms.Consistency.{Consistent}
use netcourier.Server.Rooms.Speaking.{
  handle_room_chat_send-Ends, handle_room_typing_indicator-Ends,
  handle_room_member_list_request-Ends,
}
use netcourier.Server.Rooms.Steps.{
  Ends, Outside, auths, joins, leaves, disconnects, kicks, perform, perform-Ends,
}
use netcourier.Server.Transfers.Defs.{flush_all_dirty_transfers}
use netcourier.Server.Transfers.Files.{Announcement, handle_upload_finish}
use netcourier.Server.Dispatch.State.{
  room_history_request, file_list_request, ProcessServer, Call, Request, auth_backend,
  join_room_backend, leave_room, ping, room_chat_send, room_message_reaction, room_kick_user,
  room_delete_file, room_typing_indicator, room_member_list_request, upload_init, upload_init_text,
  upload_chunk, upload_finish, download_request, resume_transfer, unhandled, Sent, Handled,
}
use netcourier.Server.Dispatch.Defs.{
  in_rooms, kick_in_rooms, flush_kicked, announce_upload, post_file, finish_upload, room_names,
  chat, serve, serve_client, handle_packet, close_connection,
}

-- The loop goes on, and the rooms are consistent.
abbrev pub GoesOn : Handled → Type 0
GoesOn none = ⊥
GoesOn (some (p, sent)) = Consistent p.server

-- The filesize of an UPLOAD_INIT is a number.
abbrev pub IsTyped : Request → Type 0
IsTyped (upload_init_text u filesize) = ⊥
IsTyped _ = Unit

module _ (call : Call) where
  in_rooms-GoesOn : (p : ProcessServer) (o : Outcome) → Ends o → GoesOn (in_rooms call p o)
  unfolding in_rooms
  in_rooms-GoesOn p none h = h
  in_rooms-GoesOn p (some (s, effects)) h = h

  kick_in_rooms-GoesOn :
      (p : ProcessServer) (o : Outcome) → Ends o → GoesOn (kick_in_rooms call p o)
  unfolding kick_in_rooms
  kick_in_rooms-GoesOn p none h = h
  kick_in_rooms-GoesOn p (some (s, effects)) h =
      in_rooms-GoesOn (flush_kicked call effects p) (some (s, effects)) h

  chat-GoesOn :
      (room message : Option String) (info : Client) (p : ProcessServer)
      → get p.server.clients call.conn ≡ some info
      → Consistent p.server
      → GoesOn (chat call room message info p)
  unfolding chat
  chat-GoesOn room message info p known v =
      elim (Bool-cases (is_allowed call.now info.user_id p.chat_limiter).1) [
        | inl allowed ↦
            let saved = if call.db_up then some call.message_id else none in
            let p' = record p {
              chat_limiter = (is_allowed call.now info.user_id p.chat_limiter).0;
            } in
            rw (chat, allowed)
              (in_rooms-GoesOn p' (handle_room_chat_send saved call.conn room message p.server)
                (handle_room_chat_send-Ends call.conn saved room message info p.server known v))
        | inr early ↦ rw (chat, early) v
      ]

  announce_upload-server :
      (o : Option Announcement) (p : ProcessServer) → (announce_upload call o p).0.server ≡ p.server
  unfolding announce_upload post_file
  announce_upload-server none p = refl
  announce_upload-server (some a) p =
      elim (Option-cases (
        broadcast_system_event p.server a.room_name (uploaded a.username a.original_filename) [])) [
          | inl fails ↦ rw (announce_upload, fails) refl
          | inr (event, told) ↦ elim (Option-cases (get p.server.room_table a.room_name)) [
            | inl gone ↦ rw (announce_upload, told, gone) refl
            | inr (row, listed) ↦ rw (announce_upload, told, listed) refl
          ]
        ]

  finish_upload-GoesOn :
      (sha256 : List ℕ → String) (id : ℕ) (info : Client) (p : ProcessServer)
      → Consistent p.server
      → GoesOn (finish_upload call sha256 id info p)
  unfolding finish_upload
  finish_upload-GoesOn sha256 id info p v =
      let result =
        handle_upload_finish sha256 call.db_up (room_names call p.server.room_table) info.username
          id p.transfers in
      rw (announce_upload-server result.2 (record p { transfers = result.0 })) v

  serve-GoesOn :
      (sha256 : List ℕ → String) (request : Request) (info : Client) (p : ProcessServer)
      → IsTyped request
      → get p.server.clients call.conn ≡ some info
      → Consistent p.server
      → GoesOn (serve call sha256 info request p)
  unfolding serve perform
  serve-GoesOn sha256 (auth_backend _) info p typed known v = v
  serve-GoesOn sha256 (join_room_backend _) info p typed known v = v
  serve-GoesOn sha256 leave_room info p typed known v = v
  serve-GoesOn sha256 ping info p typed known v = v
  serve-GoesOn sha256 (room_chat_send room message) info p typed known v =
      chat-GoesOn room message info p known v
  serve-GoesOn sha256 (room_message_reaction _ _ _) info p typed known v = v
  serve-GoesOn sha256 (room_kick_user username) info p typed known v =
      kick_in_rooms-GoesOn p (handle_room_kick_user call.db_up call.conn username p.server)
        (perform-Ends (kicks call.db_up call.conn username) p.server (ap is_some known) v)
  serve-GoesOn sha256 (room_delete_file _) info p typed known v = v
  serve-GoesOn sha256 (room_typing_indicator is_typing) info p typed known v =
      in_rooms-GoesOn p (handle_room_typing_indicator call.conn is_typing p.server)
        (handle_room_typing_indicator-Ends call.conn is_typing info p.server known v)
  serve-GoesOn sha256 (room_member_list_request room) info p typed known v =
      in_rooms-GoesOn p (handle_room_member_list_request call.conn room p.server)
        (handle_room_member_list_request-Ends call.conn room info p.server known v)
  serve-GoesOn sha256 (room_history_request _ _) info p typed known v = v
  serve-GoesOn sha256 (file_list_request _) info p typed known v = v
  serve-GoesOn sha256 (upload_init _) info p typed known v = v
  serve-GoesOn sha256 (upload_init_text _ _) info p typed known v = absurd typed
  serve-GoesOn sha256 (upload_chunk _ _ _) info p typed known v = v
  serve-GoesOn sha256 (upload_finish id) info p typed known v =
      finish_upload-GoesOn sha256 id info p v
  serve-GoesOn sha256 (download_request _) info p typed known v = v
  serve-GoesOn sha256 (resume_transfer _ _ _) info p typed known v = v
  serve-GoesOn sha256 unhandled info p typed known v = v

  serve_client-GoesOn :
      (sha256 : List ℕ → String) (request : Request) (p : ProcessServer)
      → IsTyped request
      → Consistent p.server
      → GoesOn (serve_client call sha256 (get p.server.clients call.conn) request p)
  unfolding serve_client
  serve_client-GoesOn sha256 request p typed v =
      elim (Option-cases (get p.server.clients call.conn)) [
        | inl unknown ↦ rw (serve_client, unknown) v
        | inr (info, known) ↦
            rw (serve_client, known) (serve-GoesOn sha256 request info p typed known v)
      ]

  -- A socket that authenticates is in no room, and the filesize of an UPLOAD_INIT is a number.
  abbrev pub MayAsk : Request → ProcessServer → Type 0
  MayAsk (auth_backend answer) p = Outside p.server call.conn
  MayAsk request p = IsTyped request

  -- No packet of a client ends in a KeyError from a consistent state, and the state stays consistent.
  handle_packet-GoesOn :
      (sha256 : List ℕ → String) (request : Request) (p : ProcessServer)
      → MayAsk request p
      → Consistent p.server
      → GoesOn (handle_packet call sha256 request p)
  unfolding handle_packet perform
  handle_packet-GoesOn sha256 (auth_backend answer) p h v =
      in_rooms-GoesOn p (handle_auth_backend call.conn answer p.server)
        (perform-Ends (auths call.conn answer) p.server h v)
  handle_packet-GoesOn sha256 (join_room_backend room) p h v =
      in_rooms-GoesOn p (handle_join_room call.conn room p.server)
        (perform-Ends (joins call.conn room) p.server tt v)
  handle_packet-GoesOn sha256 leave_room p h v =
      in_rooms-GoesOn p (handle_leave_room call.conn p.server)
        (perform-Ends (leaves call.conn) p.server tt v)
  handle_packet-GoesOn sha256 ping p h v = v
  handle_packet-GoesOn sha256 (room_chat_send room message) p h v =
      serve_client-GoesOn sha256 (room_chat_send room message) p tt v
  handle_packet-GoesOn sha256 (room_message_reaction message_id emoji adds) p h v =
      serve_client-GoesOn sha256 (room_message_reaction message_id emoji adds) p tt v
  handle_packet-GoesOn sha256 (room_kick_user username) p h v =
      serve_client-GoesOn sha256 (room_kick_user username) p tt v
  handle_packet-GoesOn sha256 (room_delete_file file_id) p h v =
      serve_client-GoesOn sha256 (room_delete_file file_id) p tt v
  handle_packet-GoesOn sha256 (room_typing_indicator is_typing) p h v =
      serve_client-GoesOn sha256 (room_typing_indicator is_typing) p tt v
  handle_packet-GoesOn sha256 (room_member_list_request room) p h v =
      serve_client-GoesOn sha256 (room_member_list_request room) p tt v
  handle_packet-GoesOn sha256 (room_history_request room limit) p h v =
      serve_client-GoesOn sha256 (room_history_request room limit) p tt v
  handle_packet-GoesOn sha256 (file_list_request room) p h v =
      serve_client-GoesOn sha256 (file_list_request room) p tt v
  handle_packet-GoesOn sha256 (upload_init u) p h v =
      serve_client-GoesOn sha256 (upload_init u) p tt v
  handle_packet-GoesOn sha256 (upload_init_text u filesize) p h v = absurd h
  handle_packet-GoesOn sha256 (upload_chunk id chunk_index bytes) p h v =
      serve_client-GoesOn sha256 (upload_chunk id chunk_index bytes) p tt v
  handle_packet-GoesOn sha256 (upload_finish id) p h v =
      serve_client-GoesOn sha256 (upload_finish id) p tt v
  handle_packet-GoesOn sha256 (download_request file_id) p h v =
      serve_client-GoesOn sha256 (download_request file_id) p tt v
  handle_packet-GoesOn sha256 (resume_transfer direction id start_chunk) p h v =
      serve_client-GoesOn sha256 (resume_transfer direction id start_chunk) p tt v
  handle_packet-GoesOn sha256 unhandled p h v = serve_client-GoesOn sha256 unhandled p tt v

  close_connection-GoesOn :
      (p : ProcessServer) → Consistent p.server → GoesOn (close_connection call p)
  unfolding close_connection perform
  close_connection-GoesOn p v =
      let p' = record p { transfers = flush_all_dirty_transfers call.db_up p.transfers } in
      in_rooms-GoesOn p' (cleanup_client call.conn p.server)
        (perform-Ends (disconnects call.conn) p.server tt v)

-- What the process server goes through: the packets of its clients, and the ends of connections.
pub data Step (sha256 : List ℕ → String) (p : ProcessServer) : Handled → Type 0 where
  receives :
      (call : Call) (request : Request)
      → MayAsk call request p
      → Step sha256 p (handle_packet call sha256 request p)
  ends : (call : Call) → Step sha256 p (close_connection call p)

pub data Reach (sha256 : List ℕ → String) (p : ProcessServer) : Handled → Type 0 where
  starts : Reach sha256 p (some (p, []))
  next :
      {h : Handled} {q : ProcessServer} {sent : List Sent}
      → Reach sha256 p (some (q, sent))
      → Step sha256 q h
      → Reach sha256 p h

Step-GoesOn :
    {sha256 : List ℕ → String} {p : ProcessServer} {h : Handled}
    → Consistent p.server
    → Step sha256 p h
    → GoesOn h
Step-GoesOn {sha256} {p} v (receives call request may) =
    handle_packet-GoesOn call sha256 request p may v
Step-GoesOn {sha256} {p} v (ends call) = close_connection-GoesOn call p v

-- Over any packets of clients, whose payloads are objects with fields of the types of the protocol, and
-- any ends of connections, each handled from its first to its last statement before the next begins, as
-- long as no socket that is in a room authenticates again: no handler ends in a KeyError, and the set of
-- each room holds just the clients whose current room it is. The state at the start is such a one.
pub Reach-GoesOn :
    {sha256 : List ℕ → String} {p : ProcessServer} {h : Handled}
    → Consistent p.server
    → Reach sha256 p h
    → GoesOn h
Reach-GoesOn v starts = v
Reach-GoesOn v (next r step) = Step-GoesOn (Reach-GoesOn v r) step

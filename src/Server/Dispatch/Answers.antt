-- ===== src/Server/Dispatch/Answers.antt =====
-- Which packets of a client server/main.py answers.
use mathlib.Core.List.{append_assoc}
use netcourier.Prelude.{
  ℕ, ◌≡◌, refl, sym, ap, ◌∙◌, inl, inr, arith, Bool, true, false, ◌&&◌, ◌||◌, String, Option, none,
  some, List, [], ◌∷◌, ◌++◌, map, elem, Bool-cases, Option-cases, nat_eq, string_eq, ◌==◌, beq_refl,
  if◌then◌else◌,
}
use netcourier.Dict.{Dict, get}
use netcourier.RateLimiter.{is_allowed}
use netcourier.Server.Rooms.Defs.{
  room_id_of, Client, Server, Outcome, Effect, sends, tells_gateway, saves_event, saves_chat,
  closes, broadcast_system_event, file_deleted, room_reaction_broadcast, delete_file_ok,
}
use netcourier.Server.Rooms.Handlers.{same_room, is_room_owner, handle_room_chat_send}
use netcourier.Server.Rooms.Consistency.{Consistent}
use netcourier.Server.Rooms.Delivery.{addressees}
use netcourier.Server.Rooms.Answers.{Tells, told-last, broadcast-Tells, handle_room_chat_send-Tells}
use netcourier.Server.Transfers.Defs.{Reply, FileRow}
use netcourier.Server.Transfers.Answers.{is_reply}
use netcourier.Server.Posts.Defs.{
  Posts, Number, number, not_a_number, Reaction, handle_room_message_reaction, react,
  group_reactions, insert_reaction, delete_reaction, delete_file, handle_room_delete_file,
  find_card, card_broadcast,
}
use netcourier.Server.Dispatch.Queries.{
  show_history, handle_room_history_request, handle_file_list_request,
}
use netcourier.Server.Dispatch.State.{
  lists_files, shows_history, ProcessServer, Call, Request, Sent, Handled, effect, replies, pushes,
  upload_init_text, room_typing_indicator, upload_finish, resume_transfer, unhandled,
}
use netcourier.Server.Dispatch.Defs.{in_rooms, kick_in_rooms, flush_kicked, chat}

-- Whether a packet goes to that socket.
abbrev pub goes_to : ℕ → Sent → Bool
goes_to conn (effect (sends c packet)) = c == conn
goes_to conn (effect _) = false
goes_to conn (replies c reply) = c == conn && is_reply reply
goes_to conn (pushes c chunks) = false
goes_to conn (lists_files c room files) = c == conn
goes_to conn (shows_history c room items) = c == conn

abbrev pub is_told : ℕ → List Sent → Bool
is_told conn [] = false
is_told conn (x ∷ sent) = goes_to conn x || is_told conn sent

-- The loop goes on, and the client has got a packet.
abbrev pub IsAnswered : ℕ → Handled → Type 0
IsAnswered conn none = ⊥
IsAnswered conn (some (p, sent)) = is_told conn sent ≡ true

-- All types of packets but a typing indicator, the end of an upload (of a transfer that is not there,
-- which is passed over), a resumption in no direction, and an unknown type.
abbrev pub expects_answer : Request → Bool
expects_answer (upload_init_text _ _) = false
expects_answer (room_typing_indicator _) = false
expects_answer (upload_finish _) = false
expects_answer (resume_transfer none _ _) = false
expects_answer unhandled = false
expects_answer _ = true

pub is_told-effects :
    (conn : ℕ) (effects : List Effect)
    → is_told conn (map effect effects) ≡ elem conn (addressees effects)
is_told-effects conn [] = refl
is_told-effects conn (sends c packet ∷ effects) =
    ap (λ b. c == conn || b) (is_told-effects conn effects)
is_told-effects conn (tells_gateway _ _ _ _ ∷ effects) = is_told-effects conn effects
is_told-effects conn (saves_event _ _ ∷ effects) = is_told-effects conn effects
is_told-effects conn (saves_chat _ _ _ _ ∷ effects) = is_told-effects conn effects
is_told-effects conn (closes _ ∷ effects) = is_told-effects conn effects

module _ (call : Call) where
  pub in_rooms-IsAnswered :
      (p : ProcessServer) (o : Outcome)
      → Tells call.conn o
      → IsAnswered call.conn (in_rooms call p o)
  unfolding in_rooms
  in_rooms-IsAnswered p none h = h
  in_rooms-IsAnswered p (some (s, effects)) h = is_told-effects call.conn effects ∙ h

  pub kick_in_rooms-IsAnswered :
      (p : ProcessServer) (o : Outcome)
      → Tells call.conn o
      → IsAnswered call.conn (kick_in_rooms call p o)
  unfolding kick_in_rooms
  kick_in_rooms-IsAnswered p none h = h
  kick_in_rooms-IsAnswered p (some (s, effects)) h =
      in_rooms-IsAnswered (flush_kicked call effects p) (some (s, effects)) h

  pub replied :
      (reply : Reply) (sent : List Sent)
      → is_reply reply ≡ true
      → is_told call.conn (replies call.conn reply ∷ sent) ≡ true
  replied reply sent h = ground (arith, h, beq_refl call.conn)

  pub chat-IsAnswered :
      (room message : Option String) (info : Client) (p : ProcessServer)
      → get p.server.clients call.conn ≡ some info
      → Consistent p.server
      → IsAnswered call.conn (chat call room message info p)
  unfolding chat
  chat-IsAnswered room message info p known v =
      elim (Bool-cases (is_allowed call.now info.user_id p.chat_limiter).1) [
        | inl allowed ↦
            let saved = if call.db_up then some call.message_id else none in
            let p' = record p {
              chat_limiter = (is_allowed call.now info.user_id p.chat_limiter).0;
            } in
            rw (chat, allowed)
              (in_rooms-IsAnswered p' (handle_room_chat_send saved call.conn room message p.server)
                (handle_room_chat_send-Tells call.conn saved room message info p.server known v))
        | inr early ↦ rw (chat, early) (ground arith)
      ]

  pub reaction-told :
      (db_up : Bool) (message_id : Option Number) (emoji : Option String) (adds : Bool)
      (info : Client) (s : Server) (posts : Posts)
      → get s.clients call.conn ≡ some info
      → Consistent s
      → elem call.conn (
          addressees
            (handle_room_message_reaction db_up call.conn message_id emoji adds info s posts).1)
        ≡ true
  unfolding handle_room_message_reaction react
  reaction-told db_up none emoji adds info s posts known v = ground arith
  reaction-told db_up (some m) none adds info s posts known v = ground arith
  reaction-told db_up (some not_a_number) (some emoji) adds info s posts known v =
      elim (Option-cases info.current_room) [
        | inl out ↦ rw (handle_room_message_reaction, out) (ground arith)
        | inr (room, inside) ↦ rw (handle_room_message_reaction, inside) (ground arith)
      ]
  reaction-told false (some (number n)) (some emoji) adds info s posts known v =
      elim (Option-cases info.current_room) [
        | inl out ↦ rw (handle_room_message_reaction, out) (ground arith)
        | inr (room, inside) ↦ rw (handle_room_message_reaction, inside) (ground arith)
      ]
  reaction-told true (some (number n)) (some emoji) adds info s posts known v =
      elim (Option-cases info.current_room) [
        | inl out ↦ rw (handle_room_message_reaction, out) (ground arith)
        | inr (room, inside) ↦
            let r : Reaction = record {
              message_id = n;
              user_id = info.user_id;
              username = info.username;
              emoji = emoji;
            } in
            let rs =
              if adds
              then insert_reaction posts.messages r posts.reactions
              else delete_reaction n info.user_id emoji posts.reactions in
            rw (handle_room_message_reaction, inside)
              (broadcast-Tells call.conn room
                (room_reaction_broadcast n room emoji adds info.username (group_reactions n [] rs))
                info s known inside v)
      ]

  delete_file-told :
      (n : ℕ) (room : String) (s : Server) (files : Dict ℕ FileRow) (posts : Posts)
      → elem call.conn (addressees (delete_file call.conn n room s files posts).2) ≡ true
  unfolding delete_file
  delete_file-told n room s files posts =
      elim (Option-cases (broadcast_system_event s room file_deleted [])) [
        | inl fails ↦ rw (delete_file, fails) (ground arith)
        | inr (event, told) ↦
            let card = card_broadcast s room n (find_card n posts.messages) in
            rw (delete_file, told)
              (rw (sym (append_assoc event card (sends call.conn (delete_file_ok n) ∷ [])))
                (told-last call.conn (event ++ card) (delete_file_ok n)))
      ]

  pub deletion-told :
      (db_up : Bool) (n : ℕ) (info : Client) (s : Server) (files : Dict ℕ FileRow) (posts : Posts)
      → elem call.conn (addressees (handle_room_delete_file db_up call.conn n info s files posts).2)
        ≡ true
  unfolding handle_room_delete_file
  deletion-told db_up n info s files posts = elim (Option-cases info.current_room) [
    | inl out ↦ rw (handle_room_delete_file, out) (unfold is_room_owner in ground arith)
    | inr (room, inside) ↦ elim (Bool-cases (is_room_owner db_up info.user_id (some room) s)) [
      | inl owner ↦
          rw (handle_room_delete_file, inside, owner) (delete_file-told n room s files posts)
      | inr other ↦ rw (handle_room_delete_file, inside, other) (ground arith)
    ]
  ]

  pub file_list-told :
      (room : Option String) (s : Server) (files : Dict ℕ FileRow)
      → is_told call.conn (handle_file_list_request call room s files) ≡ true
  unfolding handle_file_list_request
  file_list-told none s files = ground arith
  file_list-told (some room) s files = elim (Option-cases (room_id_of s room)) [
    | inl unlisted ↦ rw (handle_file_list_request, unlisted) (ground arith)
    | inr (room_id, listed) ↦ elim (Bool-cases call.db_up) [
      | inl up ↦ rw (handle_file_list_request, listed, up) (ground arith)
      | inr down ↦ rw (handle_file_list_request, listed, down) (ground arith)
    ]
  ]

  history-told :
      (room : String) (limit : ℕ) (s : Server) (posts : Posts)
      → is_told call.conn (show_history call room limit s posts) ≡ true
  unfolding show_history
  history-told room limit s posts = elim (Option-cases (room_id_of s room)) [
    | inl unlisted ↦ rw (show_history, unlisted) (ground arith)
    | inr (room_id, listed) ↦ elim (Bool-cases call.db_up) [
      | inl up ↦ rw (show_history, listed, up) (ground arith)
      | inr down ↦ rw (show_history, listed, down) (ground arith)
    ]
  ]

  pub room_history-told :
      (room : Option String) (limit : ℕ) (info : Client) (s : Server) (posts : Posts)
      → is_told call.conn (handle_room_history_request call room limit info s posts) ≡ true
  unfolding handle_room_history_request
  room_history-told room limit info s posts = elim (Bool-cases (same_room info.current_room room)) [
    | inr away ↦ rw (handle_room_history_request, away) (ground arith)
    | inl here ↦ elim (Option-cases room) [
      | inl unnamed ↦ rw (handle_room_history_request, here, unnamed) (ground arith)
      | inr (name, named) ↦
          rw (handle_room_history_request, here, named) (history-told name limit s posts)
    ]
  ]

-- ===== src/Server/Rooms/Answers.antt =====
-- The handlers of server/main.py on rooms answer the client that asked.
use mathlib.Core.Path.{subst}
use netcourier.Prelude.{
  ℕ, ◌≡◌, ap, ◌∙◌, inl, inr, arith, Bool, true, String, Option, none, some, List, [], ◌∷◌, ◌++◌,
  elem, Bool-cases, Option-cases, nat_eq, string_eq, beq_refl, eq_iff,
}
use netcourier.Dict.{get}
use netcourier.Server.Rooms.Defs.{
  Client, Server, Packet, Outcome, Effect, Event, sends, tells_gateway, saves_event, saves_chat,
  closes, Validation, valid, refused, unreachable, handle_auth_backend, handle_join_room,
  finish_join, lock_and_enter, enter_room, join_room_ok, broadcast_to_room, room_id_of,
  kick_user_ok, kicked, room_chat_broadcast,
}
use netcourier.Server.Rooms.Handlers.{
  exit_room, handle_leave_room, kick, kick_found, handle_room_kick_user, is_room_owner, find_client,
  cleanup_client, handle_room_chat_send, handle_room_member_list_request, same_room,
}
use netcourier.Server.Rooms.Consistency.{
  Consistent, in_room, is_in, enter_room-Consistent, exit_room-Consistent,
}
use netcourier.Server.Rooms.Steps.{
  Ends, get_room_members-some, broadcast_system_event-some, cleanup_client-Ends,
}
use netcourier.Server.Rooms.Delivery.{addressees, broadcast-in_room}

abbrev pub Tells : ℕ → Outcome → Type 0
Tells conn none = ⊥
Tells conn (some (s, effects)) = elem conn (addressees effects) ≡ true

-- The last effect is an answer.
pub told-last :
    (conn : ℕ) (effects : List Effect) (packet : Packet)
    → elem conn (addressees (effects ++ sends conn packet ∷ [])) ≡ true
told-last conn [] packet = ground (arith, beq_refl conn)
told-last conn (sends c p ∷ effects) packet =
    let rest = told-last conn effects packet in ground (arith, rest)
told-last conn (tells_gateway _ _ _ _ ∷ effects) packet = told-last conn effects packet
told-last conn (saves_event _ _ ∷ effects) packet = told-last conn effects packet
told-last conn (saves_chat _ _ _ _ ∷ effects) packet = told-last conn effects packet
told-last conn (closes _ ∷ effects) packet = told-last conn effects packet

same_room-some :
    (o : Option String) (room : String) → same_room o (some room) ≡ true → o ≡ some room
same_room-some none room h = absurd (cc h)
same_room-some (some r) room h = ap some ((eq_iff r room).0 h)

module _ (conn : ℕ) where
  pub handle_auth_backend-Tells :
      (answer : Option Validation) (s : Server) → Tells conn (handle_auth_backend conn answer s)
  unfolding handle_auth_backend
  handle_auth_backend-Tells none s = ground arith
  handle_auth_backend-Tells (some refused) s = ground arith
  handle_auth_backend-Tells (some unreachable) s = ground arith
  handle_auth_backend-Tells (some (valid id name)) s = ground arith

  pub handle_join_room-Tells :
      (room : Option String) (s : Server) → Consistent s → Tells conn (handle_join_room conn room s)
  unfolding handle_join_room
  handle_join_room-Tells none s v = ground arith
  handle_join_room-Tells (some room) s v = elim (Option-cases (get s.clients conn)) [
    | inl e ↦ rw (e, handle_join_room, Tells) (ground arith)
    | inr (info, e) ↦
        let s' = enter_room conn info room s in
        let v' = enter_room-Consistent conn info room s e v in
        let (names, listed) = get_room_members-some s' room v' in
        let (event, told) =
          broadcast_system_event-some s' room (Event.joined info.username) names v' in
        rw (e, handle_join_room, finish_join, lock_and_enter, Tells, e, listed, told)
          (told-last conn (tells_gateway info.user_id info.username "in_room" (some room) ∷ event)
            (join_room_ok room))
  ]

  pub handle_leave_room-Tells : (s : Server) → Consistent s → Tells conn (handle_leave_room conn s)
  unfolding handle_leave_room
  handle_leave_room-Tells s v = elim (Option-cases (get s.clients conn)) [
    | inl e ↦ rw (e, handle_leave_room, Tells) (ground arith)
    | inr (info, e) ↦ elim (Option-cases info.current_room) [
      | inl out ↦ rw (e, handle_leave_room, Tells, out) (ground arith)
      | inr (room, inside) ↦
          let s' = exit_room conn info s in
          let v' = exit_room-Consistent conn info s e v in
          let (names, listed) = get_room_members-some s' room v' in
          let (event, told) =
            broadcast_system_event-some s' room (Event.left_room info.username) names v' in
          rw (e, handle_leave_room, Tells, inside, listed, told) (ground arith)
    ]
  ]

  kick-Tells :
      (room username : String) (s : Server) (target : ℕ)
      → Consistent s
      → Tells conn (kick conn room username s target)
  unfolding kick
  kick-Tells room username s target v =
      let cleaned = cleanup_client-Ends target s v in
      elim (Option-cases (cleanup_client target s)) [
        | inl e ↦ absurd (subst Ends e cleaned)
        | inr ((s', effects), e) ↦
            let v' : Consistent s' = subst Ends e cleaned in
            let (event, told) =
              broadcast_system_event-some s' room (Event.was_kicked username) [] v' in
            rw (e, kick, Tells, told)
              (told-last conn ((sends target (kicked room) ∷ effects) ++ (closes target ∷ event))
                (kick_user_ok username))
      ]

  kick_found-Tells :
      (room : Option String) (username : String) (s : Server) (target : Option ℕ)
      → Consistent s
      → Tells conn (kick_found conn room username s target)
  unfolding kick_found
  kick_found-Tells none username s none v = ground arith
  kick_found-Tells none username s (some t) v = ground arith
  kick_found-Tells (some r) username s none v = ground arith
  kick_found-Tells (some r) username s (some t) v = kick-Tells r username s t v

  pub handle_room_kick_user-Tells :
      (db_up : Bool) (username : String) (info : Client) (s : Server)
      → get s.clients conn ≡ some info
      → Consistent s
      → Tells conn (handle_room_kick_user db_up conn username s)
  unfolding handle_room_kick_user
  handle_room_kick_user-Tells db_up username info s known v =
      elim (Bool-cases (is_room_owner db_up info.user_id info.current_room s)) [
        | inl owner ↦
            rw (known, handle_room_kick_user, Tells, owner)
              (kick_found-Tells info.current_room username s
                (find_client username info.current_room s.clients) v)
        | inr other ↦ rw (known, handle_room_kick_user, Tells, other) (ground arith)
      ]

  -- A client is in the room that it is in.
  pub broadcast-Tells :
      (room : String) (packet : Packet) (info : Client) (s : Server)
      → get s.clients conn ≡ some info
      → info.current_room ≡ some room
      → Consistent s
      → elem conn (addressees (broadcast_to_room s room packet)) ≡ true
  broadcast-Tells room packet info s known inside v =
      broadcast-in_room s room packet conn v
      ∙ ap (λ (o : Option Client). in_room o room) known
      ∙ ap (λ (o : Option String). is_in o room) inside
      ∙ beq_refl room

  pub handle_room_chat_send-Tells :
      (saved : Option ℕ) (room message : Option String) (info : Client) (s : Server)
      → get s.clients conn ≡ some info
      → Consistent s
      → Tells conn (handle_room_chat_send saved conn room message s)
  unfolding handle_room_chat_send
  handle_room_chat_send-Tells saved none message info s known v = ground arith
  handle_room_chat_send-Tells saved (some room) none info s known v = ground arith
  handle_room_chat_send-Tells saved (some room) (some message) info s known v =
      elim (Bool-cases (same_room info.current_room (some room))) [
        | inr away ↦ rw (handle_room_chat_send, known, Tells, away) (ground arith)
        | inl inside ↦ elim (Option-cases (room_id_of s room)) [
          | inl unlisted ↦ rw (handle_room_chat_send, known, Tells, inside, unlisted) (ground arith)
          | inr (room_id, listed) ↦ elim (Option-cases saved) [
            | inl unsaved ↦
                rw (handle_room_chat_send, known, Tells, inside, listed, unsaved) (ground arith)
            | inr (message_id, is_saved) ↦
                rw (handle_room_chat_send, known, Tells, inside, listed, is_saved)
                  (broadcast-Tells room
                    (room_chat_broadcast message_id room_id room info.username message) info s known
                    (same_room-some info.current_room room inside) v)
          ]
        ]
      ]

  pub handle_room_member_list_request-Tells :
      (room : String) (info : Client) (s : Server)
      → get s.clients conn ≡ some info
      → Consistent s
      → Tells conn (handle_room_member_list_request conn room s)
  unfolding handle_room_member_list_request
  handle_room_member_list_request-Tells room info s known v =
      elim (Bool-cases (same_room info.current_room (some room))) [
        | inr away ↦ rw (handle_room_member_list_request, known, Tells, away) (ground arith)
        | inl inside ↦
            let (names, listed) = get_room_members-some s room v in
            rw (handle_room_member_list_request, known, Tells, inside, listed) (ground arith)
      ]

-- ===== src/Server/Rooms/Speaking.antt =====
-- The handlers of server/main.py that speak to a room end without a KeyError.
use netcourier.Prelude.{
  ℕ, ◌≡◌, inl, inr, Bool, String, Option, none, some, Bool-cases, Option-cases, nat_eq, string_eq,
}
use netcourier.Dict.{get}
use netcourier.Server.Rooms.Defs.{Client, Server, room_id_of}
use netcourier.Server.Rooms.Handlers.{
  handle_room_chat_send, handle_room_typing_indicator, handle_room_member_list_request, same_room,
}
use netcourier.Server.Rooms.Consistency.{Consistent}
use netcourier.Server.Rooms.Steps.{Ends, get_room_members-some}

pub handle_room_chat_send-Ends :
    (conn : ℕ) (saved : Option ℕ) (room message : Option String) (info : Client) (s : Server)
    → get s.clients conn ≡ some info
    → Consistent s
    → Ends (handle_room_chat_send saved conn room message s)
unfolding handle_room_chat_send
handle_room_chat_send-Ends conn saved none message info s known v = v
handle_room_chat_send-Ends conn saved (some room) none info s known v = v
handle_room_chat_send-Ends conn saved (some room) (some message) info s known v =
    elim (Bool-cases (same_room info.current_room (some room))) [
      | inr away ↦ rw (handle_room_chat_send, known, away) v
      | inl inside ↦ elim (Option-cases (room_id_of s room)) [
        | inl unlisted ↦ rw (handle_room_chat_send, known, inside, unlisted) v
        | inr (room_id, listed) ↦ elim (Option-cases saved) [
          | inl unsaved ↦ rw (handle_room_chat_send, known, inside, listed, unsaved) v
          | inr (message_id, is_saved) ↦
              rw (handle_room_chat_send, known, inside, listed, is_saved) v
        ]
      ]
    ]

pub handle_room_typing_indicator-Ends :
    (conn : ℕ) (is_typing : Bool) (info : Client) (s : Server)
    → get s.clients conn ≡ some info
    → Consistent s
    → Ends (handle_room_typing_indicator conn is_typing s)
unfolding handle_room_typing_indicator
handle_room_typing_indicator-Ends conn is_typing info s known v =
    elim (Option-cases info.current_room) [
      | inl out ↦ rw (handle_room_typing_indicator, known, out) v
      | inr (room, inside) ↦ rw (handle_room_typing_indicator, known, inside) v
    ]

pub handle_room_member_list_request-Ends :
    (conn : ℕ) (room : String) (info : Client) (s : Server)
    → get s.clients conn ≡ some info
    → Consistent s
    → Ends (handle_room_member_list_request conn room s)
unfolding handle_room_member_list_request
handle_room_member_list_request-Ends conn room info s known v =
    elim (Bool-cases (same_room info.current_room (some room))) [
      | inr away ↦ rw (handle_room_member_list_request, known, away) v
      | inl inside ↦
          let (names, listed) = get_room_members-some s room v in
          rw (handle_room_member_list_request, known, inside, listed) v
    ]

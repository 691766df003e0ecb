-- ===== src/Server/Rooms/Delivery.antt =====
-- Whom the handlers of server/main.py speak to, and a second authentication on one socket.
use netcourier.Prelude.{
  ℕ, ◌≡◌, refl, ap, ◌∙◌, inl, inr, true, String, none, some, List, [], ◌∷◌, arith, elem, nat_eq,
  nat_eqb, nat_eqb_iff, string_eq, Bool-cases, Option-cases, beq_refl, map,
}
use netcourier.Dict.{Dict, get, put, del, get-del, get-put_same}
use netcourier.Server.Rooms.Defs.{
  Client, Server, Effect, Packet, ◌>>=◌, usernames, members_of, get_room_members, broadcast_to_room,
  sends, valid, handle_auth_backend, leave_room_logic,
}
use netcourier.Server.Rooms.Handlers.{remove_client, cleanup_client}
use netcourier.Server.Rooms.Sets.{at}
use netcourier.Server.Rooms.Consistency.{Consistent, in_room}

-- The sockets that the packets go to.
abbrev pub addressees : List Effect → List ℕ
addressees [] = []
addressees (sends c packet ∷ effects) = c ∷ addressees effects
addressees (_ ∷ effects) = addressees effects

addressees-map : (packet : Packet) (cs : List ℕ) → addressees (map (λ c. sends c packet) cs) ≡ cs
addressees-map packet [] = refl
addressees-map packet (c ∷ cs) = ap (λ x. c ∷ x) (addressees-map packet cs)

pub broadcast-in_room :
    (s : Server) (room : String) (packet : Packet) (c : ℕ)
    → Consistent s
    → elem c (addressees (broadcast_to_room s room packet)) ≡ in_room (get s.clients c) room
unfolding broadcast_to_room members_of
broadcast-in_room s room packet c v =
    ap (elem c) (addressees-map packet (at s.rooms room)) ∙ v.agree c room

pub usernames-none :
    (clients : Dict ℕ Client) (cs : List ℕ) (c : ℕ)
    → elem c cs ≡ true
    → get clients c ≡ none
    → usernames clients cs ≡ none
unfolding usernames
usernames-none clients [] c e gone = cc e
usernames-none clients (x ∷ cs) c e gone = elim (Bool-cases (nat_eqb x c)) [
  | inl same ↦
      let here : get clients x ≡ none = rw ((nat_eqb_iff x c).0 same) gone in
      rw (here, usernames) refl
  | inr other ↦
      let rest = usernames-none clients cs c (ground (arith, e, other)) gone in
      elim (Option-cases (get clients x)) [
        | inl lost ↦ rw (lost, usernames) refl
        | inr (info, found) ↦ rw (found, usernames, rest) refl
      ]
]

-- A client that is in a room and authenticates once more on its socket, and then disconnects, leaves
-- its socket in the set of the room, which is no client: the members of that room cannot be listed
-- any more (a KeyError).
pub handle_auth_backend_twice :
    (conn user_id : ℕ) (username room : String) (s : Server)
    → Consistent s
    → in_room (get s.clients conn) room ≡ true
    → (s' : Server) × ((handle_auth_backend conn (some (valid user_id username)) s >>= λ r.
          cleanup_client conn r.0)
        ≡ some (s', []))
      × (get_room_members s' room ≡ none)
unfolding handle_auth_backend cleanup_client get_room_members remove_client members_of
    leave_room_logic
handle_auth_backend_twice conn user_id username room s v inside =
    let info : Client = record { user_id = user_id; username = username; current_room = none } in
    let s' : Server = record s { clients = put s.clients conn info } in
    (
      remove_client conn info s',
      rw (get-put_same s.clients conn info, cleanup_client) refl,
      usernames-none (del (put s.clients conn info) conn) (at s.rooms room) conn
          (v.agree conn room ∙ inside)
          (get-del (put s.clients conn info) conn conn ∙ rw (beq_refl conn) refl),
    )

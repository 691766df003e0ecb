-- ===== src/Server/Rooms/Steps.antt =====
-- The handlers of server/main.py keep `clients` and `rooms` consistent, and none of them meets a
-- KeyError, as long as no socket that is in a room authenticates again.
use mathlib.Core.Option.{some-ne-none}
use mathlib.Core.Path.{subst}
use netcourier.Prelude.{
  ℕ, ◌≡◌, refl, sym, ap, ◌∙◌, inl, inr, Bool, true, false, String, Option, none, some, List, [],
  ◌∷◌, arith, elem, nat_eq, nat_eqb, nat_eqb_iff, string_eq, Bool-cases, Option-cases, is_some,
}
use netcourier.Dict.{Dict, get, get-put}
use netcourier.Server.Rooms.Defs.{
  Client, Server, Effect, Event, Outcome, usernames, get_room_members, event_members,
  broadcast_system_event, Validation, valid, refused, unreachable, handle_auth_backend, enter_room,
  handle_join_room, finish_join, lock_and_enter,
}
use netcourier.Server.Rooms.Handlers.{
  exit_room, handle_leave_room, remove_client, cleanup_client, is_room_owner, find_client, kick,
  kick_found, handle_room_kick_user,
}
use netcourier.Server.Rooms.Sets.{at}
use netcourier.Server.Rooms.Consistency.{
  Consistent, in_room, enter_room-Consistent, exit_room-Consistent, remove_client-Consistent,
}

usernames-some :
    (clients : Dict ℕ Client) (cs : List ℕ)
    → ((c : ℕ) → elem c cs ≡ true → is_some (get clients c) ≡ true)
    → (names : List String) × (usernames clients cs ≡ some names)
unfolding usernames
usernames-some clients [] h = ([], refl)
usernames-some clients (c ∷ cs) h =
    let (names, rest) = usernames-some clients cs (λ x e. h x (ground (arith, e))) in
    elim (Option-cases (get clients c)) [
      | inl e ↦
          let here : is_some (get clients c) ≡ true = h c (ground (arith)) in
          cc (here, ap is_some e)
      | inr (info, e) ↦ (info.username ∷ names, rw (e, rest))
    ]

pub get_room_members-some :
    (s : Server) (r : String)
    → Consistent s
    → (names : List String) × (get_room_members s r ≡ some names)
unfolding get_room_members
get_room_members-some s r v =
    usernames-some s.clients (at s.rooms r) (λ c e. known c (sym (v.agree c r) ∙ e))
  where
    known : (c : ℕ) → in_room (get s.clients c) r ≡ true → is_some (get s.clients c) ≡ true
    known c e = ground (arith, e)

pub broadcast_system_event-some :
    (s : Server) (r : String) (message : Event) (members : List String)
    → Consistent s
    → (effects : List Effect) × (broadcast_system_event s r message members ≡ some effects)
unfolding broadcast_system_event
broadcast_system_event-some s r message members v =
    elim (Option-cases (broadcast_system_event s r message members)) [
      | inl e ↦ absurd (some-ne-none (event_members-some members).0 (lost members e))
      | inr found ↦ found
    ]
  where
    event_members-some :
        (members : List String) → (listed : List String) × (event_members s r members ≡ some listed)
    event_members-some [] = get_room_members-some s r v
    event_members-some (m ∷ ms) = (m ∷ ms, refl)

    lost :
        (members : List String)
        → broadcast_system_event s r message members ≡ none
        → some (event_members-some members).0 ≡ none
    lost members e = let (listed, found) = event_members-some members in cc (rw found at e)

-- A handler that ran to its end, and left the dicts consistent.
abbrev pub Ends : Outcome → Type 0
Ends none = ⊥
Ends (some (s, effects)) = Consistent s

pub handle_join_room-Ends :
    (conn : ℕ) (room : Option String) (s : Server)
    → Consistent s
    → Ends (handle_join_room conn room s)
unfolding handle_join_room
handle_join_room-Ends conn none s v = v
handle_join_room-Ends conn (some room) s v = elim (Option-cases (get s.clients conn)) [
  | inl e ↦ rw (e, handle_join_room, Ends) v
  | inr (info, e) ↦
      let s' = enter_room conn info room s in
      let v' = enter_room-Consistent conn info room s e v in
      let (names, listed) = get_room_members-some s' room v' in
      let (event, told) =
        broadcast_system_event-some s' room (Event.joined info.username) names v' in
      rw (e, handle_join_room, finish_join, lock_and_enter, Ends, e, listed, told) v'
]

handle_leave_room-Ends : (conn : ℕ) (s : Server) → Consistent s → Ends (handle_leave_room conn s)
unfolding handle_leave_room
handle_leave_room-Ends conn s v = elim (Option-cases (get s.clients conn)) [
  | inl e ↦ rw (e, handle_leave_room, Ends) v
  | inr (info, e) ↦ elim (Option-cases info.current_room) [
    | inl out ↦ rw (e, handle_leave_room, Ends, out) v
    | inr (room, inside) ↦
        let s' = exit_room conn info s in
        let v' = exit_room-Consistent conn info s e v in
        let (names, listed) = get_room_members-some s' room v' in
        let (event, told) =
          broadcast_system_event-some s' room (Event.left_room info.username) names v' in
        rw (e, handle_leave_room, Ends, inside, listed, told) v'
  ]
]

pub cleanup_client-Ends : (conn : ℕ) (s : Server) → Consistent s → Ends (cleanup_client conn s)
unfolding cleanup_client
cleanup_client-Ends conn s v = elim (Option-cases (get s.clients conn)) [
  | inl e ↦ rw (e, cleanup_client, Ends) v
  | inr (info, e) ↦
      let v' = remove_client-Consistent conn info s e v in
      elim (Option-cases info.current_room) [
        | inl out ↦ rw (e, cleanup_client, Ends, out) v'
        | inr (room, inside) ↦
            let (event, told) =
              broadcast_system_event-some (remove_client conn info s) room
                (Event.left_room info.username) [] v' in
            rw (e, cleanup_client, Ends, inside, told) v'
      ]
]

kick-Ends :
    (conn : ℕ) (room username : String) (s : Server) (target : ℕ)
    → Consistent s
    → Ends (kick conn room username s target)
unfolding kick
kick-Ends conn room username s target v =
    let cleaned = cleanup_client-Ends target s v in
    elim (Option-cases (cleanup_client target s)) [
      | inl e ↦ absurd (subst Ends e cleaned)
      | inr ((s', effects), e) ↦
          let v' : Consistent s' = subst Ends e cleaned in
          let (event, told) =
            broadcast_system_event-some s' room (Event.was_kicked username) [] v' in
          rw (e, kick, Ends, told) v'
    ]

pub handle_room_kick_user-Ends :
    (db_up : Bool) (conn : ℕ) (username : String) (s : Server)
    → is_some (get s.clients conn) ≡ true
    → Consistent s
    → Ends (handle_room_kick_user db_up conn username s)
unfolding handle_room_kick_user
handle_room_kick_user-Ends db_up conn username s known v =
    elim (Option-cases (get s.clients conn)) [
      | inl e ↦ cc (known, ap is_some e)
      | inr (info, e) ↦ elim (Bool-cases (is_room_owner db_up info.user_id info.current_room s)) [
        | inl owner ↦
            rw (e, handle_room_kick_user, Ends, owner)
              (found info.current_room (find_client username info.current_room s.clients))
        | inr other ↦ rw (e, handle_room_kick_user, Ends, other) v
      ]
    ]
  where
    found :
        (room : Option String) (target : Option ℕ) → Ends (kick_found conn room username s target)
    found none none = v
    found none (some t) = v
    found (some r) none = v
    found (some r) (some t) = kick-Ends conn r username s t v

-- A socket that is in no room.
abbrev pub Outside : Server → ℕ → Type 0
Outside s conn = (r : String) → in_room (get s.clients conn) r ≡ false

handle_auth_backend-Ends :
    (conn : ℕ) (answer : Option Validation) (s : Server)
    → Outside s conn
    → Consistent s
    → Ends (handle_auth_backend conn answer s)
unfolding handle_auth_backend
handle_auth_backend-Ends conn none s out v = v
handle_auth_backend-Ends conn (some refused) s out v = v
handle_auth_backend-Ends conn (some unreachable) s out v = v
handle_auth_backend-Ends conn (some (valid id name)) s out v = record {
  agree = λ c r. rw get-put (elim (Bool-cases (nat_eqb conn c)) [
    | inl same ↦ rw same (
        v.agree c r
        ∙ subst (λ x. in_room (get s.clients x) r ≡ false) ((nat_eqb_iff conn c).0 same) (out r))
    | inr other ↦ rw other (v.agree c r)
  ]);
  occupied = v.occupied;
}

-- What a socket can ask for, or that it is gone.
pub data Action : Type 0 where
  auths : ℕ → Option Validation → Action
  joins : ℕ → Option String → Action
  leaves disconnects : ℕ → Action
  kicks : (db_up : Bool) → ℕ → String → Action

unfoldable pub perform : Action → Server → Outcome
perform (auths conn answer) s = handle_auth_backend conn answer s
perform (joins conn room) s = handle_join_room conn room s
perform (leaves conn) s = handle_leave_room conn s
perform (disconnects conn) s = cleanup_client conn s
perform (kicks db_up conn username) s = handle_room_kick_user db_up conn username s

-- A socket that authenticates is in no room. `_handle_client` lets only clients kick.
abbrev pub Allowed : Action → Server → Type 0
Allowed (auths conn answer) s = Outside s conn
Allowed (kicks db_up conn username) s = is_some (get s.clients conn) ≡ true
Allowed (joins conn room) s = Unit
Allowed (leaves conn) s = Unit
Allowed (disconnects conn) s = Unit

-- From a consistent state no allowed request ends in a KeyError, and the state that it leaves is
-- consistent: the set of each room holds just the clients whose current room it is, and no set is
-- empty.
pub perform-Ends : (a : Action) (s : Server) → Allowed a s → Consistent s → Ends (perform a s)
unfolding perform
perform-Ends (auths conn answer) s h v = handle_auth_backend-Ends conn answer s h v
perform-Ends (joins conn room) s h v = handle_join_room-Ends conn room s v
perform-Ends (leaves conn) s h v = handle_leave_room-Ends conn s v
perform-Ends (disconnects conn) s h v = cleanup_client-Ends conn s v
perform-Ends (kicks db_up conn username) s h v =
    handle_room_kick_user-Ends db_up conn username s h v

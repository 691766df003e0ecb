-- ===== src/Server/Rooms/Kicks.antt =====
-- A kick, of server/main.py.
use mathlib.Core.Path.{subst}
use netcourier.Prelude.{
  ℕ, ◌≡◌, refl, sym, ap, ◌∙◌, inl, inr, Bool, true, false, String, none, some, List, [], ◌∷◌, elem,
  nat_eq, Option-cases, or_else, Option, beq_refl, is_some, string_eq,
}
use netcourier.Dict.{get, get-del, put, get-put_same}
use netcourier.Server.Rooms.Defs.{
  Client, Server, Effect, Event, members_of, broadcast_system_event, tells_gateway, add,
  handle_join_room, finish_join, lock_and_enter, enter_room_gone, get_room_members,
}
use netcourier.Server.Rooms.Handlers.{
  remove_client, cleanup_client, is_room_owner, find_client, kick, kick_found,
  handle_room_kick_user,
}
use netcourier.Server.Rooms.Consistency.{Consistent, in_room}
use netcourier.Server.Rooms.Steps.{Ends, handle_join_room-Ends, handle_room_kick_user-Ends}
use netcourier.Server.Rooms.Delivery.{usernames-none}
use netcourier.Server.Rooms.Sets.{elem-add}

cleanup_client-gone :
    (target : ℕ) (s s' : Server) (effects : List Effect)
    → cleanup_client target s ≡ some (s', effects)
    → get s'.clients target ≡ none
unfolding cleanup_client remove_client
cleanup_client-gone target s s' effects done = elim (Option-cases (get s.clients target)) [
  | inl e ↦
      let same : some (s, []) ≡ some (s', effects) = rw (e, cleanup_client) at done in
      let eq : s ≡ s' = cc same in subst (λ (x : Server). get x.clients target ≡ none) eq e
  | inr (info, e) ↦ elim (Option-cases info.current_room) [
    | inl out ↦
        let same : some (remove_client target info s, []) ≡ some (s', effects) =
          rw (e, cleanup_client, out) at done in
        let eq : remove_client target info s ≡ s' = cc same in
        subst (λ (x : Server). get x.clients target ≡ none) eq (removed info)
    | inr (room, inside) ↦
        elim (Option-cases (
          broadcast_system_event (remove_client target info s) room (Event.left_room info.username)
            [])) [
              | inl lost ↦
                  let no : none ≡ some (s', effects) =
                    rw (e, cleanup_client, inside, lost) at done in
                  absurd (cc no)
              | inr (event, told) ↦
                  let same : some (
                    remove_client target info s,
                    tells_gateway info.user_id info.username "offline" none ∷ event,
                  )
                      ≡ some (s', effects) =
                    rw (e, cleanup_client, inside, told) at done in
                  let eq : remove_client target info s ≡ s' = cc same in
                  subst (λ (x : Server). get x.clients target ≡ none) eq (removed info)
            ]
  ]
]
  where
    removed : (info : Client) → get (remove_client target info s).clients target ≡ none
    removed info = get-del s.clients target target ∙ rw (beq_refl target) refl

kick-gone :
    (conn : ℕ) (room username : String) (s : Server) (target : ℕ) (s' : Server)
    (effects : List Effect)
    → kick conn room username s target ≡ some (s', effects)
    → get s'.clients target ≡ none
unfolding kick
kick-gone conn room username s target s' effects done =
    elim (Option-cases (cleanup_client target s)) [
      | inl e ↦ let no : none ≡ some (s', effects) = rw (e, kick) at done in absurd (cc no)
      | inr ((t, cleaned), e) ↦
          elim (Option-cases (broadcast_system_event t room (Event.was_kicked username) [])) [
            | inl lost ↦
                let no : none ≡ some (s', effects) = rw (e, kick, lost) at done in absurd (cc no)
            | inr (event, told) ↦
                let same = rw (e, kick, told) at done in
                let eq : t ≡ s' = cc same in
                subst (λ (x : Server). get x.clients target ≡ none) eq
                  (cleanup_client-gone target s t cleaned e)
          ]
    ]

-- From a consistent state, where the set of each room holds just the clients whose current room it is: when
-- the owner of a room kicks a user who is in it, the target is no client any more and stands in the set
-- of no room.
pub handle_room_kick_user-gone :
    (db_up : Bool) (conn target : ℕ) (username room r : String) (info : Client) (s : Server)
    → Consistent s
    → get s.clients conn ≡ some info
    → info.current_room ≡ some room
    → is_room_owner db_up info.user_id info.current_room s ≡ true
    → find_client username info.current_room s.clients ≡ some target
    → (s' : Server) × (effects : List Effect) × (handle_room_kick_user db_up conn username s
        ≡ some (s', effects))
      × (get s'.clients target ≡ none)
      × (elem target (members_of s' r) ≡ false)
unfolding handle_room_kick_user kick_found members_of
handle_room_kick_user-gone db_up conn target username room r info s v known inside owner listed =
    let ends = handle_room_kick_user-Ends db_up conn username s (ap is_some known) v in
    let step : handle_room_kick_user db_up conn username s ≡ kick conn room username s target =
      rw (known, handle_room_kick_user, owner, listed, inside) refl in
    elim (Option-cases (handle_room_kick_user db_up conn username s)) [
      | inl e ↦ absurd (subst Ends e ends)
      | inr ((s', effects), e) ↦
          let v' : Consistent s' = subst Ends e ends in
          let gone = kick-gone conn room username s target s' effects (sym step ∙ e) in
          (s', effects, e, gone, v'.agree target r ∙ ap (λ o. in_room o r) gone)
    ]

-- A client that another thread removes between the reads of its join and the lock cannot join.
finish_join-gone :
    (conn : ℕ) (info : Client) (room : String) (s : Server)
    → info.current_room ≡ none
    → get s.clients conn ≡ none
    → finish_join conn info room s ≡ none
unfolding finish_join lock_and_enter enter_room_gone get_room_members members_of
finish_join-gone conn info room s out gone =
    let members = add conn (or_else (get s.rooms room) []) in
    let found : or_else (get (put s.rooms room members) room) [] ≡ members =
      ap (λ o. or_else o []) (get-put_same s.rooms room members) in
    let inside : elem conn (or_else (get (put s.rooms room members) room) []) ≡ true =
      ap (elem conn) found
      ∙ elem-add conn conn (or_else (get s.rooms room) [])
      ∙ rw (beq_refl conn) refl in
    let lost =
      usernames-none s.clients (or_else (get (put s.rooms room members) room) []) conn inside
        gone in
    rw (finish_join, lock_and_enter, gone, enter_room_gone, out, get_room_members, lost) refl

-- From a consistent state, where a room's owner may kick the target out of the room and the target asks to
-- join a room: with no other thread in between, the join goes through. Where the kick comes between the
-- reads of the join and its lock, by when the kick has emptied the record that the join has read, the
-- join ends in a KeyError.
pub finish_join-kicked :
    (db_up : Bool) (conn target : ℕ) (username room r : String) (info joiner : Client) (s : Server)
    → Consistent s
    → get s.clients conn ≡ some info
    → info.current_room ≡ some room
    → is_room_owner db_up info.user_id info.current_room s ≡ true
    → find_client username info.current_room s.clients ≡ some target
    → (is_some (handle_join_room target (some r) s) ≡ true)
      × (s' : Server) × (effects : List Effect) × (handle_room_kick_user db_up conn username s
          ≡ some (s', effects))
      × (finish_join target (record joiner { current_room = none }) r s' ≡ none)
finish_join-kicked db_up conn target username room r info joiner s v known inside owner listed =
    let (s', effects, kicked, gone, _) =
      handle_room_kick_user-gone db_up conn target username room r info s v known inside owner
        listed in
    (
      goes_on (handle_join_room target (some r) s) (handle_join_room-Ends target (some r) s v),
      s',
      effects,
      kicked,
      finish_join-gone target (record joiner { current_room = none }) r s' refl gone,
    )
  where
    goes_on : (o : Option (Server × List Effect)) → Ends o → is_some o ≡ true
    goes_on none h = absurd h
    goes_on (some x) h = refl

-- ===== src/Server/Rooms/Consistency.antt =====
-- `clients` and `rooms` of server/main.py say the same: a socket is in the set of a room exactly
-- when it is a client whose current room that is.
use mathlib.Core.Path.{subst}
use netcourier.Prelude.{
  ℕ, ◌≡◌, refl, sym, ap, ◌∙◌, inl, inr, Bool, true, false, String, Option, none, some, List, [],
  arith, elem, ◌==◌, nat_eq, nat_eqb, nat_eqb_iff, string_eq, eq_iff, if◌then◌else◌, Bool-cases,
  Option-cases, beq_refl, or_else,
}
use netcourier.Dict.{Dict, get, get-put, get-del}
use netcourier.Server.Rooms.Defs.{Client, Server, discard, store_room, leave_room_logic, enter_room}
use netcourier.Server.Rooms.Handlers.{exit_room, remove_client}
use netcourier.Server.Rooms.Sets.{
  elem-add, elem-discard, at, at-put, at-store_room, Occupied, store_room-Occupied, add-Occupied,
}

abbrev pub is_in : Option String → String → Bool
is_in none r = false
is_in (some r') r = r' == r

-- Whether a socket is a client with that current room.
abbrev pub in_room : Option Client → String → Bool
in_room none r = false
in_room (some info) r = is_in info.current_room r

pub record Consistent (s : Server) : Type 0 where
  pub agree : (c : ℕ) (r : String) → elem c (at s.rooms r) ≡ in_room (get s.clients c) r
  pub occupied : Occupied s.rooms

-- What leaving does: the client is in no room, and every other socket is where it was.
pub record Left (conn : ℕ) (rooms : Dict String (List ℕ)) (result : Client × Dict String (List ℕ))
    : Type 0 where
  pub room : result.0.current_room ≡ none
  pub others :
      (c : ℕ) (r : String)
      → elem c (at result.1 r) ≡ (if conn == c then false else elem c (at rooms r))
  pub occupied : Occupied result.1

elem_without :
    (conn c : ℕ) (m : List ℕ)
    → elem conn m ≡ false
    → elem c m ≡ (if conn == c then false else elem c m)
elem_without conn c m out = elim (Bool-cases (nat_eqb conn c)) [
  | inl same ↦ rw same (subst (λ x. elem x m ≡ false) ((nat_eqb_iff conn c).0 same) out)
  | inr other ↦ rw other
]

pub leave_room_logic-Left :
    (conn : ℕ) (info : Client) (s : Server)
    → get s.clients conn ≡ some info
    → Consistent s
    → Left conn s.rooms (leave_room_logic conn info s.rooms)
unfolding leave_room_logic
leave_room_logic-Left conn info s known v = elim (Option-cases info.current_room) [
  | inl e ↦
      rw (e, leave_room_logic)
        (record {
          room = e;
          others = λ c r.
              elem_without conn c (at s.rooms r)
                (place r ∙ ap (λ (o : Option String). is_in o r) e);
          occupied = v.occupied;
        })
  | inr (room, e) ↦ elim (Option-cases (get s.rooms room)) [
    | inl gone ↦
        let inside : elem conn (at s.rooms room) ≡ true =
          place room ∙ ap (λ (o : Option String). is_in o room) e ∙ beq_refl room in
        let outside : elem conn (at s.rooms room) ≡ false = rw gone refl in cc (inside, outside)
    | inr (m, found) ↦
        rw (e, found, leave_room_logic)
          (record {
            room = refl;
            others = at_others room m e found;
            occupied = store_room-Occupied s.rooms room (discard conn m) v.occupied;
          })
  ]
]
  where
    place : (r : String) → elem conn (at s.rooms r) ≡ is_in info.current_room r
    place r = v.agree conn r ∙ ap (λ (o : Option Client). in_room o r) known

    at_others :
        (room : String) (m : List ℕ)
        → info.current_room ≡ some room
        → get s.rooms room ≡ some m
        → (c : ℕ) (r : String)
        → elem c (at (store_room room (discard conn m) s.rooms) r)
          ≡ (if conn == c then false else elem c (at s.rooms r))
    at_others room m e found c r = rw at-store_room (elim (Bool-cases (room == r)) [
      | inl same ↦
          let here : at s.rooms r ≡ m =
            ap (λ (o : Option (List ℕ)). or_else o [])
              (ap (get s.rooms) (sym ((eq_iff room r).0 same)) ∙ found) in
          rw (same, here) (elem-discard conn c m)
      | inr other ↦ rw other (
          elem_without conn c (at s.rooms r)
            (place r ∙ ap (λ (o : Option String). is_in o r) e ∙ other))
    ])

-- A client that enters a room leaves the one before, and the two dicts still agree.
pub enter_room-Consistent :
    (conn : ℕ) (info : Client) (room : String) (s : Server)
    → get s.clients conn ≡ some info
    → Consistent s
    → Consistent (enter_room conn info room s)
unfolding enter_room
enter_room-Consistent conn info room s known v =
    let left = leave_room_logic-Left conn info s known v in
    let rooms' = (leave_room_logic conn info s.rooms).1 in
    record {
      agree = λ c r.
          rw (at-put, get-put)
            (elim (Bool-cases (room == r)) [
              | inl same ↦ rw same (
                  rw (elem-add conn c (at rooms' room), left.others c room)
                    (ground (arith, v.agree c room, eq_iff room r, same)))
              | inr other ↦ rw other (rw (left.others c r) (ground (arith, v.agree c r, other)))
            ]);
      occupied = add-Occupied rooms' room conn left.occupied;
    }

-- The same when a client leaves its room, and when it is removed.
pub exit_room-Consistent :
    (conn : ℕ) (info : Client) (s : Server)
    → get s.clients conn ≡ some info
    → Consistent s
    → Consistent (exit_room conn info s)
unfolding exit_room
exit_room-Consistent conn info s known v =
    let left = leave_room_logic-Left conn info s known v in
    record {
      agree = λ c r. rw (left.others c r, get-put) (ground (arith, v.agree c r, left.room));
      occupied = left.occupied;
    }

pub remove_client-Consistent :
    (conn : ℕ) (info : Client) (s : Server)
    → get s.clients conn ≡ some info
    → Consistent s
    → Consistent (remove_client conn info s)
unfolding remove_client
remove_client-Consistent conn info s known v =
    let left = leave_room_logic-Left conn info s known v in
    record {
      agree = λ c r. rw (left.others c r, get-del) (ground (arith, v.agree c r));
      occupied = left.occupied;
    }

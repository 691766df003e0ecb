-- ===== src/Server/Rooms/Sets.antt =====
-- Membership in the sets of sockets of server/main.py, and in the dict of rooms.
use netcourier.Prelude.{
  ℕ, ◌≡◌, refl, ◌∙◌, true, false, String, some, List, [], ◌∷◌, ◌++◌, arith, elem, ◌==◌, ◌||◌,
  nat_eq, string_eq, is_empty, or_else, if◌then◌else◌, beq_refl,
}
use netcourier.Dict.{Dict, get, put, get-put, get-del}
use netcourier.Server.Rooms.Defs.{add, discard, store_room}

pub elem-append : (c : ℕ) (xs ys : List ℕ) → elem c (xs ++ ys) ≡ (elem c xs || elem c ys)
elem-append c [] ys = refl
elem-append c (x ∷ xs) ys = ground (arith, elem-append c xs ys)

pub elem-add :
    (conn c : ℕ) (m : List ℕ) → elem c (add conn m) ≡ (if conn == c then true else elem c m)
unfolding add
elem-add conn c m = ground (arith, elem-append c m (conn ∷ []))

pub elem-discard :
    (conn c : ℕ) (m : List ℕ) → elem c (discard conn m) ≡ (if conn == c then false else elem c m)
unfolding discard
elem-discard conn c [] = ground arith
elem-discard conn c (x ∷ m) = ground (arith, elem-discard conn c m)

-- The set of a room, empty for a room that is not there.
abbrev pub at : Dict String (List ℕ) → String → List ℕ
at rooms r = or_else (get rooms r) []

pub at-put :
    (rooms : Dict String (List ℕ)) (room r : String) (m : List ℕ)
    → at (put rooms room m) r ≡ (if room == r then m else at rooms r)
at-put rooms room r m = ground (arith, get-put rooms room r m)

pub at-store_room :
    (rooms : Dict String (List ℕ)) (room r : String) (m : List ℕ)
    → at (store_room room m rooms) r ≡ (if room == r then m else at rooms r)
unfolding store_room
at-store_room rooms room r [] = ground (arith, get-del rooms room r)
at-store_room rooms room r (x ∷ m) = ground (arith, get-put rooms room r (x ∷ m))

-- No room of the dict is empty.
pub record Occupied (rooms : Dict String (List ℕ)) : Type 0 where
  pub at_room : (r : String) (m : List ℕ) → get rooms r ≡ some m → is_empty m ≡ false

pub store_room-Occupied :
    (rooms : Dict String (List ℕ)) (room : String) (m : List ℕ)
    → Occupied rooms
    → Occupied (store_room room m rooms)
unfolding store_room
store_room-Occupied rooms room [] v = record {
  at_room = λ r m' e. ground (arith, v.at_room r m', get-del rooms room r);
}
store_room-Occupied rooms room (x ∷ m) v = record {
  at_room = λ r m' e. ground (arith, v.at_room r m', get-put rooms room r (x ∷ m));
}

is_empty-false_of_elem : (c : ℕ) (m : List ℕ) → elem c m ≡ true → is_empty m ≡ false
is_empty-false_of_elem c [] h = cc
is_empty-false_of_elem c (x ∷ m) h = refl

pub add-Occupied :
    (rooms : Dict String (List ℕ)) (room : String) (conn : ℕ)
    → Occupied rooms
    → Occupied (put rooms room (add conn (at rooms room)))
add-Occupied rooms room conn v = record {
  at_room = λ r m' e.
      let m = add conn (at rooms room) in
      let here : elem conn m ≡ true =
        elem-add conn conn (at rooms room) ∙ rw (beq_refl conn) refl in
      ground (arith, v.at_room r m', get-put rooms room r m, is_empty-false_of_elem conn m here);
}

-- ===== src/Server/Posts/Deletion.antt =====
-- What ROOM_DELETE_FILE of server/main.py deletes: the LIKE pattern of a file finds more than its card.
use mathlib.Core.List.{append_assoc}
use netcourier.Prelude.{
  nat_eq, ℕ, ◌+◌, ◌*◌, ◌≤◌, ◌<◌, ◌≡◌, refl, sym, ap, ◌∙◌, inl, inr, true, false, some, List, [],
  ◌∷◌, ◌++◌, map, arith, suc, zero, ◌/◌, ◌%◌, ltb, Text, codes, decimal, decimal_fuel, Option-cases,
  Bool-cases, String,
}
use netcourier.Dict.{Dict, get, get-put_same}
use netcourier.Server.Rooms.Defs.{Client, Server, broadcast_system_event, file_deleted}
use netcourier.Server.Rooms.Handlers.{is_room_owner}
use netcourier.Server.Transfers.Defs.{FileRow, deleted}
use netcourier.Server.Posts.Like.{like_char, like_prefix, like_inside}
use netcourier.Server.Posts.Defs.{
  Message, Posts, file, file_pattern, is_file, is_card, hide, delete_file_row, delete_file,
  handle_room_delete_file,
}

like_char_refl : (c : ℕ) → like_char c c ≡ true
like_char_refl c = ground arith

like_prefix-append : (pattern after : Text) → like_prefix pattern (pattern ++ after) ≡ true
unfolding like_prefix
like_prefix-append [] after = refl
like_prefix-append (p ∷ pattern) after =
    rw (like_char_refl p, like_prefix-append pattern after) refl

like_inside_here :
    (pattern chars : Text) → like_prefix pattern chars ≡ true → like_inside pattern chars ≡ true
unfolding like_inside
like_inside_here pattern [] h = h
like_inside_here pattern (c ∷ chars) h = rw h refl

like_inside-append :
    (before pattern after : Text) → like_inside pattern (before ++ (pattern ++ after)) ≡ true
unfolding like_inside
like_inside-append [] pattern after =
    like_inside_here pattern (pattern ++ after) (like_prefix-append pattern after)
like_inside-append (c ∷ before) pattern after =
    let rest = like_inside-append before pattern after in ground (arith, rest)

-- More fuel than a number makes no difference.
decimal-fuel :
    (fuel fuel' n : ℕ) → n < fuel → n < fuel' → decimal_fuel fuel n ≡ decimal_fuel fuel' n
unfolding decimal_fuel
decimal-fuel zero fuel' n h h' = absurd (omega arith)
decimal-fuel (suc fuel) zero n h h' = absurd (omega arith)
decimal-fuel (suc fuel) (suc fuel') n h h' = elim (Bool-cases (ltb n 10)) [
  | inl small ↦ rw (decimal_fuel, small) refl
  | inr large ↦
      let front =
        decimal-fuel fuel fuel' (n / 10) (ground (arith, large)) (ground (arith, large)) in
      rw (decimal_fuel, large, front) refl
]

decimal-digit : (n d : ℕ) → 1 ≤ n → d < 10 → decimal (10 * n + d) ≡ decimal n ++ (b'0' + d) ∷ []
unfolding decimal_fuel decimal
decimal-digit n d h h' =
    let large : ltb (10 * n + d) 10 ≡ false = ground arith in
    let front : (10 * n + d) / 10 ≡ n = omega arith in
    let last : (10 * n + d) % 10 ≡ d = omega arith in
    let same = decimal-fuel (10 * n + d) (suc n) n (omega arith) (omega arith) in
    rw (decimal_fuel, large, front, last, same) refl

file_pattern-digit :
    (n d : ℕ) (after : Text)
    → 1 ≤ n
    → d < 10
    → file_pattern (10 * n + d) ++ after ≡ file_pattern n ++ (b'0' + d) ∷ after
unfolding file_pattern
file_pattern-digit n d after h h' =
    let key = codes "\"file_id\": " in
    let digit = (b'0' + d) ∷ [] in
    ap (λ l. (key ++ l) ++ after) (decimal-digit n d h h')
    ∙ append_assoc key (decimal n ++ digit) after
    ∙ ap (λ l. key ++ l) (append_assoc (decimal n) digit after)
    ∙ sym (append_assoc key (decimal n) (digit ++ after))

-- A file message whose content holds `"file_id": n`, whatever follows, is hidden.
pub hide-card :
    (n : ℕ) (before after : Text) (m : Message)
    → m.message_type ≡ file
    → m.content ≡ before ++ (file_pattern n ++ after)
    → hide n m ≡ record m { is_deleted = true }
unfolding is_card
hide-card n before after m is_file_message content =
    let found = like_inside-append before (file_pattern n) after in
    rw (is_file_message, content, found) refl

hide-other : (n : ℕ) (m : Message) → is_file m.message_type ≡ false → hide n m ≡ m
unfolding is_card
hide-other n m other = rw other refl

deleted_posts :
    (conn n : ℕ) (room : String) (s : Server) (files : Dict ℕ FileRow) (posts : Posts)
    → let (files', posts', effects) = delete_file conn n room s files posts in
      (files' ≡ delete_file_row n files)
      × (posts' ≡ record posts { messages = map (hide n) posts.messages })
unfolding delete_file
deleted_posts conn n room s files posts =
    elim (Option-cases (broadcast_system_event s room file_deleted [])) [
      | inl fails ↦ rw (delete_file, fails) (refl, refl)
      | inr (event, sent) ↦ rw (delete_file, sent) (refl, refl)
    ]

answered :
    (conn n : ℕ) (room : String) (info : Client) (s : Server) (files : Dict ℕ FileRow)
    (posts : Posts)
    → info.current_room ≡ some room
    → is_room_owner true info.user_id (some room) s ≡ true
    → handle_room_delete_file true conn n info s files posts ≡ delete_file conn n room s files posts
unfolding handle_room_delete_file
answered conn n room info s files posts inside owner = rw (inside, owner) refl

map-hide :
    (n : ℕ) (ms : List Message) (m : Message) (ms' : List Message)
    → hide n m ≡ record m { is_deleted = true }
    → map (hide n) (ms ++ m ∷ ms')
      ≡ map (hide n) ms ++ record m { is_deleted = true } ∷ map (hide n) ms'
map-hide n [] m ms' h = ap (λ x. x ∷ map (hide n) ms') h
map-hide n (x ∷ ms) m ms' h = ap (λ l. hide n x ∷ l) (map-hide n ms m ms' h)

pub handle_room_delete_file-hides :
    (conn n : ℕ) (room : String) (info : Client) (s : Server) (files : Dict ℕ FileRow)
    (posts : Posts) (ms : List Message) (m : Message) (ms' : List Message)
    → info.current_room ≡ some room
    → is_room_owner true info.user_id (some room) s ≡ true
    → posts.messages ≡ ms ++ m ∷ ms'
    → hide n m ≡ record m { is_deleted = true }
    → (handle_room_delete_file true conn n info s files posts).1.messages
      ≡ map (hide n) ms ++ record m { is_deleted = true } ∷ map (hide n) ms'
handle_room_delete_file-hides conn n room info s files posts ms m ms' inside owner split hidden =
    let (rows, kept) = deleted_posts conn n room s files posts in
    rw (answered conn n room info s files posts inside owner)
      (rw kept (rw split (map-hide n ms m ms' hidden)))

-- Where the owner of a room deletes a file, its row gets the status deleted, each file message that
-- holds its id is hidden, and every message of another type stays as it was.
pub handle_room_delete_file-card :
    (conn n : ℕ) (room : String) (info : Client) (s : Server) (files : Dict ℕ FileRow)
    (row : FileRow) (posts : Posts) (ms : List Message) (m other : Message) (ms' : List Message)
    (before after : Text)
    → info.current_room ≡ some room
    → is_room_owner true info.user_id (some room) s ≡ true
    → get files n ≡ some row
    → posts.messages ≡ ms ++ m ∷ other ∷ ms'
    → m.message_type ≡ file
    → m.content ≡ before ++ (file_pattern n ++ after)
    → is_file other.message_type ≡ false
    → let (files', posts', effects) = handle_room_delete_file true conn n info s files posts in
      (get files' n ≡ some (record row { status = deleted }))
      × (posts'.messages
          ≡ map (hide n) ms ++ record m { is_deleted = true } ∷ other ∷ map (hide n) ms')
unfolding delete_file_row
handle_room_delete_file-card conn n room info s files row posts ms m other ms' before after inside
      owner there split is_file_message content is_other =
    let (rows, kept) = deleted_posts conn n room s files posts in
    let hidden = hide-card n before after m is_file_message content in
    (
      rw (answered conn n room info s files posts inside owner) (
          rw rows
            (rw (delete_file_row, there) (get-put_same files n (record row { status = deleted })))),
      handle_room_delete_file-hides conn n room info s files posts ms m (other ∷ ms') inside owner
            split hidden
          ∙ ap (λ o. map (hide n) ms ++ record m { is_deleted = true } ∷ o ∷ map (hide n) ms')
              (hide-other n other is_other),
    )

-- The owner of a room who deletes a file hides as well the card of a file whose id is the digits of
-- the first followed by one more, in whatever room that card stands.
pub handle_room_delete_file-longer :
    (conn n d : ℕ) (room : String) (info : Client) (s : Server) (files : Dict ℕ FileRow)
    (posts : Posts) (ms : List Message) (m : Message) (ms' : List Message) (before after : Text)
    → info.current_room ≡ some room
    → is_room_owner true info.user_id (some room) s ≡ true
    → 1 ≤ n
    → d < 10
    → posts.messages ≡ ms ++ m ∷ ms'
    → m.message_type ≡ file
    → m.content ≡ before ++ (file_pattern (10 * n + d) ++ after)
    → (handle_room_delete_file true conn n info s files posts).1.messages
      ≡ map (hide n) ms ++ record m { is_deleted = true } ∷ map (hide n) ms'
handle_room_delete_file-longer conn n d room info s files posts ms m ms' before after inside owner h
      h' split is_file_message content =
    let longer = content ∙ ap (λ l. before ++ l) (file_pattern-digit n d after h h') in
    let hidden = hide-card n before ((b'0' + d) ∷ after) m is_file_message longer in
    handle_room_delete_file-hides conn n room info s files posts ms m ms' inside owner split hidden

-- ===== src/Gateway/Messages/History.antt =====
-- The history of two users in gateway/pm_service.py.
use mathlib.Core.List.{Mem, mem-append_right, mem-cons_self, mem-reverse}
use netcourier.Prelude.{
  ℕ, suc, ◌≤◌, ◌≡◌, refl, true, String, some, List, [], ◌∷◌, ◌++◌, arith, length, length-append,
  nat_eq,
}
use netcourier.Gateway.Messages.{
  PrivateMessage, Delivery, is_between, between, get_pm_history, store_pm,
}
use netcourier.Gateway.Messages.Recipients.{row_for}

is_between_comm : (a b : ℕ) (m : PrivateMessage) → is_between a b m ≡ is_between b a m
is_between_comm a b m = ground arith

between_comm : (a b : ℕ) (rows : List PrivateMessage) → between a b rows ≡ between b a rows
unfolding between
between_comm a b [] = refl
between_comm a b (m ∷ rows) = rw (is_between_comm a b m, between_comm a b rows) refl

between-append :
    (a b : ℕ) (rows : List PrivateMessage) (m : PrivateMessage)
    → is_between a b m ≡ true
    → between a b (rows ++ m ∷ []) ≡ between a b rows ++ m ∷ []
unfolding between
between-append a b [] m h = rw h refl
between-append a b (x ∷ rows) m h = rw (between-append a b rows m h) (ground arith)

-- A message that is stored, delivered or not, is in the history that its sender sees and in the one that
-- its recipient sees, where the messages between the two are not more than the limit. sqlite's ORDER
-- BY with a LIMIT is taken to lose no row where the rows are not more than the limit.
pub get_pm_history-store_pm :
    (latest : ℕ → ℕ → ℕ → List PrivateMessage → List PrivateMessage)
    (keeps : (user1_id user2_id limit : ℕ) (rows : List PrivateMessage) (m : PrivateMessage)
      → length rows ≤ limit
      → Mem m rows
      → Mem m (latest user1_id user2_id limit rows))
    (now limit sender_id recipient_id : ℕ) (sender recipient content : String) (status : Delivery)
    (rows : List PrivateMessage)
    → suc (length (between sender_id recipient_id rows)) ≤ limit
    → let m = row_for now sender_id sender recipient_id recipient content status in
      let rows' =
        store_pm true now sender_id sender recipient_id recipient (some content) status rows in
      Mem m (get_pm_history latest true sender_id recipient_id limit rows')
      × Mem m (get_pm_history latest true recipient_id sender_id limit rows')
unfolding get_pm_history store_pm
get_pm_history-store_pm latest keeps now limit sender_id recipient_id sender recipient content
      status rows few =
    let m = row_for now sender_id sender recipient_id recipient content status in
    let found = between sender_id recipient_id rows in
    let h : is_between sender_id recipient_id m ≡ true = ground arith in
    let fits : length (found ++ m ∷ []) ≤ limit = omega (arith, length-append found (m ∷ [])) in
    let stays : (u v : ℕ) → Mem m (latest u v limit (found ++ m ∷ [])) =
      λ u v. keeps u v limit (found ++ m ∷ []) m fits (mem-append_right found mem-cons_self) in
    let same = between-append sender_id recipient_id rows m h in
    (
      rw same (mem-reverse.1 (stays sender_id recipient_id)),
      rw (between_comm recipient_id sender_id (rows ++ m ∷ []), same)
          (mem-reverse.1 (stays recipient_id sender_id)),
    )

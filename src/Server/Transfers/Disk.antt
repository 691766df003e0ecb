-- ===== src/Server/Transfers/Disk.antt =====
-- `f.seek(offset); f.write(bytes)` and `f.seek(offset); f.read(n)`, which the transfers of
-- server/main.py make on a file opened in "r+b" or "rb" mode. A file is its bytes.
use netcourier.Prelude.{
  ℕ, zero, suc, ◌+◌, ◌≤◌, ◌<◌, ◌≡◌, refl, inl, inr, ◌⊎◌, Option, none, some, List, [], ◌∷◌, arith,
  length, take, drop,
}

unfoldable pub overlay : List ℕ → List ℕ → List ℕ
overlay [] file = file
overlay (b ∷ bs) [] = b ∷ overlay bs []
overlay (b ∷ bs) (x ∷ file) = b ∷ overlay bs file

unfoldable pub overlay_at : ℕ → List ℕ → List ℕ → List ℕ
overlay_at zero bytes file = overlay bytes file
overlay_at (suc n) bytes [] = 0 ∷ overlay_at n bytes []
overlay_at (suc n) bytes (x ∷ file) = x ∷ overlay_at n bytes file

-- A gap before the offset reads as zeros. Writing nothing does not make the file longer.
unfoldable pub write_at : ℕ → List ℕ → List ℕ → List ℕ
write_at offset [] file = file
write_at offset (b ∷ bs) file = overlay_at offset (b ∷ bs) file

abbrev pub byte_at : List ℕ → ℕ → Option ℕ
byte_at [] k = none
byte_at (x ∷ file) zero = some x
byte_at (x ∷ file) (suc k) = byte_at file k

overlay-inside :
    (bytes file : List ℕ) (j : ℕ)
    → j < length bytes
    → byte_at (overlay bytes file) j ≡ byte_at bytes j
unfolding overlay
overlay-inside [] file j h = absurd (omega arith)
overlay-inside (b ∷ bs) [] zero h = refl
overlay-inside (b ∷ bs) [] (suc j) h = overlay-inside bs [] j (omega arith)
overlay-inside (b ∷ bs) (x ∷ file) zero h = refl
overlay-inside (b ∷ bs) (x ∷ file) (suc j) h = overlay-inside bs file j (omega arith)

overlay-behind :
    (bytes file : List ℕ) (k : ℕ)
    → length bytes ≤ k
    → byte_at (overlay bytes file) k ≡ byte_at file k
unfolding overlay
overlay-behind [] file k h = refl
overlay-behind (b ∷ bs) [] zero h = absurd (omega arith)
overlay-behind (b ∷ bs) [] (suc k) h = overlay-behind bs [] k (omega arith)
overlay-behind (b ∷ bs) (x ∷ file) zero h = absurd (omega arith)
overlay-behind (b ∷ bs) (x ∷ file) (suc k) h = overlay-behind bs file k (omega arith)

overlay_at-inside :
    (offset : ℕ) (bytes file : List ℕ) (j : ℕ)
    → j < length bytes
    → byte_at (overlay_at offset bytes file) (offset + j) ≡ byte_at bytes j
unfolding overlay_at
overlay_at-inside zero bytes file j h =
    let e : 0 + j ≡ j = omega arith in rw e (overlay-inside bytes file j h)
overlay_at-inside (suc n) bytes [] j h =
    let e : suc n + j ≡ suc (n + j) = omega arith in rw e (overlay_at-inside n bytes [] j h)
overlay_at-inside (suc n) bytes (x ∷ file) j h =
    let e : suc n + j ≡ suc (n + j) = omega arith in rw e (overlay_at-inside n bytes file j h)

overlay_at-outside :
    (offset : ℕ) (bytes file : List ℕ) (k : ℕ)
    → k < length file
    → (k < offset) ⊎ (offset + length bytes ≤ k)
    → byte_at (overlay_at offset bytes file) k ≡ byte_at file k
unfolding overlay_at
overlay_at-outside zero bytes file k h (inl before) = absurd (omega arith)
overlay_at-outside zero bytes file k h (inr behind) = overlay-behind bytes file k (omega arith)
overlay_at-outside (suc n) bytes [] k h out = absurd (omega arith)
overlay_at-outside (suc n) bytes (x ∷ file) zero h out = refl
overlay_at-outside (suc n) bytes (x ∷ file) (suc k) h (inl before) =
    overlay_at-outside n bytes file k (omega arith) (inl (omega arith))
overlay_at-outside (suc n) bytes (x ∷ file) (suc k) h (inr behind) =
    overlay_at-outside n bytes file k (omega arith) (inr (omega arith))

length-overlay :
    (bytes file : List ℕ) (n : ℕ)
    → length file ≤ n
    → length bytes ≤ n
    → length (overlay bytes file) ≤ n
unfolding overlay
length-overlay [] file n h k = h
length-overlay (b ∷ bs) [] zero h k = absurd (omega arith)
length-overlay (b ∷ bs) [] (suc n) h k =
    omega (arith, length-overlay bs [] n (omega arith) (omega arith))
length-overlay (b ∷ bs) (x ∷ file) zero h k = absurd (omega arith)
length-overlay (b ∷ bs) (x ∷ file) (suc n) h k =
    omega (arith, length-overlay bs file n (omega arith) (omega arith))

length-overlay_at :
    (offset : ℕ) (bytes file : List ℕ) (n : ℕ)
    → length file ≤ n
    → offset + length bytes ≤ n
    → length (overlay_at offset bytes file) ≤ n
unfolding overlay_at
length-overlay_at zero bytes file n h k = length-overlay bytes file n h (omega arith)
length-overlay_at (suc m) bytes [] zero h k = absurd (omega arith)
length-overlay_at (suc m) bytes [] (suc n) h k =
    omega (arith, length-overlay_at m bytes [] n (omega arith) (omega arith))
length-overlay_at (suc m) bytes (x ∷ file) zero h k = absurd (omega arith)
length-overlay_at (suc m) bytes (x ∷ file) (suc n) h k =
    omega (arith, length-overlay_at m bytes file n (omega arith) (omega arith))

-- The bytes that were written, the bytes that were not, and how long the file gets.
pub byte_at-write_at :
    (offset : ℕ) (bytes file : List ℕ) (j : ℕ)
    → j < length bytes
    → byte_at (write_at offset bytes file) (offset + j) ≡ byte_at bytes j
unfolding write_at
byte_at-write_at offset [] file j h = absurd (omega arith)
byte_at-write_at offset (b ∷ bs) file j h = overlay_at-inside offset (b ∷ bs) file j h

pub byte_at-write_at_other :
    (offset : ℕ) (bytes file : List ℕ) (k : ℕ)
    → k < length file
    → (k < offset) ⊎ (offset + length bytes ≤ k)
    → byte_at (write_at offset bytes file) k ≡ byte_at file k
unfolding write_at
byte_at-write_at_other offset [] file k h out = refl
byte_at-write_at_other offset (b ∷ bs) file k h out =
    overlay_at-outside offset (b ∷ bs) file k h out

pub length-write_at :
    (offset : ℕ) (bytes file : List ℕ) (n : ℕ)
    → length file ≤ n
    → (0 < length bytes → offset + length bytes ≤ n)
    → length (write_at offset bytes file) ≤ n
unfolding write_at
length-write_at offset [] file n h k = h
length-write_at offset (b ∷ bs) file n h k =
    length-overlay_at offset (b ∷ bs) file n h (k (omega arith))

pub byte_at_inside : (file : List ℕ) (k : ℕ) → k < length file → (b : ℕ) × (byte_at file k ≡ some b)
byte_at_inside [] k h = absurd (omega arith)
byte_at_inside (x ∷ file) zero h = (x, refl)
byte_at_inside (x ∷ file) (suc k) h = byte_at_inside file k (omega arith)

pub inside_of_byte_at : (file : List ℕ) (k b : ℕ) → byte_at file k ≡ some b → k < length file
inside_of_byte_at [] k b e = cc
inside_of_byte_at (x ∷ file) zero b e = omega arith
inside_of_byte_at (x ∷ file) (suc k) b e = omega (arith, inside_of_byte_at file k b e)

pub byte_at-take :
    (n : ℕ) (file : List ℕ) (j : ℕ) → j < n → byte_at (take n file) j ≡ byte_at file j
byte_at-take zero file j h = absurd (omega arith)
byte_at-take (suc n) [] j h = refl
byte_at-take (suc n) (x ∷ file) zero h = refl
byte_at-take (suc n) (x ∷ file) (suc j) h = byte_at-take n file j (omega arith)

pub byte_at-drop : (n : ℕ) (file : List ℕ) (j : ℕ) → byte_at (drop n file) j ≡ byte_at file (n + j)
byte_at-drop zero file j = ground arith
byte_at-drop (suc n) [] j = refl
byte_at-drop (suc n) (x ∷ file) j =
    let e : suc n + j ≡ suc (n + j) = omega arith in rw e (byte_at-drop n file j)

-- A file that has the bytes of another, and is not longer, is that file.
pub same_bytes :
    (g file : List ℕ)
    → length g ≤ length file
    → ((k : ℕ) → k < length file → byte_at g k ≡ byte_at file k)
    → g ≡ file
same_bytes [] [] h same = refl
same_bytes [] (x ∷ file) h same = let lost : none ≡ some x = same 0 (omega arith) in cc lost
same_bytes (y ∷ g) [] h same = absurd (omega arith)
same_bytes (y ∷ g) (x ∷ file) h same =
    let first : some y ≡ some x = same 0 (omega arith) in
    let rest = same_bytes g file (omega arith) (λ k inside. same (suc k) (omega arith)) in
    cc (first, rest)

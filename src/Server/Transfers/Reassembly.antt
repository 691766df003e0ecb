-- ===== src/Server/Transfers/Reassembly.antt =====
-- The chunks of an upload of server/main.py make up the file, in whatever order they are written.
use native.Mathlib.Nat.{mod-add-div', mod-lt, mul-le-mul_right}
use netcourier.Prelude.{
  ℕ, zero, suc, ◌+◌, ◌*◌, ◌/◌, ◌%◌, ◌≤◌, ◌<◌, ◌≡◌, ◌∙◌, inl, inr, ◌⊎◌, Bool, true, false, List, [],
  ◌∷◌, arith, length, take, drop, elem, nat_eq, nat_eqb, nat_eqb_iff, Bool-cases, ltb, ltb→lt,
  ltb_false→le, ◌&&◌, length-drop, length-take-le,
}
use netcourier.Server.Transfers.Disk.{
  write_at, byte_at, byte_at-write_at, byte_at-write_at_other, length-write_at, byte_at_inside,
  inside_of_byte_at, byte_at-take, byte_at-drop, same_bytes,
}

-- The chunk of that index, as the sender cuts it.
abbrev pub chunk_of : (size i : ℕ) → List ℕ → List ℕ
chunk_of size i file = take size (drop (i * size) file)

length-take_short : (n : ℕ) (xs : List ℕ) → length (take n xs) ≤ length xs
length-take_short zero xs = omega arith
length-take_short (suc n) [] = omega arith
length-take_short (suc n) (x ∷ xs) = omega (arith, length-take_short n xs)

byte_at-chunk_of :
    (size i : ℕ) (file : List ℕ) (j : ℕ)
    → j < size
    → byte_at (chunk_of size i file) j ≡ byte_at file (i * size + j)
byte_at-chunk_of size i file j h =
    byte_at-take size (drop (i * size) file) j h ∙ byte_at-drop (i * size) file j

chunk_of_fits :
    (size i : ℕ) (file : List ℕ)
    → 0 < length (chunk_of size i file)
    → i * size + length (chunk_of size i file) ≤ length file
chunk_of_fits size i file h =
    omega (arith, length-take_short size (drop (i * size) file), length-drop (i * size) file)

next_chunk : (i i' size : ℕ) → i < i' → i * size + size ≤ i' * size
next_chunk i i' size h =
    let above : suc i ≤ i' = omega arith in
    let k : suc i * size ≤ i' * size = mul-le-mul_right size above in grind arith

-- What is on disk once the chunks of the list have been written: no byte too many, and the bytes of
-- those chunks.
pub record Partial (size : ℕ) (file : List ℕ) (written : List ℕ) (g : List ℕ) : Type 0 where
  pub short : length g ≤ length file
  pub known :
      (i j : ℕ)
      → elem i written ≡ true
      → j < size
      → i * size + j < length file
      → byte_at g (i * size + j) ≡ byte_at file (i * size + j)

pub empty-Partial : (size : ℕ) (file : List ℕ) → Partial size file [] []
empty-Partial size file = record { short = omega arith; known = λ i j e. absurd (cc e) }

pub write_at-Partial :
    (size i : ℕ) (file written g : List ℕ)
    → Partial size file written g
    → Partial size file (i ∷ written) (write_at (i * size) (chunk_of size i file) g)
write_at-Partial size i file written g v = record {
  short =
      length-write_at (i * size) (chunk_of size i file) g (length file) v.short
        (chunk_of_fits size i file);
  known = λ i' j e below inside. elim (Bool-cases (nat_eqb i i')) [
    | inl same ↦ here i' j ((nat_eqb_iff i i').0 same) below inside
    | inr other ↦ there i' j other (ground (arith, e)) below inside
  ];
}
  where
    chunk : List ℕ
    chunk = chunk_of size i file

    here :
        (i' j : ℕ)
        → i ≡ i'
        → j < size
        → i' * size + j < length file
        → byte_at (write_at (i * size) chunk g) (i' * size + j) ≡ byte_at file (i' * size + j)
    here i' j e below inside =
        let at : i' * size + j ≡ i * size + j = rw e in
        let bound : i * size + j < length file = omega (arith, at, inside) in
        let cut = byte_at-chunk_of size i file j below in
        let (b, found) = byte_at_inside file (i * size + j) bound in
        let short = inside_of_byte_at chunk j b (cut ∙ found) in
        rw at (byte_at-write_at (i * size) chunk g j short ∙ cut)

    there :
        (i' j : ℕ)
        → nat_eqb i i' ≡ false
        → elem i' written ≡ true
        → j < size
        → i' * size + j < length file
        → byte_at (write_at (i * size) chunk g) (i' * size + j) ≡ byte_at file (i' * size + j)
    there i' j other e below inside =
        let old = v.known i' j e below inside in
        let (b, found) = byte_at_inside file (i' * size + j) inside in
        let short = inside_of_byte_at g (i' * size + j) b (old ∙ found) in
        byte_at-write_at_other (i * size) chunk g (i' * size + j) short apart ∙ old
      where
        apart : (i' * size + j < i * size) ⊎ (i * size + length chunk ≤ i' * size + j)
        apart = elim (Bool-cases (ltb i i')) [
          | inl before ↦ inr (
              omega (
                arith,
                next_chunk i i' size (ltb→lt i i' before),
                length-take-le size (drop (i * size) file),
              ))
          | inr behind ↦
              let le = ltb_false→le i i' behind in
              inl (omega (arith, next_chunk i' i size (ground (arith, other, le))))
        ]

-- The indices below a number.
abbrev pub below_all : ℕ → (ℕ → Bool) → Bool
below_all zero p = true
below_all (suc n) p = p n && below_all n p

below_all-apply : (n : ℕ) (p : ℕ → Bool) (i : ℕ) → below_all n p ≡ true → i < n → p i ≡ true
below_all-apply zero p i e h = absurd (omega arith)
below_all-apply (suc n) p i e h = elim (Bool-cases (nat_eqb i n)) [
  | inl last ↦ rw ((nat_eqb_iff i n).0 last) (ground (arith, e))
  | inr other ↦ below_all-apply n p i (ground (arith, e)) (ground (arith, other))
]

-- Once each index has been written, the file on disk is the file.
pub Partial-complete :
    (size total : ℕ) (file written g : List ℕ)
    → 0 < size
    → length file ≤ total * size
    → below_all total (λ i. elem i written) ≡ true
    → Partial size file written g
    → g ≡ file
Partial-complete size total file written g positive fits all_written v =
    same_bytes g file v.short same
  where
    index_below : (k : ℕ) → k < length file → k / size < total
    index_below k inside = elim (Bool-cases (ltb (k / size) total)) [
      | inl less ↦ ltb→lt (k / size) total less
      | inr more ↦
          let m : total * size ≤ k / size * size =
            mul-le-mul_right size (ltb_false→le (k / size) total more) in
          absurd (omega (arith, m, mod-add-div' k size))
    ]

    same : (k : ℕ) → k < length file → byte_at g k ≡ byte_at file k
    same k inside =
        let split : k / size * size + k % size ≡ k = omega (arith, mod-add-div' k size) in
        let small = mod-lt k positive in
        let within : k / size * size + k % size < length file = omega (arith, split, inside) in
        rw split at (
          v.known (k / size) (k % size)
            (below_all-apply total (λ i. elem i written) (k / size) all_written
              (index_below k inside))
            small within)

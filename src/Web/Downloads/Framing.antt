-- ===== src/Web/Downloads/Framing.antt =====
-- The body that web/api/routes.py sends, read as HTTP's chunked coding says (RFC 7230, 4.1).
use mathlib.Core.List.{append_assoc}
use netcourier.Prelude.{
  ℕ, zero, suc, ◌+◌, ◌*◌, ◌-◌, ◌/◌, ◌%◌, ◌<◌, ◌≡◌, refl, ap, ◌∙◌, inl, inr, false, ◌&&◌, Option,
  none, some, List, [], ◌∷◌, ◌++◌, arith, ltb, leb, nat_eqb, length, take, drop, if◌then◌else◌,
  Bool-cases, All, take-length-append, drop-length-append,
}
use netcourier.Web.Downloads.{hex_digit, hex_fuel, size_line}

abbrev pub digit_value : ℕ → Option ℕ
digit_value c =
    if leb b'0' c && leb c b'9'
    then some (c - b'0')
    else if leb b'A' c && leb c b'F'
    then some (c - b'A' + 10)
    else none

abbrev pub after_line : ℕ → List ℕ → Option (ℕ × List ℕ)
after_line size (c ∷ rest) = if nat_eqb c 10 then some (size, rest) else none
after_line size [] = none

-- The size in front of a chunk, and what follows its line.
unfoldable pub read_size : ℕ → List ℕ → Option (ℕ × List ℕ)
read_size size [] = none
read_size size (c ∷ chars) =
    let more : Option (ℕ × List ℕ) = elim (digit_value c) [
      | none ↦ none
      | some d ↦ read_size (16 * size + d) chars
    ] in
    if nat_eqb c 13 then after_line size chars else more

abbrev pub after_chunk : List ℕ → Option (List ℕ)
after_chunk (c ∷ d ∷ rest) = if nat_eqb c 13 && nat_eqb d 10 then some rest else none
after_chunk _ = none

abbrev joined_to : List ℕ → Option (List ℕ) → Option (List ℕ)
joined_to bytes none = none
joined_to bytes (some content) = some (bytes ++ content)

-- A chunk of that size, with `read` for the ones behind it.
after_size : (read : List ℕ → Option (List ℕ)) → ℕ → List ℕ → Option (List ℕ)
after_size read zero rest = elim (after_chunk rest) [ none ↦ none | some _ ↦ some [] ]
after_size read (suc n) rest = elim (after_chunk (drop (suc n) rest)) [
  | none ↦ none
  | some rest' ↦ joined_to (take (suc n) rest) (read rest')
]

-- The content of a body, or none where it does not follow the coding or stops too early.
unfoldable pub decode_body : (fuel : ℕ) → List ℕ → Option (List ℕ)
unfolding read_size after_size
decode_body zero body = none
decode_body (suc fuel) body = elim (read_size 0 body) [
  | none ↦ none
  | some (size, rest) ↦ after_size (decode_body fuel) size rest
]

read_size-digit :
    (size n : ℕ) (tail : List ℕ)
    → n < 16
    → read_size size (hex_digit n ∷ tail) ≡ read_size (16 * size + n) tail
unfolding read_size hex_digit
read_size-digit size n tail h =
    let plain : nat_eqb (hex_digit n) 13 ≡ false = ground arith in
    let value : digit_value (hex_digit n) ≡ some n = ground arith in rw (plain, value) refl

read_size-hex :
    (fuel n : ℕ) (tail : List ℕ)
    → n < fuel
    → read_size 0 (hex_fuel fuel n ++ tail) ≡ read_size n tail
unfolding hex_fuel
read_size-hex zero n tail h = absurd (omega arith)
read_size-hex (suc fuel) n tail h = elim (Bool-cases (ltb n 16)) [
  | inl small ↦
      let same : 16 * 0 + n ≡ n = omega arith in
      rw (hex_fuel, small) (read_size-digit 0 n tail (ground (arith, small)) ∙ rw same refl)
  | inr large ↦
      let last = hex_digit (n % 16) in
      let whole : 16 * (n / 16) + n % 16 ≡ n = omega arith in
      rw (hex_fuel, large)
        (rw (append_assoc (hex_fuel fuel (n / 16)) (last ∷ []) tail) (
          read_size-hex fuel (n / 16) (last ∷ tail) (ground (arith, large))
          ∙ read_size-digit (n / 16) (n % 16) tail (omega arith)
          ∙ rw whole refl))
]

read_size-size_line : (n : ℕ) (rest : List ℕ) → read_size 0 (size_line n ++ rest) ≡ some (n, rest)
unfolding size_line read_size
read_size-size_line n rest =
    rw (append_assoc (hex_fuel (suc n) n) (13 ∷ 10 ∷ []) rest)
      (read_size-hex (suc n) n (13 ∷ 10 ∷ rest) (omega arith))

-- The frames of the chunks, one behind the other.
abbrev pub frames : List (ℕ × List ℕ) → List ℕ
frames [] = []
frames ((i, bytes) ∷ chunks) =
    (size_line (length bytes) ++ (bytes ++ 13 ∷ 10 ∷ [])) ++ frames chunks

abbrev pub joined : List (ℕ × List ℕ) → List ℕ
joined [] = []
joined ((i, bytes) ∷ chunks) = bytes ++ joined chunks

abbrev pub last_frame : List ℕ
last_frame = b'0' ∷ 13 ∷ 10 ∷ 13 ∷ 10 ∷ []

frame_assoc :
    (line bytes rest : List ℕ)
    → (line ++ (bytes ++ 13 ∷ 10 ∷ [])) ++ rest ≡ line ++ (bytes ++ 13 ∷ 10 ∷ rest)
frame_assoc line bytes rest =
    append_assoc line (bytes ++ 13 ∷ 10 ∷ []) rest
    ∙ ap (λ (l : List ℕ). line ++ l) (append_assoc bytes (13 ∷ 10 ∷ []) rest)

after_size-append :
    (read : List ℕ → Option (List ℕ)) (x : ℕ) (xs rest content : List ℕ)
    → read rest ≡ some content
    → after_size read (suc (length xs)) (x ∷ xs ++ 13 ∷ 10 ∷ rest) ≡ some (x ∷ xs ++ content)
unfolding after_size
after_size-append read x xs rest content h =
    let bytes = x ∷ xs in
    let tail = 13 ∷ 10 ∷ rest in
    let whole = bytes ++ tail in
    let behind : drop (suc (length xs)) whole ≡ tail = drop-length-append bytes tail in
    let front : take (suc (length xs)) whole ≡ bytes = take-length-append bytes tail in
    rw (after_size, behind, h) (ap (λ (l : List ℕ). some (l ++ content)) front)

decode_body-frame :
    (fuel x : ℕ) (xs rest content : List ℕ)
    → decode_body fuel rest ≡ some content
    → decode_body (suc fuel) ((size_line (suc (length xs)) ++ (x ∷ xs ++ 13 ∷ 10 ∷ [])) ++ rest)
      ≡ some (x ∷ xs ++ content)
unfolding decode_body
decode_body-frame fuel x xs rest content h =
    let bytes = x ∷ xs in
    let n = suc (length xs) in
    rw (frame_assoc (size_line n) bytes rest) (
      rw (decode_body, read_size-size_line n (bytes ++ 13 ∷ 10 ∷ rest))
        (after_size-append (decode_body fuel) x xs rest content h))

pub decode_body-frames :
    (chunks : List (ℕ × List ℕ)) (fuel : ℕ)
    → All (λ c. 0 < length c.1) chunks
    → length chunks < fuel
    → decode_body fuel (frames chunks ++ last_frame) ≡ some (joined chunks)
unfolding decode_body read_size after_size
decode_body-frames chunks zero full h = absurd (omega arith)
decode_body-frames [] (suc fuel) full h = refl
decode_body-frames ((i, []) ∷ chunks) (suc fuel) (full, _) h = absurd (omega arith)
decode_body-frames ((i, x ∷ xs) ∷ chunks) (suc fuel) (_, full) h =
    let frame = size_line (suc (length xs)) ++ (x ∷ xs ++ 13 ∷ 10 ∷ []) in
    rw (append_assoc frame (frames chunks) last_frame) (
      decode_body-frame fuel x xs (frames chunks ++ last_frame) (joined chunks)
        (decode_body-frames chunks fuel full (omega arith)))

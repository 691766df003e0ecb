-- ===== src/Server/Transfers/Filenames.antt =====
-- `sanitize_filename` of server/main.py. A filename is its code points.
use netcourier.Prelude.{
  ℕ, ◌≡◌, refl, inl, inr, Bool, true, false, List, [], ◌∷◌, arith, ◌&&◌, ◌||◌, nat_eq, nat_eqb,
  if◌then◌else◌, leb, all, Bool-cases, map,
}

-- `[a-zA-Z0-9._-]`
abbrev pub is_allowed_char : ℕ → Bool
is_allowed_char c =
    (leb 97 c && leb c 122)
    || (leb 65 c && leb c 90)
    || (leb 48 c && leb c 57)
    || nat_eqb c 46
    || nat_eqb c 95
    || nat_eqb c 45

abbrev pub replace_char : ℕ → ℕ
replace_char c = if is_allowed_char c then c else 95

-- `lstrip('./')`
unfoldable pub lstrip : List ℕ → List ℕ
lstrip [] = []
lstrip (c ∷ cs) = let rest = lstrip cs in if nat_eqb c 46 || nat_eqb c 47 then rest else c ∷ cs

unfoldable pub sanitize_filename : List ℕ → List ℕ
unfolding lstrip
sanitize_filename filename = lstrip (map replace_char filename)

abbrev pub starts_with_dot : List ℕ → Bool
starts_with_dot [] = false
starts_with_dot (c ∷ cs) = nat_eqb c 46

replace_char-allowed : (c : ℕ) → is_allowed_char (replace_char c) ≡ true
replace_char-allowed c = elim (Bool-cases (is_allowed_char c)) [
  | inl kept ↦ rw kept kept
  | inr other ↦ rw other refl
]

map-replace_char-allowed : (cs : List ℕ) → all is_allowed_char (map replace_char cs) ≡ true
map-replace_char-allowed [] = refl
map-replace_char-allowed (c ∷ cs) = rw (all, replace_char-allowed c) (map-replace_char-allowed cs)

lstrip-allowed :
    (cs : List ℕ) → all is_allowed_char cs ≡ true → all is_allowed_char (lstrip cs) ≡ true
unfolding lstrip
lstrip-allowed [] h = refl
lstrip-allowed (c ∷ cs) h = elim (Bool-cases (nat_eqb c 46 || nat_eqb c 47)) [
  | inl dot ↦ rw (dot, lstrip) (lstrip-allowed cs (ground (arith, h)))
  | inr other ↦ rw (other, lstrip) h
]

lstrip-no_dot : (cs : List ℕ) → starts_with_dot (lstrip cs) ≡ false
unfolding lstrip
lstrip-no_dot [] = refl
lstrip-no_dot (c ∷ cs) = elim (Bool-cases (nat_eqb c 46 || nat_eqb c 47)) [
  | inl dot ↦ rw (dot, lstrip) (lstrip-no_dot cs)
  | inr other ↦ rw (other, lstrip) (ground (arith, other))
]

map-replace_char_safe : (cs : List ℕ) → all is_allowed_char cs ≡ true → map replace_char cs ≡ cs
map-replace_char_safe [] h = refl
map-replace_char_safe (c ∷ cs) h = elim (Bool-cases (is_allowed_char c)) [
  | inl kept ↦
      let rest : all is_allowed_char cs ≡ true = rw (all, kept) at h in
      rw (kept, map-replace_char_safe cs rest) refl
  | inr other ↦ let lost : false ≡ true = rw (all, other) at h in absurd (cc lost)
]

lstrip_safe :
    (cs : List ℕ) → all is_allowed_char cs ≡ true → starts_with_dot cs ≡ false → lstrip cs ≡ cs
unfolding lstrip
lstrip_safe [] h k = refl
lstrip_safe (c ∷ cs) h k = elim (Bool-cases (nat_eqb c 46 || nat_eqb c 47)) [
  | inr other ↦ rw (other, lstrip) refl
  | inl dot ↦ absurd (ground (arith, h, k, dot))
]

-- A name that consists of the allowed characters and does not begin with a dot is kept as it is.
pub sanitize_filename_safe :
    (filename : List ℕ)
    → all is_allowed_char filename ≡ true
    → starts_with_dot filename ≡ false
    → sanitize_filename filename ≡ filename
unfolding sanitize_filename
sanitize_filename_safe filename h k =
    rw (map-replace_char_safe filename h) (lstrip_safe filename h k)

-- Whatever name a client sends, the name that is stored consists of letters, digits, dots, underscores
-- and dashes, so it holds no slash; it does not begin with a dot; and cleaning it again changes nothing.
pub sanitize_filename_lem :
    (filename : List ℕ)
    → (all is_allowed_char (sanitize_filename filename) ≡ true)
      × (starts_with_dot (sanitize_filename filename) ≡ false)
      × (sanitize_filename (sanitize_filename filename) ≡ sanitize_filename filename)
unfolding sanitize_filename
sanitize_filename_lem filename =
    let allowed = lstrip-allowed (map replace_char filename) (map-replace_char-allowed filename) in
    let no_dot = lstrip-no_dot (map replace_char filename) in
    (allowed, no_dot, sanitize_filename_safe (sanitize_filename filename) allowed no_dot)

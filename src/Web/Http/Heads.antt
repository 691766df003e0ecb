-- ===== src/Web/Http/Heads.antt =====
-- Where the header block ends, in what is read so far and in all that comes.
use netcourier.Prelude.{
  ℕ, ◌+◌, ◌≤◌, ◌≡◌, refl, ap, ◌∙◌, inl, inr, true, false, Option, none, some, [], ◌∷◌, ◌++◌, arith,
  length, length-drop, drop, Bool-cases, Option-cases,
}
use netcourier.Protocol.{Bytes}
use netcourier.Web.Http.{at_end, split_head}

at_end-append : (xs s : Bytes) → 4 ≤ length xs → at_end (xs ++ s) ≡ at_end xs
at_end-append (a ∷ b ∷ c ∷ d ∷ rest) s long = refl
at_end-append [] s long = absurd (omega arith)
at_end-append (a ∷ []) s long = absurd (omega arith)
at_end-append (a ∷ b ∷ []) s long = absurd (omega arith)
at_end-append (a ∷ b ∷ c ∷ []) s long = absurd (omega arith)

at_end-long : (xs : Bytes) → at_end xs ≡ true → 4 ≤ length xs
at_end-long (a ∷ b ∷ c ∷ d ∷ rest) e = omega arith
at_end-long [] e = ground arith
at_end-long (a ∷ []) e = ground arith
at_end-long (a ∷ b ∷ []) e = ground arith
at_end-long (a ∷ b ∷ c ∷ []) e = ground arith

drop_four-append : (xs s : Bytes) → 4 ≤ length xs → drop 4 (xs ++ s) ≡ drop 4 xs ++ s
drop_four-append (a ∷ b ∷ c ∷ d ∷ rest) s long = refl
drop_four-append [] s long = absurd (omega arith)
drop_four-append (a ∷ []) s long = absurd (omega arith)
drop_four-append (a ∷ b ∷ []) s long = absurd (omega arith)
drop_four-append (a ∷ b ∷ c ∷ []) s long = absurd (omega arith)

split_head-long : (xs : Bytes) (r : Bytes × Bytes) → split_head xs ≡ some r → 4 ≤ length xs
unfolding split_head
split_head-long [] r e = ground arith
split_head-long (c ∷ bytes) r e = elim (Bool-cases (at_end (c ∷ bytes))) [
  | inl here ↦ at_end-long (c ∷ bytes) here
  | inr later ↦ elim (Option-cases (split_head bytes)) [
    | inl none_there ↦ ground (arith, e, later, none_there)
    | inr (r', there) ↦ let long = split_head-long bytes r' there in omega (arith, long)
  ]
]

split_head-here :
    (c : ℕ) (bytes : Bytes)
    → at_end (c ∷ bytes) ≡ true
    → split_head (c ∷ bytes) ≡ some ([], drop 4 (c ∷ bytes))
unfolding split_head
split_head-here c bytes here = rw here refl

split_head-later :
    (c : ℕ) (bytes h b : Bytes)
    → at_end (c ∷ bytes) ≡ false
    → split_head bytes ≡ some (h, b)
    → split_head (c ∷ bytes) ≡ some (c ∷ h, b)
unfolding split_head
split_head-later c bytes h b later there = rw (later, there) refl

split_head-missing :
    (c : ℕ) (bytes : Bytes)
    → at_end (c ∷ bytes) ≡ false
    → split_head bytes ≡ none
    → split_head (c ∷ bytes) ≡ none
unfolding split_head
split_head-missing c bytes later missing = rw (later, missing) refl

-- A split there is, of one or the other kind.
pub parts_unique :
    (o : Option (Bytes × Bytes)) (h b head p : Bytes)
    → o ≡ some (h, b)
    → o ≡ some (head, p)
    → (h ≡ head) × (b ≡ p)
parts_unique o h b head p e e' = (cc (e, e'), cc (e, e'))

-- What comes later is part of the body.
pub split_head-append :
    (xs s head p : Bytes)
    → split_head xs ≡ some (head, p)
    → split_head (xs ++ s) ≡ some (head, p ++ s)
split_head-append [] s head p e = absurd (omega (arith, split_head-long [] (head, p) e))
split_head-append (c ∷ bytes) s head p e =
    let long = split_head-long (c ∷ bytes) (head, p) e in
    let same = at_end-append (c ∷ bytes) s long in
    elim (Bool-cases (at_end (c ∷ bytes))) [
      | inl here ↦
          let (first, last) =
            parts_unique (split_head (c ∷ bytes)) [] (drop 4 (c ∷ bytes)) head p
              (split_head-here c bytes here) e in
          split_head-here c (bytes ++ s) (same ∙ here)
          ∙ cc (first, last, drop_four-append (c ∷ bytes) s long)
      | inr later ↦ elim (Option-cases (split_head bytes)) [
        | inl missing ↦ absurd (cc (split_head-missing c bytes later missing, e))
        | inr ((h, b), there) ↦
            let (first, last) =
              parts_unique (split_head (c ∷ bytes)) (c ∷ h) b head p
                (split_head-later c bytes h b later there) e in
            split_head-later c (bytes ++ s) h (b ++ s) (same ∙ later)
              (split_head-append bytes s h b there)
            ∙ cc (first, last)
      ]
    ]

-- Once more is read than the header block it is found.
pub split_head-found :
    (xs s head body : Bytes)
    → split_head (xs ++ s) ≡ some (head, body)
    → length head + 4 ≤ length xs
    → split_head xs ≡ none
    → ⊥
split_head-found [] s head body e long missing = omega (arith, long)
split_head-found (c ∷ bytes) s head body e long missing =
    let same = at_end-append (c ∷ bytes) s (omega (arith, long)) in
    elim (Bool-cases (at_end (c ∷ bytes))) [
      | inl here ↦ cc (split_head-here c bytes here, missing)
      | inr later ↦ elim (Option-cases (split_head (bytes ++ s))) [
        | inl nowhere ↦ cc (split_head-missing c (bytes ++ s) (same ∙ later) nowhere, e)
        | inr ((h, b), there) ↦
            let (first, last) =
              parts_unique (split_head (c ∷ bytes ++ s)) (c ∷ h) b head body
                (split_head-later c (bytes ++ s) h b (same ∙ later) there) e in
            elim (Option-cases (split_head bytes)) [
              | inl missing_there ↦
                  split_head-found bytes s h b there (omega (arith, long, ap length first))
                    missing_there
              | inr ((h', b'), found) ↦ cc (split_head-later c bytes h' b' later found, missing)
            ]
      ]
    ]

pub split_head-shorter :
    (xs head body : Bytes) → split_head xs ≡ some (head, body) → length body ≤ length xs
split_head-shorter [] head body e = absurd (omega (arith, split_head-long [] (head, body) e))
split_head-shorter (c ∷ bytes) head body e = elim (Bool-cases (at_end (c ∷ bytes))) [
  | inl here ↦
      let (first, last) =
        parts_unique (split_head (c ∷ bytes)) [] (drop 4 (c ∷ bytes)) head body
          (split_head-here c bytes here) e in
      omega (arith, ap length last, length-drop 4 (c ∷ bytes))
  | inr later ↦ elim (Option-cases (split_head bytes)) [
    | inl missing ↦ absurd (cc (split_head-missing c bytes later missing, e))
    | inr ((h, b), there) ↦
        let (first, last) =
          parts_unique (split_head (c ∷ bytes)) (c ∷ h) b head body
            (split_head-later c bytes h b later there) e in
        omega (arith, ap length last, split_head-shorter bytes h b there)
  ]
]

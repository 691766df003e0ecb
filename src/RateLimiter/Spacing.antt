-- ===== src/RateLimiter/Spacing.antt =====
-- How often a user of a `RateLimiter` (gateway/main.py, server/main.py) gets through.
use mathlib.Core.Path.{subst}
use netcourier.Prelude.{
  ℕ, ◌+◌, ◌≤◌, ◌≡◌, refl, Option, some, List, [], ◌∷◌, ltb, if◌then◌else◌, or_else, nat_eq, nat_eqb,
  ◌==◌, Bool-cases, inl, inr, nat_eqb_iff, ltb_false→le, ◌∙◌,
}
use netcourier.Dict.{get, put, get-put}
use netcourier.RateLimiter.{RateLimiter, is_allowed}

-- The times at which a user's calls were allowed, over any calls (time, user) by all users.
pub allowed_times : ℕ → List (ℕ × ℕ) → RateLimiter → List ℕ
allowed_times user [] l = []
allowed_times user ((now, caller) ∷ calls) l =
    let (l', allowed) = is_allowed now caller l in
    let times = allowed_times user calls l' in
    if allowed then (if caller == user then now ∷ times else times) else times

-- Each time is `limit` behind the one before, the first behind `from`.
abbrev pub Spaced : ℕ → ℕ → List ℕ → Type 0
Spaced limit from [] = Unit
Spaced limit from (t ∷ ts) = (from + limit ≤ t) × Spaced limit t ts

-- Whoever calls in between, and however the clock jumps, two allowed calls of a user are at least
-- the limit apart, and the first allowed one is that far behind the last one on record.
pub allowed_times-Spaced :
    (user : ℕ) (calls : List (ℕ × ℕ)) (l : RateLimiter)
    → Spaced l.limit (or_else (get l.last_action user) 0) (allowed_times user calls l)
unfolding allowed_times is_allowed
allowed_times-Spaced user [] l = tt
allowed_times-Spaced user ((now, caller) ∷ calls) l =
    let d = put l.last_action caller now in
    let l' = record l { last_action = d } in
    let ih = allowed_times-Spaced user calls l' in
    let from_put = get-put l.last_action caller user now in
    elim (Bool-cases (ltb now (or_else (get l.last_action caller) 0 + l.limit))) [
      | inl early ↦ rw early (allowed_times-Spaced user calls l)
      | inr late ↦ elim (Bool-cases (nat_eqb caller user)) [
        | inl same ↦
            let e : caller ≡ user = (nat_eqb_iff caller user).0 same in
            let at_user : get d user ≡ some now = from_put ∙ rw same refl in
            rw (late, same)
              (
                subst (λ u. or_else (get l.last_action u) 0 + l.limit ≤ now) e
                    (ltb_false→le now _ late),
                subst (λ (o : Option ℕ). Spaced l.limit (or_else o 0) (allowed_times user calls l'))
                    at_user ih,
              )
        | inr other ↦
            let at_user : get d user ≡ get l.last_action user = from_put ∙ rw other refl in
            rw (late, other)
              (subst (λ (o : Option ℕ). Spaced l.limit (or_else o 0) (allowed_times user calls l'))
                at_user ih)
      ]
    ]

abbrev pub last_of : ℕ → List ℕ → ℕ
last_of from [] = from
last_of from (t ∷ ts) = last_of t ts

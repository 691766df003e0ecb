-- ===== src/Dict.antt =====
-- Python's dict, in insertion order: `d.get(k)`, `d[k] = v` (an old key keeps its place, a new one
-- goes to the end), `del d[k]`, and a set of hashable items as a list without repetition.
use netcourier.Prelude.{
  ◌≡◌, refl, Bool, Option, none, some, List, [], ◌∷◌, arith, Eq, ◌==◌, if◌then◌else◌, is_some,
  beq_refl, ◌∙◌, Bool-cases, inl, inr,
}

abbrev pub Dict {ℓ κ} : Type ℓ → Type κ → Type (ℓ ⊔ κ)
Dict K V = List (K × V)

module _ {ℓ κ} {K : Type ℓ} {V : Type κ} ⦃e : Eq K⦄ where
  unfoldable pub get : Dict K V → K → Option V
  get [] k = none
  get ((j, v) ∷ d) k = if j == k then some v else get d k

  -- `k in d`
  abbrev pub has : Dict K V → K → Bool
  has d k = is_some (get d k)

  unfoldable pub put : Dict K V → K → V → Dict K V
  put [] k v = (k, v) ∷ []
  put ((j, w) ∷ d) k v = if j == k then (j, v) ∷ d else (j, w) ∷ put d k v

  unfoldable pub del : Dict K V → K → Dict K V
  del [] k = []
  del ((j, w) ∷ d) k = let rest = del d k in if j == k then rest else (j, w) ∷ rest

  pub get-put :
      (d : Dict K V) (k j : K) (v : V) → get (put d k v) j ≡ (if k == j then some v else get d j)
  unfolding get put
  get-put [] k j v = refl
  get-put ((i, w) ∷ d) k j v =
      ground (arith, get-put d k j v, e.beq_iff k j, e.beq_iff i k, e.beq_iff i j)

  pub get-put_same : (d : Dict K V) (k : K) (v : V) → get (put d k v) k ≡ some v
  get-put_same d k v = get-put d k k v ∙ rw (beq_refl k) refl

  pub get-del : (d : Dict K V) (k j : K) → get (del d k) j ≡ (if k == j then none else get d j)
  unfolding get del
  get-del [] k j = ground arith
  get-del ((i, w) ∷ d) k j =
      ground (arith, get-del d k j, e.beq_iff k j, e.beq_iff i k, e.beq_iff i j)

  -- A key stands once. Every dict that is built from the empty one is such.
  abbrev pub IsDict : Dict K V → Type κ
  IsDict [] = Unit
  IsDict ((k, v) ∷ d) = (get d k ≡ none) × IsDict d

  pub put-IsDict : (d : Dict K V) (k : K) (v : V) → IsDict d → IsDict (put d k v)
  unfolding put get
  put-IsDict [] k v h = (refl, tt)
  put-IsDict ((j, w) ∷ d) k v h = elim (Bool-cases (j == k)) [
    | inl same ↦ rw same h
    | inr other ↦
        rw other
          (ground (arith, get-put d k j v, e.beq_iff j k, e.beq_iff k j), put-IsDict d k v h.1)
  ]

  pub del-IsDict : (d : Dict K V) (k : K) → IsDict d → IsDict (del d k)
  unfolding del get
  del-IsDict [] k h = tt
  del-IsDict ((j, w) ∷ d) k h = elim (Bool-cases (j == k)) [
    | inl same ↦ rw same (del-IsDict d k h.1)
    | inr other ↦ rw other (ground (arith, get-del d k j), del-IsDict d k h.1)
  ]

pub ruleset dict_laws = (get-put, get-del)

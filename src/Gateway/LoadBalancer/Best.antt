-- ===== src/Gateway/LoadBalancer/Best.antt =====
-- What `select_backend` of gateway/load_balancer.py chooses.
use mathlib.Core.Path.{subst}
use netcourier.Prelude.{
  ℕ, ◌<◌, ◌≡◌, refl, ◌⊎◌, inl, inr, true, false, String, none, some, [], ◌∷◌, arith, ltb, nat_eqb,
  Bool-cases, ap, sym, ◌∙◌, ◌≢◌, string_eq, ltb→lt,
}
use netcourier.Dict.{Dict}
use netcourier.Gateway.Backends.{Backend, Registry, down, is_alive, alive_of, get_alive_backends}
use netcourier.Gateway.LoadBalancer.{score, consider, choose, select_backend}
use netcourier.Gateway.LoadBalancer.Order.{
  server_lt, server_lt_asym, server_lt_trans_not, server_lt_irrefl,
}

-- A load k on server b is at least as good as a load m on server c: smaller, or equal and c is not
-- before b.
abbrev pub Precedes : ℕ → String → ℕ → String → Type 0
Precedes k b m c = (k < m) ⊎ ((k ≡ m) × (server_lt c b ≡ false))

Precedes-trans :
    (k m n : ℕ) (a b c : String) → Precedes k a m b → Precedes m b n c → Precedes k a n c
Precedes-trans k m n a b c (inl h) (inl h') = inl (omega arith)
Precedes-trans k m n a b c (inl h) (inr h') = inl (omega arith)
Precedes-trans k m n a b c (inr h) (inl h') = inl (omega arith)
Precedes-trans k m n a b c (inr (e, h)) (inr (e', h')) =
    inr (omega arith, server_lt_trans_not a b c h' h)

-- An item of `d.items()`.
abbrev pub Item : String → Backend → Dict String Backend → Type 0
Item sid info [] = ⊥
Item sid info ((j, other) ∷ d) = ((sid ≡ j) × (info ≡ other)) ⊎ Item sid info d

abbrev pub AllPrecede : ℕ → String → Dict String Backend → Type 0
AllPrecede k b [] = Unit
AllPrecede k b ((sid, info) ∷ d) = Precedes k b (score info) sid × AllPrecede k b d

-- One round keeps the better of the best so far and the new one.
consider_lem :
    (sid : String) (k : ℕ) (best : String) (m : ℕ)
    → (b : String) × (n : ℕ) × (consider sid k (some best, some m) ≡ (some b, some n))
      × Precedes n b k sid
      × Precedes n b m best
      × (((b ≡ sid) × (n ≡ k)) ⊎ ((b ≡ best) × (n ≡ m)))
unfolding consider
consider_lem sid k best m = elim (Bool-cases (ltb k m)) [
  | inl less ↦
      (sid, k, rw less, inr (refl, server_lt_irrefl sid), inl (ltb→lt k m less), inl (refl, refl))
  | inr not_less ↦ elim (Bool-cases (nat_eqb k m)) [
    | inl same ↦ elim (Bool-cases (server_lt sid best)) [
      | inl before ↦ (
        sid,
        m,
        rw (not_less, same, before),
        inr (ground arith, server_lt_irrefl sid),
        inr (refl, server_lt_asym sid best before),
        inl (refl, ground arith),
      )
      | inr behind ↦ (
        best,
        m,
        rw (not_less, same, behind),
        inr (ground arith, behind),
        inr (refl, server_lt_irrefl best),
        inr (refl, refl),
      )
    ]
    | inr other ↦ (
      best,
      m,
      rw (not_less, other),
      inl (ground arith),
      inr (refl, server_lt_irrefl best),
      inr (refl, refl),
    )
  ]
]

abbrev Origin : String → ℕ → String → ℕ → Dict String Backend → Type 0
Origin b n best m d = ((b ≡ best) × (n ≡ m)) ⊎ ((info : Backend) × Item b info d × (score info ≡ n))

Origin-cons :
    (sid best b b' : String) (info : Backend) (m n n' : ℕ) (d : Dict String Backend)
    → ((b ≡ sid) × (n ≡ score info)) ⊎ ((b ≡ best) × (n ≡ m))
    → Origin b' n' b n d
    → Origin b' n' best m ((sid, info) ∷ d)
Origin-cons sid best b b' info m n n' d which (inr (found, item, e)) = inr (found, inr item, e)
Origin-cons sid best b b' info m n n' d (inl (p, q)) (inl (p', q')) = inr (info, inl (cc, refl), cc)
Origin-cons sid best b b' info m n n' d (inr (p, q)) (inl (p', q')) = inl (cc, cc)

choose_lem :
    (d : Dict String Backend) (best : String) (m : ℕ)
    → (b : String) × (n : ℕ) × (choose d (some best, some m) ≡ some b)
      × Precedes n b m best
      × AllPrecede n b d
      × Origin b n best m d
unfolding choose
choose_lem [] best m = (best, m, refl, inr (refl, server_lt_irrefl best), tt, inl (refl, refl))
choose_lem ((sid, info) ∷ d) best m =
    let (b, n, round, over_new, over_old, which) = consider_lem sid (score info) best m in
    let (b', n', rest, over_best, over_rest, origin) = choose_lem d b n in
    (
      b',
      n',
      rw round rest,
      Precedes-trans n' n m b' b best over_best over_old,
      (Precedes-trans n' n (score info) b' b sid over_best over_new, over_rest),
      Origin-cons sid best b b' info m n n' d which origin,
    )

Item-alive_of :
    (sid : String) (info : Backend) (d : Dict String Backend)
    → Item sid info (alive_of d)
    → Item sid info d × (is_alive info.status ≡ true)
unfolding alive_of
Item-alive_of sid info [] h = absurd h
Item-alive_of sid info ((j, other) ∷ d) h = elim (Bool-cases (is_alive other.status)) [
  | inl up ↦ kept (Item-alive_of sid info d) up (rw up at h)
  | inr off ↦ let (item, up) = Item-alive_of sid info d (rw off at h) in (inr item, up)
]
  where
    kept :
        (Item sid info (alive_of d) → Item sid info d × (is_alive info.status ≡ true))
        → is_alive other.status ≡ true
        → ((sid ≡ j) × (info ≡ other)) ⊎ Item sid info (alive_of d)
        → Item sid info ((j, other) ∷ d) × (is_alive info.status ≡ true)
    kept ih up (inl (p, q)) = (inl (p, q), ap (λ (b : Backend). is_alive b.status) q ∙ up)
    kept ih up (inr item) = let (item', up') = ih item in (inr item', up')

alive_of-Item :
    (sid : String) (info : Backend) (d : Dict String Backend)
    → Item sid info d
    → is_alive info.status ≡ true
    → Item sid info (alive_of d)
unfolding alive_of
alive_of-Item sid info [] h up = absurd h
alive_of-Item sid info ((j, other) ∷ d) (inl (p, q)) up =
    rw (ap (λ (b : Backend). is_alive b.status) (sym q) ∙ up) (inl (p, q))
alive_of-Item sid info ((j, other) ∷ d) (inr item) up = elim (Bool-cases (is_alive other.status)) [
  | inl up' ↦ rw up' (inr (alive_of-Item sid info d item up))
  | inr off ↦ rw off (alive_of-Item sid info d item up)
]

abbrev Found : Dict String Backend → String → Type 0
Found d sid = (info : Backend) × Item sid info d × AllPrecede (score info) sid d

choose_chosen :
    (d : Dict String Backend) (sid : String) → choose d (none, none) ≡ some sid → Found d sid
unfolding choose consider
choose_chosen [] sid e = cc
choose_chosen ((first, info) ∷ d) sid e =
    let (b, n, rest, over_first, over_rest, origin) = choose_lem d first (score info) in
    let same : b ≡ sid = cc (e, rest) in
    subst (Found ((first, info) ∷ d)) same (taken b n (over_first, over_rest) origin)
  where
    taken :
        (b : String) (n : ℕ)
        → AllPrecede n b ((first, info) ∷ d)
        → Origin b n first (score info) d
        → Found ((first, info) ∷ d) b
    taken b n over (inl (p, q)) =
        (info, inl (p, refl), subst (λ k. AllPrecede k b ((first, info) ∷ d)) q over)
    taken b n over (inr (chosen, item, k)) =
        (chosen, inr item, subst (λ k. AllPrecede k b ((first, info) ∷ d)) (sym k) over)

pub select_backend-Item :
    (r : Registry) (sid : String)
    → select_backend r ≡ some sid
    → (info : Backend) × Item sid info r.backends × (is_alive info.status ≡ true)
unfolding select_backend get_alive_backends
select_backend-Item r sid e =
    let (info, item, over) = choose_chosen (alive_of r.backends) sid e in
    let (item', up) = Item-alive_of sid info r.backends item in (info, item', up)

choose_some :
    (d : Dict String Backend) (sid : String) (info : Backend)
    → Item sid info d
    → choose d (none, none) ≢ none
unfolding choose consider
choose_some [] sid info item e = item
choose_some ((first, other) ∷ d) sid info item e =
    let (b, n, rest, _, _, _) = choose_lem d first (score other) in cc (e, rest)

-- No server is returned only when none is alive.
select_backend-none :
    (r : Registry)
    → select_backend r ≡ none
    → (sid : String) (info : Backend) → Item sid info r.backends
    → info.status ≡ down
unfolding select_backend get_alive_backends
select_backend-none r e sid info item = elim (Bool-cases (is_alive info.status)) [
  | inl up ↦
      absurd
        (choose_some (alive_of r.backends) sid info (alive_of-Item sid info r.backends item up) e)
  | inr off ↦ ground arith
]

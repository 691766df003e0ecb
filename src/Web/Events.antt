-- ===== src/Web/Events.antt =====
-- The event queue of web/api/session.py: `push_event` and `get_events`, which a page polls.
use netcourier.Prelude.{◌≡◌, sym, ◌∙◌, ap, List, [], ◌∷◌, ◌++◌}
use mathlib.Core.List.{append_assoc, append-nil}

module _ {ℓ} {A : Type ℓ} where
  unfoldable pub push_event : A → List A → List A
  push_event event events = events ++ event ∷ []

  -- What is returned, and what is left.
  unfoldable pub get_events : List A → List A × List A
  get_events events = (events, [])

-- A push by a receiver thread, or a poll by a page.
pub data Access {ℓ} (A : Type ℓ) : Type ℓ where
  pushes : A → Access A
  polls : Access A

module _ {ℓ} {A : Type ℓ} where
  -- What the polls return, one after another, and what is left at the end.
  unfoldable pub run_accesses : List (Access A) → List A → List A × List A
  unfolding push_event get_events
  run_accesses [] events = ([], events)
  run_accesses (pushes event ∷ accesses) events = run_accesses accesses (push_event event events)
  run_accesses (polls ∷ accesses) events =
      let (returned, left) = get_events events in
      let (later, left') = run_accesses accesses left in (returned ++ later, left')

  abbrev pub pushed : List (Access A) → List A
  pushed [] = []
  pushed (pushes event ∷ accesses) = event ∷ pushed accesses
  pushed (polls ∷ accesses) = pushed accesses

  -- However polls and pushes follow one another, each event is returned once, in the order of the
  -- pushes, or is still in the queue.
  pub run_accesses-pushed :
      (accesses : List (Access A)) (events : List A)
      → (run_accesses accesses events).0 ++ (run_accesses accesses events).1
        ≡ events ++ pushed accesses
  unfolding run_accesses
  run_accesses-pushed [] events = sym (append-nil events)
  run_accesses-pushed (pushes event ∷ accesses) events =
      run_accesses-pushed accesses (push_event event events)
      ∙ append_assoc events (event ∷ []) (pushed accesses)
  run_accesses-pushed (polls ∷ accesses) events =
      append_assoc events (run_accesses accesses []).0 (run_accesses accesses []).1
      ∙ ap (λ (rest : List A). events ++ rest) (run_accesses-pushed accesses [])

-- ===== src/Gateway/Backends/Timeouts.antt =====
-- `_check_timeouts` of gateway/backend_service.py, server by server.
use mathlib.Core.Option
use netcourier.Prelude.{
  ℕ, ◌+◌, ◌≤◌, ◌↔◌, ◌≡◌, refl, Bool, true, false, String, none, some, List, [], ◌∷◌, arith, elem,
  ◌==◌, eq_iff, string_eq, if◌then◌else◌, Bool-cases, inl, inr, ap, sym, ◌∙◌, Option-cases,
}
use netcourier.Dict.{Dict, get, get-put, IsDict}
use netcourier.Gateway.Backends.{
  Status, down, Backend, Row, Registry, alive, is_stale, mark, mark_down, update_row, sync_down,
  check_timeouts, stale_at, set_down,
}

pub get-mark_down :
    (now timeout : ℕ) (d : Dict String Backend) (k : String)
    → get (mark_down now timeout d).0 k ≡ Option.map (mark now timeout) (get d k)
unfolding mark_down get
get-mark_down now timeout [] k = refl
get-mark_down now timeout ((sid, info) ∷ d) k = elim (Bool-cases (sid == k)) [
  | inl same ↦ rw same
  | inr other ↦ rw other (get-mark_down now timeout d k)
]

-- The ids that go to the table are those of the stale entries.
pub elem-mark_down :
    (now timeout : ℕ) (d : Dict String Backend) (k : String)
    → IsDict d
    → elem k (mark_down now timeout d).1 ≡ stale_at now timeout (get d k)
unfolding mark_down get
elem-mark_down now timeout [] k h = refl
elem-mark_down now timeout ((sid, info) ∷ d) k h = elim (Bool-cases (sid == k)) [
  | inl same ↦
      let e : sid ≡ k = (eq_iff sid k).0 same in
      let gone : get d k ≡ none = ap (get d) (sym e) ∙ h.0 in
      let ih : elem k (mark_down now timeout d).1 ≡ false =
        elem-mark_down now timeout d k h.1 ∙ ap (stale_at now timeout) gone in
      elim (Bool-cases (is_stale now timeout info)) [
        | inl stale ↦ rw (stale, same) (sym stale)
        | inr fresh ↦ rw (fresh, same) (ih ∙ sym fresh)
      ]
  | inr other ↦ elim (Bool-cases (is_stale now timeout info)) [
    | inl stale ↦ rw (stale, other) (elem-mark_down now timeout d k h.1)
    | inr fresh ↦ rw (fresh, other) (elem-mark_down now timeout d k h.1)
  ]
]

pub get-update_row :
    (table : Dict String Row) (sid k : String) (f : Row → Row)
    → get (update_row table sid f) k
      ≡ (if sid == k then Option.map f (get table k) else get table k)
get-update_row table sid k f = elim (Option-cases (get table sid)) [
  | inl e ↦ rw (e, update_row) (ground (arith, eq_iff sid k, e))
  | inr (row, e) ↦ rw (e, update_row) (ground (arith, get-put table sid k (f row), eq_iff sid k, e))
]

pub get-sync_down :
    (ids : List String) (table : Dict String Row) (k : String)
    → get (sync_down true ids table) k
      ≡ (if elem k ids then Option.map set_down (get table k) else get table k)
unfolding sync_down
get-sync_down [] table k = refl
get-sync_down (sid ∷ ids) table k = ground (
  arith,
  get-sync_down ids (update_row table sid set_down) k,
  get-update_row table sid k set_down,
)

-- A check forgets no backend and changes nothing of it but its status: it counts as alive afterwards
-- exactly when it did so before and has been heard from within the timeout.
pub check_timeouts_exact :
    (db_up : Bool) (now : ℕ) (r : Registry) (sid : String) (info : Backend)
    → get r.backends sid ≡ some info
    → (status : Status) × (get (check_timeouts db_up now r).backends sid
        ≡ some (record info { status = status }))
      × ((status ≡ alive)
          ↔ ((info.status ≡ alive) × (now ≤ info.last_heartbeat + r.timeout_seconds)))
unfolding check_timeouts
check_timeouts_exact db_up now r sid info found =
    let after = get-mark_down now r.timeout_seconds r.backends sid in
    elim (Bool-cases (is_stale now r.timeout_seconds info)) [
      | inl stale ↦ (down, rw (after, found, stale) refl, ground arith)
      | inr fresh ↦ (info.status, rw (after, found, fresh) refl, ground arith)
    ]

pub mark_down-IsDict :
    (now timeout : ℕ) (d : Dict String Backend) → IsDict d → IsDict (mark_down now timeout d).0
unfolding mark_down get
mark_down-IsDict now timeout [] h = tt
mark_down-IsDict now timeout ((sid, info) ∷ d) h =
    (get-mark_down now timeout d sid ∙ rw h.0, mark_down-IsDict now timeout d h.1)

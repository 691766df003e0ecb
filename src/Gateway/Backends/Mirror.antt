-- ===== src/Gateway/Backends/Mirror.antt =====
-- The table `backend_servers` follows the dict in memory, as long as sqlite carries out every call
-- and nothing comes between the two halves of a timeout check.
use mathlib.Core.Option
use mathlib.Core.Path.{subst}
use netcourier.Prelude.{
  ℕ, ◌≡◌, refl, true, String, Option, none, some, List, [], ◌∷◌, eq_iff, string_eq, ◌==◌,
  if◌then◌else◌, elem, Option-cases, Bool-cases, beq_refl, inl, inr, ap, sym, ◌∙◌,
}
use netcourier.Dict.{get, get-put, IsDict, put-IsDict}
use netcourier.Gateway.Backends.{
  Backend, Row, Registry, Stats, alive, down, is_stale, mark, mark_down, sync_down,
  register_backend, update_heartbeat, check_timeouts, new_backend, upsert, beating, heartbeat_row,
  is_truthy, set_down, stale_at,
}
use netcourier.Gateway.Backends.Timeouts.{
  get-mark_down, elem-mark_down, get-sync_down, get-update_row, mark_down-IsDict,
}

-- What the table must say of a backend.
pub record Agrees (info : Backend) (row : Row) : Type 0 where
  pub host : row.host ≡ info.host
  pub port : row.port ≡ info.port
  pub status : row.status ≡ info.status

abbrev pub AgreesAt : Option Backend → Option Row → Type 0
AgreesAt none row = Unit
AgreesAt (some info) none = ⊥
AgreesAt (some info) (some row) = Agrees info row

pub record Mirrors (r : Registry) : Type 0 where
  pub unique : IsDict r.backends
  pub rows : (sid : String) → AgreesAt (get r.backends sid) (get r.table sid)

registered-Agrees :
    (host : String) (port now conn : ℕ) (old : Option Row)
    → Agrees (new_backend host port conn now) (upsert old host port now)
registered-Agrees host port now conn none = record { host = refl; port = refl; status = refl }
registered-Agrees host port now conn (some row) = record { host = refl; port = refl; status = refl }

beating-AgreesAt :
    (now : ℕ) (stats : Stats) (info : Backend) (row : Option Row)
    → AgreesAt (some info) row
    → AgreesAt (some (beating now stats info)) (Option.map (heartbeat_row now stats) row)
beating-AgreesAt now stats info none h = h
beating-AgreesAt now stats info (some row) h = elim (Bool-cases (is_truthy stats)) [
  | inl given ↦ rw (given, heartbeat_row) (record { host = h.host; port = h.port; status = refl })
  | inr empty ↦ rw (empty, heartbeat_row) (record { host = h.host; port = h.port; status = refl })
]

marked-AgreesAt :
    (now timeout : ℕ) (info : Option Backend) (row : Option Row)
    → AgreesAt info row
    → AgreesAt
        (Option.map (mark now timeout) info)
        (if stale_at now timeout info then Option.map set_down row else row)
marked-AgreesAt now timeout none row h = tt
marked-AgreesAt now timeout (some info) none h = absurd h
marked-AgreesAt now timeout (some info) (some row) h =
    elim (Bool-cases (is_stale now timeout info)) [
      | inl stale ↦ rw (stale, mark) (record { host = h.host; port = h.port; status = refl })
      | inr fresh ↦ rw (fresh, mark) h
    ]

register_backend-Mirrors :
    (now : ℕ) (sid host : String) (port conn : ℕ) (r : Registry)
    → Mirrors r
    → Mirrors (register_backend true now sid host port conn r)
unfolding register_backend
register_backend-Mirrors now sid host port conn r m = record {
  unique = put-IsDict r.backends sid _ m.unique;
  rows = λ k. simp get-put (elim (Bool-cases (sid == k)) [
    | inl same ↦ rw same (registered-Agrees host port now conn (get r.table sid))
    | inr other ↦ rw other (m.rows k)
  ]);
}

update_heartbeat-Mirrors :
    (now : ℕ) (sid : String) (stats : Stats) (r : Registry)
    → Mirrors r
    → Mirrors (update_heartbeat true now sid stats r)
unfolding update_heartbeat
update_heartbeat-Mirrors now sid stats r m = elim (Option-cases (get r.backends sid)) [
  | inl e ↦ rw (e, update_heartbeat) m
  | inr (info, e) ↦
      rw (e, update_heartbeat)
        (record {
          unique = put-IsDict r.backends sid _ m.unique;
          rows = λ k.
              simp (get-put, get-update_row)
                (elim (Bool-cases (sid == k)) [
                  | inl same ↦
                      let agrees : AgreesAt (some info) (get r.table k) =
                        subst (λ o. AgreesAt o (get r.table k))
                          (ap (get r.backends) (sym ((eq_iff sid k).0 same)) ∙ e) (m.rows k) in
                      rw same (beating-AgreesAt now stats info (get r.table k) agrees)
                  | inr other ↦ rw other (m.rows k)
                ]);
        })
]

check_timeouts-Mirrors : (now : ℕ) (r : Registry) → Mirrors r → Mirrors (check_timeouts true now r)
unfolding check_timeouts
check_timeouts-Mirrors now r m = record {
  unique = mark_down-IsDict now r.timeout_seconds r.backends m.unique;
  rows = λ k.
      simp (get-mark_down, get-sync_down)
        (rw (elem-mark_down now r.timeout_seconds r.backends k m.unique)
          (marked-AgreesAt now r.timeout_seconds (get r.backends k) (get r.table k) (m.rows k)));
}

-- What reaches the registry.
pub data Event : Type 0 where
  registers : ℕ → String → String → ℕ → ℕ → Event
  beats : ℕ → String → Stats → Event
  checks : ℕ → Event

unfoldable pub handle : Registry → Event → Registry
handle r (registers now sid host port conn) = register_backend true now sid host port conn r
handle r (beats now sid stats) = update_heartbeat true now sid stats r
handle r (checks now) = check_timeouts true now r

unfoldable pub run : Registry → List Event → Registry
run r [] = r
run r (event ∷ events) = run (handle r event) events

handle-Mirrors : (r : Registry) (event : Event) → Mirrors r → Mirrors (handle r event)
unfolding handle
handle-Mirrors r (registers now sid host port conn) m =
    register_backend-Mirrors now sid host port conn r m
handle-Mirrors r (beats now sid stats) m = update_heartbeat-Mirrors now sid stats r m
handle-Mirrors r (checks now) m = check_timeouts-Mirrors now r m

-- Whatever registrations, heartbeats and timeout checks follow one another, with sqlite up, every
-- backend in memory has a row in the table with its host, port and status.
pub run-Mirrors : (r : Registry) (events : List Event) → Mirrors r → Mirrors (run r events)
unfolding run
run-Mirrors r [] m = m
run-Mirrors r (event ∷ events) m = run-Mirrors (handle r event) events (handle-Mirrors r event m)

-- Where a heartbeat arrives between the two halves of a check that found its sender stale, memory
-- says "alive" again and the table says "down".
pub heartbeat_between_halves :
    (now later : ℕ) (sid : String) (stats : Stats) (r : Registry) {info : Backend} {row : Row}
    → IsDict r.backends
    → get r.backends sid ≡ some info
    → get r.table sid ≡ some row
    → is_stale now r.timeout_seconds info ≡ true
    → let (marked, ids) = mark_down now r.timeout_seconds r.backends in
      let r' = update_heartbeat true later sid stats (record r { backends = marked }) in
      (Option.map (λ (b : Backend). b.status) (get r'.backends sid) ≡ some alive)
      × (Option.map (λ (b : Row). b.status) (get (sync_down true ids r'.table) sid) ≡ some down)
unfolding update_heartbeat
heartbeat_between_halves now later sid stats r {info} {row} unique known listed stale =
    let timeout = r.timeout_seconds in
    let marked = (mark_down now timeout r.backends).0 in
    let known' : get marked sid ≡ some (mark now timeout info) =
      get-mark_down now timeout r.backends sid ∙ ap (Option.map (mark now timeout)) known in
    let due : elem sid (mark_down now timeout r.backends).1 ≡ true =
      elem-mark_down now timeout r.backends sid unique ∙ ap (stale_at now timeout) known ∙ stale in
    rw (known', update_heartbeat)
      (simp (get-put, beq_refl), rw (get-sync_down, due) (simp (get-update_row, beq_refl, listed)))

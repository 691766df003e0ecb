-- ===== src/Gateway/Sessions/Pruning.antt =====
-- `_prune_stale_sessions` of gateway/main.py, session by session.
use netcourier.Prelude.{
  ℕ, ◌≡◌, refl, sym, ap, ◌∙◌, inl, inr, Bool, false, String, Option, none, some, List, [], ◌∷◌,
  arith, elem, ◌==◌, eq_iff, string_eq, if◌then◌else◌, Bool-cases, Option-cases,
}
use netcourier.Dict.{Dict, get, get-del, IsDict}
use netcourier.Gateway.Sessions.{
  Session, Sessions, is_prunable, remove_session, cleanup_session, cleanup_all, collect,
  prune_stale_sessions,
}

pub get-cleanup_session :
    (db_up : Bool) (now : ℕ) (token t : String) (g : Sessions)
    → get (cleanup_session db_up now token g).active_sessions t
      ≡ (if token == t then none else get g.active_sessions t)
unfolding cleanup_session remove_session
get-cleanup_session db_up now token t g = elim (Option-cases (get g.active_sessions token)) [
  | inl e ↦ rw (e, cleanup_session) (ground (arith, eq_iff token t, e))
  | inr (s, e) ↦ rw (e, cleanup_session) (get-del g.active_sessions token t)
]

get-cleanup_all :
    (db_up : Bool) (now : ℕ) (tokens : List String) (g : Sessions) (t : String)
    → get (cleanup_all db_up now tokens g).active_sessions t
      ≡ (if elem t tokens then none else get g.active_sessions t)
unfolding cleanup_all
get-cleanup_all db_up now [] g t = refl
get-cleanup_all db_up now (token ∷ tokens) g t = ground (
  arith,
  get-cleanup_all db_up now tokens (cleanup_session db_up now token g) t,
  get-cleanup_session db_up now token t g,
)

abbrev pub prunable_at : ℕ → ℕ → Option Session → Bool
prunable_at now timeout none = false
prunable_at now timeout (some s) = is_prunable now timeout s

elem-collect :
    (now timeout : ℕ) (d : Dict String Session) (k : String)
    → IsDict d
    → elem k (collect now timeout d) ≡ prunable_at now timeout (get d k)
unfolding collect get
elem-collect now timeout [] k h = refl
elem-collect now timeout ((token, s) ∷ d) k h = elim (Bool-cases (token == k)) [
  | inl same ↦
      let gone : get d k ≡ none = ap (get d) (sym ((eq_iff token k).0 same)) ∙ h.0 in
      let ih : elem k (collect now timeout d) ≡ false =
        elem-collect now timeout d k h.1 ∙ ap (prunable_at now timeout) gone in
      elim (Bool-cases (is_prunable now timeout s)) [
        | inl stale ↦ rw (stale, same) (sym stale)
        | inr fresh ↦ rw (fresh, same) (ih ∙ sym fresh)
      ]
  | inr other ↦ elim (Bool-cases (is_prunable now timeout s)) [
    | inl stale ↦ rw (stale, other) (elem-collect now timeout d k h.1)
    | inr fresh ↦ rw (fresh, other) (elem-collect now timeout d k h.1)
  ]
]

-- A pruning removes the session of a token exactly when it has expired or has been silent for longer
-- than the timeout; every other session stays as it is, and none appears.
pub prune_stale_sessions_exact :
    (db_up : Bool) (now timeout : ℕ) (g : Sessions) (token : String)
    → IsDict g.active_sessions
    → get (prune_stale_sessions db_up now timeout g).active_sessions token ≡ (
        if prunable_at now timeout (get g.active_sessions token)
        then none
        else get g.active_sessions token)
unfolding prune_stale_sessions
prune_stale_sessions_exact db_up now timeout g token unique =
    get-cleanup_all db_up now (collect now timeout g.active_sessions) g token
    ∙ rw (elem-collect now timeout g.active_sessions token unique) refl

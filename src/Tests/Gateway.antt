-- ===== src/Tests/Gateway.antt =====
-- The gateway, at work on two process servers and one user who logs in twice.
use netcourier.Prelude.{
  ◌↔◌, ℕ, ◌+◌, ◌≤◌, ◌≡◌, refl, true, none, some, List, [], ◌∷◌, or_else, if◌then◌else◌, nat_eq,
  string_eq,
}
use mathlib.Core.Option
use netcourier.Dict.{get, put}
use netcourier.RateLimiter.{RateLimiter}
use netcourier.RateLimiter.Spacing.{Spaced, allowed_times, allowed_times-Spaced}
use netcourier.Gateway.Backends.{
  Status, Backend, Row, Stats, Registry, alive, down, mark_down, sync_down, update_heartbeat,
  check_timeouts,
}
use netcourier.Gateway.Backends.Timeouts.{check_timeouts_exact}
use netcourier.Gateway.Backends.Mirror.{
  Mirrors, registers, beats, checks, run, run-Mirrors, heartbeat_between_halves,
}
use netcourier.Gateway.RoomDirectory.{Directory}
use netcourier.Gateway.Sessions.{
  Sessions, User, login, disconnect_old, new_session, validate_token, prune_stale_sessions, Verdict,
  touch,
}
use netcourier.Gateway.Sessions.Ownership.{OneEach, holder}
use netcourier.Gateway.Sessions.Steps.{here, next, logs_in, sends, Reach-OneEach, login_replaces}
use netcourier.Gateway.Sessions.Pruning.{prunable_at, prune_stale_sessions_exact}

abbrev limiter : RateLimiter
limiter = record { limit = 10; last_action = (1, 5) ∷ [] }

abbrev calls : List (ℕ × ℕ)
calls = (12, 1) ∷ (20, 1) ∷ (20, 2) ∷ (25, 1) ∷ (31, 1) ∷ []

allowed_times-Spaced_example :
    Spaced 10 (or_else (get limiter.last_action 1) 0) (allowed_times 1 calls limiter)
allowed_times-Spaced_example = allowed_times-Spaced 1 calls limiter

abbrev quiet : Backend
quiet = record {
  host = "h";
  port = 9101;
  status = alive;
  last_heartbeat = 100;
  socket = 3;
  active_rooms = 0;
  active_clients = 2;
  active_transfers = 1;
}

abbrev busy : Backend
busy = record quiet { active_rooms = 4 }

abbrev row_of_quiet : Row
row_of_quiet = record {
  host = "h";
  port = 9101;
  status = alive;
  active_rooms = 0;
  active_clients = 2;
  active_transfers = 1;
  last_heartbeat_at = 100;
}

abbrev registry : Registry
registry = record {
  timeout_seconds = 15;
  backends = ("b", busy) ∷ ("a", quiet) ∷ [];
  table = ("a", row_of_quiet) ∷ [];
}

check_timeouts_exact_example :
    (status : Status) × (get (check_timeouts true 110 registry).backends "a"
      ≡ some (record quiet { status = status }))
    × ((status ≡ alive) ↔ ((quiet.status ≡ alive) × (110 ≤ 100 + 15)))
unfolding get
check_timeouts_exact_example = check_timeouts_exact true 110 registry "a" quiet refl

no_backends-Mirrors : Mirrors (record { timeout_seconds = 15; backends = []; table = [] })
unfolding get
no_backends-Mirrors = record { unique = tt; rows = λ sid. tt }

abbrev load : Stats
load = record { active_rooms = some 1; active_clients = some 2; active_transfers = none }

run-Mirrors_example : Mirrors (
    run
      (record { timeout_seconds = 15; backends = []; table = [] })
      (registers 10 "a" "h" 9101 3 ∷ checks 30 ∷ beats 31 "a" load ∷ []))
run-Mirrors_example =
    run-Mirrors (record { timeout_seconds = 15; backends = []; table = [] })
      (registers 10 "a" "h" 9101 3 ∷ checks 30 ∷ beats 31 "a" load ∷ []) no_backends-Mirrors

abbrev lone : Registry
lone = record registry { backends = ("a", quiet) ∷ [] }

heartbeat_between_halves_example :
    let (marked, ids) = mark_down 116 15 lone.backends in
    let r' = update_heartbeat true 117 "a" load (record lone { backends = marked }) in
    (Option.map (λ (b : Backend). b.status) (get r'.backends "a") ≡ some alive)
    × (Option.map (λ (b : Row). b.status) (get (sync_down true ids r'.table) "a") ≡ some down)
unfolding get
heartbeat_between_halves_example =
    heartbeat_between_halves 116 117 "a" load lone {info = quiet} {row = row_of_quiet} (refl, tt)
      refl refl refl

abbrev ada : User
ada = record { user_id = 1; username = "ada"; display_name = "Ada" }

abbrev pub logged_out : Sessions
logged_out = record { active_sessions = []; user_to_token = []; presence = [] }

pub logged_out-OneEach : OneEach logged_out
unfolding holder get
logged_out-OneEach = record { agree = λ token username. (λ p. absurd (cc p), λ p. absurd (cc p)) }

abbrev once : Sessions
once = login true 10 3 "t1" ada (some 50) logged_out

Reach-OneEach_example : OneEach (touch true 12 "t1" once).1
unfolding holder get
Reach-OneEach_example =
    Reach-OneEach logged_out-OneEach
      (next (next here (logs_in true 10 3 "t1" ada (some 50) refl)) (sends true 12 "t1"))

login_replaces_example :
    let g' = login true 20 4 "t2" ada none once in
    (holder g' "t2" ≡ some "ada") × (validate_token true 30 "t1" g' ≡ (Verdict.invalid_token, g'))
unfolding holder get login disconnect_old new_session put
login_replaces_example =
    login_replaces true 20 4 "t2" ada none once "t1" true 30
      (Reach-OneEach logged_out-OneEach (next here (logs_in true 10 3 "t1" ada (some 50) refl)))
      refl refl

prune_stale_sessions_exact_example :
    get (prune_stale_sessions true 200 60 once).active_sessions "t1" ≡ (
      if prunable_at 200 60 (get once.active_sessions "t1")
      then none
      else get once.active_sessions "t1")
unfolding login disconnect_old get put
prune_stale_sessions_exact_example = prune_stale_sessions_exact true 200 60 once "t1" (refl, tt)

abbrev registered : Registry
registered =
    run (record { timeout_seconds = 15; backends = []; table = [] })
      (registers 10 "a" "h" 9101 3 ∷ [])

abbrev no_rooms : Directory
no_rooms = record { rooms = []; room_mapping = [] }

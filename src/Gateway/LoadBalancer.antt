-- ===== src/Gateway/LoadBalancer.antt =====
-- gateway/load_balancer.py: which process server gets a new room.
pub mod Order
pub mod Best
use netcourier.Prelude.{
  ℕ, ◌+◌, ◌*◌, Bool, true, false, String, Option, none, some, [], ◌∷◌, ltb, nat_eqb, if◌then◌else◌,
  ◌&&◌,
}
use netcourier.Dict.{Dict}
use netcourier.Gateway.Backends.{Backend, Registry, get_alive_backends}
use netcourier.Gateway.LoadBalancer.Order.{server_lt}

unfoldable pub score : Backend → ℕ
score info = info.active_rooms * 10 + info.active_clients + info.active_transfers * 2

-- `score < min_score`, where `none` is float("inf")
abbrev lt_min : ℕ → Option ℕ → Bool
lt_min k none = true
lt_min k (some m) = ltb k m

abbrev eq_min : ℕ → Option ℕ → Bool
eq_min k none = false
eq_min k (some m) = nat_eqb k m

-- `best_server_id is None or server_id < best_server_id`
abbrev lt_best : String → Option String → Bool
lt_best sid none = true
lt_best sid (some best) = server_lt sid best

-- The body of the loop, on `best_server_id` and `min_score`.
unfoldable pub consider : String → ℕ → Option String × Option ℕ → Option String × Option ℕ
consider sid k (best, m) =
    if lt_min k m
    then (some sid, some k)
    else if eq_min k m && lt_best sid best
    then (some sid, m)
    else (best, m)

unfoldable pub choose : Dict String Backend → Option String × Option ℕ → Option String
choose [] acc = acc.0
choose ((sid, info) ∷ d) acc = choose d (consider sid (score info) acc)

unfoldable pub select_backend : Registry → Option String
unfolding choose
select_backend r = choose (get_alive_backends r) (none, none)

-- ===== src/RateLimiter.antt =====
-- The class `RateLimiter`, which gateway/main.py (private messages, one second) and server/main.py
-- (room chat, half a second) both declare. `time.time()` is an argument, a number of clock ticks.
pub mod Spacing
use netcourier.Prelude.{ℕ, ◌+◌, Bool, true, false, ltb, if◌then◌else◌, or_else, nat_eq}
use netcourier.Dict.{Dict, get, put}

pub record RateLimiter : Type 0 where
  pub limit : ℕ
  pub last_action : Dict ℕ ℕ

-- `now - last < self.limit_seconds`, where the clock may have gone back
unfoldable pub is_allowed : ℕ → ℕ → RateLimiter → RateLimiter × Bool
is_allowed now user_id l =
    let last = or_else (get l.last_action user_id) 0 in
    if ltb now (last + l.limit)
    then (l, false)
    else (record l { last_action = put l.last_action user_id now }, true)

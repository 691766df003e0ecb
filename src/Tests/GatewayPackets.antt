-- ===== src/Tests/GatewayPackets.antt =====
-- The packets of gateway/main.py, with a hash that is the length.
use netcourier.Prelude.{ℕ, ◌≡◌, refl, true, String, none, some, [], ◌∷◌, codes, string_eq, nat_eq}
use netcourier.Dict.{get, put}
use netcourier.Gateway.Accounts.{
  Account, verify_password, authenticate, set_last_login, hex, hex_digit, digit_value, fromhex,
  split_colon,
}
use netcourier.Gateway.Sessions.{User, login, disconnect_old, new_session}
use netcourier.Gateway.Sessions.Ownership.{OneEach, holder}
use netcourier.Gateway.Sessions.Steps.{Reach}
use netcourier.Gateway.Messages.{Code, error}
use netcourier.Gateway.Dispatch.State.{Gateway, System, Call, log_in, list_rooms}
use netcourier.Gateway.Dispatch.Defs.{handle_packet, close_connection, answer, handle_login}
use netcourier.Gateway.Dispatch.Guards.{handle_packet-guarded}
use netcourier.Gateway.Dispatch.Runs.{receives, ends, handle_event, starts, handles, Runs-Reach}
use netcourier.Gateway.Dispatch.Leaks.{handle_login-twice}
use netcourier.Tests.Gateway.{logged_out, logged_out-OneEach}
use netcourier.Tests.Accounts.{length_hash}

abbrev system : System
system = record { pbkdf2 = length_hash; latest = λ u v limit rows. rows }

abbrev account : ℕ → String → Account
account id name = record {
  user_id = id;
  password_hash = codes "07:04";
  display_name = name;
  created_at = 0;
  last_login_at = none;
}

abbrev idle : Gateway
idle = record {
  users = ("ada", account 1 "Ada") ∷ ("bob", account 2 "Bob") ∷ [];
  sessions = logged_out;
  private_messages = [];
  pm_limiter = record { limit = 10; last_action = [] };
  registry = record { timeout_seconds = 15; backends = []; table = [] };
  directory = record { rooms = []; room_mapping = [] };
}

abbrev call : String → Call
call uuid = record { db_up = true; now = 100; conn = 3; uuid = uuid; salt = []; row_id = 9 }

abbrev ada : User
ada = record { user_id = 1; username = "ada"; display_name = "Ada" }

abbrev bob : User
bob = record { user_id = 2; username = "bob"; display_name = "Bob" }

-- The session of ada is over.
abbrev over : Gateway
over = record idle { sessions = login true 10 3 "t1" ada (some 50) logged_out }

handle_packet-guarded_example :
    handle_packet system (call "t") (some "t9") list_rooms none over
    ≡ (none, over, (3, error Code.invalid_token) ∷ [])
unfolding login disconnect_old new_session get put
handle_packet-guarded_example =
    handle_packet-guarded system (call "t") (some "t9") list_rooms none over refl refl

-- ada logs in and her connection ends.
Runs-Reach_example :
    let g =
      handle_event
        (receives system (call "t1") none (log_in (some "ada") (some (codes "pass")) none) none)
        idle in
    let g' = handle_event (ends (call "t1") (some "t1")) g in
    Reach logged_out g'.sessions × OneEach g'.sessions
unfolding holder get
Runs-Reach_example =
    Runs-Reach
      (handles
        (handles starts
          (receives system (call "t1") none (log_in (some "ada") (some (codes "pass")) none) none)
          refl)
        (ends (call "t1") (some "t1")) tt)
      logged_out-OneEach

-- ada and bob log in on one connection, which ends.
handle_login-twice_example :
    let (token, g', packets) =
      handle_packet system
        (call "t1")
        none
        (log_in (some "ada") (some (codes "pass")) none)
        none
        idle in
    let (token', g'', packets') =
      handle_packet system
        (call "t2")
        none
        (log_in (some "bob") (some (codes "pass")) none)
        token
        g' in
    let closed = close_connection (call "") token' g'' in
    (token ≡ some "t1")
    × (get closed.sessions.active_sessions "t1" ≡ some (new_session 100 3 ada none))
unfolding holder get authenticate verify_password set_last_login hex hex_digit digit_value fromhex
    split_colon handle_packet answer handle_login
handle_login-twice_example =
    handle_login-twice system (call "t1") (call "t2") (call "") (some "ada") (some "bob")
      (some (codes "pass")) (some (codes "pass")) ada bob idle logged_out-OneEach refl refl refl
      refl refl

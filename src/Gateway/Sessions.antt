-- ===== src/Gateway/Sessions.antt =====
-- The logged-in users of gateway/main.py: `active_sessions`, `user_to_token`, and the presence
-- table that follows them. Each operation gets the time, and whether sqlite carries out its calls.
pub mod Ownership
pub mod Steps
pub mod Pruning
pub mod Tokens
use netcourier.Prelude.{
  ℕ, ◌+◌, Bool, true, false, String, Option, none, some, List, [], ◌∷◌, ltb, if◌then◌else◌, ◌||◌,
  ◌==◌, string_eq,
}
use netcourier.Dict.{Dict, get, put, del}
use netcourier.Gateway.Presence.{Presence, update_presence}

pub record Session : Type 0 where
  pub user_id : ℕ
  pub username : String
  pub socket : ℕ
  pub last_seen : ℕ
  pub expires_at : Option ℕ
  pub status : String
  pub active_room : Option String

pub record Sessions : Type 0 where
  pub active_sessions : Dict String Session
  pub user_to_token : Dict String String
  pub presence : Dict ℕ Presence

-- `expires_at and datetime.now() > expires_at`
abbrev pub is_expired : ℕ → Option ℕ → Bool
is_expired now none = false
is_expired now (some expires_at) = ltb expires_at now

-- `if self.user_to_token.get(username) == token: del self.user_to_token[username]`
unfoldable pub forget_user : Dict String String → String → String → Dict String String
forget_user user_to_token username token = elim (get user_to_token username) [
  | none ↦ user_to_token
  | some t ↦ if t == token then del user_to_token username else user_to_token
]

unfoldable pub remove_session : Bool → ℕ → String → Session → Sessions → Sessions
unfolding forget_user
remove_session db_up now token s g = record {
  active_sessions = del g.active_sessions token;
  user_to_token = forget_user g.user_to_token s.username token;
  presence = update_presence db_up now s.user_id s.username "offline" none none g.presence;
}

unfoldable pub cleanup_session : (db_up : Bool) (now : ℕ) → String → Sessions → Sessions
cleanup_session db_up now token g = elim (get g.active_sessions token) [
  | none ↦ g
  | some s ↦ remove_session db_up now token s g
]

-- `expires_at and now > expires_at`, or inactive for too long
abbrev pub is_prunable : ℕ → ℕ → Session → Bool
is_prunable now timeout s = is_expired now s.expires_at || ltb (s.last_seen + timeout) now

-- `tokens_to_remove`
pub collect : ℕ → ℕ → Dict String Session → List String
collect now timeout [] = []
collect now timeout ((token, s) ∷ d) =
    let rest = collect now timeout d in if is_prunable now timeout s then token ∷ rest else rest

pub cleanup_all : Bool → ℕ → List String → Sessions → Sessions
cleanup_all db_up now [] g = g
cleanup_all db_up now (token ∷ tokens) g =
    cleanup_all db_up now tokens (cleanup_session db_up now token g)

pub prune_stale_sessions : (db_up : Bool) (now timeout_seconds : ℕ) → Sessions → Sessions
unfolding collect cleanup_all
prune_stale_sessions db_up now timeout_seconds g =
    cleanup_all db_up now (collect now timeout_seconds g.active_sessions) g

-- What `auth_service.authenticate` returns.
pub record User : Type 0 where
  pub user_id : ℕ
  pub username : String
  pub display_name : String

-- "Handle duplicate login"
unfoldable pub disconnect_old : Bool → ℕ → String → Sessions → Sessions
disconnect_old db_up now username g = elim (get g.user_to_token username) [
  | none ↦ g
  | some old ↦ cleanup_session db_up now old g
]

unfoldable pub new_session : ℕ → ℕ → User → Option ℕ → Session
new_session now conn user expires_at = record {
  user_id = user.user_id;
  username = user.username;
  socket = conn;
  last_seen = now;
  expires_at = expires_at;
  status = "online";
  active_room = some "waiting";
}

-- The locked part of `_handle_login`, for a user whose password was right. `user.username` is the
-- username of the packet, a text, by which the session is keyed; `token` is `str(uuid.uuid4())`, and `expires_at`
-- is `now + timedelta(seconds=expires_in)` where the packet names a number of seconds.
unfoldable pub login :
    (db_up : Bool) (now conn : ℕ) (token : String) → User → Option ℕ → Sessions → Sessions
unfolding disconnect_old new_session
login db_up now conn token user expires_at g =
    let g' = disconnect_old db_up now user.username g in
    record {
      active_sessions = put g'.active_sessions token (new_session now conn user expires_at);
      user_to_token = put g'.user_to_token user.username token;
      presence =
          update_presence db_up now user.user_id user.username "online" none (some "waiting")
            g'.presence;
    }

-- What happens to the sender's session when a packet arrives.
pub data Seen : Type 0 where
  unknown expired current : Seen

unfoldable pub see : Bool → ℕ → String → Session → Sessions → Seen × Sessions
see db_up now token s g =
    if is_expired now s.expires_at then (expired, cleanup_session db_up now token g) else (
      current,
      record g {
        active_sessions = put g.active_sessions token (record s { last_seen = now });
        presence =
            update_presence db_up now s.user_id s.username s.status none s.active_room g.presence;
      },
    )

-- The block "Update last_seen" of `_handle_client`.
unfoldable pub touch : (db_up : Bool) (now : ℕ) → String → Sessions → Seen × Sessions
unfolding see
touch db_up now token g = elim (get g.active_sessions token) [
  | none ↦ (unknown, g)
  | some s ↦ see db_up now token s g
]

-- VALIDATE_TOKEN, which a process server asks: TOKEN_VALID, EXPIRED_TOKEN or INVALID_TOKEN.
pub data Verdict : Type 0 where
  token_valid : ℕ → String → Verdict
  expired_token invalid_token : Verdict

pub validate_token : (db_up : Bool) (now : ℕ) → String → Sessions → Verdict × Sessions
validate_token db_up now token g = elim (get g.active_sessions token) [
  | none ↦ (invalid_token, g)
  | some s ↦
      if is_expired now s.expires_at
      then (expired_token, cleanup_session db_up now token g)
      else (token_valid s.user_id s.username, g)
]

pub set_room :
    String → Option String → Option Session → String → Dict String Session → Dict String Session
set_room status room none token d = d
set_room status room (some s) token d =
    put d token (record s { status = status; active_room = room })

-- USER_ROOM_STATUS_UPDATE from a process server.
pub update_room_status :
    (db_up : Bool) (now : ℕ)
    → ℕ
    → String
    → String
    → Option String
    → Option String
    → Sessions
    → Sessions
unfolding set_room
update_room_status db_up now user_id username status server_id room g = record g {
  active_sessions = elim (get g.user_to_token username) [
    | none ↦ g.active_sessions
    | some token ↦ set_room status room (get g.active_sessions token) token g.active_sessions
  ];
  presence = update_presence db_up now user_id username status server_id room g.presence;
}

-- ===== src/Gateway/Presence.antt =====
-- gateway/presence_service.py: the table `user_presence`, one row for each user. Times are whole
-- seconds; the database's clock is the caller's.
use netcourier.Prelude.{
  ℕ, ◌+◌, Bool, String, Option, leb, if◌then◌else◌, not, ◌&&◌, ◌==◌, string_eq, nat_eq,
}
use netcourier.Dict.{Dict, put}

pub record Presence : Type 0 where
  pub username : String
  pub status : String
  pub server_id : Option String
  pub active_room : Option String
  pub last_seen_at : ℕ

-- INSERT ... ON CONFLICT(user_id) DO UPDATE of every column
unfoldable pub update_presence :
    (db_up : Bool) (now : ℕ)
    → ℕ
    → String
    → String
    → Option String
    → Option String
    → Dict ℕ Presence
    → Dict ℕ Presence
update_presence db_up now user_id username status server_id active_room table =
    if db_up
    then put table user_id (record {
      username = username;
      status = status;
      server_id = server_id;
      active_room = active_room;
      last_seen_at = now;
    })
    else table

-- status != 'offline' AND last_seen_at >= datetime('now', '-60 seconds')
unfoldable pub is_online : ℕ → Presence → Bool
is_online now row = not (row.status == "offline") && leb now (row.last_seen_at + 60)

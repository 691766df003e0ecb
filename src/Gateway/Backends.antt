-- ===== src/Gateway/Backends.antt =====
-- gateway/backend_service.py: the process servers that the gateway knows, in memory (`backends`)
-- and in the database table `backend_servers`. Times are whole seconds. A database call has an
-- argument that says whether sqlite carries it out: when it raises, the code logs and goes on.
pub mod Timeouts
pub mod Mirror
use netcourier.Prelude.{
  ℕ, ◌+◌, ◌<◌, ◌≡◌, Bool, true, false, String, Option, none, some, List, [], ◌∷◌, ltb,
  if◌then◌else◌, or_else, ◌&&◌, string_eq,
}
use netcourier.Dict.{Dict, get, put}

pub data Status : Type 0 where
  alive down : Status

abbrev pub is_alive : Status → Bool
is_alive alive = true
is_alive down = false

pub record Backend : Type 0 where
  pub host : String
  pub port : ℕ
  pub status : Status
  pub last_heartbeat : ℕ
  pub socket : ℕ
  pub active_rooms : ℕ
  pub active_clients : ℕ
  pub active_transfers : ℕ

-- A row of `backend_servers`.
pub record Row : Type 0 where
  pub host : String
  pub port : ℕ
  pub status : Status
  pub active_rooms : ℕ
  pub active_clients : ℕ
  pub active_transfers : ℕ
  pub last_heartbeat_at : ℕ

-- The load figures of a heartbeat; a key may be missing. A process server sends all three.
pub record Stats : Type 0 where
  pub active_rooms : Option ℕ
  pub active_clients : Option ℕ
  pub active_transfers : Option ℕ

-- `if stats:` is false of an empty dict.
abbrev any_given : Option ℕ → Option ℕ → Option ℕ → Bool
any_given none none none = false
any_given _ _ _ = true

abbrev pub is_truthy : Stats → Bool
is_truthy stats = any_given stats.active_rooms stats.active_clients stats.active_transfers

pub record Registry : Type 0 where
  pub timeout_seconds : ℕ
  pub backends : Dict String Backend
  pub table : Dict String Row

-- INSERT ... ON CONFLICT(server_id) DO UPDATE: an old row keeps its load figures.
abbrev upsert : Option Row → String → ℕ → ℕ → Row
upsert none host port now = record {
  host = host;
  port = port;
  status = alive;
  active_rooms = 0;
  active_clients = 0;
  active_transfers = 0;
  last_heartbeat_at = now;
}
upsert (some row) host port now = record row {
  host = host;
  port = port;
  status = alive;
  last_heartbeat_at = now;
}

abbrev new_backend : String → ℕ → ℕ → ℕ → Backend
new_backend host port conn now = record {
  host = host;
  port = port;
  status = alive;
  last_heartbeat = now;
  socket = conn;
  active_rooms = 0;
  active_clients = 0;
  active_transfers = 0;
}

unfoldable pub register_backend :
    (db_up : Bool) (now : ℕ) → String → String → ℕ → ℕ → Registry → Registry
register_backend db_up now server_id host port conn r = record r {
  backends = put r.backends server_id (new_backend host port conn now);
  table =
      if db_up
      then put r.table server_id (upsert (get r.table server_id) host port now)
      else r.table;
}

-- `self.backends[server_id].update(stats)`
abbrev update_stats : Stats → Backend → Backend
update_stats stats info = record info {
  active_rooms = or_else stats.active_rooms info.active_rooms;
  active_clients = or_else stats.active_clients info.active_clients;
  active_transfers = or_else stats.active_transfers info.active_transfers;
}

abbrev beating : ℕ → Stats → Backend → Backend
beating now stats info = update_stats stats (record info { status = alive; last_heartbeat = now })

-- UPDATE backend_servers SET ... WHERE server_id = ?
abbrev pub update_row : Dict String Row → String → (Row → Row) → Dict String Row
update_row table server_id f = elim (get table server_id) [
  | none ↦ table
  | some row ↦ put table server_id (f row)
]

abbrev heartbeat_row : ℕ → Stats → Row → Row
heartbeat_row now stats row =
    if is_truthy stats
    then record row {
      status = alive;
      active_rooms = or_else stats.active_rooms 0;
      active_clients = or_else stats.active_clients 0;
      active_transfers = or_else stats.active_transfers 0;
      last_heartbeat_at = now;
    }
    else record row { status = alive; last_heartbeat_at = now }

pub update_heartbeat : (db_up : Bool) (now : ℕ) → String → Stats → Registry → Registry
update_heartbeat db_up now server_id stats r = elim (get r.backends server_id) [
  | none ↦ r
  | some info ↦ record r {
    backends = put r.backends server_id (beating now stats info);
    table = if db_up then update_row r.table server_id (heartbeat_row now stats) else r.table;
  }
]

-- {sid: info for sid, info in self.backends.items() if info["status"] == "alive"}
unfoldable pub alive_of : Dict String Backend → Dict String Backend
alive_of [] = []
alive_of ((sid, info) ∷ d) =
    let rest = alive_of d in if is_alive info.status then (sid, info) ∷ rest else rest

unfoldable pub get_alive_backends : Registry → Dict String Backend
unfolding alive_of
get_alive_backends r = alive_of r.backends

-- `info["last_heartbeat"] < now - timedelta(seconds=timeout)`, on a backend that counts as alive
abbrev pub is_stale : ℕ → ℕ → Backend → Bool
is_stale now timeout info = is_alive info.status && ltb (info.last_heartbeat + timeout) now

abbrev pub mark : ℕ → ℕ → Backend → Backend
mark now timeout info = if is_stale now timeout info then record info { status = down } else info

-- The part of `_check_timeouts` under the lock: the marked dict, and what has to go to the table.
unfoldable pub mark_down : ℕ → ℕ → Dict String Backend → Dict String Backend × List String
mark_down now timeout [] = ([], [])
mark_down now timeout ((sid, info) ∷ d) =
    let (d', ids) = mark_down now timeout d in
    ((sid, mark now timeout info) ∷ d', if is_stale now timeout info then sid ∷ ids else ids)

abbrev stale_at : ℕ → ℕ → Option Backend → Bool
stale_at now timeout none = false
stale_at now timeout (some info) = is_stale now timeout info

abbrev set_down : Row → Row
set_down row = record row { status = down }

-- The part behind the lock, one UPDATE for each id.
pub sync_down : (db_up : Bool) → List String → Dict String Row → Dict String Row
sync_down db_up [] table = table
sync_down db_up (sid ∷ ids) table =
    sync_down db_up ids (if db_up then update_row table sid set_down else table)

unfoldable pub check_timeouts : (db_up : Bool) (now : ℕ) → Registry → Registry
unfolding mark_down sync_down
check_timeouts db_up now r =
    let (backends, ids) = mark_down now r.timeout_seconds r.backends in
    record r { backends = backends; table = sync_down db_up ids r.table }

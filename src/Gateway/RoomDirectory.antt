-- ===== src/Gateway/RoomDirectory.antt =====
-- gateway/room_directory.py: the tables `rooms` and `room_mapping`, each as a dict by the name of the
-- room, which is unique there. `db_up` is false where sqlite raises.
pub mod Located
use netcourier.Prelude.{
  ℕ, Bool, true, false, String, Option, none, some, if◌then◌else◌, ◌==◌, string_eq,
}
use netcourier.Dict.{Dict, get, put}
use netcourier.Gateway.Backends.{Registry, Backend, Row, Status, is_alive}
use netcourier.Gateway.LoadBalancer.{select_backend}

pub record Room : Type 0 where
  pub room_id : ℕ
  pub description : String
  pub created_by : ℕ
  pub server_id : String

pub record Mapping : Type 0 where
  pub room_id : ℕ
  pub server_id : String
  pub is_active : Bool

pub record Directory : Type 0 where
  pub rooms : Dict String Room
  pub room_mapping : Dict String Mapping

pub record Location : Type 0 where
  pub room_id : ℕ
  pub room_name : String
  pub server_id : String
  pub host : String
  pub port : ℕ

pub data Answer : Type 0 where
  located : Location → Answer
  room_already_exists backend_down room_not_found internal_error : Answer

-- The two INSERTs.
unfoldable pub insert_room : ℕ → String → String → ℕ → String → Directory → Directory
insert_room room_id room_name description creator_id server_id d = record {
  rooms = put d.rooms room_name (record {
    room_id = room_id;
    description = description;
    created_by = creator_id;
    server_id = server_id;
  });
  room_mapping =
      put d.room_mapping room_name
        (record { room_id = room_id; server_id = server_id; is_active = true });
}

-- Where the backend is gone from memory the lookup of its host raises, with the room committed.
unfoldable pub assign : Registry → ℕ → String → String → ℕ → String → Directory → Directory × Answer
unfolding insert_room
assign r room_id room_name description creator_id server_id d =
    let d' = insert_room room_id room_name description creator_id server_id d in
    elim (get r.backends server_id) [
      | none ↦ (d', internal_error)
      | some info ↦ (
        d',
        located (record {
          room_id = room_id;
          room_name = room_name;
          server_id = server_id;
          host = info.host;
          port = info.port;
        }),
      )
    ]

-- `room_id` is the id that sqlite gives.
unfoldable pub create_room :
    (db_up : Bool) → Registry → ℕ → String → String → ℕ → Directory → Directory × Answer
unfolding assign
create_room db_up r room_id room_name description creator_id d =
    if db_up
    then elim (get d.rooms room_name) [
      | some room ↦ (d, room_already_exists)
      | none ↦ elim (select_backend r) [
        | none ↦ (d, backend_down)
        | some server_id ↦
            if server_id == ""
            then (d, backend_down)
            else assign r room_id room_name description creator_id server_id d
      ]
    ]
    else (d, internal_error)

-- The join of `room_mapping` and `backend_servers`, on an active mapping.
unfoldable pub mapped_row : Registry → String → Directory → Option (Mapping × Row)
mapped_row r room_name d = elim (get d.room_mapping room_name) [
  | none ↦ none
  | some m ↦ elim (get r.table m.server_id) [
    | none ↦ none
    | some row ↦ if m.is_active then some (m, row) else none
  ]
]

unfoldable pub join_room : (db_up : Bool) → Registry → String → Directory → Answer
unfolding mapped_row
join_room db_up r room_name d =
    if db_up
    then elim (mapped_row r room_name d) [
      | none ↦ room_not_found
      | some (m, row) ↦
          if is_alive row.status
          then located (record {
            room_id = m.room_id;
            room_name = room_name;
            server_id = m.server_id;
            host = row.host;
            port = row.port;
          })
          else backend_down
    ]
    else internal_error

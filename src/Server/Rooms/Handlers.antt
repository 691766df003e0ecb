-- ===== src/Server/Rooms/Handlers.antt =====
-- The handlers of server/main.py that take a client out of a room, or speak to one.
use netcourier.Prelude.{
  ℕ, Bool, true, false, String, Option, none, some, List, [], ◌∷◌, ◌++◌, ◌&&◌, ◌==◌, nat_eq,
  string_eq, if◌then◌else◌,
}
use netcourier.Dict.{Dict, get, put, del}
use netcourier.Server.Rooms.Defs.{
  Client, Server, Packet, Effect, Outcome, ◌>>=◌, reply, leave_room_logic, get_room_members,
  members_of, broadcast_system_event, broadcast_to_room, room_id_of, sends, tells_gateway, closes,
  saves_chat, error, missing_field, invalid_token, not_in_room, room_not_found, user_not_found,
  permission_denied, internal_error, leave_room_ok, kick_user_ok, kicked, room_chat_broadcast,
  room_typing_broadcast, room_member_list_response, left_room, was_kicked,
}

-- `_leave_room_logic(conn)`, where `conn` is a client.
unfoldable pub exit_room : ℕ → Client → Server → Server
unfolding leave_room_logic
exit_room conn info s =
    let (info', rooms') = leave_room_logic conn info s.rooms in
    record s { clients = put s.clients conn info'; rooms = rooms' }

unfoldable pub handle_leave_room : ℕ → Server → Outcome
unfolding exit_room get_room_members broadcast_system_event
handle_leave_room conn s = elim (get s.clients conn) [
  | none ↦ reply s conn (error invalid_token)
  | some info ↦ elim info.current_room [
    | none ↦ reply s conn (error not_in_room)
    | some room ↦ do
      let s' = exit_room conn info s
      members ← get_room_members s' room
      event ← broadcast_system_event s' room (left_room info.username) members
      some (
        s',
        tells_gateway info.user_id info.username "waiting" none
            ∷ sends conn (leave_room_ok room)
            ∷ event,
      )
  ]
]

-- The locked part of `_cleanup_client`, for a client.
unfoldable pub remove_client : ℕ → Client → Server → Server
unfolding leave_room_logic
remove_client conn info s = record s {
  clients = del s.clients conn;
  rooms = (leave_room_logic conn info s.rooms).1;
}

-- `_cleanup_client`, which a disconnection and a kick both call. (What it does to the transfers is
-- in Transfers.)
unfoldable pub cleanup_client : ℕ → Server → Outcome
unfolding remove_client broadcast_system_event
cleanup_client conn s = elim (get s.clients conn) [
  | none ↦ some (s, [])
  | some info ↦ elim info.current_room [
    | none ↦ some (remove_client conn info s, [])
    | some room ↦ do
      let s' = remove_client conn info s
      event ← broadcast_system_event s' room (left_room info.username) []
      some (s', tells_gateway info.user_id info.username "offline" none ∷ event)
  ]
]

-- `_is_room_owner`: when sqlite raises, nobody is the owner.
unfoldable pub is_room_owner : (db_up : Bool) → ℕ → Option String → Server → Bool
is_room_owner db_up user_id none s = false
is_room_owner db_up user_id (some room) s = elim (get s.room_table room) [
  | none ↦ false
  | some row ↦ db_up && row.created_by == user_id
]

abbrev pub same_room : Option String → Option String → Bool
same_room none none = true
same_room (some a) (some b) = a == b
same_room _ _ = false

-- The first client of that name in the room, in the order of the dict.
unfoldable pub find_client : String → Option String → Dict ℕ Client → Option ℕ
find_client username room [] = none
find_client username room ((c, info) ∷ clients) =
    let rest = find_client username room clients in
    if info.username == username && same_room info.current_room room then some c else rest

unfoldable pub kick : ℕ → String → String → Server → ℕ → Outcome
unfolding cleanup_client broadcast_system_event
kick conn room username s target = do
  (s', cleaned) ← cleanup_client target s
  event ← broadcast_system_event s' room (was_kicked username) []
  some (
    s',
    (sends target (kicked room) ∷ cleaned)
        ++ (closes target ∷ event)
        ++ sends conn (kick_user_ok username) ∷ [],
  )

unfoldable pub kick_found : ℕ → Option String → String → Server → Option ℕ → Outcome
unfolding kick
kick_found conn (some room) username s (some target) = kick conn room username s target
kick_found conn _ username s _ = reply s conn (error user_not_found)

unfoldable pub handle_room_kick_user : (db_up : Bool) → ℕ → String → Server → Outcome
unfolding is_room_owner find_client kick_found
handle_room_kick_user db_up conn username s = do
  info ← get s.clients conn
  if is_room_owner db_up info.user_id info.current_room s
      then kick_found conn info.current_room username s
          (find_client username info.current_room s.clients)
      else reply s conn (error permission_denied)

-- `_handle_room_chat_send`; `saved` is the id of the stored message, or none where sqlite raises.
unfoldable pub handle_room_chat_send :
    (saved : Option ℕ) → ℕ → Option String → Option String → Server → Outcome
unfolding room_id_of broadcast_to_room
handle_room_chat_send saved conn (some room) (some message) s = do
  info ← get s.clients conn
  if same_room info.current_room (some room)
      then elim (room_id_of s room) [
        | none ↦ reply s conn (error room_not_found)
        | some room_id ↦ elim saved [
          | none ↦ reply s conn (error internal_error)
          | some message_id ↦ some (
            s,
            saves_chat room_id info.user_id info.username message
                ∷ broadcast_to_room s room
                    (room_chat_broadcast message_id room_id room info.username message),
          )
        ]
      ]
      else reply s conn (error not_in_room)
handle_room_chat_send saved conn _ _ s = reply s conn (error missing_field)

unfoldable pub to_others : ℕ → Packet → List ℕ → List Effect
to_others conn packet [] = []
to_others conn packet (c ∷ cs) =
    let rest = to_others conn packet cs in if c == conn then rest else sends c packet ∷ rest

unfoldable pub handle_room_typing_indicator : ℕ → Bool → Server → Outcome
unfolding to_others members_of
handle_room_typing_indicator conn is_typing s = do
  info ← get s.clients conn
  elim info.current_room [
    | none ↦ some (s, [])
    | some room ↦
        some (
          s,
          to_others conn (room_typing_broadcast room info.username is_typing) (members_of s room),
        )
  ]

unfoldable pub handle_room_member_list_request : ℕ → String → Server → Outcome
unfolding get_room_members
handle_room_member_list_request conn room s = do
  info ← get s.clients conn
  if same_room info.current_room (some room)
      then (do
        members ← get_room_members s room
        reply s conn (room_member_list_response room members))
      else reply s conn (error not_in_room)

-- ===== src/Server/Rooms/Defs.antt =====
-- The handlers of server/main.py on `clients` and `rooms`.
use netcourier.Prelude.{
  ℕ, Bool, String, Option, none, some, List, [], ◌∷◌, ◌++◌, map, ◌==◌, nat_eq, string_eq, elem,
  is_empty, if◌then◌else◌, or_else,
}
use netcourier.Dict.{Dict, get, put, del}

pub record Client : Type 0 where
  pub user_id : ℕ
  pub username : String
  pub current_room : Option String

-- A row of the table `rooms`.
pub record RoomRow : Type 0 where
  pub room_id : ℕ
  pub created_by : ℕ

pub data Code : Type 0 where
  missing_field invalid_token not_in_room room_not_found user_not_found : Code
  permission_denied internal_error rate_limit_exceeded invalid_packet : Code

-- The text of a system event.
pub data Event : Type 0 where
  joined left_room was_kicked : String → Event
  file_deleted : Event
  uploaded : String → List ℕ → Event

pub data Packet : Type 0 where
  error : Code → Packet
  auth_backend_ok : ℕ → String → Packet
  join_room_ok leave_room_ok : String → Packet
  kick_user_ok kicked : String → Packet
  system_event : String → Event → List String → Packet
  room_chat_broadcast : ℕ → ℕ → String → String → String → Packet
  room_typing_broadcast : String → String → Bool → Packet
  room_member_list_response : String → List String → Packet
  room_reaction_broadcast :
      (message_id : ℕ) (room emoji : String) (adds : Bool) (username : String)
      → List (String × List String)
      → Packet
  room_delete_file_broadcast : String → (message_id file_id : ℕ) → Packet
  delete_file_ok : ℕ → Packet
  room_file_broadcast :
      (room_id : ℕ) (room username : String) (file_id : ℕ) → List ℕ → (size_bytes : ℕ) → Packet
  pong : Packet

-- `tells_gateway` is USER_ROOM_STATUS_UPDATE; `saves_event` and `saves_chat` are a row of type "system"
-- and one of type "text" in `room_messages`.
pub data Effect : Type 0 where
  sends : ℕ → Packet → Effect
  tells_gateway : ℕ → String → String → Option String → Effect
  saves_event : ℕ → Event → Effect
  saves_chat : (room_id user_id : ℕ) → String → String → Effect
  closes : ℕ → Effect

pub record Server : Type 0 where
  pub clients : Dict ℕ Client
  pub rooms : Dict String (List ℕ)
  pub room_table : Dict String RoomRow

-- What a handler comes to: `none` is a KeyError.
abbrev pub Outcome : Type 0
Outcome = Option (Server × List Effect)

infixl 5 ◌>>=◌
abbrev pub ◌>>=◌ {ℓ κ} : {A : Type ℓ} {B : Type κ} → Option A → (A → Option B) → Option B
none >>= f = none
some a >>= f = f a

abbrev pub reply : Server → ℕ → Packet → Outcome
reply s conn packet = some (s, sends conn packet ∷ [])

-- A set of sockets: `add` and `discard`.
unfoldable pub add : ℕ → List ℕ → List ℕ
add conn members = if elem conn members then members else members ++ conn ∷ []

unfoldable pub discard : ℕ → List ℕ → List ℕ
discard conn [] = []
discard conn (c ∷ members) = let rest = discard conn members in if conn == c then rest else c ∷ rest

-- `if not self.rooms[room_name]: del self.rooms[room_name]`
unfoldable pub store_room : String → List ℕ → Dict String (List ℕ) → Dict String (List ℕ)
store_room room members rooms = if is_empty members then del rooms room else put rooms room members

-- `_leave_room_logic`, on the client's record and the rooms.
unfoldable pub leave_room_logic : ℕ → Client → Dict String (List ℕ) → Client × Dict String (List ℕ)
leave_room_logic conn info rooms = elim info.current_room [
  | none ↦ (info, rooms)
  | some room ↦ elim (get rooms room) [
    | none ↦ (info, rooms)
    | some members ↦
        (record info { current_room = none }, store_room room (discard conn members) rooms)
  ]
]

unfoldable pub usernames : Dict ℕ Client → List ℕ → Option (List String)
usernames clients [] = some []
usernames clients (c ∷ cs) =
    let rest = usernames clients cs in
    do info ← get clients c; names ← rest; some (info.username ∷ names)

unfoldable pub members_of : Server → String → List ℕ
members_of s room = or_else (get s.rooms room) []

unfoldable pub get_room_members : Server → String → Option (List String)
unfolding usernames members_of
get_room_members s room = usernames s.clients (members_of s room)

-- `_broadcast_to_room`: a failed send is logged, and the loop goes on.
unfoldable pub broadcast_to_room : Server → String → Packet → List Effect
unfolding members_of
broadcast_to_room s room packet = map (λ c. sends c packet) (members_of s room)

unfoldable pub room_id_of : Server → String → Option ℕ
room_id_of s room = do row ← get s.room_table room; some row.room_id

unfoldable pub save_event : Option ℕ → Event → List Effect
save_event none message = []
save_event (some room_id) message = saves_event room_id message ∷ []

-- The members are looked up again where the caller has none.
unfoldable pub event_members : Server → String → List String → Option (List String)
event_members s room [] = get_room_members s room
event_members s room (m ∷ ms) = some (m ∷ ms)

unfoldable pub broadcast_system_event : Server → String → Event → List String → Option (List Effect)
unfolding broadcast_to_room save_event room_id_of event_members get_room_members
broadcast_system_event s room message members = do
  listed ← event_members s room members
  some (
      save_event (room_id_of s room) message
      ++ broadcast_to_room s room (system_event room message listed))

-- What the gateway answers to VALIDATE_TOKEN, or that it could not be asked.
pub data Validation : Type 0 where
  valid : ℕ → String → Validation
  refused unreachable : Validation

unfoldable pub handle_auth_backend : ℕ → Option Validation → Server → Outcome
handle_auth_backend conn none s = reply s conn (error missing_field)
handle_auth_backend conn (some refused) s = reply s conn (error invalid_token)
handle_auth_backend conn (some unreachable) s = reply s conn (error internal_error)
handle_auth_backend conn (some (valid user_id username)) s =
    reply
      (record s {
        clients =
            put s.clients conn
              (record { user_id = user_id; username = username; current_room = none });
      })
      conn (auth_backend_ok user_id username)

-- The locked part of `_handle_join_room`, for a client that is there.
unfoldable pub enter_room : ℕ → Client → String → Server → Server
unfolding leave_room_logic members_of
enter_room conn info room s =
    let (info', rooms') = leave_room_logic conn info s.rooms in
    record s {
      clients = put s.clients conn (record info' { current_room = some room });
      rooms = put rooms' room (add conn (or_else (get rooms' room) []));
    }

-- For one that another thread has removed since its record was read: no entry of `clients` changes, and
-- `_leave_room_logic` raises KeyError.
unfoldable pub enter_room_gone : ℕ → Client → String → Server → Option Server
enter_room_gone conn info room s = elim info.current_room [
  | some _ ↦ none
  | none ↦ some (record s { rooms = put s.rooms room (add conn (or_else (get s.rooms room) [])) })
]

unfoldable pub lock_and_enter : ℕ → Client → String → Server → Option Server
unfolding enter_room enter_room_gone
lock_and_enter conn info room s = elim (get s.clients conn) [
  | none ↦ enter_room_gone conn info room s
  | some _ ↦ some (enter_room conn info room s)
]

-- `_handle_join_room` from the lock on, with the record that was read before it.
unfoldable pub finish_join : ℕ → Client → String → Server → Outcome
unfolding lock_and_enter get_room_members broadcast_system_event
finish_join conn info room s = do
  s' ← lock_and_enter conn info room s
  members ← get_room_members s' room
  event ← broadcast_system_event s' room (joined info.username) members
  some (
    s',
    (tells_gateway info.user_id info.username "in_room" (some room) ∷ event)
        ++ sends conn (join_room_ok room) ∷ [],
  )

-- With no other thread in between.
unfoldable pub handle_join_room : ℕ → Option String → Server → Outcome
unfolding finish_join
handle_join_room conn none s = reply s conn (error missing_field)
handle_join_room conn (some room) s = elim (get s.clients conn) [
  | none ↦ reply s conn (error invalid_token)
  | some info ↦ finish_join conn info room s
]

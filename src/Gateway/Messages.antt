-- ===== src/Gateway/Messages.antt =====
-- Private messages: gateway/pm_service.py and the handlers of gateway/main.py that call it. The ids of
-- sqlite start at one, so that `not recipient_id` is a user who is not there.
pub mod Recipients
pub mod History
use mathlib.Core.List.{reverse}
use netcourier.Prelude.{
  ℕ, Bool, true, false, ◌&&◌, ◌||◌, String, Option, none, some, List, [], ◌∷◌, ◌++◌, if◌then◌else◌,
  ◌==◌, nat_eq, string_eq,
}
use netcourier.Dict.{Dict, get}
use netcourier.Gateway.Accounts.{Account}
use netcourier.Gateway.Sessions.{Session, Sessions}

pub data Delivery : Type 0 where
  delivered stored_offline : Delivery

pub record PrivateMessage : Type 0 where
  pub sender_id : ℕ
  pub sender_username : String
  pub recipient_id : ℕ
  pub recipient_username : String
  pub content : String
  pub status : Delivery
  pub created_at : ℕ
  pub delivered_at : Option ℕ

unfoldable pub get_user_id_by_username :
    (db_up : Bool) → Option String → Dict String Account → Option ℕ
get_user_id_by_username db_up none users = none
get_user_id_by_username db_up (some username) users = elim (get users username) [
  | none ↦ none
  | some row ↦ if db_up then some row.user_id else none
]

abbrev pub delivery_time : ℕ → Delivery → Option ℕ
delivery_time now delivered = some now
delivery_time now stored_offline = none

-- A content that is missing is refused by sqlite, which is logged.
unfoldable pub store_pm :
    (db_up : Bool) (now sender_id : ℕ)
    → String
    → (recipient_id : ℕ) → String
    → Option String
    → Delivery
    → List PrivateMessage
    → List PrivateMessage
store_pm db_up now sender_id sender_username recipient_id recipient_username none status rows = rows
store_pm db_up now sender_id sender_username recipient_id recipient_username (some content) status
      rows =
    if db_up
    then rows
      ++ (record {
        sender_id = sender_id;
        sender_username = sender_username;
        recipient_id = recipient_id;
        recipient_username = recipient_username;
        content = content;
        status = status;
        created_at = now;
        delivered_at = delivery_time now status;
      })
        ∷ []
    else rows

abbrev pub is_between : ℕ → ℕ → PrivateMessage → Bool
is_between user1_id user2_id m =
    (m.sender_id == user1_id && m.recipient_id == user2_id)
    || (m.sender_id == user2_id && m.recipient_id == user1_id)

-- The WHERE clause.
unfoldable pub between : ℕ → ℕ → List PrivateMessage → List PrivateMessage
between user1_id user2_id [] = []
between user1_id user2_id (m ∷ rows) =
    let rest = between user1_id user2_id rows in
    if is_between user1_id user2_id m then m ∷ rest else rest

-- `latest user1_id user2_id limit` is sqlite's `ORDER BY created_at DESC LIMIT limit` in that query:
-- the order of messages of one second may depend on the order of its parameters.
unfoldable pub get_pm_history :
    (latest : ℕ → ℕ → ℕ → List PrivateMessage → List PrivateMessage) (db_up : Bool)
    (user1_id user2_id limit : ℕ)
    → List PrivateMessage
    → List PrivateMessage
unfolding between
get_pm_history latest db_up user1_id user2_id limit rows =
    if db_up then reverse (latest user1_id user2_id limit (between user1_id user2_id rows)) else []

pub data Code : Type 0 where
  missing_field username_taken internal_error invalid_credentials invalid_token expired_token : Code
  rate_limit_exceeded user_not_found room_already_exists backend_down room_not_found : Code

pub record OnlineUser : Type 0 where
  pub username : String
  pub status : String
  pub active_room : Option String

pub record ListedRoom : Type 0 where
  pub name : String
  pub description : String
  pub owner_id : ℕ
  pub members : ℕ

pub data Packet : Type 0 where
  error : Code → Packet
  register_ok : Option String → Packet
  login_ok : (token : String) → ℕ → String → String → Packet
  logout_ok pong : Packet
  online_users_response : List OnlineUser → Packet
  private_message_status : String → Delivery → Packet
  private_message_received : String → Option String → ℕ → Packet
  pm_history_response : String → List PrivateMessage → Packet
  room_list_response : List ListedRoom → Packet
  room_assigned room_location :
      (room_id : ℕ) (room_name server_id host : String) (port : ℕ) → Packet

-- A socket and the packet that is sent to it.
abbrev pub Sent : Type 0
Sent = ℕ × Packet

-- `self.user_to_token.get(recipient_username)`, where it is a session.
unfoldable pub live_session : String → Sessions → Option Session
live_session username g = elim (get g.user_to_token username) [
  | none ↦ none
  | some token ↦ get g.active_sessions token
]

-- The message is stored, its sender told, and it is sent to the recipient's socket where there is a
-- session; a failed send is logged.
unfoldable pub deliver :
    (db_up : Bool) (now conn sender_id : ℕ)
    → String
    → (recipient_id : ℕ) → String
    → Option String
    → Option Session
    → List PrivateMessage
    → List PrivateMessage × List Sent
unfolding store_pm
deliver db_up now conn sender_id sender_username recipient_id recipient_username content none rows =
    (
      store_pm db_up now sender_id sender_username recipient_id recipient_username content
          stored_offline rows,
      (conn, private_message_status recipient_username stored_offline) ∷ [],
    )
deliver db_up now conn sender_id sender_username recipient_id recipient_username content (some s)
      rows =
    (
      store_pm db_up now sender_id sender_username recipient_id recipient_username content delivered
          rows,
      (conn, private_message_status recipient_username delivered)
          ∷ (s.socket, private_message_received sender_username content now)
          ∷ [],
    )

unfoldable pub send_to :
    (db_up : Bool) (now conn sender_id : ℕ)
    → String
    → String
    → Option String
    → Dict String Account
    → Sessions
    → List PrivateMessage
    → List PrivateMessage × List Sent
unfolding get_user_id_by_username deliver live_session
send_to db_up now conn sender_id sender_username recipient_username content users g rows =
    elim (get_user_id_by_username db_up (some recipient_username) users) [
      | none ↦ (rows, (conn, error user_not_found) ∷ [])
      | some recipient_id ↦
          deliver db_up now conn sender_id sender_username recipient_id recipient_username content
            (live_session recipient_username g) rows
    ]

unfoldable pub handle_private_message_send :
    (db_up : Bool) (now conn sender_id : ℕ)
    → String
    → Option String
    → Option String
    → Dict String Account
    → Sessions
    → List PrivateMessage
    → List PrivateMessage × List Sent
unfolding send_to
handle_private_message_send db_up now conn sender_id sender_username none content users g rows =
    (rows, (conn, error user_not_found) ∷ [])
handle_private_message_send db_up now conn sender_id sender_username (some recipient) content users
      g rows =
    send_to db_up now conn sender_id sender_username recipient content users g rows

unfoldable pub handle_pm_history_request :
    (latest : ℕ → ℕ → ℕ → List PrivateMessage → List PrivateMessage) (db_up : Bool)
    (conn user_id : ℕ)
    → Option String
    → Dict String Account
    → List PrivateMessage
    → List Sent
unfolding get_user_id_by_username get_pm_history
handle_pm_history_request latest db_up conn user_id none users rows =
    (conn, error user_not_found) ∷ []
handle_pm_history_request latest db_up conn user_id (some other) users rows =
    elim (get_user_id_by_username db_up (some other) users) [
      | none ↦ (conn, error user_not_found) ∷ []
      | some other_user_id ↦
          (
            conn,
            pm_history_response other (get_pm_history latest db_up user_id other_user_id 50 rows),
          )
          ∷ []
    ]

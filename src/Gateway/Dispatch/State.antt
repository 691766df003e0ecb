-- ===== src/Gateway/Dispatch/State.antt =====
-- The whole state of the gateway, what it is asked and what comes of it.
use netcourier.Prelude.{ℕ, Bool, String, Option, List}
use netcourier.Dict.{Dict}
use netcourier.RateLimiter.{RateLimiter}
use netcourier.Gateway.Accounts.{Account, Bytes}
use netcourier.Gateway.Backends.{Registry}
use netcourier.Gateway.RoomDirectory.{Directory}
use netcourier.Gateway.Sessions.{Sessions}
use netcourier.Gateway.Messages.{PrivateMessage, Sent}

pub record Gateway : Type 0 where
  pub users : Dict String Account
  pub sessions : Sessions
  pub private_messages : List PrivateMessage
  pub pm_limiter : RateLimiter
  pub registry : Registry
  pub directory : Directory

pub record System : Type 0 where
  pub pbkdf2 : Bytes → Bytes → Bytes
  pub latest : ℕ → ℕ → ℕ → List PrivateMessage → List PrivateMessage

pub record Call : Type 0 where
  pub db_up : Bool
  pub now : ℕ
  pub conn : ℕ
  pub uuid : String
  pub salt : Bytes
  pub row_id : ℕ

-- A number of seconds, at or above zero, or below it.
pub data Lifetime : Type 0 where
  ahead ago : ℕ → Lifetime

-- A payload is an object with fields of the types of the protocol: texts, and a number or none as the
-- lifetime of a session. sqlite compares a number with a text column as a text, so a LOGIN with a
-- number as its username, which is left out here, is keyed apart from the same user's texts.
pub data Request : Type 0 where
  register : Option String → Bytes → Option String → Request
  log_in : Option String → Option Bytes → (expires_in : Option Lifetime) → Request
  log_out ping : Request
  list_online_users list_rooms : Request
  private_message_send : Option String → Option String → Request
  pm_history_request : Option String → Request
  create_room_request : String → String → Request
  join_room_request : String → Request
  unhandled : Request

-- The token of the connection (`current_token`), the state and the packets sent.
abbrev pub Handled : Type 0
Handled = Option String × Gateway × List Sent

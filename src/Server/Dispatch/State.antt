-- ===== src/Server/Dispatch/State.antt =====
-- The state of server/main.py, what it is asked and what it sends.
use netcourier.Prelude.{ℕ, Bool, String, Option, List, Text}
use netcourier.Dict.{Dict}
use netcourier.RateLimiter.{RateLimiter}
use netcourier.Server.Rooms.Defs.{Server, Effect, Validation}
use netcourier.Server.Transfers.Defs.{Transfers, Reply, Direction}
use netcourier.Server.Transfers.Init.{UploadInit}
use netcourier.Server.Posts.Defs.{Message, Posts, Number}

pub record ProcessServer : Type 0 where
  pub server : Server
  pub chat_limiter : RateLimiter
  pub transfers : Transfers
  pub posts : Posts

-- What the outside gives while a packet is handled: the ids and the path are the new ones, `users` is
-- the table of that name, and `latest limit` sqlite's `ORDER BY created_at DESC LIMIT limit`.
pub record Call : Type 0 where
  pub db_up : Bool
  pub now : ℕ
  pub conn : ℕ
  pub message_id : ℕ
  pub file_id : ℕ
  pub transfer_id : ℕ
  pub stored_path : String
  pub users : Dict ℕ String
  pub latest : ℕ → List Message → List Message

-- `auth_backend` has what the gateway says of the token, where there is one. A payload is an object whose
-- fields have the types of the protocol; `upload_init_text` is an UPLOAD_INIT with a text as its filesize.
pub data Request : Type 0 where
  auth_backend : Option Validation → Request
  join_room_backend : Option String → Request
  leave_room ping : Request
  room_chat_send : Option String → Option String → Request
  room_message_reaction : Option Number → Option String → (adds : Bool) → Request
  room_kick_user : String → Request
  room_delete_file : ℕ → Request
  room_typing_indicator : Bool → Request
  room_member_list_request : String → Request
  room_history_request : Option String → (limit : ℕ) → Request
  file_list_request : Option String → Request
  upload_init : UploadInit → Request
  upload_init_text : UploadInit → (filesize : Text) → Request
  upload_chunk : ℕ → Option ℕ → List ℕ → Request
  upload_finish : ℕ → Request
  download_request : ℕ → Request
  resume_transfer : Option Direction → ℕ → (start_chunk : ℕ) → Request
  unhandled : Request

pub record ListedFile : Type 0 where
  pub file_id : ℕ
  pub original_filename : List ℕ
  pub size_bytes : ℕ
  pub uploader_username : String

pub record HistoryItem : Type 0 where
  pub message : Message
  pub reactions : List (String × List String)

-- What goes out: an effect, the answer to a transfer packet, the chunks that a thread pushes, and the
-- answers to FILE_LIST_REQUEST and ROOM_HISTORY_REQUEST.
pub data Sent : Type 0 where
  effect : Effect → Sent
  replies : ℕ → Reply → Sent
  pushes : ℕ → List (ℕ × List ℕ) → Sent
  lists_files : ℕ → String → List ListedFile → Sent
  shows_history : ℕ → String → List HistoryItem → Sent

abbrev pub Handled : Type 0
Handled = Option (ProcessServer × List Sent)

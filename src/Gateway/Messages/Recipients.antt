-- ===== src/Gateway/Messages/Recipients.antt =====
-- Who receives a private message of gateway/main.py at once.
use netcourier.Prelude.{ℕ, ◌≡◌, ◌≢◌, String, some, List, [], ◌∷◌, ◌++◌, string_eq}
use netcourier.Dict.{Dict}
use netcourier.Gateway.Accounts.{Account}
use netcourier.Gateway.Sessions.{Session, Sessions}
use netcourier.Gateway.Sessions.Ownership.{holder}
use netcourier.Gateway.Messages.{
  Sent, Delivery, delivered, stored_offline, PrivateMessage, delivery_time, private_message_status,
  private_message_received,
}

-- The row that is stored.
abbrev pub row_for :
    (now sender_id : ℕ) → String → (recipient_id : ℕ) → String → String → Delivery → PrivateMessage
row_for now sender_id sender_username recipient_id recipient_username content status = record {
  sender_id = sender_id;
  sender_username = sender_username;
  recipient_id = recipient_id;
  recipient_username = recipient_username;
  content = content;
  status = status;
  created_at = now;
  delivered_at = delivery_time now status;
}

-- What a message to a user comes to that is delivered at once, and one that waits.
abbrev pub IsDelivered :
    (now conn sender_id : ℕ) (sender recipient content : String)
    → Account
    → Session
    → List PrivateMessage
    → List PrivateMessage × List Sent
    → Type 0
IsDelivered now conn sender_id sender recipient content row s rows answer = answer ≡ (
  rows ++ row_for now sender_id sender row.user_id recipient content delivered ∷ [],
  (conn, private_message_status recipient delivered)
      ∷ (s.socket, private_message_received sender (some content) now)
      ∷ [],
)

abbrev pub IsStored :
    (now conn sender_id : ℕ) (sender recipient content : String)
    → Account
    → List PrivateMessage
    → List PrivateMessage × List Sent
    → Type 0
IsStored now conn sender_id sender recipient content row rows answer = answer ≡ (
  rows ++ row_for now sender_id sender row.user_id recipient content stored_offline ∷ [],
  (conn, private_message_status recipient stored_offline) ∷ [],
)

-- No token is a session of the user.
abbrev pub IsOffline : Sessions → String → Type 0
IsOffline g username = (token : String) → holder g token ≢ some username

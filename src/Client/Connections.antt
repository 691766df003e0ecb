-- ===== src/Client/Connections.antt =====
-- client/gateway_connection.py and client/room_connection.py: the requests that wait for an answer.
-- The two classes are alike but for the packets that answer no request. A callback is a number.
pub mod Callbacks
use netcourier.Prelude.{
  ℕ, Bool, true, false, not, String, Option, none, some, List, [], ◌∷◌, ◌++◌, if◌then◌else◌,
  string_eq,
}
use netcourier.Dict.{Dict, get, put, del}

-- The connection to a process server has a downloader, or none, that gathers the chunks.
pub record Connection : Type 0 where
  pub running : Bool
  pub pending_requests : Dict String ℕ
  pub active_downloader : Option (List (ℕ × List ℕ))

-- The `type` of a packet.
pub data Kind : Type 0 where
  private_message_received error download_chunk room_chat_broadcast room_delete_file_broadcast :
      Kind
  room_reaction_broadcast room_typing_broadcast system_event room_history_response other : Kind

pub record Packet : Type 0 where
  pub kind : Kind
  pub request_id : String
  pub chunk_index : ℕ
  pub payload_bytes : List ℕ

-- What `run_in_ui` is given: a callback with the id of its request, or a method of the app.
pub data Shown : Type 0 where
  calls : (request_id : String) (callback : ℕ) → Shown
  on_pm_received show_error on_room_message on_room_delete_file on_room_reaction : Shown
  on_room_typing on_room_system_event on_room_history_response on_disconnected : Shown

abbrev pub register_callback : String → Option ℕ → Dict String ℕ → Dict String ℕ
register_callback request_id none pending = pending
register_callback request_id (some callback) pending = put pending request_id callback

-- `sent` is false where the socket raises. The result is what the method returns.
unfoldable pub send_request : (sent : Bool) → String → Option ℕ → Connection → Connection × Bool
send_request sent request_id callback c =
    let pending = register_callback request_id callback c.pending_requests in
    if c.running
    then if sent
      then (record c { pending_requests = pending }, true)
      else (record c { running = false; pending_requests = del pending request_id }, false)
    else (c, false)

unfoldable pub gateway_event : Kind → List Shown
gateway_event private_message_received = on_pm_received ∷ []
gateway_event error = show_error ∷ []
gateway_event _ = []

unfoldable pub room_event : Kind → List Shown
room_event room_chat_broadcast = on_room_message ∷ []
room_event room_delete_file_broadcast = on_room_delete_file ∷ []
room_event room_reaction_broadcast = on_room_reaction ∷ []
room_event room_typing_broadcast = on_room_typing ∷ []
room_event system_event = on_room_system_event ∷ []
room_event room_history_response = on_room_history_response ∷ []
room_event error = show_error ∷ []
room_event _ = []

-- The callback of the request that a packet answers is taken out and run.
unfoldable pub answer_request :
    Packet → (Connection → Connection × List Shown) → Connection → Connection × List Shown
answer_request packet unsolicited c = elim (get c.pending_requests packet.request_id) [
  | none ↦ unsolicited c
  | some callback ↦ (
    record c { pending_requests = del c.pending_requests packet.request_id },
    calls packet.request_id callback ∷ [],
  )
]

-- GatewayConnection._handle_incoming_packet
unfoldable pub handle_gateway_packet : Packet → Connection → Connection × List Shown
unfolding answer_request gateway_event
handle_gateway_packet packet c = answer_request packet (λ c'. (c', gateway_event packet.kind)) c

-- A chunk that comes while there is no downloader is dropped.
unfoldable pub store_download : ℕ → List ℕ → Option (List (ℕ × List ℕ)) → Option (List (ℕ × List ℕ))
store_download i bytes none = none
store_download i bytes (some chunks) = some (chunks ++ (i, bytes) ∷ [])

unfoldable pub room_packet : Packet → Connection → Connection × List Shown
unfolding store_download room_event
room_packet packet c = elim packet.kind [
  | download_chunk ↦ (
    record c {
      active_downloader =
          store_download packet.chunk_index packet.payload_bytes c.active_downloader;
    },
    [],
  )
  | kind ↦ (c, room_event kind)
]

-- RoomConnection._handle_incoming_packet
unfoldable pub handle_room_packet : Packet → Connection → Connection × List Shown
unfolding answer_request room_packet
handle_room_packet packet c = answer_request packet (room_packet packet) c

-- The end of `_receive_loop`: nothing is told to the callbacks that wait.
unfoldable pub receive_loop_ends : Connection → Connection × List Shown
receive_loop_ends c = (record c { running = false }, on_disconnected ∷ [])

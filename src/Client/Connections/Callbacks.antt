-- ===== src/Client/Connections/Callbacks.antt =====
-- How often the callbacks of client/gateway_connection.py and client/room_connection.py run.
use netcourier.Prelude.{
  ℕ, ◌+◌, ◌≤◌, ◌≡◌, refl, sym, inl, inr, arith, Bool, true, String, Option, none, some, List, [],
  ◌∷◌, ◌++◌, if◌then◌else◌, string_eq, ◌==◌, Option-cases, Bool-cases, eq_iff,
}
use netcourier.Dict.{Dict, get, has, get-put, get-del}
use netcourier.Client.Connections.{
  private_message_received, error, download_chunk, room_chat_broadcast, room_delete_file_broadcast,
  room_reaction_broadcast, room_typing_broadcast, system_event, room_history_response, other,
  Connection, Packet, Kind, Shown, calls, register_callback, send_request, answer_request,
  gateway_event, room_event, room_packet, handle_gateway_packet, handle_room_packet,
  receive_loop_ends,
}

-- What happens to a connection: to the gateway, or to a process server.
pub data Event : Type 0 where
  sends : (sent : Bool) → String → Option ℕ → Event
  gets_from_gateway gets_from_room : Packet → Event
  loses : Event

unfoldable pub handle_event : Event → Connection → Connection × List Shown
handle_event (sends sent request_id callback) c = ((send_request sent request_id callback c).0, [])
handle_event (gets_from_gateway packet) c = handle_gateway_packet packet c
handle_event (gets_from_room packet) c = handle_room_packet packet c
handle_event loses c = receive_loop_ends c

unfoldable pub run : List Event → Connection → Connection × List Shown
unfolding handle_event
run [] c = (c, [])
run (e ∷ events) c =
    let (c', shown) = handle_event e c in let (c'', later) = run events c' in (c'', shown ++ later)

-- Whether a callback of that request runs, is sent for, and waits, as numbers.
abbrev pub call_of : String → Shown → ℕ
call_of r (calls request_id callback) = if request_id == r then 1 else 0
call_of r _ = 0

abbrev pub send_of : String → Event → ℕ
send_of r (sends sent request_id callback) = if request_id == r then 1 else 0
send_of r _ = 0

abbrev pub waiting : String → Connection → ℕ
waiting r c = if has c.pending_requests r then 1 else 0

abbrev pub count_calls : String → List Shown → ℕ
count_calls r [] = 0
count_calls r (x ∷ shown) = call_of r x + count_calls r shown

abbrev pub count_sends : String → List Event → ℕ
count_sends r [] = 0
count_sends r (e ∷ events) = send_of r e + count_sends r events

count_calls-append :
    (r : String) (xs ys : List Shown)
    → count_calls r (xs ++ ys) ≡ count_calls r xs + count_calls r ys
count_calls-append r [] ys = omega arith
count_calls-append r (x ∷ xs) ys = omega (arith, count_calls-append r xs ys)

gateway_event-quiet : (r : String) (kind : Kind) → count_calls r (gateway_event kind) ≡ 0
unfolding gateway_event
gateway_event-quiet r private_message_received = refl
gateway_event-quiet r error = refl
gateway_event-quiet r download_chunk = refl
gateway_event-quiet r room_chat_broadcast = refl
gateway_event-quiet r room_delete_file_broadcast = refl
gateway_event-quiet r room_reaction_broadcast = refl
gateway_event-quiet r room_typing_broadcast = refl
gateway_event-quiet r system_event = refl
gateway_event-quiet r room_history_response = refl
gateway_event-quiet r other = refl

room_packet-quiet :
    (r : String) (packet : Packet) (kind : Kind) (c : Connection)
    → packet.kind ≡ kind
    → let (c', shown) = room_packet packet c in
      (count_calls r shown ≡ 0) × (c'.pending_requests ≡ c.pending_requests)
unfolding room_packet room_event
room_packet-quiet r packet private_message_received c e = rw (room_packet, e) (refl, refl)
room_packet-quiet r packet error c e = rw (room_packet, e) (refl, refl)
room_packet-quiet r packet download_chunk c e = rw (room_packet, e) (refl, refl)
room_packet-quiet r packet room_chat_broadcast c e = rw (room_packet, e) (refl, refl)
room_packet-quiet r packet room_delete_file_broadcast c e = rw (room_packet, e) (refl, refl)
room_packet-quiet r packet room_reaction_broadcast c e = rw (room_packet, e) (refl, refl)
room_packet-quiet r packet room_typing_broadcast c e = rw (room_packet, e) (refl, refl)
room_packet-quiet r packet system_event c e = rw (room_packet, e) (refl, refl)
room_packet-quiet r packet room_history_response c e = rw (room_packet, e) (refl, refl)
room_packet-quiet r packet other c e = rw (room_packet, e) (refl, refl)

-- A packet that answers a request runs its callback and takes it out.
answer_request-counted :
    (r : String) (packet : Packet) (unsolicited : Connection → Connection × List Shown)
    (c : Connection)
    → (let (c', shown) = unsolicited c in
        (count_calls r shown ≡ 0) × (c'.pending_requests ≡ c.pending_requests))
    → let (c', shown) = answer_request packet unsolicited c in
      count_calls r shown + waiting r c' ≤ waiting r c
unfolding answer_request
answer_request-counted r packet unsolicited c (quiet, same) =
    elim (Option-cases (get c.pending_requests packet.request_id)) [
      | inl e ↦ rw (answer_request, e) (rw (quiet, same) (omega arith))
      | inr (callback, e) ↦
          rw (answer_request, e)
            (rw get-del (elim (Bool-cases (packet.request_id == r)) [
              | inl mine ↦
                  let there : has c.pending_requests r ≡ true =
                    rw (sym ((eq_iff packet.request_id r).0 mine), e) refl in
                  rw (mine, there) (omega arith)
              | inr else_one ↦ rw else_one (omega arith)
            ]))
    ]

register_callback-counted :
    (r request_id : String) (callback : Option ℕ) (pending : Dict String ℕ)
    → (if has (register_callback request_id callback pending) r then 1 else 0)
      ≤ (if request_id == r then 1 else 0) + (if has pending r then 1 else 0)
register_callback-counted r request_id none pending = omega arith
register_callback-counted r request_id (some callback) pending = rw get-put (ground arith)

send_request-counted :
    (r : String) (sent : Bool) (request_id : String) (callback : Option ℕ) (c : Connection)
    → waiting r (send_request sent request_id callback c).0
      ≤ (if request_id == r then 1 else 0) + waiting r c
unfolding send_request
send_request-counted r sent request_id callback c = ground (
  arith,
  register_callback-counted r request_id callback c.pending_requests,
  get-del (register_callback request_id callback c.pending_requests) request_id r,
)

handle_event-counted :
    (r : String) (e : Event) (c : Connection)
    → let (c', shown) = handle_event e c in
      count_calls r shown + waiting r c' ≤ send_of r e + waiting r c
unfolding handle_event handle_gateway_packet handle_room_packet receive_loop_ends
handle_event-counted r (sends sent request_id callback) c =
    omega (arith, send_request-counted r sent request_id callback c)
handle_event-counted r (gets_from_gateway packet) c = omega (
  arith,
  answer_request-counted r packet (λ c'. (c', gateway_event packet.kind)) c
      (gateway_event-quiet r packet.kind, refl),
)
handle_event-counted r (gets_from_room packet) c = omega (
  arith,
  answer_request-counted r packet (room_packet packet) c
      (room_packet-quiet r packet packet.kind c refl),
)
handle_event-counted r loses c = omega arith

-- Whatever is sent and received, on working and on failing sockets, the callbacks of a request run
-- and wait together no more often than the request was sent and waited at first. So the callback of
-- a request with a fresh id runs once at most.
pub run-counted :
    (r : String) (events : List Event) (c : Connection)
    → let (c', shown) = run events c in
      count_calls r shown + waiting r c' ≤ count_sends r events + waiting r c
unfolding run
run-counted r [] c = omega arith
run-counted r (e ∷ events) c =
    let (c', shown) = handle_event e c in
    let later = (run events c').1 in
    omega
      (arith, handle_event-counted r e c, run-counted r events c', count_calls-append r shown later)

-- ===== src/Tests/Client.antt =====
-- The connections of a client, and a download whose first chunk comes early.
use netcourier.Prelude.{◌+◌, ◌≤◌, ◌≡◌, refl, arith, true, none, some, [], ◌∷◌, string_eq}
use netcourier.Dict.{get}
use netcourier.Client.Connections.{Connection, Packet, error}
use netcourier.Client.Connections.Callbacks.{
  sends, gets_from_gateway, run, count_calls, waiting, run-counted,
}
use netcourier.Web.Downloads.{set_downloader, new_downloader, handle_chunks, end_response}
use netcourier.Web.Downloads.Framing.{decode_body}
use netcourier.Web.Downloads.Delivered.{receive_chunks, passed, end_response-late}

abbrev idle : Connection
idle = record { running = true; pending_requests = []; active_downloader = none }

abbrev refusal : Packet
refusal = record { kind = error; request_id = "r1"; chunk_index = 0; payload_bytes = [] }

-- The answer comes twice.
run-counted_example :
    let events =
      sends true "r1" (some 7) ∷ gets_from_gateway refusal ∷ gets_from_gateway refusal ∷ [] in
    let (c', shown) = run events idle in count_calls "r1" shown + waiting "r1" c' ≤ 1
unfolding get
run-counted_example =
    run-counted "r1"
      (sends true "r1" (some 7) ∷ gets_from_gateway refusal ∷ gets_from_gateway refusal ∷ []) idle

end_response-late_example :
    let c' =
      receive_chunks "p"
        ((1, 3 ∷ []) ∷ [])
        (set_downloader (receive_chunks "p" ((0, 1 ∷ 2 ∷ []) ∷ []) idle)) in
    let d = handle_chunks 2 (passed c'.active_downloader) new_downloader in
    decode_body 2 (end_response d) ≡ some (3 ∷ [])
unfolding get
end_response-late_example =
    end_response-late "p" 2 2 ((0, 1 ∷ 2 ∷ []) ∷ []) ((1, 3 ∷ []) ∷ []) idle refl refl
      (omega arith, tt) (omega arith)

-- ===== src/Web/Downloads/Delivered.antt =====
-- What the browser of web/api/routes.py gets of a download.
use mathlib.Core.List.{append_assoc, append-nil}
use netcourier.Prelude.{
  ℕ, ◌<◌, ◌≡◌, refl, sym, ap, ◌∙◌, true, false, Option, none, some, List, [], ◌∷◌, ◌++◌, length,
  All, String, string_eq,
}
use netcourier.Dict.{get}
use netcourier.Client.Connections.{
  Connection, Packet, download_chunk, answer_request, room_packet, handle_room_packet,
  store_download,
}
use netcourier.Web.Downloads.{
  StreamDownloader, new_downloader, handle_chunk, handle_chunks, end_response, set_downloader,
  size_line,
}
use netcourier.Web.Downloads.Framing.{decode_body, decode_body-frames, frames, joined}

handle_chunks-sent :
    (total_chunks : ℕ) (chunks : List (ℕ × List ℕ)) (d : StreamDownloader)
    → d.error_occurred ≡ false
    → let d' = handle_chunks total_chunks chunks d in
      (d'.sent ≡ d.sent ++ frames chunks) × (d'.error_occurred ≡ false)
unfolding handle_chunks handle_chunk
handle_chunks-sent total_chunks [] d h = (sym (append-nil d.sent), h)
handle_chunks-sent total_chunks ((i, bytes) ∷ chunks) d h =
    let d' = handle_chunk total_chunks true bytes d in
    let frame = size_line (length bytes) ++ (bytes ++ 13 ∷ 10 ∷ []) in
    let ok : d'.error_occurred ≡ false = rw (handle_chunk, h) refl in
    let grown : d'.sent ≡ d.sent ++ frame = rw (handle_chunk, h) refl in
    let (rest, fine) = handle_chunks-sent total_chunks chunks d' ok in
    (rest ∙ rw grown (append_assoc d.sent frame (frames chunks)), fine)

-- The packets of the process server's thread, which answer no request.
unfoldable pub receive_chunks : String → List (ℕ × List ℕ) → Connection → Connection
receive_chunks request_id [] c = c
receive_chunks request_id ((i, bytes) ∷ chunks) c =
    let packet : Packet = record {
      kind = download_chunk;
      request_id = request_id;
      chunk_index = i;
      payload_bytes = bytes;
    } in
    receive_chunks request_id chunks (handle_room_packet packet c).0

abbrev passed_on : Option (List (ℕ × List ℕ)) → Connection → Connection
passed_on downloader c = record c { active_downloader = downloader }

chunk-passed_on :
    (packet : Packet) (c : Connection)
    → packet.kind ≡ download_chunk
    → get c.pending_requests packet.request_id ≡ none
    → (handle_room_packet packet c).0
      ≡ passed_on (store_download packet.chunk_index packet.payload_bytes c.active_downloader) c
unfolding handle_room_packet answer_request room_packet
chunk-passed_on packet c is_chunk free = rw (answer_request, free) (rw (room_packet, is_chunk) refl)

receive_chunks-step :
    (request_id : String) (i : ℕ) (bytes : List ℕ) (chunks : List (ℕ × List ℕ)) (c : Connection)
    (downloader : Option (List (ℕ × List ℕ)))
    → get c.pending_requests request_id ≡ none
    → c.active_downloader ≡ downloader
    → receive_chunks request_id ((i, bytes) ∷ chunks) c
      ≡ receive_chunks request_id chunks (passed_on (store_download i bytes downloader) c)
unfolding receive_chunks
receive_chunks-step request_id i bytes chunks c downloader free now =
    let packet : Packet = record {
      kind = download_chunk;
      request_id = request_id;
      chunk_index = i;
      payload_bytes = bytes;
    } in
    ap (λ c'. receive_chunks request_id chunks c')
      (chunk-passed_on packet c refl free ∙ ap (λ o. passed_on (store_download i bytes o) c) now)

receive_chunks-lost :
    (request_id : String) (chunks : List (ℕ × List ℕ)) (c : Connection)
    → get c.pending_requests request_id ≡ none
    → receive_chunks request_id chunks (passed_on none c) ≡ passed_on none c
unfolding receive_chunks store_download
receive_chunks-lost request_id [] c free = refl
receive_chunks-lost request_id ((i, bytes) ∷ chunks) c free =
    receive_chunks-step request_id i bytes chunks (passed_on none c) none free refl
    ∙ receive_chunks-lost request_id chunks c free

receive_chunks-kept :
    (request_id : String) (chunks passed : List (ℕ × List ℕ)) (c : Connection)
    → get c.pending_requests request_id ≡ none
    → receive_chunks request_id chunks (passed_on (some passed) c)
      ≡ passed_on (some (passed ++ chunks)) c
unfolding receive_chunks store_download
receive_chunks-kept request_id [] passed c free =
    ap (λ l. passed_on (some l) c) (sym (append-nil passed))
receive_chunks-kept request_id ((i, bytes) ∷ chunks) passed c free =
    receive_chunks-step request_id i bytes chunks (passed_on (some passed) c) (some passed) free
      refl
    ∙ receive_chunks-kept request_id chunks (passed ++ (i, bytes) ∷ []) c free
    ∙ ap (λ l. passed_on (some l) c) (append_assoc passed ((i, bytes) ∷ []) chunks)

abbrev pub passed : Option (List (ℕ × List ℕ)) → List (ℕ × List ℕ)
passed none = []
passed (some chunks) = chunks

-- The browser reads, as a response that is complete, just the chunks that come behind the
-- registration of the downloader, one after another; the ones before it are lost, and no error
-- tells of them. No chunk is empty, and the browser's socket takes what is sent.
pub end_response-late :
    (request_id : String) (total_chunks fuel : ℕ) (early late : List (ℕ × List ℕ)) (c : Connection)
    → get c.pending_requests request_id ≡ none
    → c.active_downloader ≡ none
    → All (λ chunk. 0 < length chunk.1) late
    → length late < fuel
    → let c' =
        receive_chunks request_id late (set_downloader (receive_chunks request_id early c)) in
      let d = handle_chunks total_chunks (passed c'.active_downloader) new_downloader in
      decode_body fuel (end_response d) ≡ some (joined late)
unfolding set_downloader end_response
end_response-late request_id total_chunks fuel early late c free idle full enough =
    let same : passed_on none c ≡ c = ap (λ o. passed_on o c) (sym idle) in
    let lost : receive_chunks request_id early c ≡ passed_on none c =
      ap (λ x. receive_chunks request_id early x) (sym same)
      ∙ receive_chunks-lost request_id early c free in
    let kept = receive_chunks-kept request_id late [] c free in
    let (sent, fine) = handle_chunks-sent total_chunks late new_downloader refl in
    rw (lost, kept) (rw (fine, sent) (decode_body-frames late fuel full enough))

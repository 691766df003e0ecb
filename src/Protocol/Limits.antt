-- ===== src/Protocol/Limits.antt =====
-- What `receive_packet` of src/netcourier/common/protocol.py refuses, and what it never returns.
use mathlib.Core.List.{append_assoc}
use netcourier.Prelude.{
  ℕ, ◌+◌, ◌≤◌, ◌<◌, ◌≡◌, ap, ◌∙◌, ◌++◌, arith, ltb, length, drop, All, append-eq-append,
  length-append, ltb→lt, le→ltb_false, lt→ltb, ltb_false→le, inl, inr, Bool-cases, sym,
}
use netcourier.Protocol.Stream.{Bytes, Socket, stream, NonEmpty}
use netcourier.Protocol.{
  Json, ok, err, closed, violation, header_limit, payload_limit, read, read_payload, read_body,
  natural, send_packet, receive_packet,
}
use netcourier.Protocol.RoundTrip.{
  read-append, read-short, prefix, length-prefix, unpack-prefix, arrived, send_packet_framed, frame,
}

module _ (json : Json) where
  open json use {Header, dumps, loads, payload_size, set_payload_size, loads-dumps, dumps-nonempty}

  abbrev header_json : Header → Bytes → Bytes
  header_json h payload = dumps (arrived json h payload)

  payload_cut :
      (payload missing : Bytes) (ss : Socket)
      → length payload ≤ payload_limit
      → All NonEmpty ss
      → 0 < length missing
      → stream ss ++ missing ≡ payload
      → read_payload (natural (length payload)) ss ≡ err closed
  unfolding read_payload
  payload_cut payload missing ss fits all lost e =
      let total : length (stream ss) + length missing ≡ length payload =
        sym (length-append (stream ss) missing) ∙ ap length e in
      rw (le→ltb_false payload_limit (length payload) fits, lt→ltb 0 (length payload) (omega arith))
        (read-short (length payload) ss all (omega arith))

  header_cut :
      (h : Header) (payload missing : Bytes) (ss : Socket)
      → length (header_json h payload) ≤ header_limit
      → length payload ≤ payload_limit
      → All NonEmpty ss
      → 0 < length missing
      → stream ss ++ missing ≡ header_json h payload ++ payload
      → read_body json (length (header_json h payload)) ss ≡ err closed
  unfolding read_body
  header_cut h payload missing ss small fits all lost e =
      elim (Bool-cases (ltb (length (stream ss)) n)) [
        | inl short ↦ rw (read-short n ss all (ltb→lt (length (stream ss)) n short))
        | inr enough ↦
            let (front, back) =
              append-eq-append (stream ss) missing (header_json h payload) payload e
                (ltb_false→le (length (stream ss)) n enough) in
            let (s₂, read₂, left₂, all₂) =
              read-append (header_json h payload) (drop n (stream ss)) ss
                (dumps-nonempty (arrived json h payload)) all front in
            rw (
              read₂,
              loads-dumps (arrived json h payload),
              json.payload_size-set (length payload) h,
              payload_cut payload missing s₂ fits all₂ lost
                  (ap (λ (t : Bytes). t ++ missing) left₂ ∙ back),
            )
      ]
    where
      n : ℕ
      n = length (header_json h payload)

  -- Of a packet whose header and payload are within the receiver's limits, a stream that ends inside it
  -- gives ConnectionError, wherever it ends and however it is cut into segments: no part of such a
  -- packet is taken for a packet.
  pub receive_packet_truncated :
      (h : Header) (payload missing bytes : Bytes) (ss : Socket)
      → length (dumps (arrived json h payload)) ≤ header_limit
      → length payload ≤ payload_limit
      → send_packet json h payload ≡ ok bytes
      → stream ss ++ missing ≡ bytes
      → 0 < length missing
      → All NonEmpty ss
      → receive_packet json ss ≡ err closed
  unfolding receive_packet
  receive_packet_truncated h payload missing bytes ss small fits sent e lost all =
      elim (Bool-cases (ltb (length (stream ss)) 4)) [
        | inl short ↦ rw (read-short 4 ss all (ltb→lt (length (stream ss)) 4 short))
        | inr enough ↦
            let framed : bytes ≡ prefix n ++ (header_json h payload ++ payload) =
              cc (sent, send_packet_framed json h payload (omega arith)) in
            let (front, back) =
              append-eq-append (stream ss) missing (prefix n) (header_json h payload ++ payload)
                (e ∙ framed)
                (omega (arith, length-prefix n, ltb_false→le (length (stream ss)) 4 enough)) in
            let (s₁, read₁, left₁, all₁) =
              read-append (prefix n) (drop (length (prefix n)) (stream ss)) ss
                (omega (arith, length-prefix n)) all front in
            let read_four : read 4 ss ≡ ok (prefix n, s₁) =
              ap (λ k. read k ss) (sym (length-prefix n)) ∙ read₁ in
            rw (read_four, unpack-prefix n, le→ltb_false header_limit n small)
              (header_cut h payload missing s₁ small fits all₁ lost
                (ap (λ (t : Bytes). t ++ missing) left₁ ∙ back))
      ]
    where
      n : ℕ
      n = length (header_json h payload)

  -- A packet whose header is longer than 65535 bytes is sent without complaint (below 4 GiB), and
  -- every receiver refuses it, however it arrives and whatever follows it.
  pub receive_packet_oversized_header :
      (h : Header) (payload rest : Bytes) (ss : Socket)
      → header_limit < length (dumps (arrived json h payload))
      → length (dumps (arrived json h payload)) < 4294967296
      → stream ss ≡ frame json h payload ++ rest
      → All NonEmpty ss
      → (send_packet json h payload ≡ ok (frame json h payload))
        × (receive_packet json ss ≡ err violation)
  unfolding receive_packet
  receive_packet_oversized_header h payload rest ss large representable e all = (
    send_packet_framed json h payload representable,
    let (s₁, read₁, left₁, all₁) =
          read-append (prefix n) ((header_json h payload ++ payload) ++ rest) ss
            (omega (arith, length-prefix n)) all
            (e ∙ append_assoc (prefix n) (header_json h payload ++ payload) rest) in
        let read_four : read 4 ss ≡ ok (prefix n, s₁) =
          ap (λ k. read k ss) (sym (length-prefix n)) ∙ read₁ in
        rw (read_four, unpack-prefix n, lt→ltb header_limit n large),
  )
    where
      n : ℕ
      n = length (header_json h payload)

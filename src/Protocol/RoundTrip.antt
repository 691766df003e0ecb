-- ===== src/Protocol/RoundTrip.antt =====
-- `send_packet` and `receive_packet` of src/netcourier/common/protocol.py, together.
use mathlib.Core.List.{append_assoc}
use netcourier.Prelude.{
  ℕ, ◌/◌, ◌%◌, ◌≤◌, ◌<◌, ◌≡◌, refl, sym, ap, ◌∙◌, [], ◌∷◌, ◌++◌, arith, length, take, drop, All,
  length-append, take-length-append, drop-length-append, le→ltb_false, lt→ltb,
}
use netcourier.Protocol.Stream.{
  Bytes, Socket, stream, NonEmpty, recv_all, Read, recv_all-Got, recv_all-short,
}
use netcourier.Protocol.{
  Json, ok, err, closed, unpack_u32, header_limit, payload_limit, read, read_payload, read_body,
  natural, send_packet, receive_packet,
}

pub read-append :
    (xs rest : Bytes) (ss : Socket)
    → 0 < length xs
    → All NonEmpty ss
    → stream ss ≡ xs ++ rest
    → (ss' : Socket) × (read (length xs) ss ≡ ok (xs, ss')) × (stream ss' ≡ rest) × All NonEmpty ss'
unfolding read
read-append [] rest ss pos all e = elim pos [ ]
read-append (x ∷ xs) rest ss pos all e =
    let (ss', got_eq, rest_eq, all') =
      recv_all-Got (length (x ∷ xs)) ss all
        (omega (arith, ap length e, length-append (x ∷ xs) rest)) in
    let whole : take (length (x ∷ xs)) (stream ss) ≡ x ∷ xs =
      ap (take (length (x ∷ xs))) e ∙ take-length-append (x ∷ xs) rest in
    let got_whole : recv_all (length (x ∷ xs)) ss ≡ Read.got (x ∷ xs) ss' =
      got_eq ∙ ap (λ (t : Bytes). Read.got t ss') whole in
    (
      ss',
      rw (got_whole, read),
      rest_eq ∙ ap (drop (length (x ∷ xs))) e ∙ drop-length-append (x ∷ xs) rest,
      all',
    )

pub read-short :
    (n : ℕ) (ss : Socket) → All NonEmpty ss → length (stream ss) < n → read n ss ≡ err closed
unfolding read
read-short n ss all short = let (ss', e) = recv_all-short n ss all short in rw (e, read)

-- The four bytes of a length that fits them.
unfoldable pub prefix : ℕ → Bytes
prefix n = n / 16777216 ∷ n / 65536 % 256 ∷ n / 256 % 256 ∷ n % 256 ∷ []

pub length-prefix : (n : ℕ) → length (prefix n) ≡ 4
unfolding prefix
length-prefix n = refl

pub unpack-prefix : (n : ℕ) → unpack_u32 (prefix n) ≡ ok n
unfolding prefix unpack_u32
unpack-prefix n = ap ok (omega arith)

module _ (json : Json) where
  open json use {Header, dumps, loads, payload_size, set_payload_size, loads-dumps, dumps-nonempty}

  -- What `receive_packet` returns for a packet whose header was `h`.
  abbrev pub arrived : Header → Bytes → Header
  arrived h payload = set_payload_size (length payload) h

  -- The bytes of a packet.
  abbrev pub frame : Header → Bytes → Bytes
  frame h payload =
      let header_json = dumps (arrived h payload) in
      prefix (length header_json) ++ (header_json ++ payload)

  pub send_packet_framed :
      (h : Header) (payload : Bytes)
      → length (dumps (arrived h payload)) < 4294967296
      → send_packet json h payload ≡ ok (frame h payload)
  unfolding send_packet prefix
  send_packet_framed h payload fits =
      rw (lt→ltb (length (dumps (arrived h payload))) 4294967296 fits)

  read_payload-append :
      (payload rest : Bytes) (ss : Socket)
      → length payload ≤ payload_limit
      → All NonEmpty ss
      → stream ss ≡ payload ++ rest
      → (ss' : Socket) × (read_payload (natural (length payload)) ss ≡ ok (payload, ss'))
        × (stream ss' ≡ rest)
        × All NonEmpty ss'
  unfolding read_payload
  read_payload-append [] rest ss fits all e = (ss, refl, e, all)
  read_payload-append (x ∷ xs) rest ss fits all e =
      rw
        (
          le→ltb_false payload_limit (length (x ∷ xs)) fits,
          lt→ltb 0 (length (x ∷ xs)) (omega arith),
        )
        (read-append (x ∷ xs) rest ss (omega arith) all e)

  -- However the network cuts the stream into segments, a packet that is in the limits is received
  -- as it was sent, and the stream is left at the byte behind it.
  pub receive_packet-send_packet :
      (h : Header) (payload rest bytes : Bytes) (ss : Socket)
      → length (dumps (arrived h payload)) ≤ header_limit
      → length payload ≤ payload_limit
      → send_packet json h payload ≡ ok bytes
      → stream ss ≡ bytes ++ rest
      → All NonEmpty ss
      → (ss' : Socket) × (receive_packet json ss ≡ ok (arrived h payload, payload, ss'))
        × (stream ss' ≡ rest)
        × All NonEmpty ss'
  unfolding receive_packet read_body
  receive_packet-send_packet h payload rest bytes ss small fits sent arrives all =
      let header_json = dumps (arrived h payload) in
      let n = length header_json in
      let framed : bytes ≡ prefix n ++ (header_json ++ payload) =
        cc (sent, send_packet_framed h payload (omega arith)) in
      let (s₁, read₁, left₁, all₁) =
        read-append (prefix n) ((header_json ++ payload) ++ rest) ss
          (omega (arith, length-prefix n)) all
          (arrives
            ∙ ap (λ (t : Bytes). t ++ rest) framed
            ∙ append_assoc (prefix n) (header_json ++ payload) rest) in
      let read_four : read 4 ss ≡ ok (prefix n, s₁) =
        ap (λ k. read k ss) (sym (length-prefix n)) ∙ read₁ in
      let (s₂, read₂, left₂, all₂) =
        read-append header_json (payload ++ rest) s₁ (dumps-nonempty (arrived h payload)) all₁
          (left₁ ∙ append_assoc header_json payload rest) in
      let (s₃, read₃, left₃, all₃) = read_payload-append payload rest s₂ fits all₂ left₂ in
      (
        s₃,
        rw (
          read_four,
          unpack-prefix n,
          le→ltb_false header_limit n small,
          read₂,
          loads-dumps (arrived h payload),
          json.payload_size-set (length payload) h,
          read₃,
        ),
        left₃,
        all₃,
      )

-- ===== src/Tests/Protocol.antt =====
-- The packet protocol, with headers that are numbers.
use netcourier.Prelude.{ℕ, ◌≡◌, refl, [], ◌∷◌, arith, length, All, zero, suc}
use netcourier.Protocol.{
  Json, Loaded, object, bad_json, natural, ok, err, closed, violation, Bytes, Socket, stream,
  NonEmpty, send_packet, receive_packet, pack_u32,
}
use netcourier.Protocol.RoundTrip.{prefix, frame, receive_packet-send_packet}
use netcourier.Protocol.Limits.{receive_packet_truncated, receive_packet_oversized_header}

-- A header is its payload size, and takes one byte and some padding.
zeros : ℕ → Bytes
zeros zero = []
zeros (suc n) = 0 ∷ zeros n

length-zeros : (n : ℕ) → length (zeros n) ≡ n
unfolding zeros
length-zeros zero = refl
length-zeros (suc n) = omega (arith, length-zeros n)

abbrev loads_padded : Bytes → Loaded ℕ
loads_padded [] = bad_json
loads_padded (b ∷ bs) = object b

abbrev padded : ℕ → Json
padded n = record {
  Header = ℕ;
  dumps = λ h. h ∷ zeros n;
  loads = loads_padded;
  payload_size = λ h. natural h;
  set_payload_size = λ size h. size;
  loads-dumps = λ h. refl;
  dumps-nonempty = λ h. omega arith;
  payload_size-set = λ size h. refl;
}

-- Header 2 with payload 8, 9, in three segments, and a byte of the next packet.
abbrev segments : Socket
segments = (0 ∷ 0 ∷ []) ∷ (0 ∷ 1 ∷ 2 ∷ 8 ∷ []) ∷ (9 ∷ 77 ∷ []) ∷ []

receive_packet-send_packet_example :
    (ss' : Socket) × (receive_packet (padded 0) segments ≡ ok (2, 8 ∷ 9 ∷ [], ss'))
    × (stream ss' ≡ 77 ∷ [])
    × All NonEmpty ss'
unfolding zeros send_packet pack_u32
receive_packet-send_packet_example =
    receive_packet-send_packet (padded 0) 0 (8 ∷ 9 ∷ []) (77 ∷ []) (0 ∷ 0 ∷ 0 ∷ 1 ∷ 2 ∷ 8 ∷ 9 ∷ [])
      segments (omega arith) (omega arith) refl refl (omega arith, (omega arith, (omega arith, tt)))

receive_packet_truncated_example :
    receive_packet (padded 0) ((0 ∷ 0 ∷ 0 ∷ []) ∷ (1 ∷ 2 ∷ 8 ∷ []) ∷ []) ≡ err closed
unfolding zeros send_packet pack_u32
receive_packet_truncated_example =
    receive_packet_truncated (padded 0) 0 (8 ∷ 9 ∷ []) (9 ∷ []) (0 ∷ 0 ∷ 0 ∷ 1 ∷ 2 ∷ 8 ∷ 9 ∷ [])
      ((0 ∷ 0 ∷ 0 ∷ []) ∷ (1 ∷ 2 ∷ 8 ∷ []) ∷ []) (omega arith) (omega arith) refl refl (omega arith)
      (omega arith, (omega arith, tt))

abbrev large_frame : Bytes
large_frame = frame (padded 65535) 0 (8 ∷ [])

receive_packet_oversized_header_example :
    (send_packet (padded 65535) 0 (8 ∷ []) ≡ ok large_frame)
    × (receive_packet (padded 65535) (large_frame ∷ []) ≡ err violation)
unfolding prefix
receive_packet_oversized_header_example =
    receive_packet_oversized_header (padded 65535) 0 (8 ∷ []) [] (large_frame ∷ [])
      (omega (arith, length-zeros 65535)) (omega (arith, length-zeros 65535)) refl (omega arith, tt)

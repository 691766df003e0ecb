-- ===== src/Protocol.antt =====
-- The packet format of src/netcourier/common/protocol.py: four bytes of header length, the JSON
-- header, the binary payload. A socket is what it will deliver: the segments that arrive, in order,
-- and then the end of the stream. Python's json module is a parameter (`Json`).
mod Stream
pub mod RoundTrip
pub mod Limits
pub use Stream.*
use netcourier.Prelude.{
  ℕ, ◌+◌, ◌*◌, ◌/◌, ◌%◌, ◌<◌, ◌≡◌, Bool, true, false, List, [], ◌∷◌, ◌++◌, ltb, if◌then◌else◌,
  length,
}

-- What `json.loads(data.decode("utf-8"))` and the test `isinstance(header, dict)` come to.
pub data Loaded (Header : Type 0) : Type 0 where
  object : Header → Loaded Header
  not_object bad_json bad_utf8 : Loaded Header

-- `header.get("payload_size", 0)`: an integer, or a value that cannot be compared with one.
pub data Size : Type 0 where
  natural : ℕ → Size
  negative : Size
  not_number : Size

-- What the code relies on in the json module, and in a header dict that it reads back.
pub record Json : Type 1 where
  pub Header : Type 0
  pub dumps : Header → Bytes
  pub loads : Bytes → Loaded Header
  pub payload_size : Header → Size
  pub set_payload_size : ℕ → Header → Header
  pub loads-dumps : (h : Header) → loads (dumps h) ≡ object h
  pub dumps-nonempty : (h : Header) → 0 < length (dumps h)
  pub payload_size-set : (n : ℕ) (h : Header) → payload_size (set_payload_size n h) ≡ natural n

-- `closed` is ConnectionError, `violation` ValueError (struct.error in `send_packet`), and
-- `unfinished` a receive loop that was cut off.
pub data PacketError : Type 0 where
  closed violation type_error unfinished : PacketError

pub data Result {ℓ} (A : Type ℓ) : Type ℓ where
  ok : A → Result A
  err : PacketError → Result A

infixl 5 ◌>>=◌ ◌>>◌
abbrev pub ◌>>=◌ {ℓ κ} : {A : Type ℓ} {B : Type κ} → Result A → (A → Result B) → Result B
err e >>= f = err e
ok a >>= f = f a

abbrev pub raise_if : Bool → PacketError → Result (Unit {0})
raise_if true e = err e
raise_if false e = ok tt

abbrev pub ◌>>◌ {ℓ} : {B : Type ℓ} → Result (Unit {0}) → Result B → Result B
m >> k = m >>= λ _. k

-- `struct.pack(">I", n)` and `struct.unpack(">I", data)[0]`
unfoldable pub pack_u32 : ℕ → Result Bytes
pack_u32 n =
    if ltb n 4294967296
    then ok (n / 16777216 ∷ n / 65536 % 256 ∷ n / 256 % 256 ∷ n % 256 ∷ [])
    else err violation

unfoldable pub unpack_u32 : Bytes → Result ℕ
unpack_u32 (a ∷ b ∷ c ∷ d ∷ []) = ok (a * 16777216 + b * 65536 + c * 256 + d)
unpack_u32 _ = err violation

abbrev pub header_limit : ℕ
header_limit = 65535

abbrev pub payload_limit : ℕ
payload_limit = 20971520

-- `_recv_all`, and the test `if not data: raise ConnectionError(...)` on its result.
pub read : ℕ → Socket → Result (Bytes × Socket)
read n sock = elim (recv_all n sock) [
  | Read.got [] rest ↦ err closed
  | Read.got (b ∷ bs) rest ↦ ok (b ∷ bs, rest)
  | Read.out_of_fuel ↦ err unfinished
]

abbrev pub as_header : {H : Type 0} → Loaded H → Result H
as_header (object h) = ok h
as_header not_object = err violation
as_header bad_json = err violation
as_header bad_utf8 = err violation

-- `payload = b""`, or the bytes that the header announces.
read_payload : Size → Socket → Result (Bytes × Socket)
read_payload (natural n) sock = do
  raise_if (ltb payload_limit n) violation
  if ltb 0 n then read n sock else ok ([], sock)
read_payload negative sock = ok ([], sock)
read_payload not_number sock = err type_error

module _ (json : Json) where
  open json use {Header, dumps, loads, payload_size, set_payload_size}

  -- The bytes that reach the stream.
  unfoldable pub send_packet : Header → Bytes → Result Bytes
  unfolding pack_u32
  send_packet header payload = do
    let header_json = dumps (set_payload_size (length payload) header)
    prefix ← pack_u32 (length header_json)
    ok (prefix ++ (header_json ++ payload))

  -- The JSON header of the announced length, and the payload.
  read_body : ℕ → Socket → Result (Header × Bytes × Socket)
  read_body header_len sock = do
    (header_json_data, sock₂) ← read header_len sock
    header ← as_header (loads header_json_data)
    (payload, sock₃) ← read_payload (payload_size header) sock₂
    ok (header, payload, sock₃)

  pub receive_packet : Socket → Result (Header × Bytes × Socket)
  receive_packet sock = do
    (header_len_data, sock₁) ← read 4 sock
    header_len ← unpack_u32 header_len_data
    raise_if (ltb header_limit header_len) violation
    read_body header_len sock₁

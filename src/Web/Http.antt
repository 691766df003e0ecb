-- ===== src/Web/Http.antt =====
-- web/api/http_server.py: `handle_client`, from the socket to the request that is routed. The decoded
-- header block is taken to be ASCII, so that a character is a byte. The address and TCP_NODELAY are
-- left out, and so are the underscores `int` allows between digits.
pub mod Heads
pub mod Reading
use netcourier.Prelude.{
  ℕ, zero, suc, ◌+◌, ◌-◌, ◌*◌, min, Bool, true, false, not, ◌&&◌, Option, none, some, List, [], ◌∷◌,
  ◌++◌, length, drop, is_empty, is_some, ltb, leb, nat_eqb, if◌then◌else◌, ◌||◌, Text, codes, map,
}
use netcourier.Protocol.{Bytes, Socket, stream, recv}
use netcourier.Gateway.Accounts.{text_eqb}
use netcourier.Server.Posts.Like.{lower}

-- Whether the bytes begin with an empty line.
abbrev pub at_end : Bytes → Bool
at_end (a ∷ b ∷ c ∷ d ∷ rest) = nat_eqb a 13 && nat_eqb b 10 && nat_eqb c 13 && nat_eqb d 10
at_end _ = false

-- `req.split(b"\r\n\r\n", 1)`, where there is one.
unfoldable pub split_head : Bytes → Option (Bytes × Bytes)
split_head [] = none
split_head (c ∷ bytes) =
    let rest = split_head bytes in
    if at_end (c ∷ bytes)
    then some ([], drop 4 (c ∷ bytes))
    else elim rest [ none ↦ none | some (head, body) ↦ some (c ∷ head, body) ]

abbrev pub max_header_size : ℕ
max_header_size = 65536

-- `while b"\r\n\r\n" not in req`, on fuel.
unfoldable pub read_head : ℕ → Bytes → Socket → Option (Bytes × Socket)
unfolding split_head
read_head zero req sock = none
read_head (suc fuel) req sock =
    let (chunk, sock') = recv 8192 sock in
    let rest = read_head fuel (req ++ chunk) sock' in
    if is_some (split_head req)
    then some (req, sock)
    else if is_empty chunk
    then some (req, sock')
    else if ltb max_header_size (length (req ++ chunk))
    then some (req ++ chunk, sock')
    else rest

-- `while len(body) < content_length`, on fuel. The loop ends as well where the client has closed.
unfoldable pub read_rest : ℕ → ℕ → Bytes → Socket → Option Bytes
read_rest zero content_length body sock = none
read_rest (suc fuel) content_length body sock =
    let (chunk, sock') = recv (min 1048576 (content_length - length body)) sock in
    let rest = read_rest fuel content_length (body ++ chunk) sock' in
    if ltb (length body) content_length
    then (if is_empty chunk then some body else rest)
    else some body

-- `text.split("\r\n")`: the first line and the others.
unfoldable pub split_lines : Text → Text × List Text
split_lines [] = ([], [])
split_lines (c ∷ []) = (c ∷ [], [])
split_lines (c ∷ d ∷ text) =
    let (line, lines) = split_lines (d ∷ text) in
    let (line', lines') = split_lines text in
    if nat_eqb c 13 && nat_eqb d 10 then ([], line' ∷ lines') else (c ∷ line, lines)

-- `request_line.split(" ")`: the first part and the others.
unfoldable pub split_spaces : Text → Text × List Text
split_spaces [] = ([], [])
split_spaces (c ∷ text) =
    let (part, parts) = split_spaces text in
    if nat_eqb c b' ' then ([], part ∷ parts) else (c ∷ part, parts)

-- `line.split(":", 1)`, of a line with a colon.
unfoldable pub split_field : Text → Option (Text × Text)
split_field [] = none
split_field (c ∷ text) =
    let rest = split_field text in
    if nat_eqb c b':'
    then some ([], text)
    else elim rest [ none ↦ none | some (k, v) ↦ some (c ∷ k, v) ]

abbrev pub is_blank : ℕ → Bool
is_blank c = (leb 9 c && leb c 13) || (leb 28 c && leb c 32)

-- `strip()`
unfoldable pub strip_end : Text → Text
strip_end [] = []
strip_end (c ∷ text) =
    let rest = strip_end text in if is_empty rest && is_blank c then [] else c ∷ rest

unfoldable pub strip : Text → Text
unfolding strip_end
strip [] = []
strip (c ∷ text) = let rest = strip text in if is_blank c then rest else strip_end (c ∷ text)

-- The dict of headers, by its writes with the last one first.
unfoldable pub read_headers : List (Text × Text) → List Text → List (Text × Text)
unfolding split_field strip
read_headers headers [] = headers
read_headers headers (line ∷ lines) = elim (split_field line) [
  | none ↦ read_headers headers lines
  | some (k, v) ↦ read_headers ((map lower (strip k), strip v) ∷ headers) lines
]

unfoldable pub get_header : Text → List (Text × Text) → Option Text
get_header name [] = none
get_header name ((k, v) ∷ headers) =
    let rest = get_header name headers in if text_eqb k name then some v else rest

-- Decimal digits, none where one is not.
unfoldable pub read_digits : ℕ → Text → Option ℕ
read_digits n [] = some n
read_digits n (c ∷ text) =
    let rest = read_digits (10 * n + (c - b'0')) text in
    if leb b'0' c && leb c b'9' then rest else none

-- `int(value)` of a text without space around it. A negative length is as 0 to what follows.
unfoldable pub read_int : Text → Option ℕ
unfolding read_digits
read_int [] = none
read_int (c ∷ text) =
    if is_empty text
    then read_digits 0 (c ∷ text)
    else if nat_eqb c b'+'
    then read_digits 0 text
    else if nat_eqb c b'-'
    then elim (read_digits 0 text) [ none ↦ none | some n ↦ some 0 ]
    else read_digits 0 (c ∷ text)

-- `int(headers.get("content-length", 0))`
unfoldable pub content_length_of : List (Text × Text) → Option ℕ
unfolding get_header read_int
content_length_of headers = elim (get_header (codes "content-length") headers) [
  | none ↦ some 0
  | some v ↦ read_int v
]

-- What becomes of a connection: closed without an answer, answered 413, or routed.
pub data Handled : Type 0 where
  closed : Handled
  too_large : Handled
  routed : (method path : Text) (headers : List (Text × Text)) (body : Bytes) → Handled

-- The request line and the headers of a header block, with the content length.
unfoldable pub parse_head : Text → Option (Text × Text × List (Text × Text) × ℕ)
unfolding split_lines split_spaces read_headers content_length_of
parse_head headers_part =
    let (request_line, lines) = split_lines headers_part in
    let headers = read_headers [] lines in
    elim ((split_spaces request_line).1) [
      | [] ↦ none
      | path ∷ parts ↦ elim (content_length_of headers) [
        | none ↦ none
        | some n ↦ some ((split_spaces request_line).0, path, headers, n)
      ]
    ]

abbrev pub max_body_size : ℕ
max_body_size = 1073741824

-- `handle_client` up to `route_request`, on fuel; none is a loop out of fuel.
unfoldable pub handle_client : ℕ → Socket → Option Handled
unfolding read_head split_head parse_head read_rest
handle_client fuel sock = elim (read_head fuel [] sock) [
  | none ↦ none
  | some (req, sock') ↦ elim (split_head req) [
    | none ↦ some closed
    | some (headers_part, body_part) ↦ elim (parse_head headers_part) [
      | none ↦ some closed
      | some (method, path, headers, content_length) ↦
          if ltb max_body_size content_length
          then some too_large
          else elim (read_rest fuel content_length body_part sock') [
            | none ↦ none
            | some body ↦ some (routed method path headers body)
          ]
    ]
  ]
]

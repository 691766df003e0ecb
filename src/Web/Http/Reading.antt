-- ===== src/Web/Http/Reading.antt =====
-- A request is read alike however the network cuts it.
use mathlib.Core.List.{append_assoc, append-nil}
use mathlib.Core.Path.{subst}
use netcourier.Prelude.{
  ℕ, zero, suc, ◌+◌, ◌-◌, ◌<◌, ◌≤◌, ◌≡◌, refl, sym, ap, ◌∙◌, inl, inr, min, Option, none, some,
  List, [], ◌∷◌, ◌++◌, arith, length, length-append, is_empty-false, ltb, Text, if◌then◌else◌,
  Bool-cases, Option-cases, All, Nat_cases,
}
use netcourier.Protocol.{Bytes, Socket, stream, recv, NonEmpty, recv_lem, recv-nil}
use netcourier.Web.Http.{
  split_head, read_head, read_rest, max_header_size, Handled, closed, too_large, routed, parse_head,
  max_body_size, handle_client,
}
use netcourier.Web.Http.Heads.{
  parts_unique, split_head-append, split_head-found, split_head-shorter,
}

nil_of_length : (bytes : Bytes) → length bytes ≡ 0 → bytes ≡ []
nil_of_length [] h = refl
nil_of_length (b ∷ bytes) h = absurd (omega arith)

read_rest-stream :
    (fuel n : ℕ) (body : Bytes) (sock : Socket)
    → All NonEmpty sock
    → length body + length (stream sock) ≤ n
    → length (stream sock) < fuel
    → read_rest fuel n body sock ≡ some (body ++ stream sock)
unfolding read_rest
read_rest-stream zero n body sock all fits enough = absurd (omega arith)
read_rest-stream (suc fuel) n body sock all fits enough = elim (Bool-cases (ltb (length body) n)) [
  | inr full ↦
      let over : stream sock ≡ [] = nil_of_length (stream sock) (ground (arith, full)) in
      rw (read_rest, full, over) (ap some (sym (append-nil body)))
  | inl more ↦ elim (Nat_cases (length (stream sock))) [
    | inl over ↦
        let none_left = nil_of_length (stream sock) over in
        rw (read_rest, more, recv-nil (min 1048576 (n - length body)) sock all over, none_left)
          (ap some (sym (append-nil body)))
    | inr some_left ↦
        let m = min 1048576 (n - length body) in
        let (same, short, filled, all') = recv_lem m sock (ground (arith, more)) all some_left in
        let (chunk, sock') = recv m sock in
        let sizes : length (chunk ++ stream sock') ≡ length (stream sock) = ap length same in
        let total = length-append chunk (stream sock') in
        let longer = length-append body chunk in
        rw (read_rest, more, is_empty-false chunk filled)
          (read_rest-stream fuel n (body ++ chunk) sock' all' (omega (arith, sizes, total, longer))
              (omega (arith, sizes, total, filled))
            ∙ ap some (append_assoc body chunk (stream sock') ∙ ap (λ (l : Bytes). body ++ l) same))
  ]
]

-- The bytes read up to the header block's end, and what of the body is still to come.
abbrev HeadRead : Bytes → Bytes → Option (Bytes × Socket) → Type 0
HeadRead head body r =
    (req : Bytes) × (body_part : Bytes) × (sock : Socket) × (r ≡ some (req, sock))
    × (split_head req ≡ some (head, body_part))
    × (body_part ++ stream sock ≡ body)
    × All NonEmpty sock

read_head-HeadRead :
    (fuel : ℕ) (req : Bytes) (sock : Socket) (head body : Bytes)
    → All NonEmpty sock
    → split_head (req ++ stream sock) ≡ some (head, body)
    → length head + 4 ≤ max_header_size
    → length (stream sock) < fuel
    → HeadRead head body (read_head fuel req sock)
unfolding read_head
read_head-HeadRead zero req sock head body all whole small enough = absurd (omega arith)
read_head-HeadRead (suc fuel) req sock head body all whole small enough =
    elim (Option-cases (split_head req)) [
      | inr ((h, p), found) ↦
          let (first, last) =
            parts_unique (split_head (req ++ stream sock)) h (p ++ stream sock) head body
              (split_head-append req (stream sock) h p found) whole in
          rw found (req, p, sock, refl, found ∙ cc first, last, all)
      | inl missing ↦ elim (Nat_cases (length (stream sock))) [
        | inl over ↦
            let nothing : stream sock ≡ [] = nil_of_length (stream sock) over in
            let absurdly : split_head req ≡ some (head, body) =
              ap split_head (sym (append-nil req) ∙ ap (λ (l : Bytes). req ++ l) (sym nothing))
              ∙ whole in
            absurd (cc (missing, absurdly))
        | inr some_left ↦
            let (same, short, filled, all') = recv_lem 8192 sock (omega arith) all some_left in
            let (chunk, sock') = recv 8192 sock in
            let sizes : length (chunk ++ stream sock') ≡ length (stream sock) = ap length same in
            let whole' : split_head ((req ++ chunk) ++ stream sock') ≡ some (head, body) =
              ap split_head
                (append_assoc req chunk (stream sock') ∙ ap (λ (l : Bytes). req ++ l) same)
              ∙ whole in
            elim (Bool-cases (ltb max_header_size (length (req ++ chunk)))) [
              | inl large ↦ elim (Option-cases (split_head (req ++ chunk))) [
                | inl missing' ↦ absurd (
                    split_head-found (req ++ chunk) (stream sock') head body whole'
                      (ground (arith, small, large)) missing')
                | inr ((h, p), found) ↦
                    let (first, last) =
                      parts_unique (split_head ((req ++ chunk) ++ stream sock')) h
                        (p ++ stream sock') head body
                        (split_head-append (req ++ chunk) (stream sock') h p found) whole' in
                    rw (missing, is_empty-false chunk filled, large)
                      (req ++ chunk, p, sock', refl, found ∙ cc first, last, all')
              ]
              | inr little ↦
                  rw (missing, is_empty-false chunk filled, little)
                    (read_head-HeadRead fuel (req ++ chunk) sock' head body all' whole' small
                      (omega (arith, sizes, filled, enough, length-append chunk (stream sock'))))
            ]
      ]
    ]

abbrev Head : Type 0
Head = Text × Text × List (Text × Text) × ℕ

-- The body that comes is no longer than its content length says.
abbrev pub Fits : Bytes → Option Head → Type 0
Fits body none = Unit
Fits body (some (method, path, headers, content_length)) = length body ≤ content_length

-- What becomes of a request that is at hand as a whole.
abbrev pub handle_whole : Bytes → Option Head → Handled
handle_whole body none = closed
handle_whole body (some (method, path, headers, content_length)) =
    if ltb max_body_size content_length then too_large else routed method path headers body

-- However the network cuts a request, handle_client does what it would with the request at hand as a
-- whole: it is closed where the header block does not parse, answered 413 where its content length is
-- above 1 GiB, and routed with its method, path, headers and all of its body otherwise. The stream has
-- a header block of at most 65532 bytes in front of its empty line, no body longer than the content
-- length, and fewer bytes than there is fuel.
pub handle_client-whole :
    (fuel : ℕ) (sock : Socket) (head body : Bytes)
    → All NonEmpty sock
    → split_head (stream sock) ≡ some (head, body)
    → length head + 4 ≤ max_header_size
    → Fits body (parse_head head)
    → length (stream sock) < fuel
    → handle_client fuel sock ≡ some (handle_whole body (parse_head head))
unfolding handle_client
handle_client-whole fuel sock head body all whole small fits enough =
    let (req, part, sock', read, found, rest, all') =
      read_head-HeadRead fuel [] sock head body all whole small enough in
    elim (Option-cases (parse_head head)) [
      | inl bad ↦ rw (handle_client, read, found, bad) refl
      | inr ((method, path, headers, n), good) ↦ elim (Bool-cases (ltb max_body_size n)) [
        | inl large ↦ rw (handle_client, read, found, good, large) refl
        | inr little ↦
            let short : length body ≤ n = subst (λ r. Fits body r) good fits in
            let sizes : length (part ++ stream sock') ≡ length body = ap length rest in
            let body_read =
              read_rest-stream fuel n part sock' all'
                (omega (arith, length-append part (stream sock'), sizes, short))
                (omega (
                  arith,
                  sizes,
                  enough,
                  length-append part (stream sock'),
                  split_head-shorter (stream sock) head body whole,
                )) in
            rw (handle_client, read, found, good, little, body_read, rest) refl
      ]
    ]

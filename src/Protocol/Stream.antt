-- ===== src/Protocol/Stream.antt =====
-- `socket.recv` and `_recv_all` of src/netcourier/common/protocol.py.
use mathlib.Core.List.{append_assoc}
use mathlib.Core.Path.{subst}
use netcourier.Prelude.{
  ℕ, zero, suc, ◌+◌, ◌-◌, ◌≤◌, ◌<◌, ◌≡◌, refl, sym, ◌∙◌, inl, inr, List, [], ◌∷◌, ◌++◌, arith, ltb,
  leb, if◌then◌else◌, length, take, drop, All, length-append, length-take, length-drop,
  take-append-drop, take-length-append, drop-length-append, Bool-cases, is_empty, is_empty-false,
  leb→le, ltb→lt, leb_false→lt, lt→ltb, Nat_cases, ltb_false→le, ap,
}

abbrev pub Bytes : Type 0
Bytes = List ℕ

-- The segments still to arrive; behind the last one the peer has closed.
abbrev pub Socket : Type 0
Socket = List Bytes

abbrev pub stream : Socket → Bytes
stream [] = []
stream (s ∷ ss) = s ++ stream ss

abbrev pub NonEmpty : Bytes → Type 0
NonEmpty s = 0 < length s

-- `sock.recv(n)`: at most n bytes, of what has arrived; b"" at the end.
unfoldable pub recv : ℕ → Socket → Bytes × Socket
recv n [] = ([], [])
recv n (s ∷ ss) = if leb (length s) n then (s, ss) else (take n s, drop n s ∷ ss)

pub data Read : Type 0 where
  got : Bytes → Socket → Read
  out_of_fuel : Read

-- `while len(data) < n`, on fuel.
recv_loop : ℕ → ℕ → Bytes → Socket → Read
recv_loop zero n buffer sock = out_of_fuel
recv_loop (suc fuel) n buffer sock =
    let (packet, sock') = recv (n - length buffer) sock in
    let rest = recv_loop fuel n (buffer ++ packet) sock' in
    if ltb (length buffer) n
    then (if is_empty packet then got [] sock' else rest)
    else got buffer sock

-- Each round brings a byte at least, so n + 1 rounds are enough.
pub recv_all : ℕ → Socket → Read
unfolding recv_loop recv
recv_all n sock = recv_loop (suc n) n [] sock

-- A call on a stream with bytes left returns the first few of them, and at least one.
pub recv_lem :
    (n : ℕ) (ss : Socket)
    → 0 < n
    → All NonEmpty ss
    → 0 < length (stream ss)
    → let (packet, ss') = recv n ss in
      (packet ++ stream ss' ≡ stream ss)
      × (length packet ≤ n)
      × (0 < length packet)
      × All NonEmpty ss'
unfolding recv
recv_lem n [] pos all some_left = absurd (omega arith)
recv_lem n (s ∷ ss) pos all some_left = elim (Bool-cases (leb (length s) n)) [
  | inl fits ↦ rw fits (refl, leb→le _ n fits, all.0, all.1)
  | inr long ↦
      let n-lt : n < length s = leb_false→lt (length s) n long in
      rw long (
        sym (append_assoc (take n s) (drop n s) (stream ss))
            ∙ ap (λ (t : Bytes). t ++ stream ss) (take-append-drop n s),
        omega (arith, length-take n s (omega arith)),
        omega (arith, length-take n s (omega arith)),
        (omega (arith, length-drop n s), all.1),
      )
]

pub recv-nil :
    (n : ℕ) (ss : Socket) → All NonEmpty ss → length (stream ss) ≡ 0 → recv n ss ≡ ([], [])
unfolding recv
recv-nil n [] all e = refl
recv-nil n (s ∷ ss) all e = absurd (omega (arith, length-append s (stream ss)))

abbrev pub Got : ℕ → Bytes → Read → Type 0
Got n bytes r =
    (ss : Socket) × (r ≡ got (take n bytes) ss) × (stream ss ≡ drop n bytes) × All NonEmpty ss

recv_loop-Got :
    (fuel n : ℕ) (buffer : Bytes) (ss : Socket)
    → n - length buffer < fuel
    → length buffer ≤ n
    → All NonEmpty ss
    → n ≤ length buffer + length (stream ss)
    → Got n (buffer ++ stream ss) (recv_loop fuel n buffer ss)
unfolding recv_loop
recv_loop-Got zero n buffer ss enough short all left = absurd (omega arith)
recv_loop-Got (suc fuel) n buffer ss enough short all left =
    elim (Bool-cases (ltb (length buffer) n)) [
      | inl more ↦
          let k-pos : 0 < n - length buffer = omega (arith, ltb→lt (length buffer) n more) in
          let packet = (recv (n - length buffer) ss).0 in
          let ss' = (recv (n - length buffer) ss).1 in
          let (same, small, some_bytes, all') =
            recv_lem (n - length buffer) ss k-pos all (omega (arith, k-pos)) in
          rw (more, is_empty-false packet some_bytes)
            (subst (λ bytes. Got n bytes (recv_loop fuel n (buffer ++ packet) ss'))
              (append_assoc buffer packet (stream ss') ∙ ap (λ (t : Bytes). buffer ++ t) same)
              (recv_loop-Got fuel n (buffer ++ packet) ss'
                (omega (arith, length-append buffer packet))
                (omega (arith, length-append buffer packet)) all'
                (omega (
                  arith,
                  length-append buffer packet,
                  length-append packet (stream ss'),
                  ap length same,
                ))))
      | inr full ↦ rw full (take_whole (omega (arith, ltb_false→le (length buffer) n full)))
    ]
  where
    take_whole : n ≡ length buffer → Got n (buffer ++ stream ss) (got buffer ss)
    take_whole e =
        rw (e, take-length-append buffer (stream ss), drop-length-append buffer (stream ss))
          (ss, refl, refl, all)

-- With fewer bytes than wanted the caller sees b"".
recv_loop-short :
    (fuel n : ℕ) (buffer : Bytes) (ss : Socket)
    → n - length buffer < fuel
    → All NonEmpty ss
    → length buffer + length (stream ss) < n
    → (ss' : Socket) × (recv_loop fuel n buffer ss ≡ got [] ss')
unfolding recv_loop
recv_loop-short zero n buffer ss enough all short = absurd (omega arith)
recv_loop-short (suc fuel) n buffer ss enough all short =
    rw (lt→ltb (length buffer) n (omega arith)) (elim (Nat_cases (length (stream ss))) [
      | inl e ↦ rw (recv-nil (n - length buffer) ss all e) ([], refl)
      | inr pos ↦
          let packet = (recv (n - length buffer) ss).0 in
          let ss' = (recv (n - length buffer) ss).1 in
          let (same, small, some_bytes, all') =
            recv_lem (n - length buffer) ss (omega arith) all pos in
          rw (is_empty-false packet some_bytes) (
            recv_loop-short fuel n (buffer ++ packet) ss'
              (omega (arith, length-append buffer packet)) all'
              (omega (
                arith,
                length-append buffer packet,
                length-append packet (stream ss'),
                ap length same,
              )))
    ])

pub recv_all-Got :
    (n : ℕ) (ss : Socket)
    → All NonEmpty ss
    → n ≤ length (stream ss)
    → Got n (stream ss) (recv_all n ss)
unfolding recv_all
recv_all-Got n ss all left =
    recv_loop-Got (suc n) n [] ss (omega arith) (omega arith) all (omega arith)

pub recv_all-short :
    (n : ℕ) (ss : Socket)
    → All NonEmpty ss
    → length (stream ss) < n
    → (ss' : Socket) × (recv_all n ss ≡ got [] ss')
unfolding recv_all
recv_all-short n ss all short = recv_loop-short (suc n) n [] ss (omega arith) all (omega arith)

-- ===== src/Web/Chunks.antt =====
-- How web/api/routes.py cuts an uploaded body into chunks: /api/files/upload.
use native.Mathlib.Nat.{mod-add-div', mod-lt}
use netcourier.Prelude.{
  ℕ, zero, suc, ◌+◌, ◌-◌, ◌*◌, ◌/◌, ◌%◌, ◌≤◌, ◌<◌, min, ◌≡◌, refl, sym, ◌∙◌, inl, inr, List, [],
  ◌∷◌, arith, if◌then◌else◌, ltb, ltb→lt, ltb_false→le, Bool-cases, length, take, drop,
  take-append-drop, drop_all, drop-drop,
}
use netcourier.Server.Transfers.Downloads.{joined}

-- `math.ceil(a / b)`, and `(a + b - 1) // b`.
abbrev pub ceil_div : ℕ → ℕ → ℕ
ceil_div a b = (a + b - 1) / b

-- 1 MiB up to 100 MiB, then 1 MiB for each started 100 MiB, 16 MiB at most.
unfoldable pub chunk_size_for : ℕ → ℕ
chunk_size_for filesize =
    if ltb 104857600 filesize then min 16 (ceil_div filesize 104857600) * 1048576 else 1048576

unfoldable pub total_chunks_for : (filesize chunk_size : ℕ) → ℕ
total_chunks_for filesize chunk_size = if ltb 0 filesize then ceil_div filesize chunk_size else 0

-- The chunks of a body, each with its index: `start_chunk` is that of the first.
unfoldable pub body_chunks : ℕ → (chunk_size start_chunk i : ℕ) → List ℕ → List (ℕ × List ℕ)
body_chunks zero chunk_size start_chunk i raw_body = []
body_chunks (suc n) chunk_size start_chunk i raw_body =
    (start_chunk + i, take chunk_size (drop (i * chunk_size) raw_body))
    ∷ body_chunks n chunk_size start_chunk (i + 1) raw_body

-- `len(raw_body) // chunk_size + (1 if len(raw_body) % chunk_size > 0 else 0)`
abbrev pub chunk_count : (size chunk_size : ℕ) → ℕ
chunk_count size chunk_size = size / chunk_size + (if ltb 0 (size % chunk_size) then 1 else 0)

-- Every chunk size is at least 1 MiB and at most 16 MiB, so a chunk fits into a packet.
pub chunk_size_for_bounds :
    (filesize : ℕ) → (1048576 ≤ chunk_size_for filesize) × (chunk_size_for filesize ≤ 16777216)
unfolding chunk_size_for
chunk_size_for_bounds filesize = elim (Bool-cases (ltb 104857600 filesize)) [
  | inl big ↦ let h = ltb→lt 104857600 filesize big in rw (big) (omega (arith, h), omega arith)
  | inr small ↦ rw (small) (omega arith, omega arith)
]

ceil_div-covers : (a b : ℕ) → 0 < b → a ≤ ceil_div a b * b
ceil_div-covers a b positive =
    let split = mod-add-div' (a + b - 1) b in
    let small = mod-lt (a + b - 1) positive in omega (arith, split, small)

ceil_div-tight : (a b : ℕ) → 0 < b → 0 < a → ceil_div a b * b < a + b
ceil_div-tight a b positive some_bytes =
    let split = mod-add-div' (a + b - 1) b in omega (arith, split)

-- The plan that UPLOAD_INIT is given covers the file, with no chunk too many, and each chunk is within
-- the payload limit of a packet (20 MiB).
pub total_chunks_for_covers :
    (filesize : ℕ)
    → 0 < filesize
    → let chunk_size = chunk_size_for filesize in
      let total = total_chunks_for filesize chunk_size in
      (filesize ≤ total * chunk_size)
      × (total * chunk_size < filesize + chunk_size)
      × (chunk_size ≤ 20971520)
unfolding total_chunks_for
total_chunks_for_covers filesize some_bytes = elim (Bool-cases (ltb 0 filesize)) [
  | inl some_sent ↦
      let (low, high) = chunk_size_for_bounds filesize in
      let positive : 0 < chunk_size_for filesize = omega (arith, low) in
      rw (some_sent) (
        ceil_div-covers filesize (chunk_size_for filesize) positive,
        ceil_div-tight filesize (chunk_size_for filesize) positive some_bytes,
        omega (arith, high),
      )
  | inr nothing ↦ absurd (omega (arith, ltb_false→le 0 filesize nothing))
]

joined-body_chunks :
    (n chunk_size start_chunk i : ℕ) (raw_body : List ℕ)
    → length raw_body ≤ i * chunk_size + n * chunk_size
    → joined (body_chunks n chunk_size start_chunk i raw_body) ≡ drop (i * chunk_size) raw_body
unfolding body_chunks
joined-body_chunks zero chunk_size start_chunk i raw_body h =
    sym (drop_all (i * chunk_size) raw_body (omega arith))
joined-body_chunks (suc n) chunk_size start_chunk i raw_body h =
    let e : (i + 1) * chunk_size ≡ i * chunk_size + chunk_size = grind arith in
    let k : suc n * chunk_size ≡ n * chunk_size + chunk_size = grind arith in
    let rest =
      joined-body_chunks n chunk_size start_chunk (i + 1) raw_body (omega (arith, h, e, k)) in
    let behind = drop-drop (i * chunk_size) chunk_size raw_body in
    rw (rest, e, ← behind) (take-append-drop chunk_size (drop (i * chunk_size) raw_body))

chunk_count-covers :
    (size chunk_size : ℕ) → 0 < chunk_size → size ≤ chunk_count size chunk_size * chunk_size
chunk_count-covers size chunk_size positive =
    let split = mod-add-div' size chunk_size in
    let small = mod-lt size positive in
    elim (Bool-cases (ltb 0 (size % chunk_size))) [
      | inl more ↦
          let e : (size / chunk_size + 1) * chunk_size
              ≡ size / chunk_size * chunk_size + chunk_size =
            grind arith in
          rw more (omega (arith, split, small, e))
      | inr none_more ↦
          let e : (size / chunk_size + 0) * chunk_size ≡ size / chunk_size * chunk_size =
            grind arith in
          let h = ltb_false→le 0 (size % chunk_size) none_more in
          rw none_more (omega (arith, split, h, e))
    ]

-- The chunks that the upload loop sends, put behind one another, are the body of the request.
pub body_chunks-joined :
    (chunk_size start_chunk : ℕ) (raw_body : List ℕ)
    → 0 < chunk_size
    → joined
        (body_chunks (chunk_count (length raw_body) chunk_size) chunk_size start_chunk 0 raw_body)
      ≡ raw_body
body_chunks-joined chunk_size start_chunk raw_body positive =
    let covers = chunk_count-covers (length raw_body) chunk_size positive in
    let e : 0 * chunk_size ≡ 0 = omega arith in
    joined-body_chunks (chunk_count (length raw_body) chunk_size) chunk_size start_chunk 0 raw_body
      (omega (arith, covers))
    ∙ rw e refl

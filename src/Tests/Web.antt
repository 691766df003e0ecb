-- ===== src/Tests/Web.antt =====
-- The web API, at concrete inputs.
use netcourier.Prelude.{some, codes, refl, ℕ, ◌+◌, ◌*◌, ◌≤◌, ◌<◌, ◌≡◌, List, [], ◌∷◌, ◌++◌, arith}
use netcourier.Server.Transfers.Downloads.{joined}
use netcourier.Web.Http.{Handled, routed, split_head, parse_head, handle_client}
use netcourier.Web.Http.Reading.{handle_client-whole}
use netcourier.Web.Chunks.{
  chunk_size_for, total_chunks_for, body_chunks, chunk_count, total_chunks_for_covers,
  body_chunks-joined,
}
use netcourier.Web.Events.{Access, pushes, polls, run_accesses, pushed, run_accesses-pushed}

-- 250 MiB go in chunks of 3 MiB.
total_chunks_for_covers_example :
    (262144000 ≤ total_chunks_for 262144000 (chunk_size_for 262144000) * chunk_size_for 262144000)
    × (total_chunks_for 262144000 (chunk_size_for 262144000) * chunk_size_for 262144000
        < 262144000 + chunk_size_for 262144000)
    × (chunk_size_for 262144000 ≤ 20971520)
total_chunks_for_covers_example = total_chunks_for_covers 262144000 (omega arith)

abbrev raw_body : List ℕ
raw_body = 1 ∷ 2 ∷ 3 ∷ 4 ∷ 5 ∷ []

body_chunks-joined_example : joined (body_chunks (chunk_count 5 2) 2 4 0 raw_body) ≡ raw_body
body_chunks-joined_example = body_chunks-joined 2 4 raw_body (omega arith)

abbrev accesses : List (Access ℕ)
accesses = pushes 1 ∷ polls ∷ pushes 2 ∷ pushes 3 ∷ polls ∷ polls ∷ pushes 4 ∷ []

run_accesses-pushed_example :
    (run_accesses accesses (0 ∷ [])).0 ++ (run_accesses accesses (0 ∷ [])).1 ≡ 0 ∷ pushed accesses
run_accesses-pushed_example = run_accesses-pushed accesses (0 ∷ [])

abbrev head_text : List ℕ
head_text =
    codes "POST /api HTTP/1.1" ++ 13 ∷ 10 ∷ codes "X: y:z" ++ 13 ∷ 10 ∷ codes "Content-LENGTH:  2 "

-- The empty line and the body are cut in two.
abbrev cut : List (List ℕ)
cut = (head_text ++ 13 ∷ 10 ∷ 13 ∷ []) ∷ (10 ∷ b'h' ∷ []) ∷ (b'i' ∷ []) ∷ []

-- The names of headers are in lower case, and the last header comes first.
abbrev posted : Handled
posted =
    routed (codes "POST") (codes "/api")
      ((codes "content-length", codes "2") ∷ (codes "x", codes "y:z") ∷ []) (codes "hi")

handle_client-whole_example : handle_client 100 cut ≡ some posted
unfolding split_head parse_head
handle_client-whole_example =
    handle_client-whole 100 cut head_text (codes "hi")
      (omega arith, (omega arith, (omega arith, tt))) refl (omega arith) (omega arith) (omega arith)

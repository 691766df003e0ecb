-- ===== src/Server/Transfers/Progress.antt =====
-- How far the table `file_transfers` may lag behind the cache of server/main.py.
use mathlib.Core.Path.{subst}
use netcourier.Prelude.{
  ℕ, ◌+◌, ◌*◌, ◌%◌, ◌⊎◌, ◌≤◌, ◌<◌, ◌≡◌, refl, sym, ◌∙◌, inl, inr, true, false, Option, none, some,
  List, [], ◌∷◌, arith, nat_eq, nat_eqb, nat_eqb_iff, Bool-cases, Option-cases, or_else, String,
  string_eq,
}
use netcourier.Dict.{Dict, get, put, get-put, get-put_same}
use netcourier.Server.Transfers.Disk.{write_at}
use netcourier.Server.Transfers.Defs.{
  TransferRow, Progress, Transfers, flush_transfer_progress, saved, is_in_progress,
}
use netcourier.Server.Transfers.Chunks.{
  find_progress, join_rows, found, refused, raised, counted, store_chunk, handle_upload_chunk,
  should_flush, Lookup, cached_from,
}
use netcourier.Server.Transfers.Receiving.{get-update_transfer}

-- The count in the table is behind the count in the cache by no more than the latter's rest by 20.
abbrev pub Within : TransferRow → Progress → Type 0
Within row p = p.completed_chunks ≤ row.completed_chunks + p.completed_chunks % 20

pub record Behind (id : ℕ) (t : Transfers) : Type 0 where
  pub row : TransferRow
  pub in_table : get t.file_transfers id ≡ some row
  pub within : (p : Progress) → get t.transfer_progress id ≡ some p → Within row p

flush-Behind :
    (id other : ℕ) (p : Progress) (row : TransferRow) (t : Transfers)
    → get t.transfer_progress other ≡ some p
    → p.dirty ≡ true
    → get t.file_transfers id ≡ some row
    → ((q : Progress)
        → nat_eqb other id ≡ false
        → get t.transfer_progress id ≡ some q
        → Within row q)
    → Behind id (flush_transfer_progress true other t)
unfolding flush_transfer_progress
flush-Behind id other p row t cached due in_table rest = elim (Bool-cases (nat_eqb other id)) [
  | inl same ↦
      let here : get t.file_transfers other ≡ some row =
        rw ((nat_eqb_iff other id).0 same) in_table in
      rw (cached, flush_transfer_progress, due)
        (record {
          row = saved p row;
          in_table =
              get-update_transfer other (saved p) t.file_transfers id ∙ rw (same, in_table) refl;
          within = λ q k.
              let e : record p { dirty = false } ≡ q =
                cc (get-put t.transfer_progress other id (record p { dirty = false }), same, k) in
              subst (λ x. Within (saved p row) x) e (omega arith);
        })
  | inr apart ↦
      rw (cached, flush_transfer_progress, due)
        (record {
          row = row;
          in_table = get-update_transfer other (saved p) t.file_transfers id ∙ rw (apart) in_table;
          within = λ q k. rest q apart (
              sym (
                get-put t.transfer_progress other id (record p { dirty = false }) ∙ rw (apart) refl)
              ∙ k);
        })
]

cache-Behind :
    (id other : ℕ) (p : Progress) (disk : Dict String (List ℕ)) (t : Transfers)
    → (v : Behind id t) → (nat_eqb other id ≡ true → Within v.row p)
    → Behind id (record t { transfer_progress = put t.transfer_progress other p; disk = disk })
cache-Behind id other p disk t v here = record {
  row = v.row;
  in_table = v.in_table;
  within = λ q k. elim (Bool-cases (nat_eqb other id)) [
    | inl same ↦
        let e : p ≡ q = cc (get-put t.transfer_progress other id p, same, k) in
        subst (λ x. Within v.row x) e (here same)
    | inr apart ↦ v.within q (sym (get-put t.transfer_progress other id p ∙ rw apart refl) ∙ k)
  ];
}

-- A chunk finds the count of the cache, or that of the table.
find_progress-Within :
    (now id : ℕ) (p : Progress) (t : Transfers) (v : Behind id t)
    → find_progress true now id t ≡ found p
    → Within v.row p
unfolding find_progress join_rows
find_progress-Within now id p t v e = elim (Option-cases (get t.transfer_progress id)) [
  | inr (q, cached) ↦
      let same : found q ≡ found p = rw (cached, find_progress) at e in
      let eq : q ≡ p = cc same in subst (λ x. Within v.row x) eq (v.within q cached)
  | inl uncached ↦ elim (Option-cases (get t.files v.row.file_id)) [
    | inl lost ↦
        let no : refused ≡ found p = rw (uncached, find_progress, v.in_table, lost) at e in
        absurd (cc no)
    | inr (file, there) ↦ elim (Bool-cases (is_in_progress v.row.status)) [
      | inl open_still ↦
          let same : found (cached_from now v.row file) ≡ found p =
            rw (uncached, find_progress, v.in_table, there, open_still) at e in
          let eq : cached_from now v.row file ≡ p = cc same in
          subst (λ x. Within v.row x) eq (omega arith)
      | inr closed ↦
          let no : refused ≡ found p =
            rw (uncached, find_progress, v.in_table, there, closed) at e in
          absurd (cc no)
    ]
  ]
]

Lookup-cases : (l : Lookup) → ((p : Progress) × (l ≡ found p)) ⊎ (l ≡ refused) ⊎ (l ≡ raised)
Lookup-cases (found p) = inl (p, refl)
Lookup-cases refused = inr (inl refl)
Lookup-cases raised = inr (inr refl)

not_twentieth :
    (i done total : ℕ) → should_flush i (done + 1) total ≡ false → (done + 1) % 20 ≡ done % 20 + 1
not_twentieth i done total e = elim (Bool-cases (nat_eqb ((done + 1) % 20) 0)) [
  | inl zeroth ↦
      let no : should_flush i (done + 1) total ≡ true = (rw zeroth (ground arith)) in
      absurd (cc (no, e))
  | inr other ↦
      let positive : 0 < (done + 1) % 20 = ground (arith, other) in omega (arith, positive)
]

store_chunk-Behind :
    (now id other : ℕ) (chunk_index : Option ℕ) (bytes : List ℕ) (p : Progress) (t : Transfers)
    → (v : Behind id t) → (nat_eqb other id ≡ true → Within v.row p)
    → Behind id (store_chunk true now other chunk_index bytes p t).0
unfolding store_chunk
store_chunk-Behind now id other none bytes p t v here = cache-Behind id other p _ t v here
store_chunk-Behind now id other (some i) bytes p t v here =
    let p' = counted now bytes p in
    let disk =
      put t.disk p.stored_path
        (write_at (i * p.chunk_size) bytes (or_else (get t.disk p.stored_path) [])) in
    elim (Bool-cases (should_flush i (p.completed_chunks + 1) p.total_chunks)) [
      | inl due ↦
          rw (due, store_chunk)
            (flush-Behind id other p' v.row
              (record t { transfer_progress = put t.transfer_progress other p'; disk = disk })
              (get-put_same t.transfer_progress other p') refl v.in_table
              (λ q apart k.
                v.within q (sym (get-put t.transfer_progress other id p' ∙ rw apart refl) ∙ k)))
      | inr early ↦
          rw (early, store_chunk)
            (cache-Behind id other p' disk t v (λ same.
              let w = here same in
              let more = not_twentieth i p.completed_chunks p.total_chunks early in
              omega (arith, w, more)))
    ]

handle_upload_chunk-Behind :
    (now id other : ℕ) (chunk_index : Option ℕ) (bytes : List ℕ) (t : Transfers)
    → Behind id t
    → Behind id (handle_upload_chunk true now other chunk_index bytes t).0
unfolding handle_upload_chunk
handle_upload_chunk-Behind now id other chunk_index bytes t v =
    elim (Lookup-cases (find_progress true now other t)) [
      | inl (p, e) ↦
          rw (e, handle_upload_chunk)
            (store_chunk-Behind now id other chunk_index bytes p t v (λ same.
              find_progress-Within now id p t v (
                subst (λ x. find_progress true now x t ≡ found p) ((nat_eqb_iff other id).0 same)
                  e)))
      | inr (inl e) ↦ rw (e, handle_upload_chunk) v
      | inr (inr e) ↦ rw (e, handle_upload_chunk) v
    ]

-- A request UPLOAD_CHUNK: when it arrives, of which transfer, which chunk, its bytes.
abbrev pub ChunkRequest : Type 0
ChunkRequest = ℕ × ℕ × Option ℕ × List ℕ

abbrev pub receive_chunks : List ChunkRequest → Transfers → Transfers
receive_chunks [] t = t
receive_chunks ((now, other, chunk_index, bytes) ∷ requests) t =
    receive_chunks requests (handle_upload_chunk true now other chunk_index bytes t).0

receive_chunks-Behind :
    (id : ℕ) (requests : List ChunkRequest) (t : Transfers)
    → Behind id t
    → Behind id (receive_chunks requests t)
receive_chunks-Behind id [] t v = v
receive_chunks-Behind id ((now, other, chunk_index, bytes) ∷ requests) t v =
    receive_chunks-Behind id requests (handle_upload_chunk true now other chunk_index bytes t).0
      (handle_upload_chunk-Behind now id other chunk_index bytes t v)

-- Whatever chunks of whatever transfers arrive, with sqlite up, a crash of the server loses the count
-- of at most 19 chunks of a transfer that was not in the cache at the start.
pub receive_chunks-lag :
    (id : ℕ) (requests : List ChunkRequest) (t : Transfers) (row : TransferRow) (p : Progress)
    → get t.file_transfers id ≡ some row
    → get t.transfer_progress id ≡ none
    → get (receive_chunks requests t).transfer_progress id ≡ some p
    → (row' : TransferRow) × (get (receive_chunks requests t).file_transfers id ≡ some row')
      × (p.completed_chunks < row'.completed_chunks + 20)
receive_chunks-lag id requests t row p in_table uncached cached =
    let start : Behind id t = record {
      row = row;
      in_table = in_table;
      within = λ q k. absurd (let no : none ≡ some q = sym uncached ∙ k in cc no);
    } in
    let v = receive_chunks-Behind id requests t start in
    let w = v.within p cached in (v.row, v.in_table, omega (arith, w))

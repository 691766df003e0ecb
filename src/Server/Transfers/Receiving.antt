-- ===== src/Server/Transfers/Receiving.antt =====
-- A transfer that the server is receiving: UPLOAD_INIT starts it, UPLOAD_CHUNK keeps it going.
use mathlib.Core.Option
use mathlib.Core.Path.{subst}
use netcourier.Prelude.{
  ℕ, ◌+◌, ◌*◌, ◌≡◌, refl, ap, ◌∙◌, inl, inr, Bool, true, false, some, List, [], arith, ◌==◌, nat_eq,
  string_eq, if◌then◌else◌, Bool-cases, Option-cases, beq_refl, nat_eqb_iff, or_else, ◌&&◌,
}
use netcourier.Dict.{Dict, get, put, get-put, get-put_same}
use netcourier.Server.Transfers.Disk.{write_at}
use netcourier.Server.Transfers.Defs.{
  FileRow, TransferRow, Progress, Transfers, chunk_ack, in_progress, update_transfer,
  flush_transfer_progress, saved,
}
use netcourier.Server.Transfers.Chunks.{
  find_progress, join_rows, found, cached_from, counted, store_chunk, handle_upload_chunk,
  should_flush,
}

pub get-update_transfer :
    (id : ℕ) (f : TransferRow → TransferRow) (rows : Dict ℕ TransferRow) (k : ℕ)
    → get (update_transfer id f rows) k
      ≡ (if id == k then Option.map f (get rows k) else get rows k)
unfolding update_transfer
get-update_transfer id f rows k = elim (Option-cases (get rows id)) [
  | inl e ↦ rw (e, update_transfer) (ground (arith, nat_eqb_iff id k, e))
  | inr (row, e) ↦
      rw (e, update_transfer) (ground (arith, get-put rows id k (f row), nat_eqb_iff id k, e))
]

-- The bytes on disk are `g`, and the cache, where it has the transfer, knows the place.
pub record Receiving (id : ℕ) (file : FileRow) (g : List ℕ) (t : Transfers) : Type 0 where
  pub row : TransferRow
  pub in_table : get t.file_transfers id ≡ some row
  pub of_file : get t.files row.file_id ≡ some file
  pub open_still : row.status ≡ in_progress
  pub cached :
      (p : Progress)
      → get t.transfer_progress id ≡ some p
      → (p.stored_path ≡ file.stored_path) × (p.chunk_size ≡ file.chunk_size)
  pub stored : get t.disk file.stored_path ≡ some g

pub flush_transfer_progress-Receiving :
    (db_up : Bool) (id : ℕ) (file : FileRow) (g : List ℕ) (t : Transfers)
    → Receiving id file g t
    → Receiving id file g (flush_transfer_progress db_up id t)
unfolding flush_transfer_progress
flush_transfer_progress-Receiving db_up id file g t v =
    elim (Option-cases (get t.transfer_progress id)) [
      | inl e ↦ rw (e, flush_transfer_progress) v
      | inr (p, e) ↦ elim (Bool-cases (p.dirty && db_up)) [
        | inr clean ↦ rw (e, flush_transfer_progress, clean) v
        | inl due ↦
            rw (e, flush_transfer_progress, due)
              (record {
                row = saved p v.row;
                in_table =
                    get-update_transfer id (saved p) t.file_transfers id
                    ∙ rw (beq_refl id) (ap (Option.map (saved p)) v.in_table);
                of_file = v.of_file;
                open_still = v.open_still;
                cached = λ q k.
                    let (path, size) = v.cached p e in
                    let same : record p { dirty = false } ≡ q =
                      cc (get-put_same t.transfer_progress id (record p { dirty = false }), k) in
                    subst
                      (λ (x : Progress).
                        (x.stored_path ≡ file.stored_path) × (x.chunk_size ≡ file.chunk_size))
                      same (path, size);
                stored = v.stored;
              })
      ]
    ]

-- The entry that a chunk finds, in the cache or in the tables.
find_progress-Receiving :
    (now id : ℕ) (file : FileRow) (g : List ℕ) (t : Transfers)
    → Receiving id file g t
    → (p : Progress) × (find_progress true now id t ≡ found p)
      × (p.stored_path ≡ file.stored_path)
      × (p.chunk_size ≡ file.chunk_size)
unfolding find_progress join_rows
find_progress-Receiving now id file g t v = elim (Option-cases (get t.transfer_progress id)) [
  | inl e ↦ (
    cached_from now v.row file,
    rw (e, find_progress, v.in_table, v.of_file, v.open_still) refl,
    refl,
    refl,
  )
  | inr (p, e) ↦ let (path, size) = v.cached p e in (p, rw (e, find_progress) refl, path, size)
]

stored_chunk-Receiving :
    (now id : ℕ) (i : ℕ) (bytes : List ℕ) (p : Progress) (file : FileRow) (g : List ℕ)
    (t : Transfers)
    → Receiving id file g t
    → p.stored_path ≡ file.stored_path
    → p.chunk_size ≡ file.chunk_size
    → Receiving id file (write_at (i * file.chunk_size) bytes g) (record t {
      transfer_progress = put t.transfer_progress id (counted now bytes p);
      disk =
          put t.disk p.stored_path
            (write_at (i * p.chunk_size) bytes (or_else (get t.disk p.stored_path) []));
    })
stored_chunk-Receiving now id i bytes p file g t v path size = record {
  row = v.row;
  in_table = v.in_table;
  of_file = v.of_file;
  open_still = v.open_still;
  cached = λ q k.
      let same : counted now bytes p ≡ q =
        cc (get-put_same t.transfer_progress id (counted now bytes p), k) in
      subst
        (λ (x : Progress). (x.stored_path ≡ file.stored_path) × (x.chunk_size ≡ file.chunk_size))
        same (path, size);
  stored =
      rw (path, size, v.stored)
        (get-put_same t.disk file.stored_path (write_at (i * file.chunk_size) bytes g));
}

-- A chunk of the transfer is acknowledged, and its bytes stand at its index times the chunk size.
pub handle_upload_chunk-Receiving :
    (now id i : ℕ) (bytes : List ℕ) (file : FileRow) (g : List ℕ) (t : Transfers)
    → Receiving id file g t
    → ((handle_upload_chunk true now id (some i) bytes t).1 ≡ chunk_ack id i)
      × Receiving id file
          (write_at (i * file.chunk_size) bytes g)
          (handle_upload_chunk true now id (some i) bytes t).0
unfolding handle_upload_chunk store_chunk
handle_upload_chunk-Receiving now id i bytes file g t v =
    let (p, at, path, size) = find_progress-Receiving now id file g t v in
    let v' = stored_chunk-Receiving now id i bytes p file g t v path size in
    elim (Bool-cases (should_flush i (p.completed_chunks + 1) p.total_chunks)) [
      | inl due ↦
          rw (at, handle_upload_chunk, due)
            (refl, flush_transfer_progress-Receiving true id file _ _ v')
      | inr early ↦ rw (at, handle_upload_chunk, early) (refl, v')
    ]

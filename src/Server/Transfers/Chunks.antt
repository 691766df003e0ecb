-- ===== src/Server/Transfers/Chunks.antt =====
-- UPLOAD_CHUNK of server/main.py.
use netcourier.Prelude.{
  ℕ, ◌+◌, ◌*◌, ◌%◌, Bool, true, false, Option, none, some, List, [], ◌||◌, ◌==◌, nat_eq, string_eq,
  if◌then◌else◌, or_else, length,
}
use netcourier.Dict.{get, put}
use netcourier.Server.Transfers.Disk.{write_at}
use netcourier.Server.Transfers.Defs.{
  FileRow, TransferRow, Progress, Transfers, Reply, internal_error, invalid_packet, chunk_ack,
  is_in_progress, flush_transfer_progress,
}

-- The rows of a transfer and of its file: the join of the two tables.
unfoldable pub join_rows : Transfers → ℕ → Option (TransferRow × FileRow)
join_rows t id = elim (get t.file_transfers id) [
  | none ↦ none
  | some row ↦ elim (get t.files row.file_id) [ none ↦ none | some file ↦ some (row, file) ]
]

pub data Lookup : Type 0 where
  found : Progress → Lookup
  refused raised : Lookup

abbrev pub cached_from : ℕ → TransferRow → FileRow → Progress
cached_from now row file = record {
  stored_path = file.stored_path;
  chunk_size = file.chunk_size;
  total_chunks = row.total_chunks;
  completed_chunks = row.completed_chunks;
  bytes_transferred = row.bytes_transferred;
  dirty = false;
  last_activity_at = now;
}

-- The entry of the cache, or one made from the rows of a transfer in progress.
unfoldable pub find_progress : (db_up : Bool) (now id : ℕ) → Transfers → Lookup
unfolding join_rows
find_progress db_up now id t = elim (get t.transfer_progress id) [
  | some p ↦ found p
  | none ↦
      if db_up
      then elim (join_rows t id) [
        | none ↦ refused
        | some (row, file) ↦
            if is_in_progress row.status then found (cached_from now row file) else refused
      ]
      else raised
]

abbrev pub should_flush : (chunk_index done total : ℕ) → Bool
should_flush chunk_index done total = chunk_index == 0 || done % 20 == 0 || chunk_index + 1 == total

abbrev pub counted : (now : ℕ) → List ℕ → Progress → Progress
counted now bytes p = record p {
  completed_chunks = p.completed_chunks + 1;
  bytes_transferred = p.bytes_transferred + length bytes;
  last_activity_at = now;
  dirty = true;
}

-- Without an index the cache entry and an empty file are made before the product raises.
unfoldable pub store_chunk :
    (db_up : Bool) (now id : ℕ) (chunk_index : Option ℕ)
    → List ℕ
    → Progress
    → Transfers
    → Transfers × Reply
unfolding flush_transfer_progress
store_chunk db_up now id none bytes p t = (
  record t {
    transfer_progress = put t.transfer_progress id p;
    disk = put t.disk p.stored_path (or_else (get t.disk p.stored_path) []);
  },
  internal_error,
)
store_chunk db_up now id (some i) bytes p t =
    let p' = counted now bytes p in
    let file = or_else (get t.disk p.stored_path) [] in
    let t' = record t {
      transfer_progress = put t.transfer_progress id p';
      disk = put t.disk p.stored_path (write_at (i * p.chunk_size) bytes file);
    } in
    let t'' = flush_transfer_progress db_up id t' in
    (if should_flush i p'.completed_chunks p.total_chunks then t'' else t', chunk_ack id i)

unfoldable pub handle_upload_chunk :
    (db_up : Bool) (now id : ℕ) (chunk_index : Option ℕ) → List ℕ → Transfers → Transfers × Reply
unfolding find_progress store_chunk
handle_upload_chunk db_up now id chunk_index bytes t = elim (find_progress db_up now id t) [
  | found p ↦ store_chunk db_up now id chunk_index bytes p t
  | refused ↦ (t, invalid_packet)
  | raised ↦ (t, internal_error)
]

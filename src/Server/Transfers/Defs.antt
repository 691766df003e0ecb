-- ===== src/Server/Transfers/Defs.antt =====
-- The uploads of server/main.py: `transfer_progress` (the cache), the rows of the tables `files` and
-- `file_transfers`, and the files on disk. `db_up` is false where sqlite raises. Times are numbers,
-- and compare as the texts the code keeps do. The buffer of an open file handle is not modelled:
-- `_handle_upload_finish` closes the handle before it reads the file.
use netcourier.Prelude.{
  ℕ, ◌+◌, Bool, true, false, String, none, some, List, [], ◌∷◌, map, ◌&&◌, nat_eq, string_eq,
  if◌then◌else◌, ltb,
}
use netcourier.Dict.{Dict, get, put}

pub data Direction : Type 0 where
  upload download : Direction

pub data TransferStatus : Type 0 where
  in_progress completed failed : TransferStatus

pub data FileStatus : Type 0 where
  uploading available deleted : FileStatus

pub record FileRow : Type 0 where
  pub room_id : ℕ
  pub uploader_id : ℕ
  pub original_filename : List ℕ
  pub stored_path : String
  pub size_bytes : ℕ
  pub checksum : String
  pub chunk_size : ℕ
  pub total_chunks : ℕ
  pub status : FileStatus

pub record TransferRow : Type 0 where
  pub file_id : ℕ
  pub user_id : ℕ
  pub direction : Direction
  pub status : TransferStatus
  pub total_chunks : ℕ
  pub completed_chunks : ℕ
  pub bytes_transferred : ℕ
  pub last_activity_at : ℕ

-- An entry of the cache.
pub record Progress : Type 0 where
  pub stored_path : String
  pub chunk_size : ℕ
  pub total_chunks : ℕ
  pub completed_chunks : ℕ
  pub bytes_transferred : ℕ
  pub dirty : Bool
  pub last_activity_at : ℕ

pub record Transfers : Type 0 where
  pub transfer_progress : Dict ℕ Progress
  pub file_transfers : Dict ℕ TransferRow
  pub files : Dict ℕ FileRow
  pub disk : Dict String (List ℕ)

pub data Reply : Type 0 where
  upload_ready : (transfer_id start_chunk : ℕ) → Reply
  chunk_ack : (transfer_id chunk_index : ℕ) → Reply
  upload_success : ℕ → Reply
  download_ready : (transfer_id total_chunks chunk_size : ℕ) → String → (start_chunk : ℕ) → Reply
  missing_field file_too_large invalid_token invalid_packet file_not_found : Reply
  checksum_failed internal_error no_reply : Reply

abbrev pub is_in_progress : TransferStatus → Bool
is_in_progress in_progress = true
is_in_progress _ = false

-- `UPDATE file_transfers SET ... WHERE transfer_id = ?`
unfoldable pub update_transfer :
    ℕ → (TransferRow → TransferRow) → Dict ℕ TransferRow → Dict ℕ TransferRow
update_transfer id f rows = elim (get rows id) [ none ↦ rows | some row ↦ put rows id (f row) ]

abbrev pub saved : Progress → TransferRow → TransferRow
saved p row = record row {
  completed_chunks = p.completed_chunks;
  bytes_transferred = p.bytes_transferred;
  last_activity_at = p.last_activity_at;
}

unfoldable pub flush_transfer_progress : (db_up : Bool) → ℕ → Transfers → Transfers
unfolding update_transfer
flush_transfer_progress db_up id t = elim (get t.transfer_progress id) [
  | none ↦ t
  | some p ↦
      if p.dirty && db_up
      then record t {
        file_transfers = update_transfer id (saved p) t.file_transfers;
        transfer_progress = put t.transfer_progress id (record p { dirty = false });
      }
      else t
]

unfoldable flush_each : (db_up : Bool) → List ℕ → Transfers → Transfers
unfolding flush_transfer_progress
flush_each db_up [] t = t
flush_each db_up (id ∷ ids) t = flush_each db_up ids (flush_transfer_progress db_up id t)

unfoldable pub flush_all_dirty_transfers : (db_up : Bool) → Transfers → Transfers
unfolding flush_each
flush_all_dirty_transfers db_up t = flush_each db_up (map (λ e. e.0) t.transfer_progress) t

abbrev pub timed_out : (now timeout_seconds : ℕ) → TransferRow → TransferRow
timed_out now timeout_seconds row =
    if is_in_progress row.status && ltb (row.last_activity_at + timeout_seconds) now
    then record row { status = failed }
    else row

-- Only the table is touched, not the cache.
unfoldable pub check_transfer_timeouts :
    (db_up : Bool) (now timeout_seconds : ℕ) → Transfers → Transfers
check_transfer_timeouts db_up now timeout_seconds t =
    if db_up
    then record t {
      file_transfers = map (λ e. (e.0, timed_out now timeout_seconds e.1)) t.file_transfers;
    }
    else t

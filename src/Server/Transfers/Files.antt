-- ===== src/Server/Transfers/Files.antt =====
-- The end of an upload, downloads and resumed transfers of server/main.py.
use netcourier.Prelude.{
  ℕ, zero, suc, ◌+◌, ◌-◌, ◌*◌, Bool, true, false, String, Option, none, some, List, [], ◌∷◌, ◌&&◌,
  ◌==◌, nat_eq, string_eq, if◌then◌else◌, take, drop,
}
use netcourier.Dict.{Dict, get, put, del}
use netcourier.Server.Transfers.Defs.{
  FileRow, TransferRow, Transfers, Reply, Direction, FileStatus, upload, download, in_progress,
  completed, available, upload_ready, upload_success, download_ready, invalid_token, invalid_packet,
  file_not_found, checksum_failed, internal_error, no_reply, update_transfer,
  flush_transfer_progress, is_in_progress,
}
use netcourier.Server.Transfers.Chunks.{join_rows}

-- What the room is told: the system event, and the chat message of type "file".
pub record Announcement : Type 0 where
  pub room_name : String
  pub username : String
  pub original_filename : List ℕ
  pub file_id : ℕ
  pub size_bytes : ℕ

unfoldable pub announce : Dict ℕ String → String → ℕ → FileRow → Option Announcement
announce room_names username file_id file = elim (get room_names file.room_id) [
  | none ↦ none
  | some room_name ↦ some (record {
    room_name = room_name;
    username = username;
    original_filename = file.original_filename;
    file_id = file_id;
    size_bytes = file.size_bytes;
  })
]

unfoldable pub complete : ℕ → TransferRow → FileRow → Transfers → Transfers
unfolding update_transfer
complete id row file t = record t {
  files = put t.files row.file_id (record file { status = available });
  file_transfers = update_transfer id (λ r. record r { status = completed }) t.file_transfers;
  transfer_progress = del t.transfer_progress id;
}

-- `sha256` is hashlib's, of the whole file. A transfer that is not there gets no answer.
unfoldable pub handle_upload_finish :
    (sha256 : List ℕ → String) (db_up : Bool) (room_names : Dict ℕ String) (username : String)
    (id : ℕ)
    → Transfers
    → Transfers × Reply × Option Announcement
unfolding flush_transfer_progress join_rows complete announce
handle_upload_finish sha256 db_up room_names username id t =
    let t' = flush_transfer_progress db_up id t in
    if db_up
    then elim (join_rows t' id) [
      | none ↦ (t', no_reply, none)
      | some (row, file) ↦ elim (get t'.disk file.stored_path) [
        | none ↦ (t', internal_error, none)
        | some bytes ↦
            if sha256 bytes == file.checksum
            then (
              complete id row file t',
              upload_success id,
              announce room_names username row.file_id file,
            )
            else (t', checksum_failed, none)
      ]
    ]
    else (t', internal_error, none)

-- `for i in range(start_chunk, total_chunks): f.read(chunk_size)`: the index and the bytes of each
-- DOWNLOAD_CHUNK. The first argument counts the chunks to come.
unfoldable pub read_chunks : ℕ → (chunk_size i : ℕ) → List ℕ → List (ℕ × List ℕ)
read_chunks zero chunk_size i rest = []
read_chunks (suc n) chunk_size i rest =
    (i, take chunk_size rest) ∷ read_chunks n chunk_size (i + 1) (drop chunk_size rest)

-- A file that is not there is logged, and nothing is sent.
unfoldable pub push_download_chunks :
    Dict String (List ℕ) → String → (chunk_size total_chunks start_chunk : ℕ) → List (ℕ × List ℕ)
unfolding read_chunks
push_download_chunks disk stored_path chunk_size total_chunks start_chunk =
    elim (get disk stored_path) [
      | none ↦ []
      | some bytes ↦
          read_chunks (total_chunks - start_chunk) chunk_size start_chunk
            (drop (start_chunk * chunk_size) bytes)
    ]

abbrev pub is_available : FileStatus → Bool
is_available available = true
is_available _ = false

-- The answer, and the chunks that the new thread sends.
unfoldable pub handle_download_request :
    (db_up : Bool) (now user_id transfer_id file_id : ℕ)
    → Transfers
    → Transfers × Reply × List (ℕ × List ℕ)
unfolding push_download_chunks
handle_download_request db_up now user_id transfer_id file_id t =
    if db_up
    then elim (get t.files file_id) [
      | none ↦ (t, file_not_found, [])
      | some file ↦
          if is_available file.status
          then (
            record t {
              file_transfers = put t.file_transfers transfer_id (record {
                file_id = file_id;
                user_id = user_id;
                direction = download;
                status = in_progress;
                total_chunks = file.total_chunks;
                completed_chunks = 0;
                bytes_transferred = 0;
                last_activity_at = now;
              });
            },
            download_ready transfer_id file.total_chunks file.chunk_size file.checksum 0,
            push_download_chunks t.disk file.stored_path file.chunk_size file.total_chunks 0,
          )
          else (t, file_not_found, [])
    ]
    else (t, internal_error, [])

-- The user is the one of the socket, if it is a client; a direction that is neither of the two gets
-- no answer. `start_chunk` is the request's, 0 where it has none.
unfoldable pub resume :
    (direction : Option Direction) (id start_chunk : ℕ)
    → TransferRow
    → FileRow
    → Dict String (List ℕ)
    → Reply × List (ℕ × List ℕ)
unfolding push_download_chunks
resume none id start_chunk row file disk = (no_reply, [])
resume (some upload) id start_chunk row file disk = (upload_ready id row.completed_chunks, [])
resume (some download) id start_chunk row file disk = (
  download_ready id row.total_chunks file.chunk_size file.checksum start_chunk,
  push_download_chunks disk file.stored_path file.chunk_size row.total_chunks start_chunk,
)

unfoldable pub handle_resume_transfer :
    (db_up : Bool) (user : Option ℕ) (direction : Option Direction) (id start_chunk : ℕ)
    → Transfers
    → Transfers × Reply × List (ℕ × List ℕ)
unfolding flush_transfer_progress join_rows resume
handle_resume_transfer db_up none direction id start_chunk t =
    (flush_transfer_progress db_up id t, invalid_token, [])
handle_resume_transfer db_up (some user_id) direction id start_chunk t =
    let t' = flush_transfer_progress db_up id t in
    if db_up
    then elim (join_rows t' id) [
      | none ↦ (t', invalid_packet, [])
      | some (row, file) ↦
          if row.user_id == user_id && is_in_progress row.status
          then (let (reply, chunks) = resume direction id start_chunk row file t'.disk in
              (t', reply, chunks))
          else (t', invalid_packet, [])
    ]
    else (t', internal_error, [])

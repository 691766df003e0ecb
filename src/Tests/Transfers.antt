-- ===== src/Tests/Transfers.antt =====
-- The transfers of server/main.py, at work on a file of five bytes in chunks of two.
use mathlib.Core.Option
use netcourier.Prelude.{
  ℕ, ◌+◌, ◌<◌, map, ◌≡◌, refl, true, false, String, some, List, [], ◌∷◌, all, nat_eq, string_eq,
  arith,
}
use netcourier.Dict.{get, put}
use netcourier.Server.Transfers.Filenames.{
  sanitize_filename, is_allowed_char, starts_with_dot, sanitize_filename_lem,
}
use netcourier.Server.Transfers.Defs.{
  check_transfer_timeouts, failed, chunk_ack, invalid_packet, FileRow, TransferRow, Progress,
  Transfers, upload, download, in_progress, available, flush_transfer_progress, update_transfer,
}
use netcourier.Server.Transfers.Init.{UploadInit}
use netcourier.Server.Transfers.Chunks.{handle_upload_chunk, find_progress, store_chunk, join_rows}
use netcourier.Server.Transfers.Timeouts.{check_transfer_timeouts-cached}
use netcourier.Server.Transfers.Files.{handle_resume_transfer}
use netcourier.Server.Transfers.Uploads.{new_file}
use netcourier.Server.Transfers.Progress.{ChunkRequest, receive_chunks, receive_chunks-lag}

abbrev contents : List ℕ
contents = 1 ∷ 2 ∷ 3 ∷ 4 ∷ 5 ∷ []

abbrev plan : UploadInit
plan = record {
  room_id = 7;
  filename = 97 ∷ [];
  filesize = 5;
  chunk_size = 2;
  total_chunks = 3;
  checksum = "c0ffee";
}

abbrev nothing : Transfers
nothing = record { transfer_progress = []; file_transfers = []; files = []; disk = [] }

abbrev digest : List ℕ → String
digest bytes = "c0ffee"

-- The chunks arrive in the order 2, 0, 1, 0.
abbrev arrivals : List (ℕ × ℕ)
arrivals = (10, 2) ∷ (11, 0) ∷ (12, 1) ∷ (13, 0) ∷ []

abbrev stored_file : FileRow
stored_file = record (new_file 1 "f" plan) { status = available }

abbrev download_row : TransferRow
download_row = record {
  file_id = 4;
  user_id = 2;
  direction = download;
  status = in_progress;
  total_chunks = 3;
  completed_chunks = 0;
  bytes_transferred = 0;
  last_activity_at = 9;
}

abbrev ready_to_send : Transfers
ready_to_send = record {
  transfer_progress = [];
  file_transfers = (6, download_row) ∷ [];
  files = (4, stored_file) ∷ [];
  disk = ("f", contents) ∷ [];
}

abbrev upload_row : TransferRow
upload_row = record download_row { direction = upload; user_id = 1 }

abbrev receiving : Transfers
receiving = record ready_to_send { file_transfers = (6, upload_row) ∷ [] }

abbrev requests : List ChunkRequest
requests = (10, 6, some 1, 3 ∷ 4 ∷ []) ∷ []

abbrev after_one : Progress
after_one = record {
  stored_path = "f";
  chunk_size = 2;
  total_chunks = 3;
  completed_chunks = 1;
  bytes_transferred = 2;
  dirty = true;
  last_activity_at = 10;
}

receive_chunks-lag_example :
    (row' : TransferRow) × (get (receive_chunks requests receiving).file_transfers 6 ≡ some row')
    × (1 < row'.completed_chunks + 20)
unfolding get put handle_upload_chunk find_progress store_chunk join_rows flush_transfer_progress
    update_transfer
receive_chunks-lag_example =
    receive_chunks-lag 6 requests receiving upload_row after_one refl refl refl

-- "../a "
abbrev dotted : List ℕ
dotted = 46 ∷ 46 ∷ 47 ∷ 97 ∷ 32 ∷ []

sanitize_filename_lem_example :
    (all is_allowed_char (sanitize_filename dotted) ≡ true)
    × (starts_with_dot (sanitize_filename dotted) ≡ false)
    × (sanitize_filename (sanitize_filename dotted) ≡ sanitize_filename dotted)
sanitize_filename_lem_example = sanitize_filename_lem dotted

-- A chunk came at 500, but the row still says 9.
abbrev slow_upload : Transfers
slow_upload = record receiving {
  transfer_progress = (6, record after_one { last_activity_at = 500 }) ∷ [];
}

check_transfer_timeouts-cached_example :
    let t' = check_transfer_timeouts true 501 120 slow_upload in
    (Option.map (λ (r : TransferRow). r.status) (get t'.file_transfers 6) ≡ some failed)
    × ((handle_upload_chunk true 502 6 (some 2) (5 ∷ []) t').1 ≡ chunk_ack 6 2)
    × ((handle_resume_transfer true (some 1) (some upload) 6 0 t').1 ≡ invalid_packet)
unfolding get
check_transfer_timeouts-cached_example =
    check_transfer_timeouts-cached 501 120 6 2 0 1 502 (5 ∷ []) (some upload)
      (record after_one { last_activity_at = 500 }) upload_row slow_upload refl refl refl
      (omega arith)

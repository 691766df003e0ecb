-- ===== src/Server/Transfers/Uploads.antt =====
-- A whole upload: UPLOAD_INIT, the chunks in any order, UPLOAD_FINISH.
use netcourier.Prelude.{ℕ, true, String, some, List, [], ◌∷◌, nat_eq, string_eq}
use netcourier.Dict.{Dict}
use netcourier.Server.Transfers.Filenames.{sanitize_filename}
use netcourier.Server.Transfers.Defs.{FileRow, Transfers, uploading}
use netcourier.Server.Transfers.Init.{UploadInit}
use netcourier.Server.Transfers.Chunks.{handle_upload_chunk}
use netcourier.Server.Transfers.Reassembly.{chunk_of}
use netcourier.Server.Transfers.Receiving.{Receiving}

-- The row of `files` that UPLOAD_INIT inserts.
abbrev pub new_file : ℕ → String → UploadInit → FileRow
new_file user_id stored_path u = record {
  room_id = u.room_id;
  uploader_id = user_id;
  original_filename = sanitize_filename u.filename;
  stored_path = stored_path;
  size_bytes = u.filesize;
  checksum = u.checksum;
  chunk_size = u.chunk_size;
  total_chunks = u.total_chunks;
  status = uploading;
}

-- The sender's chunks, each with the time at which it arrives.
abbrev pub send_chunks : (size id : ℕ) → List ℕ → List (ℕ × ℕ) → Transfers → Transfers
send_chunks size id bytes [] t = t
send_chunks size id bytes ((now, i) ∷ arrivals) t =
    send_chunks size id bytes arrivals
      (handle_upload_chunk true now id (some i) (chunk_of size i bytes) t).0

abbrev written_by : List (ℕ × ℕ) → List ℕ → List ℕ
written_by [] done = done
written_by ((now, i) ∷ arrivals) done = written_by arrivals (i ∷ done)

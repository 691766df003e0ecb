-- ===== src/Server/Transfers/Init.antt =====
-- UPLOAD_INIT of server/main.py.
use netcourier.Prelude.{
  ℕ, Text, length, Bool, String, List, [], not, ◌&&◌, ◌==◌, nat_eq, string_eq, if◌then◌else◌, ltb,
  is_empty,
}
use netcourier.Dict.{put}
use netcourier.Server.Transfers.Filenames.{sanitize_filename}
use netcourier.Server.Transfers.Defs.{
  Transfers, Reply, upload, in_progress, uploading, upload_ready, missing_field, file_too_large,
  internal_error,
}

-- What UPLOAD_INIT carries, the room looked up.
pub record UploadInit : Type 0 where
  pub room_id : ℕ
  pub filename : List ℕ
  pub filesize : ℕ
  pub chunk_size : ℕ
  pub total_chunks : ℕ
  pub checksum : String

-- Python's truth of a number and of a text.
abbrev truthy : ℕ → Bool
truthy n = not (n == 0)

abbrev pub all_given : UploadInit → Bool
all_given u =
    truthy u.room_id
    && not (is_empty u.filename)
    && truthy u.filesize
    && truthy u.chunk_size
    && truthy u.total_chunks
    && not (u.checksum == "")

-- With a text as the filesize, which is true where it is not empty.
abbrev pub all_given_text : UploadInit → Text → Bool
all_given_text u filesize = all_given (record u { filesize = length filesize })

abbrev pub max_filesize : ℕ
max_filesize = 1073741824

-- The two row ids that sqlite gives and the path with the fresh uuid are arguments.
unfoldable pub handle_upload_init :
    (db_up : Bool) (now user_id file_id transfer_id : ℕ) (stored_path : String)
    → UploadInit
    → Transfers
    → Transfers × Reply
unfolding sanitize_filename
handle_upload_init db_up now user_id file_id transfer_id stored_path u t =
    if all_given u
    then if ltb max_filesize u.filesize
      then (t, file_too_large)
      else (if db_up
          then (
            record t {
              disk = put t.disk stored_path [];
              files = put t.files file_id (record {
                room_id = u.room_id;
                uploader_id = user_id;
                original_filename = sanitize_filename u.filename;
                stored_path = stored_path;
                size_bytes = u.filesize;
                checksum = u.checksum;
                chunk_size = u.chunk_size;
                total_chunks = u.total_chunks;
                status = uploading;
              });
              file_transfers = put t.file_transfers transfer_id (record {
                file_id = file_id;
                user_id = user_id;
                direction = upload;
                status = in_progress;
                total_chunks = u.total_chunks;
                completed_chunks = 0;
                bytes_transferred = 0;
                last_activity_at = now;
              });
            },
            upload_ready transfer_id 0,
          )
          else (t, internal_error))
    else (t, missing_field)

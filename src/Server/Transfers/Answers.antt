-- ===== src/Server/Transfers/Answers.antt =====
-- Every packet of server/main.py about a transfer but UPLOAD_FINISH is answered.
use netcourier.Prelude.{
  ℕ, ◌≡◌, refl, inl, inr, Bool, true, false, ◌&&◌, String, Option, none, some, List, Bool-cases,
  Option-cases, nat_eq, string_eq, ltb, ◌==◌,
}
use netcourier.Dict.{get}
use netcourier.Server.Transfers.Defs.{
  Transfers, Reply, no_reply, Direction, upload, download, FileRow, TransferRow, Progress,
  is_in_progress, flush_transfer_progress,
}
use netcourier.Server.Transfers.Init.{UploadInit, all_given, max_filesize, handle_upload_init}
use netcourier.Server.Transfers.Chunks.{
  Lookup, found, refused, raised, find_progress, store_chunk, handle_upload_chunk, join_rows,
}
use netcourier.Server.Transfers.Files.{
  is_available, handle_download_request, resume, handle_resume_transfer,
}

abbrev pub is_reply : Reply → Bool
is_reply no_reply = false
is_reply _ = true

pub handle_upload_init-replies :
    (db_up : Bool) (now user_id file_id transfer_id : ℕ) (stored_path : String) (u : UploadInit)
    (t : Transfers)
    → is_reply (handle_upload_init db_up now user_id file_id transfer_id stored_path u t).1 ≡ true
unfolding handle_upload_init
handle_upload_init-replies db_up now user_id file_id transfer_id stored_path u t =
    elim (Bool-cases (all_given u)) [
      | inr missing ↦ rw (handle_upload_init, missing) refl
      | inl given ↦ elim (Bool-cases (ltb max_filesize u.filesize)) [
        | inl large ↦ rw (handle_upload_init, given, large) refl
        | inr fits ↦ elim (Bool-cases db_up) [
          | inl up ↦ rw (handle_upload_init, given, fits, up) refl
          | inr down ↦ rw (handle_upload_init, given, fits, down) refl
        ]
      ]
    ]

store_chunk-replies :
    (db_up : Bool) (now id : ℕ) (chunk_index : Option ℕ) (bytes : List ℕ) (p : Progress)
    (t : Transfers)
    → is_reply (store_chunk db_up now id chunk_index bytes p t).1 ≡ true
unfolding store_chunk
store_chunk-replies db_up now id none bytes p t = refl
store_chunk-replies db_up now id (some i) bytes p t = refl

pub handle_upload_chunk-replies :
    (db_up : Bool) (now id : ℕ) (chunk_index : Option ℕ) (bytes : List ℕ) (t : Transfers)
    → is_reply (handle_upload_chunk db_up now id chunk_index bytes t).1 ≡ true
unfolding handle_upload_chunk
handle_upload_chunk-replies db_up now id chunk_index bytes t =
    answered (find_progress db_up now id t) refl
  where
    answered :
        (l : Lookup)
        → find_progress db_up now id t ≡ l
        → is_reply (handle_upload_chunk db_up now id chunk_index bytes t).1 ≡ true
    answered (found p) e =
        rw (handle_upload_chunk, e) (store_chunk-replies db_up now id chunk_index bytes p t)
    answered refused e = rw (handle_upload_chunk, e) refl
    answered raised e = rw (handle_upload_chunk, e) refl

pub handle_download_request-replies :
    (db_up : Bool) (now user_id transfer_id file_id : ℕ) (t : Transfers)
    → is_reply (handle_download_request db_up now user_id transfer_id file_id t).1 ≡ true
unfolding handle_download_request
handle_download_request-replies false now user_id transfer_id file_id t = refl
handle_download_request-replies true now user_id transfer_id file_id t =
    elim (Option-cases (get t.files file_id)) [
      | inl absent ↦ rw (handle_download_request, absent) refl
      | inr (row, there) ↦ elim (Bool-cases (is_available row.status)) [
        | inl up ↦ rw (handle_download_request, there, up) refl
        | inr off ↦ rw (handle_download_request, there, off) refl
      ]
    ]

resume-replies :
    (direction : Direction) (id start_chunk : ℕ) (row : TransferRow) (file : FileRow)
    (t : Transfers)
    → is_reply (resume (some direction) id start_chunk row file t.disk).0 ≡ true
unfolding resume
resume-replies upload id start_chunk row file t = refl
resume-replies download id start_chunk row file t = refl

pub handle_resume_transfer-replies :
    (db_up : Bool) (user_id : ℕ) (direction : Direction) (id start_chunk : ℕ) (t : Transfers)
    → is_reply (handle_resume_transfer db_up (some user_id) (some direction) id start_chunk t).1
      ≡ true
unfolding handle_resume_transfer
handle_resume_transfer-replies false user_id direction id start_chunk t = refl
handle_resume_transfer-replies true user_id direction id start_chunk t =
    let t' = flush_transfer_progress true id t in
    elim (Option-cases (join_rows t' id)) [
      | inl absent ↦ rw (handle_resume_transfer, absent) refl
      | inr ((row, file), there) ↦
          elim (Bool-cases (row.user_id == user_id && is_in_progress row.status)) [
            | inl may ↦
                rw (handle_resume_transfer, there, may)
                  (resume-replies direction id start_chunk row file t')
            | inr other ↦ rw (handle_resume_transfer, there, other) refl
          ]
    ]

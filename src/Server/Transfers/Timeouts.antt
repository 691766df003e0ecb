-- ===== src/Server/Transfers/Timeouts.antt =====
-- The timeout check of server/main.py looks at `file_transfers` alone, not at the cache.
use mathlib.Core.Option
use netcourier.Prelude.{
  ℕ, ◌+◌, ◌<◌, ◌≡◌, refl, ap, ◌∙◌, inl, inr, true, Option, some, List, [], ◌∷◌, ◌==◌, ◌&&◌, nat_eq,
  nat_eqb, Bool-cases, Option-cases, beq_refl, map, lt→ltb,
}
use netcourier.Dict.{Dict, get}
use netcourier.Server.Transfers.Defs.{
  TransferRow, in_progress, failed, Progress, Transfers, flush_transfer_progress, saved,
  check_transfer_timeouts, timed_out, chunk_ack, invalid_packet, Direction,
}
use netcourier.Server.Transfers.Chunks.{find_progress, join_rows, store_chunk, handle_upload_chunk}
use netcourier.Server.Transfers.Files.{handle_resume_transfer}
use netcourier.Server.Transfers.Receiving.{get-update_transfer}

get-map :
    (f : TransferRow → TransferRow) (rows : Dict ℕ TransferRow) (id : ℕ)
    → get (map (λ (e : ℕ × TransferRow). (e.0, f e.1)) rows) id ≡ Option.map f (get rows id)
unfolding get
get-map f [] id = refl
get-map f ((j, row) ∷ rows) id = elim (Bool-cases (nat_eqb j id)) [
  | inl same ↦ rw same refl
  | inr other ↦ rw other (get-map f rows id)
]

flush-failed :
    (id : ℕ) (row : TransferRow) (t : Transfers)
    → get t.file_transfers id ≡ some row
    → row.status ≡ failed
    → (row' : TransferRow) × (get (flush_transfer_progress true id t).file_transfers id ≡ some row')
      × (row'.status ≡ failed)
unfolding flush_transfer_progress
flush-failed id row t listed e = elim (Option-cases (get t.transfer_progress id)) [
  | inl k ↦ rw (k, flush_transfer_progress) (row, listed, e)
  | inr (p, k) ↦ elim (Bool-cases (p.dirty && true)) [
    | inl due ↦
        rw (k, flush_transfer_progress, due)
          (
            saved p row,
            get-update_transfer id (saved p) t.file_transfers id
                ∙ rw (beq_refl id) (ap (Option.map (saved p)) listed),
            e,
          )
    | inr clean ↦ rw (k, flush_transfer_progress, clean) (row, listed, e)
  ]
]

resume-failed :
    (user_id id start_chunk : ℕ) (direction : Option Direction) (row : TransferRow) (t : Transfers)
    → get t.file_transfers id ≡ some row
    → row.status ≡ failed
    → (handle_resume_transfer true (some user_id) direction id start_chunk t).1 ≡ invalid_packet
unfolding handle_resume_transfer join_rows
resume-failed user_id id start_chunk direction row t listed e =
    let t' = flush_transfer_progress true id t in
    let (row', listed', e') = flush-failed id row t listed e in
    elim (Option-cases (get t'.files row'.file_id)) [
      | inl lost ↦ rw (listed', handle_resume_transfer, lost) refl
      | inr (file, there) ↦ elim (Bool-cases (row'.user_id == user_id)) [
        | inl mine ↦ rw (listed', handle_resume_transfer, there, mine, e') refl
        | inr other ↦ rw (listed', handle_resume_transfer, there, other) refl
      ]
    ]

store_chunk-ack :
    (now id i : ℕ) (bytes : List ℕ) (p : Progress) (t : Transfers)
    → (store_chunk true now id (some i) bytes p t).1 ≡ chunk_ack id i
unfolding store_chunk
store_chunk-ack now id i bytes p t = refl

-- An upload whose row is older than the timeout is marked as failed, however recent its entry in the
-- cache is. A chunk that follows is acknowledged all the same, but a client that asks to resume it gets
-- INVALID_PACKET.
pub check_transfer_timeouts-cached :
    (now timeout_seconds id i start_chunk user_id later : ℕ) (bytes : List ℕ)
    (direction : Option Direction) (p : Progress) (row : TransferRow) (t : Transfers)
    → get t.transfer_progress id ≡ some p
    → get t.file_transfers id ≡ some row
    → row.status ≡ in_progress
    → row.last_activity_at + timeout_seconds < now
    → let t' = check_transfer_timeouts true now timeout_seconds t in
      (Option.map (λ (r : TransferRow). r.status) (get t'.file_transfers id) ≡ some failed)
      × ((handle_upload_chunk true later id (some i) bytes t').1 ≡ chunk_ack id i)
      × ((handle_resume_transfer true (some user_id) direction id start_chunk t').1
          ≡ invalid_packet)
unfolding check_transfer_timeouts handle_upload_chunk find_progress
check_transfer_timeouts-cached now timeout_seconds id i start_chunk user_id later bytes direction p
      row t cached listed open_still old =
    let t' = check_transfer_timeouts true now timeout_seconds t in
    let late = lt→ltb (row.last_activity_at + timeout_seconds) now old in
    let failed_row : timed_out now timeout_seconds row ≡ record row { status = failed } =
      rw (open_still, late) refl in
    let listed' : get t'.file_transfers id ≡ some (record row { status = failed }) =
      get-map (timed_out now timeout_seconds) t.file_transfers id
      ∙ ap (Option.map (timed_out now timeout_seconds)) listed
      ∙ ap some failed_row in
    (
      ap (Option.map (λ (r : TransferRow). r.status)) listed',
      rw (cached, handle_upload_chunk) (store_chunk-ack later id i bytes p t'),
      resume-failed user_id id start_chunk direction (record row { status = failed }) t' listed'
          refl,
    )

-- ===== src/Transfers/Repository/Operations.antt =====
-- The transactions of transfers.repository.ts: creation, updates, deletions and the failing of stale
-- transfers, with the upload sessions that they keep in step and the audit events that they write.
-- The ids of audit events, which the code draws at random, come from `draw_id`.
use icedr.Prelude.{
  ℕ, String, Bool, true, false, Option, none, some, List, if◌then◌else◌, ◌==◌, length, str_eq,
}
use icedr.Prisma.{Client, Outcome, resolved, thrown, ◌>>=◌, ◌>>◌, return}
use icedr.Transfers.State.{TransferTaskStatus, completed}
use icedr.Transfers.Tables.{TransferTask, UploadSession, AuditEvent, TransferDb}
use icedr.Transfers.Repository.{TransferUpdateInput, TransferResponse, map_row}
use icedr.Transfers.Repository.Audit.{
  Run, record_audit, record_update_audit, NewTransfer, new_transfer, session_failure_code,
  is_synced_session, session_moved, is_open_session, is_claimed_session,
}
use icedr.Transfers.Repository.Updates.{
  TransferError, active_upload_operation, state_conflict, unique_violation, update_with_client,
}

module _ (prisma : Client) (draw_id : List AuditEvent → String) (now : ℕ) where
  insert_transfer : NewTransfer → Run prisma draw_id now (Unit {0})
  insert_transfer input db =
      elim (prisma.create TransferTask (λ row. str_eq row.id input.id) (new_transfer input now)
        db.transfers) [
          | none ↦ (thrown unique_violation, db)
          | some transfers ↦ (resolved tt, record db { transfers = transfers })
        ]

  unfoldable pub create_transfer : NewTransfer → Run prisma draw_id now TransferResponse
  unfolding insert_transfer record_audit
  create_transfer input = prisma.transaction TransferError TransferResponse TransferDb (do
    insert_transfer input
    let transfer = map_row (new_transfer input now) now
    record_audit prisma draw_id now "transfer.created" "workspace" transfer input.audit_metadata
    return transfer)

  unfoldable pub finish_update :
      Option TransferResponse
      → Bool
      → TransferUpdateInput
      → Run prisma draw_id now (Option TransferResponse)
  unfolding record_update_audit
  finish_update transfer false input = return transfer
  finish_update transfer true input = do
    record_update_audit prisma draw_id now transfer input
    return transfer

  unfoldable pub update :
      String
      → TransferUpdateInput
      → Option String
      → Run prisma draw_id now (Option TransferResponse)
  unfolding finish_update
  update id input owner = prisma.transaction TransferError (Option TransferResponse) TransferDb (do
    (transfer, changed) ← update_with_client prisma id owner input now
    finish_update transfer changed input)

  unfoldable pub assert_no_active_upload_operation : String → Run prisma draw_id now (Unit {0})
  assert_no_active_upload_operation transfer_id db =
      elim (prisma.find_first UploadSession (is_claimed_session transfer_id now) db.sessions) [
        | none ↦ (resolved tt, db)
        | some _ ↦ (thrown active_upload_operation, db)
      ]

  unfoldable pub assert_no_non_terminal_upload_session : String → Run prisma draw_id now (Unit {0})
  assert_no_non_terminal_upload_session transfer_id db =
      elim (prisma.find_first UploadSession (is_open_session transfer_id) db.sessions) [
        | none ↦ (resolved tt, db)
        | some _ ↦ (thrown active_upload_operation, db)
      ]

  move_session :
      String → TransferUpdateInput → TransferTaskStatus → Run prisma draw_id now (Unit {0})
  move_session transfer_id input status db =
      let (sessions, returned) =
        prisma.update_many_and_return UploadSession (is_synced_session transfer_id status now)
          (session_moved status (session_failure_code status input.failure_code) now) db.sessions in
      (
        if length returned == 1 then resolved tt else thrown state_conflict,
        record db { sessions = sessions },
      )

  unfoldable pub sync_upload_session_status :
      String → TransferUpdateInput → Option TransferTaskStatus → Run prisma draw_id now (Unit {0})
  unfolding move_session
  sync_upload_session_status transfer_id input none = return tt
  sync_upload_session_status transfer_id input (some completed) = return tt
  sync_upload_session_status transfer_id input (some status) = move_session transfer_id input status

  -- The `catch` of the two user controlled operations: an active operation is no result.
  abbrev pub catch_active :
      {A : Type 0} → A → Outcome TransferError A × TransferDb → Outcome TransferError A × TransferDb
  catch_active nothing (thrown active_upload_operation, db) = (resolved nothing, db)
  catch_active nothing (outcome, db) = (outcome, db)

  -- The steps behind a change, in one transaction with it.
  unfoldable pub follow_up :
      String
      → TransferUpdateInput
      → TransferResponse
      → Bool
      → Run prisma draw_id now (Option TransferResponse)
  unfolding assert_no_active_upload_operation sync_upload_session_status record_update_audit
  follow_up id input transfer false = return (some transfer)
  follow_up id input transfer true = do
    assert_no_active_upload_operation id
    sync_upload_session_status id input input.status
    record_update_audit prisma draw_id now (some transfer) input
    return (some transfer)

  unfoldable pub finish_user_update :
      String
      → TransferUpdateInput
      → Option TransferResponse
      → Bool
      → Run prisma draw_id now (Option TransferResponse)
  unfolding follow_up
  finish_user_update id input none changed = return none
  finish_user_update id input (some transfer) changed = follow_up id input transfer changed

  unfoldable pub user_update :
      String
      → TransferUpdateInput
      → Option String
      → Run prisma draw_id now (Option TransferResponse)
  unfolding finish_user_update
  user_update id input owner = do
    (transfer, changed) ← update_with_client prisma id owner input now
    finish_user_update id input transfer changed

  unfoldable pub update_user_controlled :
      String
      → TransferUpdateInput
      → Option String
      → Run prisma draw_id now (Option TransferResponse)
  unfolding user_update
  update_user_controlled id input owner db = catch_active none (
      prisma.transaction TransferError (Option TransferResponse) TransferDb
        (user_update id input owner) db)

-- ===== src/Transfers/Repository/Deletions.antt =====
-- The deletions of transfers.repository.ts, and `failStaleRunning`.
use icedr.Prelude.{
  ℕ, String, Bool, true, false, Option, none, some, List, [], ◌∷◌, map, if◌then◌else◌, ◌==◌, length,
}
use icedr.Prisma.{Client, resolved, ◌>>=◌, ◌>>◌, return, throw}
use icedr.Transfers.State.{failed, transfer_stalled}
use icedr.Transfers.Tables.{TransferTask, UploadSession, AuditEvent, TransferDb, claim_is_active}
use icedr.Transfers.Repository.{TransferResponse, map_row, is_upload_of}
use icedr.Transfers.Repository.Updates.{TransferError, state_conflict}
use icedr.Transfers.Repository.Audit.{
  Run, record_audit, is_stale_running, stalled, is_session_of_failed, session_moved,
}
use icedr.Transfers.Repository.Operations.{
  assert_no_active_upload_operation, assert_no_non_terminal_upload_session, catch_active,
}

module _ (prisma : Client) (draw_id : List AuditEvent → String) (now : ℕ) where
  find_transfer : String → Option String → Run prisma draw_id now (Option TransferTask)
  find_transfer id owner db =
      (resolved (prisma.find_first TransferTask (is_upload_of id owner) db.transfers), db)

  delete_rows : String → Option String → Run prisma draw_id now ℕ
  delete_rows id owner db =
      let (rows, count) = prisma.delete_many TransferTask (is_upload_of id owner) db.transfers in
      (resolved count, record db { transfers = rows })

  audit_deletion : TransferTask → List (String × String) → Run prisma draw_id now Bool
  audit_deletion row extra = do
    record_audit prisma draw_id now "transfer.deleted" "workspace" (map_row row now) extra
    return true

  delete_found :
      String
      → Option String
      → List (String × String)
      → Option TransferTask
      → Run prisma draw_id now Bool
  unfolding delete_rows audit_deletion
  delete_found id owner extra none = return false
  delete_found id owner extra (some row) = do
    count ← delete_rows id owner
    if count == 0 then return false else audit_deletion row extra

  unfoldable pub delete :
      String → Option String → List (String × String) → Run prisma draw_id now Bool
  unfolding find_transfer delete_found
  delete id owner extra =
      prisma.transaction TransferError Bool TransferDb
        (do found ← find_transfer id owner; delete_found id owner extra found)

  guard_deletion :
      String → TransferTask → List (String × String) → Run prisma draw_id now (Option Bool)
  unfolding audit_deletion
  guard_deletion id row extra = do
    assert_no_active_upload_operation prisma draw_id now id
    assert_no_non_terminal_upload_session prisma draw_id now id
    deleted ← audit_deletion row extra
    return (some deleted)

  user_delete_found :
      String
      → Option String
      → List (String × String)
      → Option TransferTask
      → Run prisma draw_id now (Option Bool)
  unfolding delete_rows guard_deletion
  user_delete_found id owner extra none = return (some false)
  user_delete_found id owner extra (some row) = do
    count ← delete_rows id owner
    if count == 1 then guard_deletion id row extra else return (some false)

  -- `none` is the `null` of an active operation.
  unfoldable pub delete_user_controlled :
      String → Option String → List (String × String) → Run prisma draw_id now (Option Bool)
  unfolding find_transfer user_delete_found
  delete_user_controlled id owner extra db = catch_active prisma draw_id now none (
      prisma.transaction TransferError (Option Bool) TransferDb
        (do found ← find_transfer id owner; user_delete_found id owner extra found) db)

  -- The transfers of the sessions whose completion claim is active.
  active_transfer_ids : Run prisma draw_id now (List String)
  active_transfer_ids db =
      let rows = prisma.find_many UploadSession (λ row. claim_is_active row now) db.sessions in
      (resolved (map (λ (row : UploadSession). row.transfer_id) rows), db)

  fail_rows :
      ℕ → Option String → Option String → List String → Run prisma draw_id now (List TransferTask)
  fail_rows cutoff workspace owner active db =
      let (rows, returned) =
        prisma.update_many_and_return TransferTask
          (is_stale_running cutoff workspace owner now active) (stalled now) db.transfers in
      (resolved returned, record db { transfers = rows })

  fail_sessions : List String → Run prisma draw_id now ℕ
  fail_sessions ids db =
      let (rows, returned) =
        prisma.update_many_and_return UploadSession (is_session_of_failed ids)
          (session_moved failed (some transfer_stalled) now) db.sessions in
      (resolved (length returned), record db { sessions = rows })

  unfoldable pub audit_failed : List TransferTask → Run prisma draw_id now (Unit {0})
  unfolding record_audit
  audit_failed [] = return tt
  audit_failed (row ∷ rows) = do
    record_audit prisma draw_id now "transfer.failed" "system" (map_row row now)
        (("actorName", "System") ∷ ("result", "failed") ∷ [])
    audit_failed rows

  fail_with_sessions : List TransferTask → Run prisma draw_id now (List TransferTask)
  unfolding fail_sessions
  fail_with_sessions [] = return []
  fail_with_sessions (row ∷ rows) = do
    let failed_rows = row ∷ rows
    count ← fail_sessions (map (λ (r : TransferTask). r.id) failed_rows)
    if count == length failed_rows then return failed_rows else throw state_conflict

  map_rows : List TransferTask → List TransferResponse
  map_rows = map (λ (row : TransferTask). map_row row now)

  unfoldable pub fail_stale_running :
      ℕ → Option String → Option String → Run prisma draw_id now (List TransferResponse)
  unfolding active_transfer_ids fail_rows fail_with_sessions map_rows
  fail_stale_running cutoff workspace owner =
      prisma.transaction TransferError (List TransferResponse) TransferDb (do
        active ← active_transfer_ids
        rows ← fail_rows cutoff workspace owner active
        synced ← fail_with_sessions rows
        audit_failed synced
        return (map_rows synced))

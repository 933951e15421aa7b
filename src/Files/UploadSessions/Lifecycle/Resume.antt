-- ===== src/Files/UploadSessions/Lifecycle/Resume.antt =====
-- `resume` of upload-session-lifecycle.ts: the transfer and its session run again, together.
use icedr.Prelude.{
  same_time, ℕ, String, Bool, true, not, ◌&&◌, Option, none, some, List, [], ◌∷◌, if◌then◌else◌,
  leb, ltb, str_eq, any,
}
use icedr.Prisma.{Client, ◌>>=◌, ◌>>◌, return, throw}
use icedr.Transfers.State.{
  TransferTaskStatus, running, paused, failed, status_text, same_status,
  can_transition_transfer_task, get_transfer_task_transition_sources,
}
use icedr.Transfers.Tables.{
  TransferTask, UploadSession, TransferDb, status_in, unexpired, claim_is_free,
}
use icedr.Transfers.Repository.{ProgressValue, normalize_progress}
use icedr.Files.UploadSessions.{
  SessionError, transfer_state_conflict, session_state_conflict, UploadSessionResponse,
  map_upload_session, SessionAction, update_transfers, update_sessions, find_session,
  catch_conflict,
}

-- `['running', 'paused', 'failed'].includes(expectedStatus) && canTransition(expectedStatus, 'running')`
abbrev pub is_resumable : TransferTaskStatus → Bool
is_resumable status =
    any (same_status status) (running ∷ paused ∷ failed ∷ [])
    && can_transition_transfer_task (status_text status) (status_text running)

-- The part of the `where` that both updates of the transfer share.
abbrev pub can_run_again : String → ℕ → TransferTask → Bool
can_run_again transfer_id now row =
    str_eq row.id transfer_id
    && str_eq row.transfer_type "upload"
    && status_in (get_transfer_task_transition_sources running) row.status
    && unexpired row.expires_at now

abbrev pub run_again : Option ℕ → ℕ → TransferTask → TransferTask
run_again expires_at now row = record row {
  status = status_text running;
  failure_code = none;
  expires_at = expires_at;
  updated_at = now;
}

abbrev pub session_can_run_again : String → TransferTaskStatus → Option ℕ → ℕ → UploadSession → Bool
session_can_run_again id expected expires_at now row =
    str_eq row.id id
    && str_eq row.status (status_text expected)
    && same_time row.expires_at expires_at
    && claim_is_free row now

abbrev pub session_run_again : ℕ → UploadSession → UploadSession
session_run_again now row = record row {
  status = status_text running;
  failure_code = none;
  completion_token = none;
  completion_started_at = none;
  updated_at = now;
}

abbrev pub is_past : Option ℕ → ℕ → Bool
is_past none now = true
is_past (some t) now = leb t now

module _ (prisma : Client) where
  -- The second update, which leaves a greater progress as it is.
  unfoldable pub keep_progress :
      String → ℕ → Option ℕ → ℕ → List TransferTask → SessionAction (List TransferTask)
  keep_progress transfer_id progress expires_at now [] =
      update_transfers prisma
        (λ row. can_run_again transfer_id now row && ltb progress row.progress)
        (run_again expires_at now)
  keep_progress transfer_id progress expires_at now (row ∷ rows) = return (row ∷ rows)

  unfoldable pub assert_one : List TransferTask → SessionAction (Unit {0})
  assert_one (row ∷ []) = return tt
  assert_one _ = throw transfer_state_conflict

  unfoldable pub assert_running :
      ℕ → List UploadSession → SessionAction (Option UploadSessionResponse)
  assert_running now (row ∷ []) =
      if str_eq row.status (status_text running)
      then return (some (map_upload_session row now))
      else throw session_state_conflict
  assert_running now _ = throw session_state_conflict

  unfoldable pub resume_transaction :
      UploadSession → TransferTaskStatus → ℕ → ℕ → SessionAction (Option UploadSessionResponse)
  unfolding keep_progress assert_one assert_running
  resume_transaction session expected progress now = do
    raised ←
        update_transfers prisma
          (λ row. can_run_again session.transfer_id now row && leb row.progress progress)
          (λ row. record (run_again session.expires_at now row) { progress = progress })
    transfer_rows ← keep_progress session.transfer_id progress session.expires_at now raised
    assert_one transfer_rows
    rows ←
        update_sessions prisma (session_can_run_again session.id expected session.expires_at now)
          (session_run_again now)
    assert_running now rows

  unfoldable pub resume_found :
      TransferTaskStatus
      → ℕ
      → ℕ
      → (TransferDb → TransferDb)
      → Option UploadSession
      → SessionAction (Option UploadSessionResponse)
  unfolding resume_transaction
  resume_found expected progress now between none = return none
  resume_found expected progress now between (some session) =
      if is_past session.expires_at now then return none else (λ db. catch_conflict (
        prisma.transaction SessionError (Option UploadSessionResponse) TransferDb
          (resume_transaction session expected progress now) (between db)))

  unfoldable pub resume :
      String
      → TransferTaskStatus
      → ProgressValue
      → ℕ
      → (between : TransferDb → TransferDb) → SessionAction (Option UploadSessionResponse)
  unfolding resume_found
  resume id expected progress now between = if not (is_resumable expected) then return none else (do
    session ← find_session prisma (λ row. str_eq row.id id)
    resume_found expected (normalize_progress progress) now between session)

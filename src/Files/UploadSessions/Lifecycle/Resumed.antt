-- ===== src/Files/UploadSessions/Lifecycle/Resumed.antt =====
-- What `resume` of upload-session-lifecycle.ts leaves behind.
use icedr.Prelude.{
  ◌≡◌, refl, ◌⊎◌, inl, inr, ℕ, String, Bool, true, not, ◌&&◌, Option, some, List, [], ◌∷◌, map,
  filter, any, find?, leb, ltb, arith, eq_iff, str_eq, Bool-cases,
}
use icedr.Prisma.{Client, IsPrisma, by_in_memory, in_memory, update_where, roll_back}
use icedr.Prisma.Ensures.{Ensures, then_run-Ensures, any-update_where}
use icedr.Transfers.State.{TransferTaskStatus}
use icedr.Transfers.Tables.{TransferTask, UploadSession, TransferDb}
use icedr.Transfers.Repository.{ProgressValue, normalize_progress}
use icedr.Files.UploadSessions.{
  map_upload_session, update_transfers, update_sessions, find_session, catch_conflict,
}
use icedr.Files.UploadSessions.Endings.Agreement.{is_ended, HasStatus, BothEnded}
use icedr.Files.UploadSessions.Endings.Together.{
  IsTogether, catch_conflict-IsTogether, guard-IsTogether,
}
use icedr.Files.UploadSessions.Lifecycle.Resume.{
  is_resumable, is_past, can_run_again, run_again, session_can_run_again, session_run_again,
  keep_progress, assert_one, assert_running, resume_transaction, resume_found, resume,
}

module _ (session : UploadSession) (now : ℕ) where
  abbrev Runs : TransferDb → Type 0
  Runs db = HasStatus session.transfer_id "running" db

  abbrev RunsOrNone : List TransferTask → TransferDb → Type 0
  RunsOrNone rows db = (rows ≡ []) ⊎ Runs db

  updated_rows :
      (test : TransferTask → Bool) (patch : TransferTask → TransferTask)
      → ((t : TransferTask)
          → test t ≡ true
          → is_ended session.transfer_id "running" (patch t) ≡ true)
      → (before rows : List TransferTask) → map patch (filter test before) ≡ rows
      → (rows ≡ [])
        ⊎ (any (is_ended session.transfer_id "running") (update_where test patch before) ≡ true)
  updated_rows test patch h before [] e = inl refl
  updated_rows test patch h before (row ∷ rows) e =
      inr (any-update_where test patch (is_ended session.transfer_id "running") h before e)

  update_transfers-Ensures :
      (test : TransferTask → Bool) (patch : TransferTask → TransferTask)
      → ((t : TransferTask)
          → test t ≡ true
          → is_ended session.transfer_id "running" (patch t) ≡ true)
      → (db : TransferDb) → Ensures RunsOrNone (update_transfers in_memory test patch db)
  unfolding update_transfers
  update_transfers-Ensures test patch h db =
      updated_rows test patch h db.transfers (map patch (filter test db.transfers)) refl

  keep_progress-Ensures :
      (progress : ℕ) (raised : List TransferTask) (db : TransferDb)
      → RunsOrNone raised db
      → Ensures RunsOrNone
          (keep_progress in_memory session.transfer_id progress session.expires_at now raised db)
  unfolding keep_progress
  keep_progress-Ensures progress [] db h =
      update_transfers-Ensures
        (λ row. can_run_again session.transfer_id now row && ltb progress row.progress)
        (run_again session.expires_at now) (λ t k. ground (arith, eq_iff "running" "running")) db
  keep_progress-Ensures progress (row ∷ rows) db h = h

  assert_one-Ensures :
      (rows : List TransferTask) (db : TransferDb)
      → RunsOrNone rows db
      → Ensures (λ _ d. Runs d) (assert_one in_memory rows db)
  unfolding assert_one
  assert_one-Ensures [] db h = tt
  assert_one-Ensures (row ∷ []) db (inl e) = cc
  assert_one-Ensures (row ∷ []) db (inr h) = h
  assert_one-Ensures (row ∷ other ∷ rows) db h = tt

  assert_running-Ensures :
      (rows : List UploadSession) (db : TransferDb)
      → Runs db
      → Ensures (BothEnded session.transfer_id "running") (assert_running in_memory now rows db)
  unfolding assert_running map_upload_session
  assert_running-Ensures [] db h = tt
  assert_running-Ensures (row ∷ []) db h = elim (Bool-cases (str_eq row.status "running")) [
    | inl e ↦ rw e ((eq_iff row.status "running").0 e, h)
    | inr e ↦ rw e tt
  ]
  assert_running-Ensures (row ∷ other ∷ rows) db h = tt

  resume_transaction-Ensures :
      (expected : TransferTaskStatus) (progress : ℕ) (db : TransferDb)
      → Ensures
          (BothEnded session.transfer_id "running")
          (resume_transaction in_memory session expected progress now db)
  unfolding resume_transaction update_sessions
  resume_transaction-Ensures expected progress db =
      then_run-Ensures RunsOrNone (BothEnded session.transfer_id "running") _ _
        (update_transfers-Ensures
          (λ row. can_run_again session.transfer_id now row && leb row.progress progress)
          (λ row. record (run_again session.expires_at now row) { progress = progress })
          (λ t k. ground (arith, eq_iff "running" "running")) db)
        λ raised d h.
          then_run-Ensures RunsOrNone (BothEnded session.transfer_id "running") _ _
            (keep_progress-Ensures progress raised d h)
            λ rows d' h'.
              then_run-Ensures (λ _ d''. Runs d'') (BothEnded session.transfer_id "running") _ _
                (assert_one-Ensures rows d' h')
                λ _ d'' h''.
                  then_run-Ensures (λ _ d3. Runs d3) (BothEnded session.transfer_id "running")
                    (update_sessions in_memory
                      (session_can_run_again session.id expected session.expires_at now)
                      (session_run_again now) d'')
                    (assert_running in_memory now) h''
                    (λ sessions d3 h3. assert_running-Ensures sessions d3 h3)

module _ (now : ℕ) (between : TransferDb → TransferDb) (db : TransferDb)
    (current : UploadSession) where
  resume_found-IsTogether :
      (expected : TransferTaskStatus) (progress : ℕ) (found : Option UploadSession)
      → found ≡ some current
      → IsTogether current.transfer_id "running" db
          (between db)
          (resume_found in_memory expected progress now between found db)
  unfolding resume_found
  resume_found-IsTogether expected progress found e = rw e (
      guard-IsTogether current.transfer_id "running" db (between db)
        (is_past current.expires_at now)
        (λ d. catch_conflict (
          roll_back (between d)
            (resume_transaction in_memory current expected progress now (between d))))
        (catch_conflict-IsTogether current.transfer_id "running" db (between db)
          (resume_transaction in_memory current expected progress now (between db))
          (resume_transaction-Ensures current now expected progress (between db))))

  resume-in_memory :
      (id : String) (expected : TransferTaskStatus) (progress : ProgressValue)
      → find? (λ row. str_eq row.id id) db.sessions ≡ some current
      → IsTogether current.transfer_id "running" db
          (between db)
          (resume in_memory id expected progress now between db)
  unfolding resume find_session
  resume-in_memory id expected progress e =
      guard-IsTogether current.transfer_id "running" db (between db) (not (is_resumable expected))
        (λ d.
          resume_found in_memory expected (normalize_progress progress) now between
            (find? (λ row. str_eq row.id id) d.sessions) d)
        (resume_found-IsTogether expected (normalize_progress progress)
          (find? (λ row. str_eq row.id id) db.sessions) e)

-- `resume` of a session that is in the table, whatever other requests write after it was read:
-- either the session that it returns is running and the table has its transfer as running, or it
-- returns no session and the tables are as they were or as the other requests left them.
pub resume-IsTogether :
    (prisma : Client)
    → IsPrisma prisma
    → (now : ℕ) (between : TransferDb → TransferDb) (db : TransferDb) (current : UploadSession)
      (id : String) (expected : TransferTaskStatus) (progress : ProgressValue)
    → find? (λ row. str_eq row.id id) db.sessions ≡ some current
    → IsTogether current.transfer_id "running" db
        (between db)
        (resume prisma id expected progress now between db)
resume-IsTogether prisma laws now between db current id expected progress e =
    by_in_memory
      (λ c.
        IsTogether current.transfer_id "running" db (between db)
          (resume c id expected progress now between db))
      laws (resume-in_memory now between db current id expected progress e)

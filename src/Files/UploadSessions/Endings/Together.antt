-- ===== src/Files/UploadSessions/Endings/Together.antt =====
-- What `cancel` and `transitionFailure` of upload-session-lifecycle.ts leave behind.
use icedr.Prelude.{
  ◌≡◌, refl, ◌⊎◌, inl, inr, ℕ, String, Bool, true, false, not, ◌&&◌, Option, none, some, List,
  find?, arith, str_eq, same_text, if◌then◌else◌,
}
use icedr.Prisma.{
  Client, IsPrisma, by_in_memory, in_memory, Outcome, resolved, thrown, roll_back, return,
}
use icedr.Prisma.Ensures.{Ensures}
use icedr.Transfers.State.{
  TransferTaskStatus, status_text, TransferTaskFailureCode, can_transition_transfer_task,
  has_elapsed,
}
use icedr.Transfers.Tables.{TransferTask, UploadSession, AuditEvent, TransferDb}
use icedr.Files.UploadSessions.{
  SessionError, transfer_state_conflict, session_state_conflict, unique_violation,
  write_claim_changed, record_not_found, UploadSessionResponse, SessionAction, find_session,
  catch_conflict,
}
use icedr.Files.UploadSessions.Endings.{Ending, run_ending}
use icedr.Files.UploadSessions.Endings.Requests.{
  failure_ending, ended_with_code, fail_found, transition_failure, cancel_ending, ended_with_status,
  cancel_found, cancel,
}
use icedr.Files.UploadSessions.Endings.Agreement.{
  is_ended, HasStatus, BothEnded, ending_transaction-Ensures,
}

-- A session that is returned has the status, and so has a transfer with the id; without one, null or
-- an exception, the tables are as they were, or as the other requests left them.
abbrev pub IsTogether :
    String
    → String
    → (before meanwhile : TransferDb)
    → Outcome SessionError (Option UploadSessionResponse) × TransferDb
    → Type 0
IsTogether transfer_id text before meanwhile (resolved (some r), after) =
    (r.row.status ≡ text) × HasStatus transfer_id text after
IsTogether transfer_id text before meanwhile (resolved none, after) =
    (after ≡ before) ⊎ (after ≡ meanwhile)
IsTogether transfer_id text before meanwhile (thrown e, after) =
    (after ≡ before) ⊎ (after ≡ meanwhile)

module _ (transfer_id text : String) (before meanwhile : TransferDb) where
  pub catch_conflict-IsTogether :
      (p : Outcome SessionError (Option UploadSessionResponse) × TransferDb)
      → Ensures (BothEnded transfer_id text) p
      → IsTogether transfer_id text before meanwhile (catch_conflict (roll_back meanwhile p))
  catch_conflict-IsTogether (resolved none, after) h = absurd h
  catch_conflict-IsTogether (resolved (some r), after) h = h
  catch_conflict-IsTogether (thrown transfer_state_conflict, after) h = inr refl
  catch_conflict-IsTogether (thrown session_state_conflict, after) h = inr refl
  catch_conflict-IsTogether (thrown unique_violation, after) h = inr refl
  catch_conflict-IsTogether (thrown write_claim_changed, after) h = inr refl
  catch_conflict-IsTogether (thrown record_not_found, after) h = inr refl

  pub guard-IsTogether :
      (refused : Bool) (next : SessionAction (Option UploadSessionResponse))
      → IsTogether transfer_id text before meanwhile (next before)
      → IsTogether transfer_id text before meanwhile
          ((if refused then return none else next) before)
  guard-IsTogether true next h = inl refl
  guard-IsTogether false next h = h

module _ (draw_id : List AuditEvent → String) (now : ℕ) (between : TransferDb → TransferDb)
    (db : TransferDb) (current : UploadSession) where
  run_ending-IsTogether :
      (ending : Ending) (ended_before : TransferTask → Bool)
      → ((t : TransferTask)
          → ended_before t ≡ true
          → is_ended current.transfer_id (status_text ending.status) t ≡ true)
      → (already : Bool) (stored : String)
      → IsTogether current.transfer_id
          (status_text ending.status)
          db
          (between db)
          (run_ending in_memory draw_id now current ending ended_before already stored (between db))
  unfolding run_ending
  run_ending-IsTogether ending ended_before weaker already stored =
      catch_conflict-IsTogether current.transfer_id (status_text ending.status) db (between db) _ (
        ending_transaction-Ensures draw_id now current ending ended_before weaker already stored
          (between db))

  cancel_found-IsTogether :
      (expected : TransferTaskStatus) (ending : Ending) (found : Option UploadSession)
      → found ≡ some current
      → IsTogether current.transfer_id
          (status_text ending.status)
          db
          (between db)
          (cancel_found in_memory draw_id now expected ending between found db)
  unfolding cancel_found
  cancel_found-IsTogether expected ending found e =
      let ended_before = ended_with_status in_memory draw_id now current ending in
      let already = str_eq current.status "canceled" in
      rw e (
        guard-IsTogether current.transfer_id (status_text ending.status) db (between db)
          (not already && not (str_eq current.status (status_text expected)))
          (λ d.
            run_ending in_memory draw_id now current ending ended_before already
              (status_text expected) (between d))
          (run_ending-IsTogether ending ended_before (λ t h. ground arith) already
            (status_text expected)))

  cancel-in_memory :
      (id : String) (expected : TransferTaskStatus) (extra : List (String × String))
      → find? (λ row. str_eq row.id id) db.sessions ≡ some current
      → IsTogether current.transfer_id "canceled" db
          (between db)
          (cancel in_memory draw_id now id expected extra between db)
  unfolding cancel find_session
  cancel-in_memory id expected extra e =
      guard-IsTogether current.transfer_id "canceled" db (between db)
        (not (can_transition_transfer_task (status_text expected) "canceled"))
        (λ d.
          cancel_found in_memory draw_id now expected (cancel_ending in_memory draw_id now extra)
            between (find? (λ row. str_eq row.id id) d.sessions) d)
        (cancel_found-IsTogether expected (cancel_ending in_memory draw_id now extra)
          (find? (λ row. str_eq row.id id) db.sessions) e)

  fail_found-IsTogether :
      (expires : Bool) (ending : Ending) (found : Option UploadSession)
      → found ≡ some current
      → IsTogether current.transfer_id
          (status_text ending.status)
          db
          (between db)
          (fail_found in_memory draw_id now expires ending between found db)
  unfolding fail_found
  fail_found-IsTogether expires ending found e =
      let ended_before = ended_with_code in_memory draw_id now current ending in
      let already =
        str_eq current.status (status_text ending.status)
        && same_text current.failure_code ending.failure_code in
      let elapsed = has_elapsed current.expires_at now in
      let end = λ (d : TransferDb).
        run_ending in_memory draw_id now current ending ended_before already current.status
          (between d) in
      let in_time = not (if expires then elapsed else not elapsed) in
      rw e (
        guard-IsTogether current.transfer_id (status_text ending.status) db (between db)
          (not already
            && not (can_transition_transfer_task current.status (status_text ending.status)))
          (if in_time then return none else end)
          (guard-IsTogether current.transfer_id (status_text ending.status) db (between db) in_time
            end
            (run_ending-IsTogether ending ended_before (λ t h. ground arith) already
              current.status)))

  transition_failure-in_memory :
      (id : String) (expires : Bool) (code : Option TransferTaskFailureCode)
      (extra : List (String × String))
      → find? (λ row. str_eq row.id id) db.sessions ≡ some current
      → IsTogether current.transfer_id
          (if expires then "expired" else "failed")
          db
          (between db)
          (transition_failure in_memory draw_id now id expires code extra between db)
  unfolding transition_failure find_session
  transition_failure-in_memory id true code extra e =
      fail_found-IsTogether true (failure_ending in_memory draw_id now true code extra)
        (find? (λ row. str_eq row.id id) db.sessions) e
  transition_failure-in_memory id false code extra e =
      fail_found-IsTogether false (failure_ending in_memory draw_id now false code extra)
        (find? (λ row. str_eq row.id id) db.sessions) e

-- `cancel` of a session that is in the table, whatever other requests write after it was read:
-- either the session that it returns is canceled and the table has its transfer as canceled, or it
-- returns no session and the tables are as they were or as the other requests left them.
pub cancel-IsTogether :
    (prisma : Client)
    → IsPrisma prisma
    → (draw_id : List AuditEvent → String) (now : ℕ) (between : TransferDb → TransferDb)
      (db : TransferDb) (current : UploadSession) (id : String) (expected : TransferTaskStatus)
      (extra : List (String × String))
    → find? (λ row. str_eq row.id id) db.sessions ≡ some current
    → IsTogether current.transfer_id "canceled" db
        (between db)
        (cancel prisma draw_id now id expected extra between db)
cancel-IsTogether prisma laws draw_id now between db current id expected extra e =
    by_in_memory
      (λ c.
        IsTogether current.transfer_id "canceled" db (between db)
          (cancel c draw_id now id expected extra between db))
      laws (cancel-in_memory draw_id now between db current id expected extra e)

-- `transitionFailure` of a session that is in the table, whatever other requests write after it was
-- read: either the session that it returns has expired or failed, as asked, and the table has its
-- transfer in that status too, or it returns no session and the tables are as they were or as the
-- other requests left them.
pub transition_failure-IsTogether :
    (prisma : Client)
    → IsPrisma prisma
    → (draw_id : List AuditEvent → String) (now : ℕ) (between : TransferDb → TransferDb)
      (db : TransferDb) (current : UploadSession) (id : String) (expires : Bool)
      (code : Option TransferTaskFailureCode) (extra : List (String × String))
    → find? (λ row. str_eq row.id id) db.sessions ≡ some current
    → IsTogether current.transfer_id
        (if expires then "expired" else "failed")
        db
        (between db)
        (transition_failure prisma draw_id now id expires code extra between db)
transition_failure-IsTogether prisma laws draw_id now between db current id expires code extra e =
    by_in_memory
      (λ c.
        IsTogether current.transfer_id (if expires then "expired" else "failed") db (between db)
          (transition_failure c draw_id now id expires code extra between db))
      laws (transition_failure-in_memory draw_id now between db current id expires code extra e)

-- ===== src/Files/UploadSessions/Completion/Finished.antt =====
-- What `complete`, `fail` and `cancel` of upload-session-completion.ts leave behind.
use icedr.Prelude.{◌≡◌, refl, ℕ, String, Bool, true, Option, none, some, List, [], ◌∷◌, arith}
use icedr.Prisma.{Client, in_memory}
use icedr.Prisma.Ensures.{Ensures}
use icedr.Transfers.State.{status_text, has_elapsed, TransferTaskFailureCode}
use icedr.Transfers.Tables.{UploadSession, AuditEvent, TransferDb}
use icedr.Files.UploadSessions.{UploadSessionResponse, SessionAction}
use icedr.Files.UploadSessions.Endings.Agreement.{HasStatus}
use icedr.Files.UploadSessions.Completion.{only_if, require_session, assert_session}
use icedr.Files.UploadSessions.Completion.Finishing.{
  Finish, completes, fails, cancels, finish_status, complete, fail, cancel,
}

test_of_only_if :
    (test : UploadSession → Bool) (rows : List UploadSession) {row : UploadSession}
    → only_if test rows ≡ some row
    → test row ≡ true
test_of_only_if test [] e = cc
test_of_only_if test (row ∷ []) e = ground arith
test_of_only_if test (row ∷ other ∷ rows) e = cc

module _ (transfer_id text : String) where
  require_session-Ensures :
      (now : ℕ) (o : Option UploadSession) (db : TransferDb)
      → ((row : UploadSession) → o ≡ some row → row.status ≡ text)
      → HasStatus transfer_id text db
      → Ensures
          (λ row d. (row.status ≡ text) × HasStatus transfer_id text d)
          (require_session in_memory now o db)
  unfolding require_session
  require_session-Ensures now none db sound h = tt
  require_session-Ensures now (some row) db sound h = (sound row refl, h)

  pub assert_session-Ensures :
      (test : UploadSession → Bool) (now : ℕ)
      → ((row : UploadSession) → test row ≡ true → row.status ≡ text)
      → (rows : List UploadSession) (db : TransferDb) → HasStatus transfer_id text db
      → Ensures
          (λ row d. (row.status ≡ text) × HasStatus transfer_id text d)
          (assert_session in_memory now test rows db)
  unfolding assert_session
  assert_session-Ensures test now sound rows db h =
      require_session-Ensures now (only_if test rows) db
        (λ row e. sound row (test_of_only_if test rows e)) h

module _ (draw_id : List AuditEvent → String) (now : ℕ) (session : UploadSession) (token : String)
    (finish : Finish) (extra : List (String × String)) where
  abbrev Synced : TransferDb → Type 0
  Synced db = HasStatus session.transfer_id (status_text (finish_status finish)) db

-- One of the three operations, on a session that was read: with the status that it gives.
pub data Request : Type 0 where
  to_complete : String → Request
  to_fail : TransferTaskFailureCode → Request
  to_cancel : Request

abbrev pub finish_of : Request → ℕ → UploadSession → Finish
finish_of (to_complete node_id) now session = completes node_id
finish_of (to_fail code) now session = fails code (has_elapsed session.expires_at now)
finish_of to_cancel now session = cancels

abbrev pub requested :
    Request
    → Client
    → (List AuditEvent → String)
    → ℕ
    → String
    → String
    → List (String × String)
    → (TransferDb → TransferDb)
    → SessionAction (Option UploadSessionResponse)
requested (to_complete node_id) c draw_id now id token extra between =
    complete c draw_id now id token node_id extra between
requested (to_fail code) c draw_id now id token extra between =
    fail c draw_id now id token code extra between
requested to_cancel c draw_id now id token extra between =
    cancel c draw_id now id token extra between

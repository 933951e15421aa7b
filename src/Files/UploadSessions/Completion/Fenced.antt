-- ===== src/Files/UploadSessions/Completion/Fenced.antt =====
-- What a request can do to an upload whose claim it does not hold.
use icedr.Prelude.{
  ◌≡◌, refl, ap, ◌⊎◌, inl, inr, ℕ, String, Bool, false, ◌&&◌, Option, none, some, List, [], any,
  find?, arith, str_eq, eq_iff, is_none, is_text, any_of_find?,
}
use icedr.Prisma.{Client, IsPrisma, by_in_memory, in_memory, Outcome, resolved}
use icedr.Prisma.Ensures.{any-eq-false_mono, update_where_none, filter_none}
use icedr.Transfers.State.{has_elapsed}
use icedr.Transfers.Tables.{TransferTask, UploadSession, AuditEvent, TransferDb}
use icedr.Files.UploadSessions.{
  SessionError, UploadSessionResponse, SessionAction, update_sessions, find_transfer, find_session,
}
use icedr.Files.UploadSessions.Completion.{
  owns, owns_in_time, find_session_by_id, refresh_with, refresh_found, refresh, refresh_transaction,
  mark_storage_finalized, persist_node,
}
use icedr.Files.UploadSessions.Completion.Finishing.{
  Finish, completes, fails, cancels, finish_transaction, finish_found, complete, fail, cancel,
}
use icedr.Files.UploadSessions.Completion.Finished.{
  Request, to_complete, to_fail, to_cancel, requested,
}
use icedr.Files.UploadSessions.Completion.Parts.{UploadPartInput, commit_owned, commit_write}
use icedr.Files.UploadSessions.Completion.Fencing.{
  catch-Conflicts, finish_transaction-Conflicts, refresh_transaction-Conflicts,
}

-- Null, and tables as they were or as other requests left them.
abbrev pub IsRefused :
    (before meanwhile : TransferDb)
    → Outcome SessionError (Option UploadSessionResponse) × TransferDb
    → Type 0
IsRefused before meanwhile p = (p.0 ≡ resolved none) × ((p.1 ≡ before) ⊎ (p.1 ≡ meanwhile))

-- No running session with the id is claimed with the token.
abbrev pub NotOwned : String → String → TransferDb → Type 0
NotOwned id token db =
    any
      (λ row. str_eq row.id id && str_eq row.status "running" && is_text row.completion_token token)
      db.sessions
    ≡ false

-- What the holder of a claim may do. Of `refresh`, other requests write after its two reads.
pub data TokenOperation : Type 0 where
  refreshes marks : TokenOperation
  persists : String → TokenOperation
  requests : Request → TokenOperation
  commits : UploadPartInput → TokenOperation

abbrev pub run_with_token :
    TokenOperation
    → Client
    → (List AuditEvent → String)
    → ℕ
    → String
    → String
    → List (String × String)
    → (TransferDb → TransferDb)
    → SessionAction (Option UploadSessionResponse)
run_with_token refreshes c draw_id now id token extra between =
    refresh c now id token (λ d. d) between
run_with_token marks c draw_id now id token extra between =
    λ db. mark_storage_finalized c now id token (between db)
run_with_token (persists node_id) c draw_id now id token extra between =
    λ db. persist_node c now id token node_id (between db)
run_with_token (requests request) c draw_id now id token extra between =
    requested request c draw_id now id token extra between
run_with_token (commits input) c draw_id now id token extra between =
    λ db. commit_write c now token (record input { session_id = id }) (between db)

pub found_id :
    (id : String) (rows : List UploadSession) {session : UploadSession}
    → find? (λ row. str_eq row.id id) rows ≡ some session
    → session.id ≡ id
found_id id rows {session} e =
    (eq_iff session.id id).0 (any_of_find? (λ row. str_eq row.id id) rows e).0

pub IsRefused-of_eq :
    (before meanwhile : TransferDb)
    (p : Outcome SessionError (Option UploadSessionResponse) × TransferDb)
    → p ≡ (resolved none, meanwhile)
    → IsRefused before meanwhile p
IsRefused-of_eq before meanwhile p e = (ap (λ q. q.0) e, inr (ap (λ q. q.1) e))

module _ (draw_id : List AuditEvent → String) (now : ℕ) (id token : String)
    (extra : List (String × String)) (between : TransferDb → TransferDb) (db : TransferDb) where
  finish_found-IsRefused :
      (choose : UploadSession → Finish) (found : Option UploadSession)
      → find? (λ row. str_eq row.id id) db.sessions ≡ found
      → NotOwned id token (between db)
      → IsRefused db
          (between db)
          (finish_found in_memory draw_id now token choose extra between found db)
  unfolding finish_found
  finish_found-IsRefused choose none e h = (refl, inl refl)
  finish_found-IsRefused choose (some session) e h = IsRefused-of_eq db (between db) _ (
      catch-Conflicts (between db)
        (finish_transaction in_memory draw_id now session token (choose session) extra (between db))
        (finish_transaction-Conflicts draw_id now (between db) session token (choose session) extra
          (rw (found_id id db.sessions e) h)))

  refresh_with-IsRefused :
      (session : UploadSession) (found : Option TransferTask)
      → NotOwned id token (between db)
      → IsRefused db (between db) (refresh_with in_memory now id token between session found db)
  unfolding refresh_with
  refresh_with-IsRefused session none h = (refl, inl refl)
  refresh_with-IsRefused session (some transfer) h = IsRefused-of_eq db (between db) _ (
      catch-Conflicts (between db)
        (refresh_transaction in_memory now id token session transfer (between db))
        (refresh_transaction-Conflicts draw_id now (between db) id token session transfer h))

  refresh_found-IsRefused :
      (found : Option UploadSession)
      → NotOwned id token (between db)
      → IsRefused db (between db) (refresh_found in_memory now id token (λ d. d) between found db)
  unfolding refresh_found find_transfer
  refresh_found-IsRefused none h = (refl, inl refl)
  refresh_found-IsRefused (some session) h =
      refresh_with-IsRefused session (find? (λ row. str_eq row.id session.transfer_id) db.transfers)
        h

  NotOwned-in_time :
      (d : TransferDb) → NotOwned id token d → any (owns_in_time id token now) d.sessions ≡ false
  NotOwned-in_time d h =
      any-eq-false_mono (owns_in_time id token now) (owns id token) (λ row k. ground arith)
        d.sessions h

  NotOwned-unfinalized :
      (d : TransferDb)
      → NotOwned id token d
      → any (λ row. owns_in_time id token now row && is_none row.storage_finalized_at) d.sessions
        ≡ false
  NotOwned-unfinalized d h =
      any-eq-false_mono (λ row. owns_in_time id token now row && is_none row.storage_finalized_at)
        (owns id token) (λ row k. ground arith) d.sessions h

  -- A single update that no session fits.
  update_sessions-eq :
      (test : UploadSession → Bool) (patch : UploadSession → UploadSession) (d : TransferDb)
      → any test d.sessions ≡ false
      → update_sessions in_memory test patch d ≡ (resolved [], d)
  unfolding update_sessions
  update_sessions-eq test patch d h =
      rw (update_where_none test patch d.sessions h, filter_none test patch d.sessions h) refl

  token_operation-in_memory :
      (operation : TokenOperation)
      → NotOwned id token (between db)
      → IsRefused db
          (between db)
          (run_with_token operation in_memory draw_id now id token extra between db)
  unfolding refresh mark_storage_finalized persist_node complete fail cancel commit_write
      commit_owned find_session_by_id find_session
  token_operation-in_memory refreshes h =
      refresh_found-IsRefused (find? (λ row. str_eq row.id id) db.sessions) h
  token_operation-in_memory marks h =
      rw
        (update_sessions-eq (owns_in_time id token now) _ (between db)
          (NotOwned-in_time (between db) h))
        (refl, inr refl)
  token_operation-in_memory (persists node_id) h =
      rw
        (update_sessions-eq (owns_in_time id token now) _ (between db)
          (NotOwned-in_time (between db) h))
        (refl, inr refl)
  token_operation-in_memory (requests (to_complete node_id)) h =
      finish_found-IsRefused (λ _. completes node_id) (find? (λ row. str_eq row.id id) db.sessions)
        refl h
  token_operation-in_memory (requests (to_fail code)) h =
      finish_found-IsRefused (λ row. fails code (has_elapsed row.expires_at now))
        (find? (λ row. str_eq row.id id) db.sessions) refl h
  token_operation-in_memory (requests to_cancel) h =
      finish_found-IsRefused (λ _. cancels) (find? (λ row. str_eq row.id id) db.sessions) refl h
  token_operation-in_memory (commits input) h =
      rw
        (update_sessions-eq
          (λ row. owns_in_time id token now row && is_none row.storage_finalized_at) _ (between db)
          (NotOwned-unfinalized (between db) h))
        (refl, inr refl)

-- An operation with a token that no running session with its id is claimed with when it comes to
-- write (its claim was released, ended or taken over) is refused: whether it refreshes, finalizes,
-- stores the node, completes, fails, cancels or commits a part, it returns null, and the tables are
-- as they were or as the other requests left them.
pub token_operation-IsRefused :
    (prisma : Client)
    → IsPrisma prisma
    → (operation : TokenOperation) (draw_id : List AuditEvent → String) (now : ℕ)
      (id token : String) (extra : List (String × String)) (between : TransferDb → TransferDb)
      (db : TransferDb)
    → NotOwned id token (between db)
    → IsRefused db
        (between db)
        (run_with_token operation prisma draw_id now id token extra between db)
token_operation-IsRefused prisma laws operation draw_id now id token extra between db h =
    by_in_memory
      (λ c.
        IsRefused db (between db)
          (run_with_token operation c draw_id now id token extra between db))
      laws (token_operation-in_memory draw_id now id token extra between db operation h)

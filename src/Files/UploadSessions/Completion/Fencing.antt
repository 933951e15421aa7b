-- ===== src/Files/UploadSessions/Completion/Fencing.antt =====
-- The operations of upload-session-completion.ts and upload-session-parts.ts on a session that
-- another request holds.
use icedr.Prelude.{
  ◌≡◌, refl, ℕ, String, Bool, true, false, ◌&&◌, Option, none, some, List, [], ◌∷◌, any, map,
  filter, arith, str_eq, is_text,
}
use icedr.Prisma.{
  in_memory, Outcome, resolved, thrown, then_run, roll_back, update_where, return, ◌>>◌,
}
use icedr.Prisma.Ensures.{EndsIn, then_run-EndsIn, any-eq-false_mono, filter_none}
use icedr.Transfers.State.{TransferTaskStatus, status_text}
use icedr.Transfers.Tables.{TransferTask, UploadSession, AuditEvent, TransferDb, claim_is_free}
use icedr.Files.UploadSessions.{
  SessionError, transfer_state_conflict, session_state_conflict, unique_violation,
  write_claim_changed, record_not_found, is_upload_session_conflict, map_upload_session,
  UploadSessionResponse, SessionAction, update_transfers, update_sessions, find_transfer,
  catch_conflict,
}
use icedr.Files.UploadSessions.Endings.{changed_transfer}
use icedr.Files.UploadSessions.Completion.{
  owns, owns_in_time, assert_count_one, require_session, assert_session, refresh_transaction,
  claim_transaction, transfer_can_be_refreshed, transfer_refreshed, session_refreshed,
  transfer_can_be_claimed, transfer_claimed, session_can_be_claimed, session_claimed,
}
use icedr.Files.UploadSessions.Completion.Parts.{
  can_write_parts, write_claimed, transfer_takes_parts, touched, write_claim_transaction,
}
use icedr.Files.UploadSessions.Completion.Finishing.{
  Finish, transfer_can_finish, transfer_finished, transfer_was_finished, session_can_finish,
  session_finished, finish_status, audit_finish, finish_transaction,
}

abbrev pub IsConflict : SessionError → Type 0
IsConflict e = is_upload_session_conflict e ≡ true

-- Every run of the transaction ends in a conflict.
abbrev pub Conflicts : Outcome SessionError (Option UploadSessionResponse) × TransferDb → Type 0
Conflicts p = EndsIn (λ _ _. ⊥) IsConflict p

pub catch-Conflicts :
    (db : TransferDb) (p : Outcome SessionError (Option UploadSessionResponse) × TransferDb)
    → Conflicts p
    → catch_conflict (roll_back db p) ≡ (resolved none, db)
catch-Conflicts db (resolved a, after) h = absurd h
catch-Conflicts db (thrown transfer_state_conflict, after) h = refl
catch-Conflicts db (thrown session_state_conflict, after) h = refl
catch-Conflicts db (thrown unique_violation, after) h = cc
catch-Conflicts db (thrown write_claim_changed, after) h = cc
catch-Conflicts db (thrown record_not_found, after) h = cc

module _ (sessions : List UploadSession) where
  -- The sessions are as they were.
  abbrev Same : {A : Type 0} → A → TransferDb → Type 0
  Same a db = db.sessions ≡ sessions

  pub changed_transfer-Same :
      (draw_id : List AuditEvent → String) (now : ℕ) (before : TransferTask → Bool)
      (rows : List TransferTask) (db : TransferDb)
      → db.sessions ≡ sessions
      → EndsIn Same IsConflict (changed_transfer in_memory draw_id now before rows db)
  unfolding changed_transfer find_transfer
  changed_transfer-Same draw_id now before [] db h = ground arith
  changed_transfer-Same draw_id now before (row ∷ []) db h = h
  changed_transfer-Same draw_id now before (row ∷ other ∷ rows) db h = ground arith

  pub assert_count_one-Same :
      {A : Type 0} (now : ℕ) (rows : List A) (db : TransferDb)
      → db.sessions ≡ sessions
      → EndsIn Same IsConflict (assert_count_one in_memory now transfer_state_conflict rows db)
  unfolding assert_count_one
  assert_count_one-Same now [] db h = refl
  assert_count_one-Same now (row ∷ []) db h = h
  assert_count_one-Same now (row ∷ other ∷ rows) db h = refl

  -- An update that no session fits returns no row.
  pub update_sessions_none :
      (test : UploadSession → Bool) (patch : UploadSession → UploadSession)
      → any test sessions ≡ false
      → (db : TransferDb) → db.sessions ≡ sessions
      → EndsIn (λ rows _. rows ≡ []) IsConflict (update_sessions in_memory test patch db)
  unfolding update_sessions
  update_sessions_none test patch none_fits db e = rw e (filter_none test patch sessions none_fits)

pub assert_session_none :
    (now : ℕ) (test : UploadSession → Bool) (rows : List UploadSession) (db : TransferDb)
    → rows ≡ []
    → EndsIn (λ _ _. ⊥) IsConflict (assert_session in_memory now test rows db)
unfolding assert_session require_session
assert_session_none now test rows db e = rw e refl

-- A first part that leaves the sessions alone or throws a conflict, then an update that no session
-- fits, whose check throws one.
module _ {A : Type 0} (now : ℕ) (sessions : List UploadSession) (test ok : UploadSession → Bool)
    (patch : UploadSession → UploadSession)
    (next : A → UploadSession → SessionAction (Option UploadSessionResponse))
    (none_fits : any test sessions ≡ false) where
  abbrev session_part : A → SessionAction (Option UploadSessionResponse)
  session_part a d =
      then_run (update_sessions in_memory test patch d)
        (λ rows d'. then_run (assert_session in_memory now ok rows d') (next a))

  pub transaction-Conflicts :
      (p : Outcome SessionError A × TransferDb)
      → EndsIn (Same sessions) IsConflict p
      → Conflicts (then_run p session_part)
  transaction-Conflicts p h =
      then_run-EndsIn (Same sessions) (λ _ _. ⊥) IsConflict p session_part h
        λ a d e.
          then_run-EndsIn (λ rows _. rows ≡ []) (λ _ _. ⊥) IsConflict
            (update_sessions in_memory test patch d)
            (λ rows d'. then_run (assert_session in_memory now ok rows d') (next a))
            (update_sessions_none sessions test patch none_fits d e)
            λ rows d' e'.
              then_run-EndsIn (λ _ _. ⊥) (λ _ _. ⊥) IsConflict
                (assert_session in_memory now ok rows d') (next a)
                (assert_session_none now ok rows d' e') λ row d'' k. absurd k

-- The transactions, where no session fits their update.
module _ (draw_id : List AuditEvent → String) (now : ℕ) (db : TransferDb) where
  pub finish_transaction-Conflicts :
      (session : UploadSession) (token : String) (finish : Finish) (extra : List (String × String))
      → any (owns session.id token) db.sessions ≡ false
      → Conflicts (finish_transaction in_memory draw_id now session token finish extra db)
  unfolding finish_transaction update_transfers
  finish_transaction-Conflicts session token finish extra h =
      transaction-Conflicts now db.sessions (session_can_finish session.id token finish now)
        (λ row. str_eq row.status (status_text (finish_status finish)))
        (session_finished finish now)
        (λ changed row.
          audit_finish in_memory draw_id now finish extra changed
          >> return (some (map_upload_session row now)))
        (any-eq-false_mono (session_can_finish session.id token finish now) (owns session.id token)
          (λ row k. ground arith) db.sessions h)
        _
        (changed_transfer-Same db.sessions draw_id now
          (transfer_was_finished session.transfer_id finish)
          (map (transfer_finished finish now)
            (filter (transfer_can_finish session.transfer_id finish now) db.transfers))
          (record db {
            transfers =
                update_where (transfer_can_finish session.transfer_id finish now)
                  (transfer_finished finish now) db.transfers;
          })
          refl)

  pub refresh_transaction-Conflicts :
      (id token : String) (session : UploadSession) (transfer : TransferTask)
      → any (owns id token) db.sessions ≡ false
      → Conflicts (refresh_transaction in_memory now id token session transfer db)
  unfolding refresh_transaction update_transfers
  refresh_transaction-Conflicts id token session transfer h =
      transaction-Conflicts now db.sessions (owns_in_time id token now)
        (λ row. is_text row.completion_token token && str_eq row.status "running")
        (session_refreshed session.expires_at now)
        (λ _ row. return (some (map_upload_session row now)))
        (any-eq-false_mono (owns_in_time id token now) (owns id token) (λ row k. ground arith)
          db.sessions h)
        _
        (assert_count_one-Same db.sessions now
          (map (transfer_refreshed transfer.expires_at now)
            (filter (transfer_can_be_refreshed session.transfer_id now) db.transfers))
          (record db {
            transfers =
                update_where (transfer_can_be_refreshed session.transfer_id now)
                  (transfer_refreshed transfer.expires_at now) db.transfers;
          })
          refl)

  -- A session that is claimed by others cannot be claimed.
  pub claim_transaction-Conflicts :
      (session : UploadSession) (expected : TransferTaskStatus) (token : String)
      → any (λ row. str_eq row.id session.id && claim_is_free row now) db.sessions ≡ false
      → Conflicts (claim_transaction in_memory now session expected token db)
  unfolding claim_transaction update_transfers
  claim_transaction-Conflicts session expected token h =
      transaction-Conflicts now db.sessions (session_can_be_claimed session.id expected now)
        (λ row. str_eq row.status "running" && is_text row.completion_token token)
        (session_claimed session.expires_at token now)
        (λ _ row. return (some (map_upload_session row now)))
        (any-eq-false_mono (session_can_be_claimed session.id expected now)
          (λ row. str_eq row.id session.id && claim_is_free row now) (λ row k. ground arith)
          db.sessions h)
        _
        (assert_count_one-Same db.sessions now
          (map (transfer_claimed session.expires_at now)
            (filter (transfer_can_be_claimed session.transfer_id now) db.transfers))
          (record db {
            transfers =
                update_where (transfer_can_be_claimed session.transfer_id now)
                  (transfer_claimed session.expires_at now) db.transfers;
          })
          refl)

  pub write_claim_transaction-Conflicts :
      (session : UploadSession) (token : String)
      → any (λ row. str_eq row.id session.id && claim_is_free row now) db.sessions ≡ false
      → Conflicts (write_claim_transaction in_memory now session token db)
  unfolding write_claim_transaction update_transfers
  write_claim_transaction-Conflicts session token h =
      transaction-Conflicts now db.sessions (can_write_parts session.id now)
        (λ row. is_text row.completion_token token) (write_claimed token now)
        (λ _ row. return (some (map_upload_session row now)))
        (any-eq-false_mono (can_write_parts session.id now)
          (λ row. str_eq row.id session.id && claim_is_free row now) (λ row k. ground arith)
          db.sessions h)
        _
        (assert_count_one-Same db.sessions now
          (map (touched now) (filter (transfer_takes_parts session.transfer_id now) db.transfers))
          (record db {
            transfers =
                update_where (transfer_takes_parts session.transfer_id now) (touched now)
                  db.transfers;
          })
          refl)

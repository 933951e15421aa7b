-- ===== src/Files/UploadSessions/Endings/Agreement.antt =====
-- The steps of the transaction of upload-session-lifecycle.ts in which a transfer and its upload
-- session fail, expire or are canceled.
use icedr.Prelude.{
  ◌≡◌, refl, inl, inr, ℕ, String, Bool, true, false, ◌&&◌, Option, none, some, List, [], ◌∷◌, map,
  filter, any, find?, arith, eq_iff, str_eq, Bool-cases, any_of_find?,
}
use icedr.Prisma.{in_memory, Outcome, resolved, thrown, update_where}
use icedr.Prisma.Ensures.{Ensures, then_run-Ensures, any-update_where, any_mono}
use icedr.Transfers.State.{status_text}
use icedr.Transfers.Tables.{TransferTask, UploadSession, AuditEvent, TransferDb}
use icedr.Files.UploadSessions.{
  SessionError, UploadSessionResponse, map_upload_session, update_transfers, update_sessions,
  find_transfer, find_session, record_upload_transfer_audit,
}
use icedr.Files.UploadSessions.Endings.{
  Ending, transfer_can_end, transfer_ended, changed_transfer, end_session, assert_ended,
  audit_ending, ending_transaction,
}

abbrev pub is_ended : String → String → TransferTask → Bool
is_ended transfer_id text row = str_eq row.id transfer_id && str_eq row.status text

-- The table has the transfer with that status.
abbrev pub HasStatus : String → String → TransferDb → Type 0
HasStatus transfer_id text db = any (is_ended transfer_id text) db.transfers ≡ true

abbrev pub BothEnded : String → String → Option UploadSessionResponse → TransferDb → Type 0
BothEnded transfer_id text none db = ⊥
BothEnded transfer_id text (some r) db = (r.row.status ≡ text) × HasStatus transfer_id text db

-- What runs beside the transfers leaves them as they are.
pub HasStatus-of_transfers :
    (transfer_id text : String) (db : TransferDb) (p : Outcome SessionError (Unit {0}) × TransferDb)
    → p.1.transfers ≡ db.transfers
    → HasStatus transfer_id text db
    → Ensures (λ _ d. HasStatus transfer_id text d) p
HasStatus-of_transfers transfer_id text db (resolved a, d) e h = rw e h
HasStatus-of_transfers transfer_id text db (thrown x, d) e h = tt

-- An update after which a transfer has the status, or else one that had it before.
module _ (draw_id : List AuditEvent → String) (now : ℕ) (transfer_id text : String)
    (ended_before : TransferTask → Bool)
    (weaker : (t : TransferTask) → ended_before t ≡ true → is_ended transfer_id text t ≡ true) where
  changed_again :
      (db : TransferDb) (found : Option TransferTask)
      → find? ended_before db.transfers ≡ found
      → Ensures
          (λ _ d. HasStatus transfer_id text d)
          (changed_transfer in_memory draw_id now ended_before [] db)
  unfolding changed_transfer find_transfer
  changed_again db none e = rw e tt
  changed_again db (some t) e = rw e (
      any_mono ended_before (is_ended transfer_id text) weaker db.transfers
        (any_of_find? ended_before db.transfers e).1)

  pub changed_transfer-Ensures :
      (test : TransferTask → Bool) (patch : TransferTask → TransferTask)
      → ((t : TransferTask) → test t ≡ true → is_ended transfer_id text (patch t) ≡ true)
      → (before rows : List TransferTask) (db : TransferDb) → map patch (filter test before) ≡ rows
      → db.transfers ≡ update_where test patch before
      → Ensures
          (λ _ d. HasStatus transfer_id text d)
          (changed_transfer in_memory draw_id now ended_before rows db)
  unfolding changed_transfer
  changed_transfer-Ensures test patch fits before [] db e p =
      changed_again db (find? ended_before db.transfers) refl
  changed_transfer-Ensures test patch fits before (row ∷ []) db e p =
      rw p (any-update_where test patch (is_ended transfer_id text) fits before e)
  changed_transfer-Ensures test patch fits before (row ∷ other ∷ rows) db e p =
      changed_again db (find? ended_before db.transfers) refl

module _ (draw_id : List AuditEvent → String) (now : ℕ) (current : UploadSession)
    (ending : Ending) where
  abbrev Synced : TransferDb → Type 0
  Synced db = HasStatus current.transfer_id (status_text ending.status) db

  transfer_ended-is_ended :
      (row : TransferTask)
      → transfer_can_end current.transfer_id ending now row ≡ true
      → is_ended current.transfer_id (status_text ending.status) (transfer_ended ending now row)
        ≡ true
  transfer_ended-is_ended row h =
      ground (arith, eq_iff (status_text ending.status) (status_text ending.status))

  module _ (ended_before : TransferTask → Bool)
      (weaker : (t : TransferTask)
        → ended_before t ≡ true
        → is_ended current.transfer_id (status_text ending.status) t ≡ true) where
    assert_ended-Ensures :
        (o : Option UploadSession) (db : TransferDb)
        → Synced db
        → Ensures
            (λ row d. (row.status ≡ status_text ending.status) × Synced d)
            (assert_ended in_memory draw_id now ending o db)
    unfolding assert_ended
    assert_ended-Ensures none db h = tt
    assert_ended-Ensures (some row) db h =
        elim (Bool-cases (str_eq row.status (status_text ending.status))) [
          | inl e ↦ rw e ((eq_iff row.status (status_text ending.status)).0 e, h)
          | inr e ↦ rw e tt
        ]

    end_session-Ensures :
        (already : Bool) (id stored : String) (db : TransferDb)
        → Synced db
        → Ensures (λ _ d. Synced d) (end_session in_memory draw_id now already id stored ending db)
    unfolding end_session update_sessions find_session
    end_session-Ensures true id stored db h = h
    end_session-Ensures false id stored db h = h

    transfers-audit_ending :
        (o : Option TransferTask) (db : TransferDb)
        → (audit_ending in_memory draw_id now ending o db).1.transfers ≡ db.transfers
    unfolding audit_ending record_upload_transfer_audit
    transfers-audit_ending none db = refl
    transfers-audit_ending (some row) db = ground arith

    audit_ending-Ensures :
        (o : Option TransferTask) (db : TransferDb)
        → Synced db
        → Ensures (λ _ d. Synced d) (audit_ending in_memory draw_id now ending o db)
    audit_ending-Ensures o db h =
        HasStatus-of_transfers current.transfer_id (status_text ending.status) db
          (audit_ending in_memory draw_id now ending o db) (transfers-audit_ending o db) h

    pub ending_transaction-Ensures :
        (already : Bool) (stored : String) (db : TransferDb)
        → Ensures
            (BothEnded current.transfer_id (status_text ending.status))
            (ending_transaction in_memory draw_id now current ending ended_before already stored db)
    unfolding ending_transaction update_transfers map_upload_session
    ending_transaction-Ensures already stored db =
        then_run-Ensures (λ _ d. Synced d) _ _ _
          (changed_transfer-Ensures draw_id now current.transfer_id (status_text ending.status)
            ended_before weaker (transfer_can_end current.transfer_id ending now)
            (transfer_ended ending now) transfer_ended-is_ended db.transfers _ _ refl refl)
          λ changed d h.
            then_run-Ensures (λ _ d'. Synced d') _ _ _
              (end_session-Ensures already current.id stored d h)
              λ found d' h'.
                then_run-Ensures (λ row d''. (row.status ≡ status_text ending.status) × Synced d'')
                  _ _ _ (assert_ended-Ensures found d' h')
                  λ row d'' (e, h'').
                    then_run-Ensures (λ _ d3. Synced d3) _ _ _
                      (audit_ending-Ensures changed d'' h'') λ _ d3 h3. (e, h3)

-- ===== src/Transfers/Repository/Committed.antt =====
-- What the transactions `update` and `updateUserControlled` of transfers.repository.ts commit.
use icedr.Prelude.{
  ℕ, ◌≡◌, refl, ◌∙◌, String, Bool, true, false, Option, none, some, List, arith, Rows, Rows-refl,
}
use icedr.Prisma.{
  Client, IsPrisma, by_in_memory, in_memory, Outcome, resolved, thrown, Action, then_run, roll_back,
  ◌>>=◌, return,
}
use icedr.Transfers.State.{TransferTaskStatus, completed}
use icedr.Transfers.Tables.{TransferTask, AuditEvent, TransferDb}
use icedr.Transfers.Repository.{TransferUpdateInput, TransferResponse}
use icedr.Transfers.Repository.Updates.{
  TransferError, active_upload_operation, state_conflict, unique_violation, update_with_client,
}
use icedr.Transfers.Repository.Audit.{record_update_audit}
use icedr.Transfers.Repository.Operations.{
  update, update_user_controlled, finish_update, finish_user_update, follow_up, user_update,
  catch_active, assert_no_active_upload_operation, sync_upload_session_status,
}
use icedr.Transfers.Repository.Advance.{
  Advances, Advances-refl, text_after, update_with_client-Advances,
}

-- An action that leaves the table of transfers alone.
abbrev Keeps : {A : Type 0} → Action TransferDb TransferError A → Type 0
Keeps m = (db : TransferDb) → (m db).1.transfers ≡ db.transfers

then_run-transfers :
    {A B : Type 0} (p : Outcome TransferError A × TransferDb)
    (f : A → Action TransferDb TransferError B)
    → ((a : A) → Keeps (f a))
    → (then_run p f).1.transfers ≡ p.1.transfers
then_run-transfers (resolved a, db) f h = h a db
then_run-transfers (thrown e, db) f h = refl

Keeps-then :
    {A B : Type 0} (m : Action TransferDb TransferError A)
    (f : A → Action TransferDb TransferError B)
    → Keeps m
    → ((a : A) → Keeps (f a))
    → Keeps (m >>= f)
Keeps-then m f h k db = then_run-transfers (m db) f k ∙ h db

module _ {A : Type 0} where
  roll_back-Rows :
      (R : TransferTask → TransferTask → Type 0)
      → ((r : TransferTask) → R r r)
      → (db : TransferDb) (p : Outcome TransferError A × TransferDb)
      → Rows R db.transfers p.1.transfers
      → Rows R db.transfers (roll_back db p).1.transfers
  roll_back-Rows R r db (resolved a, after) h = h
  roll_back-Rows R r db (thrown e, after) h = Rows-refl R r db.transfers

module _ {A B : Type 0} where
  then_run-Rows :
      (R : TransferTask → TransferTask → Type 0) (db : TransferDb)
      (p : Outcome TransferError A × TransferDb) (f : A → Action TransferDb TransferError B)
      → ((a : A) (d : TransferDb) → (f a d).1.transfers ≡ d.transfers)
      → Rows R db.transfers p.1.transfers
      → Rows R db.transfers (then_run p f).1.transfers
  then_run-Rows R db (resolved a, after) f same h = rw (same a after) h
  then_run-Rows R db (thrown e, after) f same h = h

module _ (draw_id : List AuditEvent → String) (now : ℕ) where
  record_update_audit-Keeps :
      (t : Option TransferResponse) (input : TransferUpdateInput)
      → Keeps (record_update_audit in_memory draw_id now t input)
  unfolding record_update_audit
  record_update_audit-Keeps none input db = refl
  record_update_audit-Keeps (some t) input db = ground arith

  assert_no_active-Keeps :
      (id : String) → Keeps (assert_no_active_upload_operation in_memory draw_id now id)
  unfolding assert_no_active_upload_operation
  assert_no_active-Keeps id db = ground arith

  sync-Keeps :
      (id : String) (input : TransferUpdateInput) (status : Option TransferTaskStatus)
      → Keeps (sync_upload_session_status in_memory draw_id now id input status)
  unfolding sync_upload_session_status
  sync-Keeps id input none db = refl
  sync-Keeps id input (some completed) db = refl
  sync-Keeps id input (some _) db = refl

  finish_update-Keeps :
      (t : Option TransferResponse) (changed : Bool) (input : TransferUpdateInput)
      → Keeps (finish_update in_memory draw_id now t changed input)
  unfolding finish_update
  finish_update-Keeps t false input db = refl
  finish_update-Keeps t true input db =
      Keeps-then (record_update_audit in_memory draw_id now t input) (λ _. return t)
        (record_update_audit-Keeps t input) (λ _ d. refl) db

  follow_up-Keeps :
      (id : String) (input : TransferUpdateInput) (t : TransferResponse)
      → Keeps (follow_up in_memory draw_id now id input t true)
  unfolding follow_up
  follow_up-Keeps id input t =
      Keeps-then (assert_no_active_upload_operation in_memory draw_id now id) _
        (assert_no_active-Keeps id)
        λ _.
          Keeps-then (sync_upload_session_status in_memory draw_id now id input input.status) _
            (sync-Keeps id input input.status)
            λ _.
              Keeps-then (record_update_audit in_memory draw_id now (some t) input) _
                (record_update_audit-Keeps (some t) input) (λ _ d. refl)

  finish_user_update-Keeps :
      (id : String) (input : TransferUpdateInput) (t : Option TransferResponse) (changed : Bool)
      → Keeps (finish_user_update in_memory draw_id now id input t changed)
  unfolding finish_user_update follow_up
  finish_user_update-Keeps id input none changed db = refl
  finish_user_update-Keeps id input (some t) false db = refl
  finish_user_update-Keeps id input (some t) true db = follow_up-Keeps id input t db

  catch-Rows :
      {A : Type 0} (R : TransferTask → TransferTask → Type 0) (nothing : A) (db : TransferDb)
      (p : Outcome TransferError A × TransferDb)
      → Rows R db.transfers p.1.transfers
      → Rows R db.transfers (catch_active in_memory draw_id now nothing p).1.transfers
  catch-Rows R nothing db (resolved a, after) h = h
  catch-Rows R nothing db (thrown active_upload_operation, after) h = h
  catch-Rows R nothing db (thrown state_conflict, after) h = h
  catch-Rows R nothing db (thrown unique_violation, after) h = h

  update-Advances-in_memory :
      (id : String) (input : TransferUpdateInput) (owner : Option String) (db : TransferDb)
      → Rows
          (Advances now (text_after input.status ""))
          db.transfers
          (update in_memory draw_id now id input owner db).1.transfers
  unfolding update
  update-Advances-in_memory id input owner db =
      let R = Advances now (text_after input.status "") in
      roll_back-Rows R (Advances-refl now _) db _ (
        then_run-Rows R db (update_with_client in_memory id owner input now db) _
          (λ a d. finish_update-Keeps a.0 a.1 input d)
          (update_with_client-Advances id owner input now db))

  user_update-Advances-in_memory :
      (id : String) (input : TransferUpdateInput) (owner : Option String) (db : TransferDb)
      → Rows
          (Advances now (text_after input.status ""))
          db.transfers
          (update_user_controlled in_memory draw_id now id input owner db).1.transfers
  unfolding update_user_controlled user_update
  user_update-Advances-in_memory id input owner db =
      let R = Advances now (text_after input.status "") in
      let p = user_update in_memory draw_id now id input owner db in
      catch-Rows {A = Option TransferResponse} R none db (roll_back db p) (
        roll_back-Rows R (Advances-refl now _) db p (
          then_run-Rows R db (update_with_client in_memory id owner input now db)
            (λ a. finish_user_update in_memory draw_id now id input a.0 a.1)
            (λ a d. finish_user_update-Keeps id input a.0 a.1 d)
            (update_with_client-Advances id owner input now db)))

-- Whatever the input and whatever the table holds, an update, also one that a user controls, commits
-- only advances: every row keeps its identity, owner, workspace and expiry, its progress does not
-- fall, its status changes at most to the requested one and by a permitted transition, and a row
-- that had elapsed takes no new status but `expired`.
pub updates-Advances :
    (prisma : Client)
    → IsPrisma prisma
    → (draw_id : List AuditEvent → String) (now : ℕ) (id : String) (input : TransferUpdateInput)
      (owner : Option String) (db : TransferDb)
    → Rows
        (Advances now (text_after input.status ""))
        db.transfers
        (update prisma draw_id now id input owner db).1.transfers
      × Rows
          (Advances now (text_after input.status ""))
          db.transfers
          (update_user_controlled prisma draw_id now id input owner db).1.transfers
updates-Advances prisma laws draw_id now id input owner db =
    by_in_memory
      (λ c.
        Rows (Advances now (text_after input.status "")) db.transfers
          (update c draw_id now id input owner db).1.transfers
        × Rows (Advances now (text_after input.status "")) db.transfers
            (update_user_controlled c draw_id now id input owner db).1.transfers)
      laws
      (
        update-Advances-in_memory draw_id now id input owner db,
        user_update-Advances-in_memory draw_id now id input owner db,
      )

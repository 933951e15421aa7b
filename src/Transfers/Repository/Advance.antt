-- ===== src/Transfers/Repository/Advance.antt =====
-- What an update of transfers.repository.ts can do to the rows of transfer_tasks.
use icedr.Prelude.{
  ℕ, ◌≤◌, ◌≡◌, refl, sym, ◌⊎◌, inl, inr, String, true, false, Option, none, some, List, [], ◌∷◌,
  arith, eq_iff, map, any, str_eq, if◌then◌else◌, Rows, Rows-map, Rows-refl, Rows-trans, Bool-cases,
}
use icedr.Prisma.{in_memory}
use icedr.Transfers.State.{
  TransferTaskStatus, completed, expired, canceled, status_text, can_transition,
  can_transition_transfer_task, get_transfer_task_transition_sources, same_status,
}
use icedr.Transfers.State.Machine.{can_transition_transfer_task_iff, same_status_iff}
use icedr.Transfers.Tables.{TransferTask, TransferDb, status_in, unexpired}
use icedr.Transfers.Repository.{
  TransferUpdateInput, is_updatable, updated, update_sources, status_allows, expiry_allows,
}
use icedr.Transfers.Repository.Updates.{
  expects_impossible, update_pass, Pass, done, again, update_with_client, first_pass, second_pass,
}

-- A text in a list of statuses is the literal of one of them.
status_in_elim :
    (l : List TransferTaskStatus) (text : String)
    → status_in l text ≡ true
    → (s : TransferTaskStatus) × (text ≡ status_text s) × (any (same_status s) l ≡ true)
status_in_elim [] text h = cc
status_in_elim (s ∷ l) text h = elim (Bool-cases (str_eq (status_text s) text)) [
  | inl e ↦ (s, sym ((eq_iff (status_text s) text).0 e), ground (arith, same_status_iff s s))
  | inr e ↦ let (t, p, q) = status_in_elim l text (ground arith) in (t, p, ground arith)
]

-- From every source of an update the transition to its status is permitted.
update_sources-can_transition :
    (s t : TransferTaskStatus)
    → any (same_status s) (update_sources t) ≡ true
    → can_transition s t ≡ true
unfolding update_sources get_transfer_task_transition_sources can_transition
update_sources-can_transition s t h = ground arith

-- A row keeps its identity and its expiry, its progress does not fall, and its status changes only
-- to the status of the update and by a permitted transition. A row that had elapsed takes no new
-- status but `expired`.
pub record Advances (now : ℕ) (to : String) (r r' : TransferTask) : Type 0 where
  pub same_id : r.id ≡ r'.id
  pub same_owner : r.owner_user_id ≡ r'.owner_user_id
  pub same_workspace : r.workspace_id ≡ r'.workspace_id
  pub same_expiry : r.expires_at ≡ r'.expires_at
  pub progress : r.progress ≤ r'.progress
  pub status :
      (r.status ≡ r'.status)
      ⊎ ((r'.status ≡ to) × (can_transition_transfer_task r.status to ≡ true))
  pub elapsed :
      (r.status ≡ r'.status)
      ⊎ (unexpired r.expires_at now ≡ true)
      ⊎ (r'.status ≡ status_text expired)

Advances-trans :
    (now : ℕ) (to : String) (r s t : TransferTask)
    → Advances now to r s
    → Advances now to s t
    → Advances now to r t
Advances-trans now to r s t h k = ground arith

pub Advances-refl : (now : ℕ) (to : String) (r : TransferTask) → Advances now to r r
Advances-refl now to r = ground arith

status_allows-permitted :
    (s : TransferTaskStatus) (expected : Option TransferTaskStatus) (r : TransferTask)
    → expects_impossible (some s) expected ≡ false
    → status_allows (some s) expected r ≡ true
    → can_transition_transfer_task r.status (status_text s) ≡ true
unfolding status_allows
status_allows-permitted s (some w) r h k = rw ((eq_iff r.status (status_text w)).0 k) (ground arith)
status_allows-permitted s none r h k =
    let (t, e, m) = status_in_elim (update_sources s) r.status k in
    (can_transition_transfer_task_iff r.status (status_text s)).1
      (t, s, e, refl, update_sources-can_transition t s m)

abbrev pub text_after : Option TransferTaskStatus → String → String
text_after none text = text
text_after (some s) text = status_text s

updated-status :
    (input : TransferUpdateInput) (now : ℕ) (r : TransferTask)
    → (updated input now r).status ≡ text_after input.status r.status
updated-status input now r = ground arith

permitted :
    (o expected : Option TransferTaskStatus) (r : TransferTask)
    → expects_impossible o expected ≡ false
    → status_allows o expected r ≡ true
    → (r.status ≡ text_after o r.status)
      ⊎ ((text_after o r.status ≡ text_after o "")
          × (can_transition_transfer_task r.status (text_after o "") ≡ true))
permitted none expected r h k = inl refl
permitted (some s) expected r h k = inr (refl, status_allows-permitted s expected r h k)

not_elapsed :
    (o : Option TransferTaskStatus) (r : TransferTask) (now : ℕ)
    → expiry_allows o r now ≡ true
    → (r.status ≡ text_after o r.status)
      ⊎ (unexpired r.expires_at now ≡ true)
      ⊎ (text_after o r.status ≡ status_text expired)
unfolding expiry_allows
not_elapsed none r now h = inl refl
not_elapsed (some expired) r now h = inr (inr refl)
not_elapsed (some completed) r now h = ground (arith, eq_iff r.status "completed")
not_elapsed (some canceled) r now h = ground (arith, eq_iff r.status "canceled")
not_elapsed (some _) r now h = inr (inl h)

module _ (id : String) (owner : Option String) (input : TransferUpdateInput) (now : ℕ) where
  abbrev pub Step : TransferTask → TransferTask → Type 0
  Step = Advances now (text_after input.status "")

  updated-Advances :
      (r : TransferTask)
      → expects_impossible input.status input.expected_status ≡ false
      → is_updatable id owner input now r ≡ true
      → Step r (updated input now r)
  unfolding is_updatable
  updated-Advances r h k = record {
    same_id = ground arith;
    same_owner = ground arith;
    same_workspace = ground arith;
    same_expiry = ground arith;
    progress = ground arith;
    status =
        rw (updated-status input now r)
          (permitted input.status input.expected_status r h (ground arith));
    elapsed = rw (updated-status input now r) (not_elapsed input.status r now (ground arith));
  }

  patched-Advances :
      (r : TransferTask)
      → expects_impossible input.status input.expected_status ≡ false
      → Step r (if is_updatable id owner input now r then updated input now r else r)
  patched-Advances r h = elim (Bool-cases (is_updatable id owner input now r)) [
    | inl e ↦ rw e (updated-Advances r h e)
    | inr e ↦ rw e (Advances-refl now (text_after input.status "") r)
  ]

  abbrev pub patch : TransferTask → TransferTask
  patch r = if is_updatable id owner input now r then updated input now r else r

  -- One pass either leaves the table alone or makes the update.
  pub pass_rows :
      (rows : List TransferTask)
      → ((update_pass in_memory id owner input now rows).1 ≡ rows)
        ⊎ ((expects_impossible input.status input.expected_status ≡ false)
            × ((update_pass in_memory id owner input now rows).1 ≡ map patch rows))
  unfolding update_pass
  pass_rows rows = ground arith

  pass-Advances :
      (rows : List TransferTask) → Rows Step rows (update_pass in_memory id owner input now rows).1
  pass-Advances rows = elim (pass_rows rows) [
    | inl e ↦ rw e (Rows-refl Step (Advances-refl now (text_after input.status "")) rows)
    | inr (h, e) ↦ rw e (Rows-map Step patch (λ r. patched-Advances r h) rows)
  ]

  second-Advances :
      (p : Pass × List TransferTask) (rows : List TransferTask)
      → Rows Step rows p.1
      → Rows Step rows (second_pass in_memory p).1
  second-Advances (done u, after) rows h = h
  second-Advances (again, after) rows h = h

module _ (id : String) (owner : Option String) (input : TransferUpdateInput) (now : ℕ) where
  first-Advances :
      (p : Pass × List TransferTask) (rows : List TransferTask)
      → Rows (Step id owner input now) rows p.1
      → Rows (Step id owner input now) rows (first_pass in_memory id owner input now p).1
  first-Advances (done u, after) rows h = h
  first-Advances (again, after) rows h =
      Rows-trans (Step id owner input now) (Advances-trans now (text_after input.status "")) rows
        after _ h
        (second-Advances id owner (record input { progress = none }) now
          (update_pass in_memory id owner (record input { progress = none }) now after) after
          (pass-Advances id owner (record input { progress = none }) now after))

-- `updateWithClient`, with any input and on any table, lets every row advance.
pub update_with_client-Advances :
    (id : String) (owner : Option String) (input : TransferUpdateInput) (now : ℕ) (db : TransferDb)
    → Rows
        (Advances now (text_after input.status ""))
        db.transfers
        (update_with_client in_memory id owner input now db).1.transfers
unfolding update_with_client
update_with_client-Advances id owner input now db =
    first-Advances id owner input now (update_pass in_memory id owner input now db.transfers)
      db.transfers (pass-Advances id owner input now db.transfers)

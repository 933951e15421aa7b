-- ===== src/Storage/Integrity/Tasks/Fenced.antt =====
-- A runner whose lease is gone: what storage-integrity-task.repository.ts still does for it.
use icedr.Prelude.{
  ℕ, String, ◌≡◌, refl, Bool, true, false, none, some, List, [], ◌∷◌, inl, inr, any, all, not,
  is_text, arith, ap, if◌then◌else◌, ◌==◌,
}
use icedr.Prisma.{Client, IsPrisma, by_in_memory, in_memory, resolved, then_run, return, roll_back}
use icedr.Prisma.Ensures.{update_where_none, filter_none, any-eq-false_mono}
use icedr.Storage.Integrity.Tasks.{
  IntegrityProgress, IntegrityTask, IntegrityDb, CompletionInput, is_owned, is_held, task_completed,
  counted_targets,
}
use icedr.Storage.Integrity.Tasks.Operations.{
  is_uncounted, update_tasks, renew_lease, count_targets, save_progress, complete_task,
  after_completion,
}
use icedr.Storage.Integrity.Tasks.History.{
  IntegrityStatement, creates, recovers, takes, renews, counts, saves, completes, requeues, step,
  run, Effect, step-Effect,
}
use icedr.Storage.Integrity.Tasks.Kept.{written}
use icedr.Storage.Integrity.Tasks.Exclusive.{all-update_where}

abbrev pub is_not_of : String → IntegrityTask → Bool
is_not_of lease_owner row = not (is_text row.lease_owner lease_owner)

-- A statement that is not a claim for an owner.
abbrev pub claims_not_for : String → IntegrityStatement → Bool
claims_not_for lease_owner (takes id started_at input) =
    not (is_text (some input.lease_owner) lease_owner)
claims_not_for lease_owner _ = true

not_of-written :
    (o : String) (e : IntegrityStatement) (row : IntegrityTask)
    → claims_not_for o e ≡ true
    → is_not_of o row ≡ true
    → is_not_of o (written e row) ≡ true
not_of-written o (creates active_key input new_id now) row c h = ground arith
not_of-written o (recovers now) row c h = ground arith
not_of-written o (takes task_id started_at input) row c h = ground arith
not_of-written o (renews task_id lease_owner lease_expires_at) row c h = ground arith
not_of-written o (counts task_id lease_owner target_count now progress) row c h = ground arith
not_of-written o (saves task_id lease_owner progress cursor now) row c h = ground arith
not_of-written o (completes task_id lease_owner input now event_id) row c h = ground arith
not_of-written o (requeues task_id lease_owner) row c h = ground arith

not_of_after :
    (o : String) (e : IntegrityStatement) (rows after : List IntegrityTask)
    → claims_not_for o e ≡ true
    → Effect e rows after
    → all (is_not_of o) rows ≡ true
    → all (is_not_of o) after ≡ true
not_of_after o e rows after c (inl same) h = rw same h
not_of_after o e rows after c (inr (inl (can, p))) h =
    rw p (all-update_where (is_not_of o) (is_not_of o) e rows (λ row. not_of-written o e row c) h)
not_of_after o e rows after c (inr (inr (active_key, input, new_id, now, free, p))) h = rw p h

pub run-not_of :
    (o : String) (es : List IntegrityStatement) (db : IntegrityDb)
    → all (claims_not_for o) es ≡ true
    → all (is_not_of o) db.tasks ≡ true
    → all (is_not_of o) (run in_memory es db).tasks ≡ true
unfolding run
run-not_of o [] db c h = h
run-not_of o (e ∷ es) db c h =
    run-not_of o es (step in_memory e db) (ground arith)
      (not_of_after o e db.tasks (step in_memory e db).tasks (ground arith) (step-Effect e db) h)

-- No row is an owner's, under any id.
none-owned :
    (id o : String) (rows : List IntegrityTask)
    → all (is_not_of o) rows ≡ true
    → any (is_owned id o) rows ≡ false
none-owned id o [] h = refl
none-owned id o (x ∷ xs) h = ground (arith, none-owned id o xs)

-- What the repository answers an owner, and that it writes nothing.
abbrev pub Refuses : Client → String → IntegrityDb → Type 0
Refuses c o db =
    ((id : String) (lease_expires_at : ℕ)
      → renew_lease c id o lease_expires_at db ≡ (resolved false, db))
    × ((id : String) (target_count now : ℕ) (progress : IntegrityProgress)
        → count_targets c id o target_count now progress db ≡ (resolved none, db))
    × ((id : String) (progress : IntegrityProgress) (cursor : String × String) (now : ℕ)
        → save_progress c id o progress cursor now db ≡ (resolved false, db))
    × ((id : String) (input : CompletionInput) (now : ℕ) (event_id : String)
        → complete_task c id o input now event_id db ≡ (resolved none, db))

-- An update of rows none of which fits.
pub update-none :
    (test : IntegrityTask → Bool) (patch : IntegrityTask → IntegrityTask) (db : IntegrityDb)
    → any test db.tasks ≡ false
    → update_tasks in_memory test patch db ≡ (resolved 0, db)
unfolding update_tasks
update-none test patch db h =
    rw (update_where_none test patch db.tasks h, filter_none test patch db.tasks h) refl

module _ (o : String) (db : IntegrityDb) (h : all (is_not_of o) db.tasks ≡ true) where
  none-held : (id : String) (now : ℕ) → any (is_held id o now) db.tasks ≡ false
  none-held id now =
      any-eq-false_mono (is_held id o now) (is_owned id o) (λ row p. ground arith) db.tasks
        (none-owned id o db.tasks h)

  none-uncounted : (id : String) (now : ℕ) → any (is_uncounted id o now) db.tasks ≡ false
  none-uncounted id now =
      any-eq-false_mono (is_uncounted id o now) (is_held id o now) (λ row p. ground arith) db.tasks
        (none-held id now)

  in_memory-Refuses : Refuses in_memory o db
  unfolding renew_lease count_targets save_progress complete_task after_completion
  in_memory-Refuses = (
    λ id lease_expires_at.
        ap (λ p. then_run p (λ count. return (count == 1)))
          (update-none (is_owned id o)
            (λ row. record row { lease_expires_at = some lease_expires_at }) db
            (none-owned id o db.tasks h)),
    λ id target_count now progress.
        ap (λ p. then_run p (λ count. return (if count == 1 then some target_count else none)))
          (update-none (is_uncounted id o now) (counted_targets target_count progress) db
            (none-uncounted id now)),
    λ id progress cursor now.
        ap (λ p. then_run p (λ count. return (count == 1)))
          (update-none (is_held id o now)
            (λ row. record row { cursor = some cursor; progress = progress }) db
            (none-held id now)),
    λ id input now event_id.
        ap
          (λ p.
            roll_back db
              (then_run p (λ count. after_completion in_memory input id now event_id (count == 1))))
          (update-none (is_held id o now) (task_completed input now) db (none-held id now)),
  )

-- An owner whose tasks have been taken from it is shut out: if no row has the owner, then after any
-- statements of which none is a claim for it, at any times, every renewal, count of targets, progress
-- and completion that it sends is refused and leaves the database as it is.
pub run-Refuses :
    (c : Client)
    → IsPrisma c
    → (o : String) (es : List IntegrityStatement) (db : IntegrityDb)
    → all (claims_not_for o) es ≡ true
    → all (is_not_of o) db.tasks ≡ true
    → Refuses c o (run c es db)
run-Refuses c h o es db p q =
    by_in_memory (λ k. Refuses k o (run k es db)) h
      (in_memory-Refuses o (run in_memory es db) (run-not_of o es db p q))

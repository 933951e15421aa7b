-- ===== src/Storage/Integrity/Examples.antt =====
-- Runs of the integrity tasks of backend/src/modules/storage on concrete tables, with the client in
-- memory.
use icedr.Prelude.{
  ℕ, ◌≡◌, refl, Bool, true, false, Option, none, some, List, [], ◌∷◌, ◌||◌, not, all, any, leb,
  if◌then◌else◌, arith, inl, find?, sym, subst, some-injective, Bool-cases, inr, ap,
}
use mathlib.Core.List.{mem-cons_self, mem-cons_of_mem}
use icedr.Prisma.{in_memory, in_memory-IsPrisma, resolved}
use icedr.Storage.Integrity.Tasks.{
  IntegrityTask, IntegrityDb, ClaimInput, CompletionInput, completed, is_queued, new_task, requeued,
  task_claimed, task_completed, empty_progress, NewTaskInput,
}
use icedr.Storage.Integrity.Tasks.Operations.{
  claim_next_task, complete_task, has_task_id, create_or_reuse_task,
}
use icedr.Storage.Integrity.Tasks.History.{IntegrityStatement, recovers, takes, run}
use icedr.Storage.Integrity.Tasks.Kept.{run-HasEnded, run-target_count}
use icedr.Storage.Integrity.Tasks.Exclusive.{IsExclusive, run-IsExclusive}
use icedr.Storage.Integrity.Tasks.Fenced.{Refuses, run-Refuses}
use icedr.Storage.Integrity.Tasks.Claims.{
  IsOldest, FindsOldest, IsClaimed, recovered, claim_next_task-IsClaimed,
}
use icedr.Storage.Integrity.Targets.{BlobNode, ResultDb, SaveInput, matched, mismatch, node_checked}
use icedr.Storage.Integrity.Targets.Fenced.{save_result_again}
use icedr.Storage.Integrity.Targets.Save.{new_result, save_result}
use icedr.Storage.Integrity.Targets.Saved.{Kept, save_result-Kept}
use icedr.Storage.Integrity.Tasks.Completed.{CompletionEnds, complete_task-Ends}

abbrev any_input : NewTaskInput
any_input = record { actor_user_id = none; mode = "verify"; scope = "all"; workspace_id = none }

abbrev first_claim : ClaimInput
first_claim = record { lease_expires_at = 90; lease_owner = "runner-1"; now = 0 }

abbrev second_claim : ClaimInput
second_claim = record { lease_expires_at = 190; lease_owner = "runner-2"; now = 100 }

-- A task that the first runner has, until 90, and one that is queued.
abbrev running_task : IntegrityTask
running_task = task_claimed first_claim none (new_task "key-a" any_input "task-a" 5)

abbrev queued_task : IntegrityTask
queued_task = new_task "key-b" any_input "task-b" 7

abbrev two_tasks : IntegrityDb
two_tasks = record { tasks = queued_task ∷ running_task ∷ []; events = [] }

abbrev put_back : IntegrityDb
put_back = record { tasks = queued_task ∷ requeued running_task ∷ []; events = [] }

abbrev done : CompletionInput
done = record {
  actor_user_id = none;
  failure_code = none;
  failure_message = none;
  mode = "verify";
  progress = empty_progress;
  scope = "all";
  status = completed;
  workspace_id = none;
}

abbrev takeover : List IntegrityStatement
takeover = recovers 100 ∷ takes "task-a" (some 0) second_claim ∷ []

-- The oldest queued row, and of several the first.
abbrev older : IntegrityTask → Option IntegrityTask → IntegrityTask
older x none = x
older x (some y) = if leb x.created_at y.created_at then x else y

abbrev oldest_of : List IntegrityTask → Option IntegrityTask
oldest_of [] = none
oldest_of (x ∷ xs) = let rest = oldest_of xs in if is_queued x then some (older x rest) else rest

oldest_is_none : (rows : List IntegrityTask) → oldest_of rows ≡ none → any is_queued rows ≡ false
oldest_is_none [] h = refl
oldest_is_none (x ∷ xs) h = ground (arith, oldest_is_none xs)

abbrev none_older : ℕ → List IntegrityTask → Bool
none_older t rows = all (λ r. not (is_queued r) || leb t r.created_at) rows

none_older_of_none :
    (t : ℕ) (rows : List IntegrityTask) → any is_queued rows ≡ false → none_older t rows ≡ true
none_older_of_none t [] h = refl
none_older_of_none t (x ∷ xs) h = ground (arith, none_older_of_none t xs)

none_older_mono :
    (t u : ℕ) (rows : List IntegrityTask)
    → leb t u ≡ true
    → none_older u rows ≡ true
    → none_older t rows ≡ true
none_older_mono t u [] l h = refl
none_older_mono t u (x ∷ xs) l h = ground (arith, none_older_mono t u xs)

older-IsOldest :
    (x : IntegrityTask) (xs : List IntegrityTask) (o : Option IntegrityTask)
    → is_queued x ≡ true
    → ((y : IntegrityTask) → o ≡ some y → IsOldest y xs)
    → (o ≡ none → any is_queued xs ≡ false)
    → IsOldest (older x o) (x ∷ xs)
older-IsOldest x xs none q h n =
    (mem-cons_self, q, ground (arith, none_older_of_none x.created_at xs (n refl)))
older-IsOldest x xs (some y) q h n =
    let (m, k, l) = h y refl in
    elim (Bool-cases (leb x.created_at y.created_at)) [
      | inl t ↦
          subst (λ r. IsOldest r (x ∷ xs)) (sym (ap (λ b. if b then x else y) t))
            (mem-cons_self, q, ground (arith, none_older_mono x.created_at y.created_at xs t l))
      | inr t ↦
          subst (λ r. IsOldest r (x ∷ xs)) (sym (ap (λ b. if b then x else y) t))
            (mem-cons_of_mem x m, k, ground arith)
    ]

oldest_of-IsOldest :
    (rows : List IntegrityTask) (row : IntegrityTask)
    → oldest_of rows ≡ some row
    → IsOldest row rows
oldest_of-IsOldest [] row h = cc
oldest_of-IsOldest (x ∷ xs) row h = elim (Bool-cases (is_queued x)) [
  | inl q ↦
      subst (λ r. IsOldest r (x ∷ xs)) (some-injective (rw q at h))
        (older-IsOldest x xs (oldest_of xs) q (oldest_of-IsOldest xs) (oldest_is_none xs))
  | inr q ↦
      let (m, k, l) = oldest_of-IsOldest xs row (rw q at h) in (mem-cons_of_mem x m, k, rw q l)
]

oldest_of-FindsOldest : FindsOldest oldest_of
oldest_of-FindsOldest = record { finds = oldest_of-IsOldest; finds_none = oldest_is_none }

run-IsExclusive_example : IsExclusive (run in_memory takeover two_tasks)
run-IsExclusive_example =
    run-IsExclusive in_memory in_memory-IsPrisma takeover two_tasks ("task-a", refl)

run-Refuses_example :
    Refuses in_memory "runner-1"
      (run in_memory (takes "task-a" (some 0) second_claim ∷ []) put_back)
run-Refuses_example =
    run-Refuses in_memory in_memory-IsPrisma "runner-1" (takes "task-a" (some 0) second_claim ∷ [])
      put_back refl refl

done_task : IntegrityTask
done_task = task_completed done 20 running_task

run-HasEnded_example :
    find?
      (has_task_id "task-a")
      (run in_memory takeover (record { tasks = done_task ∷ []; events = [] })).tasks
    ≡ some done_task
unfolding done_task
run-HasEnded_example =
    run-HasEnded in_memory in_memory-IsPrisma takeover
      (record { tasks = done_task ∷ []; events = [] }) "task-a" done_task refl (refl, inl refl)

abbrev counted_task : IntegrityTask
counted_task = record running_task { target_count = some 4 }

run-target_count_example :
    (r : IntegrityTask) × (find?
        (has_task_id "task-a")
        (run in_memory takeover (record { tasks = counted_task ∷ []; events = [] })).tasks
      ≡ some r)
    × (r.target_count ≡ some 4)
run-target_count_example =
    run-target_count in_memory in_memory-IsPrisma takeover
      (record { tasks = counted_task ∷ []; events = [] }) "task-a" counted_task 4 refl refl

complete_task-Ends_example :
    CompletionEnds "task-a" "runner-1" done 20 "audit-1" two_tasks
      (complete_task in_memory "task-a" "runner-1" done 20 "audit-1" two_tasks)
complete_task-Ends_example =
    complete_task-Ends in_memory in_memory-IsPrisma "task-a" "runner-1" done 20 "audit-1" two_tasks
      refl

claim_next_task-IsClaimed_example :
    IsClaimed second_claim
      (recovered 100 two_tasks.tasks)
      (claim_next_task in_memory oldest_of second_claim (λ d. d) (λ d. d) two_tasks)
claim_next_task-IsClaimed_example =
    claim_next_task-IsClaimed in_memory in_memory-IsPrisma oldest_of oldest_of-FindsOldest
      second_claim two_tasks ("task-a", refl) refl refl

-- The expired task is older than the queued one.
claimed_example :
    (claim_next_task in_memory oldest_of second_claim (λ d. d) (λ d. d) two_tasks).0
    ≡ resolved (some (task_claimed second_claim (some 0) running_task))
unfolding claim_next_task
claimed_example = refl

reused_example :
    (create_or_reuse_task in_memory "key-b" any_input "task-c" 9 two_tasks).0
    ≡ resolved (false, some queued_task)
unfolding create_or_reuse_task
reused_example = refl

-- A node whose content is of 10 bytes and has no checksum yet.
abbrev unchecked_node : BlobNode
unchecked_node = record {
  id = "node-a";
  workspace_id = "ws";
  blob = record {
    object_key = some "key";
    size_bytes = some 10;
    checksum_algorithm = none;
    checksum_value = none;
    integrity_status = "pending";
    acknowledged_at = none;
    acknowledged_by = none;
    last_verified_at = none;
    verification_failure_code = none;
  };
}

abbrev matched_input : SaveInput
matched_input = record {
  actual_hash = some "hash";
  attempts = 1;
  checked_at = 30;
  error_code = none;
  lease_owner = "runner-1";
  reference = record {
    expected_checksum_algorithm = none;
    expected_hash = none;
    expected_size_bytes = 10;
    node_id = some "node-a";
    object_key = "key";
    target_key = "node:node-a";
    version_id = none;
    workspace_id = "ws";
  };
  status = matched;
  task_id = "task-a";
}

abbrev result_db : ResultDb
result_db = record {
  tasks = running_task ∷ [];
  nodes = unchecked_node ∷ record unchecked_node { id = "node-b" } ∷ [];
  versions = [];
  results = [];
  events = [];
}

abbrev saved_db : ResultDb
saved_db = (save_result in_memory find? 40 "result-a" matched_input result_db).1

-- The node of the reference has the checksum that was found; the other one is as it was.
saved_nodes_example :
    saved_db.nodes
    ≡ node_checked matched_input unchecked_node ∷ record unchecked_node { id = "node-b" } ∷ []
unfolding save_result
saved_nodes_example = refl

saved_results_example :
    saved_db.results ≡ new_result matched_input "result-a" (some matched_input.reference) ∷ []
unfolding save_result
saved_results_example = refl

save_result-Kept_example : Kept matched_input result_db saved_db
save_result-Kept_example =
    save_result-Kept in_memory in_memory-IsPrisma find? 40 "result-a" matched_input result_db

-- Another verification of the target, with a mismatch, after its result is saved.
abbrev mismatched_input : SaveInput
mismatched_input = record matched_input { status = mismatch; actual_hash = some "other" }

save_result_again_example : save_result in_memory find? 41 "result-b" mismatched_input saved_db ≡ (
  resolved (some (new_result matched_input "result-a" (some matched_input.reference))),
  saved_db,
)
unfolding save_result
save_result_again_example =
    save_result_again in_memory in_memory-IsPrisma find? 41 "result-b" mismatched_input saved_db
      (new_result matched_input "result-a" (some matched_input.reference)) refl refl

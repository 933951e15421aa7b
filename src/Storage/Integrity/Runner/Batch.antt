-- ===== src/Storage/Integrity/Runner/Batch.antt =====
-- `processBatch` of storage-integrity-task-runner.service.ts: the workers of a batch take references
-- by a shared index. A worker runs alone up to its next await, so what it does between two awaits is
-- one step; the steps come in any order. References are numbered from 0.
use icedr.Prelude.{
  ℕ, zero, suc, ◌+◌, min, Bool, true, false, Option, none, some, List, [], ◌∷◌, if◌then◌else◌, ltb,
  is_none, all,
}

-- The index, what each worker verifies now, and the references that were verified and that failed.
pub record Batch : Type 0 where
  pub next_index : ℕ
  pub workers : List (Option ℕ)
  pub verified : List ℕ
  pub lost : List ℕ

-- The head of a worker's loop: the reference that it takes, with the index after that.
abbrev pub take_reference : (count next_index : ℕ) → Option ℕ × ℕ
take_reference count next_index =
    if ltb next_index count then (some next_index, next_index + 1) else (none, next_index)

-- The workers start one after the other.
unfoldable pub start_workers : (count workers next_index : ℕ) → List (Option ℕ) × ℕ
start_workers count zero next_index = ([], next_index)
start_workers count (suc workers) next_index =
    let (reference, next) = take_reference count next_index in
    let (others, last) = start_workers count workers next in (reference ∷ others, last)

unfoldable pub start_batch : (concurrency count : ℕ) → Batch
unfolding start_workers
start_batch concurrency count =
    let (workers, next_index) = start_workers count (min concurrency count) 0 in
    record { next_index = next_index; workers = workers; verified = []; lost = [] }

abbrev pub worker_at : ℕ → List (Option ℕ) → Option ℕ
worker_at n [] = none
worker_at zero (w ∷ ws) = w
worker_at (suc n) (w ∷ ws) = worker_at n ws

abbrev pub put_worker : ℕ → Option ℕ → List (Option ℕ) → List (Option ℕ)
put_worker n o [] = []
put_worker zero o (w ∷ ws) = o ∷ ws
put_worker (suc n) o (w ∷ ws) = w ∷ put_worker n o ws

-- A worker whose reference was verified goes on with its loop. One whose verification threw ends.
abbrev pub after_verification : (count worker : ℕ) → Bool → Option ℕ → Batch → Batch
after_verification count worker ok none batch = batch
after_verification count worker false (some reference) batch = record batch {
  workers = put_worker worker none batch.workers;
  lost = reference ∷ batch.lost;
}
after_verification count worker true (some reference) batch = record batch {
  next_index = (take_reference count batch.next_index).1;
  workers = put_worker worker (take_reference count batch.next_index).0 batch.workers;
  verified = reference ∷ batch.verified;
}

-- The turns of the workers, by number, with whether the verification that ends there succeeded.
unfoldable pub process_batch : (count : ℕ) → List (ℕ × Bool) → Batch → Batch
process_batch count [] batch = batch
process_batch count ((worker, ok) ∷ turns) batch =
    process_batch count turns
      (after_verification count worker ok (worker_at worker batch.workers) batch)

-- `Promise.all` waits for every worker.
abbrev pub has_ended : Batch → Bool
has_ended batch = all is_none batch.workers

-- ===== src/Storage/Integrity/Runner/Once.antt =====
-- Each reference of a batch is verified once.
use icedr.Prelude.{
  ℕ, zero, suc, ◌+◌, ◌≤◌, ◌≡◌, refl, min, Bool, true, false, not, ◌||◌, Option, none, some, List,
  [], ◌∷◌, if◌then◌else◌, ltb, leb, ◌==◌, is_none, all, any, arith, Bool-cases, inl, inr, length,
  ◌∙◌,
}
use icedr.Storage.Integrity.Runner.Batch.{
  Batch, take_reference, start_workers, start_batch, worker_at, put_worker, after_verification,
  process_batch, has_ended,
}

-- How often a reference is in a list, and with a worker.
abbrev pub count_of : ℕ → List ℕ → ℕ
count_of i [] = 0
count_of i (x ∷ xs) = (if x == i then 1 else 0) + count_of i xs

abbrev count_at : ℕ → Option ℕ → ℕ
count_at i none = 0
count_at i (some x) = if x == i then 1 else 0

abbrev count_busy : ℕ → List (Option ℕ) → ℕ
count_busy i [] = 0
count_busy i (w ∷ ws) = count_at i w + count_busy i ws

abbrev below : ℕ → ℕ → ℕ
below n i = if ltb i n then 1 else 0

abbrev occurrences : ℕ → Batch → ℕ
occurrences i batch = count_of i batch.verified + count_of i batch.lost + count_busy i batch.workers

-- Every reference that was taken is verified, lost or with one worker, once. While none is lost, a
-- worker has ended only if no reference is left.
abbrev IsSound : ℕ → Batch → Type 0
IsSound count batch =
    ((i : ℕ) → occurrences i batch ≡ below batch.next_index i)
    × (batch.next_index ≤ count)
    × ((not (length batch.lost == 0)
          || not (any is_none batch.workers)
          || leb count batch.next_index)
        ≡ true)

count-put_worker :
    (i n x : ℕ) (o : Option ℕ) (ws : List (Option ℕ))
    → worker_at n ws ≡ some x
    → count_busy i (put_worker n o ws) + count_at i (some x) ≡ count_busy i ws + count_at i o
count-put_worker i n x o [] h = cc
count-put_worker i zero x o (w ∷ ws) h = rw h (omega arith)
count-put_worker i (suc n) x o (w ∷ ws) h = ground (arith, count-put_worker i n x o ws h)

any-put_busy :
    (n x : ℕ) (ws : List (Option ℕ))
    → any is_none (put_worker n (some x) ws) ≡ true
    → any is_none ws ≡ true
any-put_busy n x [] h = cc
any-put_busy zero x (w ∷ ws) h = ground arith
any-put_busy (suc n) x (w ∷ ws) h = ground (arith, any-put_busy n x ws)

lost-IsSound :
    (count worker reference : ℕ) (batch : Batch)
    → worker_at worker batch.workers ≡ some reference
    → IsSound count batch
    → IsSound count (after_verification count worker false (some reference) batch)
lost-IsSound count worker reference batch p (o, l, e) = (
  λ i. ground (arith, o i, count-put_worker i worker reference none batch.workers p),
  l,
  ground arith,
)

verified-IsSound :
    (count worker reference : ℕ) (batch : Batch)
    → worker_at worker batch.workers ≡ some reference
    → IsSound count batch
    → IsSound count (after_verification count worker true (some reference) batch)
verified-IsSound count worker reference batch p (o, l, e) =
    elim (Bool-cases (ltb batch.next_index count)) [
      | inl t ↦ rw t (
        λ i. ground (
          arith,
          o i,
          count-put_worker i worker reference (some batch.next_index) batch.workers p,
        ),
        ground arith,
        ground (arith, any-put_busy worker batch.next_index batch.workers),
      )
      | inr f ↦ rw f (
        λ i. ground (arith, o i, count-put_worker i worker reference none batch.workers p),
        l,
        ground arith,
      )
    ]

after-IsSound :
    (count worker : ℕ) (ok : Bool) (o : Option ℕ) (batch : Batch)
    → worker_at worker batch.workers ≡ o
    → IsSound count batch
    → IsSound count (after_verification count worker ok o batch)
after-IsSound count worker ok none batch p h = h
after-IsSound count worker false (some reference) batch p h =
    lost-IsSound count worker reference batch p h
after-IsSound count worker true (some reference) batch p h =
    verified-IsSound count worker reference batch p h

process-IsSound :
    (count : ℕ) (turns : List (ℕ × Bool)) (batch : Batch)
    → IsSound count batch
    → IsSound count (process_batch count turns batch)
unfolding process_batch
process-IsSound count [] batch h = h
process-IsSound count ((worker, ok) ∷ turns) batch h =
    process-IsSound count turns
      (after_verification count worker ok (worker_at worker batch.workers) batch)
      (after-IsSound count worker ok (worker_at worker batch.workers) batch refl h)

-- The workers that start, from an index on.
StartedFrom : (count next_index : ℕ) → List (Option ℕ) × ℕ → Type 0
StartedFrom count next_index (workers, last) =
    ((i : ℕ) → count_busy i workers + below next_index i ≡ below last i)
    × (last ≤ count)
    × ((not (any is_none workers) || leb count last) ≡ true)
    × (next_index ≤ last)

start-StartedFrom :
    (count workers next_index : ℕ)
    → next_index ≤ count
    → StartedFrom count next_index (start_workers count workers next_index)
unfolding start_workers StartedFrom
start-StartedFrom count zero next_index l = (λ i. ground arith, l, refl, omega arith)
start-StartedFrom count (suc workers) next_index l = elim (Bool-cases (ltb next_index count)) [
  | inl t ↦
      let (o, m, e, n) = start-StartedFrom count workers (next_index + 1) (ground arith) in
      rw t (λ i. ground (arith, o i), m, ground (arith, e), ground (arith, n))
  | inr f ↦
      let (o, m, e, n) = start-StartedFrom count workers next_index l in
      rw f (λ i. ground (arith, o i), m, ground (arith, e, m, n), n)
]

start-IsSound : (concurrency count : ℕ) → IsSound count (start_batch concurrency count)
unfolding start_batch StartedFrom
start-IsSound concurrency count =
    let (o, l, e, n) = start-StartedFrom count (min concurrency count) 0 (omega arith) in
    (λ i. ground (arith, o i), l, ground (arith, e))

length-start_workers :
    (count workers next_index : ℕ) → length (start_workers count workers next_index).0 ≡ workers
unfolding start_workers
length-start_workers count zero next_index = refl
length-start_workers count (suc workers) next_index =
    ground (arith, length-start_workers count workers (take_reference count next_index).1)

length-put_worker :
    (n : ℕ) (o : Option ℕ) (ws : List (Option ℕ)) → length (put_worker n o ws) ≡ length ws
length-put_worker n o [] = refl
length-put_worker zero o (w ∷ ws) = refl
length-put_worker (suc n) o (w ∷ ws) = ground (arith, length-put_worker n o ws)

length-after :
    (count worker : ℕ) (ok : Bool) (o : Option ℕ) (batch : Batch)
    → length (after_verification count worker ok o batch).workers ≡ length batch.workers
length-after count worker ok none batch = refl
length-after count worker false (some reference) batch = length-put_worker worker none batch.workers
length-after count worker true (some reference) batch =
    length-put_worker worker (take_reference count batch.next_index).0 batch.workers

length-process :
    (count : ℕ) (turns : List (ℕ × Bool)) (batch : Batch)
    → length (process_batch count turns batch).workers ≡ length batch.workers
unfolding process_batch
length-process count [] batch = refl
length-process count ((worker, ok) ∷ turns) batch =
    length-process count turns
      (after_verification count worker ok (worker_at worker batch.workers) batch)
    ∙ length-after count worker ok (worker_at worker batch.workers) batch

busy_of_ended : (i : ℕ) (ws : List (Option ℕ)) → all is_none ws ≡ true → count_busy i ws ≡ 0
busy_of_ended i [] h = refl
busy_of_ended i (none ∷ ws) h = ground (arith, busy_of_ended i ws)
busy_of_ended i (some x ∷ ws) h = cc

any_of_ended :
    (ws : List (Option ℕ)) → all is_none ws ≡ true → 1 ≤ length ws → any is_none ws ≡ true
any_of_ended [] h l = absurd (omega arith)
any_of_ended (none ∷ ws) h l = refl
any_of_ended (some x ∷ ws) h l = cc

once_of_sound :
    (count : ℕ) (batch : Batch)
    → IsSound count batch
    → min 1 count ≤ length batch.workers
    → has_ended batch ≡ true
    → batch.lost ≡ []
    → (i : ℕ) → count_of i batch.verified ≡ below count i
once_of_sound count batch (o, l, e) w h n i =
    let e' : (not (0 == 0) || not (any is_none batch.workers) || leb count batch.next_index)
        ≡ true =
      rw n at e in
    let o' : count_of i batch.verified + 0 + count_busy i batch.workers ≡ below batch.next_index i =
      rw n at o i in
    ground (arith, o', busy_of_ended i batch.workers h, any_of_ended batch.workers h, e')

-- In whatever order the verifications of a batch end, with at least one worker: once every worker has
-- ended and no verification has failed, each reference of the batch was verified exactly once, and
-- nothing else.
pub process_batch-once :
    (concurrency count : ℕ) (turns : List (ℕ × Bool))
    → 1 ≤ concurrency
    → has_ended (process_batch count turns (start_batch concurrency count)) ≡ true
    → (process_batch count turns (start_batch concurrency count)).lost ≡ []
    → (i : ℕ)
    → count_of i (process_batch count turns (start_batch concurrency count)).verified
      ≡ (if ltb i count then 1 else 0)
unfolding start_batch
process_batch-once concurrency count turns c h n =
    let batch = start_batch concurrency count in
    let started = length-start_workers count (min concurrency count) 0 in
    let kept = length-process count turns batch in
    once_of_sound count (process_batch count turns batch)
      (process-IsSound count turns batch (start-IsSound concurrency count)) (omega arith) h n

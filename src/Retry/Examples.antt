-- ===== src/Retry/Examples.antt =====
-- An operation that conflicts until others have written twice.
use icedr.Prelude.{ℕ, ◌+◌, ◌≤◌, String, false, if◌then◌else◌, ltb, str_eq, arith}
use icedr.Prisma.{Action, resolved, thrown}
use icedr.Retry.{retry_prisma_serializable_transaction}
use icedr.Retry.Ends.{EndsFrom, retry-EndsFrom}

abbrev count_up : Action ℕ String ℕ
count_up n = if ltb n 3 then (thrown "P2034", n) else (resolved n, n + 1)

retry-EndsFrom_example :
    EndsFrom
      (λ code. str_eq code "P2034")
      (λ _. false)
      (λ _. 0)
      (λ _ n. n + 1)
      (λ n. 1 ≤ n)
      1
      (retry_prisma_serializable_transaction
        (λ code. str_eq code "P2034")
        (λ _. false)
        (λ _. 0)
        (λ _ n. n + 1)
        count_up
        1)
retry-EndsFrom_example =
    retry-EndsFrom (λ code. str_eq code "P2034") (λ _. false) (λ _. 0) (λ _ n. n + 1) (λ n. 1 ≤ n)
      count_up 1 (λ n h. ground (arith, h)) (λ attempt n h. omega (arith, h)) (omega arith)

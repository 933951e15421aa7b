-- ===== src/Storage/Integrity/Runner/Delays.antt =====
-- `resolveRetryDelayMs` of storage-integrity-task-runner.service.ts: how long the waits are.
use icedr.Prelude.{ℕ, zero, suc, ◌-◌, ◌^◌, ◌≤◌, ◌≡◌, arith, max}
use native.Mathlib.Nat.{pow-le-pow_right}
use icedr.Storage.Integrity.Runner.{resolve_retry_delay_ms, upper_delay_ms}

later-upper_delay : (n : ℕ) → 6 ≤ n → upper_delay_ms n ≡ 2000
later-upper_delay n h =
    let large : 2 ^ 5 ≤ 2 ^ max 0 (n - 1) = pow-le-pow_right (omega arith) {i = 5} (omega arith) in
    omega arith

pub delay-bounds :
    (n random_value : ℕ)
    → 1 ≤ n
    → (50 ≤ resolve_retry_delay_ms n random_value) × (resolve_retry_delay_ms n random_value ≤ 2000)
unfolding resolve_retry_delay_ms
delay-bounds zero random_value l = absurd (omega arith)
delay-bounds (suc zero) random_value l = (omega arith, omega arith)
delay-bounds (suc (suc zero)) random_value l = (omega arith, omega arith)
delay-bounds (suc (suc (suc zero))) random_value l = (omega arith, omega arith)
delay-bounds (suc (suc (suc (suc zero)))) random_value l = (omega arith, omega arith)
delay-bounds (suc (suc (suc (suc (suc zero))))) random_value l = (omega arith, omega arith)
delay-bounds (suc (suc (suc (suc (suc (suc n)))))) random_value l =
    rw (later-upper_delay (suc (suc (suc (suc (suc (suc n)))))) (omega arith))
      (omega arith, omega arith)

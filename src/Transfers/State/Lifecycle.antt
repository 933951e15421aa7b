-- ===== src/Transfers/State/Lifecycle.antt =====
-- How `createTransferTaskLifecycle` of transfer-task-state.ts reads a stored row as time passes.
use icedr.Prelude.{
  ℕ, ◌≤◌, ◌≡◌, refl, ◌⊎◌, ◌≢◌, String, true, Option, none, some, arith, eq_iff, Bool-cases, inl,
  inr, ap, str_eq, get_or, find?,
}
use icedr.Transfers.State.{
  TransferTaskStatus, failed, expired, TransferTaskLifecycleInput, status_text, can_transition,
  lifecycle_status, create_transfer_task_lifecycle, normalize_failure_code, failure_code_text,
  transfer_task_failure_codes, transfer_failed, TransferTaskFailureCode, retryable_failure_code,
  lifecycle_error_code, lifecycle_retryable,
}
use icedr.Transfers.State.Machine.{normalize-status_text}

-- As time passes the status that a row is read at makes only permitted transitions.
lifecycle_status_later :
    (stored : String) (expires_at : Option ℕ) (now later : ℕ)
    → now ≤ later
    → can_transition
        (lifecycle_status stored expires_at now)
        (lifecycle_status stored expires_at later)
      ≡ true
unfolding lifecycle_status can_transition
lifecycle_status_later stored expires_at now later h = ground arith

-- Storing the status that was read, and reading it again at the same time, changes nothing.
pub lifecycle_status_stored :
    (stored : String) (expires_at : Option ℕ) (now : ℕ)
    → lifecycle_status (status_text (lifecycle_status stored expires_at now)) expires_at now
      ≡ lifecycle_status stored expires_at now
unfolding lifecycle_status
lifecycle_status_stored stored expires_at now =
    ground (arith, normalize-status_text (lifecycle_status stored expires_at now))

normalize_failure_code-some :
    (value : String)
    → value ≢ ""
    → (c : TransferTaskFailureCode) × (normalize_failure_code value ≡ some c)
unfolding normalize_failure_code
normalize_failure_code-some value h = elim (Bool-cases (str_eq value "")) [
  | inl e ↦ absurd (h ((eq_iff value "").0 e))
  | inr e ↦ (
    get_or (find? (λ c. str_eq (failure_code_text c) value) transfer_task_failure_codes)
        transfer_failed,
    rw e refl,
  )
]

get_or-ne-empty :
    (code : Option String) (fallback : String)
    → fallback ≢ ""
    → code ≢ some ""
    → get_or code fallback ≢ ""
get_or-ne-empty none fallback h k = h
get_or-ne-empty (some value) fallback h k = λ e. k (ap some e)

lifecycle_error_code-some :
    (s : TransferTaskStatus) (code : Option String)
    → (s ≡ failed) ⊎ (s ≡ expired)
    → code ≢ some ""
    → (c : TransferTaskFailureCode) × (lifecycle_error_code s code ≡ some c)
lifecycle_error_code-some failed code h k =
    normalize_failure_code-some _
      (get_or-ne-empty code "TRANSFER_FAILED" (ground (arith, eq_iff "TRANSFER_FAILED" "")) k)
lifecycle_error_code-some expired code h k =
    normalize_failure_code-some _
      (get_or-ne-empty code "TRANSFER_EXPIRED" (ground (arith, eq_iff "TRANSFER_EXPIRED" "")) k)
lifecycle_error_code-some _ code h k = ground arith

lifecycle_error_code-none :
    (s : TransferTaskStatus) (code : Option String)
    → lifecycle_retryable (lifecycle_error_code s code) ≡ true
    → (s ≡ failed) ⊎ (s ≡ expired)
lifecycle_error_code-none s code h = ground arith

-- Only a lifecycle that is failed or expired can be retried.
pub lifecycle-retryable :
    (input : TransferTaskLifecycleInput) (now : ℕ)
    → (create_transfer_task_lifecycle input now).retryable ≡ true
    → ((create_transfer_task_lifecycle input now).status ≡ failed)
      ⊎ ((create_transfer_task_lifecycle input now).status ≡ expired)
unfolding create_transfer_task_lifecycle
lifecycle-retryable input now = lifecycle_error_code-none _ input.failure_code

-- Unless the stored code is the empty text, a failed or expired lifecycle has an error code, which
-- alone decides whether it can be retried.
pub lifecycle-error_code :
    (input : TransferTaskLifecycleInput) (now : ℕ)
    → ((create_transfer_task_lifecycle input now).status ≡ failed)
      ⊎ ((create_transfer_task_lifecycle input now).status ≡ expired)
    → input.failure_code ≢ some ""
    → (c : TransferTaskFailureCode) × ((create_transfer_task_lifecycle input now).error_code
        ≡ some c)
      × ((create_transfer_task_lifecycle input now).retryable ≡ retryable_failure_code c)
unfolding create_transfer_task_lifecycle
lifecycle-error_code input now h k =
    let (c, e) = lifecycle_error_code-some _ input.failure_code h k in (c, e, rw e refl)

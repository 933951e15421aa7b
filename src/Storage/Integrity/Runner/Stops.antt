-- ===== src/Storage/Integrity/Runner/Stops.antt =====
-- How an attempt of `verifyReference` in storage-integrity-task-runner.service.ts ends the loop, or lets
-- it go on, and what is then saved, without the code that decides it.
use icedr.Prelude.{
  ℕ, zero, suc, ◌+◌, ◌≡◌, ◌≤◌, ◌<◌, ◌⊎◌, Bool, true, false, ◌&&◌, Option, none, some, String, leb,
}
use icedr.Prisma.{Outcome, resolved, thrown}
use icedr.Storage.Integrity.Verify.{
  StorageIntegrityFailureCode, missing_object, size_mismatch, checksum_mismatch,
  verification_failed, IntegrityStatus, verified, mismatch, failed, VerificationResult, AbortError,
}
use icedr.Storage.Integrity.Runner.{
  VerificationAttempt, RunnerError, lease_lost, database_error, ResultStatus, matched,
  mismatch_found, check_failed, SavedResult, Verification,
}

-- The result that an attempt comes to: that of the verification or, if the verification throws anything
-- but an abort, that it failed.
abbrev pub Found :
    Outcome AbortError VerificationResult
    → (is_abort_error : Bool) → (ends_at : ℕ) → VerificationResult
    → Type 0
Found (resolved result) is_abort_error ends_at found = found ≡ result
Found (thrown error) is_abort_error ends_at found =
    (is_abort_error ≡ false)
    × (found.actual_checksum ≡ none)
    × (found.actual_size_bytes ≡ none)
    × (found.integrity_status ≡ failed)
    × (found.last_verified_at ≡ ends_at)
    × (found.verification_failure_code ≡ some verification_failed)

abbrev pub Finds : VerificationAttempt → VerificationResult → Type 0
Finds attempt = Found attempt.verification attempt.is_abort_error attempt.ends_at

-- The code by which a result says that the object could not be verified.
abbrev pub is_unsettled : Option StorageIntegrityFailureCode → Bool
is_unsettled none = false
is_unsettled (some missing_object) = false
is_unsettled (some size_mismatch) = false
is_unsettled (some checksum_mismatch) = false
is_unsettled (some verification_failed) = true

-- The audit event before a retry was written; the first attempt has none.
abbrev pub IsAudited : ℕ → VerificationAttempt → Type 0
IsAudited number attempt = (number ≡ 1) ⊎ (attempt.audit_error ≡ none)

-- How the attempt of a number, of the most that are permitted, ends the loop.
pub data Stops (max_attempts : ℕ) (number : ℕ) (attempt : VerificationAttempt)
    : Outcome RunnerError VerificationResult → Type 0 where
  aborted_before : attempt.is_aborted ≡ true → Stops max_attempts number attempt (thrown lease_lost)
  not_audited :
      {error : String}
      → attempt.is_aborted ≡ false
      → 2 ≤ number
      → attempt.audit_error ≡ some error
      → Stops max_attempts number attempt (thrown (database_error error))
  aborted :
      {error : AbortError}
      → attempt.is_aborted ≡ false
      → IsAudited number attempt
      → attempt.verification ≡ thrown error
      → attempt.is_abort_error ≡ true
      → Stops max_attempts number attempt (thrown lease_lost)
  aborted_after :
      (result : VerificationResult)
      → attempt.is_aborted ≡ false
      → IsAudited number attempt
      → Finds attempt result
      → is_unsettled result.verification_failure_code ≡ true
      → number < max_attempts
      → attempt.delay_is_aborted ≡ true
      → Stops max_attempts number attempt (thrown lease_lost)
  ended_with :
      {result : VerificationResult}
      → attempt.is_aborted ≡ false
      → IsAudited number attempt
      → Finds attempt result
      → (is_unsettled result.verification_failure_code ≡ false) ⊎ (number ≡ max_attempts)
      → Stops max_attempts number attempt (resolved result)

-- An attempt after which the loop goes on.
pub record IsRetried (number : ℕ) (attempt : VerificationAttempt) : Type 0 where
  pub not_aborted : attempt.is_aborted ≡ false
  pub audited : IsAudited number attempt
  pub result : VerificationResult
  pub finds : Finds attempt result
  pub unsettled : is_unsettled result.verification_failure_code ≡ true
  pub waited : attempt.delay_is_aborted ≡ false

module _ (attempt : ℕ → VerificationAttempt) where
  -- The attempts after the first `from` ones, as many as are asked for.
  abbrev pub AllRetried : (from count : ℕ) → Type 0
  AllRetried from zero = Unit
  AllRetried from (suc count) =
      IsRetried (from + 1) (attempt (from + 1)) × AllRetried (from + 1) count

  abbrev pub total_bytes : (from count : ℕ) → ℕ
  total_bytes from zero = 0
  total_bytes from (suc count) = (attempt (from + 1)).bytes + total_bytes (from + 1) count

abbrev pub is_permitted_delay : ℕ → Bool
is_permitted_delay delay = leb 50 delay && leb delay 2000

abbrev pub StatusFits : IntegrityStatus → ResultStatus → Type 0
StatusFits verified status = status ≡ matched
StatusFits mismatch status = status ≡ mismatch_found
StatusFits failed status = status ≡ check_failed

abbrev pub CodeFits : Option StorageIntegrityFailureCode → Option String → Type 0
CodeFits none code = code ≡ none
CodeFits (some missing_object) code = code ≡ some "missing-object"
CodeFits (some size_mismatch) code = code ≡ some "size-mismatch"
CodeFits (some checksum_mismatch) code = code ≡ some "checksum-mismatch"
CodeFits (some verification_failed) code = code ≡ some "verification-failed"

-- What is sent to be saved of a result, with the number of its attempt and the bytes of them all.
pub record IsSavedOf (attempts bytes_read : ℕ) (result : VerificationResult) (saved : SavedResult)
    : Type 0 where
  pub of_hash : saved.actual_hash ≡ result.actual_checksum
  pub of_size : saved.actual_size_bytes ≡ result.actual_size_bytes
  pub of_attempts : saved.attempts ≡ attempts
  pub of_bytes : saved.bytes_read ≡ bytes_read
  pub of_time : saved.checked_at ≡ result.last_verified_at
  pub of_code : CodeFits result.verification_failure_code saved.error_code
  pub of_status : StatusFits result.integrity_status saved.status

-- What is sent to be saved when the target has changed.
pub record IsChangedTarget (now : ℕ) (saved : SavedResult) : Type 0 where
  pub no_hash : saved.actual_hash ≡ none
  pub no_size : saved.actual_size_bytes ≡ none
  pub no_attempts : saved.attempts ≡ 0
  pub no_bytes : saved.bytes_read ≡ 0
  pub at_once : saved.checked_at ≡ now
  pub changed : saved.error_code ≡ some "target-changed"
  pub not_matched : saved.status ≡ check_failed

-- How it ends after a save: well if there is a row, the lease lost if there is none.
abbrev pub IsAnswered : Outcome String Bool → Outcome RunnerError (Unit {0}) → Type 0
IsAnswered (resolved true) outcome = outcome ≡ resolved tt
IsAnswered (resolved false) outcome = outcome ≡ thrown lease_lost
IsAnswered (thrown error) outcome = outcome ≡ thrown (database_error error)

module _ (save_result : SavedResult → Outcome String Bool) where
  -- One result is sent, which satisfies a condition, and the answer decides.
  abbrev pub Sends : (SavedResult → Type 0) → Verification → Type 0
  Sends P (outcome, sent) =
      (saved : SavedResult) × (sent ≡ some saved) × P saved × IsAnswered (save_result saved) outcome

  -- The end of the loop with an error is the end, and nothing is sent.
  abbrev pub IsEndOf :
      (attempts bytes_read : ℕ) → Outcome RunnerError VerificationResult → Verification → Type 0
  IsEndOf attempts bytes_read (thrown error) verification = verification ≡ (thrown error, none)
  IsEndOf attempts bytes_read (resolved result) verification =
      Sends (IsSavedOf attempts bytes_read result) verification

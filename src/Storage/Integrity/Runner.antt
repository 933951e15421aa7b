-- ===== src/Storage/Integrity/Runner.antt =====
-- backend/src/modules/storage/storage-integrity-task-runner.service.ts: how a runner verifies one
-- reference, and how its workers share a batch. The random numbers are those of Math.random, natural
-- numbers of which 2 ^ 53 make one. The messages for people are left out.
pub mod Delays
pub mod Stops
pub mod Found
pub mod Settled
pub mod Attempts
pub mod Batch
pub mod Loop
pub mod Wakeups
pub mod Once
mod Examples
use icedr.Prelude.{
  ℕ, zero, suc, ◌+◌, ◌-◌, ◌*◌, ◌/◌, ◌^◌, min, max, Bool, true, false, not, ◌||◌, Option, none, some,
  List, [], ◌∷◌, if◌then◌else◌, leb, String,
}
use icedr.Prisma.{Outcome, resolved, thrown}
use icedr.Storage.Integrity.Verify.{
  StorageIntegrityFailureCode, missing_object, size_mismatch, checksum_mismatch,
  verification_failed, IntegrityStatus, verified, mismatch, failed, VerificationResult, AbortError,
  failed_result,
}

abbrev pub retry_base_delay_ms : ℕ
retry_base_delay_ms = 100

abbrev pub retry_max_delay_ms : ℕ
retry_max_delay_ms = 2000

abbrev pub upper_delay_ms : ℕ → ℕ
upper_delay_ms retry_number =
    min retry_max_delay_ms (retry_base_delay_ms * 2 ^ max 0 (retry_number - 1))

-- `Math.ceil(upperBound / 2)`
abbrev pub lower_delay_ms : ℕ → ℕ
lower_delay_ms retry_number = (upper_delay_ms retry_number + 1) / 2

unfoldable pub resolve_retry_delay_ms : (retry_number random_value : ℕ) → ℕ
resolve_retry_delay_ms retry_number random_value =
    lower_delay_ms retry_number
    + (min (2 ^ 53 - 2) random_value
        * (upper_delay_ms retry_number - lower_delay_ms retry_number + 1))
      / 2 ^ 53

-- What happens around an attempt: whether the signal is aborted before it, the error of the audit event
-- that is written before a retry, how the verification ends, at what time, with how many bytes counted,
-- whether the signal is aborted then or the error is one of an abort, and whether the signal is aborted
-- in the wait that may follow.
pub record VerificationAttempt : Type 0 where
  pub is_aborted : Bool
  pub audit_error : Option String
  pub verification : Outcome AbortError VerificationResult
  pub ends_at : ℕ
  pub bytes : ℕ
  pub is_abort_error : Bool
  pub random_value : ℕ
  pub delay_is_aborted : Bool

pub data ResultStatus : Type 0 where
  matched mismatch_found check_failed : ResultStatus

-- What the runner saves of a reference.
pub record SavedResult : Type 0 where
  pub actual_hash : Option (List ℕ)
  pub actual_size_bytes : Option ℕ
  pub attempts : ℕ
  pub bytes_read : ℕ
  pub checked_at : ℕ
  pub error_code : Option String
  pub status : ResultStatus

pub data RunnerError : Type 0 where
  lease_lost no_result : RunnerError
  database_error : String → RunnerError

-- The result of an attempt, if the attempt was not aborted.
abbrev pub result_of : VerificationAttempt → Option VerificationResult
result_of attempt = elim attempt.verification [
  | resolved result ↦ some result
  | thrown error ↦
      if attempt.is_abort_error
      then none
      else some (failed_result attempt.ends_at verification_failed)
]

abbrev pub is_inconclusive : VerificationResult → Bool
is_inconclusive result = elim result.verification_failure_code [
  | some verification_failed ↦ true
  | _ ↦ false
]

-- The end of the loop: the number of attempts, the bytes, the last result, and the waits in between.
pub record Looped : Type 0 where
  pub attempts : ℕ
  pub bytes_read : ℕ
  pub outcome : Outcome RunnerError (Option VerificationResult)
  pub delays : List ℕ

abbrev pub after_wait : ℕ → Looped → Looped
after_wait delay looped = record looped { delays = delay ∷ looped.delays }

-- The loop that ends here, with an error or with the last result.
abbrev pub loop_end :
    (attempts bytes_read : ℕ) → Outcome RunnerError (Option VerificationResult) → Looped
loop_end attempts bytes_read outcome = record {
  attempts = attempts;
  bytes_read = bytes_read;
  outcome = outcome;
  delays = [];
}

-- The event that a retry has started is written before each attempt but the first.
abbrev pub retry_audit_error : ℕ → VerificationAttempt → Option String
retry_audit_error attempts attempt = if leb attempts 1 then none else attempt.audit_error

module _ (max_attempts : ℕ) (attempt : ℕ → VerificationAttempt) where
  -- What follows the result of an attempt: `rest` is the loop from the next one.
  unfoldable pub verification_ended : ℕ → ℕ → Option VerificationResult → Looped → Looped
  unfolding resolve_retry_delay_ms
  verification_ended attempts bytes_read none rest =
      loop_end attempts bytes_read (thrown lease_lost)
  verification_ended attempts bytes_read (some result) rest =
      if not (is_inconclusive result) || leb max_attempts attempts
      then loop_end attempts bytes_read (resolved (some result))
      else if (attempt attempts).delay_is_aborted
      then loop_end attempts bytes_read (thrown lease_lost)
      else after_wait (resolve_retry_delay_ms attempts (attempt attempts).random_value) rest

  -- An attempt after the event of a retry, which `error` is that of.
  unfoldable pub after_audit : (attempts bytes_read : ℕ) → (error : Option String) → Looped → Looped
  unfolding verification_ended
  after_audit attempts bytes_read (some error) rest =
      loop_end attempts bytes_read (thrown (database_error error))
  after_audit attempts bytes_read none rest =
      verification_ended attempts (bytes_read + (attempt attempts).bytes)
        (result_of (attempt attempts)) rest

  -- The loop, by the attempts left of the most that are permitted.
  unfoldable pub verify_loop : (left attempts bytes_read : ℕ) → Looped
  unfolding after_audit
  verify_loop zero attempts bytes_read = loop_end attempts bytes_read (resolved none)
  verify_loop (suc left) attempts bytes_read =
      let this = attempt (attempts + 1) in
      let rest = verify_loop left (attempts + 1) (bytes_read + this.bytes) in
      if this.is_aborted
      then loop_end (attempts + 1) bytes_read (thrown lease_lost)
      else after_audit (attempts + 1) bytes_read (retry_audit_error (attempts + 1) this) rest

abbrev pub verification_code_text : StorageIntegrityFailureCode → String
verification_code_text missing_object = "missing-object"
verification_code_text size_mismatch = "size-mismatch"
verification_code_text checksum_mismatch = "checksum-mismatch"
verification_code_text verification_failed = "verification-failed"

abbrev pub error_code_of : VerificationResult → Option String
error_code_of result = elim result.verification_failure_code [
  | none ↦ none
  | some code ↦ some (verification_code_text code)
]

abbrev pub result_status : IntegrityStatus → ResultStatus
result_status verified = matched
result_status mismatch = mismatch_found
result_status failed = check_failed

abbrev pub saved_result : ℕ → ℕ → VerificationResult → SavedResult
saved_result attempts bytes_read result = record {
  actual_hash = result.actual_checksum;
  actual_size_bytes = result.actual_size_bytes;
  attempts = attempts;
  bytes_read = bytes_read;
  checked_at = result.last_verified_at;
  error_code = error_code_of result;
  status = result_status result.integrity_status;
}

abbrev pub changed_target_result : ℕ → SavedResult
changed_target_result now = record {
  actual_hash = none;
  actual_size_bytes = none;
  attempts = 0;
  bytes_read = 0;
  checked_at = now;
  error_code = some "target-changed";
  status = check_failed;
}

-- How the verification of a reference ends, with what was sent to `saveResult`, if it came to that.
abbrev pub Verification : Type 0
Verification = Outcome RunnerError (Unit {0}) × Option SavedResult

-- The answer of `saveResult`: whether there is a row.
abbrev pub after_save : SavedResult → Outcome String Bool → Verification
after_save saved (resolved true) = (resolved tt, some saved)
after_save saved (resolved false) = (thrown lease_lost, some saved)
after_save saved (thrown error) = (thrown (database_error error), some saved)

module _ (save_result : SavedResult → Outcome String Bool) where
  abbrev pub save_looped :
      (attempts bytes_read : ℕ) → Outcome RunnerError (Option VerificationResult) → Verification
  save_looped attempts bytes_read (thrown error) = (thrown error, none)
  save_looped attempts bytes_read (resolved none) = (thrown no_result, none)
  save_looped attempts bytes_read (resolved (some result)) =
      let saved = saved_result attempts bytes_read result in after_save saved (save_result saved)

  -- `is_current` is the answer of `isTargetCurrent`.
  unfoldable pub verify_reference :
      (max_attempts : ℕ)
      → (attempt : ℕ → VerificationAttempt) → (is_current : Outcome String Bool) → (now : ℕ)
      → Verification
  unfolding verify_loop
  verify_reference max_attempts attempt (thrown error) now = (thrown (database_error error), none)
  verify_reference max_attempts attempt (resolved false) now =
      let saved = changed_target_result now in after_save saved (save_result saved)
  verify_reference max_attempts attempt (resolved true) now =
      let looped = verify_loop max_attempts attempt max_attempts 0 0 in
      save_looped looped.attempts looped.bytes_read looped.outcome

-- ===== src/Storage/Integrity/Runner/Attempts.antt =====
-- How the verification of one reference ends.
use icedr.Prelude.{
  ℕ, zero, suc, ◌+◌, ◌≤◌, ◌<◌, ◌≡◌, refl, Bool, true, false, Option, none, some, List, length, all,
  arith, Bool-cases, inl, inr, String, subst,
}
use icedr.Prisma.{Outcome, resolved, thrown}
use icedr.Storage.Integrity.Verify.{
  VerificationResult, StorageIntegrityFailureCode, missing_object, size_mismatch, checksum_mismatch,
  verification_failed, IntegrityStatus, verified, mismatch, failed,
}
use icedr.Storage.Integrity.Runner.{
  VerificationAttempt, RunnerError, database_error, verify_loop, verify_reference,
  retry_audit_error, SavedResult, saved_result, Verification, save_looped, after_save,
  result_status, changed_target_result, verification_code_text,
}
use icedr.Storage.Integrity.Runner.Stops.{
  Stops, aborted_before, AllRetried, total_bytes, is_permitted_delay, StatusFits, CodeFits,
  IsSavedOf, IsChangedTarget, IsAnswered, Sends, IsEndOf,
}
use icedr.Storage.Integrity.Runner.Settled.{
  IsSettled, CameTo, BytesFit, lease_lost_here, audited-IsSettled,
}

module _ (max_attempts : ℕ) (attempt : ℕ → VerificationAttempt) where
  attempt-IsSettled :
      (left from bytes_read : ℕ)
      → from + 1 ≤ max_attempts
      → (from + 2 ≤ max_attempts
          → IsSettled max_attempts attempt (from + 1) (bytes_read + (attempt (from + 1)).bytes) (
              verify_loop max_attempts attempt left
                (from + 1)
                (bytes_read + (attempt (from + 1)).bytes)))
      → IsSettled max_attempts attempt from bytes_read
          (verify_loop max_attempts attempt (suc left) from bytes_read)
  unfolding verify_loop
  attempt-IsSettled left from bytes_read m next =
      let this = attempt (from + 1) in
      elim (Bool-cases this.is_aborted) [
        | inl a ↦
            rw (verify_loop, a)
              (lease_lost_here max_attempts attempt from bytes_read bytes_read m (aborted_before a))
        | inr a ↦
            rw (verify_loop, a)
              (audited-IsSettled max_attempts attempt from bytes_read
                (verify_loop max_attempts attempt left (from + 1) (bytes_read + this.bytes))
                (retry_audit_error (from + 1) this) refl a m next)
      ]

  loop-IsSettled :
      (left from bytes_read : ℕ)
      → suc left + from ≡ max_attempts
      → IsSettled max_attempts attempt from bytes_read
          (verify_loop max_attempts attempt (suc left) from bytes_read)
  loop-IsSettled zero from bytes_read e =
      attempt-IsSettled zero from bytes_read (omega arith) (λ l. absurd (omega arith))
  loop-IsSettled (suc left) from bytes_read e =
      attempt-IsSettled (suc left) from bytes_read (omega arith) (λ l.
        loop-IsSettled left (from + 1) (bytes_read + (attempt (from + 1)).bytes) (omega arith))

status-StatusFits : (status : IntegrityStatus) → StatusFits status (result_status status)
status-StatusFits verified = refl
status-StatusFits mismatch = refl
status-StatusFits failed = refl

code-CodeFits :
    (code : Option StorageIntegrityFailureCode)
    → CodeFits code (elim code [ none ↦ none | some c ↦ some (verification_code_text c) ])
code-CodeFits none = refl
code-CodeFits (some missing_object) = refl
code-CodeFits (some size_mismatch) = refl
code-CodeFits (some checksum_mismatch) = refl
code-CodeFits (some verification_failed) = refl

answer-IsAnswered :
    (saved : SavedResult) (answer : Outcome String Bool)
    → ((after_save saved answer).1 ≡ some saved) × IsAnswered answer (after_save saved answer).0
answer-IsAnswered saved (resolved true) = (refl, refl)
answer-IsAnswered saved (resolved false) = (refl, refl)
answer-IsAnswered saved (thrown error) = (refl, refl)

module _ (save_result : SavedResult → Outcome String Bool) where
  sends :
      (P : SavedResult → Type 0) (saved : SavedResult)
      → P saved
      → Sends save_result P (after_save saved (save_result saved))
  sends P saved p =
      let (sent, answered) = answer-IsAnswered saved (save_result saved) in
      (saved, sent, p, answered)

  saved_of_end :
      (attempts bytes_read total : ℕ) (outcome : Outcome RunnerError (Option VerificationResult))
      (end : Outcome RunnerError VerificationResult)
      → CameTo outcome end
      → BytesFit bytes_read total end
      → IsEndOf save_result attempts total end (save_looped save_result attempts bytes_read outcome)
  saved_of_end attempts bytes_read total outcome (thrown error) came fit = rw came refl
  saved_of_end attempts bytes_read total outcome (resolved result) came fit = rw came (
      sends (IsSavedOf attempts total result) (saved_result attempts bytes_read result) (record {
        of_hash = refl;
        of_size = refl;
        of_attempts = refl;
        of_bytes = fit;
        of_time = refl;
        of_code = code-CodeFits result.verification_failure_code;
        of_status = status-StatusFits result.integrity_status;
      }))

  -- What becomes of a reference that is current: so many attempts after which it goes on, as many as
  -- the waits, and the one that ends the loop, whose end is that of the whole or is saved.
  pub record IsVerified (max_attempts : ℕ) (attempt : ℕ → VerificationAttempt) (delays : List ℕ)
      (verification : Verification) : Type 0 where
    pub at_most : length delays < max_attempts
    pub permitted : all is_permitted_delay delays ≡ true
    pub retried : AllRetried attempt 0 (length delays)
    pub end : Outcome RunnerError VerificationResult
    pub stops : Stops max_attempts (length delays + 1) (attempt (length delays + 1)) end
    pub ended :
        IsEndOf save_result
          (length delays + 1)
          (total_bytes attempt 0 (length delays + 1))
          end
          verification

  settled-IsVerified :
      (max_attempts : ℕ) (attempt : ℕ → VerificationAttempt)
      → IsSettled max_attempts attempt 0 0 (verify_loop max_attempts attempt max_attempts 0 0)
      → (now : ℕ)
      → IsVerified max_attempts attempt
          (verify_loop max_attempts attempt max_attempts 0 0).delays
          (verify_reference save_result max_attempts attempt (resolved true) now)
  unfolding verify_reference
  settled-IsVerified max_attempts attempt s now =
      let looped = verify_loop max_attempts attempt max_attempts 0 0 in
      let count = length looped.delays in
      let number : looped.attempts ≡ count + 1 = omega (arith, s.number) in
      let from_zero : 0 + total_bytes attempt 0 (suc count) ≡ total_bytes attempt 0 (suc count) =
        omega arith in
      let next : suc count ≡ count + 1 = omega arith in
      let bytes : BytesFit looped.bytes_read (total_bytes attempt 0 (count + 1)) s.end =
        subst (λ k. BytesFit looped.bytes_read (total_bytes attempt 0 k) s.end) next
          (subst (λ total. BytesFit looped.bytes_read total s.end) from_zero s.bytes) in
      record {
        at_most = omega (arith, s.at_most);
        permitted = s.delays;
        retried = s.retried;
        end = s.end;
        stops = subst (λ k. Stops max_attempts k (attempt k) s.end) number s.stops;
        ended =
            subst
              (λ k.
                IsEndOf save_result k (total_bytes attempt 0 (count + 1)) s.end
                  (save_looped save_result looped.attempts looped.bytes_read looped.outcome))
              number
              (saved_of_end looped.attempts looped.bytes_read (total_bytes attempt 0 (count + 1))
                looped.outcome s.end s.came bytes);
      }

-- A reference that is current is verified in at least one attempt and at most as many as are
-- permitted, when one is. The loop goes on after an attempt only if it was not aborted, nor the wait
-- after it, its audit event was written if it was a retry, and it came to the result that the object
-- could not be verified; each wait is of 50 to 2000 milliseconds. The loop ends with the lease lost
-- only if the signal is aborted before an attempt, the verification throws as it is aborted, or the
-- signal is aborted in the wait before another attempt that is permitted. The error of an audit event
-- ends it as such. Otherwise the first result that settles it, or that of the last attempt permitted,
-- is sent to be saved: with its checksum, size, time, code and status, its attempt's number, and the
-- bytes of all attempts. A verification that throws anything but an abort has the result that the
-- object could not be verified. A reference that is no longer current is sent to be saved as changed,
-- and an error of that test ends it. If a row is saved, all is well; if none is, the lease is lost; an
-- error of the save ends it as such.
pub verify_reference-IsSaved :
    (save_result : SavedResult → Outcome String Bool) (max_attempts : ℕ)
    (attempt : ℕ → VerificationAttempt) (now : ℕ) (error : String)
    → 1 ≤ max_attempts
    → IsVerified save_result max_attempts attempt
        (verify_loop max_attempts attempt max_attempts 0 0).delays
        (verify_reference save_result max_attempts attempt (resolved true) now)
      × Sends save_result
          (IsChangedTarget now)
          (verify_reference save_result max_attempts attempt (resolved false) now)
      × (verify_reference save_result max_attempts attempt (thrown error) now
          ≡ (thrown (database_error error), none))
unfolding verify_reference
verify_reference-IsSaved save_result zero attempt now error m = absurd (omega arith)
verify_reference-IsSaved save_result (suc left) attempt now error m = (
  settled-IsVerified save_result (suc left) attempt
      (loop-IsSettled (suc left) attempt left 0 0 (omega arith)) now,
  sends save_result (IsChangedTarget now) (changed_target_result now) (record {
    no_hash = refl;
    no_size = refl;
    no_attempts = refl;
    no_bytes = refl;
    at_once = refl;
    changed = refl;
    not_matched = refl;
  }),
  refl,
)

-- ===== src/Storage/Integrity/Runner/Found.antt =====
-- What one attempt of `verifyReference` comes to: the code's tests, by the conditions of Stops.
use icedr.Prelude.{
  ℕ, ◌≤◌, ◌≡◌, refl, Bool, true, false, Option, none, some, leb, arith, Bool-cases, inl, inr,
  String, some-injective, sym, ap, if◌then◌else◌,
}
use icedr.Prisma.{Outcome, resolved, thrown}
use icedr.Storage.Integrity.Verify.{
  VerificationResult, StorageIntegrityFailureCode, missing_object, size_mismatch, checksum_mismatch,
  verification_failed, AbortError, failed_result,
}
use icedr.Storage.Integrity.Runner.{
  VerificationAttempt, result_of, is_inconclusive, retry_audit_error,
}
use icedr.Storage.Integrity.Runner.Stops.{Found, is_unsettled, IsAudited}

-- The result of an attempt, by how its verification ended.
pub outcome_of : Outcome AbortError VerificationResult → Bool → ℕ → Option VerificationResult
outcome_of (resolved result) is_abort_error ends_at = some result
outcome_of (thrown error) is_abort_error ends_at =
    if is_abort_error then none else some (failed_result ends_at verification_failed)

pub result_of-eq-outcome_of :
    (attempt : VerificationAttempt)
    → result_of attempt ≡ outcome_of attempt.verification attempt.is_abort_error attempt.ends_at
unfolding outcome_of
result_of-eq-outcome_of attempt = ground arith

pub outcome-Found :
    (verification : Outcome AbortError VerificationResult) (is_abort_error : Bool) (ends_at : ℕ)
    (result : VerificationResult)
    → outcome_of verification is_abort_error ends_at ≡ some result
    → Found verification is_abort_error ends_at result
unfolding outcome_of
outcome-Found (resolved found) is_abort_error ends_at result h = cc
outcome-Found (thrown error) true ends_at result h = cc
outcome-Found (thrown error) false ends_at result h =
    let e : failed_result ends_at verification_failed ≡ result = some-injective h in
    (
      refl,
      sym (ap (λ r. r.actual_checksum) e),
      sym (ap (λ r. r.actual_size_bytes) e),
      sym (ap (λ r. r.integrity_status) e),
      sym (ap (λ r. r.last_verified_at) e),
      sym (ap (λ r. r.verification_failure_code) e),
    )

pub outcome-none :
    (verification : Outcome AbortError VerificationResult) (is_abort_error : Bool) (ends_at : ℕ)
    → outcome_of verification is_abort_error ends_at ≡ none
    → (error : AbortError) × (verification ≡ thrown error) × (is_abort_error ≡ true)
unfolding outcome_of
outcome-none (resolved found) is_abort_error ends_at h = cc
outcome-none (thrown error) true ends_at h = (error, refl, refl)
outcome-none (thrown error) false ends_at h = cc

unsettled_code :
    (code : Option StorageIntegrityFailureCode)
    → (elim code [ some verification_failed ↦ true | _ ↦ false ]) ≡ is_unsettled code
unsettled_code none = refl
unsettled_code (some missing_object) = refl
unsettled_code (some size_mismatch) = refl
unsettled_code (some checksum_mismatch) = refl
unsettled_code (some verification_failed) = refl

pub inconclusive-eq :
    (result : VerificationResult)
    → is_inconclusive result ≡ is_unsettled result.verification_failure_code
inconclusive-eq result = unsettled_code result.verification_failure_code

pub audit_error_of :
    (number : ℕ) (attempt : VerificationAttempt) (error : String)
    → retry_audit_error number attempt ≡ some error
    → (2 ≤ number) × (attempt.audit_error ≡ some error)
audit_error_of number attempt error h = ground arith

pub no_audit_error :
    (number : ℕ) (attempt : VerificationAttempt)
    → 1 ≤ number
    → retry_audit_error number attempt ≡ none
    → IsAudited number attempt
no_audit_error number attempt l h = elim (Bool-cases (leb number 1)) [
  | inl e ↦ inl (ground arith)
  | inr e ↦ inr (ground arith)
]

-- ===== src/Storage/Integrity/Runner/Settled.antt =====
-- One attempt of the loop of `verifyReference`, and the loop that may follow.
use icedr.Prelude.{
  ℕ, suc, ◌+◌, ◌≤◌, ◌<◌, ◌≡◌, ◌⊎◌, refl, Bool, true, false, not, ◌||◌, Option, none, some, leb,
  length, all, arith, Bool-cases, Option-cases, inl, inr, String, sym, subst, ◌∙◌,
}
use icedr.Prisma.{Outcome, resolved, thrown}
use icedr.Storage.Integrity.Verify.{VerificationResult}
use icedr.Storage.Integrity.Runner.{
  resolve_retry_delay_ms, VerificationAttempt, RunnerError, lease_lost, database_error,
  is_inconclusive, loop_end, Looped, after_wait, verification_ended, after_audit, retry_audit_error,
}
use icedr.Storage.Integrity.Runner.Delays.{delay-bounds}
use icedr.Storage.Integrity.Runner.Found.{
  outcome_of, result_of-eq-outcome_of, outcome-Found, outcome-none, inconclusive-eq, audit_error_of,
  no_audit_error,
}
use icedr.Storage.Integrity.Runner.Stops.{
  Finds, is_unsettled, IsAudited, Stops, not_audited, aborted, aborted_after, ended_with, IsRetried,
  AllRetried, total_bytes, is_permitted_delay,
}

-- What the loop comes to.
abbrev pub CameTo :
    Outcome RunnerError (Option VerificationResult)
    → Outcome RunnerError VerificationResult
    → Type 0
CameTo outcome (thrown error) = outcome ≡ thrown error
CameTo outcome (resolved result) = outcome ≡ resolved (some result)

-- The bytes matter only with a result.
abbrev pub BytesFit : ℕ → ℕ → Outcome RunnerError VerificationResult → Type 0
BytesFit bytes_read total (thrown error) = Unit
BytesFit bytes_read total (resolved result) = bytes_read ≡ total

module _ (max_attempts : ℕ) (attempt : ℕ → VerificationAttempt) where
  -- The loop after `from` attempts: so many retries as it waits, and the attempt that ends it.
  pub record IsSettled (from bytes_read : ℕ) (looped : Looped) : Type 0 where
    pub number : length looped.delays + from + 1 ≡ looped.attempts
    pub at_most : looped.attempts ≤ max_attempts
    pub delays : all is_permitted_delay looped.delays ≡ true
    pub retried : AllRetried attempt from (length looped.delays)
    pub end : Outcome RunnerError VerificationResult
    pub stops : Stops max_attempts looped.attempts (attempt looped.attempts) end
    pub came : CameTo looped.outcome end
    pub bytes :
        BytesFit looped.bytes_read
          (bytes_read + total_bytes attempt from (suc (length looped.delays)))
          end

module _ (max_attempts : ℕ) (attempt : ℕ → VerificationAttempt) where
  -- A loop that ends with the attempt after `from` ones.
  ended_here :
      (from bytes_read read : ℕ) (outcome : Outcome RunnerError (Option VerificationResult))
      (end : Outcome RunnerError VerificationResult)
      → from + 1 ≤ max_attempts
      → Stops max_attempts (from + 1) (attempt (from + 1)) end
      → CameTo outcome end
      → BytesFit read (bytes_read + total_bytes attempt from 1) end
      → IsSettled max_attempts attempt from bytes_read (loop_end (from + 1) read outcome)
  ended_here from bytes_read read outcome end m stops came fit = record {
    number = omega arith;
    at_most = m;
    delays = refl;
    retried = tt;
    end = end;
    stops = stops;
    came = came;
    bytes = fit;
  }

  pub lease_lost_here :
      (from bytes_read read : ℕ)
      → from + 1 ≤ max_attempts
      → Stops max_attempts (from + 1) (attempt (from + 1)) (thrown lease_lost)
      → IsSettled max_attempts attempt from bytes_read
          (loop_end (from + 1) read (thrown lease_lost))
  lease_lost_here from bytes_read read m stops =
      ended_here from bytes_read read (thrown lease_lost) (thrown lease_lost) m stops refl tt

  after_wait-IsSettled :
      (from bytes_read delay : ℕ) (looped : Looped)
      → is_permitted_delay delay ≡ true
      → IsRetried (from + 1) (attempt (from + 1))
      → IsSettled max_attempts attempt (from + 1) (bytes_read + (attempt (from + 1)).bytes) looped
      → IsSettled max_attempts attempt from bytes_read (after_wait delay looped)
  after_wait-IsSettled from bytes_read delay looped d w s = record {
    number = omega (arith, s.number);
    at_most = s.at_most;
    delays = ground (arith, d, s.delays);
    retried = (w, s.retried);
    end = s.end;
    stops = s.stops;
    came = s.came;
    bytes = subst (λ total. BytesFit looped.bytes_read total s.end) (omega arith) s.bytes;
  }

  -- An attempt that comes to a result, and the loop that may follow.
  result-IsSettled :
      (from bytes_read : ℕ) (rest : Looped) (result : VerificationResult)
      → (attempt (from + 1)).is_aborted ≡ false
      → IsAudited (from + 1) (attempt (from + 1))
      → Finds (attempt (from + 1)) result
      → from + 1 ≤ max_attempts
      → (from + 2 ≤ max_attempts
          → IsSettled max_attempts attempt
              (from + 1)
              (bytes_read + (attempt (from + 1)).bytes)
              rest)
      → IsSettled max_attempts attempt from bytes_read (
          verification_ended max_attempts attempt
            (from + 1)
            (bytes_read + (attempt (from + 1)).bytes)
            (some result)
            rest)
  unfolding verification_ended
  result-IsSettled from bytes_read rest result a u f m next =
      let this = attempt (from + 1) in
      let read = bytes_read + this.bytes in
      let same = inconclusive-eq result in
      elim (Bool-cases (not (is_inconclusive result) || leb max_attempts (from + 1))) [
        | inl e ↦
            rw (verification_ended, e)
              (ended_here from bytes_read read (resolved (some result)) (resolved result) m
                (ended_with a u f (settled (is_inconclusive result) (from + 1) result same m e))
                refl (omega arith))
        | inr e ↦
            let unsettled : is_unsettled result.verification_failure_code ≡ true =
              sym same ∙ ground arith in
            let more : from + 1 < max_attempts = ground arith in
            elim (Bool-cases this.delay_is_aborted) [
              | inl d ↦
                  rw (verification_ended, e, d)
                    (lease_lost_here from bytes_read read m
                      (aborted_after result a u f unsettled more d))
              | inr d ↦
                  let (lower, upper) = delay-bounds (from + 1) this.random_value (omega arith) in
                  rw (verification_ended, e, d)
                    (after_wait-IsSettled from bytes_read
                      (resolve_retry_delay_ms (from + 1) this.random_value) rest
                      (ground (arith, lower, upper))
                      (record {
                        not_aborted = a;
                        audited = u;
                        result = result;
                        finds = f;
                        unsettled = unsettled;
                        waited = d;
                      })
                      (next (omega arith)))
            ]
      ]
    where
      settled :
          (inconclusive : Bool) (number : ℕ) (result : VerificationResult)
          → inconclusive ≡ is_unsettled result.verification_failure_code
          → number ≤ max_attempts
          → (not inconclusive || leb max_attempts number) ≡ true
          → (is_unsettled result.verification_failure_code ≡ false) ⊎ (number ≡ max_attempts)
      settled true number result same m e = inr (ground arith)
      settled false number result same m e = inl (sym same)

  -- An attempt that is not aborted, after its audit event.
  pub audited-IsSettled :
      (from bytes_read : ℕ) (rest : Looped) (error : Option String)
      → retry_audit_error (from + 1) (attempt (from + 1)) ≡ error
      → (attempt (from + 1)).is_aborted ≡ false
      → from + 1 ≤ max_attempts
      → (from + 2 ≤ max_attempts
          → IsSettled max_attempts attempt
              (from + 1)
              (bytes_read + (attempt (from + 1)).bytes)
              rest)
      → IsSettled max_attempts attempt from bytes_read
          (after_audit max_attempts attempt (from + 1) bytes_read error rest)
  unfolding after_audit verification_ended
  audited-IsSettled from bytes_read rest (some error) h a m next =
      let (l, e) = audit_error_of (from + 1) (attempt (from + 1)) error h in
      ended_here from bytes_read bytes_read (thrown (database_error error))
        (thrown (database_error error)) m (not_audited a l e) refl tt
  audited-IsSettled from bytes_read rest none h a m next =
      let this = attempt (from + 1) in
      let u = no_audit_error (from + 1) this (omega arith) h in
      let o = outcome_of this.verification this.is_abort_error this.ends_at in
      elim (Option-cases o) [
        | inl p ↦
            let (error, t, b) = outcome-none this.verification this.is_abort_error this.ends_at p in
            rw (result_of-eq-outcome_of this ∙ p)
              (lease_lost_here from bytes_read (bytes_read + this.bytes) m (aborted a u t b))
        | inr (result, p) ↦
            let f = outcome-Found this.verification this.is_abort_error this.ends_at result p in
            rw (result_of-eq-outcome_of this ∙ p)
              (result-IsSettled from bytes_read rest result a u f m next)
      ]

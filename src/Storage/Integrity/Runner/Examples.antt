-- ===== src/Storage/Integrity/Runner/Examples.antt =====
-- Verifications of objects, references and batches by the runner on concrete inputs.
use icedr.Prelude.{
  ◌<◌, ℕ, String, ◌≡◌, refl, Bool, true, false, none, some, List, [], ◌∷◌, arith, if◌then◌else◌,
  codes, trim, ◌==◌,
}
use icedr.Prisma.{Outcome, resolved, thrown}
use icedr.Storage.Integrity.Verify.{
  VerifyInput, verified, opened, ended, verify_object, failed_result, verification_failed,
}
use icedr.Storage.Integrity.Verify.Decides.{Decided, ends_with, verify_object-Decided}
use icedr.Storage.Integrity.Runner.{
  VerificationAttempt, SavedResult, database_error, verify_loop, verify_reference,
}
use icedr.Storage.Integrity.Runner.Stops.{Sends, IsChangedTarget}
use icedr.Storage.Integrity.Runner.Attempts.{IsVerified, verify_reference-IsSaved}
use icedr.Storage.Integrity.Runner.Batch.{start_batch, process_batch}
use icedr.Storage.Integrity.Runner.Loop.{
  RunnerLoop, claiming, claimed_nothing, loop_ended, kick, run_loop,
}
use icedr.Storage.Integrity.Runner.Wakeups.{kick-is_served}
use icedr.Storage.Integrity.Runner.Once.{count_of, process_batch-once}

-- A function in the place of SHA-256, with 64 hexadecimal digits.
abbrev any_hash : List ℕ
any_hash = codes "0123456789abcdef0123456789abcdef0123456789abcdef0123456789abcdef"

abbrev two_bytes : VerifyInput
two_bytes = record {
  expected_size_bytes = 2;
  checksum_algorithm = some (codes "sha-256");
  checksum_value = some any_hash;
}

abbrev two_chunks : List (List ℕ × Bool)
two_chunks = (7 ∷ [], false) ∷ (8 ∷ [], false) ∷ []

verify_object-Decided_example :
    Decided
      (λ t. any_hash)
      (λ t. t)
      two_bytes
      false
      (opened false two_chunks ended)
      (verify_object (λ t. any_hash) (λ t. t) 5 two_bytes false (opened false two_chunks ended))
verify_object-Decided_example =
    verify_object-Decided (λ t. any_hash) (λ t. t) 5 two_bytes false (opened false two_chunks ended)

verified_example :
    ends_with verified
      (verify_object (λ t. any_hash) (λ t. t) 5 two_bytes false (opened false two_chunks ended))
    ≡ true
unfolding verify_object trim
verified_example = refl

-- The first attempt comes to no result, the second does.
abbrev second_succeeds : ℕ → VerificationAttempt
second_succeeds n = record {
  is_aborted = false;
  audit_error = none;
  verification =
      if n == 1
      then resolved (failed_result 3 verification_failed)
      else resolved (record {
        actual_checksum = some any_hash;
        actual_size_bytes = some 2;
        integrity_status = verified;
        last_verified_at = 9;
        verification_failure_code = none;
      });
  ends_at = n;
  bytes = 2;
  is_abort_error = false;
  random_value = 0;
  delay_is_aborted = false;
}

abbrev is_saved : SavedResult → Outcome String Bool
is_saved saved = resolved true

verify_reference-IsSaved_example :
    IsVerified is_saved 3 second_succeeds
      (verify_loop 3 second_succeeds 3 0 0).delays
      (verify_reference is_saved 3 second_succeeds (resolved true) 0)
    × Sends is_saved
        (IsChangedTarget 0)
        (verify_reference is_saved 3 second_succeeds (resolved false) 0)
    × (verify_reference is_saved 3 second_succeeds (thrown "timeout") 0
        ≡ (thrown (database_error "timeout"), none))
verify_reference-IsSaved_example =
    verify_reference-IsSaved is_saved 3 second_succeeds 0 "timeout" (omega arith)

delays_example : (verify_loop 3 second_succeeds 3 0 0).delays ≡ 50 ∷ []
unfolding verify_loop
delays_example = refl

-- Two workers and three references; the second worker is the faster one.
abbrev three_turns : List (ℕ × Bool)
three_turns = (1, true) ∷ (1, true) ∷ (0, true) ∷ []

process_batch-once_example : count_of 2 (process_batch 3 three_turns (start_batch 2 3)).verified ≡ 1
unfolding process_batch start_batch
process_batch-once_example = process_batch-once 2 3 three_turns (omega arith) refl refl 2

-- A loop that waits for a claim when it is asked for another.
abbrev waiting_loop : RunnerLoop
waiting_loop = record { destroyed = false; requested = false; phase = claiming; claims = 1 }

kick-is_served_example :
    1 < (run_loop (claimed_nothing ∷ claimed_nothing ∷ loop_ended ∷ []) (kick waiting_loop)).claims
unfolding run_loop kick
kick-is_served_example =
    kick-is_served waiting_loop (claimed_nothing ∷ claimed_nothing ∷ loop_ended ∷ []) refl refl

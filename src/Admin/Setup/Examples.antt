-- ===== src/Admin/Setup/Examples.antt =====
-- Runs of the setup claim of setup-operation.service.ts on concrete tables, with the client in
-- memory.
use icedr.Prelude.{◌≡◌, refl, ◌⊎◌, ◌≢◌, String, false, some, List, [], ◌∷◌, arith, eq_iff}
use icedr.Prisma.{in_memory, in_memory-IsPrisma, resolved, thrown, Action, Outcome, return}
use icedr.Admin.Setup.{
  SetupOperationClaim, SetupOperation, SetupDb, SetupError, in_progress, payload_locked, claim_lost,
  action_failed, reclaimable, claimed, classify_conflict, new_operation, completed,
  marked_irreversible,
}
use icedr.Admin.Setup.Operations.{claim_operation}
use icedr.Admin.Setup.Exclusive.{run_exclusive}
use icedr.Admin.Setup.Claims.{IsHeld, one_operation, held_claim_excludes}
use icedr.Admin.Setup.History.{
  SetupEvent, takes_over, completes, fails, run, IsLocked, payload_stays-IsLocked,
}
use icedr.Admin.Setup.Fencing.{AllLost, superseded_claim_is_lost}
use icedr.Admin.Setup.Outcomes.{EndsAs, run_exclusive_ends}

abbrev first_claim : SetupOperationClaim
first_claim = record { claim_token_hash = "token-1"; payload_fingerprint = "payload-1" }

abbrev second_claim : SetupOperationClaim
second_claim = record { claim_token_hash = "token-2"; payload_fingerprint = "payload-2" }

-- The row of the first claim at time 0, which ends at 900000.
abbrev held_row : SetupOperation
held_row = new_operation first_claim 0

abbrev locked_row : SetupOperation
locked_row = marked_irreversible 10 held_row

abbrev done_row : SetupOperation
done_row = completed 20 locked_row

first_insertion :
    claim_operation in_memory first_claim 0
      (λ d. d)
      (λ d. d)
      (record { operations = []; bootstrap = [] })
    ≡ (resolved first_claim, one_operation held_row [])
unfolding claim_operation reclaimable
first_insertion = refl

held_row-IsHeld : IsHeld held_row 899999
unfolding icedr.Admin.Setup.has_setup_key
held_row-IsHeld = record {
  key = refl;
  running = refl;
  open_end = refl;
  lease = 900000;
  leased = refl;
  unlapsed = ground arith;
}

held_claim_excludes_example :
    let result =
      claim_operation in_memory second_claim 899999 (λ d. d) (λ d. d) (one_operation held_row []) in
    (result.1 ≡ one_operation held_row [])
    × ((result.0 ≡ thrown in_progress) ⊎ (result.0 ≡ thrown payload_locked))
held_claim_excludes_example =
    held_claim_excludes in_memory in_memory-IsPrisma second_claim 899999 held_row [] held_row-IsHeld

abbrev later_events : List SetupEvent
later_events =
    fails first_claim 30
    ∷ takes_over second_claim 40
    ∷ takes_over first_claim 50
    ∷ completes first_claim 60
    ∷ []

other_payload : second_claim.payload_fingerprint ≢ first_claim.payload_fingerprint
other_payload = ground (arith, eq_iff "payload-2" "payload-1")

payload_stays-IsLocked_example :
    (r : SetupOperation) × ((run in_memory later_events (one_operation locked_row [])).operations
      ≡ r ∷ [])
    × IsLocked "payload-1" r
    × (reclaimable "payload-2" 1000000 r ≡ false)
unfolding icedr.Admin.Setup.has_setup_key
payload_stays-IsLocked_example =
    payload_stays-IsLocked in_memory in_memory-IsPrisma later_events "payload-1" "payload-2" 1000000
      locked_row [] refl refl (refl, refl) other_payload

other_token : first_claim.claim_token_hash ≢ second_claim.claim_token_hash
other_token = ground (arith, eq_iff "token-1" "token-2")

superseded_claim_is_lost_example :
    AllLost in_memory first_claim 900001
      (claim_operation in_memory second_claim 900000
        (λ d. d)
        (λ d. d)
        (one_operation held_row [])).1
unfolding icedr.Admin.Setup.has_setup_key reclaimable
superseded_claim_is_lost_example =
    superseded_claim_is_lost in_memory in_memory-IsPrisma first_claim second_claim 900000 900001
      held_row [] refl refl other_token

abbrev setup_action : Action SetupDb SetupError String
setup_action = return "ready"

-- The next claim for the payload of the second one.
abbrev third_claim : SetupOperationClaim
third_claim = record { claim_token_hash = "token-3"; payload_fingerprint = "payload-2" }

run_exclusive_ends_example :
    (result : Outcome SetupError String) × (r : SetupOperation) × (run_exclusive in_memory
        second_claim 900000 900001
        (λ d. d)
        (λ d. d)
        (some claim_lost)
        setup_action
        (one_operation held_row [])
      ≡ (result, one_operation r []))
    × EndsAs 900001
        (some claim_lost)
        (resolved "ready")
        result
        (claimed second_claim 900000 held_row)
        r
    × ((claim_operation in_memory third_claim 900002 (λ d. d) (λ d. d) (one_operation r [])).0
        ≡ resolved third_claim)
unfolding icedr.Admin.Setup.has_setup_key reclaimable icedr.Admin.Setup.owner_where
run_exclusive_ends_example =
    run_exclusive_ends in_memory in_memory-IsPrisma second_claim third_claim 900000 900001 900002
      held_row (claimed second_claim 900000 held_row) [] [] (some claim_lost) setup_action
      (resolved "ready") refl refl refl refl refl refl

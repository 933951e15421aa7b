-- ===== src/Admin/Setup/Outcomes.antt =====
-- What `runExclusive` of setup-operation.service.ts leaves behind.
use icedr.Prelude.{ℕ, ◌≡◌, refl, true, Option, none, some, List, arith, String}
use icedr.Prisma.{
  Client, IsPrisma, by_in_memory, in_memory, in_memory-IsPrisma, Action, Outcome, resolved, thrown,
}
use icedr.Admin.Setup.{
  SetupOperationClaim, SetupOperation, SetupDb, BootstrapSetting, SetupError, reclaimable, claimed,
  has_setup_key, owner_where, released, failed,
}
use icedr.Admin.Setup.Operations.{release, fail, claim_operation}
use icedr.Admin.Setup.Exclusive.{run_exclusive, after_action, end_lease}
use icedr.Admin.Setup.Claims.{one_operation, claim_decides}

-- The row after the end: free again, or failed, with the claim's lease given up in both cases.
abbrev pub IsFreed : SetupOperation → Type 0
IsFreed row =
    (row.status ≡ "idle")
    × (row.claim_token_hash ≡ none)
    × (row.claim_expires_at ≡ none)
    × (row.irreversible_started_at ≡ none)
    × (row.failed_at ≡ none)

abbrev pub IsFailed : ℕ → SetupOperation → SetupOperation → Type 0
IsFailed later held row =
    (row.status ≡ "failed")
    × (row.claim_token_hash ≡ none)
    × (row.claim_expires_at ≡ none)
    × (row.irreversible_started_at ≡ held.irreversible_started_at)
    × (row.failed_at ≡ some later)

-- The error of a renewal, how the action ended, the result, and the row before and after the end.
abbrev pub EndsAs :
    {A : Type 0}
    → ℕ
    → Option SetupError
    → (outcome result : Outcome SetupError A) → (held row : SetupOperation) → Type 0
EndsAs later none (resolved a) result held row = (result ≡ resolved a) × IsFreed row
EndsAs later (some e) (resolved a) result held row = (result ≡ thrown e) × IsFailed later held row
EndsAs later last_error (thrown e) result held row = (result ≡ thrown e) × IsFailed later held row

status_after : {A : Type 0} → ℕ → Outcome SetupError A → SetupOperation → SetupOperation
status_after later (resolved a) row = released later row
status_after later (thrown e) row = failed later row

status_after-EndsAs :
    {A : Type 0} (later : ℕ) (last_error : Option SetupError) (outcome : Outcome SetupError A)
    (held : SetupOperation)
    → EndsAs later last_error outcome
        (end_lease last_error outcome)
        held
        (status_after later (end_lease last_error outcome) held)
unfolding status_after
status_after-EndsAs later none (resolved a) held = (refl, (refl, refl, refl, refl, refl))
status_after-EndsAs later (some e) (resolved a) held = (refl, (refl, refl, refl, refl, refl))
status_after-EndsAs later none (thrown e) held = (refl, (refl, refl, refl, refl, refl))
status_after-EndsAs later (some d) (thrown e) held = (refl, (refl, refl, refl, refl, refl))

status_after-reclaimable :
    {A : Type 0} (claim : SetupOperationClaim) (after later : ℕ) (held : SetupOperation)
    (o : Outcome SetupError A)
    → owner_where claim held ≡ true
    → held.completed_at ≡ none
    → (has_setup_key (status_after later o held) ≡ true)
      × (reclaimable claim.payload_fingerprint after (status_after later o held) ≡ true)
unfolding reclaimable owner_where has_setup_key status_after
status_after-reclaimable claim after later held (resolved a) h n = ground arith
status_after-reclaimable claim after later held (thrown e) h n = ground arith

module _ {A : Type 0} (claim : SetupOperationClaim) (now later : ℕ) (row held : SetupOperation)
    (b b' : List BootstrapSetting) (last_error : Option SetupError)
    (action : Action SetupDb SetupError A) (outcome : Outcome SetupError A) where
  after_one :
      owner_where claim held ≡ true
      → (o : Outcome SetupError A)
      → after_action in_memory claim later (o, one_operation held b')
        ≡ (o, one_operation (status_after later o held) b')
  unfolding release fail status_after
  after_one h (resolved a) = rw h refl
  after_one h (thrown e) = rw h refl

  run_one :
      has_setup_key row ≡ true
      → reclaimable claim.payload_fingerprint now row ≡ true
      → action (one_operation (claimed claim now row) b) ≡ (outcome, one_operation held b')
      → owner_where claim held ≡ true
      → run_exclusive in_memory claim now later
          (λ d. d)
          (λ d. d)
          last_error
          action
          (one_operation row b)
        ≡ (
          end_lease last_error outcome,
          one_operation (status_after later (end_lease last_error outcome) held) b',
        )
  unfolding run_exclusive
  run_one h k p o =
      rw (claim_decides in_memory in_memory-IsPrisma claim now row b h, k)
        (rw p (after_one o (end_lease last_error outcome)))

-- A later claim of a row that may be taken over is granted.
granted :
    (next : SetupOperationClaim) (fingerprint : String) (after : ℕ) (row : SetupOperation)
    (b : List BootstrapSetting)
    → next.payload_fingerprint ≡ fingerprint
    → (has_setup_key row ≡ true) × (reclaimable fingerprint after row ≡ true)
    → (claim_operation in_memory next after (λ d. d) (λ d. d) (one_operation row b)).0
      ≡ resolved next
granted next fingerprint after row b e (h, k) =
    rw (claim_decides in_memory in_memory-IsPrisma next after row b h, e, k) refl

-- After an action under a granted claim that still owned its row at the end, the row not completed:
-- if neither the action nor the last renewal failed, the result is the action's and the row is idle
-- again, with no irreversible step begun; otherwise the result is the action's error or else the
-- renewal's, and the row has failed. In both cases no claim is left on the row, and whenever the next
-- claim for the same payload comes, it is granted.
pub run_exclusive_ends :
    {A : Type 0} (prisma : Client)
    → IsPrisma prisma
    → (claim next : SetupOperationClaim) (now later after : ℕ) (row held : SetupOperation)
      (b b' : List BootstrapSetting) (last_error : Option SetupError)
      (action : Action SetupDb SetupError A) (outcome : Outcome SetupError A)
    → has_setup_key row ≡ true
    → reclaimable claim.payload_fingerprint now row ≡ true
    → action (one_operation (claimed claim now row) b) ≡ (outcome, one_operation held b')
    → owner_where claim held ≡ true
    → held.completed_at ≡ none
    → next.payload_fingerprint ≡ claim.payload_fingerprint
    → (result : Outcome SetupError A) × (r : SetupOperation) × (run_exclusive prisma claim now later
          (λ d. d)
          (λ d. d)
          last_error
          action
          (one_operation row b)
        ≡ (result, one_operation r b'))
      × EndsAs later last_error outcome result held r
      × ((claim_operation prisma next after (λ d. d) (λ d. d) (one_operation r b')).0
          ≡ resolved next)
run_exclusive_ends {A} prisma laws claim next now later after row held b b' last_error action
      outcome h k p o n e =
    let result = end_lease last_error outcome in
    let r = status_after later result held in
    by_in_memory
      (λ c.
        (result : Outcome SetupError A) × (r : SetupOperation) × (run_exclusive c claim now later
            (λ d. d) (λ d. d) last_error action (one_operation row b)
          ≡ (result, one_operation r b'))
        × EndsAs later last_error outcome result held r
        × ((claim_operation c next after (λ d. d) (λ d. d) (one_operation r b')).0 ≡ resolved next))
      laws
      (
        result,
        r,
        run_one claim now later row held b b' last_error action outcome h k p o,
        status_after-EndsAs later last_error outcome held,
        granted next claim.payload_fingerprint after r b' e
            (status_after-reclaimable claim after later held result o n),
      )

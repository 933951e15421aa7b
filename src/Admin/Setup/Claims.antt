-- ===== src/Admin/Setup/Claims.antt =====
-- Who may hold the setup claim of setup-operation.service.ts.
use icedr.Prelude.{
  ℕ, ◌<◌, ◌≡◌, refl, ap, ◌⊎◌, inl, inr, String, true, false, none, some, List, [], ◌∷◌,
  if◌then◌else◌, arith, eq_iff, Bool-cases,
}
use icedr.Prisma.{Client, IsPrisma, by_in_memory, in_memory, Outcome, resolved, thrown}
use icedr.Admin.Setup.{
  SetupOperationClaim, SetupOperation, SetupDb, BootstrapSetting, SetupError, in_progress,
  payload_locked, reclaimable, claimed, has_setup_key, classify_conflict,
}
use icedr.Admin.Setup.Operations.{claim_operation, insert_claim}

-- A row that others hold: running under a lease that has not ended, and not completed.
pub record IsHeld (row : SetupOperation) (now : ℕ) : Type 0 where
  pub key : has_setup_key row ≡ true
  pub running : row.status ≡ "running"
  pub open_end : row.completed_at ≡ none
  pub lease : ℕ
  pub leased : row.claim_expires_at ≡ some lease
  pub unlapsed : now < lease

not_reclaimable :
    (row : SetupOperation) (now : ℕ) (fingerprint : String)
    → IsHeld row now
    → reclaimable fingerprint now row ≡ false
unfolding reclaimable
not_reclaimable row now fingerprint h = ground (
  arith,
  eq_iff row.status "idle",
  eq_iff row.status "failed",
  eq_iff "running" "idle",
  eq_iff "running" "failed",
)

held_conflict :
    (row : SetupOperation) (now : ℕ) (fingerprint : String)
    → IsHeld row now
    → (classify_conflict row fingerprint now ≡ in_progress)
      ⊎ (classify_conflict row fingerprint now ≡ payload_locked)
unfolding classify_conflict
held_conflict row now fingerprint h = ground (
  arith,
  eq_iff row.status "completed",
  eq_iff row.status "running",
  eq_iff "running" "completed",
)

-- The table of one row on which the setup runs.
abbrev pub one_operation : SetupOperation → List BootstrapSetting → SetupDb
one_operation row bootstrap = record { operations = row ∷ []; bootstrap = bootstrap }

insert_one :
    (claim : SetupOperationClaim) (now : ℕ) (row : SetupOperation) (b : List BootstrapSetting)
    → has_setup_key row ≡ true
    → insert_claim in_memory claim now (λ d. d) (one_operation row b)
      ≡ (thrown (classify_conflict row claim.payload_fingerprint now), one_operation row b)
unfolding insert_claim
insert_one claim now row b h = ground arith

claim_one :
    (claim : SetupOperationClaim) (now : ℕ) (row : SetupOperation) (b : List BootstrapSetting)
    → has_setup_key row ≡ true
    → claim_operation in_memory claim now (λ d. d) (λ d. d) (one_operation row b) ≡ (
        if reclaimable claim.payload_fingerprint now row
        then (resolved claim, one_operation (claimed claim now row) b)
        else (thrown (classify_conflict row claim.payload_fingerprint now), one_operation row b))
unfolding claim_operation
claim_one claim now row b h = elim (Bool-cases (reclaimable claim.payload_fingerprint now row)) [
  | inl e ↦ rw e refl
  | inr e ↦ rw e (insert_one claim now row b h)
]

-- On a table of one row a claim is granted exactly if the row may be taken over, and then the row
-- is the claim's; otherwise the claim is refused with the conflict of that row and changes nothing.
pub claim_decides :
    (prisma : Client)
    → IsPrisma prisma
    → (claim : SetupOperationClaim) (now : ℕ) (row : SetupOperation) (b : List BootstrapSetting)
    → has_setup_key row ≡ true
    → claim_operation prisma claim now (λ d. d) (λ d. d) (one_operation row b) ≡ (
        if reclaimable claim.payload_fingerprint now row
        then (resolved claim, one_operation (claimed claim now row) b)
        else (thrown (classify_conflict row claim.payload_fingerprint now), one_operation row b))
claim_decides prisma laws claim now row b h =
    by_in_memory
      (λ c. claim_operation c claim now (λ d. d) (λ d. d) (one_operation row b) ≡ (
        if reclaimable claim.payload_fingerprint now row
        then (resolved claim, one_operation (claimed claim now row) b)
        else (thrown (classify_conflict row claim.payload_fingerprint now), one_operation row b)))
      laws (claim_one claim now row b h)

-- While a claim runs under a lease that has not ended, another claim is refused: with the code for a
-- setup in progress, or for a payload that may not change; and it changes nothing.
pub held_claim_excludes :
    (prisma : Client)
    → IsPrisma prisma
    → (claim : SetupOperationClaim) (now : ℕ) (row : SetupOperation) (b : List BootstrapSetting)
    → IsHeld row now
    → let result = claim_operation prisma claim now (λ d. d) (λ d. d) (one_operation row b) in
      (result.1 ≡ one_operation row b)
      × ((result.0 ≡ thrown in_progress) ⊎ (result.0 ≡ thrown payload_locked))
held_claim_excludes prisma laws claim now row b h =
    rw (claim_decides prisma laws claim now row b h.key) (
      rw (not_reclaimable row now claim.payload_fingerprint h)
        (refl, refused (held_conflict row now claim.payload_fingerprint h)))
  where
    refused :
        {e : SetupError}
        → (e ≡ in_progress) ⊎ (e ≡ payload_locked)
        → (◌≡◌ {A = Outcome SetupError SetupOperationClaim} (thrown e) (thrown in_progress))
          ⊎ (◌≡◌ {A = Outcome SetupError SetupOperationClaim} (thrown e) (thrown payload_locked))
    refused (inl p) = inl (ap thrown p)
    refused (inr p) = inr (ap thrown p)

-- ===== src/Admin/Setup/Fencing.antt =====
-- A claim of setup-operation.service.ts whose row another claim has taken over.
use icedr.Prelude.{ℕ, ◌≡◌, ◌≢◌, refl, sym, true, false, some, List, arith, is_text_iff}
use mathlib.Core.Option.{some-injective}
use icedr.Prisma.{Client, IsPrisma, by_in_memory, in_memory, in_memory-IsPrisma, thrown}
use icedr.Admin.Setup.{
  SetupOperationClaim, SetupOperation, SetupDb, BootstrapSetting, claim_lost, reclaimable, claimed,
  has_setup_key, owner_where,
}
use icedr.Admin.Setup.Operations.{
  claim_operation, mark_irreversible, extend_lease, complete_with_bootstrap, release, fail,
}
use icedr.Admin.Setup.Claims.{one_operation, claim_decides}

-- An operation of the owner changes nothing and throws where no row is its claim's.
module _ (claim : SetupOperationClaim) (now : ℕ) (row : SetupOperation) (b : List BootstrapSetting)
    (foreign : owner_where claim row ≡ false) where
  foreign_operations :
      (mark_irreversible in_memory claim now (one_operation row b)
        ≡ (thrown claim_lost, one_operation row b))
      × (extend_lease in_memory claim now (one_operation row b)
          ≡ (thrown claim_lost, one_operation row b))
      × (complete_with_bootstrap in_memory claim now (one_operation row b)
          ≡ (thrown claim_lost, one_operation row b))
      × (release in_memory claim now (one_operation row b)
          ≡ (thrown claim_lost, one_operation row b))
      × (fail in_memory claim now (one_operation row b) ≡ (thrown claim_lost, one_operation row b))
  unfolding mark_irreversible extend_lease complete_with_bootstrap release fail
  foreign_operations =
      (rw foreign refl, rw foreign refl, rw foreign refl, rw foreign refl, rw foreign refl)

abbrev pub AllLost : Client → SetupOperationClaim → ℕ → SetupDb → Type 0
AllLost c old later db =
    (mark_irreversible c old later db ≡ (thrown claim_lost, db))
    × (extend_lease c old later db ≡ (thrown claim_lost, db))
    × (complete_with_bootstrap c old later db ≡ (thrown claim_lost, db))
    × (release c old later db ≡ (thrown claim_lost, db))
    × (fail c old later db ≡ (thrown claim_lost, db))

not_owner_of_foreign :
    (claim : SetupOperationClaim) (row : SetupOperation)
    → row.claim_token_hash ≢ some claim.claim_token_hash
    → owner_where claim row ≡ false
unfolding owner_where
not_owner_of_foreign claim row h =
    ground (arith, is_text_iff row.claim_token_hash claim.claim_token_hash)

-- When a later claim has taken the row over, every operation of the earlier one, whose token is
-- another, ends with the error that its claim is lost, and changes nothing.
pub superseded_claim_is_lost :
    (prisma : Client)
    → IsPrisma prisma
    → (old new : SetupOperationClaim) (now later : ℕ) (row : SetupOperation)
      (b : List BootstrapSetting)
    → has_setup_key row ≡ true
    → reclaimable new.payload_fingerprint now row ≡ true
    → old.claim_token_hash ≢ new.claim_token_hash
    → AllLost prisma old later
        (claim_operation prisma new now (λ d. d) (λ d. d) (one_operation row b)).1
superseded_claim_is_lost prisma laws old new now later row b h k ne =
    by_in_memory
      (λ c.
        AllLost c old later (claim_operation c new now (λ d. d) (λ d. d) (one_operation row b)).1)
      laws
      (rw (claim_decides in_memory in_memory-IsPrisma new now row b h, k)
        (foreign_operations old later (claimed new now row) b
          (not_owner_of_foreign old (claimed new now row) (λ e. ne (sym (some-injective _ _ e))))))

-- ===== src/Admin/Setup/Operations.antt =====
-- The statements of setup-operation.service.ts, and the operations that are made of them.
use icedr.Prelude.{ℕ, Bool, true, false, Option, none, some, if◌then◌else◌, ◌==◌, length}
use icedr.Prisma.{Client, resolved, Action, ◌>>=◌, ◌>>◌, return, throw}
use icedr.Admin.Setup.{
  SetupOperationClaim, SetupOperation, BootstrapSetting, SetupDb, SetupError, claim_lost,
  reclaimable, claimed, new_operation, has_setup_key, owner_where, conflict_of, put_operations,
  marked_irreversible, extended, completed, released, failed,
}

module _ (prisma : Client) where
  -- `updateMany`, with the number of rows that it changed.
  update_operations :
      (SetupOperation → Bool) → (SetupOperation → SetupOperation) → Action SetupDb SetupError ℕ
  update_operations test patch db =
      let (rows, returned) =
        prisma.update_many_and_return SetupOperation test patch db.operations in
      (resolved (length returned), put_operations db rows)

  create_operation : SetupOperationClaim → ℕ → Action SetupDb SetupError Bool
  create_operation claim now db =
      elim (prisma.create SetupOperation has_setup_key (new_operation claim now) db.operations) [
        | none ↦ (resolved false, db)
        | some rows ↦ (resolved true, put_operations db rows)
      ]

  find_operation : Action SetupDb SetupError (Option SetupOperation)
  find_operation db = (resolved (prisma.find_first SetupOperation has_setup_key db.operations), db)

  -- The first statement of `claim`: takes over a row that may be taken over.
  unfoldable pub take_over : SetupOperationClaim → ℕ → Action SetupDb SetupError Bool
  unfolding update_operations
  take_over claim now = do
    count ← update_operations (reclaimable claim.payload_fingerprint now) (claimed claim now)
    return (count == 1)

  -- What follows when no row could be taken over; `others` is what other requests write between
  -- the failed insertion and the read.
  unfoldable pub insert_claim :
      SetupOperationClaim → ℕ → (SetupDb → SetupDb) → Action SetupDb SetupError SetupOperationClaim
  unfolding create_operation find_operation
  insert_claim claim now others = do
    created ← create_operation claim now
    if created then return claim else do
      found ← (λ db. find_operation (others db))
      throw (conflict_of found claim.payload_fingerprint now)

  -- `between` is what other requests write between the takeover and the insertion.
  unfoldable pub claim_operation :
      SetupOperationClaim
      → ℕ
      → (between others : SetupDb → SetupDb) → Action SetupDb SetupError SetupOperationClaim
  unfolding take_over insert_claim
  claim_operation claim now between others = do
    taken ← take_over claim now
    if taken then return claim else (λ db. insert_claim claim now others (between db))

  assert_current_owner : ℕ → Action SetupDb SetupError (Unit {0})
  assert_current_owner count = if count == 1 then return tt else throw claim_lost

  -- An update under the claim, which must find its row.
  owner_update :
      SetupOperationClaim → (SetupOperation → SetupOperation) → Action SetupDb SetupError (Unit {0})
  unfolding update_operations assert_current_owner
  owner_update claim patch = do
    count ← update_operations (owner_where claim) patch
    assert_current_owner count

  unfoldable pub mark_irreversible : SetupOperationClaim → ℕ → Action SetupDb SetupError (Unit {0})
  unfolding owner_update
  mark_irreversible claim now = owner_update claim (marked_irreversible now)

  unfoldable pub extend_lease : SetupOperationClaim → ℕ → Action SetupDb SetupError (Unit {0})
  unfolding owner_update
  extend_lease claim now = owner_update claim (extended now)

  upsert_bootstrap : ℕ → Action SetupDb SetupError (Unit {0})
  upsert_bootstrap now db = (
    resolved tt,
    record db {
      bootstrap =
          prisma.upsert BootstrapSetting (λ _. true)
            (record { completed = true; completed_at = now; updated_at = now })
            (λ row. record row { completed = true; completed_at = now; updated_at = now })
            db.bootstrap;
    },
  )

  unfoldable pub complete_with_bootstrap :
      SetupOperationClaim → ℕ → Action SetupDb SetupError (Unit {0})
  unfolding owner_update upsert_bootstrap
  complete_with_bootstrap claim now =
      prisma.transaction SetupError (Unit {0}) SetupDb
        (do owner_update claim (completed now); upsert_bootstrap now)

  unfoldable pub release : SetupOperationClaim → ℕ → Action SetupDb SetupError (Unit {0})
  unfolding owner_update
  release claim now = owner_update claim (released now)

  unfoldable pub fail : SetupOperationClaim → ℕ → Action SetupDb SetupError (Unit {0})
  unfolding owner_update
  fail claim now = owner_update claim (failed now)

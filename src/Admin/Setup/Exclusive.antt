-- ===== src/Admin/Setup/Exclusive.antt =====
-- `runExclusive` and `withLease` of setup-operation.service.ts. The action is what runs under the
-- claim, with all that others and the heartbeat's renewals write meanwhile.
use icedr.Prelude.{ℕ, Option, none, some}
use icedr.Prisma.{Client, Outcome, resolved, thrown, Action, ◌>>=◌}
use icedr.Admin.Setup.{SetupOperationClaim, SetupDb, SetupError}
use icedr.Admin.Setup.Operations.{claim_operation, release, fail}

abbrev pub end_lease :
    {A : Type 0} → Option SetupError → Outcome SetupError A → Outcome SetupError A
end_lease none (resolved a) = resolved a
end_lease (some e) (resolved a) = thrown e
end_lease last_error (thrown e) = thrown e

-- `last_error` is the error of the last renewal, with which stopping the heartbeat throws. An error
-- of the action comes first.
unfoldable pub with_lease :
    {A : Type 0} → Option SetupError → Action SetupDb SetupError A → Action SetupDb SetupError A
with_lease last_error action db =
    let (outcome, after) = action db in (end_lease last_error outcome, after)

-- The errors of `release` and `fail` are only logged.
abbrev pub after_action :
    {A : Type 0}
    → Client
    → SetupOperationClaim
    → ℕ
    → Outcome SetupError A × SetupDb
    → Outcome SetupError A × SetupDb
after_action prisma claim now (thrown e, db) = (thrown e, (fail prisma claim now db).1)
after_action prisma claim now (resolved a, db) = (resolved a, (release prisma claim now db).1)

-- `now` is the time of the claim and `later` that of its end.
unfoldable pub run_exclusive :
    {A : Type 0}
    → Client
    → SetupOperationClaim
    → (now later : ℕ) → (between others : SetupDb → SetupDb) → Option SetupError
    → Action SetupDb SetupError A
    → Action SetupDb SetupError A
unfolding with_lease
run_exclusive prisma claim now later between others last_error action = do
  held ← claim_operation prisma claim now between others
  (λ db. after_action prisma held later (with_lease last_error action db))

-- ===== src/Admin/Setup.antt =====
-- backend/src/modules/admin/setup/setup-operation.service.ts: the exclusive claim under which the
-- initial setup runs. Tables are changed through the client; `now`, the hash of a random token and
-- the payload's fingerprint, which the code computes by the clock and by node:crypto, are arguments.
pub mod Operations
pub mod Exclusive
pub mod Claims
pub mod History
pub mod Fencing
pub mod Outcomes
pub mod Examples
use icedr.Prelude.{
  ℕ, ◌+◌, ◌*◌, String, Bool, true, false, not, ◌&&◌, ◌||◌, Option, none, some, List, [], ◌∷◌,
  if◌then◌else◌, leb, ltb, ◌==◌, length, is_none, is_some, is_text, str_eq,
}

abbrev pub setup_operation_key : String
setup_operation_key = "setup-exclusive"

abbrev pub setup_operation_claim_lease_milliseconds : ℕ
setup_operation_claim_lease_milliseconds = 15 * 60 * 1000

pub record SetupOperationClaim : Type 0 where
  pub claim_token_hash : String
  pub payload_fingerprint : String

-- A row of setup_operations.
pub record SetupOperation : Type 0 where
  pub operation_key : String
  pub status : String
  pub payload_fingerprint : String
  pub claim_token_hash : Option String
  pub claimed_at : Option ℕ
  pub claim_expires_at : Option ℕ
  pub irreversible_started_at : Option ℕ
  pub completed_at : Option ℕ
  pub failed_at : Option ℕ
  pub failure_code : Option String
  pub failure_message : Option String
  pub created_at : ℕ
  pub updated_at : ℕ

-- A row of settings that marks the bootstrap as completed at a time.
pub record BootstrapSetting : Type 0 where
  pub completed : Bool
  pub completed_at : ℕ
  pub updated_at : ℕ

pub record SetupDb : Type 0 where
  pub operations : List SetupOperation
  pub bootstrap : List BootstrapSetting

pub data SetupError : Type 0 where
  already_completed payload_locked in_progress claim_conflict claim_lost unavailable : SetupError
  create_failed : SetupError
  action_failed : String → SetupError

abbrev pub lease_expiry : ℕ → ℕ
lease_expiry now = now + setup_operation_claim_lease_milliseconds

-- `{ in the past, or null }`
abbrev pub lapsed : Option ℕ → ℕ → Bool
lapsed none now = true
lapsed (some t) now = leb t now

-- The `where` of the takeover in `claim`.
unfoldable pub reclaimable : String → ℕ → SetupOperation → Bool
reclaimable fingerprint now row =
    str_eq row.operation_key setup_operation_key
    && is_none row.completed_at
    && not (str_eq row.status "completed")
    && (str_eq row.status "idle" || str_eq row.status "failed" || lapsed row.claim_expires_at now)
    && (is_none row.irreversible_started_at || str_eq row.payload_fingerprint fingerprint)

-- The `data` of `claim`.
abbrev pub claimed : SetupOperationClaim → ℕ → SetupOperation → SetupOperation
claimed claim now row = record row {
  status = "running";
  payload_fingerprint = claim.payload_fingerprint;
  claim_token_hash = some claim.claim_token_hash;
  claimed_at = some now;
  claim_expires_at = some (lease_expiry now);
  failed_at = none;
  failure_code = none;
  failure_message = none;
  updated_at = now;
}

-- The row that `claim` creates: `data` over the columns' defaults.
abbrev pub new_operation : SetupOperationClaim → ℕ → SetupOperation
new_operation claim now = record {
  operation_key = setup_operation_key;
  status = "running";
  payload_fingerprint = claim.payload_fingerprint;
  claim_token_hash = some claim.claim_token_hash;
  claimed_at = some now;
  claim_expires_at = some (lease_expiry now);
  irreversible_started_at = none;
  completed_at = none;
  failed_at = none;
  failure_code = none;
  failure_message = none;
  created_at = now;
  updated_at = now;
}

unfoldable pub has_setup_key : SetupOperation → Bool
has_setup_key row = str_eq row.operation_key setup_operation_key

unfoldable pub owner_where : SetupOperationClaim → SetupOperation → Bool
owner_where claim row =
    str_eq row.operation_key setup_operation_key
    && str_eq row.status "running"
    && is_text row.claim_token_hash claim.claim_token_hash
    && str_eq row.payload_fingerprint claim.payload_fingerprint

unfoldable pub classify_conflict : SetupOperation → String → ℕ → SetupError
classify_conflict current fingerprint now =
    if is_some current.completed_at || str_eq current.status "completed"
    then already_completed
    else if is_some current.irreversible_started_at
        && not (str_eq current.payload_fingerprint fingerprint)
    then payload_locked
    else if str_eq current.status "running" && not (lapsed current.claim_expires_at now)
    then in_progress
    else claim_conflict

abbrev pub conflict_of : Option SetupOperation → String → ℕ → SetupError
conflict_of none fingerprint now = create_failed
conflict_of (some current) fingerprint now = classify_conflict current fingerprint now

abbrev pub put_operations : SetupDb → List SetupOperation → SetupDb
put_operations db rows = record db { operations = rows }

-- The `data` of `markIrreversible`.
abbrev pub marked_irreversible : ℕ → SetupOperation → SetupOperation
marked_irreversible now row = record row {
  irreversible_started_at = some now;
  claim_expires_at = some (lease_expiry now);
  updated_at = now;
}

-- The `data` of `extendLease`.
abbrev pub extended : ℕ → SetupOperation → SetupOperation
extended now row = record row { claim_expires_at = some (lease_expiry now); updated_at = now }

-- The `data` of `completeWithBootstrap`.
abbrev pub completed : ℕ → SetupOperation → SetupOperation
completed now row = record row {
  status = "completed";
  claim_token_hash = none;
  claim_expires_at = none;
  completed_at = some now;
  failed_at = none;
  failure_code = none;
  failure_message = none;
  updated_at = now;
}

-- The `data` of `release`.
abbrev pub released : ℕ → SetupOperation → SetupOperation
released now row = record row {
  status = "idle";
  claim_token_hash = none;
  claimed_at = none;
  claim_expires_at = none;
  irreversible_started_at = none;
  failed_at = none;
  failure_code = none;
  failure_message = none;
  updated_at = now;
}

-- The `data` of `fail`.
abbrev pub failed : ℕ → SetupOperation → SetupOperation
failed now row = record row {
  status = "failed";
  claim_token_hash = none;
  claim_expires_at = none;
  failed_at = some now;
  failure_code = some "SETUP_FAILED";
  failure_message = some "Setup attempt failed";
  updated_at = now;
}

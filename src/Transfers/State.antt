-- ===== src/Transfers/State.antt =====
-- backend/src/common/transfers/transfer-task-state.ts: the states of a transfer task, the permitted
-- transitions, and the lifecycle that a stored row is read as. Dates are milliseconds since 1970.
pub mod Machine
pub mod Lifecycle
use icedr.Prelude.{
  ℕ, String, Bool, true, false, ◌&&◌, ◌||◌, Option, none, some, List, [], ◌∷◌, filter, find?,
  str_eq, if◌then◌else◌, leb, get_or,
}

pub data TransferTaskStatus : Type 0 where
  pending running paused completed failed expired canceled : TransferTaskStatus

abbrev pub transfer_task_statuses : List TransferTaskStatus
transfer_task_statuses = pending ∷ running ∷ paused ∷ completed ∷ failed ∷ expired ∷ canceled ∷ []

-- The literal of a status, as the tables store it.
abbrev pub status_text : TransferTaskStatus → String
status_text pending = "pending"
status_text running = "running"
status_text paused = "paused"
status_text completed = "completed"
status_text failed = "failed"
status_text expired = "expired"
status_text canceled = "canceled"

pub data TransferTaskFailureCode : Type 0 where
  transfer_failed transfer_expired transfer_stalled upload_failed upload_session_expired
        download_intent_expired download_failed preview_unsupported preview_too_large
        storage_reconcile_failed :
      TransferTaskFailureCode

abbrev pub transfer_task_failure_codes : List TransferTaskFailureCode
transfer_task_failure_codes =
    transfer_failed ∷ transfer_expired ∷ transfer_stalled ∷ upload_failed ∷ upload_session_expired
    ∷ download_intent_expired ∷ download_failed ∷ preview_unsupported ∷ preview_too_large
    ∷ storage_reconcile_failed ∷ []

abbrev pub failure_code_text : TransferTaskFailureCode → String
failure_code_text transfer_failed = "TRANSFER_FAILED"
failure_code_text transfer_expired = "TRANSFER_EXPIRED"
failure_code_text transfer_stalled = "TRANSFER_STALLED"
failure_code_text upload_failed = "UPLOAD_FAILED"
failure_code_text upload_session_expired = "UPLOAD_SESSION_EXPIRED"
failure_code_text download_intent_expired = "DOWNLOAD_INTENT_EXPIRED"
failure_code_text download_failed = "DOWNLOAD_FAILED"
failure_code_text preview_unsupported = "PREVIEW_UNSUPPORTED"
failure_code_text preview_too_large = "PREVIEW_TOO_LARGE"
failure_code_text storage_reconcile_failed = "STORAGE_RECONCILE_FAILED"

pub record TransferTaskLifecycle : Type 0 where
  pub status : TransferTaskStatus
  pub error_code : Option TransferTaskFailureCode
  pub error_message : Option String
  pub retryable : Bool
  pub created_at : ℕ
  pub updated_at : ℕ
  pub expires_at : Option ℕ

pub record TransferTaskLifecycleInput : Type 0 where
  pub status : String
  pub failure_code : Option String
  pub failure_message : Option String
  pub created_at : ℕ
  pub updated_at : ℕ
  pub expires_at : Option ℕ

-- `retryableFailureCodes.has(code)`
abbrev pub retryable_failure_code : TransferTaskFailureCode → Bool
retryable_failure_code preview_unsupported = false
retryable_failure_code preview_too_large = false
retryable_failure_code _ = true

-- `a === b` on statuses
abbrev pub same_status : TransferTaskStatus → TransferTaskStatus → Bool
same_status pending pending = true
same_status running running = true
same_status paused paused = true
same_status completed completed = true
same_status failed failed = true
same_status expired expired = true
same_status canceled canceled = true
same_status _ _ = false

-- `allowedStatusTransitions[current].has(next)`
abbrev pub allowed_status_transition : TransferTaskStatus → TransferTaskStatus → Bool
allowed_status_transition pending pending = false
allowed_status_transition pending paused = false
allowed_status_transition pending _ = true
allowed_status_transition running pending = false
allowed_status_transition running running = false
allowed_status_transition running _ = true
allowed_status_transition paused running = true
allowed_status_transition paused failed = true
allowed_status_transition paused expired = true
allowed_status_transition paused canceled = true
allowed_status_transition failed pending = true
allowed_status_transition failed running = true
allowed_status_transition failed expired = true
allowed_status_transition failed canceled = true
allowed_status_transition _ _ = false

-- A text read as the status that it spells; `none` where `transferTaskStatuses` does not include it.
unfoldable pub known_status : String → Option TransferTaskStatus
known_status value = find? (λ s. str_eq (status_text s) value) transfer_task_statuses

-- The second half of `canTransitionTransferTask`, on values that are statuses.
unfoldable pub can_transition : TransferTaskStatus → TransferTaskStatus → Bool
can_transition current next = same_status current next || allowed_status_transition current next

abbrev both_known : Option TransferTaskStatus → Option TransferTaskStatus → Bool
both_known (some current) (some next) = can_transition current next
both_known _ _ = false

-- The whole function, on texts: both must be statuses.
unfoldable pub can_transition_transfer_task : String → String → Bool
can_transition_transfer_task current next = both_known (known_status current) (known_status next)

unfoldable pub get_transfer_task_transition_sources : TransferTaskStatus → List TransferTaskStatus
unfolding can_transition
get_transfer_task_transition_sources next =
    filter (λ current. can_transition current next) transfer_task_statuses

-- `legacyStatusMap[value] ?? 'failed'`
abbrev legacy_status : String → TransferTaskStatus
legacy_status value =
    if str_eq value "queued"
    then pending
    else if str_eq value "ready"
    then completed
    else if str_eq value "unsupported"
    then failed
    else if str_eq value "cancelled"
    then canceled
    else failed

unfoldable pub normalize_transfer_task_status : String → TransferTaskStatus
normalize_transfer_task_status value = get_or (known_status value) (legacy_status value)

abbrev pub is_terminal_transfer_task_status : TransferTaskStatus → Bool
is_terminal_transfer_task_status status =
    same_status status completed || same_status status expired || same_status status canceled

-- `!value` holds of the empty text too.
unfoldable pub normalize_failure_code : String → Option TransferTaskFailureCode
normalize_failure_code value =
    if str_eq value ""
    then none
    else some (
        get_or (find? (λ c. str_eq (failure_code_text c) value) transfer_task_failure_codes)
          transfer_failed)

abbrev pub has_elapsed : Option ℕ → ℕ → Bool
has_elapsed none now = false
has_elapsed (some at) now = leb at now

abbrev not_terminal : TransferTaskStatus → Bool
not_terminal status = if is_terminal_transfer_task_status status then false else true

-- The status at which a row with an expiry is read.
unfoldable pub lifecycle_status : String → Option ℕ → ℕ → TransferTaskStatus
lifecycle_status stored expires_at now =
    let status = normalize_transfer_task_status stored in
    if not_terminal status && has_elapsed expires_at now then expired else status

abbrev lifecycle_error_code : TransferTaskStatus → Option String → Option TransferTaskFailureCode
lifecycle_error_code failed code = normalize_failure_code (get_or code "TRANSFER_FAILED")
lifecycle_error_code expired code = normalize_failure_code (get_or code "TRANSFER_EXPIRED")
lifecycle_error_code _ code = none

abbrev lifecycle_error_message : TransferTaskStatus → Option String → Option String
lifecycle_error_message failed message = message
lifecycle_error_message expired message = message
lifecycle_error_message _ message = none

abbrev lifecycle_retryable : Option TransferTaskFailureCode → Bool
lifecycle_retryable none = false
lifecycle_retryable (some code) = retryable_failure_code code

unfoldable pub create_transfer_task_lifecycle :
    TransferTaskLifecycleInput → ℕ → TransferTaskLifecycle
create_transfer_task_lifecycle input now =
    let status = lifecycle_status input.status input.expires_at now in
    let error_code = lifecycle_error_code status input.failure_code in
    record {
      status = status;
      error_code = error_code;
      error_message = lifecycle_error_message status input.failure_message;
      retryable = lifecycle_retryable error_code;
      created_at = input.created_at;
      updated_at = input.updated_at;
      expires_at = input.expires_at;
    }

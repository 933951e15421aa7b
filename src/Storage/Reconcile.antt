-- ===== src/Storage/Reconcile.antt =====
-- backend/src/modules/storage/storage-reconcile-policy.ts: which object references protect their
-- stored object from being cleaned up, and backend/src/common/transfers/upload-session-policy.ts.
pub mod Safety
pub mod Time
use icedr.Prelude.{
  ℕ, ◌+◌, ◌*◌, String, Bool, true, false, not, ◌&&◌, ◌||◌, Option, none, some, List, [], ◌∷◌,
  if◌then◌else◌, leb, ltb, contains, is_some,
}
use icedr.Transfers.State.{
  TransferTaskStatus, pending, running, paused, completed, failed, same_status, known_status,
  normalize_transfer_task_status, is_terminal_transfer_task_status,
}

abbrev pub upload_session_lifetime_ms : ℕ
upload_session_lifetime_ms = 24 * 60 * 60 * 1000

pub record ReconcileProtectionWindow : Type 0 where
  pub completion_claim_stale_before : ℕ
  pub now : ℕ
  pub stale_before : ℕ

-- A `Date` or a text, by the time that it stands for.
pub data DateValue : Type 0 where
  valid : ℕ → DateValue
  invalid : DateValue

-- `number | null`, with `NaN` apart.
pub data Timestamp : Type 0 where
  null : Timestamp
  nan : Timestamp
  at : ℕ → Timestamp

pub record LifecycleObjectReference : Type 0 where
  pub expires_at : Option DateValue
  pub status : String
  pub updated_at : DateValue

-- The fields of an upload session reference, with those of its staging reference that are read.
pub record UploadSessionReference : Type 0 where
  pub lifecycle : LifecycleObjectReference
  pub open lifecycle use *
  pub completion_started_at : Option DateValue
  pub completion_token : Option String
  pub storage_finalized_at : Option DateValue
  pub created_at : DateValue

abbrev pub legacy_transfer_task_statuses : List String
legacy_transfer_task_statuses = "queued" ∷ "ready" ∷ "unsupported" ∷ "cancelled" ∷ []

abbrev pub active_transfer_task_status : TransferTaskStatus → Bool
active_transfer_task_status status =
    same_status status pending
    || same_status status running
    || same_status status paused
    || same_status status failed

unfoldable pub normalize_known_status : String → Option TransferTaskStatus
normalize_known_status status =
    if is_some (known_status status) || contains legacy_transfer_task_statuses status
    then some (normalize_transfer_task_status status)
    else none

abbrev pub timestamp : Option DateValue → Timestamp
timestamp none = null
timestamp (some (valid t)) = at t
timestamp (some invalid) = nan

abbrev pub is_nan : Timestamp → Bool
is_nan nan = true
is_nan _ = false

abbrev pub is_null : Timestamp → Bool
is_null null = true
is_null _ = false

-- `value <= bound` and `value >= bound`, as they stand behind the tests for null and `NaN`.
abbrev pub at_most : Timestamp → ℕ → Bool
at_most (at t) bound = leb t bound
at_most _ bound = false

abbrev pub at_least : Timestamp → ℕ → Bool
at_least (at t) bound = leb bound t
at_least _ bound = false

-- `value === null || Number.isNaN(value)`
abbrev pub is_unknown : Timestamp → Bool
is_unknown value = is_null value || is_nan value

unfoldable pub is_active_reference_protected :
    LifecycleObjectReference → TransferTaskStatus → ReconcileProtectionWindow → Bool
is_active_reference_protected reference status window =
    let expires_at = timestamp reference.expires_at in
    let updated_at = timestamp (some reference.updated_at) in
    if is_nan expires_at
    then true
    else if at_most expires_at window.now
    then false
    else if is_unknown updated_at
    then true
    else if same_status status running
    then at_least updated_at window.stale_before
    else if not (is_null expires_at)
    then true
    else at_least updated_at window.stale_before

abbrev pub transfer_protected :
    LifecycleObjectReference → ReconcileProtectionWindow → Option TransferTaskStatus → Bool
transfer_protected reference window none = true
transfer_protected reference window (some status) =
    if not (active_transfer_task_status status)
    then false
    else is_active_reference_protected reference status window

unfoldable pub is_transfer_object_reference_protected :
    LifecycleObjectReference → ReconcileProtectionWindow → Bool
is_transfer_object_reference_protected reference window =
    transfer_protected reference window (normalize_known_status reference.status)

abbrev pub preview_protected :
    LifecycleObjectReference → ReconcileProtectionWindow → Option TransferTaskStatus → Bool
preview_protected reference window none = true
preview_protected reference window (some status) =
    let expires_at = timestamp reference.expires_at in
    if is_nan expires_at
    then true
    else if at_most expires_at window.now
    then false
    else if same_status status completed
    then true
    else if not (active_transfer_task_status status)
    then false
    else is_active_reference_protected reference status window

unfoldable pub is_preview_object_reference_protected :
    LifecycleObjectReference → ReconcileProtectionWindow → Bool
is_preview_object_reference_protected reference window =
    preview_protected reference window (normalize_known_status reference.status)

-- The checks of a completion claim: `true` is an early `return true`.
abbrev pub claim_protects : UploadSessionReference → ReconcileProtectionWindow → Bool → Bool
claim_protects reference window is_expired =
    let started_at = timestamp reference.completion_started_at in
    is_some reference.completion_token
    && (is_unknown started_at
        || at_least started_at window.completion_claim_stale_before
        || is_some reference.storage_finalized_at && not is_expired)

abbrev pub session_protected :
    UploadSessionReference → ReconcileProtectionWindow → Option TransferTaskStatus → Bool
session_protected reference window none = true
session_protected reference window (some status) =
    let expires_at = timestamp reference.expires_at in
    let updated_at = timestamp (some reference.updated_at) in
    let is_expired = at_most expires_at window.now in
    if is_nan expires_at
    then true
    else if claim_protects reference window is_expired
    then true
    else if is_expired
    then false
    else if not (active_transfer_task_status status)
    then false
    else if not (is_null expires_at)
    then true
    else if is_unknown updated_at
    then true
    else at_least updated_at window.stale_before

unfoldable pub is_upload_session_object_reference_protected :
    UploadSessionReference → ReconcileProtectionWindow → Bool
is_upload_session_object_reference_protected reference window =
    session_protected reference window (normalize_known_status reference.status)

-- `createdAt + uploadSessionLifetimeMs > now`
abbrev pub lives_beyond : Timestamp → ℕ → Bool
lives_beyond (at t) now = ltb now (t + upload_session_lifetime_ms)
lives_beyond _ now = false

abbrev pub staging_protected :
    UploadSessionReference → ReconcileProtectionWindow → Option TransferTaskStatus → Bool
staging_protected reference window none = true
staging_protected reference window (some status) =
    let started_at = timestamp reference.completion_started_at in
    let expires_at = timestamp reference.expires_at in
    let created_at = timestamp (some reference.created_at) in
    if is_some reference.completion_token
      && (is_unknown started_at || at_least started_at window.completion_claim_stale_before)
    then true
    else if is_terminal_transfer_task_status status
    then false
    else if is_nan expires_at
    then true
    else if not (is_null expires_at)
    then not (at_most expires_at window.now)
    else if is_unknown created_at
    then true
    else lives_beyond created_at window.now

unfoldable pub is_upload_session_staging_cleanup_protected :
    UploadSessionReference → ReconcileProtectionWindow → Bool
is_upload_session_staging_cleanup_protected reference window =
    staging_protected reference window (normalize_known_status reference.status)

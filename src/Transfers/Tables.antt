-- ===== src/Transfers/Tables.antt =====
-- The tables transfer_tasks, upload_sessions, upload_session_parts and audit_events of
-- database/schema.prisma, as far as transfers and uploads use them, and the tests that their `where`
-- clauses share. Dates are milliseconds since 1970, and progress, a decimal with one place, is
-- counted in tenths.
use icedr.Prelude.{
  ℕ, ◌+◌, ◌*◌, String, Bool, true, false, not, ◌&&◌, ◌||◌, Option, none, some, List, map, leb, ltb,
  contains, is_none, is_text, str_eq,
}
use icedr.Transfers.State.{
  TransferTaskStatus, status_text, TransferTaskFailureCode, failure_code_text,
}

pub record TransferTask : Type 0 where
  pub id : String
  pub workspace_id : String
  pub owner_user_id : Option String
  pub node_id : Option String
  pub object_key : Option String
  pub name : String
  pub transfer_type : String
  pub progress : ℕ
  pub status : String
  pub failure_code : Option String
  pub expires_at : Option ℕ
  pub created_at : ℕ
  pub updated_at : ℕ

-- The columns of an upload session that name the file and where it goes.
pub record UploadTarget : Type 0 where
  pub owner_user_id : Option String
  pub workspace_id : String
  pub space_scope : String
  pub conflict_strategy : String
  pub object_key : String
  pub multipart_upload_id : Option String
  pub resume_key : Option String
  pub requested_file_name : Option String
  pub file_name : String
  pub conflict_target_node_id : Option String
  pub conflict_target_object_key : Option String
  pub parent_node_id : Option String
  pub mime_type : String
  pub size_bytes : ℕ
  pub chunk_size_bytes : ℕ

pub record UploadSession : Type 0 where
  pub id : String
  pub transfer_id : String
  pub node_id : Option String
  pub target : UploadTarget
  pub status : String
  pub failure_code : Option String
  pub expires_at : Option ℕ
  pub completion_token : Option String
  pub completion_started_at : Option ℕ
  pub storage_finalized_at : Option ℕ
  pub created_at : ℕ
  pub updated_at : ℕ

-- The part of the metadata that the program writes itself, and what its callers add.
pub record AuditEvent : Type 0 where
  pub id : String
  pub action : String
  pub actor : String
  pub target : String
  pub workspace_id : Option String
  pub node_id : Option String
  pub transfer_type : String
  pub has_content : Bool
  pub status : String
  pub failure_code : Option String
  pub result : String
  pub extra : List (String × String)
  pub created_at : ℕ

-- A row of upload_session_parts, whose key is the session with the index.
pub record UploadSessionPart : Type 0 where
  pub session_id : String
  pub part_index : ℕ
  pub start_byte : ℕ
  pub end_byte : ℕ
  pub size_bytes : ℕ
  pub e_tag : Option String
  pub created_at : ℕ
  pub updated_at : ℕ

pub record TransferDb : Type 0 where
  pub transfers : List TransferTask
  pub sessions : List UploadSession
  pub audits : List AuditEvent
  pub parts : List UploadSessionPart

-- 15 minutes: a completion claim that is older counts as stale.
abbrev pub upload_completion_claim_lease_ms : ℕ
upload_completion_claim_lease_ms = 15 * 60 * 1000

-- `status: { in: [...] }`
abbrev pub status_in : List TransferTaskStatus → String → Bool
status_in statuses text = contains (map status_text statuses) text

-- `OR: [{ expiresAt: null }, { expiresAt: { gt: now } }]`
abbrev pub unexpired : Option ℕ → ℕ → Bool
unexpired none now = true
unexpired (some t) now = ltb now t

-- `{ lte: now - 15 minutes }`; a null never matches.
abbrev pub started_before_lease : Option ℕ → ℕ → Bool
started_before_lease none now = false
started_before_lease (some t) now = leb (t + upload_completion_claim_lease_ms) now

-- `{ gt: now - 15 minutes }`
abbrev pub started_within_lease : Option ℕ → ℕ → Bool
started_within_lease none now = false
started_within_lease (some t) now = ltb now (t + upload_completion_claim_lease_ms)

-- `OR: [{ completionToken: null }, { completionStartedAt: null }, { completionStartedAt: { lte } }]`
abbrev pub claim_is_free : UploadSession → ℕ → Bool
claim_is_free session now =
    is_none session.completion_token
    || is_none session.completion_started_at
    || started_before_lease session.completion_started_at now

-- `completionToken: { not: null }, completionStartedAt: { gt }`
abbrev pub claim_is_active : UploadSession → ℕ → Bool
claim_is_active session now =
    not (is_none session.completion_token) && started_within_lease session.completion_started_at now

-- `...(ownerUserId ? { ownerUserId } : {})`
abbrev pub owned_by : Option String → Option String → Bool
owned_by none column = true
owned_by (some owner) column = str_eq owner "" || is_text column owner

-- In `NOT: { column: value }` SQL finds a null column neither equal nor different.
abbrev pub differs : Option String → String → Bool
differs none value = false
differs (some text) value = not (str_eq text value)

-- The same where the value may be null.
abbrev pub differs_from : Option String → Option String → Bool
differs_from column none = not (is_none column)
differs_from column (some value) = differs column value

abbrev pub code_text : Option TransferTaskFailureCode → Option String
code_text none = none
code_text (some code) = some (failure_code_text code)

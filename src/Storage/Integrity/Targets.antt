-- ===== src/Storage/Integrity/Targets.antt =====
-- What storage-integrity-task.repository.ts saves of a reference (saveResult), and what
-- storage-integrity-target.repository.ts writes to the row that it refers to (persistIntegrityState).
-- The query for the oldest version is an argument. The messages for people are left out.
pub mod Save
pub mod Checked
pub mod Saved
pub mod Fenced
use icedr.Prelude.{
  ℕ, String, Bool, true, false, not, ◌&&◌, ◌||◌, Option, none, some, List, if◌then◌else◌, ◌==◌,
  length, str_eq, is_text, same_text, any, is_some,
}
use Prim.Native.String.{◌++◌}
use icedr.Prisma.{Client, resolved, thrown, Action, ◌>>=◌, return}
use icedr.Storage.Integrity.Tasks.{IntegrityTask, is_held, is_truthy}

pub data IntegrityResultStatus : Type 0 where
  matched mismatch failed : IntegrityResultStatus

pub record TargetReference : Type 0 where
  pub expected_checksum_algorithm : Option String
  pub expected_hash : Option String
  pub expected_size_bytes : ℕ
  pub node_id : Option String
  pub object_key : String
  pub target_key : String
  pub version_id : Option String
  pub workspace_id : String

-- The columns of file_nodes and file_versions about the stored content.
pub record StoredBlob : Type 0 where
  pub object_key : Option String
  pub size_bytes : Option ℕ
  pub checksum_algorithm : Option String
  pub checksum_value : Option String
  pub integrity_status : String
  pub acknowledged_at : Option ℕ
  pub acknowledged_by : Option String
  pub last_verified_at : Option ℕ
  pub verification_failure_code : Option String

pub record BlobNode : Type 0 where
  pub id : String
  pub workspace_id : String
  pub blob : StoredBlob

pub record BlobVersion : Type 0 where
  pub id : String
  pub node_id : String
  pub created_at : ℕ
  pub blob : StoredBlob

-- A row of blob_integrity_results, without the actual size, the number of bytes read, the message,
-- the acknowledgement and the earlier result it repeats.
pub record IntegrityResult : Type 0 where
  pub id : String
  pub task_id : String
  pub target_key : String
  pub object_key : String
  pub node_id : Option String
  pub version_id : Option String
  pub expected_hash : Option String
  pub expected_size_bytes : ℕ
  pub workspace_id : String
  pub status : IntegrityResultStatus
  pub actual_hash : Option String
  pub error_code : Option String
  pub attempts : ℕ
  pub checked_at : ℕ

-- An audit event of a result that did not match.
pub record ResultEvent : Type 0 where
  pub action : String
  pub result_id : String
  pub task_id : String
  pub error_code : Option String

pub record ResultDb : Type 0 where
  pub tasks : List IntegrityTask
  pub nodes : List BlobNode
  pub versions : List BlobVersion
  pub results : List IntegrityResult
  pub events : List ResultEvent

pub data ResultError : Type 0 where
  result_exists : ResultError

abbrev pub ResultAction : Type 0 → Type 0
ResultAction A = Action ResultDb ResultError A

pub record SaveInput : Type 0 where
  pub actual_hash : Option String
  pub attempts : ℕ
  pub checked_at : ℕ
  pub error_code : Option String
  pub lease_owner : String
  pub reference : TargetReference
  pub status : IntegrityResultStatus
  pub task_id : String

abbrev pub is_matched : IntegrityResultStatus → Bool
is_matched matched = true
is_matched _ = false

abbrev pub integrity_status_of : IntegrityResultStatus → String
integrity_status_of matched = "verified"
integrity_status_of mismatch = "mismatch"
integrity_status_of failed = "failed"

-- A match of a row without a recorded checksum records the one that was found.
abbrev pub records_checksum : SaveInput → Bool
records_checksum input = is_matched input.status && not (is_truthy input.reference.expected_hash)

abbrev pub blob_checked : SaveInput → StoredBlob → StoredBlob
blob_checked input blob = record blob {
  checksum_algorithm = if records_checksum input then some "sha256" else blob.checksum_algorithm;
  checksum_value = if records_checksum input then input.actual_hash else blob.checksum_value;
  integrity_status = integrity_status_of input.status;
  acknowledged_at = none;
  acknowledged_by = none;
  last_verified_at = some input.checked_at;
  verification_failure_code = input.error_code;
}

abbrev pub same_size : Option ℕ → ℕ → Bool
same_size none n = false
same_size (some m) n = m == n

-- The content that a reference was made of.
abbrev pub is_content_of : TargetReference → StoredBlob → Bool
is_content_of reference blob =
    same_text blob.checksum_algorithm reference.expected_checksum_algorithm
    && same_text blob.checksum_value reference.expected_hash
    && is_text blob.object_key reference.object_key
    && same_size blob.size_bytes reference.expected_size_bytes

abbrev pub is_node_of : TargetReference → String → BlobNode → Bool
is_node_of reference id node = str_eq node.id id && is_content_of reference node.blob

abbrev pub is_version_of : TargetReference → String → BlobVersion → Bool
is_version_of reference id version = str_eq version.id id && is_content_of reference version.blob

-- A version that a node's content has moved to, in the workspace of the reference.
abbrev pub is_moved_version : TargetReference → String → List BlobNode → BlobVersion → Bool
is_moved_version reference node_id nodes version =
    str_eq version.node_id node_id
    && is_content_of reference version.blob
    && any
        (λ node. str_eq node.id version.node_id && str_eq node.workspace_id reference.workspace_id)
        nodes

abbrev pub node_checked : SaveInput → BlobNode → BlobNode
node_checked input node = record node { blob = blob_checked input node.blob }

abbrev pub version_checked : SaveInput → BlobVersion → BlobVersion
version_checked input version = record version { blob = blob_checked input version.blob }

abbrev pub moved_to : TargetReference → String → TargetReference
moved_to reference version_id = record reference {
  target_key = "version:" ++ version_id;
  version_id = some version_id;
}

abbrev pub given : Option String → Option String
given none = none
given (some t) = if str_eq t "" then none else some t

module _ (prisma : Client)
    (oldest_version : (BlobVersion → Bool) → List BlobVersion → Option BlobVersion) where
  update_versions : (BlobVersion → Bool) → SaveInput → ResultAction ℕ
  update_versions test input db =
      let (versions, returned) =
        prisma.update_many_and_return BlobVersion test (version_checked input) db.versions in
      (resolved (length returned), record db { versions = versions })

  update_nodes : (BlobNode → Bool) → SaveInput → ResultAction ℕ
  update_nodes test input db =
      let (nodes, returned) =
        prisma.update_many_and_return BlobNode test (node_checked input) db.nodes in
      (resolved (length returned), record db { nodes = nodes })

  find_moved : TargetReference → String → ResultAction (Option BlobVersion)
  find_moved reference node_id db =
      (resolved (oldest_version (is_moved_version reference node_id db.nodes) db.versions), db)

  unfoldable pub persist_version : SaveInput → String → ResultAction (Option TargetReference)
  unfolding update_versions
  persist_version input version_id = do
    count ← update_versions (is_version_of input.reference version_id) input
    return (if count == 1 then some input.reference else none)

  unfoldable pub persist_moved :
      SaveInput → String → Option BlobVersion → ResultAction (Option TargetReference)
  unfolding update_versions
  persist_moved input node_id none = return none
  persist_moved input node_id (some version) = do
    count ←
        update_versions
          (λ v. is_version_of input.reference version.id v && str_eq v.node_id node_id) input
    return (if count == 1 then some (moved_to input.reference version.id) else none)

  unfoldable pub persist_node_found :
      SaveInput → String → Bool → ResultAction (Option TargetReference)
  unfolding find_moved persist_moved
  persist_node_found input node_id true = return (some input.reference)
  persist_node_found input node_id false = do
    version ← find_moved input.reference node_id
    persist_moved input node_id version

  unfoldable pub persist_node_state :
      SaveInput → Option String → ResultAction (Option TargetReference)
  unfolding update_nodes persist_node_found
  persist_node_state input none = return none
  persist_node_state input (some node_id) = do
    count ← update_nodes (is_node_of input.reference node_id) input
    persist_node_found input node_id (count == 1)

  unfoldable pub persist_target : SaveInput → Option String → ResultAction (Option TargetReference)
  unfolding persist_version persist_node_state
  persist_target input none = persist_node_state input (given input.reference.node_id)
  persist_target input (some version_id) = persist_version input version_id

  unfoldable pub persist_integrity_state : SaveInput → ResultAction (Option TargetReference)
  unfolding persist_target
  persist_integrity_state input = persist_target input (given input.reference.version_id)

-- ===== src/Storage/Integrity/Targets/Checked.antt =====
-- What `persistIntegrityState` of storage-integrity-target.repository.ts writes to a row, column by
-- column.
use icedr.Prelude.{
  is_text_iff, eq_iff, ap, ◌∙◌, same_text, not, ℕ, String, ◌≡◌, refl, ◌⊎◌, inl, inr, Bool, true,
  ◌&&◌, Option, none, some, if◌then◌else◌, str_eq, Bool-cases, arith, sym,
}
use icedr.Storage.Integrity.Tasks.{is_truthy}
use icedr.Storage.Integrity.Targets.{
  matched, mismatch, failed, IntegrityResultStatus, StoredBlob, is_matched, integrity_status_of,
  blob_checked, same_size, TargetReference, BlobNode, BlobVersion, SaveInput, is_content_of,
  is_node_of, node_checked, version_checked, given,
}

-- What a row's checksum is after a verification: the one that was found, if the content matched and
-- none was expected, and otherwise the one it had.
abbrev pub checksum_after :
    IntegrityResultStatus → (expected_hash found kept : Option String) → Option String
checksum_after matched none found kept = found
checksum_after matched (some hash) found kept = if str_eq hash "" then found else kept
checksum_after mismatch expected_hash found kept = kept
checksum_after failed expected_hash found kept = kept

abbrev pub StatusFits : IntegrityResultStatus → String → Type 0
StatusFits matched status = status ≡ "verified"
StatusFits mismatch status = status ≡ "mismatch"
StatusFits failed status = status ≡ "failed"

-- The content of a row is what the reference was made of, with all that the row recorded of it.
pub record IsReferred (reference : TargetReference) (blob : StoredBlob) : Type 0 where
  pub of_object : blob.object_key ≡ some reference.object_key
  pub of_size : blob.size_bytes ≡ some reference.expected_size_bytes
  pub of_algorithm : blob.checksum_algorithm ≡ reference.expected_checksum_algorithm
  pub of_checksum : blob.checksum_value ≡ reference.expected_hash

-- The columns of a row after the outcome of a verification is written to it.
pub record IsChecked (input : SaveInput) (before after : StoredBlob) : Type 0 where
  pub same_object : after.object_key ≡ before.object_key
  pub same_bytes : after.size_bytes ≡ before.size_bytes
  pub algorithm :
      after.checksum_algorithm
      ≡ checksum_after input.status input.reference.expected_hash
          (some "sha256")
          before.checksum_algorithm
  pub checksum :
      after.checksum_value
      ≡ checksum_after input.status input.reference.expected_hash input.actual_hash
          before.checksum_value
  pub status : StatusFits input.status after.integrity_status
  pub not_acknowledged : after.acknowledged_at ≡ none
  pub by_nobody : after.acknowledged_by ≡ none
  pub verified_at : after.last_verified_at ≡ some input.checked_at
  pub code : after.verification_failure_code ≡ input.error_code

-- A row as it was, or the row that the reference names, with its content, that is now checked.
abbrev pub NodeKept : SaveInput → BlobNode → BlobNode → Type 0
NodeKept input x y =
    (y ≡ x)
    ⊎ ((input.reference.node_id ≡ some x.id)
        × (y.id ≡ x.id)
        × (y.workspace_id ≡ x.workspace_id)
        × IsReferred input.reference x.blob
        × IsChecked input x.blob y.blob)

-- A version is named by its id or, after its content was moved to it, by its node.
abbrev pub IsNamed : TargetReference → BlobVersion → Type 0
IsNamed reference version =
    (reference.version_id ≡ some version.id) ⊎ (reference.node_id ≡ some version.node_id)

abbrev pub VersionKept : SaveInput → BlobVersion → BlobVersion → Type 0
VersionKept input x y =
    (y ≡ x)
    ⊎ (IsNamed input.reference x
        × (y.id ≡ x.id)
        × (y.node_id ≡ x.node_id)
        × (y.created_at ≡ x.created_at)
        × IsReferred input.reference x.blob
        × IsChecked input x.blob y.blob)

same_text-eq : (a b : Option String) → same_text a b ≡ true → a ≡ b
same_text-eq none none h = refl
same_text-eq none (some t) h = cc
same_text-eq (some s) none h = cc
same_text-eq (some s) (some t) h = ground (arith, eq_iff s t)

same_size-eq : (a : Option ℕ) (n : ℕ) → same_size a n ≡ true → a ≡ some n
same_size-eq none n h = cc
same_size-eq (some m) n h = ground arith

content-IsReferred :
    (reference : TargetReference) (blob : StoredBlob)
    → is_content_of reference blob ≡ true
    → IsReferred reference blob
content-IsReferred reference blob h = record {
  of_object = (is_text_iff blob.object_key reference.object_key).0 (ground arith);
  of_size = same_size-eq blob.size_bytes reference.expected_size_bytes (ground arith);
  of_algorithm =
      same_text-eq blob.checksum_algorithm reference.expected_checksum_algorithm (ground arith);
  of_checksum = same_text-eq blob.checksum_value reference.expected_hash (ground arith);
}

recorded :
    (status : IntegrityResultStatus) (expected_hash found kept : Option String)
    → (if is_matched status && not (is_truthy expected_hash) then found else kept)
      ≡ checksum_after status expected_hash found kept
recorded matched none found kept = refl
recorded matched (some hash) found kept = ground arith
recorded mismatch expected_hash found kept = refl
recorded failed expected_hash found kept = refl

status-StatusFits :
    (status : IntegrityResultStatus) → StatusFits status (integrity_status_of status)
status-StatusFits matched = refl
status-StatusFits mismatch = refl
status-StatusFits failed = refl

blob_checked-IsChecked :
    (input : SaveInput) (blob : StoredBlob) → IsChecked input blob (blob_checked input blob)
blob_checked-IsChecked input blob = record {
  same_object = refl;
  same_bytes = refl;
  algorithm =
      recorded input.status input.reference.expected_hash (some "sha256") blob.checksum_algorithm;
  checksum =
      recorded input.status input.reference.expected_hash input.actual_hash blob.checksum_value;
  status = status-StatusFits input.status;
  not_acknowledged = refl;
  by_nobody = refl;
  verified_at = refl;
  code = refl;
}

-- The id that a reference gives, when it is not the empty text.
pub given-eq : (o : Option String) (id : String) → given o ≡ some id → o ≡ some id
given-eq none id h = cc
given-eq (some t) id h = ground arith

pub node_row :
    (input : SaveInput) (id : String)
    → input.reference.node_id ≡ some id
    → (x : BlobNode)
    → NodeKept input x (if is_node_of input.reference id x then node_checked input x else x)
node_row input id e x = elim (Bool-cases (is_node_of input.reference id x)) [
  | inl t ↦
      let this : x.id ≡ id = (eq_iff x.id id).0 (ground arith) in
      rw t (
        inr (
          e ∙ ap some (sym this),
          refl,
          refl,
          content-IsReferred input.reference x.blob (ground arith),
          blob_checked-IsChecked input x.blob,
        ))
  | inr t ↦ rw t (inl refl)
]

-- What a test on versions ensures of those that pass it.
abbrev pub FindsNamed : SaveInput → (BlobVersion → Bool) → Type 0
FindsNamed input test =
    (v : BlobVersion)
    → test v ≡ true
    → IsNamed input.reference v × (is_content_of input.reference v.blob ≡ true)

pub version_row :
    (input : SaveInput) (test : BlobVersion → Bool)
    → FindsNamed input test
    → (x : BlobVersion) → VersionKept input x (if test x then version_checked input x else x)
version_row input test h x = elim (Bool-cases (test x)) [
  | inl t ↦ rw t (
      inr (
        (h x t).0,
        refl,
        refl,
        refl,
        content-IsReferred input.reference x.blob (h x t).1,
        blob_checked-IsChecked input x.blob,
      ))
  | inr t ↦ rw t (inl refl)
]

-- ===== src/Storage/Reconcile/Time.antt =====
-- The protection tests of storage-reconcile-policy.ts, at two times.
use icedr.Prelude.{◌≤◌, ◌≡◌, Bool, false, Option, none, some, arith}
use icedr.Transfers.State.{TransferTaskStatus}
use icedr.Storage.Reconcile.{
  ReconcileProtectionWindow, LifecycleObjectReference, UploadSessionReference,
  is_active_reference_protected, transfer_protected, preview_protected, session_protected,
  staging_protected, is_transfer_object_reference_protected, is_preview_object_reference_protected,
  is_upload_session_object_reference_protected, is_upload_session_staging_cleanup_protected,
  normalize_known_status,
}

-- The bounds of one window are no later than those of another.
pub record IsBefore (w v : ReconcileProtectionWindow) : Type 0 where
  pub claim : w.completion_claim_stale_before ≤ v.completion_claim_stale_before
  pub now : w.now ≤ v.now
  pub stale : w.stale_before ≤ v.stale_before

-- A reference to an object, by the policy that reads it.
pub data Reference : Type 0 where
  of_transfer of_preview : LifecycleObjectReference → Reference
  of_session of_staging : UploadSessionReference → Reference

abbrev pub is_protected : Reference → ReconcileProtectionWindow → Bool
is_protected (of_transfer r) w = is_transfer_object_reference_protected r w
is_protected (of_preview r) w = is_preview_object_reference_protected r w
is_protected (of_session u) w = is_upload_session_object_reference_protected u w
is_protected (of_staging u) w = is_upload_session_staging_cleanup_protected u w

module _ (w v : ReconcileProtectionWindow) (h : IsBefore w v) where
  active_later :
      (r : LifecycleObjectReference) (s : TransferTaskStatus)
      → is_active_reference_protected r s w ≡ false
      → is_active_reference_protected r s v ≡ false
  unfolding is_active_reference_protected
  active_later r s e = ground arith

  transfer_later :
      (r : LifecycleObjectReference) (o : Option TransferTaskStatus)
      → transfer_protected r w o ≡ false
      → transfer_protected r v o ≡ false
  transfer_later r none e = e
  transfer_later r (some s) e = ground (arith, active_later r s)

  preview_later :
      (r : LifecycleObjectReference) (o : Option TransferTaskStatus)
      → preview_protected r w o ≡ false
      → preview_protected r v o ≡ false
  preview_later r none e = e
  preview_later r (some s) e = ground (arith, active_later r s)

  session_later :
      (r : UploadSessionReference) (o : Option TransferTaskStatus)
      → session_protected r w o ≡ false
      → session_protected r v o ≡ false
  session_later r none e = e
  session_later r (some s) e = ground arith

  staging_later :
      (r : UploadSessionReference) (o : Option TransferTaskStatus)
      → staging_protected r w o ≡ false
      → staging_protected r v o ≡ false
  staging_later r none e = e
  staging_later r (some s) e = ground arith

  -- Where no write touches a reference, a later reconciliation (its clock and both of its cutoffs no
  -- earlier) protects no object that an earlier one left unprotected: as the object of a transfer, of
  -- a preview or of an upload session, or as the staging data of an upload session.
  pub unprotected_later : (r : Reference) → is_protected r w ≡ false → is_protected r v ≡ false
  unfolding is_transfer_object_reference_protected is_preview_object_reference_protected
      is_upload_session_object_reference_protected is_upload_session_staging_cleanup_protected
  unprotected_later (of_transfer r) = transfer_later r (normalize_known_status r.status)
  unprotected_later (of_preview r) = preview_later r (normalize_known_status r.status)
  unprotected_later (of_session u) = session_later u (normalize_known_status u.status)
  unprotected_later (of_staging u) = staging_later u (normalize_known_status u.status)

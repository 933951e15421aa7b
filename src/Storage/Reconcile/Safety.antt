-- ===== src/Storage/Reconcile/Safety.antt =====
-- What must hold before storage-reconcile-policy.ts leaves the object of an upload session
-- unprotected, stated of the dates themselves.
use icedr.Prelude.{
  ℕ, ◌+◌, ◌≤◌, ◌<◌, ◌≡◌, refl, ◌⊎◌, inl, inr, true, false, Option, none, some, arith, Option-cases,
  Bool-cases, is_some,
}
use icedr.Transfers.State.{TransferTaskStatus}
use icedr.Storage.Reconcile.{
  ReconcileProtectionWindow, UploadSessionReference, DateValue, valid, invalid, timestamp, at_most,
  at_least, is_nan, is_null, is_unknown, active_transfer_task_status, normalize_known_status,
  session_protected, staging_protected, claim_protects,
  is_upload_session_object_reference_protected, is_upload_session_staging_cleanup_protected,
  upload_session_lifetime_ms,
}

at_most_elim :
    (d : Option DateValue) (n : ℕ)
    → at_most (timestamp d) n ≡ true
    → (t : ℕ) × (d ≡ some (valid t)) × (t ≤ n)
at_most_elim (some (valid t)) n h = (t, refl, ground arith)
at_most_elim (some invalid) n h = cc
at_most_elim none n h = cc

at_least_elim :
    (d : Option DateValue) (n : ℕ)
    → is_unknown (timestamp d) ≡ false
    → at_least (timestamp d) n ≡ false
    → (t : ℕ) × (d ≡ some (valid t)) × (t < n)
at_least_elim (some (valid t)) n h k = (t, refl, ground arith)
at_least_elim (some invalid) n h k = cc
at_least_elim none n h k = cc

module _ (r : UploadSessionReference) (w : ReconcileProtectionWindow) where
  abbrev pub Expired : Type 0
  Expired = (t : ℕ) × (r.expires_at ≡ some (valid t)) × (t ≤ w.now)

  -- No worker holds the session: there is no claim, or the claim is older than its lease and the
  -- session is not finalized, or expired.
  abbrev pub Unclaimed : Type 0
  Unclaimed =
      (r.completion_token ≡ none)
      ⊎ (((t : ℕ) × (r.completion_started_at ≡ some (valid t))
            × (t < w.completion_claim_stale_before))
          × ((r.storage_finalized_at ≡ none) ⊎ Expired))

  -- The session is over: it has expired, its status is not active, or it has no expiry and was not
  -- touched since the cutoff.
  abbrev pub Over : TransferTaskStatus → Type 0
  Over s =
      Expired
      ⊎ (active_transfer_task_status s ≡ false)
      ⊎ ((r.expires_at ≡ none)
          × ((t : ℕ) × (some r.updated_at ≡ some (valid t)) × (t < w.stale_before)))

  claim_free : claim_protects r w (at_most (timestamp r.expires_at) w.now) ≡ false → Unclaimed
  claim_free h = elim (Option-cases r.completion_token) [
    | inl e ↦ inl e
    | inr (token, e) ↦ inr (
      at_least_elim r.completion_started_at w.completion_claim_stale_before (ground arith)
          (ground arith),
      finalized_free (ground arith),
    )
  ]
    where
      finalized_free :
          (is_some r.storage_finalized_at ≡ false) ⊎ (at_most (timestamp r.expires_at) w.now ≡ true)
          → (r.storage_finalized_at ≡ none) ⊎ Expired
      finalized_free (inl e) = inl (ground arith)
      finalized_free (inr e) = inr (at_most_elim r.expires_at w.now e)

  Over-of_unprotected : (s : TransferTaskStatus) → session_protected r w (some s) ≡ false → Over s
  Over-of_unprotected s h = elim (Bool-cases (at_most (timestamp r.expires_at) w.now)) [
    | inl e ↦ inl (at_most_elim r.expires_at w.now e)
    | inr e ↦ elim (Bool-cases (active_transfer_task_status s)) [
      | inl a ↦ inr (
          inr (
            null_of r.expires_at (ground arith),
            at_least_elim (some r.updated_at) w.stale_before (ground arith) (ground arith),
          ))
      | inr a ↦ inr (inl a)
    ]
  ]
    where
      null_of : (d : Option DateValue) → is_null (timestamp d) ≡ true → d ≡ none
      null_of none k = refl
      null_of (some (valid t)) k = cc
      null_of (some invalid) k = cc

  -- An upload session leaves its object unprotected only if its status is one that the program knows
  -- (now or formerly), its expiry is not an invalid date, no worker holds its completion claim, and
  -- it is over: expired, in an inactive status, or without expiry and untouched since the cutoff.
  pub unprotected_session :
      is_upload_session_object_reference_protected r w ≡ false
      → (s : TransferTaskStatus) × (normalize_known_status r.status ≡ some s)
        × (is_nan (timestamp r.expires_at) ≡ false)
        × Unclaimed
        × Over s
  unfolding is_upload_session_object_reference_protected
  unprotected_session h = elim (Option-cases (normalize_known_status r.status)) [
    | inl e ↦ absurd (ground arith)
    | inr (s, e) ↦
        let k : session_protected r w (some s) ≡ false = rw e at h in
        (s, e, ground arith, claim_free (ground arith), Over-of_unprotected s k)
  ]

  -- Where rows are not touched before they are created, and the cutoff for untouched rows is at least
  -- a session's lifetime ago, staging data is never kept longer than the object: if the object is
  -- not protected then the staging data is not.
  pub staging_follows_object :
      (c u : ℕ)
      → r.created_at ≡ valid c
      → r.updated_at ≡ valid u
      → c ≤ u
      → w.stale_before + upload_session_lifetime_ms ≤ w.now
      → is_upload_session_object_reference_protected r w ≡ false
      → is_upload_session_staging_cleanup_protected r w ≡ false
  unfolding is_upload_session_object_reference_protected is_upload_session_staging_cleanup_protected
  staging_follows_object c u p q h k e = elim (Option-cases (normalize_known_status r.status)) [
    | inl o ↦ absurd (ground arith)
    | inr (s, o) ↦ rw o (follows s (rw o at e))
  ]
    where
      follows :
          (s : TransferTaskStatus)
          → session_protected r w (some s) ≡ false
          → staging_protected r w (some s) ≡ false
      follows s e' = ground arith

-- ===== src/Files/Quota/Limits.antt =====
-- The test of assertWithinWorkspaceQuota of file-upload-policy.service.ts against two quotas, whatever
-- the space.
use icedr.Prelude.{
  ℕ, ◌+◌, ◌≡◌, ◌∙◌, ◌⊎◌, refl, ap, min, Bool, true, false, ◌&&◌, ◌||◌, Option, none, some, ◌∷◌,
  String, arith, ltb, leb, ◌==◌, Bool-cases, inl, inr,
}
use icedr.Prisma.{Outcome, resolved, thrown}
use icedr.Files.Quota.{
  StorageDb, QuotaRejection, QuotaError, user_required, storage_insufficient,
  resolve_effective_quota_bytes, positive_quota, least_quota, exceeded_quota, reject_upload,
  rejection_of, quota_scope,
}

-- A number of bytes within a quota, which is none if it is missing or zero.
abbrev pub is_within : ℕ → Option ℕ → Bool
is_within bytes none = true
is_within bytes (some quota) = quota == 0 || leb bytes quota

abbrev pub is_at_most : ℕ → Option ℕ → Bool
is_at_most quota none = true
is_at_most quota (some other) = other == 0 || leb quota other

-- A quota that is set, is exceeded by the bytes, and is the least of those that are set.
abbrev pub is_limit : (own policy : Option ℕ) → (bytes quota : ℕ) → Bool
is_limit own policy bytes quota =
    ltb 0 quota && ltb quota bytes && is_at_most quota own && is_at_most quota policy

-- An upload of a number of bytes to a space that stores some, with the space's own quota and that of
-- the storage. The scope is the one of the own quota, for the audit event.
pub record SpaceUpload : Type 0 where
  pub workspace_id : String
  pub space_scope : String
  pub user_id : Option String
  pub own_scope : String
  pub own_quota : Option ℕ
  pub policy_quota : Option ℕ
  pub used : ℕ
  pub incoming : ℕ

-- The upload and what is stored are within both quotas.
abbrev pub fits : SpaceUpload → Bool
fits upload =
    is_within (upload.used + upload.incoming) upload.own_quota
    && is_within (upload.used + upload.incoming) upload.policy_quota

-- The event of a rejected upload: all of the upload, and the quota that it exceeds with its scope.
pub record IsRejectionOf (upload : SpaceUpload) (rejection : QuotaRejection) : Type 0 where
  pub of_workspace : rejection.workspace_id ≡ upload.workspace_id
  pub of_space : rejection.space_scope ≡ upload.space_scope
  pub of_user : rejection.user_id ≡ upload.user_id
  pub of_used : rejection.used_bytes ≡ upload.used
  pub of_incoming : rejection.incoming_bytes ≡ upload.incoming
  pub is_exceeded :
      is_limit upload.own_quota upload.policy_quota
        (upload.used + upload.incoming)
        rejection.quota_bytes
      ≡ true
  pub of_quota :
      ((upload.own_quota ≡ some rejection.quota_bytes) × (rejection.scope ≡ upload.own_scope))
      ⊎ ((upload.policy_quota ≡ some rejection.quota_bytes) × (rejection.scope ≡ "storage"))

-- The upload is let through and nothing is written exactly if it fits, and otherwise it is refused
-- with one event.
abbrev pub Answers : SpaceUpload → StorageDb → Outcome QuotaError (Unit {0}) × StorageDb → Type 0
Answers upload db (resolved a, after) = (fits upload ≡ true) × (after ≡ db)
Answers upload db (thrown user_required, after) = ⊥
Answers upload db (thrown storage_insufficient, after) =
    (fits upload ≡ false)
    × (rejection : QuotaRejection) × (after ≡ record db { rejections = rejection ∷ db.rejections })
    × IsRejectionOf upload rejection

-- What is exceeded, if anything.
abbrev Exceeds : (own policy : Option ℕ) → ℕ → Option ℕ → Type 0
Exceeds own policy bytes none = (is_within bytes own && is_within bytes policy) ≡ true
Exceeds own policy bytes (some quota) =
    ((is_within bytes own && is_within bytes policy) ≡ false)
    × (is_limit own policy bytes quota ≡ true)
    × ((own ≡ some quota) ⊎ (policy ≡ some quota))

min_cases :
    (a b : ℕ)
    → (◌≡◌ {A = Option ℕ} (some a) (some (min a b)))
      ⊎ (◌≡◌ {A = Option ℕ} (some b) (some (min a b)))
min_cases a b = elim (Bool-cases (leb a b)) [
  | inl l ↦ inl (ap some (ground arith))
  | inr l ↦ inr (ap some (ground arith))
]

least-Exceeds :
    (used incoming : ℕ) (own policy : Option ℕ) (quota : ℕ)
    → ltb 0 quota ≡ true
    → (is_at_most quota own && is_at_most quota policy) ≡ true
    → (is_within (used + incoming) own && is_within (used + incoming) policy)
      ≡ leb (used + incoming) quota
    → (own ≡ some quota) ⊎ (policy ≡ some quota)
    → Exceeds own policy (used + incoming) (exceeded_quota used incoming (some quota))
unfolding exceeded_quota
least-Exceeds used incoming own policy quota p m h w =
    elim (Bool-cases (ltb quota (used + incoming))) [
      | inl l ↦ rw (p, l) (h ∙ ground arith, ground arith, w)
      | inr l ↦ rw (p, l) (h ∙ ground arith)
    ]

resolved-Exceeds :
    (used incoming : ℕ) (own policy : Option ℕ)
    → Exceeds own policy
        (used + incoming)
        (exceeded_quota used incoming (least_quota (positive_quota own) (positive_quota policy)))
unfolding exceeded_quota
resolved-Exceeds used incoming none none = refl
resolved-Exceeds used incoming none (some b) = elim (Bool-cases (ltb 0 b)) [
  | inl p ↦
      rw p (least-Exceeds used incoming none (some b) b p (ground arith) (ground arith) (inr refl))
  | inr p ↦ rw p (ground arith)
]
resolved-Exceeds used incoming (some a) none = elim (Bool-cases (ltb 0 a)) [
  | inl p ↦
      rw p (least-Exceeds used incoming (some a) none a p (ground arith) (ground arith) (inl refl))
  | inr p ↦ rw p (ground arith)
]
resolved-Exceeds used incoming (some a) (some b) = elim (Bool-cases (ltb 0 a)) [
  | inl p ↦ elim (Bool-cases (ltb 0 b)) [
    | inl q ↦
        rw (p, q)
          (least-Exceeds used incoming (some a) (some b) (min a b) (ground arith) (ground arith)
            (ground arith) (min_cases a b))
    | inr q ↦
        rw (p, q)
          (least-Exceeds used incoming (some a) (some b) a p (ground arith) (ground arith)
            (inl refl))
  ]
  | inr p ↦ elim (Bool-cases (ltb 0 b)) [
    | inl q ↦
        rw (p, q)
          (least-Exceeds used incoming (some a) (some b) b q (ground arith) (ground arith)
            (inr refl))
    | inr q ↦ rw (p, q) (ground arith)
  ]
]

-- The scope is that of the own quota if it is the one, and otherwise that of the storage.
scope-of_quota :
    (scope : String) (own policy : Option ℕ) (quota : ℕ)
    → (own ≡ some quota) ⊎ (policy ≡ some quota)
    → ((own ≡ some quota) × (quota_scope scope own quota ≡ scope))
      ⊎ ((policy ≡ some quota) × (quota_scope scope own quota ≡ "storage"))
scope-of_quota scope none policy quota (inl e) = cc
scope-of_quota scope none policy quota (inr e) = inr (e, refl)
scope-of_quota scope (some a) policy quota w = elim (Bool-cases (quota == a)) [
  | inl s ↦ inl (ap some (ground arith), rw s refl)
  | inr s ↦ elim w [ inl e ↦ absurd (ground arith) | inr e ↦ inr (e, rw s refl) ]
]

-- The answer of the code: the rejection of what is exceeded.
abbrev pub answer_of :
    SpaceUpload → Option ℕ → StorageDb → Outcome QuotaError (Unit {0}) × StorageDb
answer_of upload exceeded = reject_upload (
    rejection_of upload.workspace_id upload.own_scope upload.space_scope upload.user_id upload.used
      upload.incoming upload.own_quota exceeded)

rejected-Answers :
    (upload : SpaceUpload) (db : StorageDb) (exceeded : Option ℕ)
    → Exceeds upload.own_quota upload.policy_quota (upload.used + upload.incoming) exceeded
    → Answers upload db (answer_of upload exceeded db)
rejected-Answers upload db none h = (h, refl)
rejected-Answers upload db (some quota) (f, l, w) = (
  f,
  record {
    workspace_id = upload.workspace_id;
    incoming_bytes = upload.incoming;
    quota_bytes = quota;
    scope = quota_scope upload.own_scope upload.own_quota quota;
    space_scope = upload.space_scope;
    used_bytes = upload.used;
    user_id = upload.user_id;
  },
  refl,
  record {
    of_workspace = refl;
    of_space = refl;
    of_user = refl;
    of_used = refl;
    of_incoming = refl;
    is_exceeded = l;
    of_quota = scope-of_quota upload.own_scope upload.own_quota upload.policy_quota quota w;
  },
)

pub exceeded-Answers :
    (upload : SpaceUpload) (db : StorageDb)
    → Answers upload db (
        answer_of upload
          (exceeded_quota upload.used upload.incoming
            (resolve_effective_quota_bytes upload.own_quota upload.policy_quota))
          db)
unfolding resolve_effective_quota_bytes
exceeded-Answers upload db =
    rejected-Answers upload db
      (exceeded_quota upload.used upload.incoming
        (least_quota (positive_quota upload.own_quota) (positive_quota upload.policy_quota)))
      (resolved-Exceeds upload.used upload.incoming upload.own_quota upload.policy_quota)

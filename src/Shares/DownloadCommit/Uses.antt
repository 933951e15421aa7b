-- ===== src/Shares/DownloadCommit/Uses.antt =====
-- How often an intent is used.
use icedr.Prelude.{
  ℕ, ◌≡◌, ◌∙◌, refl, sym, ap, subst, ◌≢◌, ◌⊎◌, inl, inr, String, true, Option, none, some, List,
  if◌then◌else◌, leb, ◌==◌, str_eq, eq_refl, length, filter, find?, is_some, Bool-cases,
  some-injective, arith, map,
}
use icedr.Prisma.{in_memory, Outcome, resolved, thrown, roll_back, update_where, then_run, return}
use icedr.Prisma.Ensures.{find?-update_where}
use icedr.Shares.DownloadCommit.{
  download_limit_reached, intent_unavailable, share_expired, share_missing, share_revoked,
  ShareLink, ShareDownloadIntent, ShareEvent, ShareDb, CommitShareDownloadIntentInput,
  CommitShareDownloadIntentResult, committed, CommitError, is_download, is_usable_intent,
  can_be_used, used, committed_intent, share_expires_at, Start, silent, limited, starts, start_of,
}
use icedr.Shares.DownloadCommit.Transaction.{
  record_start, use_intents, after_use, use_intent, start_intent, commit_intent, commit_share,
  commit,
}

module _ (digest : List ℕ → String) (draw_id : List ShareEvent → String)
    (input : CommitShareDownloadIntentInput) (now : ℕ) (before : ShareDb) where
  abbrev find_intent : Option ShareDownloadIntent
  find_intent = find? (λ row. str_eq row.id input.download_id) before.intents

  -- The intent with the id was usable, and every row that is it now has one use more.
  abbrev IsUse : ShareDownloadIntent → ShareDb → Type 0
  IsUse row after =
      (intent : ShareDownloadIntent) × (find_intent ≡ some intent)
      × (is_usable_intent digest input now intent ≡ true)
      × (after.intents
          ≡ update_where (can_be_used input now intent) (used now intent) before.intents)
      × (row ≡ committed_intent now intent)

  -- No intent has changed, or the rows that could be used have one use more.
  abbrev IsTouched : ShareDb → Type 0
  IsTouched after =
      (after.intents ≡ before.intents)
      ⊎ ((intent : ShareDownloadIntent) × (after.intents
            ≡ update_where (can_be_used input now intent) (used now intent) before.intents))

  abbrev EndsInUse : Outcome CommitError CommitShareDownloadIntentResult × ShareDb → Type 0
  EndsInUse (resolved (committed row), after) = IsUse row after
  EndsInUse (_, after) = IsTouched after

  module _ (share : ShareLink) (intent : ShareDownloadIntent) (found : find_intent ≡ some intent)
      (usable : is_usable_intent digest input now intent ≡ true) where
    abbrev UseOf : ShareDb → Type 0
    UseOf db =
        db.intents ≡ update_where (can_be_used input now intent) (used now intent) before.intents

    record_start-UseOf :
        (start : Start) (db : ShareDb)
        → UseOf db
        → UseOf (record_start in_memory digest draw_id share input now start db).1
    unfolding record_start
    record_start-UseOf silent db h = h
    record_start-UseOf limited db h = h
    record_start-UseOf (starts metadata) db h = ground (arith, h)

    recorded-EndsInUse :
        (p : Outcome CommitError (Unit {0}) × ShareDb)
        → UseOf p.1
        → EndsInUse (then_run p (λ _. return (committed (committed_intent now intent))))
    recorded-EndsInUse (resolved a, db) h = (intent, found, usable, h, refl)
    recorded-EndsInUse (thrown e, db) h = inr (intent, h)

    use_intent-UseOf :
        (start : Start)
        → EndsInUse (use_intent in_memory digest draw_id share input now intent start before)
    unfolding use_intent use_intents after_use
    use_intent-UseOf start =
        elim (Bool-cases (
          length (map (used now intent) (filter (can_be_used input now intent) before.intents))
          == 1)) [
            | inr e ↦ rw e (inr (intent, refl))
            | inl e ↦
                let updated = record before {
                  intents =
                      update_where (can_be_used input now intent) (used now intent) before.intents;
                } in
                rw e (
                  recorded-EndsInUse
                    (record_start in_memory digest draw_id share input now start updated)
                    (record_start-UseOf start updated refl))
          ]

    start_intent-UseOf :
        (start : Start)
        → EndsInUse (start_intent in_memory digest draw_id share input now intent start before)
    unfolding start_intent
    start_intent-UseOf silent = use_intent-UseOf silent
    start_intent-UseOf limited = inl refl
    start_intent-UseOf (starts metadata) = use_intent-UseOf (starts metadata)

  commit_intent-IsUse :
      (share : ShareLink) (found : Option ShareDownloadIntent)
      → find_intent ≡ found
      → EndsInUse (commit_intent in_memory digest draw_id share input now found before)
  unfolding commit_intent
  commit_intent-IsUse share none e = inl refl
  commit_intent-IsUse share (some intent) e =
      elim (Bool-cases (is_usable_intent digest input now intent)) [
        | inr u ↦ rw u (inl refl)
        | inl u ↦ rw u (start_intent-UseOf share intent e u (start_of input intent before))
      ]

  commit_share-IsUse :
      (found : Option ShareLink)
      → EndsInUse (commit_share in_memory digest draw_id input now found before)
  unfolding commit_share
  commit_share-IsUse none = inl refl
  commit_share-IsUse (some share) = elim (Bool-cases (is_some share.revoked_at)) [
    | inl r ↦ rw r (inl refl)
    | inr r ↦ elim (Bool-cases (leb (share_expires_at share) now)) [
      | inl x ↦ rw (r, x) (inl refl)
      | inr x ↦ rw (r, x) (commit_intent-IsUse share find_intent refl)
    ]
  ]

  roll_back-IsUse :
      (p : Outcome CommitError CommitShareDownloadIntentResult × ShareDb)
      → EndsInUse p
      → EndsInUse (roll_back before p)
  roll_back-IsUse (resolved a, after) k = k
  roll_back-IsUse (thrown e, after) k = inl refl

  commit-IsUse : EndsInUse (commit in_memory digest draw_id input now before)
  unfolding commit
  commit-IsUse =
      roll_back-IsUse
        (commit_share in_memory digest draw_id input now
          (find? (λ row. str_eq row.token input.share_token) before.shares) before)
        (commit_share-IsUse (find? (λ row. str_eq row.token input.share_token) before.shares))

-- The download's intent has been used.
abbrev pub IsSpent : String → ShareDb → Type 0
IsSpent id db =
    (row : ShareDownloadIntent) × (find? (λ r. str_eq r.id id) db.intents ≡ some row)
    × (is_download row ≡ true)
    × (is_some row.consumed_at ≡ true)

module _ (digest : List ℕ → String) (draw_id : List ShareEvent → String)
    (input : CommitShareDownloadIntentInput) (now : ℕ) (before : ShareDb) where
  IsTouched-IsSpent :
      (id : String) (after : ShareDb)
      → IsSpent id before
      → IsTouched digest draw_id input now before after
      → IsSpent id after
  IsTouched-IsSpent id after (row, f, d, c) (inl e) =
      (row, ap (find? (λ r. str_eq r.id id)) e ∙ f, d, c)
  IsTouched-IsSpent id after (row, f, d, c) (inr (intent, e)) = (
    if can_be_used input now intent row then used now intent row else row,
    ap (find? (λ r. str_eq r.id id)) e
        ∙ find?-update_where (λ r. str_eq r.id id) (can_be_used input now intent) (used now intent)
            (λ x. refl) before.intents f,
    ground (arith, d),
    ground (arith, c),
  )

  IsUse-IsSpent :
      (row : ShareDownloadIntent) (after : ShareDb)
      → IsUse digest draw_id input now before row after
      → is_download row ≡ true
      → IsSpent input.download_id after
  IsUse-IsSpent row after (intent, found, usable, e, same) d =
      let download : is_download intent ≡ true = sym (ap is_download same) ∙ d in
      let can : can_be_used input now intent intent ≡ true =
        ground (arith, usable, eq_refl intent.id) in
      (
        used now intent intent,
        ap (find? (λ r. str_eq r.id input.download_id)) e
            ∙ find?-update_where (λ r. str_eq r.id input.download_id) (can_be_used input now intent)
                (used now intent) (λ x. refl) before.intents found
            ∙ rw can refl,
        download,
        rw download refl,
      )

  IsUse-not_spent :
      (row : ShareDownloadIntent) (after : ShareDb)
      → IsUse digest draw_id input now before row after
      → IsSpent input.download_id before
      → ⊥
  IsUse-not_spent row after (intent, found, usable, e, same) (spent, f, d, c) =
      let both : intent ≡ spent = some-injective (sym found ∙ f) in
      let u = subst (λ i. is_usable_intent digest input now i ≡ true) both usable in
      absurd (ground (arith, u, d, c))

  EndsInUse-IsTouched :
      (p : Outcome CommitError CommitShareDownloadIntentResult × ShareDb)
      → EndsInUse digest draw_id input now before p
      → IsTouched digest draw_id input now before p.1
  EndsInUse-IsTouched (resolved (committed row), after) (intent, found, usable, e, same) =
      inr (intent, e)
  EndsInUse-IsTouched (resolved download_limit_reached, after) h = h
  EndsInUse-IsTouched (resolved intent_unavailable, after) h = h
  EndsInUse-IsTouched (resolved share_expired, after) h = h
  EndsInUse-IsTouched (resolved share_missing, after) h = h
  EndsInUse-IsTouched (resolved share_revoked, after) h = h
  EndsInUse-IsTouched (thrown e, after) h = h

module _ (digest : List ℕ → String) (draw_id : List ShareEvent → String)
    (input : CommitShareDownloadIntentInput) (now : ℕ) (before : ShareDb) where
  pub commit-keeps_IsSpent :
      (id : String)
      → IsSpent id before
      → IsSpent id (commit in_memory digest draw_id input now before).1
  commit-keeps_IsSpent id h =
      let result = commit in_memory digest draw_id input now before in
      IsTouched-IsSpent digest draw_id input now before id result.1 h (
        EndsInUse-IsTouched digest draw_id input now before result
          (commit-IsUse digest draw_id input now before))

  -- A download that has been committed is spent, and one that is spent is not committed.
  pub committed-IsSpent :
      (row : ShareDownloadIntent) (after : ShareDb)
      → commit in_memory digest draw_id input now before ≡ (resolved (committed row), after)
      → is_download row ≡ true
      → IsSpent input.download_id after
  committed-IsSpent row after h d =
      IsUse-IsSpent digest draw_id input now before row after
        (subst (EndsInUse digest draw_id input now before) h
          (commit-IsUse digest draw_id input now before))
        d

  pub IsSpent-not_committed :
      (row : ShareDownloadIntent) (after : ShareDb)
      → IsSpent input.download_id before
      → commit in_memory digest draw_id input now before ≢ (resolved (committed row), after)
  IsSpent-not_committed row after spent h =
      IsUse-not_spent digest draw_id input now before row after
        (subst (EndsInUse digest draw_id input now before) h
          (commit-IsUse digest draw_id input now before))
        spent

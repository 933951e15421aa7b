-- ===== src/Shares/DownloadCommit/Limit.antt =====
-- How many downloads of a share are started.
use icedr.Prelude.{
  ℕ, ◌+◌, ◌≤◌, ◌<◌, ◌≡◌, refl, ap, ◌∙◌, inl, inr, String, Bool, true, false, Option, none, some,
  List, [], ◌∷◌, if◌then◌else◌, leb, ◌==◌, str_eq, eq_iff, length, filter, find?, is_some,
  Bool-cases, leb→le, All, arith, subst, map,
}
use icedr.Prisma.{
  Client, IsPrisma, by_in_memory, in_memory, Outcome, resolved, thrown, roll_back, update_where,
  then_run, return,
}
use icedr.Shares.DownloadCommit.{
  ShareLink, ShareDownloadIntent, StartedMetadata, ShareEvent, ShareDb,
  CommitShareDownloadIntentInput, CommitShareDownloadIntentResult, CommitError, is_download,
  download_count, remaining_downloads, metadata_of_remaining, metadata_for_download_count,
  is_usable_intent, can_be_used, used, share_expires_at, Start, silent, limited, starts, start_of,
  committed, committed_intent,
}
use icedr.Shares.DownloadCommit.Transaction.{
  record_start, use_intents, after_use, use_intent, start_intent, commit_intent, commit_share,
  commit,
}

-- The metadata of a request refuses a download once the limit of its share is reached.
abbrev pub Refuses : (String → ℕ) → CommitShareDownloadIntentInput → Type 0
Refuses limits input = (n : ℕ) → limits input.share_token ≤ n → input.metadata_for n ≡ none

-- The metadata of the service refuses so, for a share whose limit is not zero.
pub metadata_for-Refuses :
    (limits : String → ℕ) (describe : Option ℕ → StartedMetadata)
    (input : CommitShareDownloadIntentInput)
    → 0 < limits input.share_token
    → input.metadata_for ≡ metadata_for_download_count (limits input.share_token) describe
    → Refuses limits input
metadata_for-Refuses limits describe input l e n h =
    ap (λ f. f n) e ∙ ap (metadata_of_remaining describe) (none_left l h)
  where
    none_left : {max count : ℕ} → 0 < max → max ≤ count → remaining_downloads max count ≡ some 0
    none_left p q = ground arith

-- No share has more downloads than its limit.
abbrev pub IsWithin : (String → ℕ) → ShareDb → Type 0
IsWithin limits db = (token : String) → download_count token db ≤ limits token

-- The requests of any visitors, one transaction after the other.
unfoldable pub run_commits :
    Client
    → (List ℕ → String)
    → (List ShareEvent → String)
    → List (CommitShareDownloadIntentInput × ℕ)
    → ShareDb
    → ShareDb
run_commits c digest draw_id [] db = db
run_commits c digest draw_id ((input, now) ∷ requests) db =
    run_commits c digest draw_id requests (commit c digest draw_id input now db).1

abbrev started : CommitShareDownloadIntentInput → String → Start → ℕ
started input token silent = 0
started input token limited = 0
started input token (starts metadata) = if str_eq input.share_token token then 1 else 0

module _ (digest : List ℕ → String) (draw_id : List ShareEvent → String)
    (input : CommitShareDownloadIntentInput) (now : ℕ) where
  record_start-count :
      (token : String) (share : ShareLink) (start : Start) (db : ShareDb)
      → download_count token (record_start in_memory digest draw_id share input now start db).1
        ≤ download_count token db + started input token start
  unfolding record_start
  record_start-count token share silent db = omega arith
  record_start-count token share limited db = omega arith
  record_start-count token share (starts metadata) db = ground arith

  after_use-count :
      (token : String) (share : ShareLink) (intent : ShareDownloadIntent) (start : Start)
      (count : ℕ) (db : ShareDb)
      → download_count token
          (after_use in_memory digest draw_id share input now intent start count db).1
        ≤ download_count token db + started input token start
  unfolding after_use
  after_use-count token share intent start count db = elim (Bool-cases (count == 1)) [
    | inl e ↦ rw e (
        then_run-count (record_start in_memory digest draw_id share input now start db)
          (record_start-count token share start db))
    | inr e ↦ rw e (omega arith)
  ]
    where
      then_run-count :
          (p : Outcome CommitError (Unit {0}) × ShareDb)
          → download_count token p.1 ≤ download_count token db + started input token start
          → download_count token
              (then_run p (λ _. return (committed (committed_intent now intent)))).1
            ≤ download_count token db + started input token start
      then_run-count (resolved a, after) h = h
      then_run-count (thrown e, after) h = h

  use_intent-count :
      (token : String) (share : ShareLink) (intent : ShareDownloadIntent) (start : Start)
      (db : ShareDb)
      → download_count token (use_intent in_memory digest draw_id share input now intent start db).1
        ≤ download_count token db + started input token start
  unfolding use_intent use_intents
  use_intent-count token share intent start db =
      after_use-count token share intent start
        (length (map (used now intent) (filter (can_be_used input now intent) db.intents)))
        (record db {
          intents = update_where (can_be_used input now intent) (used now intent) db.intents;
        })

  module _ (limits : String → ℕ) (refuses : Refuses limits input) where
    starts-room :
        (intent : ShareDownloadIntent) (db : ShareDb) (metadata : StartedMetadata)
        → start_of input intent db ≡ starts metadata
        → download_count input.share_token db < limits input.share_token
    starts-room intent db metadata e =
        elim (Bool-cases (leb (limits input.share_token) (download_count input.share_token db))) [
          | inr n ↦ ground arith
          | inl l ↦
              let none_left = refuses (download_count input.share_token db) (leb→le _ _ l) in
              absurd (not_started (is_download intent) metadata (rw none_left at e))
        ]
      where
        not_started :
            (download : Bool) (metadata : StartedMetadata)
            → (if download then limited else silent) ≡ starts metadata
            → ⊥
        not_started true metadata q = cc
        not_started false metadata q = cc

    -- A download that starts leaves room for itself.
    start_of-room :
        (intent : ShareDownloadIntent) (db : ShareDb) (start : Start)
        → start_of input intent db ≡ start
        → IsWithin limits db
        → (token : String) → download_count token db + started input token start ≤ limits token
    start_of-room intent db silent e h token = omega (arith, h token)
    start_of-room intent db limited e h token = omega (arith, h token)
    start_of-room intent db (starts metadata) e h token =
        elim (Bool-cases (str_eq input.share_token token)) [
          | inr n ↦ rw n (omega (arith, h token))
          | inl s ↦
              let same : input.share_token ≡ token = (eq_iff input.share_token token).0 s in
              rw s (
                subst (λ t. download_count t db + 1 ≤ limits t) same
                  (omega (arith, starts-room intent db metadata e)))
        ]

    commit_intent-IsWithin :
        (share : ShareLink) (found : Option ShareDownloadIntent) (db : ShareDb)
        → IsWithin limits db
        → IsWithin limits (commit_intent in_memory digest draw_id share input now found db).1
    unfolding commit_intent
    commit_intent-IsWithin share none db h = h
    commit_intent-IsWithin share (some intent) db h =
        elim (Bool-cases (is_usable_intent digest input now intent)) [
          | inr e ↦ rw e h
          | inl e ↦ rw e (start_intent-IsWithin (start_of input intent db) refl)
        ]
      where
        start_intent-IsWithin :
            (start : Start)
            → start_of input intent db ≡ start
            → IsWithin limits
                (start_intent in_memory digest draw_id share input now intent start db).1
        start_intent-IsWithin silent e token = omega (
          arith,
          start_of-room intent db silent e h token,
          use_intent-count token share intent silent db,
        )
        start_intent-IsWithin limited e token = h token
        start_intent-IsWithin (starts metadata) e token = omega (
          arith,
          start_of-room intent db (starts metadata) e h token,
          use_intent-count token share intent (starts metadata) db,
        )

    commit_share-IsWithin :
        (found : Option ShareLink) (db : ShareDb)
        → IsWithin limits db
        → IsWithin limits (commit_share in_memory digest draw_id input now found db).1
    unfolding commit_share
    commit_share-IsWithin none db h = h
    commit_share-IsWithin (some share) db h = elim (Bool-cases (is_some share.revoked_at)) [
      | inl r ↦ rw r h
      | inr r ↦ elim (Bool-cases (leb (share_expires_at share) now)) [
        | inl x ↦ rw (r, x) h
        | inr x ↦
            rw (r, x)
              (commit_intent-IsWithin share
                (find? (λ row. str_eq row.id input.download_id) db.intents) db h)
      ]
    ]

    commit-IsWithin :
        (db : ShareDb)
        → IsWithin limits db
        → IsWithin limits (commit in_memory digest draw_id input now db).1
    unfolding commit
    commit-IsWithin db h =
        roll_back-IsWithin
          (commit_share in_memory digest draw_id input now
            (find? (λ row. str_eq row.token input.share_token) db.shares) db)
          (commit_share-IsWithin (find? (λ row. str_eq row.token input.share_token) db.shares) db h)
      where
        roll_back-IsWithin :
            (p : Outcome CommitError CommitShareDownloadIntentResult × ShareDb)
            → IsWithin limits p.1
            → IsWithin limits (roll_back db p).1
        roll_back-IsWithin (resolved a, after) k = k
        roll_back-IsWithin (thrown e, after) k = h

run_commits-in_memory :
    (digest : List ℕ → String) (draw_id : List ShareEvent → String) (limits : String → ℕ)
    (requests : List (CommitShareDownloadIntentInput × ℕ)) (db : ShareDb)
    → All (λ r. Refuses limits r.0) requests
    → IsWithin limits db
    → IsWithin limits (run_commits in_memory digest draw_id requests db)
unfolding run_commits
run_commits-in_memory digest draw_id limits [] db refuse h = h
run_commits-in_memory digest draw_id limits ((input, now) ∷ requests) db (r, refuse) h =
    run_commits-in_memory digest draw_id limits requests _ refuse
      (commit-IsWithin digest draw_id input now limits r db h)

-- Whatever transactions commit downloads, in any order, where each one's metadata refuses a download
-- once the limit of its share is reached: no share that has not exceeded its limit gets more started
-- downloads than it.
pub run_commits-IsWithin :
    (prisma : Client)
    → IsPrisma prisma
    → (digest : List ℕ → String) (draw_id : List ShareEvent → String) (limits : String → ℕ)
      (requests : List (CommitShareDownloadIntentInput × ℕ)) (db : ShareDb)
    → All (λ r. Refuses limits r.0) requests
    → IsWithin limits db
    → IsWithin limits (run_commits prisma digest draw_id requests db)
run_commits-IsWithin prisma laws digest draw_id limits requests db refuse h =
    by_in_memory (λ c. IsWithin limits (run_commits c digest draw_id requests db)) laws
      (run_commits-in_memory digest draw_id limits requests db refuse h)

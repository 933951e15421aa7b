-- ===== src/Shares/DownloadCommit.antt =====
-- backend/src/modules/shares/share-download-commit.repository.ts and share-visitor-fingerprint.ts,
-- with the limit that share-download.service.ts and share-download-policy.ts give it:
-- the start of a download or a preview under a claimed intent, in one serializable transaction. The
-- digest of a visitor's values (node:crypto) and the random id of an audit event are arguments.
pub mod Uses
pub mod Transaction
pub mod Limit
pub mod Examples
use icedr.Prelude.{
  ℕ, zero, suc, ◌+◌, ◌-◌, ◌*◌, String, Bool, true, false, not, ◌&&◌, ◌||◌, Option, none, some, List,
  [], ◌∷◌, if◌then◌else◌, leb, ltb, ◌==◌, str_eq, length, filter, is_none, is_some, is_text,
  same_text, is_empty, codes, trim, get_or,
}
use icedr.Prisma.{Client, Outcome, resolved, thrown, Action, ◌>>=◌, ◌>>◌, return}

-- What the transaction reads of a row of share_links. A negative number of days counts as none.
pub record ShareLink : Type 0 where
  pub token : String
  pub workspace_id : String
  pub created_at : ℕ
  pub expires_days : ℕ
  pub revoked_at : Option ℕ

pub record ShareDownloadIntent : Type 0 where
  pub id : String
  pub share_token : String
  pub node_id : String
  pub purpose : String
  pub claim_token : Option String
  pub claimed_at : Option ℕ
  pub failure_code : Option String
  pub expires_at : ℕ
  pub consumed_at : Option ℕ
  pub use_count : ℕ
  pub request_ip_hash : Option String
  pub user_agent_hash : Option String
  pub updated_at : Option ℕ

-- The metadata that a caller gives for the start of a download: the entries that the transaction
-- looks at, where they are texts, and all of them.
pub record StartedMetadata : Type 0 where
  pub identity_type : Option String
  pub actor_user_id : Option String
  pub node_id : Option String
  pub entries : List (String × String)

pub record ShareEvent : Type 0 where
  pub id : String
  pub action : String
  pub actor : String
  pub target : String
  pub workspace_id : String
  pub share_token : String
  pub node_id : String
  pub metadata : List (String × String)
  pub created_at : ℕ

pub record ShareDb : Type 0 where
  pub shares : List ShareLink
  pub intents : List ShareDownloadIntent
  pub events : List ShareEvent

pub record ShareVisitorFingerprint : Type 0 where
  pub ip : Option String
  pub user_agent : Option String

pub record CommitShareDownloadIntentInput : Type 0 where
  pub claim_token : String
  pub download_id : String
  pub metadata_for : ℕ → Option StartedMetadata
  pub node_id : String
  pub share_token : String
  pub visitor : ShareVisitorFingerprint

-- `remainingDownloads` of a decision; a limit of zero is none.
abbrev pub remaining_downloads : (max_downloads download_count : ℕ) → Option ℕ
remaining_downloads max_downloads download_count =
    if ltb 0 max_downloads then some (max_downloads - download_count) else none

-- The callback of share-download.service.ts, for a share with this limit. `describe` is the metadata
-- with the decision that leaves so many downloads.
abbrev pub metadata_of_remaining : (Option ℕ → StartedMetadata) → Option ℕ → Option StartedMetadata
metadata_of_remaining describe none = some (describe none)
metadata_of_remaining describe (some zero) = none
metadata_of_remaining describe (some (suc left)) = some (describe (some (suc left)))

abbrev pub metadata_for_download_count :
    ℕ → (Option ℕ → StartedMetadata) → ℕ → Option StartedMetadata
metadata_for_download_count max_downloads describe download_count =
    metadata_of_remaining describe (remaining_downloads max_downloads download_count)

-- `committed` comes with the row that the answer is mapped from.
pub data CommitShareDownloadIntentResult : Type 0 where
  committed : ShareDownloadIntent → CommitShareDownloadIntentResult
  download_limit_reached intent_unavailable share_expired share_missing share_revoked :
      CommitShareDownloadIntentResult

-- The id of an audit event that is taken.
pub data CommitError : Type 0 where
  event_exists : CommitError

abbrev pub CommitAction : Type 0 → Type 0
CommitAction A = Action ShareDb CommitError A

abbrev pub hash_share_visitor_value : (List ℕ → String) → Option String → Option String
hash_share_visitor_value digest none = none
hash_share_visitor_value digest (some value) =
    let normalized = trim (codes value) in
    if is_empty normalized then none else some (digest normalized)

-- `!stored || stored === hash`
abbrev pub hash_fits : Option String → Option String → Bool
hash_fits none hash = true
hash_fits (some stored) hash = str_eq stored "" || is_text hash stored

abbrev pub matches_share_visitor_fingerprint :
    (List ℕ → String) → ShareDownloadIntent → ShareVisitorFingerprint → Bool
matches_share_visitor_fingerprint digest stored visitor =
    hash_fits stored.request_ip_hash (hash_share_visitor_value digest visitor.ip)
    && hash_fits stored.user_agent_hash (hash_share_visitor_value digest visitor.user_agent)

abbrev pub use_limit : String → ℕ
use_limit purpose = if str_eq purpose "preview" then 64 else 1

abbrev pub is_download : ShareDownloadIntent → Bool
is_download intent = str_eq intent.purpose "download"

abbrev pub share_expires_at : ShareLink → ℕ
share_expires_at share = share.created_at + share.expires_days * 86400000

abbrev pub is_usable_intent :
    (List ℕ → String) → CommitShareDownloadIntentInput → ℕ → ShareDownloadIntent → Bool
is_usable_intent digest input now intent =
    str_eq intent.share_token input.share_token
    && str_eq intent.node_id input.node_id
    && is_text intent.claim_token input.claim_token
    && ltb now intent.expires_at
    && (is_download intent || str_eq intent.purpose "preview")
    && not (is_download intent && is_some intent.consumed_at)
    && ltb intent.use_count (use_limit intent.purpose)
    && matches_share_visitor_fingerprint digest intent input.visitor

-- The `where` and `data` of the update, for the intent that was read.
abbrev pub can_be_used :
    CommitShareDownloadIntentInput → ℕ → (read row : ShareDownloadIntent) → Bool
can_be_used input now read row =
    str_eq row.id read.id
    && str_eq row.share_token input.share_token
    && str_eq row.node_id input.node_id
    && is_text row.claim_token input.claim_token
    && ltb now row.expires_at
    && ltb row.use_count (use_limit read.purpose)
    && (not (is_download read) || is_none row.consumed_at)

abbrev pub used : ℕ → (read row : ShareDownloadIntent) → ShareDownloadIntent
used now read row = record row {
  claim_token = none;
  claimed_at = none;
  consumed_at = if is_download read then some now else row.consumed_at;
  failure_code = none;
  updated_at = some now;
  use_count = row.use_count + 1;
}

-- The answer's row, from the intent that was read: `consumedAt` is null unless it is a download.
abbrev pub committed_intent : ℕ → ShareDownloadIntent → ShareDownloadIntent
committed_intent now intent = record intent {
  claim_token = none;
  claimed_at = none;
  consumed_at = if is_download intent then some now else none;
  failure_code = none;
  updated_at = some now;
  use_count = intent.use_count + 1;
}

abbrev pub is_started : String → ShareEvent → Bool
is_started share_token event =
    str_eq event.action "share.download_started" && str_eq event.share_token share_token

abbrev pub download_count : String → ShareDb → ℕ
download_count share_token db = length (filter (is_started share_token) db.events)

-- A preview needs no event, a download the one that its metadata describes, if it may start.
pub data Start : Type 0 where
  silent limited : Start
  starts : StartedMetadata → Start

abbrev pub start_of_metadata : Option StartedMetadata → Start
start_of_metadata none = limited
start_of_metadata (some metadata) = starts metadata

abbrev pub start_of : CommitShareDownloadIntentInput → ShareDownloadIntent → ShareDb → Start
start_of input intent db =
    if is_download intent
    then start_of_metadata (input.metadata_for (download_count input.share_token db))
    else silent

abbrev pub started_event :
    String → CommitShareDownloadIntentInput → ℕ → String → StartedMetadata → ShareEvent
started_event workspace_id input now id metadata = record {
  id = id;
  action = "share.download_started";
  actor =
      if is_text metadata.identity_type "ica" || is_some metadata.actor_user_id
      then "account"
      else "visitor";
  target = input.share_token;
  workspace_id = workspace_id;
  share_token = input.share_token;
  node_id = get_or metadata.node_id input.node_id;
  metadata = ("source", "shares-service") ∷ metadata.entries;
  created_at = now;
}

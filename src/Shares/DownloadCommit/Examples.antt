-- ===== src/Shares/DownloadCommit/Examples.antt =====
-- Two intents to download from a share that has one download left.
use icedr.Prelude.{refl, ℕ, String, none, some, Option, List, [], ◌∷◌, arith}
use icedr.Prisma.{in_memory, in_memory-IsPrisma}
use icedr.Shares.DownloadCommit.{
  ShareLink, ShareDownloadIntent, StartedMetadata, ShareEvent, ShareDb,
  CommitShareDownloadIntentInput, metadata_for_download_count,
}
use icedr.Shares.DownloadCommit.Limit.{
  IsWithin, run_commits, run_commits-IsWithin, metadata_for-Refuses,
}

abbrev pub link : ShareLink
link = record {
  token = "t";
  workspace_id = "w";
  created_at = 0;
  expires_days = 7;
  revoked_at = none;
}

abbrev pub intent : String → ShareDownloadIntent
intent id = record {
  id = id;
  share_token = "t";
  node_id = "n";
  purpose = "download";
  claim_token = some "k";
  claimed_at = some 1000;
  failure_code = none;
  expires_at = 900000;
  consumed_at = none;
  use_count = 0;
  request_ip_hash = none;
  user_agent_hash = none;
  updated_at = some 1000;
}

abbrev pub two_intents : ShareDb
two_intents = record { shares = link ∷ []; intents = intent "d1" ∷ intent "d2" ∷ []; events = [] }

abbrev pub anonymous : Option ℕ → StartedMetadata
anonymous left = record {
  identity_type = some "anonymous";
  actor_user_id = none;
  node_id = none;
  entries = [];
}

abbrev pub one_download : String → CommitShareDownloadIntentInput
one_download id = record {
  claim_token = "k";
  download_id = id;
  metadata_for = metadata_for_download_count 1 anonymous;
  node_id = "n";
  share_token = "t";
  visitor = record { ip = none; user_agent = none };
}

abbrev pub no_digest : List ℕ → String
no_digest _ = ""

abbrev pub event_id : List ShareEvent → String
event_id _ = "e1"

run_commits-IsWithin_example :
    IsWithin
      (λ _. 1)
      (run_commits in_memory no_digest event_id
        ((one_download "d1", 2000) ∷ (one_download "d2", 3000) ∷ [])
        two_intents)
run_commits-IsWithin_example =
    run_commits-IsWithin in_memory in_memory-IsPrisma no_digest event_id (λ _. 1)
      ((one_download "d1", 2000) ∷ (one_download "d2", 3000) ∷ []) two_intents
      (
        metadata_for-Refuses (λ _. 1) anonymous (one_download "d1") (omega arith) refl,
        (metadata_for-Refuses (λ _. 1) anonymous (one_download "d2") (omega arith) refl, tt),
      )
      (λ token. omega arith)

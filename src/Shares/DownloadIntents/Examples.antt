-- ===== src/Shares/DownloadIntents/Examples.antt =====
-- The intents of DownloadCommit/Examples, claimed, used and claimed again.
use icedr.Prelude.{◌≡◌, refl, String, none, some, List, [], ◌∷◌, arith}
use icedr.Prisma.{in_memory, in_memory-IsPrisma, resolved}
use icedr.Shares.DownloadCommit.{ShareDb, committed_intent, used, started_event}
use icedr.Shares.DownloadCommit.Transaction.{commit}
use icedr.Shares.DownloadCommit.Examples.{
  link, intent, two_intents, anonymous, one_download, no_digest, event_id,
}
use icedr.Shares.DownloadIntents.{OpenShareDownloadIntentInput, claim_read}
use icedr.Shares.DownloadIntents.Spent.{
  IntentStep, claims, clears, commits, run_steps, IsClosed, committed-IsClosed,
}
use icedr.Shares.DownloadIntents.Races.{second_claim-IsRefused}

abbrev opens : String → OpenShareDownloadIntentInput
opens id = record {
  download_id = id;
  token = "t";
  node_id = "n";
  visitor = record { ip = none; user_agent = none };
}

abbrev one_left : ShareDb
one_left = record {
  shares = link ∷ [];
  intents = used 2000 (intent "d1") (intent "d1") ∷ intent "d2" ∷ [];
  events = started_event "w" (one_download "d1") 2000 "e1" (anonymous (some 1)) ∷ [];
}

abbrev some_steps : List IntentStep
some_steps =
    claims "k2" (opens "d1") 2500 (intent "d1")
    ∷ clears (record { claim_token = "k"; download_id = "d2"; node_id = "n"; token = "t" }) none
        2600
    ∷ commits (one_download "d2") 2700
    ∷ []

committed-IsClosed_example :
    IsClosed in_memory no_digest event_id
      (one_download "d1")
      (opens "d1")
      3000
      "k3"
      (λ d. d)
      (intent "d1")
      two_intents
      (run_steps in_memory no_digest event_id some_steps one_left)
unfolding commit
committed-IsClosed_example =
    committed-IsClosed in_memory in_memory-IsPrisma no_digest event_id (one_download "d1")
      (one_download "d1") (opens "d1") 2000 3000 "k3" (λ d. d) some_steps two_intents one_left
      two_intents (committed_intent 2000 (intent "d1")) (intent "d1") refl refl refl refl

second_claim-IsRefused_example :
    claim_read in_memory no_digest "k2"
      (opens "d1")
      40000
      (λ d.
        (claim_read in_memory no_digest "k1" (opens "d1") 39000 (λ e. e) (some (intent "d1")) d).1)
      (some (intent "d1"))
      two_intents
    ≡ (
      resolved none,
      (claim_read in_memory no_digest "k1"
          (opens "d1")
          39000
          (λ e. e)
          (some (intent "d1"))
          two_intents).1,
    )
second_claim-IsRefused_example =
    second_claim-IsRefused in_memory in_memory-IsPrisma no_digest (opens "d1") 39000 40000 "k1" "k2"
      (intent "d1") two_intents refl (omega arith)

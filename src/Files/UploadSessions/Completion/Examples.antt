-- ===== src/Files/UploadSessions/Completion/Examples.antt =====
-- An upload session that is claimed for its completion, with the client in memory.
use icedr.Prelude.{refl, String, none, some, List, [], ◌∷◌}
use icedr.Prisma.{in_memory, in_memory-IsPrisma}
use icedr.Transfers.State.{running}
use icedr.Transfers.Tables.{TransferTask, UploadTarget, UploadSession, AuditEvent, TransferDb}
use icedr.Files.UploadSessions.Completion.{claim_completion}
use icedr.Files.UploadSessions.Completion.Parts.{claim_write}
use icedr.Files.UploadSessions.Completion.Fenced.{
  IsRefused, marks, run_with_token, token_operation-IsRefused,
}
use icedr.Files.UploadSessions.Completion.Claimed.{claims-IsRefused}

abbrev claimed_task : TransferTask
claimed_task = record {
  id = "t1";
  workspace_id = "w1";
  owner_user_id = some "u1";
  node_id = some "n1";
  object_key = none;
  name = "report.pdf";
  transfer_type = "upload";
  progress = 990;
  status = "running";
  failure_code = none;
  expires_at = some 900000;
  created_at = 0;
  updated_at = 1;
}

abbrev claimed_target : UploadTarget
claimed_target = record {
  owner_user_id = some "u1";
  workspace_id = "w1";
  space_scope = "workspace";
  conflict_strategy = "rename";
  object_key = "objects/1";
  multipart_upload_id = none;
  resume_key = none;
  requested_file_name = none;
  file_name = "report.pdf";
  conflict_target_node_id = none;
  conflict_target_object_key = none;
  parent_node_id = none;
  mime_type = "application/pdf";
  size_bytes = 100;
  chunk_size_bytes = 10;
}

abbrev claimed_session : UploadSession
claimed_session = record {
  id = "s1";
  transfer_id = "t1";
  node_id = some "n1";
  target = claimed_target;
  status = "running";
  failure_code = none;
  expires_at = some 900000;
  completion_token = some "k1";
  completion_started_at = some 1000;
  storage_finalized_at = some 1500;
  created_at = 0;
  updated_at = 1;
}

abbrev claimed_upload : TransferDb
claimed_upload = record {
  transfers = claimed_task ∷ [];
  sessions = claimed_session ∷ [];
  audits = [];
  parts = [];
}

abbrev next_id : List AuditEvent → String
next_id _ = "a1"

token_operation-IsRefused_example :
    IsRefused claimed_upload claimed_upload
      (run_with_token marks in_memory next_id 2000 "s1" "k2" [] (λ d. d) claimed_upload)
token_operation-IsRefused_example =
    token_operation-IsRefused in_memory in_memory-IsPrisma marks next_id 2000 "s1" "k2" [] (λ d. d)
      claimed_upload refl

claims-IsRefused_example :
    IsRefused claimed_upload claimed_upload
      (claim_completion in_memory 2000 "s1" running "k2" (λ d. d) claimed_upload)
    × IsRefused claimed_upload claimed_upload
        (claim_write in_memory 2000 "s1" "k2" (λ d. d) claimed_upload)
claims-IsRefused_example =
    claims-IsRefused in_memory in_memory-IsPrisma 2000 "s1" "k2" running (λ d. d) claimed_upload
      refl

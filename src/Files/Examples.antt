-- ===== src/Files/Examples.antt =====
-- An upload session that is canceled, expires or is resumed, with the client in memory.
use icedr.Prelude.{refl, String, true, none, some, List, [], ◌∷◌}
use icedr.Prisma.{in_memory, in_memory-IsPrisma}
use icedr.Transfers.State.{running}
use icedr.Transfers.Tables.{TransferTask, UploadTarget, UploadSession, AuditEvent, TransferDb}
use icedr.Files.UploadSessions.Endings.Requests.{cancel, transition_failure}
use icedr.Files.UploadSessions.Endings.Together.{
  IsTogether, cancel-IsTogether, transition_failure-IsTogether,
}
use icedr.Transfers.Repository.{tenths}
use icedr.Files.UploadSessions.Lifecycle.Resume.{resume}
use icedr.Files.UploadSessions.Lifecycle.Resumed.{resume-IsTogether}

abbrev upload_task : TransferTask
upload_task = record {
  id = "t1";
  workspace_id = "w1";
  owner_user_id = some "u1";
  node_id = none;
  object_key = none;
  name = "report.pdf";
  transfer_type = "upload";
  progress = 100;
  status = "running";
  failure_code = none;
  expires_at = some 1000;
  created_at = 0;
  updated_at = 1;
}

abbrev upload_target : UploadTarget
upload_target = record {
  owner_user_id = some "u1";
  workspace_id = "w1";
  space_scope = "workspace";
  conflict_strategy = "rename";
  object_key = "objects/1";
  multipart_upload_id = none;
  resume_key = none;
  requested_file_name = none;
  file_name = "report.pdf";
  conflict_target_node_id = none;
  conflict_target_object_key = none;
  parent_node_id = none;
  mime_type = "application/pdf";
  size_bytes = 100;
  chunk_size_bytes = 10;
}

abbrev running_session : UploadSession
running_session = record {
  id = "s1";
  transfer_id = "t1";
  node_id = none;
  target = upload_target;
  status = "running";
  failure_code = none;
  expires_at = some 1000;
  completion_token = none;
  completion_started_at = none;
  storage_finalized_at = none;
  created_at = 0;
  updated_at = 1;
}

abbrev one_upload : TransferDb
one_upload = record {
  transfers = upload_task ∷ [];
  sessions = running_session ∷ [];
  audits = [];
  parts = [];
}

abbrev fixed_id : List AuditEvent → String
fixed_id _ = "a1"

cancel-IsTogether_example :
    IsTogether "t1" "canceled" one_upload one_upload
      (cancel in_memory fixed_id 500 "s1" running [] (λ d. d) one_upload)
cancel-IsTogether_example =
    cancel-IsTogether in_memory in_memory-IsPrisma fixed_id 500 (λ d. d) one_upload running_session
      "s1" running [] refl

transition_failure-IsTogether_example :
    IsTogether "t1" "expired" one_upload one_upload
      (transition_failure in_memory fixed_id 1500 "s1" true none [] (λ d. d) one_upload)
transition_failure-IsTogether_example =
    transition_failure-IsTogether in_memory in_memory-IsPrisma fixed_id 1500 (λ d. d) one_upload
      running_session "s1" true none [] refl

resume-IsTogether_example :
    IsTogether "t1" "running" one_upload one_upload
      (resume in_memory "s1" running (tenths 200) 500 (λ d. d) one_upload)
resume-IsTogether_example =
    resume-IsTogether in_memory in_memory-IsPrisma 500 (λ d. d) one_upload running_session "s1"
      running (tenths 200) refl

-- ===== src/Transfers/Examples.antt =====
-- Transfer tasks at concrete statuses, rows and updates, with the client in memory.
use icedr.Prelude.{◌≢◌, String, Option, none, some, List, [], ◌∷◌, arith, Rows, eq_iff}
use icedr.Prisma.{in_memory, in_memory-IsPrisma}
use icedr.Transfers.State.{running, completed, TransferTaskLifecycleInput}
use icedr.Transfers.Tables.{TransferTask, TransferDb, AuditEvent}
use icedr.Transfers.Repository.{TransferUpdateInput, tenths}
use icedr.Transfers.Repository.Operations.{update, update_user_controlled}
use icedr.Transfers.Repository.Advance.{Advances}
use icedr.Transfers.Repository.Committed.{updates-Advances}

abbrev stalled_input : TransferTaskLifecycleInput
stalled_input = record {
  status = "failed";
  failure_code = some "TRANSFER_STALLED";
  failure_message = none;
  created_at = 0;
  updated_at = 1;
  expires_at = none;
}

abbrev stalled_text : Option String
stalled_text = some "TRANSFER_STALLED"

stalled_code : stalled_text ≢ some ""
stalled_code = ground (arith, eq_iff "TRANSFER_STALLED" "")

abbrev upload_task : TransferTask
upload_task = record {
  id = "t1";
  workspace_id = "w1";
  owner_user_id = some "u1";
  node_id = none;
  object_key = none;
  name = "report.pdf";
  transfer_type = "upload";
  progress = 100;
  status = "running";
  failure_code = none;
  expires_at = some 1000;
  created_at = 0;
  updated_at = 1;
}

abbrev one_task : TransferDb
one_task = record { transfers = upload_task ∷ []; sessions = []; audits = []; parts = [] }

abbrev half_way : TransferUpdateInput
half_way = record {
  status = some completed;
  expected_status = some running;
  failure_code = none;
  progress = some (tenths 1000);
  node_id = some "n1";
  audit_metadata = [];
}

abbrev fixed_id : List AuditEvent → String
fixed_id _ = "a1"

updates-Advances_example :
    Rows
      (Advances 500 "completed")
      (upload_task ∷ [])
      (update in_memory fixed_id 500 "t1" half_way (some "u1") one_task).1.transfers
    × Rows
        (Advances 500 "completed")
        (upload_task ∷ [])
        (update_user_controlled in_memory fixed_id 500 "t1" half_way
          (some "u1")
          one_task).1.transfers
updates-Advances_example =
    updates-Advances in_memory in_memory-IsPrisma fixed_id 500 "t1" half_way (some "u1") one_task

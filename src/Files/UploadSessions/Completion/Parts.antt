-- ===== src/Files/UploadSessions/Completion/Parts.antt =====
-- backend/src/modules/files/upload-session-parts.ts: the parts of an upload, written under a claim
-- that shares its columns with the completion claim, or without one. The random token of a claim is
-- an argument, and `between` is what other requests write between a read and the writes.
use icedr.Prelude.{
  ℕ, String, Bool, ◌&&◌, Option, none, some, List, [], ◌∷◌, ◌==◌, is_none, is_text, str_eq, length,
}
use icedr.Prisma.{Client, resolved, ◌>>=◌, ◌>>◌, return, throw}
use icedr.Transfers.Tables.{
  TransferTask, UploadSession, UploadSessionPart, TransferDb, unexpired, claim_is_free,
}
use icedr.Files.UploadSessions.{
  SessionError, transfer_state_conflict, write_claim_changed, record_not_found,
  UploadSessionResponse, map_upload_session, SessionAction, update_transfers, update_sessions,
}
use icedr.Files.UploadSessions.Completion.{
  owns, owns_in_time, find_session_by_id, assert_count_one, assert_session, in_transaction,
}

pub record UploadPartInput : Type 0 where
  pub e_tag : Option String
  pub end_byte : ℕ
  pub part_index : ℕ
  pub session_id : String
  pub size_bytes : ℕ
  pub start_byte : ℕ

abbrev pub is_part : String → ℕ → UploadSessionPart → Bool
is_part session_id part_index row = str_eq row.session_id session_id && row.part_index == part_index

abbrev pub new_part : UploadPartInput → ℕ → UploadSessionPart
new_part input now = record {
  session_id = input.session_id;
  part_index = input.part_index;
  start_byte = input.start_byte;
  end_byte = input.end_byte;
  size_bytes = input.size_bytes;
  e_tag = input.e_tag;
  created_at = now;
  updated_at = now;
}

abbrev pub replaced_part : UploadPartInput → ℕ → UploadSessionPart → UploadSessionPart
replaced_part input now row = record row {
  start_byte = input.start_byte;
  end_byte = input.end_byte;
  size_bytes = input.size_bytes;
  e_tag = input.e_tag;
  updated_at = now;
}

abbrev pub can_write_parts : String → ℕ → UploadSession → Bool
can_write_parts id now row =
    str_eq row.id id
    && str_eq row.status "running"
    && is_none row.storage_finalized_at
    && unexpired row.expires_at now
    && claim_is_free row now

abbrev pub write_claimed : String → ℕ → UploadSession → UploadSession
write_claimed token now row = record row {
  completion_token = some token;
  completion_started_at = some now;
  updated_at = now;
}

abbrev pub write_released : ℕ → UploadSession → UploadSession
write_released now row = record row {
  completion_token = none;
  completion_started_at = none;
  updated_at = now;
}

abbrev pub transfer_takes_parts : String → ℕ → TransferTask → Bool
transfer_takes_parts transfer_id now row =
    str_eq row.id transfer_id
    && str_eq row.transfer_type "upload"
    && str_eq row.status "running"
    && unexpired row.expires_at now

abbrev pub touched : ℕ → TransferTask → TransferTask
touched now row = record row { updated_at = now }

module _ (prisma : Client) (now : ℕ) where
  unfoldable pub upsert_part : UploadPartInput → SessionAction (Unit {0})
  upsert_part input db = (
    resolved tt,
    record db {
      parts =
          prisma.upsert UploadSessionPart (is_part input.session_id input.part_index)
            (new_part input now) (replaced_part input now) db.parts;
    },
  )

  unfoldable pub write_claim_transaction :
      UploadSession → String → SessionAction (Option UploadSessionResponse)
  unfolding assert_count_one assert_session
  write_claim_transaction session token = do
    transfers ← update_transfers prisma (transfer_takes_parts session.transfer_id now) (touched now)
    assert_count_one prisma now transfer_state_conflict transfers
    rows ← update_sessions prisma (can_write_parts session.id now) (write_claimed token now)
    row ← assert_session prisma now (λ row. is_text row.completion_token token) rows
    return (some (map_upload_session row now))

  unfoldable pub write_claim_found :
      String
      → (TransferDb → TransferDb)
      → Option UploadSession
      → SessionAction (Option UploadSessionResponse)
  unfolding write_claim_transaction
  write_claim_found token between none = return none
  write_claim_found token between (some session) =
      λ db. in_transaction prisma now (write_claim_transaction session token) (between db)

  unfoldable pub claim_write :
      String
      → String
      → (between : TransferDb → TransferDb) → SessionAction (Option UploadSessionResponse)
  unfolding find_session_by_id write_claim_found
  claim_write id token between = do
    session ← find_session_by_id prisma now id
    write_claim_found token between session

  -- The session is released in the transaction that writes the part; if it cannot be, the error of a
  -- changed claim undoes the part.
  unfoldable pub release_committed :
      List UploadSession → SessionAction (Option UploadSessionResponse)
  release_committed (row ∷ []) = return (some (map_upload_session row now))
  release_committed _ = throw write_claim_changed

  unfoldable pub commit_owned :
      String → UploadPartInput → List UploadSession → SessionAction (Option UploadSessionResponse)
  unfolding upsert_part release_committed
  commit_owned token input (row ∷ []) = do
    upsert_part input
    released ←
        update_sessions prisma
          (λ row. owns input.session_id token row && is_none row.storage_finalized_at)
          (write_released now)
    release_committed released
  commit_owned token input _ = return none

  unfoldable pub commit_write :
      String → UploadPartInput → SessionAction (Option UploadSessionResponse)
  unfolding commit_owned
  commit_write token input =
      prisma.transaction SessionError (Option UploadSessionResponse) TransferDb (do
        owned ←
            update_sessions prisma
              (λ row.
                owns_in_time input.session_id token now row && is_none row.storage_finalized_at)
              (λ row. record row { completion_started_at = some now; updated_at = now })
        commit_owned token input owned)

  unfoldable pub release_write : String → String → SessionAction Bool
  release_write id token = do
    rows ← update_sessions prisma (owns id token) (write_released now)
    return (length rows == 1)

  -- The call of `touchSession` writes the session's time only.
  unfoldable pub touch_session : String → SessionAction (Unit {0})
  touch_session id = do
    rows ← update_sessions prisma (λ row. str_eq row.id id) (λ row. record row { updated_at = now })
    assert_count_one prisma now record_not_found rows

  -- `upsert`, with what is written between its two statements. What it returns, the part, is left out.
  unfoldable pub upsert :
      UploadPartInput → (between : TransferDb → TransferDb) → SessionAction (Unit {0})
  unfolding upsert_part touch_session
  upsert input between = do upsert_part input; (λ db. touch_session input.session_id (between db))

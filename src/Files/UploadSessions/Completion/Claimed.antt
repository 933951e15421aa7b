-- ===== src/Files/UploadSessions/Completion/Claimed.antt =====
-- What a request for a claim gets while another one holds it.
use icedr.Prelude.{
  ◌≡◌, refl, inl, ℕ, String, Bool, true, false, not, ◌&&◌, Option, none, some, List, [], any, find?,
  str_eq, if◌then◌else◌,
}
use icedr.Prisma.{Client, IsPrisma, by_in_memory, in_memory, return}
use icedr.Transfers.State.{TransferTaskStatus, can_transition_transfer_task, status_text}
use icedr.Transfers.Tables.{UploadSession, AuditEvent, TransferDb, claim_is_free}
use icedr.Files.UploadSessions.{UploadSessionResponse, SessionAction, find_session}
use icedr.Files.UploadSessions.Completion.{
  find_session_by_id, claim_found, claim_completion, claim_transaction,
}
use icedr.Files.UploadSessions.Completion.Parts.{
  write_claim_transaction, write_claim_found, claim_write,
}
use icedr.Files.UploadSessions.Completion.Fencing.{
  catch-Conflicts, claim_transaction-Conflicts, write_claim_transaction-Conflicts,
}
use icedr.Files.UploadSessions.Completion.Fenced.{IsRefused, found_id, IsRefused-of_eq}

-- Every session with the id has a claim that is younger than its lease.
abbrev pub IsClaimed : String → ℕ → TransferDb → Type 0
IsClaimed id now db = any (λ row. str_eq row.id id && claim_is_free row now) db.sessions ≡ false

module _ (draw_id : List AuditEvent → String) (now : ℕ) (id token : String)
    (extra : List (String × String)) (between : TransferDb → TransferDb) (db : TransferDb) where
  claim_found-IsRefused :
      (expected : TransferTaskStatus) (found : Option UploadSession)
      → find? (λ row. str_eq row.id id) db.sessions ≡ found
      → IsClaimed id now (between db)
      → IsRefused db (between db) (claim_found in_memory now expected token between found db)
  unfolding claim_found
  claim_found-IsRefused expected none e h = (refl, inl refl)
  claim_found-IsRefused expected (some session) e h = IsRefused-of_eq db (between db) _ (
      catch-Conflicts (between db)
        (claim_transaction in_memory now session expected token (between db))
        (claim_transaction-Conflicts draw_id now (between db) session expected token
          (rw (found_id id db.sessions e) h)))

  write_claim_found-IsRefused :
      (found : Option UploadSession)
      → find? (λ row. str_eq row.id id) db.sessions ≡ found
      → IsClaimed id now (between db)
      → IsRefused db (between db) (write_claim_found in_memory now token between found db)
  unfolding write_claim_found
  write_claim_found-IsRefused none e h = (refl, inl refl)
  write_claim_found-IsRefused (some session) e h = IsRefused-of_eq db (between db) _ (
      catch-Conflicts (between db)
        (write_claim_transaction in_memory now session token (between db))
        (write_claim_transaction-Conflicts draw_id now (between db) session token
          (rw (found_id id db.sessions e) h)))

  guard-IsRefused :
      (refused : Bool) (next : SessionAction (Option UploadSessionResponse))
      → IsRefused db (between db) (next db)
      → IsRefused db (between db) ((if refused then return none else next) db)
  guard-IsRefused true next h = (refl, inl refl)
  guard-IsRefused false next h = h

  claims-in_memory :
      (expected : TransferTaskStatus)
      → IsClaimed id now (between db)
      → IsRefused db (between db) (claim_completion in_memory now id expected token between db)
        × IsRefused db (between db) (claim_write in_memory now id token between db)
  unfolding claim_completion claim_write find_session_by_id find_session
  claims-in_memory expected h = (
    guard-IsRefused (not (can_transition_transfer_task (status_text expected) "running"))
        (λ d.
          claim_found in_memory now expected token between
            (find? (λ row. str_eq row.id id) d.sessions) d)
        (claim_found-IsRefused expected (find? (λ row. str_eq row.id id) db.sessions) refl h),
    write_claim_found-IsRefused (find? (λ row. str_eq row.id id) db.sessions) refl h,
  )

-- While every session with an id has a claim that is younger than its lease, neither a completion
-- claim nor a part's write claim of it is granted: both return null, and the tables are as they were
-- or as the other requests left them.
pub claims-IsRefused :
    (prisma : Client)
    → IsPrisma prisma
    → (now : ℕ) (id token : String) (expected : TransferTaskStatus)
      (between : TransferDb → TransferDb) (db : TransferDb)
    → IsClaimed id now (between db)
    → IsRefused db (between db) (claim_completion prisma now id expected token between db)
      × IsRefused db (between db) (claim_write prisma now id token between db)
claims-IsRefused prisma laws now id token expected between db h =
    by_in_memory
      (λ c.
        IsRefused db (between db) (claim_completion c now id expected token between db)
        × IsRefused db (between db) (claim_write c now id token between db))
      laws (claims-in_memory (λ _. "") now id token [] between db expected h)

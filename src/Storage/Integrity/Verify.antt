-- ===== src/Storage/Integrity/Verify.antt =====
-- backend/src/modules/storage/storage-integrity.service.ts: the content of an object is read and
-- compared with the size and the checksum that are recorded. Texts are the lists of their code units,
-- the recorded size is a natural number, and `sha256` and JavaScript's `toLowerCase` are arguments.
-- What the storage and the abort signal do is an argument too: how the opening ends, the chunks with
-- whether the signal is aborted once each has been counted, and how the stream ends.
pub mod Decides
use icedr.Prelude.{
  ℕ, ◌+◌, ◌-◌, ◌^◌, Bool, true, false, not, ◌&&◌, ◌||◌, Option, none, some, List, [], ◌∷◌, ◌++◌,
  if◌then◌else◌, leb, ◌==◌, length, all, trim, is_digit, is_empty, get_or, map, codes, same_codes,
}
use icedr.Prisma.{Outcome, resolved, thrown}

pub data StorageIntegrityFailureCode : Type 0 where
  missing_object size_mismatch checksum_mismatch verification_failed : StorageIntegrityFailureCode

pub data IntegrityStatus : Type 0 where
  verified mismatch failed : IntegrityStatus

pub record VerificationResult : Type 0 where
  pub actual_checksum : Option (List ℕ)
  pub actual_size_bytes : Option ℕ
  pub integrity_status : IntegrityStatus
  pub last_verified_at : ℕ
  pub verification_failure_code : Option StorageIntegrityFailureCode

pub record VerifyInput : Type 0 where
  pub expected_size_bytes : ℕ
  pub checksum_algorithm : Option (List ℕ)
  pub checksum_value : Option (List ℕ)

-- The error of an aborted signal, or a stream's error of that kind.
pub data AbortError : Type 0 where
  aborted_error : AbortError

pub data StreamEnd : Type 0 where
  ended : StreamEnd
  broke : (is_aborted : Bool) → StreamEnd

pub data Opening : Type 0 where
  not_opened : (is_aborted is_not_found : Bool) → Opening
  opened : (is_aborted : Bool) → List (List ℕ × Bool) → StreamEnd → Opening

-- `replace('-', '')`, which replaces once
abbrev pub without_dash : List ℕ → List ℕ
without_dash [] = []
without_dash (c ∷ cs) = let rest = without_dash cs in if c == b'-' then cs else c ∷ rest

-- The regular expression `^[a-f0-9]{64}$`.
abbrev pub is_sha256_hex : List ℕ → Bool
is_sha256_hex t = length t == 64 && all (λ c. is_digit c || leb b'a' c && leb c b'f') t

-- `Number.isSafeInteger`
abbrev pub is_safe_size : ℕ → Bool
is_safe_size n = leb n (2 ^ 53 - 1)

pub data Read : Type 0 where
  read : List ℕ → ℕ → Read
  interrupted unreadable : Read

-- The loop over the chunks, with the content that has been hashed and its size.
unfoldable pub read_chunks : List (List ℕ × Bool) → StreamEnd → List ℕ → ℕ → Read
read_chunks [] ended content size_bytes = read content size_bytes
read_chunks [] (broke is_aborted) content size_bytes =
    if is_aborted then interrupted else unreadable
read_chunks ((bytes, is_aborted) ∷ chunks) end content size_bytes =
    let rest = read_chunks chunks end (content ++ bytes) (size_bytes + length bytes) in
    if is_aborted then interrupted else rest

abbrev pub failed_result : ℕ → StorageIntegrityFailureCode → VerificationResult
failed_result now code = record {
  actual_checksum = none;
  actual_size_bytes = none;
  integrity_status = failed;
  last_verified_at = now;
  verification_failure_code = some code;
}

abbrev pub status_of_code : Option StorageIntegrityFailureCode → IntegrityStatus
status_of_code none = verified
status_of_code (some code) = mismatch

module _ (to_lower_case : List ℕ → List ℕ) where
  abbrev pub algorithm_of : VerifyInput → List ℕ
  algorithm_of input = trim (get_or input.checksum_algorithm [])

  abbrev pub expected_checksum : VerifyInput → List ℕ
  expected_checksum input = elim input.checksum_value [
    | none ↦ []
    | some t ↦ to_lower_case (trim t)
  ]

  abbrev pub has_checksum_baseline : VerifyInput → Bool
  has_checksum_baseline input =
      not (is_empty (algorithm_of input)) || not (is_empty (expected_checksum input))

  -- The input is one that can be verified.
  abbrev pub can_verify : VerifyInput → Bool
  can_verify input =
      is_safe_size input.expected_size_bytes
      && not (
          has_checksum_baseline input
          && (not (same_codes (without_dash (to_lower_case (algorithm_of input))) (codes "sha256"))
              || not (is_sha256_hex (expected_checksum input))))

  abbrev pub compared_code : VerifyInput → List ℕ → ℕ → Option StorageIntegrityFailureCode
  compared_code input checksum size_bytes =
      if not (size_bytes == input.expected_size_bytes)
      then some size_mismatch
      else if not
          (not (has_checksum_baseline input) || same_codes checksum (expected_checksum input))
      then some checksum_mismatch
      else none

module _ (sha256 to_lower_case : List ℕ → List ℕ) (now : ℕ) where
  abbrev pub compared_result : VerifyInput → List ℕ → ℕ → VerificationResult
  compared_result input checksum size_bytes = record {
    actual_checksum = some checksum;
    actual_size_bytes = some size_bytes;
    integrity_status = status_of_code (compared_code to_lower_case input checksum size_bytes);
    last_verified_at = now;
    verification_failure_code = compared_code to_lower_case input checksum size_bytes;
  }

  unfoldable pub verify_read : VerifyInput → Read → Outcome AbortError VerificationResult
  verify_read input (read content size_bytes) =
      resolved (compared_result input (sha256 content) size_bytes)
  verify_read input interrupted = thrown aborted_error
  verify_read input unreadable = resolved (failed_result now verification_failed)

  unfoldable pub verify_opening : VerifyInput → Opening → Outcome AbortError VerificationResult
  unfolding verify_read read_chunks
  verify_opening input (not_opened is_aborted is_not_found) =
      if is_aborted
      then thrown aborted_error
      else resolved
          (failed_result now (if is_not_found then missing_object else verification_failed))
  verify_opening input (opened is_aborted chunks end) =
      if is_aborted then thrown aborted_error else verify_read input (read_chunks chunks end [] 0)

  unfoldable pub verify_object :
      VerifyInput → (is_aborted : Bool) → Opening → Outcome AbortError VerificationResult
  unfolding verify_opening
  verify_object input is_aborted opening =
      if not (can_verify to_lower_case input)
      then resolved (failed_result now verification_failed)
      else if is_aborted
      then thrown aborted_error
      else verify_opening input opening

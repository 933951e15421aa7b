-- ===== src/Storage/Integrity/Verify/Decides.antt =====
-- What storage-integrity.service.ts decides of an object, by its whole content.
use icedr.Prelude.{
  ℕ, ◌+◌, ◌≡◌, refl, Bool, true, false, not, ◌&&◌, ◌||◌, List, [], ◌∷◌, ◌++◌, if◌then◌else◌, ◌==◌,
  length, arith, Bool-cases, inl, inr, some, none, Option, same_codes, sym, ◌∙◌,
}
use mathlib.Core.List.{append_assoc, append-nil}
use icedr.Prisma.{Outcome, resolved, thrown}
use icedr.Storage.Integrity.Verify.{
  IntegrityStatus, verified, mismatch, failed, VerificationResult, VerifyInput, AbortError,
  StreamEnd, ended, broke, Opening, not_opened, opened, Read, read, interrupted, unreadable,
  read_chunks, can_verify, has_checksum_baseline, expected_checksum, verify_read, verify_opening,
  verify_object, status_of_code, StorageIntegrityFailureCode, size_mismatch, checksum_mismatch,
}

abbrev code_of : (size_fits checksum_fits : Bool) → Option StorageIntegrityFailureCode
code_of size_fits checksum_fits =
    if not size_fits
    then some size_mismatch
    else if not checksum_fits
    then some checksum_mismatch
    else none

-- The bytes of the chunks, one after the other.
abbrev pub content_of : List (List ℕ × Bool) → List ℕ
content_of [] = []
content_of ((bytes, is_aborted) ∷ chunks) = bytes ++ content_of chunks

abbrev pub is_read_whole : List (List ℕ × Bool) → StreamEnd → Bool
is_read_whole [] ended = true
is_read_whole [] (broke is_aborted) = false
is_read_whole ((bytes, is_aborted) ∷ chunks) end = not is_aborted && is_read_whole chunks end

length-append : (xs ys : List ℕ) → length (xs ++ ys) ≡ length xs + length ys
length-append [] ys = ground arith
length-append (x ∷ xs) ys = ground (arith, length-append xs ys)

abbrev is_read : Read → Bool
is_read (read content size_bytes) = true
is_read _ = false

read_chunks_whole :
    (chunks : List (List ℕ × Bool)) (end : StreamEnd) (content : List ℕ) (n : ℕ)
    → is_read_whole chunks end ≡ true
    → read_chunks chunks end content n
      ≡ read (content ++ content_of chunks) (n + length (content_of chunks))
unfolding read_chunks
read_chunks_whole [] ended content n h =
    let same_size : n ≡ n + 0 = ground arith in λ i. read (sym (append-nil content) i) (same_size i)
read_chunks_whole [] (broke is_aborted) content n h = cc
read_chunks_whole ((bytes, true) ∷ chunks) end content n h = cc
read_chunks_whole ((bytes, false) ∷ chunks) end content n h =
    let rest = read_chunks_whole chunks end (content ++ bytes) (n + length bytes) h in
    let same_size : n + length bytes + length (content_of chunks)
        ≡ n + length (bytes ++ content_of chunks) =
      ground (arith, length-append bytes (content_of chunks)) in
    rest ∙ (λ i. read (append_assoc content bytes (content_of chunks) i) (same_size i))

not_read :
    (chunks : List (List ℕ × Bool)) (end : StreamEnd) (content : List ℕ) (n : ℕ)
    → is_read_whole chunks end ≡ false
    → is_read (read_chunks chunks end content n) ≡ false
unfolding read_chunks
not_read [] ended content n h = cc
not_read [] (broke true) content n h = refl
not_read [] (broke false) content n h = refl
not_read ((bytes, true) ∷ chunks) end content n h = refl
not_read ((bytes, false) ∷ chunks) end content n h =
    not_read chunks end (content ++ bytes) (n + length bytes) h

abbrev pub is_status : IntegrityStatus → IntegrityStatus → Bool
is_status verified verified = true
is_status mismatch mismatch = true
is_status failed failed = true
is_status _ _ = false

abbrev pub ends_with : IntegrityStatus → Outcome AbortError VerificationResult → Bool
ends_with status (resolved result) = is_status status result.integrity_status
ends_with status (thrown e) = false

abbrev pub opens_whole : Opening → Bool
opens_whole (not_opened is_aborted is_not_found) = false
opens_whole (opened is_aborted chunks end) = not is_aborted && is_read_whole chunks end

abbrev pub whole_content : Opening → List ℕ
whole_content (not_opened is_aborted is_not_found) = []
whole_content (opened is_aborted chunks end) = content_of chunks

code-Decided :
    (size_fits checksum_fits : Bool)
    → (is_status verified (status_of_code (code_of size_fits checksum_fits))
        ≡ (size_fits && checksum_fits))
      × (is_status mismatch (status_of_code (code_of size_fits checksum_fits))
          ≡ not (size_fits && checksum_fits))
code-Decided true true = (refl, refl)
code-Decided true false = (refl, refl)
code-Decided false checksum_fits = (refl, refl)

module _ (sha256 to_lower_case : List ℕ → List ℕ) where
  -- The size is the one that is expected, and so is the checksum if there is one.
  abbrev pub fits : VerifyInput → List ℕ → Bool
  fits input content =
      length content == input.expected_size_bytes
      && (not (has_checksum_baseline to_lower_case input)
          || same_codes (sha256 content) (expected_checksum to_lower_case input))

  abbrev pub is_legible : VerifyInput → Bool → Opening → Bool
  is_legible input is_aborted opening =
      can_verify to_lower_case input && not is_aborted && opens_whole opening

  -- What an object is verified and mismatched by.
  abbrev pub Decided : VerifyInput → Bool → Opening → Outcome AbortError VerificationResult → Type 0
  Decided input is_aborted opening outcome =
      (ends_with verified outcome
        ≡ (is_legible input is_aborted opening && fits input (whole_content opening)))
      × (ends_with mismatch outcome
          ≡ (is_legible input is_aborted opening && not (fits input (whole_content opening))))

module _ (sha256 to_lower_case : List ℕ → List ℕ) (now : ℕ) (input : VerifyInput) where
  whole-Decided :
      (chunks : List (List ℕ × Bool)) (end : StreamEnd)
      → can_verify to_lower_case input ≡ true
      → is_read_whole chunks end ≡ true
      → Decided sha256 to_lower_case input false
          (opened false chunks end)
          (verify_object sha256 to_lower_case now input false (opened false chunks end))
  unfolding verify_object verify_opening verify_read
  whole-Decided chunks end can whole =
      let content = content_of chunks in
      let same_size : 0 + length content ≡ length content = ground arith in
      rw
        (
          verify_object,
          verify_opening,
          can,
          whole,
          read_chunks_whole chunks end [] 0 whole,
          same_size,
        )
        (code-Decided (length content == input.expected_size_bytes) (
          not (has_checksum_baseline to_lower_case input)
          || same_codes (sha256 content) (expected_checksum to_lower_case input)))

  no_status :
      (r : Read)
      → is_read r ≡ false
      → (ends_with verified (verify_read sha256 to_lower_case now input r) ≡ false)
        × (ends_with mismatch (verify_read sha256 to_lower_case now input r) ≡ false)
  unfolding verify_read
  no_status (read content size_bytes) h = cc
  no_status interrupted h = (refl, refl)
  no_status unreadable h = (refl, refl)

  opening-Decided :
      (opening : Opening)
      → can_verify to_lower_case input ≡ true
      → Decided sha256 to_lower_case input false opening
          (verify_object sha256 to_lower_case now input false opening)
  unfolding verify_object verify_opening
  opening-Decided (not_opened true is_not_found) can = rw (verify_object, can) (refl, refl)
  opening-Decided (not_opened false is_not_found) can = rw (verify_object, can) (refl, refl)
  opening-Decided (opened true chunks end) can = rw (verify_object, can) (refl, refl)
  opening-Decided (opened false chunks end) can = elim (Bool-cases (is_read_whole chunks end)) [
    | inl whole ↦ whole-Decided chunks end can whole
    | inr broken ↦
        rw (verify_object, can, broken)
          (no_status (read_chunks chunks end [] 0) (not_read chunks end [] 0 broken))
  ]

  verify_aborted :
      (is_aborted : Bool) (opening : Opening)
      → can_verify to_lower_case input ≡ true
      → Decided sha256 to_lower_case input is_aborted opening
          (verify_object sha256 to_lower_case now input is_aborted opening)
  unfolding verify_object
  verify_aborted true opening can = rw (verify_object, can) (refl, refl)
  verify_aborted false opening can = opening-Decided opening can

-- An object is found verified exactly when the recorded size and checksum are legible, the signal is
-- not aborted, the object's stream is opened and read to its end, and its content has the size and,
-- if a checksum is recorded, the checksum. It is found mismatched exactly when all that is so but the
-- size or the checksum is another. This is for any `sha256` and `toLowerCase`.
pub verify_object-Decided :
    (sha256 to_lower_case : List ℕ → List ℕ)
    → (now : ℕ) (input : VerifyInput) (is_aborted : Bool) (opening : Opening)
    → Decided sha256 to_lower_case input is_aborted opening
        (verify_object sha256 to_lower_case now input is_aborted opening)
unfolding verify_object
verify_object-Decided sha256 to_lower_case now input is_aborted opening =
    elim (Bool-cases (can_verify to_lower_case input)) [
      | inr n ↦ rw (verify_object, n) (refl, refl)
      | inl can ↦ verify_aborted sha256 to_lower_case now input is_aborted opening can
    ]

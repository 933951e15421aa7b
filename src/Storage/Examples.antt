-- ===== src/Storage/Examples.antt =====
-- Storage policies at concrete references, windows and headers.
use icedr.Prelude.{
  ℕ, ◌+◌, ◌≤◌, ◌<◌, ◌≡◌, ◌≢◌, refl, String, true, false, Option, none, some, List, [], ◌∷◌, arith,
  codes,
}
use icedr.Transfers.State.{TransferTaskStatus}
use icedr.Storage.Reconcile.{
  ReconcileProtectionWindow, UploadSessionReference, valid, timestamp, is_nan,
  normalize_known_status, is_upload_session_object_reference_protected,
}
use icedr.Storage.Reconcile.Safety.{Unclaimed, Over, unprotected_session}
use icedr.Storage.Reconcile.Time.{IsBefore}
use icedr.Storage.ByteRange.{
  ObjectByteRange, range, whole, not_satisfiable, resolve_object_byte_range, number, number_from,
}
use icedr.Storage.ByteRange.Bounds.{range_within}
use icedr.Storage.ByteRange.Parsing.{range_header, resolve-closed}

-- A canceled session without expiry, created at 5 and touched at 10, that nobody completes.
abbrev canceled_session : UploadSessionReference
canceled_session = record {
  lifecycle = record { expires_at = none; status = "cancelled"; updated_at = valid 10 };
  completion_started_at = none;
  completion_token = none;
  storage_finalized_at = none;
  created_at = valid 5;
}

abbrev window : ReconcileProtectionWindow
window = record { completion_claim_stale_before = 100; now = 90000000; stale_before = 3000000 }

abbrev later_window : ReconcileProtectionWindow
later_window = record {
  completion_claim_stale_before = 200;
  now = 90000100;
  stale_before = 3000100;
}

unprotected_session_example :
    (s : TransferTaskStatus) × (normalize_known_status "cancelled" ≡ some s)
    × (is_nan (timestamp none) ≡ false)
    × Unclaimed canceled_session window
    × Over canceled_session window s
unfolding is_upload_session_object_reference_protected normalize_known_status
    icedr.Transfers.State.known_status icedr.Transfers.State.normalize_transfer_task_status
unprotected_session_example = unprotected_session canceled_session window refl

window-IsBefore : IsBefore window later_window
window-IsBefore = record { claim = ground arith; now = ground arith; stale = ground arith }

whole_object : resolve_object_byte_range (some (codes "  ")) 10 ≡ whole
unfolding resolve_object_byte_range icedr.Prelude.trim
whole_object = refl

two_ranges : resolve_object_byte_range (some (codes "bytes=0-1,3-4")) 10 ≡ not_satisfiable 10
unfolding resolve_object_byte_range icedr.Prelude.trim icedr.Storage.ByteRange.is_safe_integer
two_ranges = refl

abbrev cut_range : ObjectByteRange
cut_range = record { end = 9; length = 6; start = 4 }

cut_header : resolve_object_byte_range (some (codes "bytes=4-20")) 10 ≡ range cut_range
unfolding resolve_object_byte_range icedr.Prelude.trim icedr.Storage.ByteRange.is_safe_integer
    icedr.Storage.ByteRange.match_range icedr.Storage.ByteRange.parse_range_integer
cut_header = refl

range_within_example : (4 ≤ 9) × (9 < 10) × (4 + 6 ≡ 9 + 1)
range_within_example = range_within (some (codes "bytes=4-20")) 10 cut_range cut_header

some_code : (c : ℕ) (cs : List ℕ) → c ∷ cs ≢ []
some_code c cs e = cc

resolve-closed_example :
    resolve_object_byte_range (some (range_header (codes "4") (codes "20"))) 10 ≡ range cut_range
unfolding number number_from
resolve-closed_example =
    resolve-closed (codes "4") (codes "20") refl refl 10 (ground arith) (ground arith)
      (ground arith) (some_code _ _) (some_code _ _) (ground arith) (ground arith)

-- ===== src/Storage/ByteRange/Bounds.antt =====
-- The bounds of the ranges that object-byte-range.ts resolves.
use icedr.Prelude.{ℕ, ◌+◌, ◌≤◌, ◌<◌, ◌≡◌, Option, List, arith}
use icedr.Storage.ByteRange.{ObjectByteRange, range, resolve_object_byte_range}

-- Whatever the header, a range that is resolved is not empty, ends within the object, and has the
-- length that its ends say.
pub range_within :
    (header : Option (List ℕ)) (size : ℕ) (r : ObjectByteRange)
    → resolve_object_byte_range header size ≡ range r
    → (r.start ≤ r.end) × (r.end < size) × (r.start + r.length ≡ r.end + 1)
unfolding resolve_object_byte_range
range_within header size r h = ground arith

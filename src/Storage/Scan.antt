-- ===== src/Storage/Scan.antt =====
-- The scan for the valid prefix of a segment (truncateToValid and scanValidTail of
-- internal/storage/segment.go).
pub mod Shift
pub mod Complete
pub mod Crash
pub mod Sound
pub mod Tail
pub mod Ends
use little_big_files.Common.{
  ℕ, zero, suc, ◌+◌, ◌-◌, ◌%◌, ◌^◌, ◌≡◌, Bool, true, false, ◌||◌, not, Option, none, some, List, [],
  ◌∷◌, ◌++◌, Bytes, get_le, length, take, drop, ltb, ◌==◌, if◌then◌else◌,
}
use little_big_files.Common.Result.{Result, ok, err, ◌>>=◌}
use little_big_files.Storage.Checksum.{record_checksum}
use little_big_files.Storage.Record.{
  header_size, checksum_size, footer_size, footer_magic, known_magic, decode_record_header,
  validate_footer,
}

-- data[lo:hi]
abbrev pub slice : Bytes → ℕ → ℕ → Bytes
slice bytes lo hi = take (hi - lo) (drop lo bytes)

-- One round of the loop in truncateToValid: the end of the record at `offset`, or none where the
-- loop breaks.
check_payload : Bytes → ℕ → ℕ → Option ℕ
check_payload bytes offset size =
    let body = offset + header_size in
    let record_end = body + size + checksum_size in
    if ltb (length bytes) record_end
    then none
    else if record_checksum (slice bytes body (body + size))
        == get_le (slice bytes (body + size) record_end)
    then some record_end
    else none

check_header : Bytes → ℕ → Result (ℕ × ℕ) → Option ℕ
check_header bytes offset (err _) = none
check_header bytes offset (ok (magic, size)) =
    if size == 0 || not (known_magic magic) then none else check_payload bytes offset size

unfoldable pub next_record : Bytes → ℕ → Option ℕ
unfolding check_payload check_header
next_record bytes offset =
    if ltb (length bytes - offset) header_size
    then none
    else check_header bytes offset (decode_record_header (drop offset bytes))

-- The loop: the offset and the count of records, of 32 bits, at which it stops.
unfoldable pub scan_records : ℕ → Bytes → ℕ → ℕ → ℕ × ℕ
scan_records zero bytes offset count = (offset, count)
scan_records (suc fuel) bytes offset count = elim (next_record bytes offset) [
  | none ↦ (offset, count)
  | some record_end ↦ scan_records fuel bytes record_end ((count + 1) % 2 ^ 32)
]

-- A footer after the records belongs to the valid part.
unfoldable pub skip_footer : Bytes → ℕ → ℕ
skip_footer bytes offset =
    if ltb (length bytes - offset) footer_size
    then offset
    else elim (validate_footer (take (offset + footer_size) bytes)) [
      | none ↦ offset
      | some _ ↦ offset + footer_size
    ]

-- truncateToValid: the valid bytes, the number of records and the offset. Each round consumes at
-- least a byte, so the length is fuel enough.
unfoldable pub truncate_to_valid : Bytes → Bytes × ℕ × ℕ
truncate_to_valid bytes =
    let (offset, count) = scan_records (suc (length bytes)) bytes 0 0 in
    let end = skip_footer bytes offset in (take end bytes, count, end)

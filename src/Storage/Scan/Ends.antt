-- ===== src/Storage/Scan/Ends.antt =====
-- internal/storage/segment.go: the loop of truncateToValid ends.
use little_big_files.Common.{
  ℕ, zero, suc, ◌+◌, ◌-◌, ◌%◌, ◌^◌, ◌<◌, ◌≤◌, ◌≡◌, Bool, true, false, ◌||◌, not, Option, none, some,
  arith, Bytes, length, drop, ltb, ◌==◌, if◌then◌else◌, Option-cases, inl, inr,
}
use little_big_files.Common.Result.{Result, ok, err}
use little_big_files.Storage.Record.{header_size, known_magic, decode_record_header}
use little_big_files.Storage.Scan.{check_payload, check_header, next_record, scan_records}

-- A guard that stops the loop has let a round through.
past_guard : (b : Bool) (x : Option ℕ) {e : ℕ} → (if b then none else x) ≡ some e → x ≡ some e
past_guard true x h = absurd (cc h)
past_guard false x h = h

check_payload-lt :
    (bytes : Bytes) (offset size : ℕ) {e : ℕ}
    → check_payload bytes offset size ≡ some e
    → (offset < e) × (e ≤ length bytes)
unfolding check_payload
check_payload-lt bytes offset size h = (ground (arith, h), ground (arith, h))

check_header-lt :
    (bytes : Bytes) (offset : ℕ) (r : Result (ℕ × ℕ)) {e : ℕ}
    → check_header bytes offset r ≡ some e
    → (offset < e) × (e ≤ length bytes)
unfolding check_header
check_header-lt bytes offset (err m) h = absurd (cc h)
check_header-lt bytes offset (ok (magic, size)) h =
    check_payload-lt bytes offset size
      (past_guard (size == 0 || not (known_magic magic)) (check_payload bytes offset size) h)

-- A round goes forward, and not past the end.
next_record-lt :
    (bytes : Bytes) (offset : ℕ) {e : ℕ}
    → next_record bytes offset ≡ some e
    → (offset < e) × (e ≤ length bytes)
unfolding next_record
next_record-lt bytes offset h =
    let header = decode_record_header (drop offset bytes) in
    check_header-lt bytes offset header
      (past_guard (ltb (length bytes - offset) header_size) (check_header bytes offset header) h)

scan_records-stops :
    (fuel : ℕ) (bytes : Bytes) (offset count : ℕ)
    → length bytes - offset < fuel
    → next_record bytes (scan_records fuel bytes offset count).0 ≡ none
unfolding scan_records
scan_records-stops zero bytes offset count h = absurd (omega arith)
scan_records-stops (suc fuel) bytes offset count h =
    elim (Option-cases (next_record bytes offset)) [
      | inl stop ↦ ground (arith, stop)
      | inr (e, found) ↦
          let (forward, inside) = next_record-lt bytes offset found in
          ground
            (arith, found, scan_records-stops fuel bytes e ((count + 1) % 2 ^ 32) (omega arith))
    ]

scan_records-same :
    (fuel more : ℕ) (bytes : Bytes) (offset count : ℕ)
    → length bytes - offset < fuel
    → length bytes - offset < more
    → scan_records fuel bytes offset count ≡ scan_records more bytes offset count
unfolding scan_records
scan_records-same zero more bytes offset count h k = absurd (omega arith)
scan_records-same (suc fuel) zero bytes offset count h k = absurd (omega arith)
scan_records-same (suc fuel) (suc more) bytes offset count h k =
    elim (Option-cases (next_record bytes offset)) [
      | inl stop ↦ ground (arith, stop)
      | inr (e, found) ↦
          let (forward, inside) = next_record-lt bytes offset found in
          ground (
            arith,
            found,
            scan_records-same fuel more bytes e ((count + 1) % 2 ^ 32) (omega arith) (omega arith),
          )
    ]

-- With any fuel above the length of the bytes the loop of truncateToValid ends because no record
-- begins where it stands, and it ends with the same offset and count.
pub scan_records-ends :
    (fuel : ℕ) (bytes : Bytes)
    → length bytes < fuel
    → (next_record bytes (scan_records fuel bytes 0 0).0 ≡ none)
      × (scan_records fuel bytes 0 0 ≡ scan_records (suc (length bytes)) bytes 0 0)
scan_records-ends fuel bytes h = (
  scan_records-stops fuel bytes 0 0 (omega arith),
  scan_records-same fuel (suc (length bytes)) bytes 0 0 (omega arith) (omega arith),
)

-- ===== src/Storage/Scan/Tail.antt =====
-- scanValidTail reads the file piece by piece; it finds what truncateToValid finds, without error.
use little_big_files.Common.{
  ℕ, zero, suc, ◌+◌, ◌-◌, ◌%◌, ◌^◌, ◌≤◌, ◌≡◌, refl, not, ◌||◌, Option, none, some, arith, Bytes,
  get_le, inl, inr, Option-cases, length, length-take, length-drop, take, drop, take-take,
  drop-take, drop-drop, ltb, ◌==◌, if◌then◌else◌,
}
use little_big_files.Common.Result.{Result, ok, err, ◌>>=◌}
use little_big_files.Storage.Checksum.{record_checksum}
use little_big_files.Storage.File.{read_at}
use little_big_files.Storage.Record.{
  header_size, checksum_size, footer_size, footer_magic, known_magic, decode_record_header,
}
use little_big_files.Storage.Scan.{
  check_payload, check_header, next_record, scan_records, skip_footer, truncate_to_valid,
}
use little_big_files.Storage.Scan.Crash.{skip_footer_lem}

-- One round of the loop in scanValidTail: none where it breaks, an error where a read fails.
read_payload : Bytes → ℕ → ℕ → ℕ → Result (Option ℕ)
read_payload file size offset payload_size =
    let body = offset + header_size in
    let record_end = body + payload_size + checksum_size in
    if ltb size record_end then ok none else do
      payload ← read_at file body payload_size
      trailer ← read_at file (body + payload_size) checksum_size
      ok (if record_checksum payload == get_le trailer then some record_end else none)

read_header : Bytes → ℕ → ℕ → Result (ℕ × ℕ) → Result (Option ℕ)
read_header file size offset (err _) = ok none
read_header file size offset (ok (magic, payload_size)) =
    if payload_size == 0 || not (known_magic magic)
    then ok none
    else read_payload file size offset payload_size

read_record : Bytes → ℕ → ℕ → Result (Option ℕ)
unfolding read_header read_payload read_at
read_record file size offset = if ltb (size - offset) header_size then ok none else do
  hdr ← read_at file offset header_size
  read_header file size offset (decode_record_header hdr)

tail_records : ℕ → Bytes → ℕ → ℕ → ℕ → Result (ℕ × ℕ)
tail_records zero file size offset count = ok (offset, count)
tail_records (suc fuel) file size offset count = elim (read_record file size offset) [
  | err e ↦ err e
  | ok none ↦ ok (offset, count)
  | ok (some record_end) ↦ tail_records fuel file size record_end ((count + 1) % 2 ^ 32)
]

tail_footer : Bytes → ℕ → ℕ → Result ℕ
tail_footer file size offset = if ltb (size - offset) footer_size then ok offset else do
  footer ← read_at file offset footer_size
  ok (if get_le (take 4 (drop 28 footer)) == footer_magic then offset + footer_size else offset)

-- scanValidTail: the valid size and the number of records.
unfoldable pub scan_valid_tail : Bytes → ℕ → Result (ℕ × ℕ)
unfolding tail_records tail_footer read_record
scan_valid_tail file size = do
  (offset, count) ← tail_records (suc size) file size 0 0
  end ← tail_footer file size offset
  ok (end, count)

read_payload_lem :
    (file : Bytes) (offset size : ℕ)
    → read_payload file (length file) offset size ≡ ok (check_payload file offset size)
unfolding read_payload check_payload read_at
read_payload_lem file offset size = ground arith

read_header_lem :
    (file : Bytes) (offset : ℕ) (r : Result (ℕ × ℕ))
    → read_header file (length file) offset r ≡ ok (check_header file offset r)
unfolding read_header check_header
read_header_lem file offset (err _) = refl
read_header_lem file offset (ok (magic, size)) = ground (arith, read_payload_lem file offset size)

pub decode_record_header-read :
    (bytes : Bytes)
    → 8 ≤ length bytes
    → decode_record_header (take 8 bytes) ≡ decode_record_header bytes
unfolding decode_record_header
decode_record_header-read bytes h = ground (
  arith,
  length-take 8 bytes,
  take-take 4 8 bytes (omega arith),
  drop-take 4 8 bytes,
  take-take 4 (8 - 4) (drop 4 bytes) (omega arith),
)

read_record_lem :
    (file : Bytes) (offset : ℕ)
    → read_record file (length file) offset ≡ ok (next_record file offset)
unfolding read_record next_record
read_record_lem file offset = ground (
  arith,
  length-drop offset file,
  decode_record_header-read (drop offset file),
  read_header_lem file offset (decode_record_header (drop offset file)),
)

tail_records_lem :
    (fuel : ℕ) (file : Bytes) (offset count : ℕ)
    → tail_records fuel file (length file) offset count ≡ ok (scan_records fuel file offset count)
unfolding tail_records scan_records
tail_records_lem zero file offset count = refl
tail_records_lem (suc fuel) file offset count = elim (Option-cases (next_record file offset)) [
  | inl stop ↦ ground (arith, read_record_lem file offset)
  | inr (e, found) ↦
      ground
        (arith, read_record_lem file offset, tail_records_lem fuel file e ((count + 1) % 2 ^ 32))
]

tail_footer_lem :
    (file : Bytes) (offset : ℕ)
    → tail_footer file (length file) offset ≡ ok (skip_footer file offset)
unfolding tail_footer read_at
tail_footer_lem file offset = ground (
  arith,
  skip_footer_lem file offset,
  drop-take 28 32 (drop offset file),
  drop-drop offset 28 file,
  take-take 4 (32 - 28) (drop (offset + 28) file) (omega arith),
)

-- On a file and its size scanValidTail never meets a read error, and returns the valid size and
-- the number of records that truncateToValid computes from the file's bytes.
pub scan_valid_tail-truncate_to_valid :
    (file : Bytes)
    → scan_valid_tail file (length file)
      ≡ ok ((truncate_to_valid file).2, (truncate_to_valid file).1)
unfolding scan_valid_tail truncate_to_valid
scan_valid_tail-truncate_to_valid file =
    rw (tail_records_lem (suc (length file)) file 0 0)
      (rw (tail_footer_lem file (scan_records (suc (length file)) file 0 0).0))

next_record-le :
    (bytes : Bytes) (offset : ℕ) {e : ℕ} → next_record bytes offset ≡ some e → e ≤ length bytes
unfolding next_record
next_record-le bytes offset h = ground arith

scan_records-le :
    (fuel : ℕ) (bytes : Bytes) (offset count : ℕ)
    → offset ≤ length bytes
    → (scan_records fuel bytes offset count).0 ≤ length bytes
unfolding scan_records
scan_records-le zero bytes offset count h = h
scan_records-le (suc fuel) bytes offset count h = elim (Option-cases (next_record bytes offset)) [
  | inl stop ↦ ground arith
  | inr (e, found) ↦ ground (
    arith,
    next_record-le bytes offset found,
    scan_records-le fuel bytes e ((count + 1) % 2 ^ 32),
  )
]

skip_footer-le :
    (bytes : Bytes) (offset : ℕ) → offset ≤ length bytes → skip_footer bytes offset ≤ length bytes
skip_footer-le bytes offset h = ground (arith, skip_footer_lem bytes offset)

truncate_to_valid-le : (bytes : Bytes) → (truncate_to_valid bytes).2 ≤ length bytes
unfolding truncate_to_valid
truncate_to_valid-le bytes =
    skip_footer-le bytes _ (scan_records-le (suc (length bytes)) bytes 0 0 (omega arith))

-- The valid size is within the file.
pub scan_valid_tail-fits :
    (file : Bytes)
    → (size : ℕ) × (count : ℕ) × (scan_valid_tail file (length file) ≡ ok (size, count))
      × (size ≤ length file)
scan_valid_tail-fits file = (
  (truncate_to_valid file).2,
  (truncate_to_valid file).1,
  scan_valid_tail-truncate_to_valid file,
  truncate_to_valid-le file,
)

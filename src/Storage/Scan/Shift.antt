-- ===== src/Storage/Scan/Shift.antt =====
-- A round of the scan reads only what stands from its offset on.
use little_big_files.Common.{
  ℕ, ◌+◌, ◌≡◌, refl, Option, none, some, ◌++◌, arith, Bytes, length, length-append, drop-append_add,
  drop-append_eq,
}
use little_big_files.Common.Result.{Result, ok, err}
use little_big_files.Storage.Record.{decode_record_header}
use little_big_files.Storage.Scan.{check_payload, check_header, next_record}

abbrev pub shift : ℕ → Option ℕ → Option ℕ
shift n none = none
shift n (some e) = some (n + e)

check_payload-append :
    (pre rest : Bytes) (size : ℕ)
    → check_payload (pre ++ rest) (length pre) size ≡ shift (length pre) (check_payload rest 0 size)
unfolding check_payload
check_payload-append pre rest size = ground (
  arith,
  length-append pre rest,
  drop-append_add pre rest 8 (length pre + 8) refl,
  drop-append_add pre rest (8 + size) (length pre + 8 + size) (omega arith),
)

check_header-append :
    (pre rest : Bytes) (r : Result (ℕ × ℕ))
    → check_header (pre ++ rest) (length pre) r ≡ shift (length pre) (check_header rest 0 r)
unfolding check_header
check_header-append pre rest (err _) = refl
check_header-append pre rest (ok (magic, size)) = ground (arith, check_payload-append pre rest size)

pub next_record-append :
    (pre rest : Bytes)
    → next_record (pre ++ rest) (length pre) ≡ shift (length pre) (next_record rest 0)
unfolding next_record
next_record-append pre rest = ground (
  arith,
  length-append pre rest,
  drop-append_eq (length pre) pre rest refl,
  check_header-append pre rest (decode_record_header rest),
)

-- ===== src/Storage/Scan/Complete.antt =====
-- A scan reads every record that was written, and stops behind them.
use little_big_files.Common.{
  ℕ, zero, suc, ◌+◌, ◌%◌, ◌^◌, ◌≤◌, ◌<◌, ◌≡◌, ◌∙◌, ap, true, none, some, List, [], ◌∷◌, ◌++◌,
  append_assoc, append-nil, arith, Bytes, length, length-append, All,
}
use little_big_files.Storage.Record.{known_magic, encode_record}
use little_big_files.Storage.Record.RoundTrip.{
  length-encode_record, decode_record_header-encode_record, payload-encode_record,
  trailer-encode_record,
}
use little_big_files.Storage.Scan.{next_record, scan_records}
use little_big_files.Storage.Scan.Shift.{next_record-append}

-- A record as the writers make it: its magic and its payload.
abbrev pub Entry : Type 0
Entry = ℕ × Bytes

abbrev pub IsRecord : Entry → Type 0
IsRecord (magic, payload) =
    (known_magic magic ≡ true) × (0 < length payload) × (length payload < 2 ^ 32)

abbrev pub records : List Entry → Bytes
records [] = []
records ((magic, payload) ∷ es) = encode_record magic payload ++ records es

pub known_magic-lt : (magic : ℕ) → known_magic magic ≡ true → magic < 2 ^ 32
unfolding known_magic
known_magic-lt magic h = ground arith

module _ (magic : ℕ) (payload rest : Bytes) (valid : IsRecord (magic, payload)) where
  pub next_record-encode_record :
      next_record (encode_record magic payload ++ rest) 0
      ≡ some (length (encode_record magic payload))
  unfolding next_record
  next_record-encode_record = ground (
    arith,
    known_magic-lt magic valid.0,
    length-append (encode_record magic payload) rest,
    length-encode_record magic payload,
    decode_record_header-encode_record magic payload rest (known_magic-lt magic valid.0) valid.2,
    payload-encode_record magic payload rest,
    trailer-encode_record magic payload rest,
  )

  -- One round, behind what was read before.
  pub next_record_step :
      (pre : Bytes)
      → next_record (pre ++ (encode_record magic payload ++ rest)) (length pre)
        ≡ some (length (pre ++ encode_record magic payload))
  next_record_step pre = ground (
    arith,
    next_record-append pre (encode_record magic payload ++ rest),
    next_record-encode_record,
    length-append pre (encode_record magic payload),
  )

module _ (fuel : ℕ) (bytes : Bytes) (offset count : ℕ) where
  pub scan_records_next :
      {e : ℕ}
      → next_record bytes offset ≡ some e
      → scan_records (suc fuel) bytes offset count
        ≡ scan_records fuel bytes e ((count + 1) % 2 ^ 32)
  unfolding scan_records
  scan_records_next h = rw (h, scan_records)

  pub scan_records_stop :
      next_record bytes offset ≡ none → scan_records (suc fuel) bytes offset count ≡ (offset, count)
  unfolding scan_records
  scan_records_stop h = rw (h, scan_records)

-- The loop reads the records and stops at a tail that holds none.
pub scan_records-records :
    (es : List Entry) (pre tail : Bytes) (fuel count : ℕ)
    → All IsRecord es
    → next_record tail 0 ≡ none
    → length es < fuel
    → count < 2 ^ 32
    → scan_records fuel (pre ++ (records es ++ tail)) (length pre) count
      ≡ (length (pre ++ records es), (count + length es) % 2 ^ 32)
scan_records-records es pre tail zero count v stop f c = absurd (omega arith)
scan_records-records [] pre tail (suc fuel) count v stop f c = ground (
  arith,
  next_record-append pre tail,
  append-nil pre,
  scan_records_stop fuel (pre ++ tail) (length pre) count,
)
scan_records-records ((m, p) ∷ es) pre tail (suc fuel) count (v, vs) stop f c =
    rw
      (
        append_assoc (encode_record m p) (records es) tail,
        scan_records_next fuel _ (length pre) count
            (next_record_step m p (records es ++ tail) v pre),
        ← append_assoc pre (encode_record m p) (records es ++ tail),
        scan_records-records es (pre ++ encode_record m p) tail fuel ((count + 1) % 2 ^ 32) vs stop
            (omega arith) (omega arith),
        append_assoc pre (encode_record m p) (records es),
      )
      (ap (λ n. (length (pre ++ (encode_record m p ++ records es)), n)) (add_one count (length es)))
  where
    add_one : (a b : ℕ) → ((a + 1) % 2 ^ 32 + b) % 2 ^ 32 ≡ (a + suc b) % 2 ^ 32
    add_one a b = omega arith

pub length-records : (es : List Entry) → length es ≤ length (records es)
length-records [] = omega arith
length-records ((m, p) ∷ es) = omega (
  arith,
  length-records es,
  length-append (encode_record m p) (records es),
  length-encode_record m p,
)

-- The whole scan, up to the footer.
pub scan-records :
    (es : List Entry) (tail : Bytes)
    → All IsRecord es
    → next_record tail 0 ≡ none
    → scan_records (suc (length (records es ++ tail))) (records es ++ tail) 0 0
      ≡ (length (records es), length es % 2 ^ 32)
scan-records es tail v stop =
    scan_records-records es [] tail (suc (length (records es ++ tail))) 0 v stop
      (omega (arith, length-records es, length-append (records es) tail)) (omega arith)
    ∙ ap (λ n. (length (records es), n)) {x = (0 + length es) % 2 ^ 32} (omega arith)

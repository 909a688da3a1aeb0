-- ===== src/Storage/Scan/Crash.antt =====
-- What a scan makes of the tails that a crash and a clean shutdown leave behind.
use little_big_files.Common.{
  ℕ, ◌+◌, ◌-◌, ◌%◌, ◌^◌, ◌≤◌, ◌<◌, ◌≡◌, ◌≢◌, refl, ◌∙◌, sym, ap, false, none, List, [], ◌++◌,
  append_assoc, append-nil, arith, Bytes, get_le, length, length-append, length-take, put_le,
  word-put_le, replicate, Bool-cases, inl, inr, ltb, ltb→le, ◌==◌, if◌then◌else◌, take, drop,
  take-append_eq, take-take, drop-take, drop-append_add, take-append_add, take-append_le,
  drop-append_le, length-drop, All,
}
use little_big_files.Common.Result.{ok}
use little_big_files.Storage.Record.{
  footer_size, footer_magic, known_magic, encode_record, encode_footer, decode_record_header,
  validate_footer,
}
use little_big_files.Storage.Record.RoundTrip.{
  length-encode_record, decode_record_header-encode_record, length-encode_footer,
  footer_magic-encode_footer,
}
use little_big_files.Storage.Scan.{slice, next_record, skip_footer, truncate_to_valid}
use little_big_files.Storage.Scan.Complete.{Entry, IsRecord, records, known_magic-lt, scan-records}

-- What stands behind the count in a footer.
abbrev footer_rest : ℕ → Bytes
footer_rest total = put_le 8 total ++ (replicate 16 0 ++ put_le 4 footer_magic)

decode_record_header-take :
    (n : ℕ) (bytes : Bytes)
    → 8 ≤ n
    → 8 ≤ length bytes
    → decode_record_header (take n bytes) ≡ decode_record_header bytes
unfolding decode_record_header
decode_record_header-take n bytes h k = ground (
  arith,
  length-take n bytes,
  take-take 4 n bytes (omega arith),
  drop-take 4 n bytes,
  take-take 4 (n - 4) (drop 4 bytes) (omega arith),
)

module _ (magic : ℕ) (payload : Bytes) (n : ℕ) where
  header_torn :
      IsRecord (magic, payload)
      → 8 ≤ n
      → decode_record_header (take n (encode_record magic payload)) ≡ ok (magic, length payload)
  header_torn v h =
      decode_record_header-take n (encode_record magic payload) h
        (omega (arith, length-encode_record magic payload))
      ∙ rw (append-nil (encode_record magic payload)) at
          (decode_record_header-encode_record magic payload [] (known_magic-lt magic v.0) v.2)

  -- A record that was cut off is none.
  next_record_torn :
      IsRecord (magic, payload)
      → n < length (encode_record magic payload)
      → next_record (take n (encode_record magic payload)) 0 ≡ none
  unfolding next_record
  next_record_torn v h = ground (
    arith,
    length-encode_record magic payload,
    length-take n (encode_record magic payload),
    header_torn v,
  )

decode_record_header-footer :
    (count total : ℕ) (rest : Bytes)
    → count < 2 ^ 32
    → (size : ℕ) × (decode_record_header (encode_footer count total ++ rest) ≡ ok (count, size))
unfolding decode_record_header encode_footer
decode_record_header-footer count total rest h = (
  get_le (take 4 (drop 4 (encode_footer count total ++ rest))),
  ground (
    arith,
    length-append (encode_footer count total) rest,
    length-encode_footer count total,
    append_assoc (put_le 4 count) (footer_rest total) rest,
    word-put_le 4 count (footer_rest total ++ rest) h,
  ),
)

-- No record: the first bytes of a footer whose count is no magic.
next_record-footer :
    (count total : ℕ) (rest : Bytes)
    → count < 2 ^ 32
    → known_magic count ≡ false
    → next_record (encode_footer count total ++ rest) 0 ≡ none
unfolding next_record
next_record-footer count total rest hc hk =
    ground (arith, decode_record_header-footer count total rest hc)

-- The test of the footer's magic at `offset`, in place.
abbrev pub footer_at : Bytes → ℕ → ℕ
footer_at bytes offset = get_le (take 4 (drop (offset + 28) bytes))

pub skip_footer_lem :
    (bytes : Bytes) (offset : ℕ)
    → skip_footer bytes offset ≡ (
        if ltb (length bytes - offset) footer_size
        then offset
        else if footer_at bytes offset == footer_magic
        then offset + footer_size
        else offset)
unfolding skip_footer validate_footer
skip_footer_lem bytes offset = elim (Bool-cases (ltb (length bytes - offset) footer_size)) [
  | inl short ↦ rw short
  | inr long ↦
      rw (long, whole (ltb→le _ _ long))
        (ground (
          arith,
          drop-take (offset + 32 - 32 + 28) (offset + 32) bytes,
          take-take 4 (offset + 32 - (offset + 32 - 32 + 28)) (drop (offset + 28) bytes),
        ))
]
  where
    whole : 32 ≤ length bytes - offset → length (take (offset + 32) bytes) ≡ offset + 32
    whole h = omega (arith, length-take (offset + 32) bytes)

skip_footer-append :
    (pre rest : Bytes) → skip_footer (pre ++ rest) (length pre) ≡ length pre + skip_footer rest 0
skip_footer-append pre rest = ground (
  arith,
  skip_footer_lem (pre ++ rest) (length pre),
  skip_footer_lem rest 0,
  length-append pre rest,
  drop-append_add pre rest 28 (length pre + 28) refl,
)

-- What a scan returns, once its parts are known.
pub truncate_to_valid_lem :
    (es : List Entry) (tail : Bytes) (skip : ℕ)
    → All IsRecord es
    → next_record tail 0 ≡ none
    → skip_footer tail 0 ≡ skip
    → truncate_to_valid (records es ++ tail)
      ≡ (records es ++ take skip tail, length es % 2 ^ 32, length (records es) + skip)
unfolding truncate_to_valid
truncate_to_valid_lem es tail skip v stop h = ground (
  arith,
  scan-records es tail v stop,
  skip_footer-append (records es) tail,
  take-append_add (records es) tail skip (length (records es) + skip) refl,
)

-- After a crash in the middle of a write a scan keeps every record that was written whole, counts
-- them modulo 2 ^ 32, and drops what was written of the last one, unless bytes 28 to 31 of that one spell a footer's magic.
pub truncate_to_valid-torn :
    (es : List Entry) (magic : ℕ) (payload : Bytes) (n : ℕ)
    → All IsRecord es
    → IsRecord (magic, payload)
    → n < length (encode_record magic payload)
    → get_le (slice (encode_record magic payload) 28 32) ≢ footer_magic
    → truncate_to_valid (records es ++ take n (encode_record magic payload))
      ≡ (records es, length es % 2 ^ 32, length (records es))
truncate_to_valid-torn es magic payload n vs v h differs =
    truncate_to_valid_lem es torn 0 vs (next_record_torn magic payload n v h) no_footer
    ∙ rw append-nil
        (ap (λ k. (records es, length es % 2 ^ 32, k)) {x = length (records es) + 0} (omega arith))
  where
    torn : Bytes
    torn = take n (encode_record magic payload)

    no_footer : skip_footer torn 0 ≡ 0
    no_footer = ground (
      arith,
      skip_footer_lem torn 0,
      length-take n (encode_record magic payload),
      drop-take 28 n (encode_record magic payload),
      take-take 4 (n - 28) (drop 28 (encode_record magic payload)),
    )

skip_footer-footer :
    (count total : ℕ) (rest : Bytes)
    → skip_footer (encode_footer count total ++ rest) 0 ≡ footer_size
skip_footer-footer count total rest = ground (
  arith,
  skip_footer_lem (encode_footer count total ++ rest) 0,
  length-append (encode_footer count total) rest,
  length-encode_footer count total,
  drop-append_le 28 (encode_footer count total) rest,
  length-drop 28 (encode_footer count total),
  take-append_le 4 (drop 28 (encode_footer count total)) rest,
  footer_magic-encode_footer count total,
)

-- A scan ends behind the first footer: of a segment that went on after a clean shutdown it keeps
-- the records before the footer, which it counts modulo 2 ^ 32, and the footer, whatever follows,
-- when the count in the footer fits into 32 bits and is no record magic.
pub truncate_to_valid-footer :
    (es : List Entry) (count total : ℕ) (rest : Bytes)
    → All IsRecord es
    → count < 2 ^ 32
    → known_magic count ≡ false
    → truncate_to_valid (records es ++ (encode_footer count total ++ rest)) ≡ (
      records es ++ encode_footer count total,
      length es % 2 ^ 32,
      length (records es) + footer_size,
    )
truncate_to_valid-footer es count total rest vs hc hk =
    truncate_to_valid_lem es (encode_footer count total ++ rest) footer_size vs
      (next_record-footer count total rest hc hk) (skip_footer-footer count total rest)
    ∙ rw (
        take-append_eq footer_size (encode_footer count total) rest
          (sym (length-encode_footer count total)))

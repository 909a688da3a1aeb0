-- ===== src/Storage/Record/RoundTrip.antt =====
-- Records and footers read back what was written (internal/storage/record.go).
use little_big_files.Common.{
  ℕ, ◌+◌, ◌-◌, ◌%◌, ◌^◌, ◌<◌, ◌≡◌, refl, ◌∙◌, some, ◌++◌, append_assoc, arith, Bytes, put_le,
  get_le, length-put_le, word-put_le, drop-put_le, drop-put_le_add, length, length-append, take,
  drop, take-append_eq, drop-append_eq, drop-append_add,
}
use little_big_files.Common.Result.{ok}
use little_big_files.Storage.Checksum.{record_checksum, record_checksum-lt}
use little_big_files.Storage.Record.{
  header_size, checksum_size, record_overhead, footer_size, footer_magic, encode_record,
  decode_record_header, encode_footer, validate_footer,
}

pub length-encode_record :
    (magic : ℕ) (payload : Bytes)
    → length (encode_record magic payload) ≡ record_overhead + length payload
unfolding encode_record
length-encode_record magic payload = simp (length-append, length-put_le) (omega arith)

-- A record with what follows it, bracketed to the right.
encode_record-append :
    (magic : ℕ) (payload rest : Bytes)
    → encode_record magic payload ++ rest
      ≡ put_le 4 magic
        ++ (put_le 4 (length payload % 2 ^ 32)
            ++ (payload ++ (put_le 4 (record_checksum payload) ++ rest)))
unfolding encode_record
encode_record-append magic payload rest = simp append_assoc

module _ (magic : ℕ) (payload rest : Bytes) where
  pub decode_record_header-encode_record :
      magic < 2 ^ 32
      → length payload < 2 ^ 32
      → decode_record_header (encode_record magic payload ++ rest) ≡ ok (magic, length payload)
  unfolding decode_record_header
  decode_record_header-encode_record hm hp = rw (encode_record-append magic payload rest) (
      ground (
        arith,
        length-append (put_le 4 magic) (
            put_le 4 (length payload % 2 ^ 32)
            ++ (payload ++ (put_le 4 (record_checksum payload) ++ rest))),
        length-append (put_le 4 (length payload % 2 ^ 32))
            (payload ++ (put_le 4 (record_checksum payload) ++ rest)),
        length-put_le 4 magic,
        length-put_le 4 (length payload % 2 ^ 32),
        word-put_le 4 magic
            (put_le 4 (length payload % 2 ^ 32)
              ++ (payload ++ (put_le 4 (record_checksum payload) ++ rest)))
            hm,
        drop-put_le 4 magic (
            put_le 4 (length payload % 2 ^ 32)
            ++ (payload ++ (put_le 4 (record_checksum payload) ++ rest))),
        word-put_le 4 (length payload % 2 ^ 32)
            (payload ++ (put_le 4 (record_checksum payload) ++ rest)) (omega arith),
      ))

  -- The payload and the trailer, cut out as the readers do.
  pub drop-encode_record :
      drop header_size (encode_record magic payload ++ rest)
      ≡ payload ++ (put_le 4 (record_checksum payload) ++ rest)
  drop-encode_record =
      rw (encode_record-append magic payload rest)
        (drop-put_le_add 4 magic _ 8 4 (omega arith) ∙ drop-put_le 4 (length payload % 2 ^ 32) _)

  pub payload-encode_record :
      take (length payload) (drop header_size (encode_record magic payload ++ rest)) ≡ payload
  payload-encode_record = rw drop-encode_record (take-append_eq (length payload) payload _ refl)

  pub trailer-encode_record :
      get_le (
        take checksum_size
          (drop (header_size + length payload) (encode_record magic payload ++ rest)))
      ≡ record_checksum payload
  trailer-encode_record =
      rw
        (
          encode_record-append magic payload rest,
          drop-put_le_add 4 magic
              (put_le 4 (length payload % 2 ^ 32)
                ++ (payload ++ (put_le 4 (record_checksum payload) ++ rest)))
              (8 + length payload) (4 + length payload) (omega arith),
          drop-put_le_add 4 (length payload % 2 ^ 32)
              (payload ++ (put_le 4 (record_checksum payload) ++ rest)) (4 + length payload)
              (length payload) (omega arith),
          drop-append_eq (length payload) payload (put_le 4 (record_checksum payload) ++ rest) refl,
        )
        (word-put_le 4 (record_checksum payload) rest (record_checksum-lt payload))

pub length-encode_footer : (count total : ℕ) → length (encode_footer count total) ≡ footer_size
unfolding encode_footer
length-encode_footer count total = simp (length-append, length-put_le)

module _ (count total : ℕ) where
  pub footer_magic-encode_footer :
      get_le (take 4 (drop 28 (encode_footer count total))) ≡ footer_magic
  unfolding encode_footer put_le get_le
  footer_magic-encode_footer = refl

  footer_count : count < 2 ^ 32 → get_le (take 4 (encode_footer count total)) ≡ count
  unfolding encode_footer
  footer_count h = word-put_le 4 count _ h

  footer_total : total < 2 ^ 64 → get_le (take 8 (drop 4 (encode_footer count total))) ≡ total
  unfolding encode_footer
  footer_total h = rw (drop-put_le 4 count) (word-put_le 8 total _ h)

module _ (body : Bytes) (count total : ℕ) where
  footer_at :
      (k m : ℕ)
      → m ≡ length body + k
      → drop m (body ++ encode_footer count total) ≡ drop k (encode_footer count total)
  footer_at k m h = drop-append_add body (encode_footer count total) k m h

  length-footer_end : length (body ++ encode_footer count total) ≡ length body + 32
  length-footer_end =
      omega
        (arith, length-append body (encode_footer count total), length-encode_footer count total)

  -- A footer after any segment body reads back.
  pub validate_footer-encode_footer :
      count < 2 ^ 32
      → total < 2 ^ 64
      → validate_footer (body ++ encode_footer count total) ≡ some (count, total)
  unfolding validate_footer
  validate_footer-encode_footer hc ht = rw length-footer_end (
      ground (
        arith,
        footer_at 0 (length body + 32 - 32) (omega arith),
        footer_at 4 (length body + 32 - 32 + 4) (omega arith),
        footer_at 28 (length body + 32 - 32 + 28) (omega arith),
        footer_magic-encode_footer count total,
        footer_count count total hc,
        footer_total count total ht,
      ))

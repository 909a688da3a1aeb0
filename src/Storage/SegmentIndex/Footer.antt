-- ===== src/Storage/SegmentIndex/Footer.antt =====
-- internal/storage/segment_index.go: the footer reads back from the end of the file.
use little_big_files.Common.{
  ℕ, ◌+◌, ◌^◌, ◌<◌, ◌≡◌, refl, ap, ◌∙◌, some, ◌++◌, arith, Bytes, length, length-append,
  length-put_le, take, drop, replicate, put_le, get_le, word-put_le, drop-put_le, drop-put_le_add,
  drop-append_add,
}
use little_big_files.Storage.SegmentIndex.{
  encode_index_footer, decode_index_footer, index_magic, index_version,
}

last_word : get_le (take 4 (put_le 4 index_magic)) ≡ index_magic
unfolding put_le get_le
last_word = refl

module _ (count last crc : ℕ) where
  abbrev f4 : Bytes
  f4 = replicate 4 0 ++ put_le 4 index_magic

  abbrev f3 : Bytes
  f3 = put_le 4 crc ++ f4

  abbrev f2 : Bytes
  f2 = put_le 8 last ++ f3

  abbrev f1 : Bytes
  f1 = put_le 8 count ++ f2

  pub length-encode_index_footer : length (encode_index_footer count last crc) ≡ 32
  unfolding encode_index_footer
  length-encode_index_footer = omega (
    arith,
    length-append (put_le 4 index_version) f1,
    length-append (put_le 8 count) f2,
    length-append (put_le 8 last) f3,
    length-append (put_le 4 crc) f4,
    length-append (replicate 4 0) (put_le 4 index_magic),
    length-put_le 4 index_version,
    length-put_le 8 count,
    length-put_le 8 last,
    length-put_le 4 crc,
    length-put_le 4 index_magic,
  )

  drop_4 : drop 4 (encode_index_footer count last crc) ≡ f1
  unfolding encode_index_footer
  drop_4 = drop-put_le 4 index_version f1

  drop_f12 : drop 12 (encode_index_footer count last crc) ≡ f2
  unfolding encode_index_footer
  drop_f12 = drop-put_le_add 4 index_version f1 12 8 refl ∙ drop-put_le 8 count f2

  drop_f20 : drop 20 (encode_index_footer count last crc) ≡ f3
  unfolding encode_index_footer
  drop_f20 =
      drop-put_le_add 4 index_version f1 20 16 refl
      ∙ drop-put_le_add 8 count f2 16 8 refl
      ∙ drop-put_le 8 last f3

  drop_f28 : drop 28 (encode_index_footer count last crc) ≡ put_le 4 index_magic
  unfolding encode_index_footer
  drop_f28 =
      drop-put_le_add 4 index_version f1 28 24 refl
      ∙ drop-put_le_add 8 count f2 24 16 refl
      ∙ drop-put_le_add 8 last f3 16 8 refl
      ∙ drop-put_le_add 4 crc f4 8 4 refl

  footer_magic_word : get_le (take 4 (drop 28 (encode_index_footer count last crc))) ≡ index_magic
  footer_magic_word = ap (λ b. get_le (take 4 b)) drop_f28 ∙ last_word

  version_word : get_le (take 4 (encode_index_footer count last crc)) ≡ index_version
  unfolding encode_index_footer
  version_word = word-put_le 4 index_version f1 (omega arith)

  -- decodeIndexFooter finds the footer at the end of any bytes.
  pub decode_index_footer-encode_index_footer :
      (bytes : Bytes)
      → count < 2 ^ 64
      → last < 2 ^ 64
      → crc < 2 ^ 32
      → decode_index_footer (bytes ++ encode_index_footer count last crc) ≡ some (count, last, crc)
  unfolding decode_index_footer
  decode_index_footer-encode_index_footer bytes hc hl hk = ground (
    arith,
    length-append bytes (encode_index_footer count last crc),
    length-encode_index_footer,
    at 28,
    at 0,
    at 4,
    at 12,
    at 20,
    footer_magic_word,
    version_word,
    drop_4,
    drop_f12,
    drop_f20,
    word-put_le 8 count f2 hc,
    word-put_le 8 last f3 hl,
    word-put_le 4 crc f4 hk,
  )
    where
      foot : Bytes
      foot = encode_index_footer count last crc

      at : (n : ℕ) → drop (length bytes + n) (bytes ++ foot) ≡ drop n foot
      at n = drop-append_add bytes foot n (length bytes + n) refl

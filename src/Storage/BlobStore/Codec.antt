-- ===== src/Storage/BlobStore/Codec.antt =====
-- internal/storage/blob_store.go: the payload that encodeRecord chooses decodes to the blob.
use little_big_files.Common.{
  ℕ, ◌^◌, ◌<◌, ◌≤◌, ◌≡◌, refl, Bool, true, false, ◌&&◌, Option, none, some, Bytes, length, ltb, leb,
  ltb→lt, if-elim, arith,
}
use little_big_files.Common.Result.{ok}
use little_big_files.Storage.Record.{
  RecordType, record_xml, record_zip, record_error, magic_xmlc, magic_of, is_compressed_xml,
}
use little_big_files.Storage.BlobStore.{
  Encoder, choose, decompress, decoded, compress, is_xml, is_zstd_frame,
}

-- What zstd promises: what it encodes of a text that is not empty is a frame, which decodes to the
-- same bytes. (Of an empty text it makes no bytes.)
pub record IsCodec (e : Encoder) : Type 0 where
  pub long : (bytes : Bytes) → 0 < length bytes → 4 ≤ length (e.encode_all bytes)
  pub framed : (bytes : Bytes) → 0 < length bytes → is_zstd_frame (e.encode_all bytes) ≡ true
  pub decodes : (bytes : Bytes) → 0 < length bytes → e.decode_all (e.encode_all bytes) ≡ ok bytes

abbrev pub IsFaithful : Option Encoder → Type 0
IsFaithful none = Unit {0}
IsFaithful (some e) = IsCodec e

-- Payload and magic that a blob is written with decode to the blob.
decompress-compress :
    (e : Encoder) (bytes : Bytes)
    → IsCodec e
    → ltb (length (compress e bytes)) (length bytes) ≡ true
    → decompress e (compress e bytes) ≡ ok bytes
unfolding decompress compress
decompress-compress e bytes h shorter =
    ground
      (arith, h.long bytes some_byte, h.framed bytes some_byte, h.decodes bytes some_byte, shorter)
  where
    some_byte : 0 < length bytes
    some_byte = ground (arith, shorter)

magic_of-plain : (type : RecordType) → is_compressed_xml (magic_of type) ≡ false
unfolding magic_of is_compressed_xml
magic_of-plain record_xml = refl
magic_of-plain record_zip = refl
magic_of-plain record_error = refl

magic_of-lt : (type : RecordType) → magic_of type < 2 ^ 32
unfolding magic_of
magic_of-lt record_xml = omega arith
magic_of-lt record_zip = omega arith
magic_of-lt record_error = omega arith

-- The last of the tests that choose the compressed payload.
is_shorter :
    (e : Encoder) (bytes : Bytes) (type : RecordType)
    → (is_xml type
        && leb e.min_size (length bytes)
        && ltb (length (compress e bytes)) (length bytes))
      ≡ true
    → ltb (length (compress e bytes)) (length bytes) ≡ true
is_shorter e bytes type = third (is_xml type) (leb e.min_size (length bytes)) _
  where
    third : (a b c : Bool) → (a && b && c) ≡ true → c ≡ true
    third a b c s = ground arith

pub decoded-choose :
    (encoder : Option Encoder) (bytes : Bytes) (type : RecordType)
    → IsFaithful encoder
    → decoded encoder (ok (choose encoder bytes type)) ≡ ok bytes
unfolding decoded choose is_compressed_xml
decoded-choose none bytes type h = rw (magic_of-plain type) refl
decoded-choose (some e) bytes type h =
    if-elim (λ c. decoded (some e) (ok c) ≡ ok bytes)
      (is_xml type
        && leb e.min_size (length bytes)
        && ltb (length (compress e bytes)) (length bytes))
      (magic_xmlc, compress e bytes) (magic_of type, bytes)
      (λ s. decompress-compress e bytes h (is_shorter e bytes type s))
      (λ _. rw (magic_of-plain type) refl)

pub choose-fits :
    (encoder : Option Encoder) (bytes : Bytes) (type : RecordType)
    → length bytes < 2 ^ 32
    → ((choose encoder bytes type).0 < 2 ^ 32) × (length (choose encoder bytes type).1 < 2 ^ 32)
unfolding choose
choose-fits none bytes type h = (magic_of-lt type, h)
choose-fits (some e) bytes type h =
    if-elim (λ (c : ℕ × Bytes). (c.0 < 2 ^ 32) × (length c.1 < 2 ^ 32))
      (is_xml type
        && leb e.min_size (length bytes)
        && ltb (length (compress e bytes)) (length bytes))
      (magic_xmlc, compress e bytes) (magic_of type, bytes)
      (λ s. (
        omega arith,
        omega (
          arith,
          h,
          ltb→lt (length (compress e bytes)) (length bytes) (is_shorter e bytes type s),
        ),
      ))
      (λ _. (magic_of-lt type, h))

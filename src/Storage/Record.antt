-- ===== src/Storage/Record.antt =====
-- internal/storage/record.go: the on-disk record and the segment footer.
-- A record is [magic:4][size:4][payload:size][crc32c:4].
pub mod RoundTrip
use little_big_files.Common.{
  ℕ, ◌+◌, ◌-◌, ◌%◌, ◌^◌, ◌≡◌, Bool, true, false, ◌||◌, not, Option, none, some, List, [], ◌∷◌, ◌++◌,
  Bytes, put_le, get_le, length, take, drop, replicate, ltb, ◌==◌, if◌then◌else◌,
}
use little_big_files.Common.Result.{Result, ok, err}
use little_big_files.Storage.Checksum.{record_checksum}

abbrev pub magic_xml : ℕ
magic_xml = 0x584d4c31

abbrev pub magic_xmlc : ℕ
magic_xmlc = 0x584d4c32

abbrev pub magic_zip : ℕ
magic_zip = 0x5a495031

abbrev pub magic_err : ℕ
magic_err = 0x45525231

abbrev pub footer_magic : ℕ
footer_magic = 0x464f4f54

abbrev pub header_size : ℕ
header_size = 8

abbrev pub checksum_size : ℕ
checksum_size = 4

abbrev pub footer_size : ℕ
footer_size = 32

abbrev pub record_overhead : ℕ
record_overhead = header_size + checksum_size

-- KnownMagic
unfoldable pub known_magic : ℕ → Bool
known_magic magic =
    magic == magic_xml || (magic == magic_xmlc || (magic == magic_zip || magic == magic_err))

pub data RecordType : Type 0 where
  record_xml record_zip record_error : RecordType

-- RecordType.Magic
unfoldable pub magic_of : RecordType → ℕ
magic_of record_zip = magic_zip
magic_of record_error = magic_err
magic_of record_xml = magic_xml

-- IsCompressedXML
unfoldable pub is_compressed_xml : ℕ → Bool
is_compressed_xml magic = magic == magic_xmlc

-- EncodeRecord; `uint32(len(payload))` wraps.
unfoldable pub encode_record : ℕ → Bytes → Bytes
encode_record magic payload =
    put_le 4 magic
    ++ (put_le 4 (length payload % 2 ^ 32) ++ (payload ++ put_le 4 (record_checksum payload)))

-- DecodeRecordHeader: the magic and the size.
unfoldable pub decode_record_header : Bytes → Result (ℕ × ℕ)
decode_record_header bytes =
    if ltb (length bytes) header_size
    then err "record header too short"
    else ok (get_le (take 4 bytes), get_le (take 4 (drop 4 bytes)))

-- EncodeFooter: bytes 12 to 27 stay zero.
unfoldable pub encode_footer : ℕ → ℕ → Bytes
encode_footer record_count total_size =
    put_le 4 record_count ++ (put_le 8 total_size ++ (replicate 16 0 ++ put_le 4 footer_magic))

-- ValidateFooter: the record count and the total size in the last 32 bytes.
unfoldable pub validate_footer : Bytes → Option (ℕ × ℕ)
validate_footer bytes =
    let off = length bytes - footer_size in
    if ltb (length bytes) footer_size
    then none
    else if not (get_le (take 4 (drop (off + 28) bytes)) == footer_magic)
    then none
    else some (get_le (take 4 (drop off bytes)), get_le (take 8 (drop (off + 4) bytes)))

-- ===== src/Storage/SegmentIndex.antt =====
-- internal/storage/segment_index.go: the index file of a segment, entries of 60 bytes and a footer.
pub mod Entries
pub mod Footer
pub mod Append
mod Tests
use little_big_files.Common.{
  ℕ, zero, suc, ◌+◌, ◌-◌, ◌/◌, ◌%◌, ◌^◌, Bool, true, false, not, ◌&&◌, ◌||◌, Option, none, some,
  List, [], ◌∷◌, ◌++◌, Bytes, length, take, drop, replicate, put_le, get_le, ltb, ◌==◌,
  if◌then◌else◌,
}
use little_big_files.Common.Result.{Result, ok, err, ◌>>=◌}
use little_big_files.Storage.Checksum.{checksum_ieee}
use little_big_files.Storage.File.{write_at}

abbrev pub index_magic : ℕ
index_magic = 0x49445846

abbrev pub index_version : ℕ
index_version = 1

abbrev pub index_entry_size : ℕ
index_entry_size = 60

abbrev pub index_footer_size : ℕ
index_footer_size = 32

-- IndexEntry; the offset, an int64, is its 64 bits, and the hash has 32 bytes.
pub record IndexEntry : Type 0 where
  pub offset : ℕ
  pub stored_size : ℕ
  pub logical_size : ℕ
  pub magic : ℕ
  pub hash : Bytes
  pub supplier_id : ℕ
  pub dict_id : ℕ

-- EncodeIndexEntry
unfoldable pub encode_index_entry : IndexEntry → Bytes
encode_index_entry e =
    put_le 8 e.offset
    ++ (put_le 4 e.stored_size
        ++ (put_le 4 e.logical_size
            ++ (put_le 4 e.magic ++ (e.hash ++ (put_le 4 e.supplier_id ++ put_le 4 e.dict_id)))))

-- DecodeIndexEntry
unfoldable pub decode_index_entry : Bytes → Result IndexEntry
decode_index_entry buf =
    if ltb (length buf) index_entry_size
    then err "index entry too short"
    else ok (record {
      offset = get_le (take 8 buf);
      stored_size = get_le (take 4 (drop 8 buf));
      logical_size = get_le (take 4 (drop 12 buf));
      magic = get_le (take 4 (drop 16 buf));
      hash = take 32 (drop 20 buf);
      supplier_id = get_le (take 4 (drop 52 buf));
      dict_id = get_le (take 4 (drop 56 buf));
    })

-- encodeIndexFooter: bytes 24 to 27 stay zero.
unfoldable pub encode_index_footer : ℕ → ℕ → ℕ → Bytes
encode_index_footer record_count last_offset entries_crc =
    put_le 4 index_version
    ++ (put_le 8 record_count
        ++ (put_le 8 last_offset
            ++ (put_le 4 entries_crc ++ (replicate 4 0 ++ put_le 4 index_magic))))

-- The fields of a footer at the end: the record count, the last offset and the checksum.
unfoldable pub decode_index_footer : Bytes → Option (ℕ × ℕ × ℕ)
decode_index_footer bytes =
    let off = length bytes - index_footer_size in
    if ltb (length bytes) index_footer_size
    then none
    else if not (get_le (take 4 (drop (off + 28) bytes)) == index_magic)
    then none
    else if not (get_le (take 4 (drop off bytes)) == index_version)
    then none
    else some (
      get_le (take 8 (drop (off + 4) bytes)),
      get_le (take 8 (drop (off + 12) bytes)),
      get_le (take 4 (drop (off + 20) bytes)),
    )

-- The entries, without the footer if there is one.
cut_footer : Bytes → Option (ℕ × ℕ × ℕ) → Bytes
cut_footer bytes none = bytes
cut_footer bytes (some _) = take (length bytes - index_footer_size) bytes

unfoldable pub entries_of : Bytes → Bytes
unfolding cut_footer
entries_of bytes = cut_footer bytes (decode_index_footer bytes)

-- openAppend: the file is rewritten without its footer and opened at its end; a file without a
-- footer is opened at its start. The second part is the position of the next write.
open_at : Bytes → Option (ℕ × ℕ × ℕ) → Bytes × ℕ
open_at bytes none = (bytes, 0)
open_at bytes (some _) =
    let trunc = take (length bytes - index_footer_size) bytes in (trunc, length trunc)

unfoldable pub open_append : Bytes → Bytes × ℕ
unfolding open_at
open_append bytes = open_at bytes (decode_index_footer bytes)

-- Append, on the bytes of the index file: the entry, then a footer over what the file then holds.
unfoldable pub append : IndexEntry → Bytes → Bytes
append e bytes =
    let (kept, position) = open_append bytes in
    let wrote = write_at kept position (encode_index_entry e) in
    let entries = entries_of wrote in
    write_at wrote (position + index_entry_size)
      (encode_index_footer (length entries / index_entry_size) e.offset (checksum_ieee entries))

-- The loop of ReadIndexFile over `n` entries.
unfoldable pub decode_entries : ℕ → Bytes → Result (List IndexEntry)
decode_entries zero bytes = ok []
decode_entries (suc n) bytes = do
  e ← decode_index_entry (take index_entry_size bytes)
  rest ← decode_entries n (drop index_entry_size bytes)
  ok (e ∷ rest)

-- ReadIndexFile, on the bytes of the file. A footer whose checksum or count is 0 is not compared.
read_entries : Bytes → ℕ → ℕ → Result (List IndexEntry)
read_entries entries record_count entries_crc =
    let n = length entries / index_entry_size in
    if not (length entries % index_entry_size == 0)
    then err "corrupt index file"
    else if not (entries_crc == 0) && not (checksum_ieee entries == entries_crc)
    then err "index CRC mismatch"
    else if not (record_count == 0) && not (n == record_count)
    then err "index record count mismatch"
    else decode_entries n entries

read_with : Bytes → Option (ℕ × ℕ × ℕ) → Result (List IndexEntry)
unfolding read_entries
read_with bytes none = read_entries bytes 0 0
read_with bytes (some (record_count, _, entries_crc)) =
    read_entries (take (length bytes - index_footer_size) bytes) record_count entries_crc

unfoldable pub read_index_file : Bytes → Result (List IndexEntry)
unfolding read_with
read_index_file bytes = read_with bytes (decode_index_footer bytes)

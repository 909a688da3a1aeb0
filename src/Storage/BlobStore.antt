-- ===== src/Storage/BlobStore.antt =====
-- internal/storage/blob_store.go: content by its hash. SHA-256, zstd and the Bloom filter are
-- parameters.
pub mod References
pub mod Codec
pub mod ReadBack
mod Tests
use little_big_files.Common.{
  ℕ, ◌+◌, ◌%◌, ◌^◌, Bool, true, false, not, ◌&&◌, Option, none, some, String, List, [], ◌∷◌, Bytes,
  take, ◌||◌, length, ltb, leb, ◌==◌, if◌then◌else◌,
}
use little_big_files.Common.Result.{Result, ok, err}
use little_big_files.Common.Exec.{Exec, pure, raise, gets, modify, ◌>>=◌, ◌>>◌}
use little_big_files.Common.Triple.{within}
use little_big_files.Common.Dict.{lookup, insert, nat_eq, bytes_beq}
use little_big_files.Storage.Record.{
  RecordType, record_xml, record_zip, record_error, magic_xmlc, magic_of, encode_record,
  decode_record_header, is_compressed_xml,
}
use little_big_files.Storage.Segment.{SegmentManager, Location}
use little_big_files.Storage.Segment.Append.{append_direct}
use little_big_files.Storage.Segment.Read.{read_record}
use little_big_files.Storage.SegmentIndex.{IndexEntry, append}
use little_big_files.Dedup.{
  BloomLibrary, HotIndex, Entry, ContentBlob, entry_of, might_contain, lookup_entry, put,
}
use little_big_files.Metadata.Transaction.{
  Database, tx_get_blob, tx_increment_ref_count_if_exists, tx_insert_blob_or_increment,
}

-- compress.Encoder: EncodeAll and DecodeAll of zstd, and the least size to compress.
pub record Encoder : Type 0 where
  pub encode_all : Bytes → Bytes
  pub decode_all : Bytes → Result Bytes
  pub min_size : ℕ
  pub dict_id : ℕ

-- Encoder.Compress
unfoldable pub compress : Encoder → Bytes → Bytes
compress encoder bytes =
    let out = encoder.encode_all bytes in if ltb (length out) (length bytes) then out else bytes

-- isZstdFrame
abbrev pub is_zstd_frame : Bytes → Bool
is_zstd_frame bytes = bytes_beq (take 4 bytes) (0x28 ∷ 0xB5 ∷ 0x2F ∷ 0xFD ∷ [])

-- Encoder.Decompress, of an encoder that is not closed.
unfoldable pub decompress : Encoder → Bytes → Result Bytes
decompress encoder bytes =
    if ltb (length bytes) 4 || not (is_zstd_frame bytes) then ok bytes else encoder.decode_all bytes

is_xml : RecordType → Bool
is_xml record_xml = true
is_xml record_zip = false
is_xml record_error = false

-- BlobStore.encodeRecord: the magic and the record.
pub choose : Option Encoder → Bytes → RecordType → ℕ × Bytes
choose none bytes type = (magic_of type, bytes)
choose (some encoder) bytes type =
    let out = compress encoder bytes in
    if is_xml type && leb encoder.min_size (length bytes) && ltb (length out) (length bytes)
    then (magic_xmlc, out)
    else (magic_of type, bytes)

unfoldable pub encode_blob : Option Encoder → Bytes → RecordType → Bytes
unfolding choose is_xml
encode_blob encoder bytes type =
    let (magic, payload) = choose encoder bytes type in encode_record magic payload

-- What ReadBlob makes of a record.
pub decoded : Option Encoder → Result (ℕ × Bytes) → Result Bytes
decoded e (err m) = err m
decoded none (ok (magic, payload)) =
    if is_compressed_xml magic then err "compressed blob but no encoder configured" else ok payload
decoded (some e) (ok (magic, payload)) =
    if is_compressed_xml magic then decompress e payload else ok payload

module _ (B : BloomLibrary) (sha256 : Bytes → Bytes) (encoder : Option Encoder) where
  -- What StoreOrRef works on: the segments, the index files (none: not configured), the hot index
  -- and the database. The outcome of an append to an index file is none where it succeeds, and
  -- otherwise what the file holds after the failure; when the outcomes end, it succeeds.
  pub record Shard : Type 0 where
    pub segments : SegmentManager
    pub index_files : Option (List (ℕ × Bytes))
    pub index_outcomes : List (Option Bytes)
    pub index : Option (HotIndex B)
    pub db : Database

  abbrev pub get_db : Shard → Database
  get_db s = s.db

  abbrev pub set_db : Database → Shard → Shard
  set_db d s = record s { db = d }

  -- A call of the database.
  abbrev pub tx : {A : Type 0} → Exec Database A → Exec Shard A
  tx m = within get_db set_db m

  -- segments.Append
  append_segment : Bytes → Exec Shard Location
  append_segment bytes s =
      let (r, sm) = append_direct bytes s.segments in (r, record s { segments = sm })

  -- indexPut
  put_in : Bytes → Entry → Option (HotIndex B) → Option (HotIndex B)
  put_in hash e none = none
  put_in hash e (some idx) = some (put B hash e idx)

  index_put : Bytes → ContentBlob → Exec Shard Unit
  unfolding put_in
  index_put hash b = modify (λ (s : Shard). record s { index = put_in hash (entry_of B b) s.index })

  -- The entry that storeNew adds to the index file of the segment.
  magic_in : Result (ℕ × ℕ) → ℕ
  magic_in (ok (magic, _)) = magic
  magic_in (err _) = 0

  dict_of : Option Encoder → ℕ → ℕ
  dict_of none magic = 0
  dict_of (some e) magic = if is_compressed_xml magic then e.dict_id % 2 ^ 32 else 0

  new_entry : Bytes → Bytes → Bytes → ℕ → Location → IndexEntry
  new_entry hash content bytes supplier_id loc =
      let magic = magic_in (decode_record_header bytes) in
      record {
        offset = loc.offset;
        stored_size = length bytes % 2 ^ 32;
        logical_size = length content % 2 ^ 32;
        magic = magic;
        hash = hash;
        supplier_id = supplier_id % 2 ^ 32;
        dict_id = dict_of encoder magic;
      }

  or_empty : Option Bytes → Bytes
  or_empty none = []
  or_empty (some bytes) = bytes

  -- segmentIndex.Append: its error, the index files and the outcomes that are left.
  write_index :
      ℕ
      → IndexEntry
      → Option (List (ℕ × Bytes))
      → List (Option Bytes)
      → Result (Unit {0}) × Option (List (ℕ × Bytes)) × List (Option Bytes)
  write_index id e none outcomes = (ok tt, none, outcomes)
  write_index id e (some files) [] =
      (ok tt, some (insert id (append e (or_empty (lookup id files))) files), [])
  write_index id e (some files) (none ∷ outcomes) =
      (ok tt, some (insert id (append e (or_empty (lookup id files))) files), outcomes)
  write_index id e (some files) (some left ∷ outcomes) =
      (err "write index entry", some (insert id left files), outcomes)

  append_index : ℕ → IndexEntry → Exec Shard Unit
  unfolding write_index
  append_index id e s =
      let (r, files, outcomes) = write_index id e s.index_files s.index_outcomes in
      (r, record s { index_files = files; index_outcomes = outcomes })

  new_blob : Bytes → Bytes → Bytes → Location → ContentBlob
  new_blob hash content bytes loc = record {
    content_hash = hash;
    size = length content;
    stored_size = length bytes;
    segment_id = loc.segment_id;
    offset = loc.offset;
    ref_count = 1;
  }

  -- The end of storeNew, once the row is there.
  after_insert : Bytes → ContentBlob → IndexEntry → Bool → Exec Shard (Bytes × Bool)
  unfolding append_index
  after_insert hash b e false = pure (hash, false)
  after_insert hash b e true = do append_index b.segment_id e; index_put hash b; pure (hash, true)

  -- storeNew
  pub store_new : Bytes → Bytes → RecordType → ℕ → Exec Shard (Bytes × Bool)
  unfolding after_insert new_blob new_entry
  store_new hash content type supplier_id = do
    loc ← append_segment (encode_blob encoder content type)
    inserted ←
        tx (
          tx_insert_blob_or_increment
            (new_blob hash content (encode_blob encoder content type) loc))
    after_insert hash (new_blob hash content (encode_blob encoder content type) loc)
        (new_entry hash content (encode_blob encoder content type) supplier_id loc) inserted

  -- StoreOrRef: the hash, and whether the blob is new.
  ref_existing : Bytes → Option ContentBlob → Exec Shard (Bytes × Bool) → Exec Shard (Bytes × Bool)
  ref_existing hash none next = next
  ref_existing hash (some b) next = do
    tx (tx_increment_ref_count_if_exists hash)
    index_put hash b
    pure (hash, false)

  by_table : Bytes → Exec Shard (Bytes × Bool) → Exec Shard (Bytes × Bool)
  unfolding ref_existing
  by_table hash next = do existing ← tx (tx_get_blob hash); ref_existing hash existing next

  by_index : Bytes → Option Entry → Exec Shard (Bytes × Bool) → Exec Shard (Bytes × Bool)
  unfolding by_table
  by_index hash none next = by_table hash next
  by_index hash (some _) next = do
    updated ← tx (tx_increment_ref_count_if_exists hash)
    (if updated then pure (hash, false) else by_table hash next)

  store_hash : Bytes → Bytes → RecordType → ℕ → Exec Shard (Bytes × Bool)
  unfolding by_index
  store_hash hash content type supplier_id s =
      if might_contain B s.index hash
      then by_index hash (lookup_entry B s.index hash) (store_new hash content type supplier_id) s
      else store_new hash content type supplier_id s

  pub store_or_ref : Bytes → RecordType → ℕ → Exec Shard (Bytes × Bool)
  unfolding store_hash
  store_or_ref content type supplier_id = store_hash (sha256 content) content type supplier_id

  -- ReadBlob
  pub read_blob : Shard → ContentBlob → Result Bytes
  unfolding decoded
  read_blob s b = decoded encoder (read_record s.segments b.segment_id b.offset)

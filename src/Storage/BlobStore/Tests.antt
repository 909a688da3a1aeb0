-- ===== src/Storage/BlobStore/Tests.antt =====
-- A blob store on concrete inputs, and the theorem at it.
use little_big_files.Common.{
  arith, some, ◌≡◌, refl, ap, Bool, true, false, none, List, [], ◌∷◌, Bytes, take, drop, sym, ◌++◌,
  ◌<◌, length, inl, inr, Bool-cases, if◌then◌else◌,
}
use little_big_files.Common.Result.{Result, ok}
use little_big_files.Common.Dict.{lookup, insert, bytes_beq, bytes_beq→eq}
use little_big_files.Storage.Record.{record_xml, magic_xmlc}
use little_big_files.Storage.Segment.{file_in, SegmentManager, opened}
use little_big_files.Dedup.{BloomLibrary, ContentBlob, might_contain, lookup_entry}
use little_big_files.Metadata.Blobs.{OneMore, get_blob, increment_ref_count_if_exists}
use little_big_files.Metadata.Transaction.{
  statement, completed, tx_get_blob, tx_increment_ref_count_if_exists,
}
use little_big_files.Storage.Segment.{write_active, sync_active, settle, attempt, outcome, advance}
use little_big_files.Storage.Segment.Append.{
  append_direct, append_locked, append_open, rotate_if_full, is_full, write_record, put_and_sync,
  put_record, move_on, here,
}
use little_big_files.Storage.Record.{encode_record}
use little_big_files.Metadata.Transaction.{tx_insert_blob_or_increment}
use little_big_files.Metadata.Blobs.{insert_blob_or_increment}
use little_big_files.Storage.BlobStore.{
  Encoder, compress, is_xml, append_index, write_index, after_insert, new_blob, encode_blob, choose,
  read_blob,
}
use little_big_files.Storage.BlobStore.{
  append_segment, store_new, tx_increment_ref_count_if_exists, tx_get_blob, Shard, store_or_ref,
  store_hash, by_index, by_table, ref_existing, index_put, put_in,
}
use little_big_files.Storage.BlobStore.Codec.{IsCodec}
use little_big_files.Storage.BlobStore.ReadBack.{read_blob-store_or_ref}
use little_big_files.Storage.Segment.Opening.{IsWellFormed}
use little_big_files.Storage.BlobStore.References.{store_or_ref-OneMore}

abbrev no_filter : BloomLibrary
no_filter = record {
  Rate = Bool;
  is_positive = λ rate. rate;
  one_in_thousand = true;
  Filter = List Bytes;
  new_with_estimates = λ n rate. [];
  test = λ f h. true;
  add = λ f h. h ∷ f;
}

abbrev segment_files : SegmentManager
segment_files = record {
  files = (0, record { content = []; durable = [] }) ∷ [];
  max_segment_size = 80;
  verify_checksum = true;
  active_id = 0;
  active_file = opened 0;
  active_offset = 0;
  record_count = 0;
  faults = [];
}

-- In place of SHA-256.
abbrev front : Bytes → Bytes
front = take 2

abbrev doc : Bytes
doc = b'<' ∷ b'a' ∷ b'/' ∷ b'>' ∷ []

abbrev blob : ContentBlob
blob = record {
  content_hash = front doc;
  size = 4;
  stored_size = 16;
  segment_id = 0;
  offset = 48;
  ref_count = 2;
}

abbrev shard : Shard no_filter front none
shard = record {
  segments = segment_files;
  index_files = none;
  index_outcomes = [];
  index = none;
  db = record {
    tables = record {
      blobs = (front doc, blob) ∷ [];
      packages = [];
      package_files = [];
      supplier_stats = [];
    };
    sequences = record { package_id = 1; file_id = 1 };
    clock = 0;
    aborted = false;
    outcomes = true ∷ true ∷ [];
  };
}

abbrev after : Shard no_filter front none
after = (store_or_ref no_filter front none doc record_xml 5 shard).1

referred : (store_or_ref no_filter front none doc record_xml 5 shard).0 ≡ ok (front doc, false)
unfolding store_or_ref store_hash by_index by_table ref_existing index_put put_in tx_get_blob
    tx_increment_ref_count_if_exists statement completed might_contain lookup_entry get_blob
    increment_ref_count_if_exists lookup insert
referred = refl

store_or_ref-OneMore_example :
    (front doc ≡ front doc) × OneMore (front doc) shard.db.tables.blobs after.db.tables.blobs
store_or_ref-OneMore_example =
    store_or_ref-OneMore no_filter front none doc record_xml 5 shard after (front doc) false
      (ap (λ r. (r, after)) referred)

-- In place of zstd: one text becomes a frame without content, all others are put into one as they are.
abbrev frame : Bytes
frame = 0x28 ∷ 0xB5 ∷ 0x2F ∷ 0xFD ∷ []

abbrev text : Bytes
text = b'<' ∷ b'a' ∷ b'b' ∷ b'c' ∷ b'd' ∷ b'e' ∷ b'/' ∷ b'>' ∷ []

abbrev unpack : Bytes → Result Bytes
unpack [] = ok text
unpack (b ∷ bytes) = ok (b ∷ bytes)

abbrev codec : Encoder
codec = record {
  encode_all = λ bytes. frame ++ (if bytes_beq bytes text then [] else bytes);
  decode_all = λ bytes. unpack (drop 4 bytes);
  min_size = 4;
  dict_id = 1;
}

unpack_lem :
    (bytes : Bytes)
    → 0 < length bytes
    → unpack (if bytes_beq bytes text then [] else bytes) ≡ ok bytes
unpack_lem [] h = absurd (omega arith)
unpack_lem (b ∷ bytes) h = elim (Bool-cases (bytes_beq (b ∷ bytes) text)) [
  | inl same ↦ rw same (ap ok (sym (bytes_beq→eq (b ∷ bytes) text same)))
  | inr differs ↦ rw differs refl
]

codec-IsCodec : IsCodec codec
codec-IsCodec = record {
  long = λ bytes h. omega arith;
  framed = λ bytes h. refl;
  decodes = unpack_lem;
}

-- A shard without the blob: what it stores is new, and compressed.
abbrev fresh_shard : Shard no_filter front (some codec)
fresh_shard = record {
  segments = segment_files;
  index_files = none;
  index_outcomes = [];
  index = none;
  db = record shard.db { tables = record shard.db.tables { blobs = [] } };
}

abbrev stored : Shard no_filter front (some codec)
stored = (store_or_ref no_filter front (some codec) text record_xml 5 fresh_shard).1

stored_new :
    store_or_ref no_filter front (some codec) text record_xml 5 fresh_shard
    ≡ (ok (front text, true), stored)
unfolding store_or_ref store_hash by_index by_table ref_existing index_put put_in store_new
    append_segment append_direct append_locked append_open rotate_if_full is_full write_record
    put_and_sync put_record write_active sync_active move_on here settle attempt outcome advance
    tx_insert_blob_or_increment insert_blob_or_increment after_insert new_blob encode_blob choose
    compress is_xml append_index write_index encode_record statement completed tx_get_blob get_blob
    insert lookup might_contain lookup_entry
stored_new = refl

-- The record of the blob has the magic of compressed text, and four bytes of content.
stored_compressed : choose (some codec) text record_xml ≡ (magic_xmlc, frame)
unfolding choose compress is_xml
stored_compressed = refl

segment_files-IsWellFormed : IsWellFormed segment_files
unfolding file_in lookup
segment_files-IsWellFormed = record { fits = λ id e. (cc e, omega arith) }

read_blob-store_or_ref_example :
    (b : ContentBlob) × (get_blob (front text) stored.db.tables.blobs ≡ some b)
    × (read_blob no_filter front (some codec) stored b ≡ ok text)
read_blob-store_or_ref_example =
    read_blob-store_or_ref no_filter front (some codec) text record_xml 5 fresh_shard stored
      (front text) codec-IsCodec (omega arith) segment_files-IsWellFormed stored_new

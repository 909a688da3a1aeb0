-- ===== src/Dedup.antt =====
-- internal/dedup: the hot index of content hashes, a Bloom filter in front of a key-value store. The
-- Bloom filter of bits-and-blooms is a parameter.
pub mod Rebuild
mod Tests
use little_big_files.Common.{
  ℕ, ◌+◌, Bool, true, false, not, Option, none, some, String, List, [], ◌∷◌, ◌++◌, Bytes, length,
  take, drop, put_le, get_le, ltb, ◌==◌, if◌then◌else◌, max, ◌≡◌, ◌^◌, ◌<◌, ◌%◌, refl,
}
use little_big_files.Common.Result.{Result, ok, err}
use little_big_files.Common.Dict.{lookup, insert, bytes_eq}

-- Entry
pub record Entry : Type 0 where
  pub segment_id : ℕ
  pub offset : ℕ
  pub size : ℕ

-- encodeEntry, which the RocksDB store writes; words wrap.
unfoldable pub encode_entry : Entry → Bytes
encode_entry e = put_le 4 e.segment_id ++ (put_le 8 e.offset ++ put_le 4 e.size)

-- decodeEntry
unfoldable pub decode_entry : Bytes → Result Entry
decode_entry bytes =
    if ltb (length bytes) 16
    then err "entry value too short"
    else ok (record {
      segment_id = get_le (take 4 bytes);
      offset = get_le (take 8 (drop 4 bytes));
      size = get_le (take 4 (drop 12 bytes));
    })

-- The package bloom: NewWithEstimates, Test and Add, and the rates, which are floats.
pub record BloomLibrary : Type 1 where
  pub Rate : Type 0
  pub is_positive : Rate → Bool
  pub one_in_thousand : Rate
  pub Filter : Type 0
  pub new_with_estimates : ℕ → Rate → Filter
  pub test : Filter → Bytes → Bool
  pub add : Filter → Bytes → Filter

-- What the index relies on: no false negatives.
pub record IsBloom (B : BloomLibrary) : Type 0 where
  pub test_add : (f : B.Filter) (h : Bytes) → B.test (B.add f h) h ≡ true
  pub test_kept : (f : B.Filter) (h k : Bytes) → B.test f k ≡ true → B.test (B.add f h) k ≡ true

-- The part of a row of content_blobs that the index reads.
pub record ContentBlob : Type 0 where
  pub content_hash : Bytes
  pub size : ℕ
  pub stored_size : ℕ
  pub segment_id : ℕ
  pub offset : ℕ
  pub ref_count : ℕ

-- The memory store: a map from the hash.
abbrev pub Store : Type 0
Store = List (Bytes × Entry)

module _ (B : BloomLibrary) where
  -- bloomFilter
  pub record BloomFilter : Type 0 where
    pub f : B.Filter
    pub cap : ℕ

  rate_or_default : B.Rate → B.Rate
  rate_or_default rate = if B.is_positive rate then rate else B.one_in_thousand

  -- newBloom
  unfoldable pub new_bloom : ℕ → B.Rate → BloomFilter
  unfolding rate_or_default
  new_bloom expected_items rate =
      let n = if expected_items == 0 then 1000000 else expected_items in
      record { f = B.new_with_estimates n (rate_or_default rate); cap = n }

  -- bloomFilter.Reset
  unfoldable pub reset : ℕ → B.Rate → BloomFilter → BloomFilter
  unfolding rate_or_default
  reset expected_items rate b =
      let n = if expected_items == 0 then b.cap else expected_items in
      record { f = B.new_with_estimates n (rate_or_default rate); cap = n }

  -- HotIndex with a memory store; the index of the backend postgres is nil.
  pub record HotIndex : Type 0 where
    pub bloom : Option BloomFilter
    pub store : Option Store

  -- openMemoryIndex
  unfoldable pub open_memory_index : ℕ → B.Rate → HotIndex
  open_memory_index expected_items rate = record {
    bloom = some (new_bloom expected_items rate);
    store = some [];
  }

  test_bloom : Option BloomFilter → Bytes → Bool
  test_bloom none hash = true
  test_bloom (some b) hash = B.test b.f hash

  -- MightContain
  unfoldable pub might_contain : Option HotIndex → Bytes → Bool
  unfolding test_bloom
  might_contain none hash = true
  might_contain (some idx) hash = test_bloom idx.bloom hash

  store_get : Option Store → Bytes → Option Entry
  store_get none hash = none
  store_get (some s) hash = lookup hash s

  -- HotIndex.Lookup
  unfoldable pub lookup_entry : Option HotIndex → Bytes → Option Entry
  unfolding store_get
  lookup_entry none hash = none
  lookup_entry (some idx) hash = store_get idx.store hash

  bloom_add : Bytes → Option BloomFilter → Option BloomFilter
  bloom_add hash none = none
  bloom_add hash (some b) = some (record b { f = B.add b.f hash })

  put_stored : Bytes → Entry → HotIndex → Option Store → HotIndex
  put_stored hash e idx none = idx
  put_stored hash e idx (some s) = record {
    bloom = bloom_add hash idx.bloom;
    store = some (insert hash e s);
  }

  -- HotIndex.Put; the memory store has no errors.
  unfoldable pub put : Bytes → Entry → HotIndex → HotIndex
  unfolding put_stored bloom_add
  put hash e idx = put_stored hash e idx idx.store

  abbrev pub entry_of : ContentBlob → Entry
  entry_of b = record { segment_id = b.segment_id; offset = b.offset; size = b.size }

  unfoldable pub put_all : List ContentBlob → HotIndex → HotIndex
  put_all [] idx = idx
  put_all (b ∷ blobs) idx = put_all blobs (put b.content_hash (entry_of b) idx)

  cleared : Option Store → Option Store
  cleared none = none
  cleared (some _) = some []

  reset_bloom : ℕ → B.Rate → Option BloomFilter → Option BloomFilter
  reset_bloom n rate none = none
  reset_bloom n rate (some b) = some (reset n rate b)

  -- RebuildFromPG, on the rows of content_blobs.
  unfoldable pub rebuild : List ContentBlob → ℕ → B.Rate → HotIndex → HotIndex
  unfolding cleared reset_bloom
  rebuild blobs expected_items rate idx = put_all blobs (record {
    bloom = reset_bloom (max expected_items (length blobs)) rate idx.bloom;
    store = cleared idx.store;
  })

-- ===== src/Dedup/Rebuild.antt =====
-- internal/dedup: the index after a rebuild, and its entries as bytes.
use little_big_files.Common.{
  ℕ, ◌^◌, ◌<◌, ◌≡◌, refl, ap, ◌∙◌, true, Option, none, some, List, [], ◌∷◌, ◌++◌, arith, Bytes,
  length, length-append, length-put_le, put_le, word-put_le, drop-put_le, drop-put_le_add, le→ltb,
  ◌≤◌, append_assoc, if◌then◌else◌, Option-cases, subst, Bool-cases, inl, inr,
}
use little_big_files.Common.Result.{ok}
use little_big_files.Common.Dict.{lookup, insert, lookup-insert, bytes_eq, ◌=?◌, bytes_beq→eq}
use little_big_files.Dedup.{
  Entry, encode_entry, decode_entry, BloomLibrary, IsBloom, ContentBlob, Store, HotIndex,
  might_contain, lookup_entry, put, entry_of, put_all, rebuild, store_get, test_bloom, put_stored,
  bloom_add, cleared, reset_bloom, reset,
}

module _ (e : Entry) (rest : Bytes) where
  abbrev behind_offset : Bytes
  behind_offset = put_le 4 e.size ++ rest

  abbrev behind_id : Bytes
  behind_id = put_le 8 e.offset ++ behind_offset

  encode_entry-append : encode_entry e ++ rest ≡ put_le 4 e.segment_id ++ behind_id
  unfolding encode_entry
  encode_entry-append = simp append_assoc

  -- decodeEntry of an encoded entry, with anything behind it, is the entry, if its fields fit into 32,
  -- 64 and 32 bits.
  pub decode_entry-encode_entry :
      e.segment_id < 2 ^ 32
      → e.offset < 2 ^ 64
      → e.size < 2 ^ 32
      → decode_entry (encode_entry e ++ rest) ≡ ok e
  unfolding decode_entry
  decode_entry-encode_entry h k l = rw encode_entry-append (
      rw
        (
          le→ltb (length (put_le 4 e.segment_id ++ behind_id)) 16 long,
          word-put_le 4 e.segment_id behind_id h,
          drop-put_le 4 e.segment_id behind_id,
          word-put_le 8 e.offset behind_offset k,
          drop-put_le_add 4 e.segment_id behind_id 12 8 refl ∙ drop-put_le 8 e.offset behind_offset,
          word-put_le 4 e.size rest l,
        )
        refl)
    where
      long : 16 ≤ length (put_le 4 e.segment_id ++ behind_id)
      long = omega (
        arith,
        length-append (put_le 4 e.segment_id) behind_id,
        length-append (put_le 8 e.offset) behind_offset,
        length-append (put_le 4 e.size) rest,
        length-put_le 4 e.segment_id,
        length-put_le 8 e.offset,
        length-put_le 4 e.size,
      )

-- The entry of the last blob with this hash.
abbrev pub latest : (B : BloomLibrary) → Bytes → List ContentBlob → Option Entry
latest B hash [] = none
latest B hash (b ∷ blobs) = elim (latest B hash blobs) [
  | some e ↦ some e
  | none ↦ if b.content_hash =? hash then some (entry_of B b) else none
]

module _ (B : BloomLibrary) where
  -- An index that is open on a filter and a store.
  abbrev pub open_index : B.Filter → ℕ → Store → HotIndex B
  open_index f cap s = record { bloom = some (record { f = f; cap = cap }); store = some s }

  abbrev added : List ContentBlob → B.Filter → B.Filter
  added [] f = f
  added (b ∷ blobs) f = added blobs (B.add f b.content_hash)

  abbrev stored : List ContentBlob → Store → Store
  stored [] s = s
  stored (b ∷ blobs) s = stored blobs (insert b.content_hash (entry_of B b) s)

  put-open_index :
      (hash : Bytes) (e : Entry) (f : B.Filter) (cap : ℕ) (s : Store)
      → put B hash e (open_index f cap s) ≡ open_index (B.add f hash) cap (insert hash e s)
  unfolding put put_stored bloom_add
  put-open_index hash e f cap s = refl

  put_all-open_index :
      (blobs : List ContentBlob) (f : B.Filter) (cap : ℕ) (s : Store)
      → put_all B blobs (open_index f cap s) ≡ open_index (added blobs f) cap (stored blobs s)
  unfolding put_all
  put_all-open_index [] f cap s = refl
  put_all-open_index (b ∷ blobs) f cap s =
      ap (put_all B blobs) (put-open_index b.content_hash (entry_of B b) f cap s)
      ∙ put_all-open_index blobs (B.add f b.content_hash) cap
          (insert b.content_hash (entry_of B b) s)

  lookup-stored :
      (hash : Bytes) (blobs : List ContentBlob) (s : Store)
      → lookup hash (stored blobs s)
        ≡ elim (latest B hash blobs) [ some e ↦ some e | none ↦ lookup hash s ]
  lookup-stored hash [] s = refl
  lookup-stored hash (b ∷ blobs) s = ground (
    arith,
    lookup-stored hash blobs (insert b.content_hash (entry_of B b) s),
    lookup-insert b.content_hash hash (entry_of B b) s,
  )

  module _ (bloom : IsBloom B) where
    test-added :
        (hash : Bytes) (blobs : List ContentBlob) (f : B.Filter)
        → B.test f hash ≡ true
        → B.test (added blobs f) hash ≡ true
    test-added hash [] f h = h
    test-added hash (b ∷ blobs) f h =
        test-added hash blobs (B.add f b.content_hash) (bloom.test_kept f b.content_hash hash h)

    test-latest :
        (hash : Bytes) (blobs : List ContentBlob) (f : B.Filter) {e : Entry}
        → latest B hash blobs ≡ some e
        → B.test (added blobs f) hash ≡ true
    test-latest hash [] f h = cc h
    test-latest hash (b ∷ blobs) f h = elim (Option-cases (latest B hash blobs)) [
      | inr (e', later) ↦ test-latest hash blobs (B.add f b.content_hash) later
      | inl last ↦ elim (Bool-cases (b.content_hash =? hash)) [
        | inl same ↦ test-added hash blobs (B.add f b.content_hash) (
            subst (λ k. B.test (B.add f b.content_hash) k ≡ true)
              (bytes_beq→eq b.content_hash hash same) (bloom.test_add f b.content_hash))
        | inr differs ↦ absurd (ground (arith, h, last, differs))
      ]
    ]

  rebuild-open_index :
      (blobs : List ContentBlob) (n : ℕ) (rate : B.Rate) (f : B.Filter) (cap : ℕ) (s : Store)
      → (g : B.Filter) × (c : ℕ) × (rebuild B blobs n rate (open_index f cap s)
          ≡ open_index (added blobs g) c (stored blobs []))
  unfolding rebuild cleared reset_bloom reset
  rebuild-open_index blobs n rate f cap s = (_, _, put_all-open_index blobs _ _ [])

  -- After a rebuild of an open index Lookup finds for each hash the entry of its last blob in the
  -- list, and nothing for a hash without blob, whatever the index held before.
  pub lookup_entry-rebuild :
      (blobs : List ContentBlob) (n : ℕ) (rate : B.Rate) (f : B.Filter) (cap : ℕ) (s : Store)
      (hash : Bytes)
      → lookup_entry B (some (rebuild B blobs n rate (open_index f cap s))) hash
        ≡ latest B hash blobs
  unfolding lookup_entry store_get lookup
  lookup_entry-rebuild blobs n rate f cap s hash =
      let (g, c, same) = rebuild-open_index blobs n rate f cap s in
      ap (λ idx. lookup_entry B (some idx) hash) same
      ∙ lookup-stored hash blobs []
      ∙ found (latest B hash blobs)
    where
      found : (o : Option Entry) → elim o [ some e ↦ some e | none ↦ none ] ≡ o
      found none = refl
      found (some e) = refl

  -- After a rebuild of an open index, over a Bloom filter without false negatives, MightContain holds
  -- of the hash of every blob.
  pub might_contain-rebuild :
      IsBloom B
      → (blobs : List ContentBlob) (n : ℕ) (rate : B.Rate) (f : B.Filter) (cap : ℕ) (s : Store)
        (hash : Bytes) {e : Entry}
      → latest B hash blobs ≡ some e
      → might_contain B (some (rebuild B blobs n rate (open_index f cap s))) hash ≡ true
  unfolding might_contain test_bloom
  might_contain-rebuild bloom blobs n rate f cap s hash h =
      let (g, c, same) = rebuild-open_index blobs n rate f cap s in
      ap (λ idx. might_contain B (some idx) hash) same ∙ test-latest bloom hash blobs g h

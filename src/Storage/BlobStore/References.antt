-- ===== src/Storage/BlobStore/References.antt =====
-- internal/storage/blob_store.go: StoreOrRef counts one more reference.
use little_big_files.Common.{
  ℕ, ◌≡◌, refl, subst, Bool, true, false, Option, none, some, List, Bytes, inr, if◌then◌else◌,
}
use little_big_files.Common.Result.{Result, ok, err}
use little_big_files.Common.Exec.{Exec, pure}
use little_big_files.Common.Triple.{Triple, Post, Post-if, Triple-bind, Triple-before}
use little_big_files.Common.Dict.{bytes_eq}
use little_big_files.Storage.Record.{RecordType}
use little_big_files.Storage.Segment.{Location}
use little_big_files.Storage.Segment.Append.{append_direct}
use little_big_files.Storage.SegmentIndex.{IndexEntry}
use little_big_files.Dedup.{BloomLibrary, Entry, ContentBlob, might_contain, lookup_entry}
use little_big_files.Metadata.Blobs.{
  get_blob, OneMore, increment_ref_count_if_exists, insert_blob_or_increment, increment-OneMore,
  increment-some, increment-none, insert_blob-OneMore,
}
use little_big_files.Metadata.Tables.{Tables}
use little_big_files.Metadata.Transaction.{
  Database, tx_get_blob, tx_increment_ref_count_if_exists, tx_insert_blob_or_increment,
}
use little_big_files.Metadata.Transaction.Rules.{
  Holds, Live, Live-Holds, Holds-map, Lawful, Triple-on_blobs, Triple-then,
}
use little_big_files.Storage.BlobStore.{
  Encoder, Shard, get_db, set_db, append_segment, write_index, append_index, index_put, store_new,
  store_or_ref, after_insert, new_blob, new_entry, ref_existing, by_table, by_index, store_hash,
  encode_blob,
}

-- The same packages and files.
abbrev pub Unfiled : Tables → Tables → Type 0
Unfiled t u = (u.package_files ≡ t.package_files) × (u.packages ≡ t.packages)

module _ (B : BloomLibrary) (sha256 : Bytes → Bytes) (encoder : Option Encoder) where
  abbrev World : Type 0
  World = Shard B sha256 encoder

  abbrev db_of : World → Database
  db_of = get_db B sha256 encoder

  abbrev with_db : Database → World → World
  with_db = set_db B sha256 encoder

  pub db_law : Lawful (get_db B sha256 encoder) (set_db B sha256 encoder)
  db_law d s = refl

  -- One more reference to a hash than before, and the same files.
  abbrev pub Counted : Bytes → (Tables → Type 0) → Tables → Type 0
  Counted hash R u = (t : Tables) × R t × OneMore hash t.blobs u.blobs × Unfiled t u

  module _ (R : Tables → Type 0) (F : Tables → Type 0) where
    -- An error leaves F, which holds of the tables before and of those with the reference counted.
    abbrev Weaker : Bytes → Type 0
    Weaker hash = ((t : Tables) → R t → F t) × ((u : Tables) → Counted hash R u → F u)

    -- The hash comes back, and it has one more reference than before.
    abbrev Referred : Bytes → Bytes × Bool → World → Type 0
    Referred hash (h, fresh) s = (h ≡ hash) × Live db_of (Counted hash R) s

    append_segment-Holds :
        (bytes : Bytes)
        → ((t : Tables) → R t → F t)
        → Triple
            (Holds db_of R)
            (append_segment B sha256 encoder bytes)
            (λ _. Holds db_of R)
            (Holds db_of F)
    unfolding append_segment
    append_segment-Holds bytes weaker = record {
      runs = λ s h. go s h (append_direct bytes s.segments).0;
    }
      where
        go :
            (s : World)
            → Holds db_of R s
            → (r : Result Location)
            → Post
                (λ _. Holds db_of R)
                (Holds db_of F)
                (r, record s { segments = (append_direct bytes s.segments).1 })
        go s h (ok loc) = record { held = h.held }
        go s h (err e) = record { held = (Holds-map db_of weaker s h).held }

    append_index-Live :
        (hash : Bytes) (id : ℕ) (e : IndexEntry)
        → Weaker hash
        → Triple
            (Live db_of (Counted hash R))
            (append_index B sha256 encoder id e)
            (λ _. Live db_of (Counted hash R))
            (Holds db_of F)
    unfolding append_index
    append_index-Live hash id e weaker = record {
      runs = λ s h. go s h (write_index B sha256 encoder id e s.index_files s.index_outcomes);
    }
      where
        go :
            (s : World)
            → Live db_of (Counted hash R) s
            → (w : Result (Unit {0}) × Option (List (ℕ × Bytes)) × List (Option Bytes))
            → Post
                (λ _. Live db_of (Counted hash R))
                (Holds db_of F)
                (w.0, record s { index_files = w.1; index_outcomes = w.2 })
        go s h (ok x, files, outcomes) = record { going = h.going; here = h.here }
        go s h (err m, files, outcomes) = record { held = inr (weaker.1 s.db.tables h.here) }

    after_insert-Referred :
        (hash : Bytes) (b : ContentBlob) (e : IndexEntry) (inserted : Bool)
        → Weaker hash
        → Triple
            (Live db_of (Counted hash R))
            (after_insert B sha256 encoder hash b e inserted)
            (Referred hash)
            (Holds db_of F)
    unfolding after_insert index_put
    after_insert-Referred hash b e false weaker = record { runs = λ s h. (refl, h) }
    after_insert-Referred hash b e true weaker =
        Triple-bind _ _ (append_index-Live hash b.segment_id e weaker)
          λ _. record { runs = λ s h. (refl, record { going = h.going; here = h.here }) }

    store_new-Referred :
        (hash content : Bytes) (type : RecordType) (supplier_id : ℕ)
        → Weaker hash
        → Triple
            (Holds db_of R)
            (store_new B sha256 encoder hash content type supplier_id)
            (Referred hash)
            (Holds db_of F)
    unfolding store_new tx_insert_blob_or_increment
    store_new-Referred hash content type supplier_id weaker =
        Triple-bind _ _ (append_segment-Holds bytes weaker.0) λ loc.
          Triple-bind _ _
            (Triple-on_blobs db_of with_db db_law (insert_blob_or_increment (blob loc))
              λ t r. (t, r, insert_blob-OneMore (blob loc) t.blobs refl, (refl, refl)))
            λ inserted. after_insert-Referred hash (blob loc) (entry loc) inserted weaker
      where
        bytes : Bytes
        bytes = encode_blob encoder content type

        blob : Location → ContentBlob
        blob loc = new_blob B sha256 encoder hash content bytes loc

        entry : Location → IndexEntry
        entry loc = new_entry B sha256 encoder hash content bytes supplier_id loc

  ref_existing-Referred :
      (R F : Tables → Type 0) (hash : Bytes) (o : Option ContentBlob)
      (next : Exec World (Bytes × Bool))
      → Triple (Holds db_of R) next (Referred R F hash) (Holds db_of F)
      → Triple
          (Holds db_of (λ t. R t × (get_blob hash t.blobs ≡ o)))
          (ref_existing B sha256 encoder hash o next)
          (Referred R F hash)
          (Holds db_of F)
  unfolding ref_existing index_put tx_increment_ref_count_if_exists
  ref_existing-Referred R F hash none next h = Triple-before next (Holds-map db_of (λ t r. r.0)) h
  ref_existing-Referred R F hash (some b) next h =
      Triple-bind _ _
        (Triple-on_blobs db_of with_db db_law {Q = λ _. Counted hash R}
          (increment_ref_count_if_exists hash)
          λ t (r, e).
            (t, r, increment-OneMore hash t.blobs (increment-some hash t.blobs e), (refl, refl)))
        λ found. record { runs = λ s c. (refl, record { going = c.going; here = c.here }) }

  module _ (R F : Tables → Type 0) (hash : Bytes) where
    abbrev AfterUpdate : Bool → Tables → Type 0
    AfterUpdate true u = Counted hash R u
    AfterUpdate false u = R u

    increment-AfterUpdate :
        (t : Tables) (updated : Bool)
        → R t
        → (increment_ref_count_if_exists hash t.blobs).0 ≡ updated
        → AfterUpdate updated (record t { blobs = (increment_ref_count_if_exists hash t.blobs).1 })
    increment-AfterUpdate t true r e = (t, r, increment-OneMore hash t.blobs e, (refl, refl))
    increment-AfterUpdate t false r e = rw (increment-none hash t.blobs e) r

    updated-Referred :
        (next : Exec World (Bytes × Bool)) (updated : Bool)
        → Triple (Holds db_of R) next (Referred R F hash) (Holds db_of F)
        → Triple
            (Live db_of (AfterUpdate updated))
            (if updated then pure (hash, false) else next)
            (Referred R F hash)
            (Holds db_of F)
    updated-Referred next true h = record { runs = λ s c. (refl, c) }
    updated-Referred next false h = Triple-before next (Live-Holds db_of R) h

  module _ (R F : Tables → Type 0) (hash : Bytes) (next : Exec World (Bytes × Bool)) where
    abbrev Continues : Type 0
    Continues = Triple (Holds db_of R) next (Referred R F hash) (Holds db_of F)

    by_table-Referred :
        Continues
        → Triple
            (Holds db_of R)
            (by_table B sha256 encoder hash next)
            (Referred R F hash)
            (Holds db_of F)
    unfolding by_table tx_get_blob
    by_table-Referred h =
        Triple-then db_of with_db _ _
          (Triple-on_blobs db_of with_db db_law (λ t. (get_blob hash t, t)) λ t r. (r, refl))
          λ existing. ref_existing-Referred R F hash existing next h

    by_index-Referred :
        (o : Option Entry)
        → Continues
        → Triple
            (Holds db_of R)
            (by_index B sha256 encoder hash o next)
            (Referred R F hash)
            (Holds db_of F)
    unfolding by_index tx_increment_ref_count_if_exists
    by_index-Referred none h = by_table-Referred h
    by_index-Referred (some _) h =
        Triple-bind _ _
          (Triple-on_blobs db_of with_db db_law {Q = AfterUpdate R F hash}
            (increment_ref_count_if_exists hash) λ t r. increment-AfterUpdate R F hash t _ r refl)
          λ updated.
            updated-Referred R F hash (by_table B sha256 encoder hash next) updated
              (by_table-Referred h)

  store_hash-Referred :
      (R F : Tables → Type 0) (hash content : Bytes) (type : RecordType) (supplier_id : ℕ)
      → Weaker R F hash
      → Triple
          (Holds db_of R)
          (store_hash B sha256 encoder hash content type supplier_id)
          (Referred R F hash)
          (Holds db_of F)
  unfolding store_hash
  store_hash-Referred R F hash content type supplier_id weaker = record {
    runs = λ s h.
        Post-if _ _ (might_contain B s.index hash) _ _
          (λ _. (by_index-Referred R F hash _ (lookup_entry B s.index hash) new).runs s h)
          (λ _. new.runs s h);
  }
    where
      new :
          Triple
            (Holds db_of R)
            (store_new B sha256 encoder hash content type supplier_id)
            (Referred R F hash)
            (Holds db_of F)
      new = store_new-Referred R F hash content type supplier_id weaker

  -- StoreOrRef from tables where R holds.
  pub store_or_ref-Counted :
      (R F : Tables → Type 0) (content : Bytes) (type : RecordType) (supplier_id : ℕ)
      → ((t : Tables) → R t → F t)
      → ((u : Tables) → Counted (sha256 content) R u → F u)
      → Triple
          (Holds (get_db B sha256 encoder) R)
          (store_or_ref B sha256 encoder content type supplier_id)
          (λ (h, fresh) s.
            (h ≡ sha256 content) × Live (get_db B sha256 encoder) (Counted (sha256 content) R) s)
          (Holds (get_db B sha256 encoder) F)
  unfolding store_or_ref
  store_or_ref-Counted R F content type supplier_id before counted =
      store_hash-Referred R F (sha256 content) content type supplier_id (before, counted)

-- When StoreOrRef succeeds it returns the hash of the content, and in the transaction's table that
-- hash has one reference more and every other hash as many as before, whatever the Bloom filter and
-- the hot index say.
pub store_or_ref-OneMore :
    (B : BloomLibrary) (sha256 : Bytes → Bytes) (encoder : Option Encoder) (content : Bytes)
    (type : RecordType) (supplier_id : ℕ) (s u : Shard B sha256 encoder) (hash : Bytes)
    (fresh : Bool)
    → store_or_ref B sha256 encoder content type supplier_id s ≡ (ok (hash, fresh), u)
    → (hash ≡ sha256 content) × OneMore (sha256 content) s.db.tables.blobs u.db.tables.blobs
store_or_ref-OneMore B sha256 encoder content type supplier_id s u hash fresh e = go (
    subst
      (Post
        (λ (h, f) v.
          (h ≡ sha256 content)
          × Live (get_db B sha256 encoder) (Counted B sha256 encoder (sha256 content) Start) v)
        (Holds (get_db B sha256 encoder) (λ _. Unit {0})))
      e
      ((store_or_ref-Counted B sha256 encoder Start (λ _. Unit {0}) content type supplier_id
          (λ t r. tt) (λ u c. tt)).runs
        s record { held = inr refl }))
  where
    Start : Tables → Type 0
    Start t = t ≡ s.db.tables

    go :
        (hash ≡ sha256 content)
          × Live (get_db B sha256 encoder) (Counted B sha256 encoder (sha256 content) Start) u
        → (hash ≡ sha256 content) × OneMore (sha256 content) s.db.tables.blobs u.db.tables.blobs
    go (h, l) =
        let (t, r, more, _) = l.here in
        (h, subst (λ (t : Tables). OneMore (sha256 content) t.blobs u.db.tables.blobs) r more)

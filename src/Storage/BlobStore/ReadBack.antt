-- ===== src/Storage/BlobStore/ReadBack.antt =====
-- internal/storage/blob_store.go: ReadBlob after StoreOrRef.
use little_big_files.Common.{
  ℕ, ◌^◌, ◌<◌, ◌≡◌, ◌∙◌, refl, ap, subst, Bool, true, false, Option, none, some, List, Bytes,
  length, inr,
}
use little_big_files.Common.Result.{Result, ok, err}
use little_big_files.Common.Exec.{Exec}
use little_big_files.Common.Triple.{
  Triple-after, Triple, Post, Post-if, Triple-if, Triple-bind, Triple-any, Triple-pure,
}
use little_big_files.Storage.Record.{RecordType, encode_record}
use little_big_files.Storage.SegmentIndex.{IndexEntry}
use little_big_files.Storage.Segment.{SegmentManager, Location}
use little_big_files.Storage.Segment.Opening.{IsWellFormed}
use little_big_files.Storage.Segment.Append.{append_direct, append_locked}
use little_big_files.Storage.Segment.Append.ReadBack.{Stored-read, append_locked-Stored}
use little_big_files.Storage.Segment.Read.{read_record}
use little_big_files.Dedup.{BloomLibrary, Entry, ContentBlob, might_contain, lookup_entry}
use little_big_files.Metadata.Tables.{Tables}
use little_big_files.Metadata.Blobs.{
  Blobs, increment_ref_count_if_exists, get_blob, insert_blob_or_increment, insert_blob-inserted,
}
use little_big_files.Metadata.Transaction.{
  Database, on_blobs, tx_get_blob, tx_increment_ref_count_if_exists, tx_insert_blob_or_increment,
}
use little_big_files.Metadata.Transaction.Rules.{Holds, Live, Triple-on_blobs}
use little_big_files.Storage.BlobStore.{
  Encoder, choose, encode_blob, decoded, Shard, tx, append_segment, read_blob, write_index,
  append_index, after_insert, new_blob, new_entry, index_put, store_new, ref_existing, by_table,
  by_index, store_hash, store_or_ref,
}
use little_big_files.Storage.BlobStore.Codec.{IsFaithful, decoded-choose, choose-fits}

module _ (B : BloomLibrary) (sha256 : Bytes → Bytes) (encoder : Option Encoder) where
  abbrev World : Type 0
  World = Shard B sha256 encoder

  abbrev Ready : World → Type 0
  Ready s = IsWellFormed s.segments

  abbrev Silent : {A : Type 0} → A → World → Type 0
  Silent a s = Ready s

  -- A call of the database leaves the segments.
  tx-leaves :
      {A : Type 0} (F : SegmentManager → Type 0) (Q : A → Tables → Type 0) (m : Exec Database A)
      → Triple
          (Holds (λ d. d) (λ _. Unit {0}))
          m
          (λ a. Live (λ d. d) (Q a))
          (Holds (λ d. d) (λ _. Unit {0}))
      → Triple
          (λ (s : World). F s.segments)
          (tx B sha256 encoder m)
          (λ a s. F s.segments × Q a s.db.tables)
          (λ _. Unit {0})
  tx-leaves {A} F Q m h = record {
    runs = λ s p. go s p (m s.db) (h.runs s.db record { held = inr tt });
  }
    where
      go :
          (s : World)
          → F s.segments
          → (r : Result A × Database)
          → Post (λ a. Live (λ d. d) (Q a)) (Holds (λ d. d) (λ _. Unit {0})) r
          → Post
              (λ a (s : World). F s.segments × Q a s.db.tables)
              (λ _. Unit {0})
              (r.0, record s { db = r.1 })
      go s p (ok a, d) q = (p, q.here)
      go s p (err e, d) q = tt

  module _ (content : Bytes) (type : RecordType) (supplier_id : ℕ) where
    abbrev bytes : Bytes
    bytes = encode_blob encoder content type

    -- A new blob has a row, from which it reads back.
    abbrev ReadsBack : Bytes × Bool → World → Type 0
    ReadsBack (hash, fresh) s =
        fresh ≡ true
        → (b : ContentBlob) × (get_blob hash s.db.tables.blobs ≡ some b)
          × (read_blob B sha256 encoder s b ≡ ok content)

    abbrev At : Location → SegmentManager → Type 0
    At loc sm = read_record sm loc.segment_id loc.offset ≡ ok (choose encoder content type)

    append_segment-At :
        length content < 2 ^ 32
        → Triple Ready
            (append_segment B sha256 encoder (encode_blob encoder content type))
            (λ loc s. At loc s.segments)
            (λ _. Unit {0})
    unfolding append_segment encode_blob append_direct
    append_segment-At short = record { runs = λ s wf. go s wf _ refl }
      where
        magic : ℕ
        magic = (choose encoder content type).0

        payload : Bytes
        payload = (choose encoder content type).1

        go :
            (s : World)
            → IsWellFormed s.segments
            → (r : Result Location × SegmentManager)
            → append_locked (encode_record magic payload) true s.segments ≡ r
            → Post
                (λ loc (s : World). At loc s.segments)
                (λ _. Unit {0})
                (r.0, record s { segments = r.1 })
        go s wf (ok loc, sm) e =
            let (hm, hp) = choose-fits encoder content type short in
            Stored-read magic payload loc.segment_id loc.offset sm hm hp
              (append_locked-Stored (encode_record magic payload) true s.segments sm loc wf e)
        go s wf (err m, sm) e = tt

    abbrev Stores : Exec World (Bytes × Bool) → Type 0
    Stores m = Triple Ready m ReadsBack (λ _. Unit {0})

    silent :
        {A : Type 0} (f : Blobs → A × Blobs)
        → Triple Ready (tx B sha256 encoder (on_blobs f)) (λ _. Ready) (λ _. Unit {0})
    silent f =
        Triple-after _ (λ a s q. q.0) (λ s q. q)
          (tx-leaves IsWellFormed (λ _ _. Unit {0}) (on_blobs f)
            (Triple-on_blobs (λ d. d) (λ d _. d) (λ d s. refl) f λ t r. tt))

    -- The index files are apart from the segments and the database.
    append_index-leaves :
        (P : SegmentManager → Database → Type 0) (id : ℕ) (e : IndexEntry)
        → Triple
            (λ (s : World). P s.segments s.db)
            (append_index B sha256 encoder id e)
            (λ _ s. P s.segments s.db)
            (λ _. Unit {0})
    unfolding append_index
    append_index-leaves P id e = record {
      runs = λ s p. go s p (write_index B sha256 encoder id e s.index_files s.index_outcomes);
    }
      where
        go :
            (s : World)
            → P s.segments s.db
            → (w : Result (Unit {0}) × Option (List (ℕ × Bytes)) × List (Option Bytes))
            → Post
                (λ _ (s : World). P s.segments s.db)
                (λ _. Unit {0})
                (w.0, record s { index_files = w.1; index_outcomes = w.2 })
        go s p (ok x, files, outcomes) = p
        go s p (err m, files, outcomes) = tt

    -- The row of a blob that was inserted.
    abbrev Inserted : ContentBlob → Bool → Tables → Type 0
    Inserted b inserted t = inserted ≡ true → get_blob b.content_hash t.blobs ≡ some b

    after_insert-ReadsBack :
        (hash : Bytes) (loc : Location) (e : IndexEntry) (inserted : Bool)
        → IsFaithful encoder
        → Triple
            (λ s.
              At loc s.segments
              × Inserted (new_blob B sha256 encoder hash content bytes loc) inserted s.db.tables)
            (after_insert B sha256 encoder hash
              (new_blob B sha256 encoder hash content bytes loc)
              e
              inserted)
            ReadsBack
            (λ _. Unit {0})
    unfolding after_insert index_put read_blob new_blob
    after_insert-ReadsBack hash loc e false faithful =
        Triple-pure (hash, false) λ s q h. absurd (cc h)
    after_insert-ReadsBack hash loc e true faithful =
        Triple-bind _ _
          (append_index-leaves
            (λ sm d.
              At loc sm × Inserted (new_blob B sha256 encoder hash content bytes loc) true d.tables)
            loc.segment_id e)
          λ _. record {
            runs = λ s q h. (
              new_blob B sha256 encoder hash content bytes loc,
              q.1 refl,
              ap (decoded encoder) q.0 ∙ decoded-choose encoder content type faithful,
            );
          }

    module _ (faithful : IsFaithful encoder) (short : length content < 2 ^ 32) where
      store_new-ReadsBack :
          (hash : Bytes) → Stores (store_new B sha256 encoder hash content type supplier_id)
      unfolding store_new tx_insert_blob_or_increment
      store_new-ReadsBack hash = Triple-bind _ _ (append_segment-At short) λ loc.
          Triple-bind _ _
            (tx-leaves (At loc) (Inserted (blob loc)) _ (
              Triple-on_blobs (λ d. d) (λ d _. d) (λ d s. refl)
                (insert_blob_or_increment (blob loc))
                λ t r. insert_blob-inserted (blob loc) t.blobs))
            λ inserted.
              after_insert-ReadsBack hash loc
                (new_entry B sha256 encoder hash content bytes supplier_id loc) inserted faithful
        where
          blob : Location → ContentBlob
          blob loc = new_blob B sha256 encoder hash content bytes loc

    ref_existing-ReadsBack :
        (hash : Bytes) (o : Option ContentBlob) (next : Exec World (Bytes × Bool))
        → Stores next
        → Stores (ref_existing B sha256 encoder hash o next)
    unfolding ref_existing
    ref_existing-ReadsBack hash none next h = h
    ref_existing-ReadsBack hash (some b) next h =
        Triple-bind {R = λ _ _. Unit {0}} _ _
          (Triple-any (tx B sha256 encoder (tx_increment_ref_count_if_exists hash)))
          λ _.
            Triple-bind {R = λ _ _. Unit {0}} _ _ (Triple-any (index_put B sha256 encoder hash b))
              λ _. Triple-pure (hash, false) λ s _ e. absurd (cc e)

    by_table-ReadsBack :
        (hash : Bytes) (next : Exec World (Bytes × Bool))
        → Stores next
        → Stores (by_table B sha256 encoder hash next)
    unfolding by_table tx_get_blob
    by_table-ReadsBack hash next h =
        Triple-bind _ _ (silent _) λ o. ref_existing-ReadsBack hash o next h

    by_index-ReadsBack :
        (hash : Bytes) (o : Option Entry) (next : Exec World (Bytes × Bool))
        → Stores next
        → Stores (by_index B sha256 encoder hash o next)
    unfolding by_index tx_increment_ref_count_if_exists
    by_index-ReadsBack hash none next h = by_table-ReadsBack hash next h
    by_index-ReadsBack hash (some e) next h =
        Triple-bind _ _ (silent (increment_ref_count_if_exists hash)) λ updated.
          Triple-if updated _ _ (λ _. Triple-pure (hash, false) λ s _ e. absurd (cc e))
            (λ _. by_table-ReadsBack hash next h)

    store_hash-ReadsBack :
        IsFaithful encoder
        → length content < 2 ^ 32
        → (hash : Bytes) → Stores (store_hash B sha256 encoder hash content type supplier_id)
    unfolding store_hash
    store_hash-ReadsBack faithful short hash = record {
      runs = λ s wf.
          Post-if ReadsBack (λ _. Unit {0}) (might_contain B s.index hash) _ _
            (λ _. (by_index-ReadsBack hash (lookup_entry B s.index hash) _ new).runs s wf)
            (λ _. new.runs s wf);
    }
      where
        new : Stores (store_new B sha256 encoder hash content type supplier_id)
        new = store_new-ReadsBack faithful short hash

-- When StoreOrRef reports a blob as new, there is a row for the returned hash, and ReadBlob of that
-- row returns the content, with and without compression: the segments are well-formed, the content
-- is shorter than 2 ^ 32 bytes, and what zstd encodes is a frame that decodes to the same bytes.
pub read_blob-store_or_ref :
    (B : BloomLibrary) (sha256 : Bytes → Bytes) (encoder : Option Encoder) (content : Bytes)
    (type : RecordType) (supplier_id : ℕ) (s u : Shard B sha256 encoder) (hash : Bytes)
    → IsFaithful encoder
    → length content < 2 ^ 32
    → IsWellFormed s.segments
    → store_or_ref B sha256 encoder content type supplier_id s ≡ (ok (hash, true), u)
    → (b : ContentBlob) × (get_blob hash u.db.tables.blobs ≡ some b)
      × (read_blob B sha256 encoder u b ≡ ok content)
unfolding store_or_ref
read_blob-store_or_ref B sha256 encoder content type supplier_id s u hash faithful short wf e =
    subst (Post (ReadsBack B sha256 encoder content type supplier_id) (λ _. Unit {0})) e
      ((store_hash-ReadsBack B sha256 encoder content type supplier_id faithful short
          (sha256 content)).runs
        s wf)
      refl

-- ===== src/Metadata/Blobs.antt =====
-- internal/metadata/repo.go: the table content_blobs of a transaction, by its primary key.
use little_big_files.Common.{
  ℕ, ◌+◌, ◌≡◌, ◌∙◌, Bool, true, false, Option, none, some, List, Bytes, arith, refl, subst,
  Bool-cases, inl, inr, if◌then◌else◌,
}
use little_big_files.Common.Dict.{
  lookup, insert, bytes_eq, ◌=?◌, lookup-insert, lookup-insert_self, bytes_beq→eq,
}
use little_big_files.Dedup.{ContentBlob}

abbrev pub Blobs : Type 0
Blobs = List (Bytes × ContentBlob)

-- GetBlob
unfoldable pub get_blob : Bytes → Blobs → Option ContentBlob
get_blob hash t = lookup hash t

abbrev pub more : ContentBlob → ContentBlob
more b = record b { ref_count = b.ref_count + 1 }

increment_found : Bytes → Option ContentBlob → Blobs → Bool × Blobs
increment_found hash none t = (false, t)
increment_found hash (some b) t = (true, insert hash (more b) t)

-- IncrementRefCountIfExists; IncrementRefCount does the same and does not tell.
unfoldable pub increment_ref_count_if_exists : Bytes → Blobs → Bool × Blobs
unfolding increment_found
increment_ref_count_if_exists hash t = increment_found hash (get_blob hash t) t

insert_new : ContentBlob → Option ContentBlob → Blobs → Bool × Blobs
insert_new blob none t = (true, insert blob.content_hash blob t)
insert_new blob (some b) t = (false, insert blob.content_hash (more b) t)

-- InsertBlobOrIncrement: whether the row is new.
unfoldable pub insert_blob_or_increment : ContentBlob → Blobs → Bool × Blobs
unfolding insert_new
insert_blob_or_increment blob t = insert_new blob (get_blob blob.content_hash t) t

-- The reference count of a hash, 0 without a row.
abbrev pub references : Option ContentBlob → ℕ
references none = 0
references (some b) = b.ref_count

abbrev pub count : Bytes → Blobs → ℕ
count hash t = references (get_blob hash t)

-- One more reference to a hash, and no other.
abbrev pub OneMore : Bytes → Blobs → Blobs → Type 0
OneMore hash t u = (k : Bytes) → count k u ≡ count k t + (if hash =? k then 1 else 0)

insert-OneMore :
    (hash : Bytes) (b : ContentBlob) (t : Blobs)
    → b.ref_count ≡ count hash t + 1
    → OneMore hash t (insert hash b t)
unfolding get_blob
insert-OneMore hash b t h k = elim (Bool-cases (hash =? k)) [
  | inl same ↦
      rw (lookup-insert hash k b t, same)
        (subst (λ j. b.ref_count ≡ count j t + 1) (bytes_beq→eq hash k same) h)
  | inr differs ↦ rw (lookup-insert hash k b t, differs) (omega arith)
]

-- An increment that finds its row counts one more reference.
pub increment-OneMore :
    (hash : Bytes) (t : Blobs)
    → (increment_ref_count_if_exists hash t).0 ≡ true
    → OneMore hash t (increment_ref_count_if_exists hash t).1
unfolding increment_ref_count_if_exists increment_found
increment-OneMore hash t = go (get_blob hash t) refl
  where
    go :
        (o : Option ContentBlob)
        → get_blob hash t ≡ o
        → (increment_found hash o t).0 ≡ true
        → OneMore hash t (increment_found hash o t).1
    go none e h = cc h
    go (some b) e h = insert-OneMore hash (more b) t (rw e refl)

-- So does an insertion of a row with one reference, be it new or not.
pub insert_blob-OneMore :
    (blob : ContentBlob) (t : Blobs)
    → blob.ref_count ≡ 1
    → OneMore blob.content_hash t (insert_blob_or_increment blob t).1
unfolding insert_blob_or_increment insert_new
insert_blob-OneMore blob t one = go (get_blob blob.content_hash t) refl
  where
    go :
        (o : Option ContentBlob)
        → get_blob blob.content_hash t ≡ o
        → OneMore blob.content_hash t (insert_new blob o t).1
    go none e = insert-OneMore blob.content_hash blob t (rw e one)
    go (some b) e = insert-OneMore blob.content_hash (more b) t (rw e refl)

pub increment-some :
    (hash : Bytes) (t : Blobs) {b : ContentBlob}
    → get_blob hash t ≡ some b
    → (increment_ref_count_if_exists hash t).0 ≡ true
unfolding increment_ref_count_if_exists increment_found
increment-some hash t e = rw (e, increment_ref_count_if_exists, increment_found) refl

-- An increment that finds no row changes nothing.
pub increment-none :
    (hash : Bytes) (t : Blobs)
    → (increment_ref_count_if_exists hash t).0 ≡ false
    → (increment_ref_count_if_exists hash t).1 ≡ t
unfolding increment_ref_count_if_exists increment_found
increment-none hash t = go (get_blob hash t)
  where
    go :
        (o : Option ContentBlob)
        → (increment_found hash o t).0 ≡ false
        → (increment_found hash o t).1 ≡ t
    go none h = refl
    go (some b) h = cc h

-- The rows that were there stay there.
pub increment-present :
    (hash k : Bytes) (t : Blobs)
    → ((b : ContentBlob) × (get_blob k t ≡ some b))
    → (b : ContentBlob) × (get_blob k (increment_ref_count_if_exists hash t).1 ≡ some b)
unfolding increment_ref_count_if_exists increment_found get_blob
increment-present hash k t (b, e) = go (get_blob hash t)
  where
    go :
        (o : Option ContentBlob)
        → (c : ContentBlob) × (get_blob k (increment_found hash o t).1 ≡ some c)
    go none = (b, e)
    go (some c) = elim (Bool-cases (hash =? k)) [
      | inl same ↦ (more c, lookup-insert hash k (more c) t ∙ rw same refl)
      | inr differs ↦ (b, lookup-insert hash k (more c) t ∙ rw differs e)
    ]

-- A row that is new is the one that was given.
pub insert_blob-inserted :
    (blob : ContentBlob) (t : Blobs)
    → (insert_blob_or_increment blob t).0 ≡ true
    → get_blob blob.content_hash (insert_blob_or_increment blob t).1 ≡ some blob
unfolding insert_blob_or_increment insert_new get_blob
insert_blob-inserted blob t = go (get_blob blob.content_hash t)
  where
    go :
        (o : Option ContentBlob)
        → (insert_new blob o t).0 ≡ true
        → lookup blob.content_hash (insert_new blob o t).1 ≡ some blob
    go none h = lookup-insert_self blob.content_hash blob t
    go (some b) h = absurd (cc h)

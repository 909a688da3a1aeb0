-- ===== src/Metadata/Balance/Recompute.antt =====
-- internal/metadata/repo.go: RecomputeRefCounts.
use little_big_files.Common.{
  ℕ, ◌+◌, if◌then◌else◌, ◌≡◌, ◌∙◌, refl, sym, ap, subst, true, false, Option, none, some, List, [],
  ◌∷◌, Bytes, All, arith, inl, inr, Bool-cases,
}
use little_big_files.Common.Result.{ok}
use little_big_files.Common.Triple.{Post, Post-if}
use little_big_files.Common.Dict.{lookup, bytes_eq, ◌=?◌, =?-ne, eq→bytes_beq, bytes_beq→eq}
use little_big_files.Dedup.{ContentBlob}
use little_big_files.Metadata.Blobs.{Blobs, get_blob, count}
use little_big_files.Metadata.Tables.{Tables, PackageFile, is_some}
use little_big_files.Metadata.Transaction.{Database, head_outcome}
use little_big_files.Metadata.Transaction.Queries.{
  rows, one_more, group_counts, reset_counts, counted_by, join_counts, recompute_ref_counts,
  execute,
}

-- Every blob counts the rows of package_files with its hash.
pub record Balanced (t : Tables) : Type 0 where
  pub counts : (k : Bytes) → count k t.blobs ≡ rows k t.package_files

-- The foreign key of package_files: the blob of every row is there.
abbrev pub IsFiled : Blobs → List PackageFile → Type 0
IsFiled blobs = All (λ (f : PackageFile). is_some (get_blob f.blob_hash blobs) ≡ true)

abbrev if_present : Option ContentBlob → ℕ → ℕ
if_present none n = 0
if_present (some b) n = n

-- A group counts what the rows come to.
abbrev or_zero : Option ℕ → ℕ
or_zero none = 0
or_zero (some n) = n

lookup-one_more :
    (hash k : Bytes) (groups : List (Bytes × ℕ))
    → or_zero (lookup k (one_more hash groups))
      ≡ or_zero (lookup k groups) + (if hash =? k then 1 else 0)
unfolding one_more lookup
lookup-one_more hash k [] = elim (Bool-cases (hash =? k)) [
  | inl same ↦ rw same refl
  | inr differs ↦ rw differs refl
]
lookup-one_more hash k ((h, n) ∷ groups) = elim (Bool-cases (h =? hash)) [
  | inl same ↦ ground (arith, same, ap (λ j. j =? k) (bytes_beq→eq h hash same))
  | inr differs ↦ elim (Bool-cases (h =? k)) [
    | inl here ↦
        let apart : (hash =? k) ≡ false =
          =?-ne hash k (λ e. cc (differs, eq→bytes_beq h hash (bytes_beq→eq h k here ∙ sym e))) in
        ground (arith, differs, here, apart)
    | inr elsewhere ↦ ground (arith, differs, elsewhere, lookup-one_more hash k groups)
  ]
]

lookup-group_counts :
    (k : Bytes) (files : List PackageFile) → or_zero (lookup k (group_counts files)) ≡ rows k files
unfolding group_counts rows lookup
lookup-group_counts k [] = refl
lookup-group_counts k (f ∷ files) =
    lookup-one_more f.blob_hash k (group_counts files)
    ∙ ap (λ n. n + (if f.blob_hash =? k then 1 else 0)) (lookup-group_counts k files)

counted_by-zero :
    (o : Option ℕ) (b : ContentBlob) → b.ref_count ≡ 0 → (counted_by o b).ref_count ≡ or_zero o
unfolding counted_by
counted_by-zero none b h = h
counted_by-zero (some n) b h = refl

count-recounted :
    (files : List PackageFile) (blobs : Blobs) (k : Bytes)
    → count k (join_counts (group_counts files) (reset_counts blobs))
      ≡ if_present (get_blob k blobs) (rows k files)
unfolding join_counts reset_counts get_blob lookup
count-recounted files [] k = refl
count-recounted files ((hash, b) ∷ blobs) k = elim (Bool-cases (hash =? k)) [
  | inl same ↦ rw same (
      counted_by-zero (lookup hash (group_counts files)) (record b { ref_count = 0 }) refl
      ∙ lookup-group_counts hash files
      ∙ ap (λ j. rows j files) (bytes_beq→eq hash k same))
  | inr differs ↦ rw differs (count-recounted files blobs k)
]

rows_absent :
    (files : List PackageFile) (blobs : Blobs) (k : Bytes)
    → IsFiled blobs files
    → get_blob k blobs ≡ none
    → rows k files ≡ 0
unfolding rows
rows_absent [] blobs k h e = refl
rows_absent (f ∷ files) blobs k (p, h) e = elim (Bool-cases (f.blob_hash =? k)) [
  | inl same ↦
      absurd
        (found (subst (λ j. is_some (get_blob j blobs) ≡ true) (bytes_beq→eq f.blob_hash k same) p))
  | inr differs ↦ rw differs (omega (arith, rows_absent files blobs k h e))
]
  where
    found : is_some (get_blob k blobs) ≡ true → ⊥
    found q = cc (q, ap is_some e)

if_present-rows :
    (files : List PackageFile) (blobs : Blobs) (k : Bytes) (o : Option ContentBlob)
    → get_blob k blobs ≡ o
    → IsFiled blobs files
    → if_present o (rows k files) ≡ rows k files
if_present-rows files blobs k none e h = sym (rows_absent files blobs k h e)
if_present-rows files blobs k (some b) e h = refl

-- After RecomputeRefCounts every blob counts the rows of package_files with its hash, whatever it
-- counted before, when the blob of every row is there.
pub recompute_ref_counts-Balanced :
    (d e : Database)
    → IsFiled d.tables.blobs d.tables.package_files
    → recompute_ref_counts d ≡ (ok tt, e)
    → Balanced e.tables
unfolding recompute_ref_counts execute
recompute_ref_counts-Balanced d e h r =
    subst (Post (λ _ (u : Database). Balanced u.tables) (λ _. Unit {0})) r
      (Post-if _ _ (head_outcome d.outcomes) _ _ (λ _. balanced) (λ _. tt))
  where
    balanced : Balanced (record d.tables {
      blobs = join_counts (group_counts d.tables.package_files) (reset_counts d.tables.blobs);
    })
    balanced = record {
      counts = λ k.
          count-recounted d.tables.package_files d.tables.blobs k
          ∙ if_present-rows d.tables.package_files d.tables.blobs k _ refl h;
    }

-- ===== src/Metadata/Transaction/Queries/Keeps.antt =====
-- internal/metadata/repo.go: statements outside of a transaction that leave the tables as they are.
use little_big_files.Common.{ℕ, ◌≡◌, refl, Option, none, some, Bytes}
use little_big_files.Common.Exec.{Exec}
use little_big_files.Common.Triple.{
  Triple, Post-if, Triple-bind, Triple-pure, Triple-within, within,
}
use little_big_files.Metadata.Tables.{Tables, Package}
use little_big_files.Metadata.Transaction.{Database, query, head_outcome}
use little_big_files.Metadata.Transaction.Queries.{
  execute, get_package, with_files, get_original_file, query_blob, find_canonical_package_id,
  list_clone_package_ids, record_supplier_ingest, record_stats,
}
use little_big_files.Metadata.Transaction.Rules.{Lawful}

module _ {S : Type 0} (get : S → Database) (R : Tables → Type 0) where
  abbrev pub Has : S → Type 0
  Has s = R (get s).tables

  -- A method that keeps R of the tables, whether it succeeds or not.
  abbrev pub Keeps : {A : Type 0} → Exec S A → Type 0
  Keeps m = Triple Has m (λ _. Has) Has

module _ (R : Tables → Type 0) where
  abbrev KeepsTables : {A : Type 0} → Exec Database A → Type 0
  KeepsTables m = Keeps (λ d. d) R m

  query-Keeps : {A : Type 0} (f : Tables → A) → KeepsTables (query f)
  unfolding query
  query-Keeps f = record {
    runs = λ d h. Post-if _ _ (head_outcome d.outcomes) _ _ (λ _. h) (λ _. h);
  }

  with_files-Keeps : (o : Option Package) (id : ℕ) → KeepsTables (with_files o id)
  unfolding with_files
  with_files-Keeps none id = Triple-pure none λ d h. h
  with_files-Keeps (some p) id =
      Triple-bind _ _ (query-Keeps _)
        λ files. Triple-pure (some (record p { files = files })) λ d h. h

  pub get_package-Keeps : (id : ℕ) → KeepsTables (get_package id)
  unfolding get_package
  get_package-Keeps id = Triple-bind _ _ (query-Keeps _) λ o. with_files-Keeps o id

  pub get_original_file-Keeps : (id : ℕ) → KeepsTables (get_original_file id)
  unfolding get_original_file
  get_original_file-Keeps id = query-Keeps _

  pub query_blob-Keeps : (hash : Bytes) → KeepsTables (query_blob hash)
  unfolding query_blob
  query_blob-Keeps hash = query-Keeps _

  pub find_canonical_package_id-Keeps :
      (hash : Bytes) → KeepsTables (find_canonical_package_id hash)
  unfolding find_canonical_package_id
  find_canonical_package_id-Keeps hash = query-Keeps _

  pub list_clone_package_ids-Keeps : (id : ℕ) → KeepsTables (list_clone_package_ids id)
  unfolding list_clone_package_ids
  list_clone_package_ids-Keeps id = query-Keeps _

  execute-Keeps :
      (f : Database → Tables) → ((d : Database) → R d.tables → R (f d)) → KeepsTables (execute f)
  unfolding execute
  execute-Keeps f k = record {
    runs = λ d h. Post-if _ _ (head_outcome d.outcomes) _ _ (λ _. k d h) (λ _. h);
  }

  -- What does not depend on the statistics.
  pub record_supplier_ingest-Keeps :
      ((t u : Tables)
        → u.blobs ≡ t.blobs
        → u.package_files ≡ t.package_files
        → u.packages ≡ t.packages
        → R t
        → R u)
      → (supplier_id file_count new_blobs duplicate_refs : ℕ)
      → KeepsTables (record_supplier_ingest supplier_id file_count new_blobs duplicate_refs)
  unfolding record_supplier_ingest record_stats
  record_supplier_ingest-Keeps k supplier_id file_count new_blobs duplicate_refs =
      execute-Keeps _ λ d r. k d.tables _ refl refl refl r

-- The database as a part of a state.
pub Keeps-within :
    {S A : Type 0} (get : S → Database) (set : Database → S → S) (R : Tables → Type 0)
    (m : Exec Database A)
    → Lawful get set
    → Keeps (λ d. d) R m
    → Keeps get R (within get set m)
Keeps-within get set R m law h = Triple-within get set m law h

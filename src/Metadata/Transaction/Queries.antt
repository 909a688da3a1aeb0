-- ===== src/Metadata/Transaction/Queries.antt =====
-- internal/metadata/repo.go: the statements outside of a transaction.
pub mod Keeps
use little_big_files.Common.{
  ℕ, ◌+◌, ◌*◌, Bool, true, false, ◌&&◌, not, Option, none, some, String, List, [], ◌∷◌, Bytes, map,
  length, ltb, ◌==◌, if◌then◌else◌,
}
use little_big_files.Common.Result.{Result, ok, err}
use little_big_files.Common.Exec.{Exec, pure, gets, ◌>>=◌, ◌>>◌}
use little_big_files.Common.Dict.{lookup, insert, bytes_eq, nat_eq, ◌=?◌}
use little_big_files.Dedup.{ContentBlob}
use little_big_files.Metadata.Blobs.{Blobs, get_blob}
use little_big_files.Metadata.Tables.{
  PackageFile, Package, SupplierStats, Tables, is_original, is_raw_large, is_some, filter,
  list_package_files,
}
use little_big_files.Metadata.Transaction.{Database, query, trip, head_outcome}

-- The least id of the rows that pass a test: ORDER BY id LIMIT 1.
abbrev pub least : Option ℕ → ℕ → Option ℕ
least none id = some id
least (some m) id = if ltb id m then some id else some m

unfoldable pub first_id : (Package → Bool) → List (ℕ × Package) → Option ℕ
first_id p [] = none
first_id p ((id, row) ∷ rows) = let rest = first_id p rows in if p row then least rest id else rest

-- SELECT id ... ORDER BY id, for the rows that pass a test.
unfoldable pub insert_sorted : ℕ → List ℕ → List ℕ
insert_sorted id [] = id ∷ []
insert_sorted id (m ∷ ids) =
    let rest = insert_sorted id ids in if ltb m id then m ∷ rest else id ∷ m ∷ ids

unfoldable pub ids_of : (Package → Bool) → List (ℕ × Package) → List ℕ
ids_of p [] = []
ids_of p ((id, row) ∷ rows) =
    let rest = ids_of p rows in if p row then insert_sorted id rest else rest

-- FindCanonicalPackageID
unfoldable pub find_canonical_package_id : Bytes → Exec Database (Option ℕ)
find_canonical_package_id package_hash =
    query (λ t. first_id (λ p. p.package_hash =? package_hash) t.packages)

refers_to : ℕ → Option ℕ → Bool
refers_to id none = false
refers_to id (some m) = m == id

-- ListClonePackageIDs
unfoldable pub list_clone_package_ids : ℕ → Exec Database (List ℕ)
unfolding refers_to
list_clone_package_ids canonical_id =
    query (λ t. ids_of (λ p. refers_to canonical_id p.canonical_package_id) t.packages)

is_pending : Package → Bool
is_pending p = is_raw_large p.storage_mode && not (is_some p.canonical_package_id)

-- ListPendingLargePackages
unfoldable pub list_pending_large_packages : Exec Database (List ℕ)
unfolding is_pending
list_pending_large_packages = query (λ t. ids_of is_pending t.packages)

unfoldable pub with_files : Option Package → ℕ → Exec Database (Option Package)
with_files none id = pure none
with_files (some p) id = do
  files ← query (list_package_files id)
  pure (some (record p { files = files }))

-- GetPackage
unfoldable pub get_package : ℕ → Exec Database (Option Package)
unfolding with_files
get_package id = do p ← query (λ t. lookup id t.packages); with_files p id

first {ℓ} : {A : Type ℓ} → List A → Option A
first [] = none
first (x ∷ xs) = some x

-- GetPackageFile
unfoldable pub get_package_file : ℕ → ℕ → Exec Database (Option PackageFile)
unfolding first
get_package_file package_id file_id =
    query (λ t. first (filter (λ f. f.id == file_id) (list_package_files package_id t)))

-- GetOriginalFile
unfoldable pub get_original_file : ℕ → Exec Database (Option PackageFile)
unfolding first
get_original_file package_id =
    query (λ t. first (filter (λ f. is_original f.role) (list_package_files package_id t)))

-- GetBlob
unfoldable pub query_blob : Bytes → Exec Database (Option ContentBlob)
query_blob hash = query (λ t. get_blob hash t.blobs)

-- CountContentBlobs
unfoldable pub count_content_blobs : Exec Database ℕ
count_content_blobs = query (λ t. length t.blobs)

-- A statement outside of a transaction that changes the tables.
unfoldable pub execute : (Database → Tables) → Exec Database Unit
execute f d =
    if head_outcome d.outcomes
    then (ok tt, record (trip d) { tables = f d })
    else (err "statement", trip d)

-- RecordSupplierIngest; the counter of new blobs is not used there.
one_more_package : ℕ → ℕ → ℕ → Option SupplierStats → SupplierStats
one_more_package refs dup now none = record {
  total_packages = 1;
  total_refs = refs;
  duplicate_refs = dup;
  last_activity = now;
}
one_more_package refs dup now (some s) = record {
  total_packages = s.total_packages + 1;
  total_refs = s.total_refs + refs;
  duplicate_refs = s.duplicate_refs + dup;
  last_activity = now;
}

record_stats : ℕ → ℕ → ℕ → Database → Tables
unfolding one_more_package
record_stats supplier_id file_count duplicate_refs d =
    let t = d.tables in
    record t {
      supplier_stats =
          insert supplier_id
            (one_more_package file_count duplicate_refs d.clock
              (lookup supplier_id t.supplier_stats))
            t.supplier_stats;
    }

unfoldable pub record_supplier_ingest : ℕ → ℕ → ℕ → ℕ → Exec Database Unit
unfolding record_stats
record_supplier_ingest supplier_id file_count new_blobs duplicate_refs =
    execute (record_stats supplier_id file_count duplicate_refs)

-- GetSupplierStats
unfoldable pub get_supplier_stats : ℕ → Exec Database (Option SupplierStats)
get_supplier_stats supplier_id = query (λ t. lookup supplier_id t.supplier_stats)

-- UpsertContentBlob: a row that is there keeps its reference count.
upserted : ContentBlob → Option ContentBlob → ContentBlob
upserted b none = b
upserted b (some old) = record b { ref_count = old.ref_count }

unfoldable pub upsert_blob : ContentBlob → Blobs → Blobs
unfolding upserted
upsert_blob b t =
    let stored = if b.stored_size == 0 then b.size else b.stored_size in
    insert b.content_hash (upserted (record b { stored_size = stored }) (get_blob b.content_hash t))
      t

unfoldable pub upsert_content_blob : ContentBlob → Exec Database Unit
upsert_content_blob b =
    execute (λ d. let t = d.tables in record t { blobs = upsert_blob b t.blobs })

-- TruncateRecoveryTables
unfoldable pub truncate_recovery_tables : Exec Database Unit
truncate_recovery_tables d =
    if head_outcome d.outcomes
    then (
      ok tt,
      record (trip d) {
        tables = record { blobs = []; packages = []; package_files = []; supplier_stats = [] };
        sequences = record { package_id = 1; file_id = 1 };
      },
    )
    else (err "statement", trip d)

-- The rows of package_files with a blob.
unfoldable pub rows : Bytes → List PackageFile → ℕ
rows hash [] = 0
rows hash (f ∷ files) = rows hash files + (if f.blob_hash =? hash then 1 else 0)

-- RecomputeRefCounts. SELECT blob_hash, COUNT(*) ... GROUP BY blob_hash: a row per hash.
unfoldable pub one_more : Bytes → List (Bytes × ℕ) → List (Bytes × ℕ)
one_more hash [] = (hash, 1) ∷ []
one_more hash ((h, n) ∷ groups) =
    let rest = one_more hash groups in if h =? hash then (h, n + 1) ∷ groups else (h, n) ∷ rest

unfoldable pub group_counts : List PackageFile → List (Bytes × ℕ)
group_counts [] = []
group_counts (f ∷ files) = one_more f.blob_hash (group_counts files)

-- UPDATE content_blobs SET ref_count = 0
unfoldable pub reset_counts : Blobs → Blobs
reset_counts [] = []
reset_counts ((hash, b) ∷ blobs) = (hash, record b { ref_count = 0 }) ∷ reset_counts blobs

-- UPDATE content_blobs b SET ref_count = x.cnt FROM ... WHERE b.content_hash = x.blob_hash
unfoldable pub counted_by : Option ℕ → ContentBlob → ContentBlob
counted_by none b = b
counted_by (some n) b = record b { ref_count = n }

unfoldable pub join_counts : List (Bytes × ℕ) → Blobs → Blobs
join_counts groups [] = []
join_counts groups ((hash, b) ∷ blobs) =
    (hash, counted_by (lookup hash groups) b) ∷ join_counts groups blobs

unfoldable pub recompute_ref_counts : Exec Database Unit
recompute_ref_counts = execute (λ d.
    let t = d.tables in
    record t { blobs = join_counts (group_counts t.package_files) (reset_counts t.blobs) })

-- BlobByteTotals
pub record BlobByteTotals : Type 0 where
  pub logical_bytes : ℕ
  pub stored_bytes : ℕ
  pub referenced_logical_bytes : ℕ

unfoldable pub totals : Blobs → BlobByteTotals
totals [] = record { logical_bytes = 0; stored_bytes = 0; referenced_logical_bytes = 0 }
totals ((_, b) ∷ blobs) =
    let rest = totals blobs in
    record {
      logical_bytes = rest.logical_bytes + b.size;
      stored_bytes = rest.stored_bytes + (if ltb 0 b.stored_size then b.stored_size else b.size);
      referenced_logical_bytes = rest.referenced_logical_bytes + b.size * b.ref_count;
    }

unfoldable pub blob_byte_totals : Exec Database BlobByteTotals
blob_byte_totals = query (λ t. totals t.blobs)

-- ===== src/Metadata/Tests.antt =====
-- The tables on a concrete input, and the theorem at it.
use little_big_files.Common.{◌≡◌, refl, false, none, [], ◌∷◌, Bytes}
use little_big_files.Common.Result.{ok}
use little_big_files.Common.Dict.{lookup}
use little_big_files.Dedup.{ContentBlob}
use little_big_files.Metadata.Blobs.{get_blob}
use little_big_files.Metadata.Tables.{PackageFile, original}
use little_big_files.Metadata.Transaction.{Database}
use little_big_files.Metadata.Transaction.Queries.{recompute_ref_counts, execute}
use little_big_files.Metadata.Balance.Recompute.{Balanced, recompute_ref_counts-Balanced}

abbrev hash : Bytes
hash = 1 ∷ 2 ∷ []

abbrev miscounted : ContentBlob
miscounted = record {
  content_hash = hash;
  size = 4;
  stored_size = 16;
  segment_id = 0;
  offset = 0;
  ref_count = 9;
}

abbrev file : PackageFile
file = record {
  id = 1;
  package_id = 1;
  blob_hash = hash;
  role = original;
  original_filename = none;
  sequence_number = none;
  size = 0;
}

abbrev db : Database
db = record {
  tables = record {
    blobs = (hash, miscounted) ∷ [];
    packages = [];
    package_files = file ∷ [];
    supplier_stats = [];
  };
  sequences = record { package_id = 2; file_id = 2 };
  clock = 0;
  aborted = false;
  outcomes = [];
}

recomputed : recompute_ref_counts db ≡ (ok tt, (recompute_ref_counts db).1)
unfolding recompute_ref_counts execute
recomputed = refl

recompute_ref_counts-Balanced_example : Balanced (recompute_ref_counts db).1.tables
unfolding get_blob lookup
recompute_ref_counts-Balanced_example =
    recompute_ref_counts-Balanced db (recompute_ref_counts db).1 (refl, tt) recomputed

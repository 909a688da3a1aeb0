-- ===== src/Metadata/Transaction/Packages.antt =====
-- internal/metadata/repo.go: the statements of a transaction on packages and package_files.
pub mod Changes
use little_big_files.Common.{
  ℕ, ◌+◌, Bool, true, false, ◌&&◌, Option, none, some, String, List, [], ◌∷◌, ◌++◌, Bytes, ◌==◌,
  if◌then◌else◌,
}
use little_big_files.Common.Result.{Result, ok, err}
use little_big_files.Common.Exec.{Exec, pure, ◌>>=◌, ◌>>◌}
use little_big_files.Common.Dict.{lookup, insert, bytes_eq, nat_eq}
use little_big_files.Metadata.Blobs.{get_blob}
use little_big_files.Metadata.Tables.{
  StorageMode, PackageFile, Package, CreatePackageInput, CreateFileInput, Tables, is_raw_large,
  is_some, clashes, any,
}
use little_big_files.Metadata.Transaction.{
  Sequences, Database, statement, draw_none, tx_increment_ref_count_if_exists,
}

abbrev pub draw_package : Sequences → Sequences
draw_package ids = record ids { package_id = ids.package_id + 1 }

abbrev pub draw_file : Sequences → Sequences
draw_file ids = record ids { file_id = ids.file_id + 1 }

abbrev pub package_row : CreatePackageInput → ℕ → ℕ → Package
package_row input id now = record {
  id = id;
  supplier_id = input.supplier_id;
  received_at = now;
  package_hash = input.package_hash;
  payload_type = input.payload_type;
  storage_mode = input.storage_mode;
  original_filename = input.original_filename;
  canonical_package_id = input.canonical_package_id;
  file_count = input.file_count;
  unpack_error = input.unpack_error;
  files = [];
}

-- The foreign key canonical_package_id.
unfoldable pub has_canonical : Option ℕ → Tables → Bool
has_canonical none t = true
has_canonical (some id) t = is_some (lookup id t.packages)

unfoldable pub insert_package : CreatePackageInput → Database → Result (ℕ × Tables)
unfolding has_canonical
insert_package input d =
    let id = d.sequences.package_id in
    if is_some (lookup id d.tables.packages)
    then err "duplicate key of packages"
    else if has_canonical input.canonical_package_id d.tables
    then ok (
      id,
      record d.tables { packages = insert id (package_row input id d.clock) d.tables.packages },
    )
    else err "no canonical package"

-- CreatePackage
unfoldable pub create_package : CreatePackageInput → Exec Database ℕ
unfolding insert_package
create_package input = statement draw_package (insert_package input)

abbrev pub file_row : ℕ → CreateFileInput → ℕ → PackageFile
file_row package_id input id = record {
  id = id;
  package_id = package_id;
  blob_hash = input.blob_hash;
  role = input.role;
  original_filename = input.original_filename;
  sequence_number = input.sequence_number;
  size = 0;
}

-- The foreign keys and the unique indexes of package_files.
unfoldable pub fits_keys : ℕ → CreateFileInput → Tables → Bool
fits_keys package_id input t =
    is_some (lookup package_id t.packages)
    && is_some (get_blob input.blob_hash t.blobs)
    && (if any (clashes package_id input) t.package_files then false else true)

unfoldable pub insert_file : ℕ → CreateFileInput → Database → Result (ℕ × Tables)
insert_file package_id input d =
    let id = d.sequences.file_id in
    if any (λ (f : PackageFile). f.id == id) d.tables.package_files
    then err "duplicate key of package_files"
    else if fits_keys package_id input d.tables
    then ok (
      id,
      record d.tables {
        package_files = d.tables.package_files ++ file_row package_id input id ∷ [];
      },
    )
    else err "constraint of package_files"

-- CreatePackageFile
unfoldable pub create_package_file : ℕ → CreateFileInput → Exec Database ℕ
unfolding insert_file
create_package_file package_id input = statement draw_file (insert_file package_id input)

-- GetPackageForUpdate: the row without its files.
unfoldable pub get_package_for_update : ℕ → Exec Database (Option Package)
get_package_for_update package_id =
    statement draw_none (λ d. ok (lookup package_id d.tables.packages, d.tables))

unpacked : StorageMode → ℕ → Option String → Package → Package
unpacked mode file_count unpack_error p = record p {
  storage_mode = mode;
  file_count = file_count;
  unpack_error = unpack_error;
}

update_row : ℕ → StorageMode → ℕ → Option String → Option Package → Tables → Bool × Tables
unfolding unpacked
update_row id mode file_count unpack_error none t = (false, t)
update_row id mode file_count unpack_error (some p) t =
    if is_raw_large p.storage_mode
    then (
      true,
      record t { packages = insert id (unpacked mode file_count unpack_error p) t.packages },
    )
    else (false, t)

pub update_unpacked : ℕ → StorageMode → ℕ → Option String → Database → Result (Bool × Tables)
unfolding update_row
update_unpacked id mode file_count unpack_error d =
    ok (update_row id mode file_count unpack_error (lookup id d.tables.packages) d.tables)

-- UpdatePackageAfterUnpack: whether a package that waits for its unpacking was there.
unfoldable pub update_package_after_unpack :
    ℕ → StorageMode → ℕ → Option String → Exec Database Bool
unfolding update_unpacked
update_package_after_unpack package_id mode file_count unpack_error =
    statement draw_none (update_unpacked package_id mode file_count unpack_error)

-- IncrementRefCounts
unfoldable pub increment_ref_counts : List Bytes → Exec Database Unit
increment_ref_counts [] = pure tt
increment_ref_counts (h ∷ hashes) = do
  tx_increment_ref_count_if_exists h
  increment_ref_counts hashes

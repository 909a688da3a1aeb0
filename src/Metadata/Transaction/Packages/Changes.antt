-- ===== src/Metadata/Transaction/Packages/Changes.antt =====
-- internal/metadata/repo.go: what the statements on packages and package_files leave of the tables.
use little_big_files.Common.{some, ℕ, ◌≡◌, Bool, true, Option, String, [], ◌∷◌, ◌++◌, arith}
use little_big_files.Common.Result.{ok}
use little_big_files.Common.Dict.{lookup-insert_self, lookup, bytes_eq, nat_eq}
use little_big_files.Metadata.Blobs.{get_blob}
use little_big_files.Metadata.Tables.{
  StorageMode, CreatePackageInput, CreateFileInput, Tables, is_some,
}
use little_big_files.Metadata.Transaction.{Database}
use little_big_files.Metadata.Transaction.Packages.{
  package_row, insert_package, insert_file, file_row, fits_keys, update_unpacked, update_row,
}

-- The same blobs and files.
abbrev pub Same : Tables → Tables → Type 0
Same t u = (u.blobs ≡ t.blobs) × (u.package_files ≡ t.package_files)

-- A row of package_files more, whose blob is there.
abbrev pub Filed : ℕ → CreateFileInput → ℕ → Tables → Tables → Type 0
Filed package_id input a t u =
    (is_some (get_blob input.blob_hash t.blobs) ≡ true)
    × (u.blobs ≡ t.blobs)
    × (u.package_files ≡ t.package_files ++ file_row package_id input a ∷ [])

pub insert_package-Same :
    (input : CreatePackageInput) (d : Database) (a : ℕ) (t : Tables)
    → insert_package input d ≡ ok (a, t)
    → Same d.tables t
unfolding insert_package
insert_package-Same input d a t e = ground (arith, e)

pub insert_file-Filed :
    (package_id : ℕ) (input : CreateFileInput) (d : Database) (a : ℕ) (t : Tables)
    → insert_file package_id input d ≡ ok (a, t)
    → Filed package_id input a d.tables t
unfolding insert_file fits_keys
insert_file-Filed package_id input d a t e = ground (arith, e)

pub update_unpacked-Same :
    (id : ℕ) (mode : StorageMode) (file_count : ℕ) (unpack_error : Option String) (d : Database)
    (a : Bool) (t : Tables)
    → update_unpacked id mode file_count unpack_error d ≡ ok (a, t)
    → Same d.tables t
unfolding update_unpacked update_row
update_unpacked-Same id mode file_count unpack_error d a t e = ground (arith, e)

-- A new row of package_files leaves the packages.
pub insert_file-packages :
    (package_id : ℕ) (input : CreateFileInput) (d : Database) (a : ℕ) (t : Tables)
    → insert_file package_id input d ≡ ok (a, t)
    → t.packages ≡ d.tables.packages
unfolding insert_file
insert_file-packages package_id input d a t e = ground (arith, e)

-- The row of a new package.
pub insert_package-row :
    (input : CreatePackageInput) (d : Database) (a : ℕ) (t : Tables)
    → insert_package input d ≡ ok (a, t)
    → lookup a t.packages ≡ some (package_row input a d.clock)
unfolding insert_package
insert_package-row input d a t e = ground (
  arith,
  e,
  lookup-insert_self d.sequences.package_id (package_row input d.sequences.package_id d.clock)
      d.tables.packages,
)

-- ===== src/Metadata/Tables.antt =====
-- internal/metadata/models.go and the tables of migrations/shard: packages, package_files and
-- supplier_stats beside content_blobs. Rows of package_files stand in the order of their ids.
use little_big_files.Common.{
  ℕ, Bool, true, false, ◌&&◌, ◌||◌, Option, none, some, String, List, [], ◌∷◌, Bytes, ◌==◌,
  if◌then◌else◌,
}
use little_big_files.Common.Dict.{bytes_eq, nat_eq}
use little_big_files.Dedup.{ContentBlob}
use little_big_files.Metadata.Blobs.{Blobs, get_blob}

-- The values that package_files.role, packages.storage_mode and packages.payload_type take.
pub data Role : Type 0 where
  original : Role
  member : Role
  unpack_error : Role

pub data StorageMode : Type 0 where
  single : StorageMode
  zip_with_members : StorageMode
  raw_large : StorageMode

pub data PayloadType : Type 0 where
  zip : PayloadType
  xml : PayloadType

-- PackageFile, with the size that the queries join from content_blobs.
pub record PackageFile : Type 0 where
  pub id : ℕ
  pub package_id : ℕ
  pub blob_hash : Bytes
  pub role : Role
  pub original_filename : Option Bytes
  pub sequence_number : Option ℕ
  pub size : ℕ

pub record Package : Type 0 where
  pub id : ℕ
  pub supplier_id : ℕ
  pub received_at : ℕ
  pub package_hash : Bytes
  pub payload_type : PayloadType
  pub storage_mode : StorageMode
  pub original_filename : Option Bytes
  pub canonical_package_id : Option ℕ
  pub file_count : ℕ
  pub unpack_error : Option String
  pub files : List PackageFile

pub record CreatePackageInput : Type 0 where
  pub supplier_id : ℕ
  pub package_hash : Bytes
  pub payload_type : PayloadType
  pub storage_mode : StorageMode
  pub original_filename : Option Bytes
  pub canonical_package_id : Option ℕ
  pub file_count : ℕ
  pub unpack_error : Option String

pub record CreateFileInput : Type 0 where
  pub blob_hash : Bytes
  pub role : Role
  pub original_filename : Option Bytes
  pub sequence_number : Option ℕ

pub record SupplierStats : Type 0 where
  pub total_packages : ℕ
  pub total_refs : ℕ
  pub duplicate_refs : ℕ
  pub last_activity : ℕ

-- The rows of a shard. The column `size` of package_files and the field `files` of packages are
-- not stored: the queries fill them.
pub record Tables : Type 0 where
  pub blobs : Blobs
  pub packages : List (ℕ × Package)
  pub package_files : List PackageFile
  pub supplier_stats : List (ℕ × SupplierStats)

abbrev pub is_original : Role → Bool
is_original original = true
is_original member = false
is_original unpack_error = false

abbrev pub is_member : Role → Bool
is_member original = false
is_member member = true
is_member unpack_error = false

abbrev pub is_unpack_error : Role → Bool
is_unpack_error original = false
is_unpack_error member = false
is_unpack_error unpack_error = true

abbrev pub is_raw_large : StorageMode → Bool
is_raw_large single = false
is_raw_large zip_with_members = false
is_raw_large raw_large = true

abbrev pub is_zip_with_members : StorageMode → Bool
is_zip_with_members single = false
is_zip_with_members zip_with_members = true
is_zip_with_members raw_large = false

abbrev pub is_some {ℓ} : {A : Type ℓ} → Option A → Bool
is_some none = false
is_some (some a) = true

-- Whether two sequence numbers collide in a unique index, where NULL collides with nothing.
abbrev pub same_number : Option ℕ → Option ℕ → Bool
same_number none m = false
same_number (some n) none = false
same_number (some n) (some m) = n == m

-- The unique indexes of package_files: one original and one unpack_error of a package, and one
-- member of a package for a sequence number.
unfoldable pub clashes : ℕ → CreateFileInput → PackageFile → Bool
clashes package_id input f =
    f.package_id == package_id
    && (is_original input.role && is_original f.role
        || is_unpack_error input.role && is_unpack_error f.role
        || is_member input.role
          && is_member f.role
          && same_number input.sequence_number f.sequence_number)

unfoldable pub any {ℓ} : {A : Type ℓ} → (A → Bool) → List A → Bool
any p [] = false
any p (x ∷ xs) = p x || any p xs

unfoldable pub filter {ℓ} : {A : Type ℓ} → (A → Bool) → List A → List A
filter p [] = []
filter p (x ∷ xs) = let rest = filter p xs in if p x then x ∷ rest else rest

-- The join of ListPackageFiles: a row whose blob is missing does not show.
sized : PackageFile → Option ContentBlob → List PackageFile → List PackageFile
sized f none rest = rest
sized f (some b) rest = record f { size = b.size } ∷ rest

unfoldable pub joined : Blobs → List PackageFile → List PackageFile
unfolding sized
joined blobs [] = []
joined blobs (f ∷ files) = sized f (get_blob f.blob_hash blobs) (joined blobs files)

unfoldable pub list_package_files : ℕ → Tables → List PackageFile
list_package_files package_id t =
    joined t.blobs (filter (λ f. f.package_id == package_id) t.package_files)

-- ===== src/Ingestion/Zip.antt =====
-- internal/ingestion/detect.go: the members of an archive. The reader of archive/zip is a parameter.
-- An int64 is its word: a number below 2 ^ 64, negative from 2 ^ 63 on.
pub mod Each
pub mod Bounds
use little_big_files.Common.{
  ℕ, ◌+◌, ◌-◌, ◌*◌, ◌%◌, ◌^◌, Bool, true, false, ◌&&◌, ◌||◌, not, Option, none, some, String, List,
  [], ◌∷◌, ◌++◌, Bytes, take, length, ltb, if◌then◌else◌,
}
use little_big_files.Common.Result.{Result, ok, err}
use little_big_files.Common.Exec.{Exec, pure, raise, modify, ◌>>=◌, ◌>>◌}
use little_big_files.Common.Text.{contains}

-- zip.File: Open fails, or gives a stream of bytes, which ends with an error or without.
pub record Stream : Type 0 where
  pub content : Bytes
  pub failure : Option String

pub record ZipEntry : Type 0 where
  pub name : Bytes
  pub is_dir : Bool
  pub uncompressed_size64 : ℕ
  pub open_stream : Result Stream

-- Comparison and sum of int64.
abbrev pub int64_lt : ℕ → ℕ → Bool
int64_lt a b = ltb ((a + 2 ^ 63) % 2 ^ 64) ((b + 2 ^ 63) % 2 ^ 64)

abbrev pub int64_add : ℕ → ℕ → ℕ
int64_add a b = (a + b) % 2 ^ 64

abbrev pub default_max_unpacked_zip_bytes : ℕ
default_max_unpacked_zip_bytes = 512 * 1024 * 1024

unfoldable pub effective_max_unpacked_zip_bytes : ℕ → ℕ
effective_max_unpacked_zip_bytes max_unpacked =
    if int64_lt 0 max_unpacked then max_unpacked else default_max_unpacked_zip_bytes

unfoldable pub should_skip_zip_entry : Bytes → Bool → Bool
should_skip_zip_entry name is_dir = is_dir || contains (b'.' ∷ b'.' ∷ []) name

-- The guard on the size that the directory of the archive tells.
unfoldable pub exceeds : ℕ → ℕ → ℕ → Bool
exceeds limit total size = int64_lt limit size || int64_lt limit (int64_add total size)

abbrev pub too_large : String
too_large = "zip unpacked size exceeds limit"

-- io.ReadAll of an io.LimitReader.
read_limited : ℕ → Stream → Result Bytes
read_limited limit s =
    if not (int64_lt 0 limit)
    then ok []
    else if ltb (length s.content) limit
    then read_all s.failure s.content
    else ok (take limit s.content)
  where
    read_all : Option String → Bytes → Result Bytes
    read_all none content = ok content
    read_all (some e) content = err e

within_limit : ℕ → Result Bytes → Result Bytes
within_limit remaining (err e) = err e
within_limit remaining (ok body) = if ltb remaining (length body) then err too_large else ok body

read_opened : ℕ → Result Stream → Result Bytes
unfolding read_limited within_limit
read_opened remaining (err e) = err e
read_opened remaining (ok s) = within_limit remaining (read_limited (int64_add remaining 1) s)

-- What ForEachZipMember reads of an entry: nothing of an entry that it skips.
unfoldable pub read_member : ℕ → ℕ → ZipEntry → Option (Result Bytes)
unfolding read_opened
read_member limit total f =
    if should_skip_zip_entry f.name f.is_dir
    then none
    else if exceeds limit total f.uncompressed_size64
    then some (err too_large)
    else some (read_opened (limit - total) f.open_stream)

module _ {S : Type 0} (fn : Bytes → Bytes → Exec S Unit) where
  -- A round of the loop of ForEachZipMember, after what it read of the entry.
  next_entry : Bytes → Option (Result Bytes) → Exec S Unit → (ℕ → Exec S Unit) → Exec S Unit
  next_entry name none skip next = skip
  next_entry name (some (err e)) skip next = raise e
  next_entry name (some (ok body)) skip next = do fn name body; next (length body)

  unfoldable pub for_each_entry : ℕ → ℕ → List ZipEntry → Exec S Unit
  unfolding next_entry
  for_each_entry limit total [] = pure tt
  for_each_entry limit total (f ∷ files) =
      next_entry f.name (read_member limit total f) (for_each_entry limit total files)
        λ n. for_each_entry limit (total + n) files

  for_each_read : ℕ → Result (List ZipEntry) → Exec S Unit
  for_each_read limit (err e) = raise e
  for_each_read limit (ok files) = for_each_entry limit 0 files

  -- ForEachZipMember
  unfoldable pub for_each_zip_member : (Bytes → Result (List ZipEntry)) → Bytes → ℕ → Exec S Unit
  unfolding for_each_read
  for_each_zip_member new_reader bytes max_unpacked =
      for_each_read (effective_max_unpacked_zip_bytes max_unpacked) (new_reader bytes)

-- UnpackZipWithLimit: the members, or what there are of them when an error ends it.
pub record ZipMember : Type 0 where
  pub filename : Bytes
  pub data_of : Bytes

abbrev pub add_member : Bytes → Bytes → Exec (List ZipMember) Unit
add_member filename body =
    modify (λ members. members ++ record { filename = filename; data_of = body } ∷ [])

unfoldable pub unpack_zip_with_limit :
    (Bytes → Result (List ZipEntry)) → Bytes → ℕ → Result (Unit {0}) × List ZipMember
unpack_zip_with_limit new_reader bytes max_unpacked =
    for_each_zip_member add_member new_reader bytes max_unpacked []

unfoldable pub count_entries : List ZipEntry → ℕ
count_entries [] = 0
count_entries (f ∷ files) =
    count_entries files + (if should_skip_zip_entry f.name f.is_dir then 0 else 1)

-- CountZipEntries
unfoldable pub count_zip_entries : Result (List ZipEntry) → Result ℕ
count_zip_entries (err e) = err e
count_zip_entries (ok files) = ok (count_entries files)

-- The total after an entry, if it is within the limit.
unfoldable pub add_size : ℕ → ℕ → ZipEntry → Option ℕ
add_size limit total f =
    if should_skip_zip_entry f.name f.is_dir
    then some total
    else if exceeds limit total f.uncompressed_size64
    then none
    else some (int64_add total f.uncompressed_size64)

unfoldable pub check_sizes : ℕ → ℕ → List ZipEntry → Result (Unit {0})
check_sizes limit total [] = ok tt
check_sizes limit total (f ∷ files) = elim (add_size limit total f) [
  | none ↦ err too_large
  | some sum ↦ check_sizes limit sum files
]

-- CheckZipUncompressedLimit
unfoldable pub check_zip_uncompressed_limit : Result (List ZipEntry) → ℕ → Result (Unit {0})
check_zip_uncompressed_limit (err e) max_unpacked = err e
check_zip_uncompressed_limit (ok files) max_unpacked =
    check_sizes (effective_max_unpacked_zip_bytes max_unpacked) 0 files

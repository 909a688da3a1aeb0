-- ===== src/Ingestion/Zip/Each.antt =====
-- internal/ingestion/detect.go: what ForEachZipMember keeps when its function keeps it.
use little_big_files.Common.{ℕ, ◌+◌, Option, none, some, List, [], ◌∷◌, Bytes, length}
use little_big_files.Common.Result.{Result, ok, err}
use little_big_files.Common.Exec.{Exec}
use little_big_files.Common.Triple.{Triple, Triple-bind, Triple-pure, Triple-raise}
use little_big_files.Ingestion.Zip.{
  ZipEntry, read_member, next_entry, for_each_entry, for_each_read, for_each_zip_member,
  effective_max_unpacked_zip_bytes,
}

module _ {S : Type 0} {P : S → Type 0} (fn : Bytes → Bytes → Exec S Unit)
    (keeps : (name body : Bytes) → Triple P (fn name body) (λ _. P) P) where
  next_entry-Triple :
      (name : Bytes) (o : Option (Result Bytes)) (skip : Exec S Unit) (next : ℕ → Exec S Unit)
      → Triple P skip (λ _. P) P
      → ((n : ℕ) → Triple P (next n) (λ _. P) P)
      → Triple P (next_entry fn name o skip next) (λ _. P) P
  unfolding next_entry
  next_entry-Triple name none skip next h k = h
  next_entry-Triple name (some (err e)) skip next h k = Triple-raise e λ s p. p
  next_entry-Triple name (some (ok body)) skip next h k =
      Triple-bind _ _ (keeps name body) λ _. k (length body)

  for_each_entry-Triple :
      (limit total : ℕ) (files : List ZipEntry)
      → Triple P (for_each_entry fn limit total files) (λ _. P) P
  unfolding for_each_entry
  for_each_entry-Triple limit total [] = Triple-pure tt λ s h. h
  for_each_entry-Triple limit total (f ∷ files) =
      next_entry-Triple f.name (read_member limit total f) _ _
        (for_each_entry-Triple limit total files) λ n. for_each_entry-Triple limit (total + n) files

  pub Triple-for_each :
      (new_reader : Bytes → Result (List ZipEntry)) (bytes : Bytes) (max_unpacked : ℕ)
      → Triple P (for_each_zip_member fn new_reader bytes max_unpacked) (λ _. P) P
  unfolding for_each_zip_member for_each_read
  Triple-for_each new_reader bytes max_unpacked = go (new_reader bytes)
    where
      go :
          (r : Result (List ZipEntry))
          → Triple P (for_each_read fn (effective_max_unpacked_zip_bytes max_unpacked) r) (λ _. P) P
      go (err e) = Triple-raise e λ s h. h
      go (ok files) = for_each_entry-Triple (effective_max_unpacked_zip_bytes max_unpacked) 0 files

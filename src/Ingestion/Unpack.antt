-- ===== src/Ingestion/Unpack.antt =====
-- internal/ingestion/unpack_large.go: UnpackLargePackage and propagateUnpackToClones.
use little_big_files.Common.{
  ℕ, Bool, ◌||◌, not, Option, none, some, String, List, [], ◌∷◌, ◌++◌, map, Bytes, if◌then◌else◌,
}
use little_big_files.Common.Result.{Result, ok, err}
use little_big_files.Common.Exec.{Exec, pure, raise, gets, ◌>>=◌, ◌>>◌}
use little_big_files.Common.Text.{hex, decimal}
use little_big_files.Common.Dict.{◌=?◌, bytes_eq}
use little_big_files.Dedup.{ContentBlob}
use little_big_files.Metadata.Tables.{
  Role, original, member, unpack_error, zip_with_members, PackageFile, Package, is_member,
  is_unpack_error, is_raw_large, is_zip_with_members, any, filter,
}
use little_big_files.Metadata.Transaction.Packages.{
  create_package_file, increment_ref_counts, get_package_for_update, update_package_after_unpack,
}
use little_big_files.Metadata.Transaction.Queries.{
  get_package, get_original_file, query_blob, list_clone_package_ids,
}
use little_big_files.Storage.BlobStore.{read_blob}
use little_big_files.Ingestion.Service.{
  Environment, Config, Call, Service, IngestCounters, in_tx, in_repo, with_call, load_and_journal,
}
use little_big_files.Ingestion.Members.{persist_zip_members}
use little_big_files.Ingestion.Package.{same_file}
use text.Mathlib.Text.{◌==◌ as same_error}

-- packageFileKey
role_text : Role → Bytes
role_text original = b'o' ∷ b'r' ∷ b'i' ∷ b'g' ∷ b'i' ∷ b'n' ∷ b'a' ∷ b'l' ∷ []
role_text member = b'm' ∷ b'e' ∷ b'm' ∷ b'b' ∷ b'e' ∷ b'r' ∷ []
role_text unpack_error =
    b'u' ∷ b'n' ∷ b'p' ∷ b'a' ∷ b'c' ∷ b'k' ∷ b'_' ∷ b'e' ∷ b'r' ∷ b'r' ∷ b'o' ∷ b'r' ∷ []

name_text : Option Bytes → Bytes
name_text none = []
name_text (some name) = name

number_text : Option ℕ → Bytes
number_text none = b'-' ∷ b'1' ∷ []
number_text (some n) = decimal n

unfoldable pub package_file_key : PackageFile → Bytes
unfolding role_text name_text number_text
package_file_key f =
    role_text f.role
    ++ b'|' ∷ number_text f.sequence_number
    ++ b'|' ∷ name_text f.original_filename
    ++ b'|' ∷ hex f.blob_hash

abbrev pub is_extra : PackageFile → Bool
is_extra f = is_member f.role || is_unpack_error f.role

-- errSkipLargeUnpack
abbrev pub skip_large_unpack : String
skip_large_unpack = "large zip package already unpacked"

module _ (E : Environment) where
  -- The loop of propagateUnpackToClones over the files that a clone may lack: the new hashes.
  unfoldable pub add_missing : ℕ → List PackageFile → List Bytes → Exec (Call E) (List Bytes)
  add_missing clone_id [] existing = pure []
  add_missing clone_id (f ∷ files) existing =
      if any (λ key. key =? package_file_key f) existing
      then add_missing clone_id files existing
      else do
        in_tx E (create_package_file clone_id (same_file f))
        hashes ← add_missing clone_id files (package_file_key f ∷ existing)
        pure (f.blob_hash ∷ hashes)

  -- The transaction on a clone.
  unfoldable pub propagate_tx : Package → ℕ → List Bytes → Exec (Call E) Unit
  propagate_tx canonical clone_id existing = do
    hashes ← add_missing clone_id (filter is_extra canonical.files) existing
    in_tx E (increment_ref_counts hashes)
    in_tx E (
        update_package_after_unpack clone_id zip_with_members canonical.file_count
          canonical.unpack_error)
    pure tt

  unfoldable pub propagate_to : Package → ℕ → Option Package → Exec (Service E) Unit
  propagate_to canonical clone_id none = pure tt
  propagate_to canonical clone_id (some clone) =
      if not (is_raw_large clone.storage_mode) then pure tt else do
        with_call E
            (propagate_tx canonical clone_id (map package_file_key (filter is_extra clone.files)))
        pure tt

  unfoldable pub propagate_to_all : Package → List ℕ → Exec (Service E) Unit
  propagate_to_all canonical [] = pure tt
  propagate_to_all canonical (clone_id ∷ ids) = do
    clone ← in_repo E (get_package clone_id)
    propagate_to canonical clone_id clone
    propagate_to_all canonical ids

  unfoldable pub propagate_from : ℕ → Option Package → Exec (Service E) Unit
  propagate_from canonical_id none = pure tt
  propagate_from canonical_id (some canonical) =
      if not (is_zip_with_members canonical.storage_mode)
      then pure tt
      else do ids ← in_repo E (list_clone_package_ids canonical_id); propagate_to_all canonical ids

  -- propagateUnpackToClones
  unfoldable pub propagate_unpack_to_clones : ℕ → Exec (Service E) Unit
  propagate_unpack_to_clones canonical_id = do
    canonical ← in_repo E (get_package canonical_id)
    propagate_from canonical_id canonical

  -- What follows an unpacking, or one that had been done before.
  unfoldable pub propagate_and_journal : ℕ → Exec (Service E) Unit
  propagate_and_journal package_id = do
    propagate_unpack_to_clones package_id
    load_and_journal E package_id
    pure tt

  -- The transaction of UnpackLargePackage.
  unfoldable pub unpack_locked : Config → ℕ → Bytes → Option Package → Exec (Call E) Unit
  unpack_locked config package_id zip_bytes none = raise "package not found"
  unpack_locked config package_id zip_bytes (some locked) =
      if not (is_raw_large locked.storage_mode) then raise skip_large_unpack else do
        counted ← persist_zip_members E config package_id locked.supplier_id zip_bytes
        updated ←
            in_tx E (update_package_after_unpack package_id zip_with_members counted.0 counted.1)
        (if updated then pure tt else raise skip_large_unpack)

  unfoldable pub unpack_tx : Config → ℕ → Bytes → Exec (Call E) Unit
  unpack_tx config package_id zip_bytes = do
    locked ← in_tx E (get_package_for_update package_id)
    unpack_locked config package_id zip_bytes locked

  unfoldable pub after_unpack : ℕ → Result (Unit {0} × IngestCounters) → Exec (Service E) Unit
  after_unpack package_id (ok _) = propagate_and_journal package_id
  after_unpack package_id (err e) =
      if same_error e skip_large_unpack then propagate_and_journal package_id else raise e

  unfoldable pub unpack_bytes : Config → ℕ → Result Bytes → Exec (Service E) Unit
  unpack_bytes config package_id (err e) s = (err e, s)
  unpack_bytes config package_id (ok zip_bytes) s =
      let (r, t) = with_call E (unpack_tx config package_id zip_bytes) s in
      after_unpack package_id r t

  unfoldable pub unpack_blob : Config → ℕ → Option ContentBlob → Exec (Service E) Unit
  unpack_blob config package_id none = raise "blob missing"
  unpack_blob config package_id (some blob) = do
    read ← gets (λ (s : Service E). read_blob E.bloom E.sha256 E.encoder s.shard blob)
    unpack_bytes config package_id read

  unfoldable pub unpack_original : Config → ℕ → Option PackageFile → Exec (Service E) Unit
  unpack_original config package_id none = raise "package has no original"
  unpack_original config package_id (some orig) = do
    blob ← in_repo E (query_blob orig.blob_hash)
    unpack_blob config package_id blob

  unfoldable pub unpack_package : Config → ℕ → Option Package → Exec (Service E) Unit
  unpack_package config package_id none = raise "package not found"
  unpack_package config package_id (some pkg) =
      if is_zip_with_members pkg.storage_mode
      then propagate_and_journal package_id
      else if not (is_raw_large pkg.storage_mode)
      then pure tt
      else do
        orig ← in_repo E (get_original_file package_id)
        unpack_original config package_id orig

  -- UnpackLargePackage
  unfoldable pub unpack_large_package : Config → ℕ → Exec (Service E) Unit
  unpack_large_package config package_id = do
    pkg ← in_repo E (get_package package_id)
    unpack_package config package_id pkg

-- ===== src/Ingestion/Package.antt =====
-- internal/ingestion/package.go: ProcessPackage and the ways it stores a package.
use little_big_files.Common.{
  ℕ, ◌+◌, Bool, true, false, Option, none, some, String, List, [], ◌∷◌, Bytes, length, ltb, ◌==◌,
  ◌||◌, if◌then◌else◌,
}
use little_big_files.Common.Result.{Result, ok, err}
use little_big_files.Common.Exec.{Exec, pure, raise, modify, ◌>>=◌, ◌>>◌}
use little_big_files.Metadata.Tables.{
  StorageMode, single, zip_with_members, raw_large, PayloadType, zip, xml, PackageFile, Package,
  CreatePackageInput, CreateFileInput,
}
use little_big_files.Metadata.Transaction.Packages.{
  create_package, create_package_file, increment_ref_counts,
}
use little_big_files.Metadata.Transaction.Queries.{find_canonical_package_id, get_package}
use little_big_files.Storage.Record.{RecordType, record_xml, record_zip}
use little_big_files.Ingestion.Detect.{detect_payload}
use little_big_files.Ingestion.Zip.{count_zip_entries, check_zip_uncompressed_limit}
use little_big_files.Ingestion.Service.{
  Environment, Config, Call, Service, UnpackQueue, no_counters, enqueue, in_tx, in_repo, with_call,
  store, load_and_journal, record_ingest,
}
use little_big_files.Ingestion.Members.{persist_unpack_error, persist_zip_members, original_file}

-- A new package that is no clone.
abbrev pub own_package :
    ℕ → Bytes → PayloadType → StorageMode → Option Bytes → ℕ → Option String → CreatePackageInput
own_package supplier_id package_hash payload_type mode filename file_count unpack_error = record {
  supplier_id = supplier_id;
  package_hash = package_hash;
  payload_type = payload_type;
  storage_mode = mode;
  original_filename = filename;
  canonical_package_id = none;
  file_count = file_count;
  unpack_error = unpack_error;
}

abbrev pub cloned_package :
    ℕ → Bytes → PayloadType → Option Bytes → ℕ → Package → CreatePackageInput
cloned_package supplier_id package_hash payload_type filename canonical_id canonical = record {
  supplier_id = supplier_id;
  package_hash = package_hash;
  payload_type = payload_type;
  storage_mode = canonical.storage_mode;
  original_filename = filename;
  canonical_package_id = some canonical_id;
  file_count = canonical.file_count;
  unpack_error = canonical.unpack_error;
}

abbrev pub same_file : PackageFile → CreateFileInput
same_file f = record {
  blob_hash = f.blob_hash;
  role = f.role;
  original_filename = f.original_filename;
  sequence_number = f.sequence_number;
}

module _ (E : Environment) where
  -- The loop of clonePackage over the rows: their hashes.
  unfoldable pub clone_files : ℕ → List PackageFile → Exec (Call E) (List Bytes)
  clone_files package_id [] = pure []
  clone_files package_id (f ∷ rows) = do
    in_tx E (create_package_file package_id (same_file f))
    hashes ← clone_files package_id rows
    pure (f.blob_hash ∷ hashes)

  -- The transaction of clonePackage.
  unfoldable pub clone_tx : CreatePackageInput → List PackageFile → Exec (Call E) ℕ
  clone_tx input rows = do
    package_id ← in_tx E (create_package input)
    hashes ← clone_files package_id rows
    in_tx E (increment_ref_counts hashes)
    pure package_id

  unfoldable pub clone_of :
      ℕ
      → Bytes
      → PayloadType
      → Option Bytes
      → ℕ
      → Option Package
      → Exec (Service E) (Option Package)
  clone_of supplier_id package_hash payload_type filename canonical_id none =
      raise "canonical package missing"
  clone_of supplier_id package_hash payload_type filename canonical_id (some canonical) = do
    created ← with_call E (
        clone_tx
          (cloned_package supplier_id package_hash payload_type filename canonical_id canonical)
          canonical.files)
    load_and_journal E created.0

  -- clonePackage
  unfoldable pub clone_package :
      ℕ → Bytes → PayloadType → Option Bytes → ℕ → Exec (Service E) (Option Package)
  unfolding clone_of
  clone_package supplier_id package_hash payload_type filename canonical_id = do
    canonical ← in_repo E (get_package canonical_id)
    clone_of supplier_id package_hash payload_type filename canonical_id canonical

  -- What the transactions of all new packages begin with: the body, its package and its original.
  unfoldable pub create_original :
      Bytes → RecordType → ℕ → CreatePackageInput → Option Bytes → Exec (Call E) ℕ
  create_original body type supplier_id input filename = do
    hash ← store E body type supplier_id
    package_id ← in_tx E (create_package input)
    in_tx E (create_package_file package_id (original_file hash filename))
    pure package_id

  -- ingestXML
  unfoldable pub ingest_xml : ℕ → Bytes → Bytes → Option Bytes → Exec (Service E) (Option Package)
  ingest_xml supplier_id package_hash body filename = do
    created ← with_call E (
        create_original body record_xml supplier_id
          (own_package supplier_id package_hash xml single filename 1 none) filename)
    record_ingest E supplier_id 1 created.1 false
    load_and_journal E created.0

  -- ingestLargeZIP
  unfoldable pub enqueued : ℕ → Option UnpackQueue → Option UnpackQueue
  enqueued package_id none = none
  enqueued package_id (some q) = some (enqueue package_id q)

  unfoldable pub enqueue_unpack : Bool → ℕ → Exec (Service E) Unit
  unfolding enqueued
  enqueue_unpack false package_id = pure tt
  enqueue_unpack true package_id =
      modify (λ (s : Service E). record s { unpack_queue = enqueued package_id s.unpack_queue })

  unfoldable pub ingest_large_zip :
      Config → ℕ → Bytes → Bytes → Option Bytes → Exec (Service E) (Option Package)
  unfolding enqueue_unpack
  ingest_large_zip config supplier_id package_hash body filename = do
    created ← with_call E (
        create_original body record_zip supplier_id
          (own_package supplier_id package_hash zip raw_large filename 1 none) filename)
    record_ingest E supplier_id 1 created.1 false
    enqueue_unpack config.large_zip_async_unpack created.0
    load_and_journal E created.0

  -- The error that ingestSmallZIP finds before it stores anything, and the count of files.
  abbrev pub error_of : Result (Unit {0}) → Option String
  error_of (ok _) = none
  error_of (err e) = some e

  unfoldable pub expected : Result ℕ → Result (Unit {0}) → Option String × ℕ
  expected (err e) limit = (some e, 2)
  expected (ok n) (err e) = (some e, 2)
  expected (ok n) (ok _) = (none, 1 + n)

  unfoldable pub unpack_members : Config → ℕ → ℕ → Bytes → Option String → Exec (Call E) Unit
  unpack_members config package_id supplier_id body (some e) =
      persist_unpack_error E package_id supplier_id e
  unpack_members config package_id supplier_id body none = do
    persist_zip_members E config package_id supplier_id body
    pure tt

  -- The transaction of ingestSmallZIP.
  unfoldable pub small_zip_tx :
      Config → ℕ → Bytes → CreatePackageInput → Option Bytes → Option String → Exec (Call E) ℕ
  unfolding unpack_members
  small_zip_tx config supplier_id body input filename unpack_error = do
    package_id ← create_original body record_zip supplier_id input filename
    unpack_members config package_id supplier_id body unpack_error
    pure package_id

  -- ingestSmallZIP
  unfoldable pub store_small_zip :
      Config
      → ℕ
      → Bytes
      → Bytes
      → Option Bytes
      → Option String × ℕ
      → Exec (Service E) (Option Package)
  store_small_zip config supplier_id package_hash body filename (unpack_error, file_count) = do
    created ← with_call E (
        small_zip_tx config supplier_id body
          (own_package supplier_id package_hash zip zip_with_members filename file_count
            unpack_error)
          filename unpack_error)
    record_ingest E supplier_id file_count created.1 false
    load_and_journal E created.0

  unfoldable pub ingest_small_zip :
      Config → ℕ → Bytes → Bytes → Option Bytes → Exec (Service E) (Option Package)
  unfolding expected
  ingest_small_zip config supplier_id package_hash body filename =
      store_small_zip config supplier_id package_hash body filename (
        expected (count_zip_entries (E.zip_reader body))
          (check_zip_uncompressed_limit (E.zip_reader body) config.max_unpacked_zip_bytes))

  -- ingestZIP
  abbrev pub more_than : ℕ → Result ℕ → Bool
  more_than threshold (err e) = false
  more_than threshold (ok count) = ltb threshold count

  unfoldable pub ingest_zip :
      Config → ℕ → Bytes → Bytes → Option Bytes → Exec (Service E) (Option Package)
  ingest_zip config supplier_id package_hash body filename =
      if ltb config.zip_threshold_size (length body)
        || more_than config.zip_threshold_count (count_zip_entries (E.zip_reader body))
      then ingest_large_zip config supplier_id package_hash body filename
      else ingest_small_zip config supplier_id package_hash body filename

  -- ProcessPackage
  unfoldable pub recorded_clone : ℕ → Option Package → Exec (Service E) (Option Package)
  recorded_clone supplier_id none = raise "nil package"
  recorded_clone supplier_id (some pkg) = do
    record_ingest E supplier_id pkg.file_count no_counters true
    pure (some pkg)

  unfoldable pub ingest_new :
      Config → ℕ → Bytes → Bytes → Option Bytes → PayloadType → Exec (Service E) (Option Package)
  ingest_new config supplier_id package_hash body filename xml =
      ingest_xml supplier_id package_hash body filename
  ingest_new config supplier_id package_hash body filename zip =
      ingest_zip config supplier_id package_hash body filename

  unfoldable pub ingest_or_clone :
      Config
      → ℕ
      → Bytes
      → Bytes
      → Option Bytes
      → PayloadType
      → Option ℕ
      → Exec (Service E) (Option Package)
  unfolding recorded_clone ingest_new
  ingest_or_clone config supplier_id package_hash body filename payload_type none =
      ingest_new config supplier_id package_hash body filename payload_type
  ingest_or_clone config supplier_id package_hash body filename payload_type (some id) = do
    pkg ← clone_package supplier_id package_hash payload_type filename id
    recorded_clone supplier_id pkg

  unfoldable pub process_payload :
      Config → ℕ → Bytes → Option Bytes → Result PayloadType → Exec (Service E) (Option Package)
  unfolding ingest_or_clone
  process_payload config supplier_id body filename (err e) = raise e
  process_payload config supplier_id body filename (ok payload_type) = do
    canonical_id ← in_repo E (find_canonical_package_id (E.sha256 body))
    ingest_or_clone config supplier_id (E.sha256 body) body filename payload_type canonical_id

  unfoldable pub process_package :
      Config → ℕ → Bytes → Option Bytes → Exec (Service E) (Option Package)
  unfolding process_payload
  process_package config supplier_id body filename =
      if length body == 0
      then raise "empty body"
      else if ltb config.max_body_bytes (length body)
      then raise "payload too large"
      else process_payload config supplier_id body filename (detect_payload body)

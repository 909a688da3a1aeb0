-- ===== src/Ingestion/Service.antt =====
-- internal/ingestion: the service with its shard, its journal and its queue, and what both ways to
-- ingest use: package.go journalPackage and loadAndJournal, stats.go, recovery/journal_record.go,
-- and the methods of the queue that the service calls.
pub mod Keeps
use little_big_files.Common.{
  not, ℕ, ◌+◌, Bool, true, false, Option, none, some, String, List, [], ◌∷◌, ◌++◌, map, Bytes,
  length, ltb, ◌==◌, if◌then◌else◌,
}
use little_big_files.Common.Result.{Result, ok, err}
use little_big_files.Common.Exec.{Exec, pure, modify, ◌>>=◌, ◌>>◌}
use little_big_files.Common.Triple.{within}
use little_big_files.Common.Text.{hex}
use little_big_files.Dedup.{BloomLibrary}
use little_big_files.Metadata.Tables.{
  Role, StorageMode, PayloadType, PackageFile, Package, any, filter,
}
use little_big_files.Metadata.Transaction.{Database, head_outcome, later_outcomes, with_tx}
use little_big_files.Metadata.Transaction.Queries.{get_package, record_supplier_ingest}
use little_big_files.Storage.Record.{RecordType}
use little_big_files.Storage.BlobStore.{Encoder, Shard, store_or_ref, set_db}
use little_big_files.Ingestion.Zip.{ZipEntry}

-- config.Config, as far as ingestion reads it. max_unpacked_zip_bytes is the word of an int64.
pub record Config : Type 0 where
  pub zip_threshold_size : ℕ
  pub zip_threshold_count : ℕ
  pub max_body_bytes : ℕ
  pub max_unpacked_zip_bytes : ℕ
  pub large_zip_async_unpack : Bool

-- What is not in the repository: the Bloom filter, SHA-256, zstd, archive/zip, the text of an error
-- and the format of a time.
pub record Environment : Type 1 where
  pub bloom : BloomLibrary
  pub sha256 : Bytes → Bytes
  pub encoder : Option Encoder
  pub zip_reader : Bytes → Result (List ZipEntry)
  pub message : String → Bytes
  pub format_time_utc : ℕ → Bytes

-- FileRef and JournalEntry
pub record FileRef : Type 0 where
  pub file_id : ℕ
  pub blob_hash : Bytes
  pub role : Role
  pub original_filename : Option Bytes
  pub sequence_number : Option ℕ

pub record JournalEntry : Type 0 where
  pub package_id : ℕ
  pub supplier_id : ℕ
  pub received_at : Bytes
  pub package_hash : Bytes
  pub payload_type : PayloadType
  pub storage_mode : StorageMode
  pub canonical_package_id : Option ℕ
  pub original_filename : Option Bytes
  pub file_count : ℕ
  pub unpack_error : Option String
  pub files : List FileRef

file_ref : PackageFile → FileRef
file_ref f = record {
  file_id = f.id;
  blob_hash = hex f.blob_hash;
  role = f.role;
  original_filename = f.original_filename;
  sequence_number = f.sequence_number;
}

-- EntryFromPackage
unfoldable pub entry_from_package : (ℕ → Bytes) → Package → JournalEntry
unfolding file_ref
entry_from_package format_time_utc pkg = record {
  package_id = pkg.id;
  supplier_id = pkg.supplier_id;
  received_at = format_time_utc pkg.received_at;
  package_hash = hex pkg.package_hash;
  payload_type = pkg.payload_type;
  storage_mode = pkg.storage_mode;
  canonical_package_id = pkg.canonical_package_id;
  original_filename = pkg.original_filename;
  file_count = pkg.file_count;
  unpack_error = pkg.unpack_error;
  files = map file_ref pkg.files;
}

-- The entries that Append wrote in whole; its next calls succeed or fail.
pub record Journal : Type 0 where
  pub entries : List JournalEntry
  pub outcomes : List Bool

-- UnpackQueue: the channel with its capacity, and the set of ids in flight.
pub record UnpackQueue : Type 0 where
  pub channel : List ℕ
  pub capacity : ℕ
  pub inflight : List ℕ

abbrev pub is_inflight : ℕ → UnpackQueue → Bool
is_inflight id q = any (λ m. m == id) q.inflight

-- The first section of Enqueue under mu: none where the id is in flight already.
unfoldable pub enter : ℕ → UnpackQueue → Option UnpackQueue
enter id q = if is_inflight id q then none else some (record q { inflight = id ∷ q.inflight })

-- The send to the channel: none where it is full.
unfoldable pub try_send : ℕ → UnpackQueue → Option UnpackQueue
try_send id q =
    if ltb (length q.channel) q.capacity
    then some (record q { channel = q.channel ++ id ∷ [] })
    else none

-- delete(q.inflight, id)
unfoldable pub unmark : ℕ → UnpackQueue → UnpackQueue
unmark id q = record q { inflight = filter (λ m. not (m == id)) q.inflight }

-- Enqueue, where nothing comes between its sections: an id that is in flight or finds the channel
-- full is dropped.
unfoldable pub enqueue : ℕ → UnpackQueue → UnpackQueue
enqueue id q = elim (enter id q) [
  | none ↦ q
  | some marked ↦ elim (try_send id marked) [ none ↦ unmark id marked | some sent ↦ sent ]
]

-- ingestCounters
pub record IngestCounters : Type 0 where
  pub new_blobs : ℕ
  pub duplicate_refs : ℕ

abbrev pub no_counters : IngestCounters
no_counters = record { new_blobs = 0; duplicate_refs = 0 }

unfoldable pub count_created : Bool → IngestCounters → IngestCounters
count_created true c = record c { new_blobs = c.new_blobs + 1 }
count_created false c = record c { duplicate_refs = c.duplicate_refs + 1 }

module _ (E : Environment) where
  abbrev pub Store : Type 0
  Store = Shard E.bloom E.sha256 E.encoder

  -- Service, with nil for a journal or a queue that is not set.
  pub record Service : Type 0 where
    pub shard : Store
    pub journal : Option Journal
    pub unpack_queue : Option UnpackQueue

  -- The shard and the variables that the function of a transaction captures.
  pub record Call : Type 0 where
    pub shard : Store
    pub counters : IngestCounters
    pub member_count : ℕ

  abbrev pub call_db : Call → Database
  call_db c = c.shard.db

  abbrev pub set_call_db : Database → Call → Call
  set_call_db d c = record c { shard = set_db E.bloom E.sha256 E.encoder d c.shard }

  abbrev pub in_tx : {A : Type 0} → Exec Database A → Exec Call A
  in_tx m = within call_db set_call_db m

  abbrev pub service_db : Service → Database
  service_db s = s.shard.db

  abbrev pub set_service_db : Database → Service → Service
  set_service_db d s = record s { shard = set_db E.bloom E.sha256 E.encoder d s.shard }

  abbrev pub in_repo : {A : Type 0} → Exec Database A → Exec Service A
  in_repo m = within service_db set_service_db m

  -- repo.WithTx, with the counters at the end.
  unfoldable pub returned :
      {A : Type 0} → Service → Result A × Call → Result (A × IngestCounters) × Service
  returned s (ok a, c) = (ok (a, c.counters), record s { shard = c.shard })
  returned s (err e, c) = (err e, record s { shard = c.shard })

  unfoldable pub with_call : {A : Type 0} → Exec Call A → Exec Service (A × IngestCounters)
  unfolding returned
  with_call fn s = returned s (
      with_tx call_db set_call_db fn
        record { shard = s.shard; counters = no_counters; member_count = 0 })

  -- blobs.StoreOrRef and counters.add
  unfoldable pub store : Bytes → RecordType → ℕ → Exec Call Bytes
  store content type supplier_id = do
    stored ←
        within (λ (c : Call). c.shard) (λ shard c. record c { shard = shard })
          (store_or_ref E.bloom E.sha256 E.encoder content type supplier_id)
    modify (λ (c : Call). record c { counters = count_created stored.1 c.counters })
    pure stored.0

  -- journalPackage
  unfoldable pub append_entry : JournalEntry → Option Journal → Result (Unit {0}) × Option Journal
  append_entry e none = (ok tt, none)
  append_entry e (some j) =
      if head_outcome j.outcomes
      then (
        ok tt,
        some (record { entries = j.entries ++ e ∷ []; outcomes = later_outcomes j.outcomes }),
      )
      else (err "journal", some (record j { outcomes = later_outcomes j.outcomes }))

  unfoldable pub journal_package : Option Package → Exec Service Unit
  unfolding append_entry
  journal_package none = pure tt
  journal_package (some pkg) =
      within (λ (s : Service). s.journal) (λ j s. record s { journal = j })
        (append_entry (entry_from_package E.format_time_utc pkg))

  -- loadAndJournal
  unfoldable pub load_and_journal : ℕ → Exec Service (Option Package)
  unfolding journal_package
  load_and_journal package_id = do
    pkg ← in_repo (get_package package_id)
    journal_package pkg
    pure pkg

  -- recordIngest, which ignores an error.
  unfoldable pub ignored : {A : Type 0} → Result A × Service → Result (Unit {0}) × Service
  ignored (r, s) = (ok tt, s)

  unfoldable pub record_ingest : ℕ → ℕ → IngestCounters → Bool → Exec Service Unit
  unfolding ignored
  record_ingest supplier_id file_count counters package_clone s =
      let dup = if package_clone then file_count else counters.duplicate_refs in
      ignored (in_repo (record_supplier_ingest supplier_id file_count counters.new_blobs dup) s)

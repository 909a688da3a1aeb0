-- ===== src/Ingestion/Tests.antt =====
-- The service on concrete inputs, and the theorems at them.
use little_big_files.Common.{
  inr, some, ◌+◌, ℕ, ◌≡◌, ◌≤◌, refl, Bool, true, false, none, String, List, [], ◌∷◌, Bytes, take,
  length, arith,
}
use little_big_files.Common.Result.{Result, ok, err}
use little_big_files.Common.Dict.{lookup}
use little_big_files.Storage.Segment.{SegmentManager, opened}
use little_big_files.Dedup.{BloomLibrary}
use little_big_files.Metadata.Blobs.{get_blob}
use little_big_files.Metadata.Tables.{single, xml, Package, Tables, any}
use little_big_files.Metadata.Transaction.{end_tx, with_tx, Database}
use little_big_files.Metadata.Transaction.Queries.{rows}
use little_big_files.Metadata.Balance.{Covered}
use little_big_files.Ingestion.Zip.{
  ZipEntry, effective_max_unpacked_zip_bytes, unpack_zip_with_limit,
}
use little_big_files.Ingestion.Zip.Bounds.{unpacked_size, unpack_zip_with_limit_le}
use little_big_files.Ingestion.Service.{
  UnpackQueue, enter, try_send, Environment, Config, Service, with_call, returned,
}
use little_big_files.Ingestion.Package.{process_payload, process_package}
use little_big_files.Ingestion.Unpack.{unpack_large_package}
use little_big_files.Ingestion.Queue.{
  Workers, Reach, started, new_unpack_queue, calls, marks, sends, takes, starts, steps,
}
use little_big_files.Ingestion.Queue.Invariant.{times, held, Reach-once}
use little_big_files.Ingestion.Balance.Process.{process_package-Covered}
use little_big_files.Ingestion.Balance.Unpack.{unpack_large_package-Covered}
use little_big_files.Ingestion.Returned.Process.{IsPackageOf, process_package-IsPackageOf}
use little_big_files.Ingestion.Detect.{detect_payload, trim_space, space_width}
use little_big_files.Common.Text.{has_prefix}
use little_big_files.Metadata.Transaction.Queries.{
  find_canonical_package_id, first_id, get_package, with_files, record_supplier_ingest,
}
use little_big_files.Metadata.Transaction.Packages.{
  create_package, insert_package, has_canonical, increment_ref_counts,
}
use little_big_files.Metadata.Tables.{list_package_files, joined, filter}
use little_big_files.Metadata.Transaction.{query, statement, completed}
use little_big_files.Ingestion.Service.{load_and_journal, journal_package, record_ingest, ignored}
use little_big_files.Ingestion.Package.{
  ingest_or_clone, clone_package, clone_of, clone_tx, clone_files, recorded_clone,
}
use little_big_files.Common.Dict.{insert}
use little_big_files.Ingestion.Errors.{IsOther, process_package-refused}

abbrev no_filter : BloomLibrary
no_filter = record {
  Rate = Bool;
  is_positive = λ rate. rate;
  one_in_thousand = true;
  Filter = List Bytes;
  new_with_estimates = λ n rate. [];
  test = λ f h. true;
  add = λ f h. h ∷ f;
}

abbrev archive_body : Bytes
archive_body = b'P' ∷ b'K' ∷ 3 ∷ 4 ∷ []

-- Two members with the same content, of three entries; the last one cannot be opened.
abbrev entries : List ZipEntry
entries =
    record {
      name = b'a' ∷ [];
      is_dir = false;
      uncompressed_size64 = 2;
      open_stream = ok record { content = b'<' ∷ b'a' ∷ []; failure = none };
    }
    ∷ record {
      name = b'b' ∷ [];
      is_dir = false;
      uncompressed_size64 = 2;
      open_stream = ok record { content = b'<' ∷ b'a' ∷ []; failure = none };
    }
    ∷ record {
      name = b'c' ∷ [];
      is_dir = false;
      uncompressed_size64 = 1;
      open_stream = err "zip: unsupported compression algorithm";
    }
    ∷ []

abbrev read_entries : Bytes → Result (List ZipEntry)
read_entries bytes = ok entries

abbrev env : Environment
env = record {
  bloom = no_filter;
  sha256 = take 3;
  encoder = none;
  zip_reader = read_entries;
  message = λ m. b'e' ∷ [];
  format_time_utc = λ t. [];
}

abbrev config : Config
config = record {
  zip_threshold_size = 100;
  zip_threshold_count = 10;
  max_body_bytes = 1000;
  max_unpacked_zip_bytes = 1000;
  large_zip_async_unpack = true;
}

-- Every archive is large.
abbrev large_config : Config
large_config = record config { zip_threshold_size = 0 }

abbrev segment_files : SegmentManager
segment_files = record {
  files = (0, record { content = []; durable = [] }) ∷ [];
  max_segment_size = 1000;
  verify_checksum = true;
  active_id = 0;
  active_file = opened 0;
  active_offset = 0;
  record_count = 0;
  faults = [];
}

abbrev no_tables : Tables
no_tables = record { blobs = []; packages = []; package_files = []; supplier_stats = [] }

abbrev db : Database
db = record {
  tables = no_tables;
  sequences = record { package_id = 1; file_id = 1 };
  clock = 0;
  aborted = false;
  outcomes = [];
}

abbrev service : Service env
service = record {
  shard = record {
    segments = segment_files;
    index_files = none;
    index_outcomes = [];
    index = none;
    db = db;
  };
  journal = none;
  unpack_queue = none;
}

no_tables-Covered : Covered no_tables
unfolding rows get_blob lookup
no_tables-Covered = record { counts = λ k. omega arith }

process_package-Covered_example :
    Covered (process_package env config 5 archive_body none service).1.shard.db.tables
process_package-Covered_example =
    process_package-Covered env config 5 archive_body none service no_tables-Covered

-- A large archive that waits for its unpacking.
abbrev waiting : Service env
waiting = (process_package env large_config 5 archive_body none service).1

waiting-Covered : Covered waiting.shard.db.tables
waiting-Covered =
    process_package-Covered env large_config 5 archive_body none service no_tables-Covered

unpack_large_package-Covered_example :
    Covered (unpack_large_package env large_config 1 waiting).1.shard.db.tables
unpack_large_package-Covered_example =
    unpack_large_package-Covered env large_config 1 waiting waiting-Covered

-- A text behind white space, which is neither.
abbrev plain : Bytes
plain = b' ' ∷ b'a' ∷ b'b' ∷ b'c' ∷ b'd' ∷ []

plain-IsOther : IsOther plain
plain-IsOther = (
  b' ' ∷ [],
  b'a' ∷ b'b' ∷ b'c' ∷ b'd' ∷ [],
  (inr refl, tt),
  refl,
  inr (b'a', b'b' ∷ b'c' ∷ b'd' ∷ [], refl, omega arith, (λ h. ground (arith, h)), omega arith),
)

process_package-refused_example :
    (m : String) × (process_package env config 5 plain none service ≡ (err m, service))
process_package-refused_example =
    process_package-refused env config 5 plain none service
      (inr (inr ((λ e. absurd (cc e)), plain-IsOther)))

unpack_zip_with_limit_le_example :
    unpacked_size (unpack_zip_with_limit read_entries archive_body 3).1
    ≤ effective_max_unpacked_zip_bytes 3
unpack_zip_with_limit_le_example = unpack_zip_with_limit_le read_entries archive_body 3

-- A request has enqueued a package, and a worker has taken it.
abbrev idle : Workers
idle = started 2 4

abbrev one_called : Workers
one_called = record idle { called = 7 ∷ [] }

abbrev in_flight : UnpackQueue
in_flight = record idle.queue { inflight = 7 ∷ [] }

abbrev one_marked : Workers
one_marked = record idle { queue = in_flight; marked = 7 ∷ [] }

abbrev one_sent : Workers
one_sent = record idle { queue = record in_flight { channel = 7 ∷ [] } }

abbrev one_running : Workers
one_running = record idle { queue = in_flight; running = 7 ∷ [] }

one_reached : Reach 2 4 one_running
unfolding started new_unpack_queue enter try_send any
one_reached =
    steps
      (steps (steps (steps starts (calls 7 idle)) (marks [] [] 7 one_called in_flight refl refl))
        (sends [] [] 7 one_marked one_sent.queue refl refl))
      (takes 7 [] one_sent refl (omega arith))

Reach-once_example :
    ((id : ℕ)
      → (times id one_running.running + times id one_running.queue.channel ≤ 1)
        × (held id one_running ≡ times id one_running.queue.inflight))
    × (length one_running.running ≤ one_running.workers)
    × (length one_running.queue.channel ≤ one_running.queue.capacity)
Reach-once_example = Reach-once 2 4 one_running one_reached

-- A file that is known already is answered with a clone.
abbrev doc : Bytes
doc = b'<' ∷ b'a' ∷ b'/' ∷ b'>' ∷ []

abbrev known : Package
known = record {
  id = 1;
  supplier_id = 4;
  received_at = 0;
  package_hash = take 3 doc;
  payload_type = xml;
  storage_mode = single;
  original_filename = none;
  canonical_package_id = none;
  file_count = 0;
  unpack_error = none;
  files = [];
}

abbrev knowing : Service env
knowing = record service {
  shard = record service.shard {
    db = record db {
      tables = record no_tables { packages = (1, known) ∷ [] };
      sequences = record { package_id = 2; file_id = 1 };
    };
  };
}

abbrev clone : Package
clone = record known {
  id = 2;
  supplier_id = 5;
  original_filename = some (b'a' ∷ []);
  canonical_package_id = some 1;
}

abbrev after : Service env
after = (process_package env config 5 doc (some (b'a' ∷ [])) knowing).1

detected : detect_payload doc ≡ ok xml
unfolding detect_payload trim_space has_prefix space_width
detected = refl

cloned : process_package env config 5 doc (some (b'a' ∷ [])) knowing ≡ (ok (some clone), after)
unfolding process_package process_payload detect_payload trim_space has_prefix space_width
    find_canonical_package_id query first_id ingest_or_clone clone_package clone_of get_package
    with_files list_package_files joined filter lookup insert with_call returned with_tx end_tx
    clone_tx clone_files create_package statement completed insert_package has_canonical
    increment_ref_counts load_and_journal journal_package recorded_clone record_ingest ignored
    record_supplier_ingest
cloned = refl

process_package-IsPackageOf_example :
    (p : Package) × (some clone ≡ some p) × IsPackageOf 5 (take 3 doc) xml (some (b'a' ∷ [])) p
process_package-IsPackageOf_example =
    process_package-IsPackageOf env config 5 doc (some (b'a' ∷ [])) xml knowing after (some clone)
      detected cloned

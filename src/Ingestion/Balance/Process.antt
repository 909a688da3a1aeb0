-- ===== src/Ingestion/Balance/Process.antt =====
-- internal/ingestion/package.go: ProcessPackage keeps the reference counts at least the rows.
use little_big_files.Common.{
  ℕ, Bool, true, false, Option, none, some, String, [], Bytes, length, ltb, ◌==◌,
}
use little_big_files.Common.Result.{Result, ok, err}
use little_big_files.Common.Triple.{
  Triple-bind, Triple-pure, Triple-raise, Triple-if, Triple-modify,
}
use little_big_files.Metadata.Tables.{Package, PayloadType, xml, zip}
use little_big_files.Metadata.Transaction.Queries.Keeps.{
  get_package-Keeps, find_canonical_package_id-Keeps,
}
use little_big_files.Metadata.Balance.{Owed, Owed-Same, Covered, Covered→Owed, Owed→Covered}
use little_big_files.Storage.Record.{record_xml, record_zip}
use little_big_files.Ingestion.Detect.{detect_payload}
use little_big_files.Ingestion.Service.{
  no_counters, Environment, Config, Service, IngestCounters, record_ingest,
}
use little_big_files.Ingestion.Package.{
  store_small_zip, clone_of, clone_package, ingest_xml, enqueue_unpack, ingest_large_zip,
  ingest_small_zip, ingest_zip, recorded_clone, ingest_new, ingest_or_clone, process_payload,
  process_package,
}
use little_big_files.Ingestion.Balance.Calls.{
  clone_tx-Balances, with_call-Serves, Serves-ends, clone_tx-Balances, create_original-Balances,
  small_zip_tx-Balances,
}
use little_big_files.Ingestion.Service.Keeps.{
  Serves, repo-Serves, load_and_journal-Serves, record_ingest-Serves,
}

module _ (E : Environment) where
  recorded :
      (supplier_id file_count : ℕ) (counters : IngestCounters) (package_clone : Bool)
      → Serves E (Owed [] []) (record_ingest E supplier_id file_count counters package_clone)
  recorded = record_ingest-Serves E (Owed [] []) λ t u b f p o. Owed-Same [] [] t u (b, f) o

  module _ (config : Config) (supplier_id : ℕ) (hash body : Bytes) (filename : Option Bytes) where
    clone_of-Serves :
        (payload_type : PayloadType) (id : ℕ) (o : Option Package)
        → Serves E (Owed [] []) (clone_of E supplier_id hash payload_type filename id o)
    unfolding clone_of
    clone_of-Serves payload_type id none = Triple-raise "canonical package missing" λ s h. h
    clone_of-Serves payload_type id (some canonical) =
        Triple-bind _ _ (with_call-Serves E _ (clone_tx-Balances E _ canonical.files))
          λ created. load_and_journal-Serves E (Owed [] []) created.0

    clone_package-Serves :
        (payload_type : PayloadType) (id : ℕ)
        → Serves E (Owed [] []) (clone_package E supplier_id hash payload_type filename id)
    unfolding clone_package
    clone_package-Serves payload_type id =
        Triple-bind _ _ (repo-Serves E (Owed [] []) _ (get_package-Keeps (Owed [] []) id))
          (clone_of-Serves payload_type id)

    ingest_xml-Serves : Serves E (Owed [] []) (ingest_xml E supplier_id hash body filename)
    unfolding ingest_xml
    ingest_xml-Serves =
        Triple-bind _ _
          (with_call-Serves E _ (create_original-Balances E body record_xml supplier_id _ filename))
          λ created.
            Triple-bind _ _ (recorded supplier_id 1 created.1 false)
              λ _. load_and_journal-Serves E (Owed [] []) created.0

    enqueue_unpack-Serves :
        (async : Bool) (id : ℕ) → Serves E (Owed [] []) (enqueue_unpack E async id)
    unfolding enqueue_unpack
    enqueue_unpack-Serves false id = Triple-pure tt λ s h. h
    enqueue_unpack-Serves true id = Triple-modify _ λ s h. h

    ingest_large_zip-Serves :
        Serves E (Owed [] []) (ingest_large_zip E config supplier_id hash body filename)
    unfolding ingest_large_zip
    ingest_large_zip-Serves =
        Triple-bind _ _
          (with_call-Serves E _ (create_original-Balances E body record_zip supplier_id _ filename))
          λ created. Triple-bind _ _ (recorded supplier_id 1 created.1 false) λ _.
            Triple-bind _ _ (enqueue_unpack-Serves config.large_zip_async_unpack created.0)
              λ _. load_and_journal-Serves E (Owed [] []) created.0

    store_small_zip-Serves :
        (expects : Option String × ℕ)
        → Serves E (Owed [] []) (store_small_zip E config supplier_id hash body filename expects)
    unfolding store_small_zip
    store_small_zip-Serves (unpack_error, file_count) =
        Triple-bind _ _
          (with_call-Serves E _
            (small_zip_tx-Balances E config supplier_id body _ filename unpack_error))
          λ created.
            Triple-bind _ _ (recorded supplier_id file_count created.1 false)
              λ _. load_and_journal-Serves E (Owed [] []) created.0

    ingest_small_zip-Serves :
        Serves E (Owed [] []) (ingest_small_zip E config supplier_id hash body filename)
    unfolding ingest_small_zip
    ingest_small_zip-Serves = store_small_zip-Serves _

    ingest_new-Serves :
        (payload_type : PayloadType)
        → Serves E (Owed [] []) (ingest_new E config supplier_id hash body filename payload_type)
    unfolding ingest_new ingest_zip
    ingest_new-Serves xml = ingest_xml-Serves
    ingest_new-Serves zip =
        Triple-if _ _ _ (λ _. ingest_large_zip-Serves) (λ _. ingest_small_zip-Serves)

    recorded_clone-Serves :
        (o : Option Package) → Serves E (Owed [] []) (recorded_clone E supplier_id o)
    unfolding recorded_clone
    recorded_clone-Serves none = Triple-raise "nil package" λ s h. h
    recorded_clone-Serves (some pkg) =
        Triple-bind _ _ (recorded supplier_id pkg.file_count no_counters true)
          λ _. Triple-pure (some pkg) λ s h. h

    ingest_or_clone-Serves :
        (payload_type : PayloadType) (o : Option ℕ)
        → Serves E
            (Owed [] [])
            (ingest_or_clone E config supplier_id hash body filename payload_type o)
    unfolding ingest_or_clone
    ingest_or_clone-Serves payload_type none = ingest_new-Serves payload_type
    ingest_or_clone-Serves payload_type (some id) =
        Triple-bind _ _ (clone_package-Serves payload_type id) recorded_clone-Serves

  process_payload-Serves :
      (config : Config) (supplier_id : ℕ) (body : Bytes) (filename : Option Bytes)
      (r : Result PayloadType)
      → Serves E (Owed [] []) (process_payload E config supplier_id body filename r)
  unfolding process_payload
  process_payload-Serves config supplier_id body filename (err e) = Triple-raise e λ s h. h
  process_payload-Serves config supplier_id body filename (ok payload_type) =
      Triple-bind _ _
        (repo-Serves E (Owed [] []) _
          (find_canonical_package_id-Keeps (Owed [] []) (E.sha256 body)))
        (ingest_or_clone-Serves config supplier_id (E.sha256 body) body filename payload_type)

  process_package-Serves :
      (config : Config) (supplier_id : ℕ) (body : Bytes) (filename : Option Bytes)
      → Serves E (Owed [] []) (process_package E config supplier_id body filename)
  unfolding process_package
  process_package-Serves config supplier_id body filename =
      Triple-if (length body == 0) _ _ (λ _. Triple-raise "empty body" λ s h. h)
        (λ _.
          Triple-if (ltb config.max_body_bytes (length body)) _
            (process_payload E config supplier_id body filename (detect_payload body))
            (λ _. Triple-raise "payload too large" λ s h. h)
            (λ _. process_payload-Serves config supplier_id body filename (detect_payload body)))

-- When every blob counts at least the rows of package_files with its hash, it does so after
-- ProcessPackage, whatever the body is, and whichever statement of the database, write to a segment or
-- to an index file or member of an archive fails.
pub process_package-Covered :
    (E : Environment) (config : Config) (supplier_id : ℕ) (body : Bytes) (filename : Option Bytes)
    (s : Service E)
    → Covered s.shard.db.tables
    → Covered (process_package E config supplier_id body filename s).1.shard.db.tables
process_package-Covered E config supplier_id body filename s h = Owed→Covered _ (
    Serves-ends E _ (process_package-Serves E config supplier_id body filename) s
      (Covered→Owed s.shard.db.tables h))

-- ===== src/Ingestion/Service/Keeps.antt =====
-- internal/ingestion: what the service keeps of the tables outside of its transactions.
use little_big_files.Common.{ℕ, ◌≡◌, refl, Bool, Option, none, some}
use little_big_files.Common.Result.{Result, ok, err}
use little_big_files.Common.Exec.{Exec}
use little_big_files.Common.Triple.{Post, Triple-bind, Triple-pure}
use little_big_files.Metadata.Tables.{Tables, Package}
use little_big_files.Metadata.Transaction.{Database}
use little_big_files.Metadata.Transaction.Queries.Keeps.{
  Keeps, Keeps-within, get_package-Keeps, record_supplier_ingest-Keeps,
}
use little_big_files.Ingestion.Service.{
  Environment, Service, Journal, IngestCounters, service_db, set_service_db, in_repo,
  journal_package, append_entry, load_and_journal, record_ingest, ignored,
}

module _ (E : Environment) (R : Tables → Type 0) where
  abbrev There : Service E → Type 0
  There s = R s.shard.db.tables

  abbrev pub Serves : {A : Type 0} → Exec (Service E) A → Type 0
  Serves m = Keeps (service_db E) R m

  pub repo-Serves : {A : Type 0} (m : Exec Database A) → Keeps (λ d. d) R m → Serves (in_repo E m)
  repo-Serves m h = Keeps-within (service_db E) (set_service_db E) R m (λ d s. refl) h

  journal_package-Serves : (o : Option Package) → Serves (journal_package E o)
  unfolding journal_package
  journal_package-Serves none = Triple-pure tt λ s h. h
  journal_package-Serves (some pkg) = record { runs = λ s h. go s h (append_entry E _ s.journal) }
    where
      go :
          (s : Service E)
          → There s
          → (r : Result (Unit {0}) × Option Journal)
          → Post (λ _. There) There (r.0, record s { journal = r.1 })
      go s h (ok a, j) = h
      go s h (err e, j) = h

  pub load_and_journal-Serves : (id : ℕ) → Serves (load_and_journal E id)
  unfolding load_and_journal
  load_and_journal-Serves id =
      Triple-bind _ _ (repo-Serves _ (get_package-Keeps R id))
        λ pkg. Triple-bind _ _ (journal_package-Serves pkg) λ _. Triple-pure pkg λ s h. h

  -- What does not depend on the statistics.
  pub record_ingest-Serves :
      ((t u : Tables)
        → u.blobs ≡ t.blobs
        → u.package_files ≡ t.package_files
        → u.packages ≡ t.packages
        → R t
        → R u)
      → (supplier_id file_count : ℕ) (counters : IngestCounters) (package_clone : Bool)
      → Serves (record_ingest E supplier_id file_count counters package_clone)
  unfolding record_ingest
  record_ingest-Serves k supplier_id file_count counters package_clone = record {
    runs = λ s h. go _ _ (
        (repo-Serves _ (record_supplier_ingest-Keeps R k supplier_id _ counters.new_blobs _)).runs s
          h);
  }
    where
      go :
          (r : Result (Unit {0})) (s : Service E)
          → Post (λ _. There) There (r, s)
          → Post {A = Unit {0}} (λ _. There) There (ignored E (r, s))
      go (ok a) s h = h
      go (err e) s h = h

-- ===== src/Ingestion/Returned/Answer.antt =====
-- internal/ingestion/package.go: what is returned after a transaction has made a package.
use little_big_files.Common.{ℕ, ◌≡◌, ◌∙◌, refl, subst, Bool, true, false, Option, none, some, List}
use little_big_files.Common.Result.{Result, ok, err}
use little_big_files.Common.Exec.{Exec, ◌>>=◌, ◌>>◌}
use little_big_files.Common.Dict.{lookup, nat_eq}
use little_big_files.Common.Triple.{
  Triple, Post, Post-if, Triple-bind, Triple-before, Triple-after, Triple-pure, Triple-modify,
  Triple-within,
}
use little_big_files.Metadata.Tables.{
  Tables, Package, PackageFile, CreatePackageInput, list_package_files,
}
use little_big_files.Metadata.Transaction.{Database, query, head_outcome}
use little_big_files.Metadata.Transaction.Queries.{get_package, with_files}
use little_big_files.Ingestion.Service.{
  Call, Environment, Service, Journal, IngestCounters, service_db, set_service_db, with_call,
  load_and_journal, journal_package, append_entry, record_ingest,
}
use little_big_files.Ingestion.Service.Keeps.{record_ingest-Serves}
use little_big_files.Ingestion.Package.{enqueue_unpack}
use little_big_files.Ingestion.Returned.Made.{
  Makes, IsMadeOf, Row, Row_stable, Made, with_call-Made,
}

module _ (E : Environment) (input : CreatePackageInput) where
  -- What is returned: a package as it was asked for.
  abbrev pub Answer : Option Package → Type 0
  Answer o = (p : Package) × (o ≡ some p) × IsMadeOf input p

  query-value :
      {A : Type 0} (R : Tables → Type 0) (f : Tables → A)
      → Triple
          (λ (d : Database). R d.tables)
          (query f)
          (λ a d. R d.tables × (a ≡ f d.tables))
          (λ _. Unit {0})
  unfolding query
  query-value R f = record {
    runs = λ d r. Post-if _ _ (head_outcome d.outcomes) _ _ (λ _. (r, refl)) (λ _. tt);
  }

  with_files-Answer :
      (id : ℕ) (o : Option Package)
      → Triple (λ (d : Database). Answer o) (with_files o id) (λ q _. Answer q) (λ _. Unit {0})
  unfolding with_files
  with_files-Answer id none = record { runs = λ d (p, e, made). absurd (cc e) }
  with_files-Answer id (some row) =
      Triple-bind _ _ (query-value (λ _. Answer (some row)) (list_package_files id)) λ files.
        record {
          runs = λ d ((p, e, made), _). (record row { files = files }, refl, same p e made files);
        }
    where
      same :
          (p : Package)
          → some row ≡ some p
          → IsMadeOf input p
          → (files : List PackageFile) → IsMadeOf input (record row { files = files })
      same p e made files =
          let q = subst (IsMadeOf input) {x = p} {y = row} (cc e) made in
          record { supplier = q.supplier; hashed = q.hashed; typed = q.typed; named = q.named }

  get_package-Answer :
      (id : ℕ)
      → Triple
          (λ (d : Database). Row input id d.tables)
          (get_package id)
          (λ o _. Answer o)
          (λ _. Unit {0})
  unfolding get_package
  get_package-Answer id =
      Triple-bind _ _ (query-value (Row input id) (λ t. lookup id t.packages)) λ o.
        Triple-before _ (λ d ((p, found, made), e). (p, e ∙ found, made)) (with_files-Answer id o)

  append_entry-Answer :
      (o : Option Package)
      → Answer o
      → Triple (λ _. Unit {0}) (journal_package E o) (λ _ _. Answer o) (λ _. Unit {0})
  unfolding journal_package
  append_entry-Answer none a = Triple-pure tt λ s h. a
  append_entry-Answer (some pkg) a = record { runs = λ s h. go s (append_entry E _ s.journal) }
    where
      go :
          (s : Service E) (r : Result (Unit {0}) × Option Journal)
          → Post {A = Unit {0}}
              (λ _ _. Answer (some pkg))
              (λ _. Unit {0})
              (r.0, record s { journal = r.1 })
      go s (ok x, j) = a
      go s (err e, j) = tt

  pub load_and_journal-Answer :
      (id : ℕ) → Triple (Made E input id) (load_and_journal E id) (λ o _. Answer o) (λ _. Unit {0})
  unfolding load_and_journal
  load_and_journal-Answer id =
      Triple-bind _ _
        (Triple-within (service_db E) (set_service_db E) _ (λ d s. refl) (get_package-Answer id))
        λ o. record {
          runs = λ s a.
              (Triple-bind _ _ (append_entry-Answer o a) λ _. Triple-pure o λ t b. b).runs s tt;
        }

  -- What comes after every transaction.
  pub recorded :
      (id supplier_id file_count : ℕ) (counters : IngestCounters)
      → Triple
          (Made E input id)
          (record_ingest E supplier_id file_count counters false)
          (λ _. Made E input id)
          (λ _. Unit {0})
  recorded id supplier_id file_count counters =
      Triple-after _ (λ a s q. q) (λ s q. tt)
        (record_ingest-Serves E (Row input id) (λ t u b f p r. Row_stable input id t u p r)
          supplier_id file_count counters false)

  pub own_answer :
      (fn : Exec (Call E) ℕ) (supplier_id file_count : ℕ)
      → Makes E input fn
      → Triple
          (λ _. Unit {0})
          (do
            created ← with_call E fn
            record_ingest E supplier_id file_count created.1 false
            load_and_journal E created.0)
          (λ o _. Answer o)
          (λ _. Unit {0})
  own_answer fn supplier_id file_count h = Triple-bind _ _ (with_call-Made E input fn h) λ created.
      Triple-bind _ _ (recorded created.0 supplier_id file_count created.1)
        λ _. load_and_journal-Answer created.0

  pub enqueue_unpack-Made :
      (async : Bool) (id : ℕ)
      → Triple (Made E input id) (enqueue_unpack E async id) (λ _. Made E input id) (λ _. Unit {0})
  unfolding enqueue_unpack
  enqueue_unpack-Made false id = Triple-pure tt λ s q. q
  enqueue_unpack-Made true id = Triple-modify _ λ s q. q

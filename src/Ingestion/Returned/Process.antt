-- ===== src/Ingestion/Returned/Process.antt =====
-- internal/ingestion/package.go: the package that ProcessPackage returns.
use little_big_files.Common.{
  ℕ, ◌≡◌, ◌∙◌, refl, subst, true, Option, none, some, String, Bytes, length, ltb, ◌==◌,
}
use little_big_files.Common.Result.{ok}
use little_big_files.Common.Exec.{Exec}
use little_big_files.Common.Dict.{nat_eq}
use little_big_files.Common.Triple.{
  Triple-any, Triple, Post, Triple-bind, Triple-after, Triple-pure, Triple-raise, Triple-if,
}
use little_big_files.Metadata.Tables.{
  StorageMode, Package, PayloadType, xml, zip, CreatePackageInput, single, zip_with_members,
  raw_large,
}
use little_big_files.Storage.Record.{record_xml, record_zip}
use little_big_files.Ingestion.Detect.{detect_payload}
use little_big_files.Ingestion.Service.{Environment, Config, Service, no_counters, record_ingest}
use little_big_files.Ingestion.Package.{
  own_package, cloned_package, clone_of, clone_package, ingest_xml, ingest_large_zip,
  store_small_zip, ingest_small_zip, ingest_zip, recorded_clone, ingest_new, ingest_or_clone,
  process_payload, process_package,
}
use little_big_files.Ingestion.Returned.Made.{
  with_call-Made, create_original-Makes, small_zip_tx-Makes, clone_tx-Makes,
}
use little_big_files.Ingestion.Returned.Answer.{
  Answer, load_and_journal-Answer, recorded, own_answer, enqueue_unpack-Made,
}

-- The package of a request.
pub record IsPackageOf (supplier_id : ℕ) (hash : Bytes) (type : PayloadType)
    (filename : Option Bytes) (p : Package) : Type 0 where
  pub supplier : p.supplier_id ≡ supplier_id
  pub hashed : p.package_hash ≡ hash
  pub typed : p.payload_type ≡ type
  pub named : p.original_filename ≡ filename

module _ (E : Environment) (config : Config) (supplier_id : ℕ) (hash body : Bytes)
    (filename : Option Bytes) (type : PayloadType) where
  abbrev Returned : Option Package → Type 0
  Returned o = (p : Package) × (o ≡ some p) × IsPackageOf supplier_id hash type filename p

  abbrev Returns : Exec (Service E) (Option Package) → Type 0
  Returns m = Triple (λ _. Unit {0}) m (λ o _. Returned o) (λ _. Unit {0})

  -- A package that was made of an input with the request's fields.
  fields_of :
      (input : CreatePackageInput) (m : Exec (Service E) (Option Package))
      → input.supplier_id ≡ supplier_id
      → input.package_hash ≡ hash
      → input.payload_type ≡ type
      → input.original_filename ≡ filename
      → Triple (λ _. Unit {0}) m (λ o _. Answer E input o) (λ _. Unit {0})
      → Returns m
  fields_of input m s h t f k =
      Triple-after m
        (λ o u (p, e, made). (
          p,
          e,
          record {
            supplier = made.supplier ∙ s;
            hashed = made.hashed ∙ h;
            typed = made.typed ∙ t;
            named = made.named ∙ f;
          },
        ))
        (λ u q. q) k

  clone_of-Returns :
      (id : ℕ) (o : Option Package) → Returns (clone_of E supplier_id hash type filename id o)
  unfolding clone_of
  clone_of-Returns id none = Triple-raise "canonical package missing" λ s q. q
  clone_of-Returns id (some canonical) = fields_of input _ refl refl refl refl (
      Triple-bind _ _ (with_call-Made E input _ (clone_tx-Makes E input canonical.files))
        λ created. load_and_journal-Answer E input created.0)
    where
      input : CreatePackageInput
      input = cloned_package supplier_id hash type filename id canonical

  clone_package-Returns : (id : ℕ) → Returns (clone_package E supplier_id hash type filename id)
  unfolding clone_package
  clone_package-Returns id = Triple-bind _ _ (Triple-any _) (clone_of-Returns id)

  recorded_clone-Returns :
      (o : Option Package)
      → Triple
          (λ _. Returned o)
          (recorded_clone E supplier_id o)
          (λ q _. Returned q)
          (λ _. Unit {0})
  unfolding recorded_clone
  recorded_clone-Returns none = Triple-raise "nil package" λ s q. tt
  recorded_clone-Returns (some pkg) = record {
    runs = λ s q.
        (Triple-bind {R = λ _ _. Unit {0}} {P = λ _. Unit {0}} _ _
            (Triple-any (record_ingest E supplier_id pkg.file_count no_counters true))
            λ _. Triple-pure (some pkg) λ t _. q).runs
          s tt;
  }

module _ (E : Environment) (config : Config) (supplier_id : ℕ) (hash body : Bytes)
    (filename : Option Bytes) where
  -- A transaction that makes a package of its own.
  own-Returns :
      (type : PayloadType) (mode : StorageMode) (file_count : ℕ) (unpack_error : Option String)
      (m : Exec (Service E) (Option Package))
      → Triple
          (λ _. Unit {0})
          m
          (λ o _.
            Answer E (own_package supplier_id hash type mode filename file_count unpack_error) o)
          (λ _. Unit {0})
      → Returns E config supplier_id hash body filename type m
  own-Returns type mode file_count unpack_error m k =
      fields_of E config supplier_id hash body filename type
        (own_package supplier_id hash type mode filename file_count unpack_error) m refl refl refl
        refl k

  ingest_xml-Returns :
      Returns E config supplier_id hash body filename xml
        (ingest_xml E supplier_id hash body filename)
  unfolding ingest_xml
  ingest_xml-Returns = own-Returns xml single 1 none _ (
      own_answer E _ _ supplier_id 1
        (create_original-Makes E _ body record_xml supplier_id filename))

  ingest_large_zip-Returns :
      Returns E config supplier_id hash body filename zip
        (ingest_large_zip E config supplier_id hash body filename)
  unfolding ingest_large_zip
  ingest_large_zip-Returns = own-Returns zip raw_large 1 none _ (
      Triple-bind _ _
        (with_call-Made E _ _ (create_original-Makes E _ body record_zip supplier_id filename))
        λ created. Triple-bind _ _ (recorded E _ created.0 supplier_id 1 created.1) λ _.
          Triple-bind _ _ (enqueue_unpack-Made E _ config.large_zip_async_unpack created.0)
            λ _. load_and_journal-Answer E _ created.0)

  store_small_zip-Returns :
      (expects : Option String × ℕ)
      → Returns E config supplier_id hash body filename zip
          (store_small_zip E config supplier_id hash body filename expects)
  unfolding store_small_zip
  store_small_zip-Returns (unpack_error, file_count) =
      own-Returns zip zip_with_members file_count unpack_error _ (
        own_answer E _ _ supplier_id file_count
          (small_zip_tx-Makes E _ config supplier_id body filename unpack_error))

  ingest_small_zip-Returns :
      Returns E config supplier_id hash body filename zip
        (ingest_small_zip E config supplier_id hash body filename)
  unfolding ingest_small_zip
  ingest_small_zip-Returns = store_small_zip-Returns _

  ingest_new-Returns :
      (type : PayloadType)
      → Returns E config supplier_id hash body filename type
          (ingest_new E config supplier_id hash body filename type)
  unfolding ingest_new ingest_zip
  ingest_new-Returns xml = ingest_xml-Returns
  ingest_new-Returns zip =
      Triple-if _ _ _ (λ _. ingest_large_zip-Returns) (λ _. ingest_small_zip-Returns)

  ingest_or_clone-Returns :
      (type : PayloadType) (o : Option ℕ)
      → Returns E config supplier_id hash body filename type
          (ingest_or_clone E config supplier_id hash body filename type o)
  unfolding ingest_or_clone
  ingest_or_clone-Returns type none = ingest_new-Returns type
  ingest_or_clone-Returns type (some id) =
      Triple-bind _ _ (clone_package-Returns E config supplier_id hash body filename type id)
        (recorded_clone-Returns E config supplier_id hash body filename type)

-- The package that ProcessPackage returns has the given supplier and filename, the hash of the body
-- and the type that was detected, whether it is new or a clone.
pub process_package-IsPackageOf :
    (E : Environment) (config : Config) (supplier_id : ℕ) (body : Bytes) (filename : Option Bytes)
    (type : PayloadType) (s t : Service E) (o : Option Package)
    → detect_payload body ≡ ok type
    → process_package E config supplier_id body filename s ≡ (ok o, t)
    → (p : Package) × (o ≡ some p) × IsPackageOf supplier_id (E.sha256 body) type filename p
unfolding process_package process_payload
process_package-IsPackageOf E config supplier_id body filename type s t o d h =
    subst
      (Post (λ o _. Returned E config supplier_id (E.sha256 body) body filename type o)
        (λ _. Unit {0}))
      h (answer.runs s tt)
  where
    answer :
        Returns E config supplier_id
          (E.sha256 body)
          body
          filename
          type
          (process_package E config supplier_id body filename)
    answer =
        Triple-if (length body == 0) _ _ (λ _. Triple-raise "empty body" λ s q. q)
          λ _.
            Triple-if (ltb config.max_body_bytes (length body)) _
              (process_payload E config supplier_id body filename (detect_payload body))
              (λ _. Triple-raise "payload too large" λ s q. q)
              λ _. rw d (
                Triple-bind _ _ (Triple-any _)
                  (ingest_or_clone-Returns E config supplier_id (E.sha256 body) body filename type))

-- ===== src/Ingestion/Balance/Calls.antt =====
-- internal/ingestion/package.go: the transactions keep the reference counts at least the rows, and
-- so do the methods of the service that run one.
use little_big_files.Common.{
  ℕ, Option, none, some, String, List, [], ◌∷◌, ◌++◌, Bytes, append-nil, subst,
}
use little_big_files.Common.Result.{Result, ok, err}
use little_big_files.Common.Exec.{Exec}
use little_big_files.Common.Triple.{
  Triple, Post, Triple-bind, Triple-before, Triple-after, Triple-pure,
}
use little_big_files.Metadata.Tables.{PackageFile, CreatePackageInput}
use little_big_files.Metadata.Transaction.{with_tx}
use little_big_files.Metadata.Transaction.Rules.{Holds-map, Triple-then, with_tx-Balanced}
use little_big_files.Metadata.Transaction.Queries.Keeps.{Keeps}
use little_big_files.Metadata.Balance.{Owed, Owed-middle}
use little_big_files.Metadata.Balance.Statements.{
  create_package-Owed, create_package_file-Owed, create_package_file-uncounted,
  increment_ref_counts-Owed,
}
use little_big_files.Storage.Record.{RecordType, record_zip}
use little_big_files.Ingestion.Service.{
  Environment, Config, Call, Service, call_db, set_call_db, with_call, returned,
}
use little_big_files.Ingestion.Service.Keeps.{Serves}
use little_big_files.Ingestion.Members.{original_file}
use little_big_files.Ingestion.Package.{
  clone_files, clone_tx, create_original, unpack_members, small_zip_tx, same_file,
}
use little_big_files.Ingestion.Balance.{
  Owing, call_law, store-Owing, persist_unpack_error-Owing, persist_zip_members-Owing,
}

module _ (E : Environment) where
  -- The transactions.
  abbrev pub Balances : {A : Type 0} → Exec (Call E) A → Type 0
  Balances m = Triple (Owing E [] []) m (λ _. Owing E [] []) (λ _. Unit {0})

  pub clone_files-Owing :
      (package_id : ℕ) (files : List PackageFile) (cs : List Bytes)
      → Triple
          (Owing E [] cs)
          (clone_files E package_id files)
          (λ hashes. Owing E [] (hashes ++ cs))
          (λ _. Unit {0})
  unfolding clone_files
  clone_files-Owing package_id [] cs = Triple-pure [] λ c h. h
  clone_files-Owing package_id (f ∷ files) cs =
      Triple-then (call_db E) (set_call_db E) _ _
        (Triple-after _ (λ a c h. h) (λ c h. tt)
          (create_package_file-uncounted (call_db E) (set_call_db E) (call_law E) {E = Owed [] []}
            [] cs package_id (same_file f)))
        λ _. Triple-bind _ _ (clone_files-Owing package_id files (f.blob_hash ∷ cs)) λ hashes.
          Triple-pure (f.blob_hash ∷ hashes)
            λ c h. Holds-map (call_db E) (λ t o. Owed-middle [] f.blob_hash hashes cs t o) c h

  pub clone_tx-Balances :
      (input : CreatePackageInput) (files : List PackageFile) → Balances (clone_tx E input files)
  unfolding clone_tx
  clone_tx-Balances input files =
      (Triple-then (call_db E) (set_call_db E) _ _
        (Triple-after _ (λ a c h. h) (λ c h. tt)
          (create_package-Owed (call_db E) (set_call_db E) (call_law E) {E = Owed [] []} [] []
            input))
        λ id. Triple-bind _ _ (clone_files-Owing id files []) λ hashes.
          Triple-bind _ _
            (Triple-before _
              (Holds-map (call_db E) λ t o. subst (λ hs. Owed [] hs t) (append-nil hashes) o)
              (Triple-after _ (λ a c h. h) (λ c h. tt)
                (increment_ref_counts-Owed {E = Owed [] []} (call_db E) (set_call_db E) (call_law E)
                  [] hashes)))
            λ _. Triple-pure id λ c h. h)

  pub create_original-Balances :
      (body : Bytes) (type : RecordType) (supplier_id : ℕ) (input : CreatePackageInput)
      (filename : Option Bytes)
      → Balances (create_original E body type supplier_id input filename)
  unfolding create_original
  create_original-Balances body type supplier_id input filename =
      Triple-bind _ _
        (Triple-after _ (λ a c h. h) (λ c h. tt) (store-Owing E [] body type supplier_id))
        λ hash.
          Triple-then (call_db E) (set_call_db E) _ _
            (Triple-after _ (λ a c h. h) (λ c h. tt)
              (create_package-Owed (call_db E) (set_call_db E) (call_law E) {E = Owed [] []}
                (hash ∷ []) [] input))
            λ id.
              Triple-then (call_db E) (set_call_db E) _ _
                (Triple-after _ (λ a c h. h) (λ c h. tt)
                  (create_package_file-Owed (call_db E) (set_call_db E) (call_law E)
                    {E = Owed [] []} [] [] id (original_file hash filename)))
                λ _. Triple-pure id λ c h. h

  unpack_members-Balances :
      (config : Config) (package_id supplier_id : ℕ) (body : Bytes) (o : Option String)
      → Balances (unpack_members E config package_id supplier_id body o)
  unfolding unpack_members
  unpack_members-Balances config package_id supplier_id body (some e) =
      Triple-after _ (λ a c h. h) (λ c h. tt)
        (persist_unpack_error-Owing E package_id supplier_id e)
  unpack_members-Balances config package_id supplier_id body none =
      Triple-bind _ _
        (Triple-after _ (λ a c h. h) (λ c h. tt)
          (persist_zip_members-Owing E config package_id supplier_id body))
        λ _. Triple-pure tt λ c h. h

  pub small_zip_tx-Balances :
      (config : Config) (supplier_id : ℕ) (body : Bytes) (input : CreatePackageInput)
      (filename : Option Bytes) (o : Option String)
      → Balances (small_zip_tx E config supplier_id body input filename o)
  unfolding small_zip_tx
  small_zip_tx-Balances config supplier_id body input filename o =
      Triple-bind _ _ (create_original-Balances body record_zip supplier_id input filename) λ id.
        Triple-bind _ _ (unpack_members-Balances config id supplier_id body o)
          λ _. Triple-pure id λ c h. h

  -- The methods of the service.
  pub with_call-Serves :
      {A : Type 0} (fn : Exec (Call E) A) → Balances fn → Serves E (Owed [] []) (with_call E fn)
  unfolding with_call
  with_call-Serves {A} fn h = record { runs = λ s p. go s _ _ (kept.runs _ p) }
    where
      kept : Keeps (call_db E) (Owed [] []) (with_tx (call_db E) (set_call_db E) fn)
      kept = with_tx-Balanced (call_db E) (set_call_db E) (Owed [] []) (call_law E) fn h

      Here : Call E → Type 0
      Here c = Owed [] [] c.shard.db.tables

      There : Service E → Type 0
      There s = Owed [] [] s.shard.db.tables

      go :
          (s : Service E) (r : Result A) (c : Call E)
          → Post (λ _. Here) Here (r, c)
          → Post (λ _. There) There (returned E s (r, c))
      go s (ok a) c h = h
      go s (err e) c h = h

  -- However the method ends.
  pub Serves-ends :
      {A : Type 0} (m : Exec (Service E) A)
      → Serves E (Owed [] []) m
      → (s : Service E) → Owed [] [] s.shard.db.tables
      → Owed [] [] (m s).1.shard.db.tables
  Serves-ends {A} m h s p = go (m s) (h.runs s p)
    where
      There : Service E → Type 0
      There s = Owed [] [] s.shard.db.tables

      go : (r : Result A × Service E) → Post (λ _. There) There r → There r.1
      go (ok a, t) q = q
      go (err e, t) q = q

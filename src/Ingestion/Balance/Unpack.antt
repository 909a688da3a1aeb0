-- ===== src/Ingestion/Balance/Unpack.antt =====
-- internal/ingestion/unpack_large.go: UnpackLargePackage keeps the reference counts at least
-- the rows, and so does its propagation to clones.
use little_big_files.Common.{
  ℕ, not, Option, none, some, List, [], ◌∷◌, ◌++◌, Bytes, append-nil, subst,
}
use little_big_files.Common.Result.{Result, ok, err}
use little_big_files.Common.Triple.{
  Triple, Triple-bind, Triple-before, Triple-after, Triple-pure, Triple-raise, Triple-if,
  Triple-gets,
}
use little_big_files.Common.Dict.{◌=?◌, bytes_eq}
use little_big_files.Dedup.{ContentBlob}
use little_big_files.Metadata.Tables.{
  Package, PackageFile, any, is_raw_large, is_zip_with_members, zip_with_members,
}
use little_big_files.Metadata.Transaction.Rules.{Holds-map, Triple-then}
use little_big_files.Metadata.Transaction.Queries.Keeps.{
  get_package-Keeps, get_original_file-Keeps, query_blob-Keeps, list_clone_package_ids-Keeps,
}
use little_big_files.Metadata.Balance.{Owed, Owed-middle, Covered, Covered→Owed, Owed→Covered}
use little_big_files.Metadata.Balance.Statements.{
  create_package_file-uncounted, increment_ref_counts-Owed, update_package_after_unpack-Owed,
  get_package_for_update-Holds,
}
use little_big_files.Ingestion.Service.{
  Environment, Config, Service, IngestCounters, call_db, set_call_db,
}
use little_big_files.Ingestion.Package.{same_file}
use little_big_files.Ingestion.Unpack.{
  package_file_key, skip_large_unpack, add_missing, propagate_tx, propagate_to, propagate_to_all,
  propagate_from, propagate_unpack_to_clones, propagate_and_journal, unpack_locked, unpack_tx,
  after_unpack, unpack_bytes, unpack_blob, unpack_original, unpack_package, unpack_large_package,
}
use little_big_files.Ingestion.Balance.{Owing, call_law, persist_zip_members-Owing}
use little_big_files.Ingestion.Balance.Calls.{
  with_call-Serves, Balances, Serves-ends, with_call-Serves,
}
use little_big_files.Ingestion.Service.Keeps.{Serves, repo-Serves, load_and_journal-Serves}

module _ (E : Environment) where
  add_missing-Owing :
      (clone_id : ℕ) (files : List PackageFile) (existing cs : List Bytes)
      → Triple
          (Owing E [] cs)
          (add_missing E clone_id files existing)
          (λ hashes. Owing E [] (hashes ++ cs))
          (λ _. Unit {0})
  unfolding add_missing
  add_missing-Owing clone_id [] existing cs = Triple-pure [] λ c h. h
  add_missing-Owing clone_id (f ∷ files) existing cs =
      Triple-if (any (λ key. key =? package_file_key f) existing) _ _
        (λ _. add_missing-Owing clone_id files existing cs)
        λ _.
          Triple-then (call_db E) (set_call_db E) _ _
            (Triple-after _ (λ a c h. h) (λ c h. tt)
              (create_package_file-uncounted (call_db E) (set_call_db E) (call_law E)
                {E = Owed [] []} [] cs clone_id (same_file f)))
            λ _.
              Triple-bind _ _
                (add_missing-Owing clone_id files (package_file_key f ∷ existing)
                  (f.blob_hash ∷ cs))
                λ hashes.
                  Triple-pure (f.blob_hash ∷ hashes) λ c h.
                    Holds-map (call_db E) (λ t o. Owed-middle [] f.blob_hash hashes cs t o) c h

  propagate_tx-Balances :
      (canonical : Package) (clone_id : ℕ) (existing : List Bytes)
      → Balances E (propagate_tx E canonical clone_id existing)
  unfolding propagate_tx
  propagate_tx-Balances canonical clone_id existing =
      Triple-bind _ _ (add_missing-Owing clone_id _ existing []) λ hashes.
        Triple-bind _ _
          (Triple-before _
            (Holds-map (call_db E) λ t o. subst (λ hs. Owed [] hs t) (append-nil hashes) o)
            (Triple-after _ (λ a c h. h) (λ c h. tt)
              (increment_ref_counts-Owed {E = Owed [] []} (call_db E) (set_call_db E) (call_law E)
                [] hashes)))
          λ _.
            Triple-then (call_db E) (set_call_db E) _ _
              (Triple-after _ (λ a c h. h) (λ c h. tt)
                (update_package_after_unpack-Owed (call_db E) (set_call_db E) (call_law E)
                  {E = Owed [] []} [] [] clone_id zip_with_members canonical.file_count
                  canonical.unpack_error))
              λ _. Triple-pure tt λ c h. h

  propagate_to-Serves :
      (canonical : Package) (clone_id : ℕ) (o : Option Package)
      → Serves E (Owed [] []) (propagate_to E canonical clone_id o)
  unfolding propagate_to
  propagate_to-Serves canonical clone_id none = Triple-pure tt λ s h. h
  propagate_to-Serves canonical clone_id (some clone) =
      Triple-if (not (is_raw_large clone.storage_mode)) _ _ (λ _. Triple-pure tt λ s h. h)
        λ _.
          Triple-bind _ _ (with_call-Serves E _ (propagate_tx-Balances canonical clone_id _))
            λ _. Triple-pure tt λ s h. h

  propagate_to_all-Serves :
      (canonical : Package) (ids : List ℕ)
      → Serves E (Owed [] []) (propagate_to_all E canonical ids)
  unfolding propagate_to_all
  propagate_to_all-Serves canonical [] = Triple-pure tt λ s h. h
  propagate_to_all-Serves canonical (clone_id ∷ ids) =
      Triple-bind _ _ (repo-Serves E (Owed [] []) _ (get_package-Keeps (Owed [] []) clone_id))
        λ clone.
          Triple-bind _ _ (propagate_to-Serves canonical clone_id clone)
            λ _. propagate_to_all-Serves canonical ids

  propagate_from-Serves :
      (canonical_id : ℕ) (o : Option Package)
      → Serves E (Owed [] []) (propagate_from E canonical_id o)
  unfolding propagate_from
  propagate_from-Serves canonical_id none = Triple-pure tt λ s h. h
  propagate_from-Serves canonical_id (some canonical) =
      Triple-if (not (is_zip_with_members canonical.storage_mode)) _ _
        (λ _. Triple-pure tt λ s h. h)
        λ _.
          Triple-bind _ _
            (repo-Serves E (Owed [] []) _ (list_clone_package_ids-Keeps (Owed [] []) canonical_id))
            λ ids. propagate_to_all-Serves canonical ids

  propagate_and_journal-Serves : (id : ℕ) → Serves E (Owed [] []) (propagate_and_journal E id)
  unfolding propagate_and_journal propagate_unpack_to_clones
  propagate_and_journal-Serves id =
      Triple-bind _ _
        (Triple-bind _ _ (repo-Serves E (Owed [] []) _ (get_package-Keeps (Owed [] []) id))
          (propagate_from-Serves id))
        λ _.
          Triple-bind _ _ (load_and_journal-Serves E (Owed [] []) id) λ _. Triple-pure tt λ s h. h

  unpack_locked-Balances :
      (config : Config) (id : ℕ) (zip_bytes : Bytes) (o : Option Package)
      → Balances E (unpack_locked E config id zip_bytes o)
  unfolding unpack_locked
  unpack_locked-Balances config id zip_bytes none = Triple-raise "package not found" λ c h. tt
  unpack_locked-Balances config id zip_bytes (some locked) =
      Triple-if (not (is_raw_large locked.storage_mode)) _ _
        (λ _. Triple-raise skip_large_unpack λ c h. tt)
        λ _.
          Triple-bind _ _
            (Triple-after _ (λ a c h. h) (λ c h. tt)
              (persist_zip_members-Owing E config id locked.supplier_id zip_bytes))
            λ counted.
              Triple-then (call_db E) (set_call_db E) _ _
                (Triple-after _ (λ a c h. h) (λ c h. tt)
                  (update_package_after_unpack-Owed (call_db E) (set_call_db E) (call_law E)
                    {E = Owed [] []} [] [] id zip_with_members counted.0 counted.1))
                λ updated.
                  Triple-if updated _ _ (λ _. Triple-pure tt λ c h. h)
                    (λ _. Triple-raise skip_large_unpack λ c h. tt)

  unpack_tx-Balances :
      (config : Config) (id : ℕ) (zip_bytes : Bytes) → Balances E (unpack_tx E config id zip_bytes)
  unfolding unpack_tx
  unpack_tx-Balances config id zip_bytes =
      Triple-then (call_db E) (set_call_db E) _ _
        (Triple-after _ (λ a c h. h) (λ c h. tt)
          (get_package_for_update-Holds (call_db E) (set_call_db E) (call_law E) {E = Owed [] []}
            (Owed [] []) id))
        λ locked. unpack_locked-Balances config id zip_bytes locked

  module _ (config : Config) (id : ℕ) where
    after_unpack-Serves :
        (r : Result (Unit {0} × IngestCounters)) → Serves E (Owed [] []) (after_unpack E id r)
    unfolding after_unpack
    after_unpack-Serves (ok a) = propagate_and_journal-Serves id
    after_unpack-Serves (err e) =
        Triple-if _ _ _ (λ _. propagate_and_journal-Serves id) (λ _. Triple-raise e λ s h. h)

    unpack_bytes-Serves : (r : Result Bytes) → Serves E (Owed [] []) (unpack_bytes E config id r)
    unfolding unpack_bytes
    unpack_bytes-Serves (err e) = record { runs = λ s h. h }
    unpack_bytes-Serves (ok zip_bytes) = record {
      runs = λ s h.
          (after_unpack-Serves _).runs _
            (Serves-ends E _ (with_call-Serves E _ (unpack_tx-Balances config id zip_bytes)) s h);
    }

    unpack_blob-Serves :
        (o : Option ContentBlob) → Serves E (Owed [] []) (unpack_blob E config id o)
    unfolding unpack_blob
    unpack_blob-Serves none = Triple-raise "blob missing" λ s h. h
    unpack_blob-Serves (some blob) =
        Triple-bind _ _ (Triple-gets _ λ s h. h) λ read. unpack_bytes-Serves read

    unpack_original-Serves :
        (o : Option PackageFile) → Serves E (Owed [] []) (unpack_original E config id o)
    unfolding unpack_original
    unpack_original-Serves none = Triple-raise "package has no original" λ s h. h
    unpack_original-Serves (some orig) =
        Triple-bind _ _
          (repo-Serves E (Owed [] []) _ (query_blob-Keeps (Owed [] []) orig.blob_hash))
          unpack_blob-Serves

    unpack_package-Serves :
        (o : Option Package) → Serves E (Owed [] []) (unpack_package E config id o)
    unfolding unpack_package
    unpack_package-Serves none = Triple-raise "package not found" λ s h. h
    unpack_package-Serves (some pkg) =
        Triple-if (is_zip_with_members pkg.storage_mode) _ _ (λ _. propagate_and_journal-Serves id)
          λ _.
            Triple-if (not (is_raw_large pkg.storage_mode)) _ _ (λ _. Triple-pure tt λ s h. h)
              λ _.
                Triple-bind _ _
                  (repo-Serves E (Owed [] []) _ (get_original_file-Keeps (Owed [] []) id))
                  unpack_original-Serves

    unpack_large_package-Serves : Serves E (Owed [] []) (unpack_large_package E config id)
    unfolding unpack_large_package
    unpack_large_package-Serves =
        Triple-bind _ _ (repo-Serves E (Owed [] []) _ (get_package-Keeps (Owed [] []) id))
          unpack_package-Serves

-- When every blob counts at least the rows of package_files with its hash, it does so after
-- UnpackLargePackage, with the files that it added to the package and to its clones, and whichever
-- statement of the database, write to a segment or to an index file or member of the archive fails.
pub unpack_large_package-Covered :
    (E : Environment) (config : Config) (id : ℕ) (s : Service E)
    → Covered s.shard.db.tables
    → Covered (unpack_large_package E config id s).1.shard.db.tables
unpack_large_package-Covered E config id s h =
    Owed→Covered _ (
      Serves-ends E _ (unpack_large_package-Serves E config id) s
        (Covered→Owed s.shard.db.tables h))

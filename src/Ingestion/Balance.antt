-- ===== src/Ingestion/Balance.antt =====
-- internal/ingestion: the reference counts of the blobs stay at least the rows of package_files.
pub mod Calls
pub mod Process
pub mod Unpack
use little_big_files.Common.{
  ℕ, ◌+◌, ◌≡◌, refl, Bool, Option, none, some, String, List, [], ◌∷◌, Bytes, inl, inr,
}
use little_big_files.Common.Result.{Result, ok, err}
use little_big_files.Common.Exec.{Exec, pure, raise, modify, gets, ◌>>=◌, ◌>>◌}
use little_big_files.Common.Triple.{
  Triple-modify, Triple-gets, Triple, Post, Triple-bind, Triple-before, Triple-after, Triple-pure,
  Triple-raise, Triple-if, Triple-within, within,
}
use little_big_files.Metadata.Tables.{Tables, PackageFile, Package, CreatePackageInput, PayloadType}
use little_big_files.Metadata.Transaction.Rules.{
  Holds, Live, Live-Holds, Live-map, Holds-map, Lawful, Triple-then, with_tx-Balanced,
}
use little_big_files.Metadata.Balance.{Owed, Owed-count, Owed-drop, Covered}
use little_big_files.Metadata.Balance.Statements.{
  create_package-Owed, create_package_file-Owed, create_package_file-uncounted,
  increment_ref_counts-Owed,
}
use little_big_files.Storage.Record.{RecordType, record_xml, record_error}
use little_big_files.Storage.BlobStore.References.{store_or_ref-Counted, Counted}
use little_big_files.Ingestion.Zip.{for_each_zip_member}
use little_big_files.Ingestion.Zip.Each.{Triple-for_each}
use little_big_files.Ingestion.Service.{
  Environment, Config, Call, Service, call_db, set_call_db, store, with_call,
}
use little_big_files.Ingestion.Members.{
  members_end, member_file, persist_unpack_error, persist_member, persist_zip_members,
}

module _ (E : Environment) where
  -- What a transaction owes, or it is aborted.
  abbrev pub Owing : List Bytes → List Bytes → Call E → Type 0
  Owing rs cs = Holds (call_db E) (Owed rs cs)

  pub call_law : Lawful (call_db E) (set_call_db E)
  call_law d c = refl

  pub store-Owing :
      (rs : List Bytes) (content : Bytes) (type : RecordType) (supplier_id : ℕ)
      → Triple
          (Owing rs [])
          (store E content type supplier_id)
          (λ hash. Owing (hash ∷ rs) [])
          (Owing rs [])
  unfolding store
  store-Owing rs content type supplier_id =
      Triple-before _ (λ c h. record { held = h.held })
        (Triple-bind _ _
          (Triple-after _ (λ a c h. h) (λ c h. record { held = h.held })
            (Triple-within (λ (c : Call E). c.shard) (λ shard c. record c { shard = shard }) _
              (λ t c. refl)
              (store_or_ref-Counted E.bloom E.sha256 E.encoder (Owed rs []) (Owed rs []) content
                type supplier_id (λ t h. h)
                λ t counted. Owed-drop rs [] (E.sha256 content) t (counts t counted))))
          λ stored. record { runs = λ c h. record { held = inr (owes stored.0 c h.0 h.1.here) } })
    where
      counts :
          (t : Tables)
          → Counted E.bloom E.sha256 E.encoder (E.sha256 content) (Owed rs []) t
          → Owed (E.sha256 content ∷ rs) [] t
      counts t (u, owed, counted, (same, _)) =
          Owed-count rs (E.sha256 content) u t counted same owed

      owes :
          (hash : Bytes) (c : Call E)
          → hash ≡ E.sha256 content
          → Counted E.bloom E.sha256 E.encoder (E.sha256 content) (Owed rs []) c.shard.db.tables
          → Owed (hash ∷ rs) [] c.shard.db.tables
      owes hash c e counted = rw e (counts c.shard.db.tables counted)

  pub persist_unpack_error-Owing :
      (package_id supplier_id : ℕ) (error : String)
      → Triple
          (Owing [] [])
          (persist_unpack_error E package_id supplier_id error)
          (λ _. Owing [] [])
          (Owing [] [])
  unfolding persist_unpack_error
  persist_unpack_error-Owing package_id supplier_id error =
      Triple-bind _ _ (store-Owing [] (E.message error) record_error supplier_id) λ hash.
        Triple-then (call_db E) (set_call_db E) _ _
          (create_package_file-Owed (call_db E) (set_call_db E) call_law [] [] package_id _)
          λ _. Triple-pure tt λ c h. h

  pub persist_member-Owing :
      (package_id supplier_id : ℕ) (name bytes : Bytes)
      → Triple
          (Owing [] [])
          (persist_member E package_id supplier_id name bytes)
          (λ _. Owing [] [])
          (Owing [] [])
  unfolding persist_member
  persist_member-Owing package_id supplier_id name bytes =
      Triple-bind _ _ (store-Owing [] bytes record_xml supplier_id) λ hash.
        Triple-bind {R = λ _. Owing (hash ∷ []) []} _ _ (Triple-gets _ λ c h. h) λ seq.
          Triple-bind {R = λ _. Owing (hash ∷ []) []} _ _
            (Triple-modify (λ (c : Call E). record c { member_count = c.member_count + 1 })
              λ c h. record { held = h.held })
            λ _.
              Triple-then (call_db E) (set_call_db E) _ _
                (create_package_file-Owed (call_db E) (set_call_db E) call_law [] [] package_id
                  (member_file hash name seq))
                λ _. Triple-pure tt λ c h. h

  pub persist_zip_members-Owing :
      (config : Config) (package_id supplier_id : ℕ) (zip_bytes : Bytes)
      → Triple
          (Owing [] [])
          (persist_zip_members E config package_id supplier_id zip_bytes)
          (λ _. Owing [] [])
          (Owing [] [])
  unfolding persist_zip_members
  persist_zip_members-Owing config package_id supplier_id zip_bytes = record {
    runs = λ c h. go _ _ (each.runs (record c { member_count = 0 }) record { held = h.held });
  }
    where
      each :
          Triple
            (Owing [] [])
            (for_each_zip_member
              (persist_member E package_id supplier_id)
              E.zip_reader
              zip_bytes
              config.max_unpacked_zip_bytes)
            (λ _. Owing [] [])
            (Owing [] [])
      each =
          Triple-for_each _ (λ name bytes. persist_member-Owing package_id supplier_id name bytes)
            E.zip_reader zip_bytes config.max_unpacked_zip_bytes

      go :
          (r : Result (Unit {0})) (c : Call E)
          → Post (λ _. Owing [] []) (Owing [] []) (r, c)
          → Post (λ _. Owing [] []) (Owing [] []) (members_end E package_id supplier_id r c)
      go (ok x) c h = record { held = h.held }
      go (err error) c h =
          (Triple-bind _ _ (persist_unpack_error-Owing package_id supplier_id error)
              λ _. Triple-pure (2, some error) λ d p. p).runs
            c h

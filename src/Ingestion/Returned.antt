-- ===== src/Ingestion/Returned.antt =====
-- internal/ingestion: what the transactions leave of the rows of packages, once a package is there.
pub mod Made
pub mod Answer
pub mod Process
use little_big_files.Common.{
  ℕ, ◌+◌, ◌≡◌, refl, ap, Bool, true, false, Option, none, some, String, List, [], ◌∷◌, Bytes, inl,
  inr,
}
use little_big_files.Common.Result.{Result, ok, err}
use little_big_files.Common.Exec.{Exec, pure, modify, gets, ◌>>=◌, ◌>>◌}
use little_big_files.Common.Triple.{
  Triple, Post, Triple-bind, Triple-before, Triple-after, Triple-pure, Triple-gets, Triple-modify,
  Triple-within, within,
}
use little_big_files.Metadata.Blobs.{increment_ref_count_if_exists}
use little_big_files.Metadata.Tables.{Tables, PackageFile, CreatePackageInput, CreateFileInput}
use little_big_files.Metadata.Transaction.{Database, tx_increment_ref_count_if_exists}
use little_big_files.Metadata.Transaction.Packages.{
  create_package, create_package_file, increment_ref_counts, draw_file, insert_file,
}
use little_big_files.Metadata.Transaction.Packages.Changes.{insert_file-packages}
use little_big_files.Metadata.Transaction.Rules.{
  Holds, Live-Holds, Triple-statement, Triple-on_blobs, Triple-then, Triple-lift,
}
use little_big_files.Storage.Record.{RecordType, record_xml, record_error}
use little_big_files.Storage.BlobStore.References.{store_or_ref-Counted, Counted}
use little_big_files.Ingestion.Zip.{for_each_zip_member}
use little_big_files.Ingestion.Zip.Each.{Triple-for_each}
use little_big_files.Ingestion.Service.{
  Environment, Config, Call, call_db, set_call_db, in_tx, store,
}
use little_big_files.Ingestion.Members.{
  persist_unpack_error, persist_member, persist_zip_members, members_end, member_file, error_file,
}
use little_big_files.Ingestion.Package.{clone_files, same_file, unpack_members}
use little_big_files.Ingestion.Balance.{call_law}

module _ (E : Environment) (R : Tables → Type 0)
    (stable : (t u : Tables) → u.packages ≡ t.packages → R t → R u) where
  abbrev pub Stands : Call E → Type 0
  Stands = Holds (call_db E) R

  abbrev pub Leaves : {A : Type 0} → Exec (Call E) A → Type 0
  Leaves m = Triple Stands m (λ _. Stands) Stands

  store-Leaves :
      (content : Bytes) (type : RecordType) (supplier_id : ℕ)
      → Leaves (store E content type supplier_id)
  unfolding store
  store-Leaves content type supplier_id =
      Triple-before _ (λ c h. record { held = h.held })
        (Triple-bind _ _
          (Triple-after _ (λ a c h. h) (λ c h. record { held = h.held })
            (Triple-within (λ (c : Call E). c.shard) (λ shard c. record c { shard = shard }) _
              (λ t c. refl)
              (store_or_ref-Counted E.bloom E.sha256 E.encoder R R content type supplier_id
                (λ t r. r) same_tables)))
          λ stored. record { runs = λ c h. record { held = inr (same c h.1.here) } })
    where
      same_tables : (t : Tables) → Counted E.bloom E.sha256 E.encoder (E.sha256 content) R t → R t
      same_tables t (u, r, counted, (files, packages)) = stable u t packages r

      same :
          (c : Call E)
          → Counted E.bloom E.sha256 E.encoder (E.sha256 content) R c.shard.db.tables
          → R c.shard.db.tables
      same c counted = same_tables c.shard.db.tables counted

  pub create_package_file-Leaves :
      (package_id : ℕ) (input : CreateFileInput)
      → Leaves (in_tx E (create_package_file package_id input))
  unfolding create_package_file
  create_package_file-Leaves package_id input =
      Triple-after _ (λ a c h. Live-Holds (call_db E) R c h) (λ c h. h)
        (Triple-statement (call_db E) (set_call_db E) (call_law E) draw_file
          (insert_file package_id input)
          λ d a t r e. stable d.tables t (insert_file-packages package_id input d a t e) r)

  increments-stand :
      (hashes : List Bytes)
      → Triple
          (Holds (λ d. d) R)
          (increment_ref_counts hashes)
          (λ _. Holds (λ d. d) R)
          (Holds (λ d. d) R)
  unfolding increment_ref_counts tx_increment_ref_count_if_exists
  increments-stand [] = Triple-pure tt λ d h. h
  increments-stand (h ∷ hashes) =
      Triple-then (λ d. d) (λ d _. d) _ _
        (Triple-on_blobs (λ d. d) (λ d _. d) (λ d _. refl) {Q = λ _. R}
          (increment_ref_count_if_exists h) λ t r. stable t _ refl r)
        λ _. increments-stand hashes

  pub increment_ref_counts-Leaves :
      (hashes : List Bytes) → Leaves (in_tx E (increment_ref_counts hashes))
  increment_ref_counts-Leaves hashes =
      Triple-lift (call_db E) (set_call_db E) (increment_ref_counts hashes) (call_law E)
        (increments-stand hashes)

  pub clone_files-Leaves :
      (package_id : ℕ) (files : List PackageFile) → Leaves (clone_files E package_id files)
  unfolding clone_files
  clone_files-Leaves package_id [] = Triple-pure [] λ c h. h
  clone_files-Leaves package_id (f ∷ files) =
      Triple-bind _ _ (create_package_file-Leaves package_id (same_file f)) λ _.
        Triple-bind _ _ (clone_files-Leaves package_id files)
          λ hashes. Triple-pure (f.blob_hash ∷ hashes) λ c h. h

  persist_unpack_error-Leaves :
      (package_id supplier_id : ℕ) (error : String)
      → Leaves (persist_unpack_error E package_id supplier_id error)
  unfolding persist_unpack_error
  persist_unpack_error-Leaves package_id supplier_id error =
      Triple-bind _ _ (store-Leaves (E.message error) record_error supplier_id) λ hash.
        Triple-bind _ _ (create_package_file-Leaves package_id (error_file hash))
          λ _. Triple-pure tt λ c h. h

  persist_member-Leaves :
      (package_id supplier_id : ℕ) (name bytes : Bytes)
      → Leaves (persist_member E package_id supplier_id name bytes)
  unfolding persist_member
  persist_member-Leaves package_id supplier_id name bytes =
      Triple-bind _ _ (store-Leaves bytes record_xml supplier_id) λ hash.
        Triple-bind {R = λ _. Stands} _ _ (Triple-gets _ λ c h. h) λ seq.
          Triple-bind {R = λ _. Stands} _ _
            (Triple-modify (λ (c : Call E). record c { member_count = c.member_count + 1 })
              λ c h. record { held = h.held })
            λ _.
              Triple-bind _ _ (create_package_file-Leaves package_id (member_file hash name seq))
                λ _. Triple-pure tt λ c h. h

  persist_zip_members-Leaves :
      (config : Config) (package_id supplier_id : ℕ) (zip_bytes : Bytes)
      → Leaves (persist_zip_members E config package_id supplier_id zip_bytes)
  unfolding persist_zip_members members_end
  persist_zip_members-Leaves config package_id supplier_id zip_bytes = record {
    runs = λ c h. go _ _ (each.runs (record c { member_count = 0 }) record { held = h.held });
  }
    where
      each :
          Triple Stands
            (for_each_zip_member
              (persist_member E package_id supplier_id)
              E.zip_reader
              zip_bytes
              config.max_unpacked_zip_bytes)
            (λ _. Stands)
            Stands
      each =
          Triple-for_each _ (λ name bytes. persist_member-Leaves package_id supplier_id name bytes)
            E.zip_reader zip_bytes config.max_unpacked_zip_bytes

      go :
          (r : Result (Unit {0})) (c : Call E)
          → Post (λ _. Stands) Stands (r, c)
          → Post (λ _. Stands) Stands (members_end E package_id supplier_id r c)
      go (ok x) c h = record { held = h.held }
      go (err error) c h =
          (Triple-bind _ _ (persist_unpack_error-Leaves package_id supplier_id error)
              λ _. Triple-pure (2, some error) λ d p. p).runs
            c h

  pub unpack_members-Leaves :
      (config : Config) (package_id supplier_id : ℕ) (body : Bytes) (o : Option String)
      → Leaves (unpack_members E config package_id supplier_id body o)
  unfolding unpack_members
  unpack_members-Leaves config package_id supplier_id body (some e) =
      persist_unpack_error-Leaves package_id supplier_id e
  unpack_members-Leaves config package_id supplier_id body none =
      Triple-bind _ _ (persist_zip_members-Leaves config package_id supplier_id body)
        λ _. Triple-pure tt λ c h. h

-- ===== src/Ingestion/Returned/Made.antt =====
-- internal/ingestion/package.go: the row of the package that a transaction makes.
use little_big_files.Common.{ℕ, ◌≡◌, refl, sym, subst, Option, some, String, List, Bytes}
use little_big_files.Common.Result.{Result, ok, err}
use little_big_files.Common.Exec.{Exec, pure, ◌>>◌}
use little_big_files.Common.Dict.{lookup, nat_eq}
use little_big_files.Common.Triple.{Triple, Post, Triple-bind, Triple-after, Triple-pure}
use little_big_files.Metadata.Tables.{Tables, Package, PackageFile, CreatePackageInput}
use little_big_files.Metadata.Transaction.{with_tx}
use little_big_files.Metadata.Transaction.Packages.{
  create_package, draw_package, insert_package, package_row,
}
use little_big_files.Metadata.Transaction.Packages.Changes.{insert_package-row}
use little_big_files.Metadata.Transaction.Rules.{Holds, Live-Holds, Triple-statement}
use little_big_files.Metadata.Transaction.Committed.{Triple-with_tx}
use little_big_files.Ingestion.Service.{
  Environment, Config, Call, Service, IngestCounters, call_db, set_call_db, in_tx, with_call,
  returned,
}
use little_big_files.Storage.Record.{RecordType, record_zip}
use little_big_files.Ingestion.Members.{original_file}
use little_big_files.Ingestion.Package.{create_original, small_zip_tx, clone_tx}
use little_big_files.Ingestion.Balance.{call_law}
use little_big_files.Ingestion.Returned.{
  Leaves, store-Leaves, create_package_file-Leaves, clone_files-Leaves, increment_ref_counts-Leaves,
  unpack_members-Leaves,
}

-- A package as it was asked for.
pub record IsMadeOf (input : CreatePackageInput) (p : Package) : Type 0 where
  pub supplier : p.supplier_id ≡ input.supplier_id
  pub hashed : p.package_hash ≡ input.package_hash
  pub typed : p.payload_type ≡ input.payload_type
  pub named : p.original_filename ≡ input.original_filename

-- Its row.
abbrev pub Row : CreatePackageInput → ℕ → Tables → Type 0
Row input id t = (p : Package) × (lookup id t.packages ≡ some p) × IsMadeOf input p

pub Row_stable :
    (input : CreatePackageInput) (id : ℕ) (t u : Tables)
    → u.packages ≡ t.packages
    → Row input id t
    → Row input id u
Row_stable input id t u e (p, found, made) =
    (p, subst (λ packages. lookup id packages ≡ some p) (sym e) found, made)

module _ (E : Environment) (input : CreatePackageInput) where
  abbrev pub Anything : Call E → Type 0
  Anything = Holds (call_db E) (λ _. Unit {0})

  -- A transaction that returns the id of the new package.
  abbrev pub Makes : Exec (Call E) ℕ → Type 0
  Makes m = Triple Anything m (λ id. Holds (call_db E) (Row input id)) (λ _. Unit {0})

  create_package-Makes : Makes (in_tx E (create_package input))
  unfolding create_package
  create_package-Makes =
      Triple-after _ (λ id c h. Live-Holds (call_db E) (Row input id) c h) (λ c h. tt)
        (Triple-statement (call_db E) (set_call_db E) (call_law E) {E = λ _. Unit {0}} draw_package
          (insert_package input)
          λ d a t r e. (
            package_row input a d.clock,
            insert_package-row input d a t e,
            record { supplier = refl; hashed = refl; typed = refl; named = refl },
          ))

  -- The rest of a transaction, when it keeps the packages.
  leaves :
      {A : Type 0} (id : ℕ) (m : Exec (Call E) A)
      → Leaves E (Row input id) (Row_stable input id) m
      → Triple
          (Holds (call_db E) (Row input id))
          (m >> pure id)
          (λ id. Holds (call_db E) (Row input id))
          (λ _. Unit {0})
  leaves id m h =
      Triple-bind m _ (Triple-after m (λ a c q. q) (λ c q. tt) h) λ _. Triple-pure id λ c q. q

  pub create_original-Makes :
      (body : Bytes) (type : RecordType) (supplier_id : ℕ) (filename : Option Bytes)
      → Makes (create_original E body type supplier_id input filename)
  unfolding create_original
  create_original-Makes body type supplier_id filename =
      Triple-bind _ _
        (Triple-after _ (λ a c q. q) (λ c q. tt)
          (store-Leaves E (λ _. Unit {0}) (λ t u e r. tt) body type supplier_id))
        λ hash. Triple-bind _ _ create_package-Makes λ id. leaves id _ (
          create_package_file-Leaves E (Row input id) (Row_stable input id) id
            (original_file hash filename))

  pub small_zip_tx-Makes :
      (config : Config) (supplier_id : ℕ) (body : Bytes) (filename : Option Bytes)
      (o : Option String)
      → Makes (small_zip_tx E config supplier_id body input filename o)
  unfolding small_zip_tx
  small_zip_tx-Makes config supplier_id body filename o =
      Triple-bind _ _ (create_original-Makes body record_zip supplier_id filename) λ id.
        leaves id _ (
          unpack_members-Leaves E (Row input id) (Row_stable input id) config id supplier_id body o)

  pub clone_tx-Makes : (files : List PackageFile) → Makes (clone_tx E input files)
  unfolding clone_tx
  clone_tx-Makes files = Triple-bind _ _ create_package-Makes λ id.
      Triple-bind _ _
        (Triple-after _ (λ a c q. q) (λ c q. tt)
          (clone_files-Leaves E (Row input id) (Row_stable input id) id files))
        λ hashes.
          leaves id _ (increment_ref_counts-Leaves E (Row input id) (Row_stable input id) hashes)

  -- The service after the transaction: the row is there.
  abbrev pub Made : ℕ → Service E → Type 0
  Made id s = Row input id s.shard.db.tables

  pub with_call-Made :
      (fn : Exec (Call E) ℕ)
      → Makes fn
      → Triple (λ _. Unit {0}) (with_call E fn) (λ a. Made a.0) (λ _. Unit {0})
  unfolding with_call returned
  with_call-Made fn h = record { runs = λ s _. go s _ (committed.runs _ tt) }
    where
      committed :
          Triple
            (λ _. Unit {0})
            (with_tx (call_db E) (set_call_db E) fn)
            (λ id c. Row input id c.shard.db.tables)
            (λ _. Unit {0})
      committed = Triple-with_tx (call_db E) (set_call_db E) (λ id. Row input id) fn (call_law E) h

      go :
          (s : Service E) (r : Result ℕ × Call E)
          → Post (λ id (c : Call E). Row input id c.shard.db.tables) (λ _. Unit {0}) r
          → Post (λ (a : ℕ × IngestCounters). Made a.0) (λ _. Unit {0}) (returned E s r)
      go s (ok id, c) q = q
      go s (err e, c) q = tt

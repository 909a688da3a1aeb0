-- ===== src/Metadata/Balance/Statements.antt =====
-- internal/metadata/repo.go: the statements of a transaction keep what is due.
use little_big_files.Common.{ℕ, refl, Option, String, List, [], ◌∷◌, Bytes, subst}
use little_big_files.Common.Triple.{Triple, Triple-pure, within}
use little_big_files.Metadata.Blobs.{increment_ref_count_if_exists}
use little_big_files.Metadata.Tables.{StorageMode, CreatePackageInput, CreateFileInput, Tables}
use little_big_files.Metadata.Transaction.{Database, draw_none, tx_increment_ref_count_if_exists}
use little_big_files.Metadata.Transaction.Packages.{
  create_package, create_package_file, get_package_for_update, update_package_after_unpack,
  increment_ref_counts, draw_package, draw_file, insert_package, insert_file, update_unpacked,
}
use little_big_files.Metadata.Transaction.Packages.Changes.{
  insert_package-Same, insert_file-Filed, update_unpacked-Same,
}
use little_big_files.Metadata.Transaction.Rules.{
  Triple-lift, Holds, Live, Lawful, Triple-statement, Triple-on_blobs, Triple-then,
}
use little_big_files.Metadata.Balance.{
  Owed, Owed-Same, Owed-row, Owed-row_uncounted, increment-Owed,
}

module _ {S : Type 0} (get : S → Database) (set : Database → S → S) (law : Lawful get set) where
  module _ {E : Tables → Type 0} (rs cs : List Bytes) where
    pub create_package-Owed :
        (input : CreatePackageInput)
        → Triple
            (Holds get (Owed rs cs))
            (within get set (create_package input))
            (λ _. Live get (Owed rs cs))
            (Holds get E)
    unfolding create_package
    create_package-Owed input =
        Triple-statement get set law draw_package (insert_package input)
          λ d a t r e. Owed-Same rs cs d.tables t (insert_package-Same input d a t e) r

    -- A row whose reference is counted.
    pub create_package_file-Owed :
        (package_id : ℕ) (input : CreateFileInput)
        → Triple
            (Holds get (Owed (input.blob_hash ∷ rs) cs))
            (within get set (create_package_file package_id input))
            (λ _. Live get (Owed rs cs))
            (Holds get E)
    unfolding create_package_file
    create_package_file-Owed package_id input =
        Triple-statement get set law draw_file (insert_file package_id input) λ d a t r e.
          Owed-row rs cs package_id input a d.tables t (insert_file-Filed package_id input d a t e)
            r

    -- A row whose reference is counted later.
    pub create_package_file-uncounted :
        (package_id : ℕ) (input : CreateFileInput)
        → Triple
            (Holds get (Owed rs cs))
            (within get set (create_package_file package_id input))
            (λ _. Live get (Owed rs (input.blob_hash ∷ cs)))
            (Holds get E)
    unfolding create_package_file
    create_package_file-uncounted package_id input =
        Triple-statement get set law draw_file (insert_file package_id input) λ d a t r e.
          Owed-row_uncounted rs cs package_id input a d.tables t
            (insert_file-Filed package_id input d a t e) r

    pub update_package_after_unpack-Owed :
        (id : ℕ) (mode : StorageMode) (file_count : ℕ) (unpack_error : Option String)
        → Triple
            (Holds get (Owed rs cs))
            (within get set (update_package_after_unpack id mode file_count unpack_error))
            (λ _. Live get (Owed rs cs))
            (Holds get E)
    unfolding update_package_after_unpack
    update_package_after_unpack-Owed id mode file_count unpack_error =
        Triple-statement get set law draw_none (update_unpacked id mode file_count unpack_error)
          λ d a t r e.
            Owed-Same rs cs d.tables t
              (update_unpacked-Same id mode file_count unpack_error d a t e) r

  pub get_package_for_update-Holds :
      {E : Tables → Type 0} (R : Tables → Type 0) (id : ℕ)
      → Triple
          (Holds get R)
          (within get set (get_package_for_update id))
          (λ _. Live get R)
          (Holds get E)
  unfolding get_package_for_update
  get_package_for_update-Holds R id =
      Triple-statement get set law draw_none _ λ d a t r e. subst R (cc e) r

  increment_ref_count-Owed :
      {E : Tables → Type 0} (rs cs : List Bytes) (hash : Bytes)
      → Triple
          (Holds get (Owed rs (hash ∷ cs)))
          (within get set (tx_increment_ref_count_if_exists hash))
          (λ _. Live get (Owed rs cs))
          (Holds get E)
  unfolding tx_increment_ref_count_if_exists
  increment_ref_count-Owed rs cs hash =
      Triple-on_blobs get set law (increment_ref_count_if_exists hash)
        λ t r. increment-Owed rs cs hash t r

increments-Owed :
    {E : Tables → Type 0} (rs hashes : List Bytes)
    → Triple
        (Holds (λ d. d) (Owed rs hashes))
        (increment_ref_counts hashes)
        (λ _. Holds (λ d. d) (Owed rs []))
        (Holds (λ d. d) E)
unfolding increment_ref_counts
increments-Owed rs [] = Triple-pure tt λ d h. h
increments-Owed rs (h ∷ hashes) =
    Triple-then (λ d. d) (λ d _. d) _ _
      (increment_ref_count-Owed (λ d. d) (λ d _. d) (λ d _. refl) rs hashes h)
      λ _. increments-Owed rs hashes

-- All that was owed is counted.
pub increment_ref_counts-Owed :
    {S : Type 0} {E : Tables → Type 0} (get : S → Database) (set : Database → S → S)
    → Lawful get set
    → (rs hashes : List Bytes)
    → Triple
        (Holds get (Owed rs hashes))
        (within get set (increment_ref_counts hashes))
        (λ _. Holds get (Owed rs []))
        (Holds get E)
increment_ref_counts-Owed get set law rs hashes =
    Triple-lift get set (increment_ref_counts hashes) law (increments-Owed rs hashes)

-- ===== src/Ingestion/Members.antt =====
-- internal/ingestion/unpack_large.go: persistUnpackError and persistZipMembers.
use little_big_files.Common.{ℕ, ◌+◌, Option, none, some, String, [], ◌∷◌, Bytes}
use little_big_files.Common.Result.{Result, ok, err}
use little_big_files.Common.Exec.{Exec, pure, gets, modify, ◌>>=◌, ◌>>◌}
use little_big_files.Metadata.Tables.{CreateFileInput, member, unpack_error, original}
use little_big_files.Metadata.Transaction.Packages.{create_package_file}
use little_big_files.Storage.Record.{record_xml, record_error}
use little_big_files.Ingestion.Zip.{for_each_zip_member}
use little_big_files.Ingestion.Service.{Environment, Config, Call, in_tx, store}

-- "_unpack_error.txt"
abbrev pub unpack_error_filename : Bytes
unpack_error_filename =
    b'_' ∷ b'u' ∷ b'n' ∷ b'p' ∷ b'a' ∷ b'c' ∷ b'k' ∷ b'_' ∷ b'e' ∷ b'r' ∷ b'r' ∷ b'o' ∷ b'r' ∷ b'.'
    ∷ b't' ∷ b'x' ∷ b't' ∷ []

abbrev pub error_file : Bytes → CreateFileInput
error_file hash = record {
  blob_hash = hash;
  role = unpack_error;
  original_filename = some unpack_error_filename;
  sequence_number = none;
}

abbrev pub member_file : Bytes → Bytes → ℕ → CreateFileInput
member_file hash name seq = record {
  blob_hash = hash;
  role = member;
  original_filename = some name;
  sequence_number = some seq;
}

abbrev pub original_file : Bytes → Option Bytes → CreateFileInput
original_file hash filename = record {
  blob_hash = hash;
  role = original;
  original_filename = filename;
  sequence_number = none;
}

module _ (E : Environment) where
  -- persistUnpackError
  unfoldable pub persist_unpack_error : ℕ → ℕ → String → Exec (Call E) Unit
  persist_unpack_error package_id supplier_id error = do
    hash ← store E (E.message error) record_error supplier_id
    in_tx E (create_package_file package_id (error_file hash))
    pure tt

  -- The function that persistZipMembers calls for each member.
  unfoldable pub persist_member : ℕ → ℕ → Bytes → Bytes → Exec (Call E) Unit
  persist_member package_id supplier_id name bytes = do
    hash ← store E bytes record_xml supplier_id
    seq ← gets (λ (c : Call E). c.member_count)
    modify (λ (c : Call E). record c { member_count = c.member_count + 1 })
    in_tx E (create_package_file package_id (member_file hash name seq))
    pure tt

  -- persistZipMembers: the count of files and the text of an error.
  unfoldable pub members_end : ℕ → ℕ → Result (Unit {0}) → Exec (Call E) (ℕ × Option String)
  members_end package_id supplier_id (ok _) = gets (λ (c : Call E). (1 + c.member_count, none))
  members_end package_id supplier_id (err error) = do
    persist_unpack_error package_id supplier_id error
    pure (2, some error)

  unfoldable pub persist_zip_members : Config → ℕ → ℕ → Bytes → Exec (Call E) (ℕ × Option String)
  unfolding members_end persist_member
  persist_zip_members config package_id supplier_id zip_bytes c =
      let (r, d) =
        for_each_zip_member (persist_member package_id supplier_id) E.zip_reader zip_bytes
          config.max_unpacked_zip_bytes (record c { member_count = 0 }) in
      members_end package_id supplier_id r d

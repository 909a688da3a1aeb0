-- ===== src/Storage/SegmentIndex/Tests.antt =====
-- The index file on concrete inputs, and the theorems at them.
use little_big_files.Common.{◌≡◌, refl, ◌++◌, [], ◌∷◌, arith, replicate}
use little_big_files.Common.Result.{ok}
use little_big_files.Storage.Record.{magic_xml, magic_zip}
use little_big_files.Storage.SegmentIndex.{
  IndexEntry, encode_index_entry, decode_index_entry, read_index_file,
}
use little_big_files.Storage.SegmentIndex.Entries.{IsEntry, decode_index_entry-encode_index_entry}
use little_big_files.Storage.SegmentIndex.Append.{append_all, read_index_file-append_all}

abbrev entry : IndexEntry
entry = record {
  offset = 96;
  stored_size = 40;
  logical_size = 28;
  magic = magic_xml;
  hash = replicate 32 7;
  supplier_id = 12;
  dict_id = 3;
}

abbrev other : IndexEntry
other = record entry { offset = 136; magic = magic_zip; dict_id = 0 }

entry-IsEntry : IsEntry entry
entry-IsEntry = (omega arith, omega arith, omega arith, omega arith, refl, omega arith, omega arith)

other-IsEntry : IsEntry other
other-IsEntry = (omega arith, omega arith, omega arith, omega arith, refl, omega arith, omega arith)

decode_index_entry-encode_index_entry_example :
    decode_index_entry (encode_index_entry entry ++ (5 ∷ [])) ≡ ok entry
decode_index_entry-encode_index_entry_example =
    decode_index_entry-encode_index_entry entry (5 ∷ []) entry-IsEntry

read_index_file-append_all_example :
    read_index_file (append_all (entry ∷ other ∷ []) []) ≡ ok (entry ∷ other ∷ [])
read_index_file-append_all_example =
    read_index_file-append_all (entry ∷ other ∷ [])
      ((entry-IsEntry, omega arith), ((other-IsEntry, omega arith), tt)) (omega arith)

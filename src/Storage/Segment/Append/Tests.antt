-- ===== src/Storage/Segment/Append/Tests.antt =====
-- Runs of the segment manager on concrete inputs, and the theorems at them.
use little_big_files.Common.{
  length, ap, ◌++◌, ◌≡◌, refl, Bool, true, false, List, [], ◌∷◌, arith, Bytes, put_le, take, drop,
}
use little_big_files.Common.Result.{ok}
use little_big_files.Common.Dict.{lookup, insert}
use little_big_files.Storage.Record.{magic_xml, magic_zip, encode_record}
use little_big_files.Storage.Segment.{
  SegmentManager, Outcome, nil, outcome, advance, attempt, settle, recover, open_last, max_id,
  open_segment, open_segment_file, adopt, close_active, file_in, write_active, sync_active,
}
use little_big_files.Storage.Segment.Opening.{
  IsWellFormed, open_segment_file-IsWellFormed, recover-IsWellFormed,
}
use little_big_files.Storage.Segment.Append.{
  append_locked, append_open, rotate_if_full, is_full, write_record, put_and_sync, put_record,
  move_on, here,
}
use little_big_files.Storage.Segment.Append.Durable.{append_locked-durable}
use little_big_files.Storage.Segment.Append.Keeps.{Keeps, append_locked-Keeps}
use little_big_files.Storage.Segment.Append.ReadBack.{append_all, read_record-append_all}
use little_big_files.Storage.Segment.Read.{read_record}

-- A manager before recovery, on an empty directory.
abbrev unopened : List Outcome → SegmentManager
unopened faults = record {
  files = [];
  max_segment_size = 80;
  verify_checksum = true;
  active_id = 0;
  active_file = nil;
  active_offset = 0;
  record_count = 0;
  faults = faults;
}

abbrev fresh : SegmentManager
fresh = (recover (unopened [])).1

fresh-IsWellFormed : IsWellFormed fresh
fresh-IsWellFormed = recover-IsWellFormed (unopened []) refl

abbrev doc : Bytes
doc = b'<' ∷ b'a' ∷ b'/' ∷ b'>' ∷ []

abbrev doc_record : Bytes
doc_record = encode_record magic_xml doc

fresh_append :
    (append_locked doc_record true fresh).0 ≡ ok (record { segment_id = 0; offset = 0; size = 16 })
unfolding recover open_last open_segment open_segment_file attempt settle adopt max_id outcome
    advance close_active file_in lookup insert append_locked append_open rotate_if_full is_full
    write_record put_and_sync put_record write_active sync_active move_on here encode_record put_le
fresh_append = refl

fresh_appended : append_locked doc_record true fresh ≡ (
  ok (record { segment_id = 0; offset = 0; size = 16 }),
  (append_locked doc_record true fresh).1,
)
fresh_appended = ap (λ r. (r, (append_locked doc_record true fresh).1)) fresh_append

append_locked-Keeps_example : Keeps fresh (append_locked doc_record true fresh).1
append_locked-Keeps_example = append_locked-Keeps doc_record true fresh fresh-IsWellFormed

abbrev later : List (Bytes × Bool)
later = (encode_record magic_zip (doc ++ doc), true) ∷ (doc_record, false) ∷ (doc_record, true) ∷ []

read_record-append_all_example :
    read_record (append_all later (append_locked doc_record true fresh).1) 0 0 ≡ ok (magic_xml, doc)
read_record-append_all_example =
    read_record-append_all magic_xml doc true fresh (append_locked doc_record true fresh).1
      (record { segment_id = 0; offset = 0; size = 16 }) later fresh-IsWellFormed (omega arith)
      (omega arith) fresh_appended

open_segment_file-IsWellFormed_example : IsWellFormed (open_segment_file 0 (unopened [])).1
open_segment_file-IsWellFormed_example = open_segment_file-IsWellFormed 0 (unopened []) refl

append_locked-durable_example :
    take
      (length doc_record)
      (drop 0 (file_in (append_locked doc_record true fresh).1.files 0).durable)
    ≡ doc_record
append_locked-durable_example =
    append_locked-durable doc_record fresh (append_locked doc_record true fresh).1
      (record { segment_id = 0; offset = 0; size = 16 }) fresh-IsWellFormed fresh_appended

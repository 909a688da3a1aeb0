-- ===== src/Storage/Tests.antt =====
-- Runs of the record format and of the scan on concrete inputs, and the theorems at them.
use little_big_files.Common.{
  false, true, ℕ, ◌%◌, ◌^◌, ◌≡◌, ◌≢◌, refl, List, [], ◌∷◌, ◌++◌, ◌+◌, ◌<◌, All, arith, Bytes,
  AreBytes, take, length, put_le, get_le, some, none, suc,
}
use little_big_files.Storage.Record.{
  magic_xml, magic_zip, footer_magic, encode_record, encode_footer, footer_size, known_magic,
  validate_footer,
}
use little_big_files.Common.Result.{ok}
use little_big_files.Storage.Scan.Tail.{scan_valid_tail, scan_valid_tail-truncate_to_valid}
use little_big_files.Storage.Record.RoundTrip.{length-encode_record, validate_footer-encode_footer}
use little_big_files.Storage.Scan.{truncate_to_valid, slice, next_record, scan_records}
use little_big_files.Storage.Scan.Complete.{Entry, IsRecord, records}
use little_big_files.Storage.Scan.Crash.{truncate_to_valid-torn, truncate_to_valid-footer}
use little_big_files.Storage.Scan.Ends.{scan_records-ends}
use little_big_files.Storage.Scan.Sound.{NoRecord, KeepsFooter, truncate_to_valid_sound}

abbrev doc : Bytes
doc = b'<' ∷ b'a' ∷ b'/' ∷ b'>' ∷ []

abbrev two : List Entry
two = (magic_xml, doc) ∷ (magic_zip, doc ++ doc) ∷ []

known_xml : known_magic magic_xml ≡ true
unfolding known_magic
known_xml = refl

known_zip : known_magic magic_zip ≡ true
unfolding known_magic
known_zip = refl

no_magic : known_magic 2 ≡ false
unfolding known_magic
no_magic = refl

fields_differ : get_le (slice (encode_record magic_xml doc) 28 32) ≢ footer_magic
unfolding encode_record put_le get_le
fields_differ = omega arith

two-IsRecord : All IsRecord two
two-IsRecord = ((known_xml, omega arith, omega arith), ((known_zip, omega arith, omega arith), tt))

doc_record-AreBytes : AreBytes (encode_record magic_xml doc)
unfolding encode_record put_le
doc_record-AreBytes = omega arith

validate_footer-encode_footer_example : validate_footer (doc ++ encode_footer 1 4) ≡ some (1, 4)
validate_footer-encode_footer_example =
    validate_footer-encode_footer doc 1 4 (omega arith) (omega arith)

truncate_to_valid-torn_example :
    truncate_to_valid (records two ++ take 9 (encode_record magic_xml doc))
    ≡ (records two, 2, length (records two))
truncate_to_valid-torn_example =
    truncate_to_valid-torn two magic_xml doc 9 two-IsRecord (known_xml, omega arith, omega arith)
      short fields_differ
  where
    short : 9 < length (encode_record magic_xml doc)
    short = omega (arith, length-encode_record magic_xml doc)

truncate_to_valid-footer_example :
    truncate_to_valid (records two ++ (encode_footer 2 36 ++ encode_record magic_xml doc))
    ≡ (records two ++ encode_footer 2 36, 2, length (records two) + footer_size)
truncate_to_valid-footer_example =
    truncate_to_valid-footer two 2 36 (encode_record magic_xml doc) two-IsRecord (omega arith)
      no_magic

truncate_to_valid_sound_example :
    (es : List Entry) × (rest : Bytes) × (kept : ℕ) × All IsRecord es
    × (encode_record magic_xml doc ≡ records es ++ rest)
    × NoRecord rest
    × KeepsFooter rest kept
    × (truncate_to_valid (encode_record magic_xml doc)
        ≡ (records es ++ take kept rest, length es % 2 ^ 32, length (records es) + kept))
truncate_to_valid_sound_example =
    truncate_to_valid_sound (encode_record magic_xml doc) doc_record-AreBytes

scan_valid_tail-truncate_to_valid_example :
    scan_valid_tail (records two) (length (records two))
    ≡ ok ((truncate_to_valid (records two)).2, (truncate_to_valid (records two)).1)
scan_valid_tail-truncate_to_valid_example = scan_valid_tail-truncate_to_valid (records two)

abbrev torn : Bytes
torn = records two ++ take 9 (encode_record magic_xml doc)

scan_records-ends_example :
    (next_record torn (scan_records (100 + length torn) torn 0 0).0 ≡ none)
    × (scan_records (100 + length torn) torn 0 0 ≡ scan_records (suc (length torn)) torn 0 0)
scan_records-ends_example = scan_records-ends (100 + length torn) torn (omega arith)

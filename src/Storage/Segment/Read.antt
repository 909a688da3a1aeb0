-- ===== src/Storage/Segment/Read.antt =====
-- internal/storage/segment.go: ReadRecord. A read fails only past the end of a file.
use little_big_files.Common.{
  ℕ, ◌^◌, ◌<◌, ◌≤◌, ◌≡◌, ◌++◌, ap, arith, length, length-append, length-drop, drop, drop-drop, ◌+◌,
  Bool, none, some, Bytes, get_le, ◌==◌, if◌then◌else◌,
}
use little_big_files.Common.Result.{Result, ok, err, ◌>>=◌}
use little_big_files.Common.Dict.{lookup, nat_eq}
use little_big_files.Storage.Checksum.{record_checksum}
use little_big_files.Storage.File.{read_at}
use native.Mathlib.Nat.{add_assoc}
use little_big_files.Storage.Scan.Tail.{decode_record_header-read}
use little_big_files.Storage.Record.RoundTrip.{
  length-encode_record, decode_record_header-encode_record, payload-encode_record,
  trailer-encode_record,
}
use little_big_files.Storage.Record.{
  encode_record, header_size, checksum_size, decode_record_header,
}
use little_big_files.Storage.Segment.{SegmentManager}

-- ReadRecord: the magic and the payload at a location.
pub read_record_of : Bytes → Bool → ℕ → Result (ℕ × Bytes)
unfolding read_at
read_record_of file verify offset = do
  hdr ← read_at file offset header_size
  (magic, size) ← decode_record_header hdr
  payload ← read_at file (offset + header_size) size
  (if verify
      then elim (read_at file (offset + header_size + size) checksum_size) [
        | err _ ↦ err "read record checksum"
        | ok trailer ↦
            if record_checksum payload == get_le trailer
            then ok (magic, payload)
            else err "record checksum mismatch"
      ]
      else ok (magic, payload))

unfoldable pub read_record : SegmentManager → ℕ → ℕ → Result (ℕ × Bytes)
unfolding read_record_of
read_record sm segment_id offset = elim (lookup segment_id sm.files) [
  | none ↦ err "no such file"
  | some f ↦ read_record_of f.content sm.verify_checksum offset
]

-- What `read_record_of` sees of a file: the bytes from the offset on.
pub read_record_of-drop :
    (file rest : Bytes) (magic : ℕ) (payload : Bytes) (verify : Bool) (offset : ℕ)
    → magic < 2 ^ 32
    → length payload < 2 ^ 32
    → offset ≤ length file
    → drop offset file ≡ encode_record magic payload ++ rest
    → read_record_of file verify offset ≡ ok (magic, payload)
unfolding read_record_of
read_record_of-drop file rest magic payload verify offset hm hp ho e = ground (
  arith,
  ap length e,
  length-drop offset file,
  length-append (encode_record magic payload) rest,
  length-encode_record magic payload,
  decode_record_header-read (encode_record magic payload ++ rest),
  decode_record_header-encode_record magic payload rest hm hp,
  drop-drop offset 8 file,
  payload-encode_record magic payload rest,
  drop-drop offset (8 + length payload) file,
  trailer-encode_record magic payload rest,
  add_assoc offset 8 (length payload),
)

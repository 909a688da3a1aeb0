-- ===== src/Storage/Segment.antt =====
-- internal/storage/segment.go: the segment files of a shard and the manager that appends to the
-- active one. File operations may fail: each takes its outcome from a schedule of faults.
pub mod Append
pub mod Read
pub mod Opening
use little_big_files.Common.{
  ℕ, ◌+◌, ◌%◌, ◌^◌, String, Bool, true, false, ◌&&◌, ◌||◌, Option, none, some, List, [], ◌∷◌, Bytes,
  get_le, length, take, drop, max, ltb, ◌==◌, if◌then◌else◌,
}
use little_big_files.Common.Result
use little_big_files.Common.Result.{Result, ok, err}
use little_big_files.Common.Exec.{Exec, pure, raise, lift, gets, modify, ◌>>=◌, ◌>>◌, continue}
use little_big_files.Common.Dict.{lookup, insert, nat_eq}
use little_big_files.Storage.Checksum.{record_checksum}
use little_big_files.Storage.File.{read_at, write_at}
use little_big_files.Storage.Record.{
  header_size, checksum_size, footer_size, decode_record_header, encode_footer,
}
use little_big_files.Storage.Scan.Tail.{scan_valid_tail}

-- The bytes of a file, and those that were there at the last fsync.
pub record File : Type 0 where
  pub content : Bytes
  pub durable : Bytes

pub data Handle : Type 0 where
  nil closed : Handle
  opened : ℕ → Handle

-- A file operation succeeds, or fails; a write that fails has written that many bytes.
pub data Outcome : Type 0 where
  done : Outcome
  fails : ℕ → Outcome

pub record Location : Type 0 where
  pub segment_id : ℕ
  pub offset : ℕ
  pub size : ℕ

pub record SegmentManager : Type 0 where
  pub files : List (ℕ × File)
  pub max_segment_size : ℕ
  pub verify_checksum : Bool
  pub active_id : ℕ
  pub active_file : Handle
  pub active_offset : ℕ
  pub record_count : ℕ
  pub faults : List Outcome

abbrev pub Action : Type 0 → Type 0
Action A = Exec SegmentManager A

-- The outcome of the next file operation; an exhausted schedule has no faults.
unfoldable pub outcome : SegmentManager → Outcome
outcome sm = elim sm.faults [ [] ↦ done | o ∷ rest ↦ o ]

unfoldable pub advance : SegmentManager → SegmentManager
advance sm = record sm { faults = drop 1 sm.faults }

abbrev pub empty_file : File
empty_file = record { content = []; durable = [] }

abbrev pub or_empty : Option File → File
or_empty none = empty_file
or_empty (some f) = f

unfoldable pub file_in : List (ℕ × File) → ℕ → File
file_in files id = or_empty (lookup id files)

abbrev pub set_file : ℕ → File → SegmentManager → SegmentManager
set_file id f sm = record sm { files = insert id f sm.files }

-- The bytes that a write puts in place.
pub written : Bytes → Outcome → Bytes
written bytes done = bytes
written bytes (fails n) = take n bytes

unfoldable pub settle : Outcome → String → Action Unit
settle done e = pure tt
settle (fails _) e = raise e

-- An operation that only succeeds or fails.
unfoldable pub attempt : String → Action Unit
unfolding settle outcome advance
attempt e sm = settle (outcome sm) e (advance sm)

-- activeFile.WriteAt(bytes, offset)
unfoldable pub write_active : Bytes → ℕ → String → Action Unit
unfolding settle outcome advance written
write_active bytes offset e sm = elim sm.active_file [
  | nil ↦ (err e, sm)
  | closed ↦ (err e, sm)
  | opened id ↦
      let f = file_in sm.files id in
      let bytes' = written bytes (outcome sm) in
      let f' = record f { content = write_at f.content offset bytes' } in
      settle (outcome sm) e (set_file id f' (advance sm))
]

pub synced : File → File
synced f = record f { durable = f.content }

-- activeFile.Sync()
unfoldable pub sync_active : String → Action Unit
unfolding attempt synced
sync_active e sm = elim sm.active_file [
  | nil ↦ (err e, sm)
  | closed ↦ (err e, sm)
  | opened id ↦ (attempt e >>= λ _. modify (λ t. set_file id (synced (file_in t.files id)) t)) sm
]

-- activeFile.Close(), whose error is dropped.
pub close_active : SegmentManager → SegmentManager
close_active sm = elim sm.active_file [
  | nil ↦ sm
  | closed ↦ sm
  | opened _ ↦ record sm { active_file = closed }
]

-- The rest of openSegmentFile, once the file is open: find the valid tail and cut off the rest.
pub adopt_tail : ℕ → File → Action Unit
unfolding attempt close_active
adopt_tail id f sm = elim (scan_valid_tail f.content (length f.content)) [
  | err e ↦ (err e, close_active sm)
  | ok (valid_size, count) ↦
      let adopted =
        λ (t : SegmentManager). record t { active_offset = valid_size; record_count = count } in
      if ltb valid_size (length f.content)
      then (let (r, t) = attempt "truncate" sm in
          elim r [
            | err e ↦ (err e, close_active t)
            | ok _ ↦
                (ok tt, adopted (set_file id (record f { content = take valid_size f.content }) t))
          ])
      else (ok tt, adopted sm)
]

-- The part of openSegmentFile that reads the offset and the count off the file.
pub adopt : ℕ → Action Unit
adopt id sm =
    let f = file_in sm.files id in
    if length f.content == 0
    then (ok tt, record sm { active_offset = 0; record_count = 0 })
    else adopt_tail id f sm

-- openSegmentFile: opens the file, which is made if it is not there, and reads its size.
pub open_segment_file : ℕ → Action Unit
open_segment_file id = do
  modify close_active
  attempt "open"
  modify (λ sm. set_file id (file_in sm.files id) sm)
  attempt "stat"
  modify (λ sm. record sm { active_file = opened id })
  adopt id

pub open_segment : ℕ → Action Unit
open_segment id = do
  modify (λ sm. record sm { active_id = id; active_offset = 0; record_count = 0 })
  open_segment_file id

-- The largest id of a segment file in the directory. The name is scanned with a width of four digits
-- in front of `.dat`, so that a file with more digits is passed over.
pub max_id : List (ℕ × File) → Option ℕ
max_id [] = none
max_id ((id, _) ∷ rest) =
    let found = max_id rest in
    if ltb id 10000 then elim found [ none ↦ some id | some m ↦ some (max id m) ] else found

-- The segment that is active after a restart: the last one, or a first one.
pub open_last : Option ℕ → Action Unit
open_last none = open_segment 0
open_last (some id) = do modify (λ sm. record sm { active_id = id }); open_segment_file id

-- recover
pub recover : Action Unit
recover = do attempt "read segment dir"; λ sm. (open_last (max_id sm.files) sm)

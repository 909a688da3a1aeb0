-- ===== src/Storage/Segment/Append.antt =====
-- internal/storage/segment.go: appends to the active segment, its rotation and its end.
pub mod Steps
mod Tests
pub mod Keeps
pub mod Grows
pub mod ReadBack
pub mod Durable
use little_big_files.Common.{
  ℕ, ◌+◌, ◌%◌, ◌^◌, Bool, true, false, ◌&&◌, ◌||◌, List, [], ◌∷◌, Bytes, length, ltb, ◌==◌,
  if◌then◌else◌,
}
use little_big_files.Common.Result.{Result, ok, err}
use little_big_files.Common.Exec.{pure, gets, modify, ◌>>=◌, ◌>>◌}
use little_big_files.Storage.Record.{footer_size, encode_footer}
use little_big_files.Storage.Segment.{
  Handle, nil, Location, SegmentManager, Action, write_active, sync_active, close_active,
  open_segment,
}

-- WriteAt of the footer behind the records.
put_footer : Action Unit
put_footer sm =
    write_active (encode_footer sm.record_count sm.active_offset) sm.active_offset "footer" sm

write_footer : Action Unit
write_footer = do put_footer; sync_active "footer"

-- finalizeLocked
pub finalize_locked : Action Unit
finalize_locked sm = elim sm.active_file [
  | nil ↦ (ok tt, sm)
  | _ ↦ if sm.active_offset == 0 then (ok tt, sm) else write_footer sm
]

-- The record and a footer do not fit into the segment any more.
unfoldable pub is_full : ℕ → SegmentManager → Bool
is_full record_size sm =
    ltb 0 sm.active_offset && ltb sm.max_segment_size (sm.active_offset + record_size + footer_size)

-- On to the next segment.
pub rotate : Action Unit
rotate = do finalize_locked; λ sm. (open_segment (sm.active_id + 1) sm)

unfoldable pub rotate_if_full : ℕ → Action Unit
rotate_if_full record_size sm = if is_full record_size sm then rotate sm else (ok tt, sm)

-- WriteAt of the record.
unfoldable pub put_record : Bytes → Action Unit
put_record bytes sm = write_active bytes sm.active_offset "segment write" sm

unfoldable pub put_and_sync : Bytes → Bool → Action Unit
put_and_sync bytes fsync = do
  put_record bytes
  (if fsync then sync_active "segment fsync" else pure tt)

unfoldable pub move_on : Bytes → SegmentManager → SegmentManager
move_on bytes sm = record sm {
  active_offset = sm.active_offset + length bytes;
  record_count = (sm.record_count + 1) % 2 ^ 32;
}

unfoldable pub here : Bytes → SegmentManager → Location
here bytes sm = record { segment_id = sm.active_id; offset = sm.active_offset; size = length bytes }

-- What follows the rotation: write, fsync if asked to, and move on.
unfoldable pub write_record : Bytes → Bool → Action Location
unfolding move_on here
write_record bytes fsync = do
  loc ← gets (here bytes)
  put_and_sync bytes fsync
  modify (move_on bytes)
  pure loc

unfoldable pub append_open : Bytes → Bool → Action Location
append_open bytes fsync = do rotate_if_full (length bytes); write_record bytes fsync

-- appendLocked
unfoldable pub append_locked : Bytes → Bool → Action Location
append_locked bytes fsync sm = elim sm.active_file [
  | nil ↦ (err "no active segment", sm)
  | _ ↦ append_open bytes fsync sm
]

-- appendDirect
unfoldable pub append_direct : Bytes → Action Location
append_direct bytes = append_locked bytes true

-- batchAppend: the outcome of each write, and one fsync if any succeeded.
write_batch : List Bytes → SegmentManager → List (Result Location) × SegmentManager
write_batch [] sm = ([], sm)
write_batch (bytes ∷ rest) sm =
    let (r, t) = append_locked bytes false sm in let (rs, u) = write_batch rest t in (r ∷ rs, u)

succeeded : Result Location → Bool
succeeded (ok _) = true
succeeded (err _) = false

any_succeeded : List (Result Location) → Bool
any_succeeded [] = false
any_succeeded (r ∷ rs) = succeeded r || any_succeeded rs

fail_succeeded : List (Result Location) → List (Result Location)
fail_succeeded [] = []
fail_succeeded (ok _ ∷ rs) = err "batch fsync" ∷ fail_succeeded rs
fail_succeeded (err e ∷ rs) = err e ∷ fail_succeeded rs

has_file : Handle → Bool
has_file nil = false
has_file _ = true

pub batch_append : List Bytes → SegmentManager → List (Result Location) × SegmentManager
unfolding any_succeeded succeeded fail_succeeded has_file
batch_append batch sm =
    let (rs, t) = write_batch batch sm in
    if any_succeeded rs && has_file t.active_file
    then (let (r, u) = sync_active "batch fsync" t in
        elim r [ ok _ ↦ (rs, u) | err _ ↦ (fail_succeeded rs, u) ])
    else (rs, t)

-- Close: the footer of the active segment, then its handle.
pub close : Action Unit
close = do finalize_locked; modify close_active

-- ===== src/Storage/Segment/Append/Steps.antt =====
-- What one file operation, and one write of a record, do to the files of a shard.
use little_big_files.Common.{
  ℕ, ◌+◌, ◌≡◌, refl, Bool, true, false, ◌⊎◌, inl, inr, arith, Bytes, length, ◌==◌, ==-refl,
}
use little_big_files.Common.Result.{ok}
use little_big_files.Common.Dict.{insert, nat_eq}
use little_big_files.Storage.File.{write_at}
use little_big_files.Storage.Segment.{
  File, Handle, nil, closed, opened, Location, SegmentManager, file_in, write_active, sync_active,
}
use little_big_files.Storage.Segment.Opening.{file_in-insert}
use little_big_files.Storage.Segment.Append.{put_and_sync, put_record, write_record}

pub Handle-cases : (h : Handle) → (h ≡ nil) ⊎ (h ≡ closed) ⊎ ((id : ℕ) × (h ≡ opened id))
Handle-cases nil = inl refl
Handle-cases closed = inr (inl refl)
Handle-cases (opened id) = inr (inr (id, refl))

-- A record was written: where, and what the files hold now.
pub record Wrote (bytes : Bytes) (sm t : SegmentManager) (loc : Location) : Type 0 where
  pub id : ℕ
  pub handle : sm.active_file ≡ opened id
  pub segment_id : loc.segment_id ≡ sm.active_id
  pub offset : loc.offset ≡ sm.active_offset
  pub size : loc.size ≡ length bytes
  pub content :
      (file_in t.files id).content ≡ write_at (file_in sm.files id).content sm.active_offset bytes
  pub others : (j : ℕ) → (id == j) ≡ false → file_in t.files j ≡ file_in sm.files j
  pub handle' : t.active_file ≡ opened id
  pub active_id' : t.active_id ≡ sm.active_id
  pub active_offset' : t.active_offset ≡ sm.active_offset + length bytes

module _ (bytes : Bytes) (fsync : Bool) (sm t : SegmentManager) (loc : Location) where
  pub write_record-Wrote : write_record bytes fsync sm ≡ (ok loc, t) → Wrote bytes sm t loc
  unfolding write_record put_and_sync put_record write_active sync_active
  write_record-Wrote h = elim (Handle-cases sm.active_file) [
    | inl e ↦ ground arith
    | inr (inl e) ↦ ground arith
    | inr (inr (id, e)) ↦
        let f = file_in sm.files id in
        let f' : File = record f { content = write_at f.content sm.active_offset bytes } in
        let files' = insert id f' sm.files in
        let now = (file_in files' id).content in
        let f'' : File = record { content = now; durable = now } in
        record {
          id = id;
          handle = e;
          segment_id = ground arith;
          offset = ground arith;
          size = ground arith;
          content = ground (
            arith,
            file_in-insert id id f' sm.files,
            file_in-insert id id f'' files',
            ==-refl id,
          );
          others = λ j ne.
              ground (arith, file_in-insert id j f' sm.files, file_in-insert id j f'' files');
          handle' = ground arith;
          active_id' = ground arith;
          active_offset' = ground arith;
        }
  ]

-- A write with fsync leaves all of the active file synced.
pub write_record-synced :
    (bytes : Bytes) (sm t : SegmentManager) (loc : Location) (id : ℕ)
    → sm.active_file ≡ opened id
    → write_record bytes true sm ≡ (ok loc, t)
    → (file_in t.files id).durable ≡ (file_in t.files id).content
unfolding write_record put_and_sync put_record write_active sync_active
write_record-synced bytes sm t loc id e h =
    let f = file_in sm.files id in
    let f' : File = record f { content = write_at f.content sm.active_offset bytes } in
    let files' = insert id f' sm.files in
    let now = (file_in files' id).content in
    let f'' : File = record { content = now; durable = now } in
    ground (arith, file_in-insert id id f'' files', ==-refl id)

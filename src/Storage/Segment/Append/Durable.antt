-- ===== src/Storage/Segment/Append/Durable.antt =====
-- internal/storage/segment.go: what an append with fsync has reported is on the disk.
use little_big_files.Common.{◌≡◌, ◌∙◌, sym, ap, subst, true, Bytes, length, take, drop}
use little_big_files.Common.Result.{ok}
use little_big_files.Storage.Segment.{SegmentManager, Location, file_in}
use little_big_files.Storage.Segment.Opening.{IsWellFormed}
use little_big_files.Storage.Segment.Append.{append_locked, rotate_if_full}
use little_big_files.Storage.Segment.Append.Keeps.{rotate_if_full-Keeps}
use little_big_files.Storage.Segment.Append.Steps.{write_record-Wrote, write_record-synced}
use little_big_files.Storage.Segment.Append.ReadBack.{append_locked-split, append_locked-Stored}

-- When appendLocked with fsync succeeds on a well-formed manager, with or without a rotation and
-- whichever operations failed before, the bytes of the record stand at the reported place among those
-- of the file that were synced.
pub append_locked-durable :
    (bytes : Bytes) (sm t : SegmentManager) (loc : Location)
    → IsWellFormed sm
    → append_locked bytes true sm ≡ (ok loc, t)
    → take (length bytes) (drop loc.offset (file_in t.files loc.segment_id).durable) ≡ bytes
append_locked-durable bytes sm t loc wf h =
    ap (λ c. take (length bytes) (drop loc.offset c)) synced
    ∙ (append_locked-Stored bytes true sm t loc wf h).stands
  where
    u : SegmentManager
    u = (rotate_if_full (length bytes) sm).1

    synced : (file_in t.files loc.segment_id).durable ≡ (file_in t.files loc.segment_id).content
    synced =
        let last = append_locked-split bytes true sm t loc h in
        let w = write_record-Wrote bytes true u t loc last in
        let (same, _) =
          (rotate_if_full-Keeps (length bytes) sm wf).well_formed.fits w.id w.handle in
        subst (λ i. (file_in t.files i).durable ≡ (file_in t.files i).content)
          (same ∙ sym w.segment_id) (write_record-synced bytes u t loc w.id w.handle last)

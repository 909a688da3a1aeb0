-- ===== src/Storage/Segment/Append/ReadBack.antt =====
-- ReadRecord after appendLocked, and after all later appends (internal/storage/segment.go).
use little_big_files.Common.{
  ℕ, ◌+◌, ◌^◌, ◌≤◌, ◌<◌, ◌≡◌, ◌∙◌, sym, subst, ap, Bool, inl, inr, some, List, [], ◌∷◌, ◌++◌, arith,
  Bytes, length, take, drop, take-append, take-append-drop, drop-take,
}
use little_big_files.Common.Result.{Result, ok, err}
use little_big_files.Common.Exec.{continue}
use little_big_files.Common.Dict.{lookup, nat_eq}
use little_big_files.Storage.File.{drop-write_at, length-write_at}
use little_big_files.Storage.Record.{encode_record}
use little_big_files.Storage.Record.RoundTrip.{length-encode_record}
use little_big_files.Storage.Segment.{SegmentManager, Location, file_in}
use little_big_files.Storage.Segment.Opening.{lookup_file, IsWellFormed}
use little_big_files.Storage.Segment.Append.{
  append_locked, append_open, write_record, rotate_if_full,
}
use little_big_files.Storage.Segment.Append.Grows.{content}
use little_big_files.Storage.Segment.Append.Keeps.{
  Keeps, append_cases, append_locked-Keeps, rotate_if_full-Keeps,
}
use little_big_files.Storage.Segment.Append.Steps.{Wrote, write_record-Wrote}
use little_big_files.Storage.Segment.Read.{read_record, read_record_of-drop}

-- The bytes stand in segment `id` at `offset`, before the place of the next record.
pub record Stored (bytes : Bytes) (id offset : ℕ) (sm : SegmentManager) : Type 0 where
  pub known : id ≤ sm.active_id
  pub before : id ≡ sm.active_id → offset + length bytes ≤ sm.active_offset
  pub in_file : offset + length bytes ≤ length (content sm id)
  pub stands : take (length bytes) (drop offset (content sm id)) ≡ bytes

pub Stored-Keeps :
    {bytes : Bytes} {id offset : ℕ} {sm t : SegmentManager}
    → Stored bytes id offset sm
    → Keeps sm t
    → Stored bytes id offset t
Stored-Keeps {bytes} {id} {offset} {sm} {t} s k = record {
  known = omega (arith, s.known, k.id_grows);
  before = λ e.
      let same : id ≡ sm.active_id = omega (arith, s.known, k.id_grows) in
      omega (arith, s.before same, k.offset_grows (sym e ∙ same));
  in_file = omega (arith, s.in_file, k.longer id s.known);
  stands = ground (
    arith,
    k.front id (offset + length bytes) s.known s.in_file s.before,
    drop-take offset (offset + length bytes) (content sm id),
    drop-take offset (offset + length bytes) (content t id),
    s.stands,
  );
}

Wrote-Stored :
    {bytes : Bytes} {sm t : SegmentManager} {loc : Location}
    → IsWellFormed sm
    → Wrote bytes sm t loc
    → Stored bytes loc.segment_id loc.offset t
Wrote-Stored {bytes} {sm} {t} {loc} wf w =
    let (same, fits) = wf.fits w.id w.handle in
    let c = content sm w.id in
    let e : loc.segment_id ≡ w.id = w.segment_id ∙ sym same in
    record {
      known = omega (arith, w.segment_id, w.active_id');
      before = λ _. omega (arith, w.offset, w.active_offset');
      in_file =
          subst (λ i. loc.offset + length bytes ≤ length (content t i)) (sym e)
            (ground (arith, w.offset, w.content, length-write_at c sm.active_offset bytes fits));
      stands =
          subst (λ i. take (length bytes) (drop loc.offset (content t i)) ≡ bytes) (sym e)
            (ground (
              arith,
              w.offset,
              w.content,
              drop-write_at c sm.active_offset bytes fits,
              take-append bytes (drop (sm.active_offset + length bytes) c),
            ));
    }

-- A stored record can be read.
pub Stored-read :
    (magic : ℕ) (payload : Bytes) (id offset : ℕ) (sm : SegmentManager)
    → magic < 2 ^ 32
    → length payload < 2 ^ 32
    → Stored (encode_record magic payload) id offset sm
    → read_record sm id offset ≡ ok (magic, payload)
unfolding read_record
Stored-read magic payload id offset sm hm hp s = ground (
  arith,
  found,
  read_record_of-drop (content sm id)
      (drop (length (encode_record magic payload)) (drop offset (content sm id))) magic payload
      sm.verify_checksum offset hm hp (omega (arith, s.in_file)) split,
)
  where
    split :
        drop offset (content sm id)
        ≡ encode_record magic payload
          ++ drop (length (encode_record magic payload)) (drop offset (content sm id))
    split =
        sym (take-append-drop (length (encode_record magic payload)) (drop offset (content sm id)))
        ∙ ap (λ b. b ++ drop (length (encode_record magic payload)) (drop offset (content sm id)))
            s.stands

    found : lookup id sm.files ≡ some (file_in sm.files id)
    found = lookup_file id sm.files (omega (arith, s.in_file, length-encode_record magic payload))

append_open_ok :
    (bytes : Bytes) (fsync : Bool) (sm t : SegmentManager) (loc : Location)
    → append_locked bytes fsync sm ≡ (ok loc, t)
    → append_open bytes fsync sm ≡ (ok loc, t)
append_open_ok bytes fsync sm t loc h = elim (append_cases bytes fsync sm) [
  | inl e ↦ ground arith
  | inr e ↦ sym e ∙ h
]

-- The write that an append ends with, behind the rotation.
pub append_locked-split :
    (bytes : Bytes) (fsync : Bool) (sm t : SegmentManager) (loc : Location)
    → append_locked bytes fsync sm ≡ (ok loc, t)
    → write_record bytes fsync (rotate_if_full (length bytes) sm).1 ≡ (ok loc, t)
unfolding append_open
append_locked-split bytes fsync sm t loc h =
    go (rotate_if_full (length bytes) sm).0 (append_open_ok bytes fsync sm t loc h)
  where
    u : SegmentManager
    u = (rotate_if_full (length bytes) sm).1

    go :
        (r : Result Unit)
        → continue r (λ _. write_record bytes fsync) u ≡ (ok loc, t)
        → write_record bytes fsync u ≡ (ok loc, t)
    go (ok _) e = e
    go (err m) e = ground arith

-- An append that succeeds has stored its record at the location that it returns.
pub append_locked-Stored :
    (bytes : Bytes) (fsync : Bool) (sm t : SegmentManager) (loc : Location)
    → IsWellFormed sm
    → append_locked bytes fsync sm ≡ (ok loc, t)
    → Stored bytes loc.segment_id loc.offset t
append_locked-Stored bytes fsync sm t loc wf h =
    Wrote-Stored (rotate_if_full-Keeps (length bytes) sm wf).well_formed
      (write_record-Wrote bytes fsync _ t loc (append_locked-split bytes fsync sm t loc h))

-- Further appends, whether they succeed or not.
unfoldable pub append_all : List (Bytes × Bool) → SegmentManager → SegmentManager
append_all [] sm = sm
append_all ((bytes, fsync) ∷ rest) sm = append_all rest (append_locked bytes fsync sm).1

append_all-Stored :
    (later : List (Bytes × Bool)) (bytes : Bytes) (id offset : ℕ) (sm : SegmentManager)
    → IsWellFormed sm
    → Stored bytes id offset sm
    → Stored bytes id offset (append_all later sm)
unfolding append_all
append_all-Stored [] bytes id offset sm wf s = s
append_all-Stored ((next, fsync) ∷ later) bytes id offset sm wf s =
    let k = append_locked-Keeps next fsync sm wf in
    append_all-Stored later bytes id offset _ k.well_formed (Stored-Keeps s k)

-- A record that was appended reads back from the location that the append returned, then and after
-- all later appends, whichever file operations of those fail.
pub read_record-append_all :
    (magic : ℕ) (payload : Bytes) (fsync : Bool) (sm t : SegmentManager) (loc : Location)
    (later : List (Bytes × Bool))
    → IsWellFormed sm
    → magic < 2 ^ 32
    → length payload < 2 ^ 32
    → append_locked (encode_record magic payload) fsync sm ≡ (ok loc, t)
    → read_record (append_all later t) loc.segment_id loc.offset ≡ ok (magic, payload)
read_record-append_all magic payload fsync sm t loc later wf hm hp h =
    let bytes = encode_record magic payload in
    let wf' = subst (λ p. IsWellFormed p.1) h (append_locked-Keeps bytes fsync sm wf).well_formed in
    Stored-read magic payload loc.segment_id loc.offset (append_all later t) hm hp (
      append_all-Stored later bytes loc.segment_id loc.offset t wf'
        (append_locked-Stored bytes fsync sm t loc wf h))

-- ===== src/Storage/Segment/Opening.antt =====
-- Opening a segment (openSegmentFile, openSegment, recover of internal/storage/segment.go): the
-- manager that comes out is well-formed, whatever fails on the way.
use little_big_files.Common.{
  Option, ◌∙◌, String, Bool-cases, ◌≢◌, ℕ, ◌≤◌, ◌≡◌, refl, false, inl, inr, none, some, List, arith,
  length, take, length-take, ◌==◌, if◌then◌else◌, ==-refl,
}
use little_big_files.Common.Exec.{◌>>◌, continue}
use little_big_files.Common.Dict.{lookup, insert, lookup-insert, nat_eq}
use little_big_files.Storage.Scan.Tail.{scan_valid_tail-fits}
use little_big_files.Storage.Segment.{
  open_last, done, fails, Outcome, advance, Action, settle, outcome, close_active, attempt, adopt,
  File, nil, opened, SegmentManager, file_in, max_id, adopt_tail, open_segment_file, open_segment,
  recover,
}

pub file_in-insert :
    (id j : ℕ) (f : File) (files : List (ℕ × File))
    → file_in (insert id f files) j ≡ (if id == j then f else file_in files j)
unfolding file_in
file_in-insert id j f files = ground (arith, lookup-insert id j f files)

-- A file that holds bytes is in the directory.
pub lookup_file :
    (id : ℕ) (files : List (ℕ × File))
    → 1 ≤ length (file_in files id).content
    → lookup id files ≡ some (file_in files id)
unfolding file_in
lookup_file id files h = ground arith

-- An open handle is on the active segment, whose file reaches up to the offset of the next record.
pub record IsWellFormed (sm : SegmentManager) : Type 0 where
  pub fits :
      (id : ℕ)
      → sm.active_file ≡ opened id
      → (id ≡ sm.active_id) × (sm.active_offset ≤ length (file_in sm.files id).content)

module _ (id : ℕ) (sm : SegmentManager) where
  adopt_tail-IsWellFormed :
      (f : File)
      → sm.active_file ≡ opened id
      → sm.active_id ≡ id
      → file_in sm.files id ≡ f
      → IsWellFormed (adopt_tail id f sm).1
  unfolding adopt_tail
  adopt_tail-IsWellFormed f h a e =
      let (size, count, scanned, fits) = scan_valid_tail-fits f.content in
      record {
        fits = λ j h'. ground (
          arith,
          scanned,
          file_in-insert id id (record f { content = take size f.content }) sm.files,
          length-take size f.content,
          ==-refl id,
        );
      }

  adopt-IsWellFormed : sm.active_file ≡ opened id → sm.active_id ≡ id → IsWellFormed (adopt id sm).1
  unfolding adopt
  adopt-IsWellFormed h a = elim (Bool-cases (length (file_in sm.files id).content == 0)) [
    | inl e ↦ rw (e, adopt) (record { fits = λ j h'. ground arith })
    | inr e ↦ rw (e, adopt) (adopt_tail-IsWellFormed (file_in sm.files id) h a refl)
  ]

-- What holds after a failure and what holds after the rest holds after both in turn.
pub attempt_then :
    (P : SegmentManager → Type 0) (e : String) (k : Action Unit) (sm : SegmentManager)
    → P (advance sm)
    → P (k (advance sm)).1
    → P ((attempt e >> k) sm).1
unfolding attempt outcome settle
attempt_then P e k sm failed went = go (outcome sm)
  where
    go :
        (o : Outcome)
        → P (continue (settle o e (advance sm)).0 (λ _. k) (settle o e (advance sm)).1).1
    go done = went
    go (fails n) = failed

NotOpened : SegmentManager → Type 0
NotOpened sm = (id : ℕ) → sm.active_file ≢ opened id

NotOpened-IsWellFormed :
    (sm : SegmentManager) → ((id : ℕ) → sm.active_file ≢ opened id) → IsWellFormed sm
NotOpened-IsWellFormed sm n = record { fits = λ id h. absurd (n id h) }

close_active-ne : (sm : SegmentManager) (id : ℕ) → (close_active sm).active_file ≢ opened id
unfolding close_active
close_active-ne sm id = ground arith

close_active-active_id : (sm : SegmentManager) → (close_active sm).active_id ≡ sm.active_id
unfolding close_active
close_active-active_id sm = ground arith

-- However opening a segment ends, the manager is well-formed.
pub open_segment_file-IsWellFormed :
    (id : ℕ) (sm : SegmentManager) → sm.active_id ≡ id → IsWellFormed (open_segment_file id sm).1
unfolding open_segment_file advance
open_segment_file-IsWellFormed id sm a =
    attempt_then IsWellFormed "open" _ (close_active sm)
      (NotOpened-IsWellFormed _ (close_active-ne sm))
      (attempt_then IsWellFormed "stat" _ _ (NotOpened-IsWellFormed _ (close_active-ne sm))
        (adopt-IsWellFormed id _ refl (close_active-active_id sm ∙ a)))

pub open_segment-IsWellFormed : (id : ℕ) (sm : SegmentManager) → IsWellFormed (open_segment id sm).1
unfolding open_segment
open_segment-IsWellFormed id sm = open_segment_file-IsWellFormed id _ refl

open_last-IsWellFormed :
    (last : Option ℕ) (sm : SegmentManager) → IsWellFormed (open_last last sm).1
unfolding open_last
open_last-IsWellFormed none sm = open_segment-IsWellFormed 0 sm
open_last-IsWellFormed (some id) sm = open_segment_file-IsWellFormed id _ refl

-- However recovery ends, the manager is well-formed.
pub recover-IsWellFormed :
    (sm : SegmentManager) → sm.active_file ≡ nil → IsWellFormed (recover sm).1
unfolding recover advance
recover-IsWellFormed sm h =
    attempt_then IsWellFormed "read segment dir" _ sm (NotOpened-IsWellFormed _ (λ id e. cc (h, e)))
      (open_last-IsWellFormed (max_id sm.files) (advance sm))

module _ (id j : ℕ) (ne : (id == j) ≡ false) where
  adopt-others : (sm : SegmentManager) → file_in (adopt id sm).1.files j ≡ file_in sm.files j
  unfolding adopt adopt_tail attempt settle close_active outcome advance
  adopt-others sm =
      let f = file_in sm.files id in
      let (size, count, scanned, fits) = scan_valid_tail-fits f.content in
      ground
        (arith, scanned, file_in-insert id j (record f { content = take size f.content }) sm.files)

  -- Opening a segment leaves the files of the others alone.
  pub open_segment-others :
      (sm : SegmentManager) → file_in (open_segment id sm).1.files j ≡ file_in sm.files j
  unfolding open_segment open_segment_file close_active advance
  open_segment-others sm =
      attempt_then Same "open" _ _ closed_files
        (attempt_then Same "stat" _ _ opened_files (adopt-others _ ∙ opened_files))
    where
      Same : SegmentManager → Type 0
      Same t = file_in t.files j ≡ file_in sm.files j

      start : SegmentManager
      start = record sm { active_id = id; active_offset = 0; record_count = 0 }

      closed_files : file_in (close_active start).files j ≡ file_in sm.files j
      closed_files = ground arith

      opened_files :
          file_in (insert id (file_in (close_active start).files id) (close_active start).files) j
          ≡ file_in sm.files j
      opened_files = ground (
        arith,
        file_in-insert id j (file_in (close_active start).files id) (close_active start).files,
        closed_files,
      )

adopt-active_id : (id : ℕ) (sm : SegmentManager) → (adopt id sm).1.active_id ≡ sm.active_id
unfolding adopt adopt_tail attempt settle close_active outcome advance
adopt-active_id id sm =
    let (size, count, scanned, fits) = scan_valid_tail-fits (file_in sm.files id).content in
    ground (arith, scanned)

pub open_segment-active_id : (id : ℕ) (sm : SegmentManager) → (open_segment id sm).1.active_id ≡ id
unfolding open_segment open_segment_file advance
open_segment-active_id id sm =
    attempt_then (λ t. t.active_id ≡ id) "open" _ _ (close_active-active_id _)
      (attempt_then (λ t. t.active_id ≡ id) "stat" _ _ (close_active-active_id _)
        (adopt-active_id id _ ∙ close_active-active_id _))

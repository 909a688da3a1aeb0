-- ===== src/Storage/Segment/Append/Grows.antt =====
-- The file operations of an append change a segment only behind the offset of the next record.
use little_big_files.Common.{
  ℕ, ◌≤◌, ◌≡◌, refl, ◌∙◌, sym, subst, ◌⊎◌, inl, inr, arith, Bytes, length, take, ◌==◌, ==→eq,
  Bool-cases, String,
}
use little_big_files.Common.Result.{Result, ok, err}
use little_big_files.Common.Exec.{◌>>◌, continue}
use little_big_files.Common.Dict.{insert, nat_eq}
use little_big_files.Storage.File.{write_at, take-write_at, length-write_at}
use little_big_files.Storage.Segment.{
  encode_footer, Action, File, SegmentManager, Outcome, done, fails, outcome, written, file_in,
  write_active, sync_active,
}
use little_big_files.Storage.Segment.Opening.{IsWellFormed, file_in-insert}
use little_big_files.Storage.Segment.Append.{put_footer, write_footer, finalize_locked}
use little_big_files.Storage.Segment.Append.Steps.{Handle-cases}

abbrev pub content : SegmentManager → ℕ → Bytes
content sm j = (file_in sm.files j).content

-- Every file keeps its bytes, the active one those before the offset.
pub record Grows (sm t : SegmentManager) : Type 0 where
  pub same_id : t.active_id ≡ sm.active_id
  pub same_file : t.active_file ≡ sm.active_file
  pub same_offset : t.active_offset ≡ sm.active_offset
  pub longer : (j : ℕ) → length (content sm j) ≤ length (content t j)
  pub front :
      (j n : ℕ)
      → n ≤ length (content sm j)
      → (j ≡ sm.active_id → n ≤ sm.active_offset)
      → take n (content t j) ≡ take n (content sm j)

pub Grows-refl : (sm : SegmentManager) → Grows sm sm
Grows-refl sm = record {
  same_id = refl;
  same_file = refl;
  same_offset = refl;
  longer = λ j. omega arith;
  front = λ j n h k. refl;
}

pub Grows-trans : {sm t u : SegmentManager} → Grows sm t → Grows t u → Grows sm u
Grows-trans {sm} {t} {u} g h = record {
  same_id = h.same_id ∙ g.same_id;
  same_file = h.same_file ∙ g.same_file;
  same_offset = h.same_offset ∙ g.same_offset;
  longer = λ j. omega (arith, g.longer j, h.longer j);
  front = λ j n le k.
      h.front j n (omega (arith, g.longer j)) (λ e. omega (arith, g.same_offset, k (e ∙ g.same_id)))
      ∙ g.front j n le k;
}

-- One file was replaced by one that keeps its front.
Grows-insert :
    (sm t : SegmentManager) (id : ℕ) (f : File)
    → t.files ≡ insert id f sm.files
    → t.active_id ≡ sm.active_id
    → t.active_file ≡ sm.active_file
    → t.active_offset ≡ sm.active_offset
    → length (content sm id) ≤ length f.content
    → ((n : ℕ)
        → n ≤ length (content sm id)
        → (id ≡ sm.active_id → n ≤ sm.active_offset)
        → take n f.content ≡ take n (content sm id))
    → Grows sm t
Grows-insert sm t id f e i h o l k = record {
  same_id = i;
  same_file = h;
  same_offset = o;
  longer = λ j. ground (arith, file_in-insert id j f sm.files);
  front = λ j n le act. elim (Bool-cases (id == j)) [
    | inl same ↦ ground (
      arith,
      file_in-insert id j f sm.files,
      subst
          (λ x.
            n ≤ length (content sm x)
            → (x ≡ sm.active_id → n ≤ sm.active_offset)
            → take n f.content ≡ take n (content sm x))
          (==→eq id j same) (k n) le act,
    )
    | inr other ↦ ground (arith, file_in-insert id j f sm.files)
  ];
}

-- The files stayed as they were.
Grows-files :
    (sm t : SegmentManager)
    → t.files ≡ sm.files
    → t.active_id ≡ sm.active_id
    → t.active_file ≡ sm.active_file
    → t.active_offset ≡ sm.active_offset
    → Grows sm t
Grows-files sm t e i h o = record {
  same_id = i;
  same_file = h;
  same_offset = o;
  longer = λ j. ground arith;
  front = λ j n le act. ground arith;
}

-- A write at the offset, whole or cut short.
pub write_active-Grows :
    (bytes : Bytes) (e : String) (sm : SegmentManager)
    → IsWellFormed sm
    → Grows sm (write_active bytes sm.active_offset e sm).1
unfolding write_active
write_active-Grows bytes e sm wf = elim (Handle-cases sm.active_file) [
  | inl h ↦ Grows-files sm _ (ground arith) (ground arith) (ground arith) (ground arith)
  | inr (inl h) ↦ Grows-files sm _ (ground arith) (ground arith) (ground arith) (ground arith)
  | inr (inr (id, h)) ↦
      let bytes' = written bytes (outcome sm) in
      let (same, fits) = wf.fits id h in
      Grows-insert sm _ id
        (record (file_in sm.files id) {
          content = write_at (content sm id) sm.active_offset bytes';
        })
        (ground arith) (ground arith) (ground arith) (ground arith)
        (omega (arith, length-write_at (content sm id) sm.active_offset bytes'))
        (λ n le act. take-write_at n (content sm id) sm.active_offset bytes' (act same) fits)
]

pub Outcome-cases : (o : Outcome) → (o ≡ done) ⊎ ((n : ℕ) × (o ≡ fails n))
Outcome-cases done = inl refl
Outcome-cases (fails n) = inr (n, refl)

pub sync_active-Grows : (e : String) (sm : SegmentManager) → Grows sm (sync_active e sm).1
unfolding sync_active
sync_active-Grows e sm = elim (Handle-cases sm.active_file) [
  | inl h ↦ Grows-files sm _ (ground arith) (ground arith) (ground arith) (ground arith)
  | inr (inl h) ↦ Grows-files sm _ (ground arith) (ground arith) (ground arith) (ground arith)
  | inr (inr (id, h)) ↦ elim (Outcome-cases (outcome sm)) [
    | inl o ↦
        Grows-insert sm _ id (record { content = content sm id; durable = content sm id })
          (ground arith) (ground arith) (ground arith) (ground arith) (omega arith)
          (λ n le act. refl)
    | inr (n, o) ↦ Grows-files sm _ (ground arith) (ground arith) (ground arith) (ground arith)
  ]
]

-- One operation after another.
pub Grows-bind :
    {A : Type 0} (m : Action Unit) (k : Action A) (sm : SegmentManager)
    → Grows sm (m sm).1
    → Grows (m sm).1 (k (m sm).1).1
    → Grows sm ((m >> k) sm).1
Grows-bind {A} m k sm g h = go (m sm).0
  where
    go : (r : Result Unit) → Grows sm (continue {B = A} r (λ _. k) (m sm).1).1
    go (ok _) = Grows-trans g h
    go (err e) = g

finalize_cases :
    (sm : SegmentManager)
    → (finalize_locked sm ≡ (ok tt, sm)) ⊎ (finalize_locked sm ≡ write_footer sm)
unfolding finalize_locked
finalize_cases sm = ground arith

-- A footer goes behind the offset.
pub finalize_locked-Grows :
    (sm : SegmentManager) → IsWellFormed sm → Grows sm (finalize_locked sm).1
unfolding write_footer put_footer
finalize_locked-Grows sm wf = elim (finalize_cases sm) [
  | inl e ↦ Grows-files sm _ (ground arith) (ground arith) (ground arith) (ground arith)
  | inr e ↦
      subst (λ p. Grows sm p.1) (sym e)
        (Grows-bind put_footer (sync_active "footer") sm
          (write_active-Grows (encode_footer sm.record_count sm.active_offset) "footer" sm wf)
          (sync_active-Grows "footer" (put_footer sm).1))
]

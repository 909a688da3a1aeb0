-- ===== src/Storage/Segment/Append/Keeps.antt =====
-- An append keeps the manager well-formed and the records before it in place, however it ends.
use little_big_files.Common.{
  ap, ℕ, ◌+◌, ◌≤◌, ◌≡◌, refl, ◌∙◌, sym, subst, Bool, true, false, ◌⊎◌, inl, inr, arith, Bytes,
  length, take, ◌==◌, if◌then◌else◌, ==→eq, Bool-cases, String,
}
use little_big_files.Common.Result.{Result, ok, err}
use little_big_files.Common.Exec.{pure, ◌>>=◌, continue}
use little_big_files.Storage.File.{take-write_at, length-write_at}
use little_big_files.Storage.Segment.{
  File, SegmentManager, Action, Location, file_in, sync_active, open_segment,
}
use little_big_files.Storage.Segment.Opening.{
  open_segment-active_id, IsWellFormed, open_segment-IsWellFormed, open_segment-others,
}
use little_big_files.Storage.Segment.Append.{
  append_open, is_full, rotate, finalize_locked, put_and_sync, put_record, move_on, here,
  write_record, rotate_if_full, append_locked,
}
use little_big_files.Storage.Segment.Append.Grows.{
  Grows, Grows-refl, Grows-bind, content, write_active-Grows, sync_active-Grows,
  finalize_locked-Grows,
}
use little_big_files.Storage.Segment.Append.Steps.{Wrote, write_record-Wrote}

-- All segments up to the active one keep their bytes, the active one those before the offset.
pub record Keeps (sm t : SegmentManager) : Type 0 where
  pub id_grows : sm.active_id ≤ t.active_id
  pub well_formed : IsWellFormed t
  pub longer : (j : ℕ) → j ≤ sm.active_id → length (content sm j) ≤ length (content t j)
  pub offset_grows : t.active_id ≡ sm.active_id → sm.active_offset ≤ t.active_offset
  pub front :
      (j n : ℕ)
      → j ≤ sm.active_id
      → n ≤ length (content sm j)
      → (j ≡ sm.active_id → n ≤ sm.active_offset)
      → take n (content t j) ≡ take n (content sm j)

pub Keeps-trans : {sm t u : SegmentManager} → Keeps sm t → Keeps t u → Keeps sm u
Keeps-trans {sm} {t} {u} g h = record {
  id_grows = omega (arith, g.id_grows, h.id_grows);
  well_formed = h.well_formed;
  longer = λ j le. omega (arith, g.longer j le, h.longer j (omega (arith, g.id_grows)));
  offset_grows = λ e.
      let same : t.active_id ≡ sm.active_id = omega (arith, g.id_grows, h.id_grows) in
      omega (arith, g.offset_grows same, h.offset_grows (e ∙ sym same));
  front = λ j n le fits k.
      h.front j n (omega (arith, g.id_grows)) (omega (arith, g.longer j le)) (λ e.
        let same : j ≡ sm.active_id = omega (arith, g.id_grows) in
        omega (arith, k same, g.offset_grows (sym e ∙ same)))
      ∙ g.front j n le fits k;
}

Grows-Keeps : {sm t : SegmentManager} → IsWellFormed sm → Grows sm t → Keeps sm t
Grows-Keeps {sm} {t} wf g = record {
  id_grows = omega (arith, g.same_id);
  well_formed = record {
    fits = λ id h.
        let (same, fits) = wf.fits id (sym g.same_file ∙ h) in
        (same ∙ sym g.same_id, omega (arith, g.same_offset, g.longer id));
  };
  longer = λ j le. g.longer j;
  offset_grows = λ e. omega (arith, g.same_offset);
  front = λ j n le fits k. g.front j n fits k;
}

Wrote-Keeps :
    {bytes : Bytes} {sm t : SegmentManager} {loc : Location}
    → IsWellFormed sm
    → Wrote bytes sm t loc
    → Keeps sm t
Wrote-Keeps {bytes} {sm} {t} {loc} wf w =
    let (same, fits) = wf.fits w.id w.handle in
    let long = length-write_at (content sm w.id) sm.active_offset bytes fits in
    record {
      id_grows = omega (arith, w.active_id');
      well_formed = record {
        fits = λ id h. ground (arith, w.handle', w.active_id', w.active_offset', w.content, long);
      };
      longer = λ j le. elim (Bool-cases (w.id == j)) [
        | inl e ↦ ground (arith, ==→eq w.id j e, w.content, long)
        | inr ne ↦ ground (arith, w.others j ne)
      ];
      offset_grows = λ e. omega (arith, w.active_offset');
      front = λ j n le in_file k. elim (Bool-cases (w.id == j)) [
        | inl e ↦
            let eq = ==→eq w.id j e in
            subst (λ i. take n (content t i) ≡ take n (content sm i)) eq
              (ap (take n) w.content
                ∙ take-write_at n (content sm w.id) sm.active_offset bytes (k (sym eq ∙ same)) fits)
        | inr ne ↦ ap (λ (f : File). take n f.content) (w.others j ne)
      ];
    }

module _ (bytes : Bytes) (fsync : Bool) (sm : SegmentManager) (wf : IsWellFormed sm) where
  sync_if-Grows :
      (b : Bool) (t : SegmentManager)
      → Grows t ((if b then sync_active "segment fsync" else pure tt) t).1
  sync_if-Grows true t = sync_active-Grows "segment fsync" t
  sync_if-Grows false t = Grows-refl t

  put_and_sync-Grows : Grows sm (put_and_sync bytes fsync sm).1
  unfolding put_and_sync put_record
  put_and_sync-Grows =
      Grows-bind (put_record bytes) (if fsync then sync_active "segment fsync" else pure tt) sm
        (write_active-Grows bytes "segment write" sm wf)
        (sync_if-Grows fsync (put_record bytes sm).1)

  write_record_err :
      (e : String)
      → (put_and_sync bytes fsync sm).0 ≡ err e
      → write_record bytes fsync sm ≡ (err e, (put_and_sync bytes fsync sm).1)
  unfolding write_record
  write_record_err e h = rw (h, continue)

  write_record_ok :
      (put_and_sync bytes fsync sm).0 ≡ ok tt
      → write_record bytes fsync sm
        ≡ (ok (here bytes sm), move_on bytes (put_and_sync bytes fsync sm).1)
  unfolding write_record
  write_record_ok h = rw (h, continue)

  write_record-Keeps : Keeps sm (write_record bytes fsync sm).1
  write_record-Keeps = go (put_and_sync bytes fsync sm).0 refl
    where
      go :
          (r : Result Unit)
          → (put_and_sync bytes fsync sm).0 ≡ r
          → Keeps sm (write_record bytes fsync sm).1
      go (ok tt) h =
          subst (λ p. Keeps sm p.1) (sym (write_record_ok h))
            (Wrote-Keeps wf (write_record-Wrote bytes fsync sm _ _ (write_record_ok h)))
      go (err e) h =
          subst (λ p. Keeps sm p.1) (sym (write_record_err e h)) (Grows-Keeps wf put_and_sync-Grows)

rotate_if_full-true :
    (n : ℕ) (sm : SegmentManager) → is_full n sm ≡ true → rotate_if_full n sm ≡ rotate sm
unfolding rotate_if_full
rotate_if_full-true n sm e = rw e

rotate_if_full-false :
    (n : ℕ) (sm : SegmentManager) → is_full n sm ≡ false → rotate_if_full n sm ≡ (ok tt, sm)
unfolding rotate_if_full
rotate_if_full-false n sm e = rw e

pub append_cases :
    (bytes : Bytes) (fsync : Bool) (sm : SegmentManager)
    → (append_locked bytes fsync sm ≡ (err "no active segment", sm))
      ⊎ (append_locked bytes fsync sm ≡ append_open bytes fsync sm)
unfolding append_locked
append_cases bytes fsync sm = ground arith

-- The segment behind the active one.
open_next-Keeps : (sm : SegmentManager) → Keeps sm (open_segment (sm.active_id + 1) sm).1
open_next-Keeps sm = record {
  id_grows = omega (arith, id_next);
  well_formed = open_segment-IsWellFormed (sm.active_id + 1) sm;
  longer = λ j le. ground (arith, others j le);
  offset_grows = λ e. absurd (omega (arith, id_next));
  front = λ j n le in_file k. ap (λ (f : File). take n f.content) (others j le);
}
  where
    id_next : (open_segment (sm.active_id + 1) sm).1.active_id ≡ sm.active_id + 1
    id_next = open_segment-active_id (sm.active_id + 1) sm

    differs : (j : ℕ) → j ≤ sm.active_id → ((sm.active_id + 1) == j) ≡ false
    differs j le = ground arith

    others :
        (j : ℕ)
        → j ≤ sm.active_id
        → file_in (open_segment (sm.active_id + 1) sm).1.files j ≡ file_in sm.files j
    others j le = open_segment-others (sm.active_id + 1) j (differs j le) sm

Keeps-bind :
    {A B : Type 0} (m : Action A) (k : A → Action B) (sm : SegmentManager)
    → Keeps sm (m sm).1
    → ((t : SegmentManager) → Keeps sm t → (a : A) → Keeps t (k a t).1)
    → Keeps sm ((m >>= k) sm).1
Keeps-bind {A} {B} m k sm g h = go (m sm).0
  where
    go : (r : Result A) → Keeps sm (continue {B = B} r k (m sm).1).1
    go (ok a) = Keeps-trans g (h (m sm).1 g a)
    go (err e) = g

Keeps-refl : (sm : SegmentManager) → IsWellFormed sm → Keeps sm sm
Keeps-refl sm wf = Grows-Keeps wf (Grows-refl sm)

rotate-Keeps : (sm : SegmentManager) → IsWellFormed sm → Keeps sm (rotate sm).1
unfolding rotate
rotate-Keeps sm wf =
    Keeps-bind finalize_locked _ sm (Grows-Keeps wf (finalize_locked-Grows sm wf))
      λ t g _. open_next-Keeps t

pub rotate_if_full-Keeps :
    (n : ℕ) (sm : SegmentManager) → IsWellFormed sm → Keeps sm (rotate_if_full n sm).1
unfolding rotate_if_full
rotate_if_full-Keeps n sm wf = elim (Bool-cases (is_full n sm)) [
  | inl e ↦ subst (λ p. Keeps sm p.1) (sym (rotate_if_full-true n sm e)) (rotate-Keeps sm wf)
  | inr e ↦ subst (λ p. Keeps sm p.1) (sym (rotate_if_full-false n sm e)) (Keeps-refl sm wf)
]

-- However an append ends, the manager is well-formed again, the active id and within a segment the
-- active offset do not go back, no file of a segment up to the active one becomes shorter, and no byte
-- of these segments changes, in the active one no byte before the offset of the next record.
pub append_locked-Keeps :
    (bytes : Bytes) (fsync : Bool) (sm : SegmentManager)
    → IsWellFormed sm
    → Keeps sm (append_locked bytes fsync sm).1
unfolding append_open
append_locked-Keeps bytes fsync sm wf = elim (append_cases bytes fsync sm) [
  | inl e ↦ subst (λ p. Keeps sm p.1) (sym e) (Keeps-refl sm wf)
  | inr e ↦
      subst (λ p. Keeps sm p.1) (sym e)
        (Keeps-bind (rotate_if_full (length bytes)) _ sm (rotate_if_full-Keeps (length bytes) sm wf)
          λ t g _. write_record-Keeps bytes fsync t g.well_formed)
]

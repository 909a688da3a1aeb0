-- ===== src/Ingestion/Queue/Invariant.antt =====
-- internal/ingestion/unpack_worker.go: no package is unpacked twice at a time.
use little_big_files.Common.{
  ℕ, ◌+◌, ◌<◌, ◌≤◌, ◌≡◌, refl, ap, subst, some, Bool-cases, inl, inr, false, not, List, [], ◌∷◌,
  ◌++◌, length, length-append, ltb, ltb→lt, ◌==◌, arith, if◌then◌else◌,
}
use little_big_files.Metadata.Tables.{any, filter}
use little_big_files.Ingestion.Service.{UnpackQueue, enter, try_send, unmark, is_inflight}
use little_big_files.Ingestion.Queue.{
  Workers, Step, Reach, started, new_unpack_queue, calls, scans, checks, returns, marks, sends,
  refuses, drops, takes, ends, starts, steps,
}

-- How often an id occurs.
unfoldable pub times : ℕ → List ℕ → ℕ
times id [] = 0
times id (m ∷ ids) = times id ids + (if m == id then 1 else 0)

times-append : (id : ℕ) (xs ys : List ℕ) → times id (xs ++ ys) ≡ times id xs + times id ys
unfolding times
times-append id [] ys = omega arith
times-append id (x ∷ xs) ys = omega (arith, times-append id xs ys)

times-any : (id : ℕ) (ids : List ℕ) → any (λ m. m == id) ids ≡ false → times id ids ≡ 0
unfolding times any
times-any id [] h = refl
times-any id (m ∷ ids) h = ground (arith, h, times-any id ids)

times-filter :
    (id n : ℕ) (ids : List ℕ)
    → times n (filter (λ m. not (m == id)) ids) ≡ (if n == id then 0 else times n ids)
unfolding times filter
times-filter id n [] = ground arith
times-filter id n (m ∷ ids) = ground (arith, times-filter id n ids)

times-middle :
    (n id : ℕ) (before after ids : List ℕ)
    → ids ≡ before ++ id ∷ after
    → times n ids ≡ times n (before ++ after) + (if id == n then 1 else 0)
unfolding times
times-middle n id before after ids e =
    omega (arith, ap (times n) e, times-append n before after, times-append n before (id ∷ after))

-- Where an id in flight can be: a goroutine has marked it, or found the channel full, it waits in the
-- channel, or it is unpacked.
abbrev pub held : ℕ → Workers → ℕ
held id w = times id w.running + times id w.queue.channel + times id w.marked + times id w.refused

-- The set in flight is what is held, each id once.
pub record IsWellFormed (w : Workers) : Type 0 where
  pub once : (id : ℕ) → times id w.queue.inflight ≤ 1
  pub tracked : (id : ℕ) → held id w ≡ times id w.queue.inflight
  pub fits : length w.queue.channel ≤ w.queue.capacity
  pub busy : length w.running ≤ w.workers

started-IsWellFormed : (workers queue_size : ℕ) → IsWellFormed (started workers queue_size)
unfolding started new_unpack_queue times
started-IsWellFormed workers queue_size = record {
  once = λ id. omega arith;
  tracked = λ id. refl;
  fits = omega arith;
  busy = omega arith;
}

-- Entering marks an id that was not in flight.
enter-some :
    (id : ℕ) (q r : UnpackQueue)
    → enter id q ≡ some r
    → (is_inflight id q ≡ false) × (record q { inflight = id ∷ q.inflight } ≡ r)
unfolding enter
enter-some id q r e = elim (Bool-cases (is_inflight id q)) [
  | inl there ↦ absurd (cc (e, there))
  | inr new ↦ (new, cc (e, new))
]

try_send-some :
    (id : ℕ) (q r : UnpackQueue)
    → try_send id q ≡ some r
    → (length q.channel < q.capacity) × (record q { channel = q.channel ++ id ∷ [] } ≡ r)
unfolding try_send
try_send-some id q r e = elim (Bool-cases (ltb (length q.channel) q.capacity)) [
  | inl room ↦ (ltb→lt _ _ room, cc (e, room))
  | inr full ↦ absurd (cc (e, full))
]

Step-IsWellFormed : {v w : Workers} → Step v w → IsWellFormed v → IsWellFormed w
unfolding unmark times
Step-IsWellFormed (calls id w) h = record {
  once = h.once;
  tracked = h.tracked;
  fits = h.fits;
  busy = h.busy;
}
Step-IsWellFormed (scans ids w) h = record {
  once = h.once;
  tracked = h.tracked;
  fits = h.fits;
  busy = h.busy;
}
Step-IsWellFormed (checks id rest w e) h = record {
  once = h.once;
  tracked = h.tracked;
  fits = h.fits;
  busy = h.busy;
}
Step-IsWellFormed (returns before after id w e there) h = record {
  once = h.once;
  tracked = h.tracked;
  fits = h.fits;
  busy = h.busy;
}
Step-IsWellFormed (marks before after id w q e new) h =
    let (absent, same) = enter-some id w.queue q new in
    subst
      (λ r. IsWellFormed (record w { called = before ++ after; queue = r; marked = id ∷ w.marked }))
      same
      record {
        once = λ n. ground (arith, h.once n, times-any id w.queue.inflight absent);
        tracked = λ n. omega (arith, h.tracked n);
        fits = h.fits;
        busy = h.busy;
      }
Step-IsWellFormed (sends before after id w q e room) h =
    let (free, same) = try_send-some id w.queue q room in
    subst (λ r. IsWellFormed (record w { marked = before ++ after; queue = r })) same
      record {
        once = h.once;
        tracked = λ n. omega (
          arith,
          h.tracked n,
          times-middle n id before after w.marked e,
          times-append n w.queue.channel (id ∷ []),
        );
        fits = omega (arith, length-append w.queue.channel (id ∷ []), free);
        busy = h.busy;
      }
Step-IsWellFormed (refuses before after id w e full) h = record {
  once = h.once;
  tracked = λ n. omega (arith, h.tracked n, times-middle n id before after w.marked e);
  fits = h.fits;
  busy = h.busy;
}
Step-IsWellFormed (drops before after id w e) h = record {
  once = λ n. ground (arith, h.once n, times-filter id n w.queue.inflight);
  tracked = λ n. ground (
    arith,
    h.tracked n,
    h.once n,
    times-middle n id before after w.refused e,
    times-filter id n w.queue.inflight,
  );
  fits = h.fits;
  busy = h.busy;
}
Step-IsWellFormed (takes id rest w e free) h = record {
  once = h.once;
  tracked = λ n. omega (arith, h.tracked n, ap (times n) e);
  fits = omega (arith, h.fits, ap length e);
  busy = omega (arith, free);
}
Step-IsWellFormed (ends before after id w e) h = record {
  once = λ n. ground (arith, h.once n, times-filter id n w.queue.inflight);
  tracked = λ n. ground (
    arith,
    h.tracked n,
    h.once n,
    times-middle n id before after w.running e,
    times-filter id n w.queue.inflight,
  );
  fits = h.fits;
  busy =
      omega
        (arith, h.busy, ap length e, length-append before after, length-append before (id ∷ after));
}

Reach-IsWellFormed :
    {workers queue_size : ℕ} {w : Workers} → Reach workers queue_size w → IsWellFormed w
Reach-IsWellFormed starts = started-IsWellFormed _ _
Reach-IsWellFormed (steps r s) = Step-IsWellFormed s (Reach-IsWellFormed r)

-- Whatever requests, workers and the recovery do, with any other goroutine between two sections of a
-- method under mu: no package is unpacked by two workers at a time or waits while it is unpacked, an
-- id is in flight exactly while a goroutine has marked it, it waits in the channel or is unpacked, at
-- most the set number of workers run, and the channel stays within its capacity.
pub Reach-once :
    (workers queue_size : ℕ) (w : Workers)
    → Reach workers queue_size w
    → ((id : ℕ)
        → (times id w.running + times id w.queue.channel ≤ 1)
          × (held id w ≡ times id w.queue.inflight))
      × (length w.running ≤ w.workers)
      × (length w.queue.channel ≤ w.queue.capacity)
Reach-once workers queue_size w r =
    let h = Reach-IsWellFormed r in
    (λ id. (omega (arith, h.once id, h.tracked id), h.tracked id), h.busy, h.fits)

-- ===== src/Ingestion/Queue.antt =====
-- internal/ingestion/unpack_worker.go: the queue of unpackings with the goroutines that use it. A step
-- is one section under mu or one operation of the channel, so that any other goroutine may come
-- between two sections of Enqueue, of recoverPending and of a worker.
pub mod Invariant
use little_big_files.Common.{
  ℕ, ◌<◌, ◌≤◌, ◌≡◌, ◌≢◌, refl, Option, none, some, Bool, true, false, not, List, [], ◌∷◌, ◌++◌,
  length, ltb, ◌==◌, if◌then◌else◌,
}
use little_big_files.Metadata.Tables.{any, filter}
use little_big_files.Ingestion.Service.{UnpackQueue, enter, try_send, unmark, is_inflight}

-- NewUnpackQueue, before its workers run.
abbrev pub default_queue_size : ℕ
default_queue_size = 64

unfoldable pub new_unpack_queue : ℕ → UnpackQueue
new_unpack_queue queue_size = record {
  channel = [];
  capacity = if ltb queue_size 1 then default_queue_size else queue_size;
  inflight = [];
}

-- The queue and where the goroutines stand: the ids that a recovery scan still has to look at, those
-- for which Enqueue is called, those that it has marked and not sent yet, those that found the channel
-- full and are still marked, and those that workers unpack.
pub record Workers : Type 0 where
  pub workers : ℕ
  pub queue : UnpackQueue
  pub found : List ℕ
  pub called : List ℕ
  pub marked : List ℕ
  pub refused : List ℕ
  pub running : List ℕ

-- The body of the loop in recoverPending: an id in flight is passed over, for another Enqueue is called.
unfoldable pub recover_one : ℕ → UnpackQueue → List ℕ → List ℕ
recover_one id q called = if is_inflight id q then called else id ∷ called

-- What goroutines do.
pub data Step : Workers → Workers → Type 0 where
  -- A request calls Enqueue.
  calls : (id : ℕ) (w : Workers) → Step w (record w { called = id ∷ w.called })
  -- recoverPending reads the ids, and looks for one after the other whether it is in flight.
  scans : (ids : List ℕ) (w : Workers) → Step w (record w { found = ids })
  checks :
      (id : ℕ) (rest : List ℕ) (w : Workers)
      → w.found ≡ id ∷ rest
      → Step w (record w { found = rest; called = recover_one id w.queue w.called })
  -- Enqueue finds the id in flight, or marks it.
  returns :
      (before after : List ℕ) (id : ℕ) (w : Workers)
      → w.called ≡ before ++ id ∷ after
      → enter id w.queue ≡ none
      → Step w (record w { called = before ++ after })
  marks :
      (before after : List ℕ) (id : ℕ) (w : Workers) (q : UnpackQueue)
      → w.called ≡ before ++ id ∷ after
      → enter id w.queue ≡ some q
      → Step w (record w { called = before ++ after; queue = q; marked = id ∷ w.marked })
  -- Enqueue sends the id, or finds the channel full and deletes the mark later.
  sends :
      (before after : List ℕ) (id : ℕ) (w : Workers) (q : UnpackQueue)
      → w.marked ≡ before ++ id ∷ after
      → try_send id w.queue ≡ some q
      → Step w (record w { marked = before ++ after; queue = q })
  refuses :
      (before after : List ℕ) (id : ℕ) (w : Workers)
      → w.marked ≡ before ++ id ∷ after
      → try_send id w.queue ≡ none
      → Step w (record w { marked = before ++ after; refused = id ∷ w.refused })
  drops :
      (before after : List ℕ) (id : ℕ) (w : Workers)
      → w.refused ≡ before ++ id ∷ after
      → Step w (record w { refused = before ++ after; queue = unmark id w.queue })
  -- A worker that is free takes the head of the channel, and deletes the mark at its end.
  takes :
      (id : ℕ) (rest : List ℕ) (w : Workers)
      → w.queue.channel ≡ id ∷ rest
      → length w.running < w.workers
      → Step w (record w { queue = record w.queue { channel = rest }; running = id ∷ w.running })
  ends :
      (before after : List ℕ) (id : ℕ) (w : Workers)
      → w.running ≡ before ++ id ∷ after
      → Step w (record w { queue = unmark id w.queue; running = before ++ after })

-- NewUnpackQueue
unfoldable pub started : ℕ → ℕ → Workers
started workers queue_size = record {
  workers = if ltb workers 1 then 1 else workers;
  queue = new_unpack_queue queue_size;
  found = [];
  called = [];
  marked = [];
  refused = [];
  running = [];
}

-- What the workers reach from there.
pub data Reach (workers queue_size : ℕ) : Workers → Type 0 where
  starts : Reach workers queue_size (started workers queue_size)
  steps : {v w : Workers} → Reach workers queue_size v → Step v w → Reach workers queue_size w

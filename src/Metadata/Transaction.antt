-- ===== src/Metadata/Transaction.antt =====
-- internal/metadata/repo.go: WithTx and the statements inside and outside of a transaction. Each
-- round trip to the database takes the next outcome of a schedule; when the schedule ends, they
-- succeed. A statement that fails inside a transaction aborts it: the statements after it fail,
-- and so does the commit. A commit that fails has rolled back.
pub mod Packages
pub mod Queries
pub mod Rules
pub mod Committed
use little_big_files.Common.{
  ℕ, ◌+◌, Bool, true, false, Option, none, some, String, List, [], ◌∷◌, Bytes, if◌then◌else◌,
}
use little_big_files.Common.Result.{Result, ok, err}
use little_big_files.Common.Exec.{Exec}
use little_big_files.Metadata.Blobs.{
  Blobs, get_blob, increment_ref_count_if_exists, insert_blob_or_increment,
}
use little_big_files.Metadata.Tables.{Tables}
use little_big_files.Dedup.{ContentBlob}

-- The next ids of packages and package_files. A rollback does not take ids back.
pub record Sequences : Type 0 where
  pub package_id : ℕ
  pub file_id : ℕ

pub record Database : Type 0 where
  pub tables : Tables
  pub sequences : Sequences
  pub clock : ℕ
  pub aborted : Bool
  pub outcomes : List Bool

abbrev pub head_outcome : List Bool → Bool
head_outcome [] = true
head_outcome (b ∷ rest) = b

abbrev pub later_outcomes : List Bool → List Bool
later_outcomes [] = []
later_outcomes (b ∷ rest) = rest

-- After a round trip.
abbrev pub trip : Database → Database
trip d = record d { outcomes = later_outcomes d.outcomes }

module _ {A : Type 0} where
  unfoldable pub completed :
      Result (A × Tables) → (Sequences → Sequences) → Database → Result A × Database
  completed (ok (a, t)) bump d = (ok a, record d { tables = t; sequences = bump d.sequences })
  completed (err e) bump d = (err e, record d { sequences = bump d.sequences; aborted = true })

  -- A statement inside a transaction, which may draw ids.
  unfoldable pub statement :
      (Sequences → Sequences) → (Database → Result (A × Tables)) → Exec Database A
  unfolding completed
  statement bump f d =
      if d.aborted
      then (err "current transaction is aborted", d)
      else if head_outcome d.outcomes
      then completed (f d) bump (trip d)
      else (err "statement", record (trip d) { aborted = true })

  -- A query outside of a transaction.
  unfoldable pub query : (Tables → A) → Exec Database A
  query f d = if head_outcome d.outcomes then (ok (f d.tables), trip d) else (err "query", trip d)

abbrev pub draw_none : Sequences → Sequences
draw_none ids = ids

-- A statement that works on content_blobs only.
abbrev pub on_blobs : {A : Type 0} → (Blobs → A × Blobs) → Exec Database A
on_blobs f =
    statement draw_none
      (λ d. let (a, t) = f d.tables.blobs in ok (a, record d.tables { blobs = t }))

unfoldable pub tx_get_blob : Bytes → Exec Database (Option ContentBlob)
tx_get_blob hash = on_blobs (λ t. (get_blob hash t, t))

unfoldable pub tx_increment_ref_count_if_exists : Bytes → Exec Database Bool
tx_increment_ref_count_if_exists hash = on_blobs (increment_ref_count_if_exists hash)

unfoldable pub tx_insert_blob_or_increment : ContentBlob → Exec Database Bool
tx_insert_blob_or_increment blob = on_blobs (insert_blob_or_increment blob)

abbrev pub rolled_back : Tables → Database → Database
rolled_back saved d = record d { tables = saved; aborted = false }

-- WithTx, for a function that works on more than the database: `get` and `set` are its database.
module _ {S A : Type 0} (get : S → Database) (set : Database → S → S) where
  unfoldable pub end_tx : Tables → Result A × S → Result A × S
  end_tx saved (err e, s) = (err e, set (rolled_back saved (get s)) s)
  end_tx saved (ok a, s) =
      if (get s).aborted
      then (err "commit of an aborted transaction", set (rolled_back saved (get s)) s)
      else if head_outcome (get s).outcomes
      then (ok a, set (trip (get s)) s)
      else (err "commit", set (rolled_back saved (trip (get s))) s)

  unfoldable pub with_tx : Exec S A → Exec S A
  unfolding end_tx
  with_tx fn s =
      if head_outcome (get s).outcomes
      then end_tx (get s).tables (fn (set (record (trip (get s)) { aborted = false }) s))
      else (err "begin", set (trip (get s)) s)

-- ===== src/Metadata/Transaction/Committed.antt =====
-- internal/metadata/repo.go: what a transaction that succeeds has established.
use little_big_files.Common.{◌≡◌, sym, subst, true, false, ◌⊎◌, inl, inr}
use little_big_files.Common.Result.{Result, ok, err}
use little_big_files.Common.Exec.{Exec}
use little_big_files.Common.Triple.{Triple, Post, Post-if}
use little_big_files.Metadata.Tables.{Tables}
use little_big_files.Metadata.Transaction.{Database, trip, head_outcome, with_tx, end_tx}
use little_big_files.Metadata.Transaction.Rules.{Holds, Lawful}

pub Triple-with_tx :
    {S A : Type 0} (get : S → Database) (set : Database → S → S) (Q : A → Tables → Type 0)
    (fn : Exec S A)
    → Lawful get set
    → Triple (Holds get (λ _. Unit {0})) fn (λ a. Holds get (Q a)) (λ _. Unit {0})
    → Triple (λ _. Unit {0}) (with_tx get set fn) (λ a s. Q a (get s).tables) (λ _. Unit {0})
unfolding with_tx end_tx
Triple-with_tx {S} {A} get set Q fn law h = record {
  runs = λ s _.
      Post-if _ _ (head_outcome (get s).outcomes) _ _
        (λ _. go (get s).tables (fn _) (h.runs _ record { held = inr tt })) (λ _. tt);
}
  where
    live : (a : A) (s : S) → (get s).aborted ≡ false → Holds get (Q a) s → Q a (get s).tables
    live a s e q = pick q.held
      where
        pick : ((get s).aborted ≡ true) ⊎ Q a (get s).tables → Q a (get s).tables
        pick (inl aborted) = absurd (cc (aborted, e))
        pick (inr r) = r

    go :
        (saved : Tables) (r : Result A × S)
        → Post (λ a. Holds get (Q a)) (λ _. Unit {0}) r
        → Post (λ a s. Q a (get s).tables) (λ _. Unit {0}) (end_tx get set saved r)
    go saved (err e, s) q = tt
    go saved (ok a, s) q =
        Post-if _ _ (get s).aborted _ _ (λ _. tt)
          λ e.
            Post-if _ _ (head_outcome (get s).outcomes) _ _
              (λ _.
                subst (λ (d : Database). Q a d.tables) (sym (law (trip (get s)) s)) (live a s e q))
              (λ _. tt)

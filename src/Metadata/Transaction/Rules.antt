-- ===== src/Metadata/Transaction/Rules.antt =====
-- internal/metadata/repo.go: what statements establish of the tables. A state inside a transaction
-- is aborted or has tables that a predicate holds of.
use little_big_files.Common.{◌≡◌, ◌∙◌, refl, sym, ap, subst, true, false, ◌⊎◌, inl, inr}
use little_big_files.Common.Result.{Result, ok, err}
use little_big_files.Common.Exec.{Exec, ◌>>=◌}
use little_big_files.Common.Triple.{Triple, Post, Post-if, Triple-bind, Triple-before, within}
use little_big_files.Metadata.Blobs.{Blobs}
use little_big_files.Metadata.Tables.{Tables}
use little_big_files.Metadata.Transaction.{
  Sequences, Database, trip, head_outcome, completed, statement, on_blobs, draw_none, with_tx,
  end_tx, rolled_back,
}

module _ {S : Type 0} (get : S → Database) (R : Tables → Type 0) where
  pub record Holds (s : S) : Type 0 where
    pub held : ((get s).aborted ≡ true) ⊎ R (get s).tables

  -- After a statement that succeeded, the transaction is not aborted.
  pub record Live (s : S) : Type 0 where
    pub going : (get s).aborted ≡ false
    pub here : R (get s).tables

module _ {S : Type 0} (get : S → Database) where
  pub Live-Holds : (R : Tables → Type 0) (s : S) → Live get R s → Holds get R s
  Live-Holds R s h = record { held = inr h.here }

  pub Holds-map :
      {R Q : Tables → Type 0} → ((t : Tables) → R t → Q t) → (s : S) → Holds get R s → Holds get Q s
  Holds-map {R} {Q} k s h = record { held = go h.held }
    where
      go : ((get s).aborted ≡ true) ⊎ R (get s).tables → ((get s).aborted ≡ true) ⊎ Q (get s).tables
      go (inl a) = inl a
      go (inr r) = inr (k (get s).tables r)

  pub Live-map :
      {R Q : Tables → Type 0} → ((t : Tables) → R t → Q t) → (s : S) → Live get R s → Live get Q s
  Live-map k s h = record { going = h.going; here = k (get s).tables h.here }

module _ {S : Type 0} (get : S → Database) (set : Database → S → S) where
  abbrev pub Lawful : Type 0
  Lawful = (d : Database) (s : S) → get (set d s) ≡ d

  module _ {A : Type 0} (law : Lawful) where
    -- What a call leaves when it aborts or succeeds.
    settled :
        (Q : A → Tables → Type 0) (R : Tables → Type 0) (s : S) (r : Result A × Database)
        → Post (λ a. Live (λ d. d) (Q a)) (Holds (λ d. d) R) r
        → Post (λ a. Live get (Q a)) (Holds get R) (r.0, set r.1 s)
    settled Q R s (ok a, d) h = record {
      going = ap (λ d. d.aborted) (law d s) ∙ h.going;
      here = subst (λ (d : Database). Q a d.tables) (sym (law d s)) h.here;
    }
    settled Q R s (err e, d) h = record {
      held = subst (λ (d : Database). (d.aborted ≡ true) ⊎ R d.tables) (sym (law d s)) h.held;
    }

    completed_lem :
        (Q : A → Tables → Type 0) (R : Tables → Type 0) (bump : Sequences → Sequences)
        (r : Result (A × Tables)) (d : Database)
        → d.aborted ≡ false
        → ((a : A) (t : Tables) → r ≡ ok (a, t) → Q a t)
        → Post (λ a. Live (λ d. d) (Q a)) (Holds (λ d. d) R) (completed r bump d)
    unfolding completed
    completed_lem Q R bump (ok (a, t)) d e h = record { going = e; here = h a t refl }
    completed_lem Q R bump (err e) d _ h = record { held = inl refl }

    pub Triple-statement :
        {R E : Tables → Type 0} {Q : A → Tables → Type 0} (bump : Sequences → Sequences)
        (f : Database → Result (A × Tables))
        → ((d : Database) (a : A) (t : Tables) → R d.tables → f d ≡ ok (a, t) → Q a t)
        → Triple
            (Holds get R)
            (within get set (statement bump f))
            (λ a. Live get (Q a))
            (Holds get E)
    unfolding statement
    Triple-statement {R} {E} {Q} bump f h = record {
      runs = λ s p. settled Q E s (statement bump f (get s)) (go (get s) (p.held));
    }
      where
        go :
            (d : Database)
            → (d.aborted ≡ true) ⊎ R d.tables
            → Post (λ a. Live (λ d. d) (Q a)) (Holds (λ d. d) E) (statement bump f d)
        go d (inl aborted) =
            Post-if _ _ d.aborted _ _ (λ a. record { held = inl a }) (λ b. absurd (cc))
        go d (inr r) =
            Post-if _ _ d.aborted _ _ (λ a. record { held = inl a })
              λ live.
                Post-if _ _ (head_outcome d.outcomes) _ _
                  (λ _. completed_lem Q E bump (f d) (trip d) live λ a t e. h d a t r e)
                  (λ _. record { held = inl refl })

    -- A statement on content_blobs: what it returns and leaves, from tables where R held.
    pub Triple-on_blobs :
        {R E : Tables → Type 0} {Q : A → Tables → Type 0} (f : Blobs → A × Blobs)
        → ((t : Tables) → R t → Q (f t.blobs).0 (record t { blobs = (f t.blobs).1 }))
        → Triple (Holds get R) (within get set (on_blobs f)) (λ a. Live get (Q a)) (Holds get E)
    Triple-on_blobs {R} {E} {Q} f h = Triple-statement draw_none _ λ d a t r e. go d a t r e
      where
        on_blobs_result : Database → Result (A × Tables)
        on_blobs_result d =
            ok ((f d.tables.blobs).0, record d.tables { blobs = (f d.tables.blobs).1 })

        go :
            (d : Database) (a : A) (t : Tables) → R d.tables → on_blobs_result d ≡ ok (a, t) → Q a t
        go d a t r e = subst (λ (x : A × Tables). Q x.0 x.1) (cc e) (h d.tables r)

  -- A method of the database alone.
  pub Triple-lift :
      {A : Type 0} {R E : Tables → Type 0} {Q : A → Tables → Type 0} (m : Exec Database A)
      → Lawful
      → Triple (Holds (λ d. d) R) m (λ a. Holds (λ d. d) (Q a)) (Holds (λ d. d) E)
      → Triple (Holds get R) (within get set m) (λ a. Holds get (Q a)) (Holds get E)
  Triple-lift {A} {R} {E} {Q} m law h = record {
    runs = λ s p. go s (m (get s)) (h.runs (get s) record { held = p.held });
  }
    where
      Held : (Tables → Type 0) → Database → Type 0
      Held P d = (d.aborted ≡ true) ⊎ P d.tables

      go :
          (s : S) (r : Result A × Database)
          → Post (λ a. Holds (λ d. d) (Q a)) (Holds (λ d. d) E) r
          → Post (λ a. Holds get (Q a)) (Holds get E) (r.0, set r.1 s)
      go s (ok a, d) q = record { held = subst (Held (Q a)) (sym (law d s)) q.held }
      go s (err e, d) q = record { held = subst (Held E) (sym (law d s)) q.held }

  -- The rest of a method after a statement.
  pub Triple-then :
      {A C : Type 0} {P E : S → Type 0} {R : A → Tables → Type 0} {Q : C → S → Type 0}
      (m : Exec S A) (f : A → Exec S C)
      → Triple P m (λ a. Live get (R a)) E
      → ((a : A) → Triple (Holds get (R a)) (f a) Q E)
      → Triple P (m >>= f) Q E
  Triple-then {R = R} m f h k =
      Triple-bind m f h λ a. Triple-before (f a) (Live-Holds get (R a)) (k a)

  -- A transaction that fails leaves the tables as they were.
  pub with_tx-Balanced :
      {A : Type 0} (R : Tables → Type 0) (law : Lawful) (fn : Exec S A)
      → Triple (Holds get R) fn (λ _. Holds get R) (λ _. Unit {0})
      → Triple
          (λ s. R (get s).tables)
          (with_tx get set fn)
          (λ _ s. R (get s).tables)
          (λ s. R (get s).tables)
  unfolding with_tx end_tx
  with_tx-Balanced {A} R law fn h = record {
    runs = λ s r.
        Post-if _ _ (head_outcome (get s).outcomes) _ _
          (λ _.
            go (get s).tables (fn (set (begun s) s)) r
              (h.runs (set (begun s) s) record { held = inr (at (begun s) s r) }))
          (λ _. at (trip (get s)) s r);
  }
    where
      begun : S → Database
      begun s = record (trip (get s)) { aborted = false }

      at : (d : Database) (s : S) → R d.tables → R (get (set d s)).tables
      at d s r = subst (λ (d : Database). R d.tables) (sym (law d s)) r

      go :
          (saved : Tables) (x : Result A × S)
          → R saved
          → Post (λ _. Holds get R) (λ _. Unit {0}) x
          → Post {S = S} {A = A}
              (λ _ s. R (get s).tables)
              (λ s. R (get s).tables)
              (end_tx get set saved x)
      go saved (err e, s) r q = at (rolled_back saved (get s)) s r
      go saved (ok a, s) r q =
          Post-if _ _ (get s).aborted _ _ (λ _. at (rolled_back saved (get s)) s r)
            λ live.
              Post-if _ _ (head_outcome (get s).outcomes) _ _
                (λ _. at (trip (get s)) s (live_tables s live q.held))
                (λ _. at (rolled_back saved (trip (get s))) s r)
        where
          live_tables :
              (s : S)
              → (get s).aborted ≡ false
              → ((get s).aborted ≡ true) ⊎ R (get s).tables
              → R (get s).tables
          live_tables s e (inl a) = absurd (cc (a, e))
          live_tables s e (inr r) = r

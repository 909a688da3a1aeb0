-- ===== src/Metadata/Balance.antt =====
-- internal/metadata/repo.go: the reference count of a blob against the rows of package_files with
-- its hash, through the statements of a transaction.
pub mod Statements
pub mod Recompute
use little_big_files.Common.{
  All-map, ℕ, ◌+◌, ◌≤◌, ◌≡◌, ◌∙◌, refl, sym, ap, subst, Bool, true, false, Option, none, some, List,
  [], ◌∷◌, ◌++◌, ◌⊎◌, inl, inr, Bytes, All, arith, if◌then◌else◌, Bool-cases, Option-cases,
}
use little_big_files.Common.Result.{Result, ok, err}
use little_big_files.Common.Exec.{Exec}
use little_big_files.Common.Triple.{Triple, Triple-bind, Triple-before, Triple-after, within}
use little_big_files.Common.Dict.{lookup, insert, bytes_eq, ◌=?◌}
use little_big_files.Dedup.{ContentBlob}
use little_big_files.Metadata.Blobs.{
  increment-present, increment-some, increment-OneMore, increment_ref_count_if_exists, Blobs,
  get_blob, count, OneMore,
}
use little_big_files.Metadata.Tables.{
  is_some, PackageFile, Package, CreatePackageInput, CreateFileInput, Tables,
}
use little_big_files.Metadata.Transaction.{Database}
use little_big_files.Metadata.Transaction.Packages.{
  create_package, create_package_file, increment_ref_counts, file_row,
}
use little_big_files.Metadata.Transaction.Packages.Changes.{Same, Filed}
use little_big_files.Metadata.Transaction.Queries.{rows}
use little_big_files.Metadata.Transaction.Rules.{Holds, Live, Lawful, Triple-statement, Triple-then}

-- How often a hash occurs.
unfoldable pub occurrences : Bytes → List Bytes → ℕ
occurrences k [] = 0
occurrences k (h ∷ hs) = occurrences k hs + (if h =? k then 1 else 0)

abbrev pub IsPresent : Blobs → Bytes → Type 0
IsPresent blobs h = (b : ContentBlob) × (get_blob h blobs ≡ some b)

abbrev pub Present : Blobs → List Bytes → Type 0
Present blobs = All (IsPresent blobs)

-- The counts are at least the rows, up to rows and counts that a transaction still has to add, and the
-- blobs whose counts it has to add are there.
pub record Owed (due_rows due_counts : List Bytes) (t : Tables) : Type 0 where
  pub balance :
      (k : Bytes)
      → rows k t.package_files + occurrences k due_rows ≤ count k t.blobs + occurrences k due_counts
  pub present : Present t.blobs due_counts

-- Every blob counts the rows of package_files with its hash, or more.
pub record Covered (t : Tables) : Type 0 where
  pub counts : (k : Bytes) → rows k t.package_files ≤ count k t.blobs

pub Covered→Owed : (t : Tables) → Covered t → Owed [] [] t
unfolding occurrences
Covered→Owed t h = record { balance = λ k. omega (arith, h.counts k); present = tt }

pub Owed→Covered : (t : Tables) → Owed [] [] t → Covered t
unfolding occurrences
Owed→Covered t h = record { counts = λ k. omega (arith, h.balance k) }

-- Tables that differ in other rows only.
pub Owed-Same : (rs cs : List Bytes) (t u : Tables) → Same t u → Owed rs cs t → Owed rs cs u
Owed-Same rs cs t u (b, f) h = record {
  balance = λ k. rw (b, f) (h.balance k);
  present = subst (λ blobs. Present blobs cs) (sym b) h.present;
}

-- A reference that was counted, and waits for its row.
pub Owed-count :
    (rs : List Bytes) (hash : Bytes) (t u : Tables)
    → OneMore hash t.blobs u.blobs
    → u.package_files ≡ t.package_files
    → Owed rs [] t
    → Owed (hash ∷ rs) [] u
unfolding occurrences
Owed-count rs hash t u more same h = record {
  balance = λ k. rw same (omega (arith, more k, h.balance k));
  present = tt;
}

-- A reference that was counted, and stays without a row.
pub Owed-drop :
    (rs cs : List Bytes) (hash : Bytes) (t : Tables) → Owed (hash ∷ rs) cs t → Owed rs cs t
unfolding occurrences
Owed-drop rs cs hash t h = record {
  balance = λ k. ground (arith, h.balance k);
  present = h.present;
}

rows-append :
    (k : Bytes) (files : List PackageFile) (f : PackageFile)
    → rows k (files ++ f ∷ []) ≡ rows k files + (if f.blob_hash =? k then 1 else 0)
unfolding rows
rows-append k [] f = omega arith
rows-append k (g ∷ files) f = omega (arith, rows-append k files f)

-- A new row, which was counted before, or has to be counted.
pub Owed-row :
    (rs cs : List Bytes) (package_id : ℕ) (input : CreateFileInput) (a : ℕ) (t u : Tables)
    → Filed package_id input a t u
    → Owed (input.blob_hash ∷ rs) cs t
    → Owed rs cs u
unfolding occurrences
Owed-row rs cs package_id input a t u (present, b, f) h = record {
  balance = λ k.
      rw (b, f, rows-append k t.package_files (file_row package_id input a))
        (omega (arith, h.balance k));
  present = subst (λ blobs. Present blobs cs) (sym b) h.present;
}

pub Owed-row_uncounted :
    (rs cs : List Bytes) (package_id : ℕ) (input : CreateFileInput) (a : ℕ) (t u : Tables)
    → Filed package_id input a t u
    → Owed rs cs t
    → Owed rs (input.blob_hash ∷ cs) u
unfolding occurrences
Owed-row_uncounted rs cs package_id input a t u (present, b, f) h = record {
  balance = λ k.
      rw (b, f, rows-append k t.package_files (file_row package_id input a))
        (omega (arith, h.balance k));
  present =
      subst (λ blobs. Present blobs (input.blob_hash ∷ cs)) (sym b) (found _ present, h.present);
}
  where
    found : (o : Option ContentBlob) → is_some o ≡ true → (b : ContentBlob) × (o ≡ some b)
    found none e = absurd (cc e)
    found (some b) e = (b, refl)

-- Counting the references that are due.
pub increment-Owed :
    (rs cs : List Bytes) (hash : Bytes) (t : Tables)
    → Owed rs (hash ∷ cs) t
    → Owed rs cs (record t { blobs = (increment_ref_count_if_exists hash t.blobs).1 })
unfolding occurrences
increment-Owed rs cs hash t h = record {
  balance = λ k. omega (
    arith,
    increment-OneMore hash t.blobs (increment-some hash t.blobs h.present.0.1) k,
    h.balance k,
  );
  present = All-map _ _ (λ k. increment-present hash k t.blobs) cs h.present.1;
}

-- The order in which counts are due does not matter.
occurrences-middle :
    (k h : Bytes) (hs cs : List Bytes) → occurrences k (hs ++ h ∷ cs) ≡ occurrences k (h ∷ hs ++ cs)
unfolding occurrences
occurrences-middle k h [] cs = refl
occurrences-middle k h (g ∷ hs) cs = omega (arith, occurrences-middle k h hs cs)

All-middle :
    (blobs : Blobs) (h : Bytes) (hs cs : List Bytes)
    → Present blobs (hs ++ h ∷ cs)
    → Present blobs (h ∷ hs ++ cs)
All-middle blobs h [] cs p = p
All-middle blobs h (g ∷ hs) cs (p, ps) = let (q, qs) = All-middle blobs h hs cs ps in (q, (p, qs))

pub Owed-middle :
    (rs : List Bytes) (h : Bytes) (hs cs : List Bytes) (t : Tables)
    → Owed rs (hs ++ h ∷ cs) t
    → Owed rs (h ∷ hs ++ cs) t
Owed-middle rs h hs cs t o = record {
  balance = λ k.
      subst (λ n. rows k t.package_files + occurrences k rs ≤ count k t.blobs + n)
        (occurrences-middle k h hs cs) (o.balance k);
  present = All-middle t.blobs h hs cs o.present;
}

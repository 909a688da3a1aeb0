-- ===== src/Diskspace/Least.antt =====
-- internal/diskspace/free.go: what MinAvailableBytes returns is the least of the paths.
use little_big_files.Common.{
  ℕ, ◌≤◌, ◌<◌, ◌≡◌, refl, sym, subst, Bool, true, false, List, [], ◌∷◌, Bytes, All, arith, ◌⊎◌, inl,
  inr,
}
use little_big_files.Common.Result.{Result, ok}
use little_big_files.Diskspace.{
  Stat, Stat-cases, Result-cases, smaller, min_loop, min_available_bytes, HasFree, IsSkipped,
  AtLeast, Attains,
}

smaller-cases :
    (has_path : Bool) (min_free free : ℕ)
    → (((has_path ≡ false) ⊎ (free < min_free)) × (smaller has_path min_free free ≡ (true, free)))
      ⊎ ((min_free ≤ free)
          × (has_path ≡ true)
          × (smaller has_path min_free free ≡ (true, min_free)))
unfolding smaller
smaller-cases false min_free free = inl (inl refl, refl)
smaller-cases true min_free free = ground arith

module _ (stat : Bytes → Stat) (available_bytes : Bytes → Result ℕ) where
  -- What the min_loop stat available_bytes returns is the least of what it has and what the paths have.
  abbrev IsLeast : ℕ → List Bytes → Bool → ℕ → Type 0
  IsLeast m paths has_path min_free =
      All (AtLeast stat available_bytes m) paths
      × (Attains stat available_bytes m paths ⊎ ((has_path ≡ true) × (m ≡ min_free)))
      × ((has_path ≡ false) ⊎ (m ≤ min_free))

  Attains-cons :
      (p : Bytes) (paths : List Bytes) (m : ℕ) {C : Type 0}
      → Attains stat available_bytes m paths ⊎ C
      → Attains stat available_bytes m (p ∷ paths) ⊎ C
  unfolding Attains
  Attains-cons p paths m (inl a) = inl (inr a)
  Attains-cons p paths m (inr c) = inr c

  -- The paths and one more that has `free` bytes: the min_loop stat available_bytes goes on with the lesser.
  IsLeast-lesser :
      (p : Bytes) (paths : List Bytes) (has_path : Bool) (min_free free : ℕ) {m : ℕ}
      → HasFree stat available_bytes p free
      → (has_path ≡ false) ⊎ (free < min_free)
      → IsLeast m paths true free
      → IsLeast m (p ∷ paths) has_path min_free
  unfolding AtLeast Attains HasFree
  IsLeast-lesser p paths has_path min_free free _ _ (least, attains, inl e) = absurd (cc e)
  IsLeast-lesser p paths has_path min_free free {m} has why (least, attains, inr bound) = (
    (inr (free, has, bound), least),
    lesser_attains attains,
    elim why [ inl none_yet ↦ inl none_yet | inr below ↦ inr (omega arith) ],
  )
    where
      lesser_attains :
          Attains stat available_bytes m paths ⊎ ((true ≡ true) × (m ≡ free))
          → Attains stat available_bytes m (p ∷ paths) ⊎ ((has_path ≡ true) × (m ≡ min_free))
      lesser_attains (inl a) = inl (inr a)
      lesser_attains (inr (_, same)) =
          inl (inl (subst (HasFree stat available_bytes p) (sym same) has))

  -- The min_loop stat available_bytes keeps what it has.
  IsLeast-kept :
      (p : Bytes) (paths : List Bytes) (min_free free : ℕ) {m : ℕ}
      → HasFree stat available_bytes p free
      → min_free ≤ free
      → IsLeast m paths true min_free
      → IsLeast m (p ∷ paths) true min_free
  unfolding AtLeast Attains HasFree
  IsLeast-kept p paths min_free free _ _ (least, attains, inl e) = absurd (cc e)
  IsLeast-kept p paths min_free free {m} has above (least, attains, inr bound) =
      ((inr (free, has, omega arith), least), Attains-cons p paths m attains, inr bound)

  IsLeast-skipped :
      (p : Bytes) (paths : List Bytes) (has_path : Bool) (min_free : ℕ) {m : ℕ}
      → IsSkipped stat p
      → IsLeast m paths has_path min_free
      → IsLeast m (p ∷ paths) has_path min_free
  unfolding AtLeast Attains
  IsLeast-skipped p paths has_path min_free {m} skipped (least, attains, bound) =
      ((inl skipped, least), Attains-cons p paths m attains, bound)

  IsLeast-smaller :
      (p : Bytes) (paths : List Bytes) (has_path : Bool) (min_free free : ℕ) {m : ℕ}
      → HasFree stat available_bytes p free
      → IsLeast m paths (smaller has_path min_free free).0 (smaller has_path min_free free).1
      → IsLeast m (p ∷ paths) has_path min_free
  IsLeast-smaller p paths has_path min_free free {m} has l =
      elim (smaller-cases has_path min_free free) [
        | inl (why, lesser) ↦
            IsLeast-lesser p paths has_path min_free free has why (subst at lesser l)
        | inr (above, set, kept) ↦
            subst (λ b. IsLeast m (p ∷ paths) b min_free) (sym set)
              (IsLeast-kept p paths min_free free has above (subst at kept l))
      ]
    where
      at : Bool × ℕ → Type 0
      at q = IsLeast m paths q.0 q.1

  min_loop-IsLeast :
      (paths : List Bytes) (has_path : Bool) (min_free : ℕ) {m : ℕ}
      → min_loop stat available_bytes paths has_path min_free ≡ ok m
      → IsLeast m paths has_path min_free
  unfolding min_loop HasFree IsSkipped Attains
  min_loop-IsLeast [] false min_free h = absurd (cc h)
  min_loop-IsLeast [] true min_free {m} h =
      let same : min_free ≡ m = cc h in (tt, inr (refl, sym same), inr (omega arith))
  min_loop-IsLeast ([] ∷ paths) has_path min_free h =
      IsLeast-skipped [] paths has_path min_free (inl refl)
        (min_loop-IsLeast paths has_path min_free h)
  min_loop-IsLeast ((c ∷ p) ∷ paths) has_path min_free {m} h = elim (Stat-cases (stat (c ∷ p))) [
    | inl missing ↦
        IsLeast-skipped (c ∷ p) paths has_path min_free (inr missing)
          (min_loop-IsLeast paths has_path min_free (cc (h, missing)))
    | inr (inl failed) ↦ absurd (cc (h, failed))
    | inr (inr there) ↦ elim (Result-cases (available_bytes (c ∷ p))) [
      | inl (message, failed) ↦ absurd (cc (h, there, failed))
      | inr (free, found) ↦
          IsLeast-smaller (c ∷ p) paths has_path min_free free ((λ e. absurd (cc e)), there, found)
            (min_loop-IsLeast paths (smaller has_path min_free free).0
              (smaller has_path min_free free).1 (cc (h, there, found)))
    ]
  ]

  -- When MinAvailableBytes returns a number, each of the paths is empty, does not exist or has at
  -- least so many bytes available, and one that exists has just so many.
  pub min_available_bytes-least :
      (paths : List Bytes) {m : ℕ}
      → min_available_bytes stat available_bytes paths ≡ ok m
      → All (AtLeast stat available_bytes m) paths × Attains stat available_bytes m paths
  unfolding min_available_bytes
  min_available_bytes-least paths h =
      let (least, attains, bound) = min_loop-IsLeast paths false 0 h in
      elim attains [ inl some_path ↦ (least, some_path) | inr (e, _) ↦ absurd (cc e) ]

-- ===== src/Diskspace/Answer.antt =====
-- internal/diskspace/free.go: when MinAvailableBytes answers, and when it fails.
use little_big_files.Common.{
  ℕ, ◌≡◌, refl, Bool, true, false, List, [], ◌∷◌, Bytes, All, arith, ◌⊎◌, inl, inr, ◌∙◌,
}
use little_big_files.Common.Result.{Result, ok, err}
use little_big_files.Diskspace.{Stat, smaller, min_loop, min_available_bytes, HasFree, IsSkipped}

smaller-has : (has_path : Bool) (min_free free : ℕ) → (smaller has_path min_free free).0 ≡ true
unfolding smaller
smaller-has false min_free free = refl
smaller-has true min_free free = ground arith

module _ (stat : Bytes → Stat) (available_bytes : Bytes → Result ℕ) where
  -- The calls of the system for this path succeed.
  unfoldable pub Works : Bytes → Type 0
  Works p = IsSkipped stat p ⊎ ((free : ℕ) × HasFree stat available_bytes p free)

  -- The loop returns a number, or it has passed over all paths.
  abbrev Answers : List Bytes → Bool → ℕ → Type 0
  Answers paths has_path min_free =
      ((m : ℕ) × (min_loop stat available_bytes paths has_path min_free ≡ ok m))
      ⊎ ((has_path ≡ false)
          × All (IsSkipped stat) paths
          × (min_loop stat available_bytes paths has_path min_free
              ≡ err "no existing paths provided"))

  -- A path that the loop passes over.
  passed :
      (p : Bytes) (paths : List Bytes) (has_path : Bool) (min_free : ℕ)
      → IsSkipped stat p
      → min_loop stat available_bytes (p ∷ paths) has_path min_free
        ≡ min_loop stat available_bytes paths has_path min_free
      → Answers paths has_path min_free
      → Answers (p ∷ paths) has_path min_free
  passed p paths has_path min_free skipped same (inl (m, answer)) = inl (m, same ∙ answer)
  passed p paths has_path min_free skipped same (inr (none_yet, all, failed)) =
      inr (none_yet, (skipped, all), same ∙ failed)

  min_loop-Answers :
      (paths : List Bytes) (has_path : Bool) (min_free : ℕ)
      → All Works paths
      → Answers paths has_path min_free
  unfolding min_loop smaller HasFree IsSkipped Works
  min_loop-Answers [] false min_free h = inr (refl, tt, refl)
  min_loop-Answers [] true min_free h = inl (min_free, refl)
  min_loop-Answers ([] ∷ paths) has_path min_free (_, h) =
      passed [] paths has_path min_free (inl refl) refl (min_loop-Answers paths has_path min_free h)
  min_loop-Answers ((c ∷ p) ∷ paths) has_path min_free (inl (inl e), h) = absurd (cc e)
  min_loop-Answers ((c ∷ p) ∷ paths) has_path min_free (inl (inr missing), h) =
      passed (c ∷ p) paths has_path min_free (inr missing) (cc missing)
        (min_loop-Answers paths has_path min_free h)
  min_loop-Answers ((c ∷ p) ∷ paths) has_path min_free (inr (free, (_, there, found)), h) =
      elim (min_loop-Answers paths (smaller has_path min_free free).0
        (smaller has_path min_free free).1 h) [
          | inl (m, answer) ↦ inl (m, cc (answer, there, found))
          | inr (none_yet, _, _) ↦ absurd (cc (none_yet, smaller-has has_path min_free free))
        ]

  -- When the calls of the system succeed for each path that is not empty and exists,
  -- MinAvailableBytes returns a number, or it fails with "no existing paths provided" and all
  -- paths are empty or do not exist.
  pub min_available_bytes-answers :
      (paths : List Bytes)
      → All Works paths
      → ((m : ℕ) × (min_available_bytes stat available_bytes paths ≡ ok m))
        ⊎ (All (IsSkipped stat) paths
            × (min_available_bytes stat available_bytes paths ≡ err "no existing paths provided"))
  unfolding min_available_bytes
  min_available_bytes-answers paths h = elim (min_loop-Answers paths false 0 h) [
    | inl answer ↦ inl answer
    | inr (_, skipped, failed) ↦ inr (skipped, failed)
  ]

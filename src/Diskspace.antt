-- ===== src/Diskspace.antt =====
-- internal/diskspace/free.go: MinAvailableBytes. os.Stat and availableBytes, which calls the system,
-- are parameters. A number of free bytes is not negative.
pub mod Least
pub mod Answer
pub mod Tests
use little_big_files.Common.{
  ℕ, zero, suc, ◌≤◌, ◌<◌, ◌≡◌, refl, sym, subst, Bool, true, false, ◌||◌, not, ltb, if◌then◌else◌,
  List, [], ◌∷◌, Bytes, All, arith, ◌⊎◌, inl, inr, ◌≢◌, String,
}
use little_big_files.Common.Result.{Result, ok, err}

-- What os.Stat tells of a path.
pub data Stat : Type 0 where
  exists : Stat
  not_exist : Stat
  stat_failed : Stat

-- The body of `if !hasPath || free < minFree`: hasPath and minFree after it.
smaller : Bool → ℕ → ℕ → Bool × ℕ
smaller has_path min_free free =
    if not has_path || ltb free min_free then (true, free) else (has_path, min_free)

Stat-cases : (s : Stat) → (s ≡ not_exist) ⊎ ((s ≡ stat_failed) ⊎ (s ≡ exists))
Stat-cases not_exist = inl refl
Stat-cases stat_failed = inr (inl refl)
Stat-cases exists = inr (inr refl)

Result-cases : (r : Result ℕ) → ((message : String) × (r ≡ err message)) ⊎ ((n : ℕ) × (r ≡ ok n))
Result-cases (err message) = inl (message, refl)
Result-cases (ok n) = inr (n, refl)

module _ (stat : Bytes → Stat) where
  -- The path is empty or does not exist.
  pub IsSkipped : Bytes → Type 0
  IsSkipped p = (p ≡ []) ⊎ (stat p ≡ not_exist)

module _ (stat : Bytes → Stat) (available_bytes : Bytes → Result ℕ) where
  -- The loop, with hasPath and minFree as they stand.
  min_loop : List Bytes → Bool → ℕ → Result ℕ
  unfolding smaller
  min_loop [] has_path min_free =
      if not has_path then err "no existing paths provided" else ok min_free
  min_loop ([] ∷ paths) has_path min_free = min_loop paths has_path min_free
  min_loop ((c ∷ p) ∷ paths) has_path min_free = elim (stat (c ∷ p)) [
    | stat_failed ↦ err "stat path"
    | not_exist ↦ min_loop paths has_path min_free
    | exists ↦ elim (available_bytes (c ∷ p)) [
      | err _ ↦ err "available bytes for"
      | ok free ↦ let (now, least) = smaller has_path min_free free in min_loop paths now least
    ]
  ]

  pub min_available_bytes : List Bytes → Result ℕ
  unfolding min_loop
  min_available_bytes paths = min_loop paths false 0

  -- The path is not empty, exists and has so many bytes available.
  pub HasFree : Bytes → ℕ → Type 0
  HasFree p free = (p ≢ []) × (stat p ≡ exists) × (available_bytes p ≡ ok free)

  -- The path is skipped or has at least so many bytes available.
  pub AtLeast : ℕ → Bytes → Type 0
  AtLeast m p = IsSkipped stat p ⊎ ((free : ℕ) × HasFree p free × (m ≤ free))

  -- One of the paths has just so many bytes available.
  pub Attains : ℕ → List Bytes → Type 0
  Attains m [] = ⊥
  Attains m (p ∷ paths) = HasFree p m ⊎ Attains m paths

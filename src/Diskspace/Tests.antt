-- ===== src/Diskspace/Tests.antt =====
-- Runs of MinAvailableBytes on concrete paths, and the theorems at them.
use little_big_files.Common.{
  ℕ, ◌≡◌, ◌*◌, refl, List, [], ◌∷◌, Bytes, All, ◌⊎◌, inl, inr, if◌then◌else◌, ◌==◌, length,
}
use little_big_files.Common.Result.{Result, ok, err}
use little_big_files.Diskspace.{
  Stat, exists, not_exist, min_available_bytes, smaller, min_loop, HasFree, IsSkipped, AtLeast,
  Attains,
}
use little_big_files.Diskspace.Least.{min_available_bytes-least}
use little_big_files.Diskspace.Answer.{Works, min_available_bytes-answers}

-- A path exists unless it is of three bytes, and has a thousand bytes available for each of its own.
abbrev stat_of : Bytes → Stat
stat_of p = if length p == 3 then not_exist else exists

abbrev available_of : Bytes → Result ℕ
available_of p = ok (1000 * length p)

abbrev paths : List Bytes
paths = (b'/' ∷ b'a' ∷ b'b' ∷ b'c' ∷ []) ∷ [] ∷ (b'/' ∷ b'n' ∷ b'o' ∷ []) ∷ (b'/' ∷ b'd' ∷ []) ∷ []

least_of_paths : min_available_bytes stat_of available_of paths ≡ ok 2000
unfolding min_available_bytes min_loop smaller
least_of_paths = refl

paths-Works : All (Works stat_of available_of) paths
unfolding Works HasFree IsSkipped
paths-Works = (
  inr (4000, ((λ e. absurd (cc e)), refl, refl)),
  (inl (inl refl), (inl (inr refl), (inr (2000, ((λ e. absurd (cc e)), refl, refl)), tt))),
)

min_available_bytes-least_example :
    All (AtLeast stat_of available_of 2000) paths × Attains stat_of available_of 2000 paths
min_available_bytes-least_example =
    min_available_bytes-least stat_of available_of paths least_of_paths

min_available_bytes-answers_example :
    ((m : ℕ) × (min_available_bytes stat_of available_of paths ≡ ok m))
    ⊎ (All (IsSkipped stat_of) paths
        × (min_available_bytes stat_of available_of paths ≡ err "no existing paths provided"))
min_available_bytes-answers_example =
    min_available_bytes-answers stat_of available_of paths paths-Works

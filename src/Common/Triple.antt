-- ===== src/Common/Triple.antt =====
-- What a method makes of a state where P holds: Q of its value and the state after it when it
-- succeeds, E of the state after it when it fails.
use mathlib.Core.Path.{◌≡◌, refl}
use mathlib.Core.Bool.{Bool, true, false}
use Prim.Native.String.{String}
use little_big_files.Common.Tests.{if◌then◌else◌}
use little_big_files.Common.Result.{Result, ok, err}
use little_big_files.Common.Exec.{Exec, pure, raise, gets, modify, continue, ◌>>=◌}

module _ {S A : Type 0} where
  abbrev pub Post : (A → S → Type 0) → (S → Type 0) → Result A × S → Type 0
  Post Q E (ok a, s) = Q a s
  Post Q E (err e, s) = E s

  pub record Triple (P : S → Type 0) (m : Exec S A) (Q : A → S → Type 0) (E : S → Type 0)
      : Type 0 where
    pub runs : (s : S) → P s → Post Q E (m s)

module _ {S A : Type 0} (Q : A → S → Type 0) (E : S → Type 0) where
  pub Post-if :
      (b : Bool) (x y : Result A × S)
      → (b ≡ true → Post Q E x)
      → (b ≡ false → Post Q E y)
      → Post Q E (if b then x else y)
  Post-if true x y h k = h refl
  Post-if false x y h k = k refl

module _ {S A : Type 0} {P : S → Type 0} {Q : A → S → Type 0} {E : S → Type 0} where
  pub Triple-pure : (a : A) → ((s : S) → P s → Q a s) → Triple P (pure a) Q E
  Triple-pure a h = record { runs = h }

  pub Triple-raise : (e : String) → ((s : S) → P s → E s) → Triple P (raise e) Q E
  Triple-raise e h = record { runs = h }

  pub Triple-gets : (f : S → A) → ((s : S) → P s → Q (f s) s) → Triple P (gets f) Q E
  Triple-gets f h = record { runs = h }

  pub Triple-if :
      (b : Bool) (m n : Exec S A)
      → (b ≡ true → Triple P m Q E)
      → (b ≡ false → Triple P n Q E)
      → Triple P (if b then m else n) Q E
  Triple-if true m n h k = h refl
  Triple-if false m n h k = k refl

  pub Triple-before :
      {P' : S → Type 0} (m : Exec S A) → ((s : S) → P' s → P s) → Triple P m Q E → Triple P' m Q E
  Triple-before m k h = record { runs = λ s p. h.runs s (k s p) }

  pub Triple-after :
      {Q' : A → S → Type 0} {E' : S → Type 0} (m : Exec S A)
      → ((a : A) (s : S) → Q a s → Q' a s)
      → ((s : S) → E s → E' s)
      → Triple P m Q E
      → Triple P m Q' E'
  Triple-after {Q' = Q'} {E' = E'} m j k h = record { runs = λ s p. go (m s) (h.runs s p) }
    where
      go : (r : Result A × S) → Post Q E r → Post Q' E' r
      go (ok a, t) q = j a t q
      go (err e, t) q = k t q

module _ {S A C : Type 0} {R : A → S → Type 0} {Q : C → S → Type 0} {E : S → Type 0} where
  pub Triple-continue :
      (f : A → Exec S C)
      → ((a : A) → Triple (R a) (f a) Q E)
      → (r : Result A) (t : S) → Post R E (r, t)
      → Post Q E (continue r f t)
  Triple-continue f k (ok a) t p = (k a).runs t p
  Triple-continue f k (err e) t p = p

  pub Triple-bind :
      {P : S → Type 0} (m : Exec S A) (f : A → Exec S C)
      → Triple P m R E
      → ((a : A) → Triple (R a) (f a) Q E)
      → Triple P (m >>= f) Q E
  Triple-bind m f h k = record { runs = λ s p. Triple-continue f k (m s).0 (m s).1 (h.runs s p) }

-- Of any method nothing has to be known.
pub Triple-any :
    {S A : Type 0} {P : S → Type 0} (m : Exec S A) → Triple P m (λ _ _. Unit {0}) (λ _. Unit {0})
Triple-any {S} {A} m = record { runs = λ s _. go (m s) }
  where
    go : (r : Result A × S) → Post (λ _ _. Unit {0}) (λ _. Unit {0}) r
    go (ok a, t) = tt
    go (err e, t) = tt

-- A call on a part of the state.
module _ {S T A : Type 0} where
  abbrev pub within : (S → T) → (T → S → S) → Exec T A → Exec S A
  within get set m s = let (r, t) = m (get s) in (r, set t s)

  pub Triple-within :
      {P : T → Type 0} {Q : A → T → Type 0} {E : T → Type 0} (get : S → T) (set : T → S → S)
      (m : Exec T A)
      → ((t : T) (s : S) → get (set t s) ≡ t)
      → Triple P m Q E
      → Triple (λ s. P (get s)) (within get set m) (λ a s. Q a (get s)) (λ s. E (get s))
  Triple-within {Q = Q} {E = E} get set m law h = record {
    runs = λ s p. go s (m (get s)) (h.runs (get s) p);
  }
    where
      go :
          (s : S) (r : Result A × T)
          → Post Q E r
          → Post (λ a u. Q a (get u)) (λ u. E (get u)) (r.0, set r.1 s)
      go s (ok a, t) q = rw (law t s) q
      go s (err e, t) q = rw (law t s) q

module _ {S : Type 0} {P R E : S → Type 0} where
  pub Triple-modify : (f : S → S) → ((s : S) → P s → R (f s)) → Triple P (modify f) (λ _. R) E
  Triple-modify f h = record { runs = h }

-- ===== src/Common/Words.antt =====
-- encoding/binary: little-endian words of `k` bytes. A byte string is a list of numbers below 256.
use Prim.Native.Nat.{ℕ, zero, suc, ◌+◌, ◌*◌, ◌/◌, ◌%◌, ◌^◌, ◌<◌}
use mathlib.Core.Path.{◌≡◌, refl, sym, ap, ◌∙◌}
use mathlib.Core.List.{List, [], ◌∷◌, ◌++◌}
use native.Mathlib.Omega.{arith}
use native.Mathlib.Nat.{pow-suc}
use little_big_files.Common.Lists.{
  length, take, drop, All, take-append_eq, drop-append_eq, drop-append_add,
}

abbrev pub Bytes : Type 0
Bytes = List ℕ

abbrev pub AreBytes : Bytes → Type 0
AreBytes = All (λ b. b < 256)

-- PutUint32 is `put_le 4`, PutUint64 is `put_le 8`.
unfoldable pub put_le : ℕ → ℕ → Bytes
put_le zero n = []
put_le (suc k) n = (n % 256) ∷ put_le k (n / 256)

-- Uint32 and Uint64 of a slice of 4 and 8 bytes.
unfoldable pub get_le : Bytes → ℕ
get_le [] = 0
get_le (b ∷ bs) = b + 256 * get_le bs

pub length-put_le : (k n : ℕ) → length (put_le k n) ≡ k
unfolding put_le
length-put_le zero n = refl
length-put_le (suc k) n = ap suc (length-put_le k (n / 256))

pub get_le-put_le : (k n : ℕ) → n < 256 ^ k → get_le (put_le k n) ≡ n
unfolding put_le get_le
get_le-put_le zero n h = omega arith
get_le-put_le (suc k) n h = omega (arith, get_le-put_le k (n / 256) (omega (arith, pow-suc 256 k)))

pub put_le-get_le : (bs : Bytes) → AreBytes bs → put_le (length bs) (get_le bs) ≡ bs
unfolding put_le get_le
put_le-get_le [] h = refl
put_le-get_le (b ∷ bs) (hb, hbs) =
    ground (arith, put_le-get_le bs hbs, low b (get_le bs) hb, high b (get_le bs) hb)
  where
    low : (b n : ℕ) → b < 256 → (b + 256 * n) % 256 ≡ b
    low b n h = omega arith

    high : (b n : ℕ) → b < 256 → (b + 256 * n) / 256 ≡ n
    high b n h = omega arith

pub get_le-lt : (bs : Bytes) → AreBytes bs → get_le bs < 256 ^ length bs
unfolding get_le
get_le-lt [] h = omega arith
get_le-lt (b ∷ bs) (hb, hbs) = omega (arith, get_le-lt bs hbs, pow-suc 256 (length bs))

module _ (k n : ℕ) (rest : Bytes) where
  -- A word is read where it was put.
  pub word-put_le : n < 256 ^ k → get_le (take k (put_le k n ++ rest)) ≡ n
  word-put_le h =
      ap get_le (take-append_eq k (put_le k n) rest (sym (length-put_le k n))) ∙ get_le-put_le k n h

  pub drop-put_le : drop k (put_le k n ++ rest) ≡ rest
  drop-put_le = drop-append_eq k (put_le k n) rest (sym (length-put_le k n))

  -- Past a word of `k` bytes.
  pub drop-put_le_add : (i j : ℕ) → i ≡ k + j → drop i (put_le k n ++ rest) ≡ drop j rest
  drop-put_le_add i j h = drop-append_add (put_le k n) rest j i (omega (arith, length-put_le k n))

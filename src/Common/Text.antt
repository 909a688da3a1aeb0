-- ===== src/Common/Text.antt =====
-- Go strings are bytes: strings.HasPrefix and Contains, encoding/hex, and numbers in decimal.
use Prim.Native.Nat.{ℕ, zero, suc, ◌+◌, ◌-◌, ◌/◌, ◌%◌}
use mathlib.Core.Bool.{Bool, true, false, ◌&&◌, ◌||◌}
use mathlib.Core.List.{[], ◌∷◌, ◌++◌}
use little_big_files.Common.Tests.{ltb, ◌==◌, if◌then◌else◌}
use little_big_files.Common.Words.{Bytes}

-- HasPrefix: whether the second argument begins with the first.
unfoldable pub has_prefix : Bytes → Bytes → Bool
has_prefix [] text = true
has_prefix (p ∷ prefix) [] = false
has_prefix (p ∷ prefix) (c ∷ text) = p == c && has_prefix prefix text

-- Contains
unfoldable pub contains : Bytes → Bytes → Bool
contains part [] = has_prefix part []
contains part (c ∷ text) = has_prefix part (c ∷ text) || contains part text

abbrev pub hex_digit : ℕ → ℕ
hex_digit n = if ltb n 10 then b'0' + n else b'a' + n - 10

-- hex.EncodeToString
unfoldable pub hex : Bytes → Bytes
hex [] = []
hex (b ∷ bytes) = hex_digit (b / 16) ∷ hex_digit (b % 16) ∷ hex bytes

-- %d of a number with at most as many digits as the fuel.
unfoldable pub decimal_on : ℕ → ℕ → Bytes
decimal_on zero n = []
decimal_on (suc fuel) n =
    let front = decimal_on fuel (n / 10) in
    if ltb n 10 then (b'0' + n) ∷ [] else front ++ (b'0' + n % 10) ∷ []

-- %d of a number of 64 bits.
abbrev pub decimal : ℕ → Bytes
decimal = decimal_on 20

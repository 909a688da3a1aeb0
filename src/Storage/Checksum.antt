-- ===== src/Storage/Checksum.antt =====
-- hash/crc32 as internal/storage uses it: the checksum in a record's trailer (Castagnoli) and that
-- of an index file (IEEE), table-driven as the standard library documents.
use Prim.Native.Nat.{bit_xor}
use mathlib.Core.List.{foldl}
use little_big_files.Common.{
  ℕ, ◌/◌, ◌%◌, ◌^◌, ◌<◌, ◌≡◌, refl, [], ◌∷◌, arith, Bytes, ◌==◌, if◌then◌else◌,
}

crc_shift : ℕ → ℕ → ℕ
crc_shift poly crc = if crc % 2 == 1 then bit_xor (crc / 2) poly else crc / 2

-- An entry of the table for `poly`.
crc_entry : ℕ → ℕ → ℕ
unfolding crc_shift
crc_entry poly i = s (s (s (s (s (s (s (s i)))))))
  where
    s : ℕ → ℕ
    s crc = crc_shift poly crc

crc_update : ℕ → ℕ → ℕ → ℕ
unfolding crc_entry
crc_update poly crc b = bit_xor (crc_entry poly (bit_xor (crc % 256) b)) (crc / 256)

pub crc32 : ℕ → Bytes → ℕ
unfolding crc_update
crc32 poly bytes = bit_xor (foldl (crc_update poly) 0xffffffff bytes) 0xffffffff % 2 ^ 32

abbrev castagnoli : ℕ
castagnoli = 0x82f63b78

abbrev ieee : ℕ
ieee = 0xedb88320

-- RecordChecksum
unfoldable pub record_checksum : Bytes → ℕ
unfolding crc32
record_checksum payload = crc32 castagnoli payload

-- crc32.ChecksumIEEE
unfoldable pub checksum_ieee : Bytes → ℕ
unfolding crc32
checksum_ieee bytes = crc32 ieee bytes

pub record_checksum-lt : (payload : Bytes) → record_checksum payload < 2 ^ 32
unfolding record_checksum
record_checksum-lt payload = omega arith

pub checksum_ieee-lt : (bytes : Bytes) → checksum_ieee bytes < 2 ^ 32
unfolding checksum_ieee
checksum_ieee-lt bytes = omega arith

abbrev check_input : Bytes
check_input = b'1' ∷ b'2' ∷ b'3' ∷ b'4' ∷ b'5' ∷ b'6' ∷ b'7' ∷ b'8' ∷ b'9' ∷ []

-- The published check values of both polynomials.
record_checksum_check : record_checksum check_input ≡ 0xe3069283
unfolding record_checksum
record_checksum_check = refl

checksum_ieee_check : checksum_ieee check_input ≡ 0xcbf43926
unfolding checksum_ieee
checksum_ieee_check = refl

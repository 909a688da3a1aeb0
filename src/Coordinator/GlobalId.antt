-- ===== src/Coordinator/GlobalId.antt =====
-- internal/globalid/id.go: a package id of 64 bits is the shard's id above 48 bits of local id.
use little_big_files.Common.{ℕ, ◌+◌, ◌*◌, ◌/◌, ◌%◌, ◌^◌, ◌<◌, ◌≡◌, arith}

-- An int64, by its bits as a number below 2 ^ 64. The bits of the two parts of an id are disjoint,
-- so that their disjunction is a sum.
abbrev pub shard_shift : ℕ
shard_shift = 48

-- Encode
unfoldable pub encode : ℕ → ℕ → ℕ
encode shard_id local_id = (shard_id * 2 ^ shard_shift) % 2 ^ 64 + local_id % 2 ^ shard_shift

-- Decode: the shard and the local id.
unfoldable pub decode : ℕ → ℕ × ℕ
decode global_id = (global_id / 2 ^ shard_shift, global_id % 2 ^ shard_shift)

-- Decode takes an encoded id apart, for a shard id of 16 bits and a local id of 48.
pub decode-encode :
    (shard_id local_id : ℕ)
    → shard_id < 2 ^ 16
    → local_id < 2 ^ 48
    → decode (encode shard_id local_id) ≡ (shard_id, local_id)
unfolding encode decode
decode-encode shard_id local_id h k = ground arith

-- Encode puts together what Decode took apart, for any 64 bits.
pub encode-decode :
    (global_id : ℕ)
    → global_id < 2 ^ 64
    → encode (decode global_id).0 (decode global_id).1 ≡ global_id
unfolding encode decode
encode-decode global_id h = omega arith

-- ===== src/Storage/File.antt =====
-- The operations of os.File that internal/storage uses, on a file that is a byte string.
use little_big_files.Common.{
  ℕ, max, ◌≤◌, ◌≡◌, ◌∙◌, ap, arith, length-append, length-take, length-drop, take-append_le,
  take-take, drop-append_eq, ◌+◌, ◌-◌, ◌++◌, Bytes, length, take, drop, replicate, ltb,
  if◌then◌else◌,
}
use little_big_files.Common.Result.{Result, ok, err}

-- ReadAt: `n` bytes at `offset`, or the error io.EOF where the file ends before.
unfoldable pub read_at : Bytes → ℕ → ℕ → Result Bytes
read_at file offset n =
    if ltb (length file) (offset + n) then err "EOF" else ok (take n (drop offset file))

-- WriteAt: bytes written over what stands at `offset`; a hole past the end reads as zeros.
unfoldable pub write_at : Bytes → ℕ → Bytes → Bytes
write_at file offset bytes =
    take offset file
    ++ (replicate (offset - length file) 0 ++ (bytes ++ drop (offset + length bytes) file))

-- A write that begins within the file.
pub write_at-within :
    (file : Bytes) (offset : ℕ) (bytes : Bytes)
    → offset ≤ length file
    → write_at file offset bytes ≡ take offset file ++ (bytes ++ drop (offset + length bytes) file)
unfolding write_at
write_at-within file offset bytes h =
    ap (λ n. take offset file ++ (replicate n 0 ++ (bytes ++ drop (offset + length bytes) file)))
      {x = offset - length file} {y = 0} (omega arith)

-- It keeps what stands before it.
pub take-write_at :
    (n : ℕ) (file : Bytes) (offset : ℕ) (bytes : Bytes)
    → n ≤ offset
    → offset ≤ length file
    → take n (write_at file offset bytes) ≡ take n file
take-write_at n file offset bytes h k = rw (write_at-within file offset bytes k) (
    take-append_le n (take offset file) _ (omega (arith, length-take offset file))
    ∙ take-take n offset file h)

-- And what it wrote stands at its offset.
pub drop-write_at :
    (file : Bytes) (offset : ℕ) (bytes : Bytes)
    → offset ≤ length file
    → drop offset (write_at file offset bytes) ≡ bytes ++ drop (offset + length bytes) file
drop-write_at file offset bytes k =
    rw (write_at-within file offset bytes k)
      (drop-append_eq offset (take offset file) _ (omega (arith, length-take offset file)))

pub length-write_at :
    (file : Bytes) (offset : ℕ) (bytes : Bytes)
    → offset ≤ length file
    → length (write_at file offset bytes) ≡ max (length file) (offset + length bytes)
length-write_at file offset bytes k = rw (write_at-within file offset bytes k) (
    omega (
      arith,
      length-append (take offset file) (bytes ++ drop (offset + length bytes) file),
      length-append bytes (drop (offset + length bytes) file),
      length-take offset file,
      length-drop (offset + length bytes) file,
    ))

-- ===== src/Ingestion/Zip/Bounds.antt =====
-- internal/ingestion/detect.go: the members that UnpackZipWithLimit returns are within the limit.
use little_big_files.Common.{
  ℕ, ◌+◌, ◌-◌, ◌≤◌, ◌≡◌, refl, Option, none, some, List, [], ◌∷◌, ◌++◌, Bytes, length, arith,
}
use little_big_files.Common.Result.{Result, ok, err}
use little_big_files.Common.Exec.{Exec}
use little_big_files.Common.Triple.{Triple, Post, Triple-pure, Triple-raise}
use little_big_files.Ingestion.Zip.{
  Stream, ZipEntry, ZipMember, read_member, read_opened, within_limit, next_entry, for_each_entry,
  for_each_read, for_each_zip_member, effective_max_unpacked_zip_bytes, unpack_zip_with_limit,
  add_member, read_limited, int64_add,
}

-- The bytes of all members.
unfoldable pub unpacked_size : List ZipMember → ℕ
unpacked_size [] = 0
unpacked_size (m ∷ members) = length m.data_of + unpacked_size members

unpacked_size-append :
    (xs ys : List ZipMember) → unpacked_size (xs ++ ys) ≡ unpacked_size xs + unpacked_size ys
unfolding unpacked_size
unpacked_size-append [] ys = omega arith
unpacked_size-append (x ∷ xs) ys = omega (arith, unpacked_size-append xs ys)

within_limit_le :
    (remaining : ℕ) (r : Result Bytes) (body : Bytes)
    → within_limit remaining r ≡ ok body
    → length body ≤ remaining
unfolding within_limit
within_limit_le remaining (err e) body h = absurd (cc h)
within_limit_le remaining (ok content) body h = ground (arith, h)

read_opened_le :
    (remaining : ℕ) (r : Result Stream) (body : Bytes)
    → read_opened remaining r ≡ ok body
    → length body ≤ remaining
unfolding read_opened
read_opened_le remaining (err e) body h = absurd (cc h)
read_opened_le remaining (ok s) body h =
    within_limit_le remaining (read_limited (int64_add remaining 1) s) body h

-- What is read of an entry fits into what remains.
read_member_le :
    (limit total : ℕ) (f : ZipEntry) (body : Bytes)
    → read_member limit total f ≡ some (ok body)
    → length body ≤ limit - total
unfolding read_member
read_member_le limit total f body h =
    ground (arith, h, read_opened_le (limit - total) f.open_stream body)

-- The members so far, within the limit.
abbrev Read : ℕ → ℕ → List ZipMember → Type 0
Read limit total members = (unpacked_size members ≡ total) × (total ≤ limit)

abbrev Within : ℕ → List ZipMember → Type 0
Within limit members = unpacked_size members ≤ limit

abbrev Bounded : ℕ → ℕ → Exec (List ZipMember) Unit → Type 0
Bounded limit total m = Triple (Read limit total) m (λ _. Within limit) (Within limit)

next_entry-Bounded :
    (limit total : ℕ) (name : Bytes) (o : Option (Result Bytes)) (skip : Exec (List ZipMember) Unit)
    (next : ℕ → Exec (List ZipMember) Unit)
    → ((body : Bytes) → o ≡ some (ok body) → length body ≤ limit - total)
    → Bounded limit total skip
    → ((n : ℕ) → Bounded limit (total + n) (next n))
    → Bounded limit total (next_entry add_member name o skip next)
unfolding next_entry unpacked_size
next_entry-Bounded limit total name none skip next h k l = k
next_entry-Bounded limit total name (some (err e)) skip next h k l =
    Triple-raise e λ s p. omega (arith, p.0, p.1)
next_entry-Bounded limit total name (some (ok body)) skip next h k l = record {
  runs = λ s p. (l (length body)).runs _ (grown s p.0, omega (arith, p.1, h body refl));
}
  where
    grown :
        (s : List ZipMember)
        → unpacked_size s ≡ total
        → unpacked_size (s ++ record { filename = name; data_of = body } ∷ []) ≡ total + length body
    grown s e =
        omega (arith, e, unpacked_size-append s (record { filename = name; data_of = body } ∷ []))

for_each_entry-Bounded :
    (limit total : ℕ) (files : List ZipEntry)
    → Bounded limit total (for_each_entry add_member limit total files)
unfolding for_each_entry
for_each_entry-Bounded limit total [] = Triple-pure tt λ s p. omega (arith, p.0, p.1)
for_each_entry-Bounded limit total (f ∷ files) =
    next_entry-Bounded limit total f.name (read_member limit total f) _ _
      (read_member_le limit total f) (for_each_entry-Bounded limit total files)
      λ n. for_each_entry-Bounded limit (total + n) files

-- The members that UnpackZipWithLimit returns have at most as many bytes together as the limit, or
-- as the default of 512 MiB where the limit is not positive, whatever sizes the directory of the
-- archive tells, and also when an error ends it.
pub unpack_zip_with_limit_le :
    (new_reader : Bytes → Result (List ZipEntry)) (bytes : Bytes) (max_unpacked : ℕ)
    → unpacked_size (unpack_zip_with_limit new_reader bytes max_unpacked).1
      ≤ effective_max_unpacked_zip_bytes max_unpacked
unfolding unpack_zip_with_limit for_each_zip_member for_each_read unpacked_size
unpack_zip_with_limit_le new_reader bytes max_unpacked = go (new_reader bytes)
  where
    limit : ℕ
    limit = effective_max_unpacked_zip_bytes max_unpacked

    ended :
        (r : Result (Unit {0})) (s : List ZipMember)
        → Post (λ _. Within limit) (Within limit) (r, s)
        → Within limit s
    ended (ok a) s h = h
    ended (err e) s h = h

    go : (r : Result (List ZipEntry)) → Within limit (for_each_read add_member limit r []).1
    go (err e) = omega arith
    go (ok files) = ended _ _ ((for_each_entry-Bounded limit 0 files).runs [] (refl, omega arith))

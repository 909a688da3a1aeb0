-- ===== src/Storage/SegmentIndex/Entries.antt =====
-- internal/storage/segment_index.go: entries and the footer read back as they were written.
use little_big_files.Common.{
  ℕ, ◌+◌, ◌*◌, ◌^◌, ◌<◌, ◌≡◌, refl, sym, ap, ◌∙◌, List, [], ◌∷◌, ◌++◌, append_assoc, append-nil,
  arith, Bytes, length, length-append, length-put_le, take, drop, put_le, word-put_le, drop-put_le,
  drop-put_le_add, drop-append_add, drop-append_eq, take-append_eq, All, le→ltb,
}
use little_big_files.Common.Result.{ok}
use little_big_files.Storage.SegmentIndex.{
  IndexEntry, encode_index_entry, decode_index_entry, decode_entries,
}

-- The fields fit into their words, and the hash is one of SHA-256.
abbrev pub IsEntry : IndexEntry → Type 0
IsEntry e =
    (e.offset < 2 ^ 64)
    × (e.stored_size < 2 ^ 32)
    × (e.logical_size < 2 ^ 32)
    × (e.magic < 2 ^ 32)
    × (length e.hash ≡ 32)
    × (e.supplier_id < 2 ^ 32)
    × (e.dict_id < 2 ^ 32)

module _ (e : IndexEntry) (rest : Bytes) where
  -- What stands behind each field.
  abbrev t6 : Bytes
  t6 = put_le 4 e.dict_id ++ rest

  abbrev t5 : Bytes
  t5 = put_le 4 e.supplier_id ++ t6

  abbrev t4 : Bytes
  t4 = e.hash ++ t5

  abbrev t3 : Bytes
  t3 = put_le 4 e.magic ++ t4

  abbrev t2 : Bytes
  t2 = put_le 4 e.logical_size ++ t3

  abbrev t1 : Bytes
  t1 = put_le 4 e.stored_size ++ t2

  abbrev t0 : Bytes
  t0 = put_le 8 e.offset ++ t1

  encode_index_entry-append : encode_index_entry e ++ rest ≡ t0
  unfolding encode_index_entry
  encode_index_entry-append = simp append_assoc

  drop_8 : drop 8 t0 ≡ t1
  drop_8 = drop-put_le 8 e.offset t1

  drop_12 : drop 12 t0 ≡ t2
  drop_12 = drop-put_le_add 8 e.offset t1 12 4 refl ∙ drop-put_le 4 e.stored_size t2

  drop_16 : drop 16 t0 ≡ t3
  drop_16 =
      drop-put_le_add 8 e.offset t1 16 8 refl
      ∙ drop-put_le_add 4 e.stored_size t2 8 4 refl
      ∙ drop-put_le 4 e.logical_size t3

  drop_20 : drop 20 t0 ≡ t4
  drop_20 =
      drop-put_le_add 8 e.offset t1 20 12 refl
      ∙ drop-put_le_add 4 e.stored_size t2 12 8 refl
      ∙ drop-put_le_add 4 e.logical_size t3 8 4 refl
      ∙ drop-put_le 4 e.magic t4

  -- Past the hash.
  module _ (h : length e.hash ≡ 32) where
    drop_past : (n m : ℕ) → n ≡ 20 + m → drop n t0 ≡ drop m t4
    drop_past n m k =
        drop-put_le_add 8 e.offset t1 n (12 + m) (omega arith)
        ∙ drop-put_le_add 4 e.stored_size t2 (12 + m) (8 + m) (omega arith)
        ∙ drop-put_le_add 4 e.logical_size t3 (8 + m) (4 + m) (omega arith)
        ∙ drop-put_le_add 4 e.magic t4 (4 + m) m (omega arith)

    drop_52 : drop 52 t0 ≡ t5
    drop_52 = drop_past 52 32 refl ∙ drop-append_eq 32 e.hash t5 (sym h)

    drop_56 : drop 56 t0 ≡ t6
    drop_56 =
        drop_past 56 36 refl
        ∙ drop-append_add e.hash t5 4 36 (omega (arith, h))
        ∙ drop-put_le 4 e.supplier_id t6

  length-t0 : length e.hash ≡ 32 → length t0 ≡ 60 + length rest
  length-t0 h = omega (
    arith,
    length-append (put_le 8 e.offset) t1,
    length-append (put_le 4 e.stored_size) t2,
    length-append (put_le 4 e.logical_size) t3,
    length-append (put_le 4 e.magic) t4,
    length-append e.hash t5,
    length-append (put_le 4 e.supplier_id) t6,
    length-append (put_le 4 e.dict_id) rest,
    length-put_le 8 e.offset,
    length-put_le 4 e.stored_size,
    length-put_le 4 e.logical_size,
    length-put_le 4 e.magic,
    length-put_le 4 e.supplier_id,
    length-put_le 4 e.dict_id,
  )

  -- DecodeIndexEntry of an encoded entry, with anything behind it, is the entry.
  pub decode_index_entry-encode_index_entry :
      IsEntry e → decode_index_entry (encode_index_entry e ++ rest) ≡ ok e
  unfolding decode_index_entry
  decode_index_entry-encode_index_entry (h0, h1, h2, h3, h4, h5, h6) =
      rw encode_index_entry-append (
        rw
          (
            le→ltb (length t0) 60 (omega (arith, length-t0 h4)),
            drop_8,
            drop_12,
            drop_16,
            drop_20,
            drop_52 h4,
            drop_56 h4,
            word-put_le 8 e.offset t1 h0,
            word-put_le 4 e.stored_size t2 h1,
            word-put_le 4 e.logical_size t3 h2,
            word-put_le 4 e.magic t4 h3,
            take-append_eq 32 e.hash t5 (sym h4),
            word-put_le 4 e.supplier_id t6 h5,
            word-put_le 4 e.dict_id rest h6,
          )
          refl)

pub length-encode_index_entry :
    (e : IndexEntry) → length e.hash ≡ 32 → length (encode_index_entry e) ≡ 60
length-encode_index_entry e h = omega (
  arith,
  length-t0 e [] h,
  ap length (encode_index_entry-append e []),
  ap length (append-nil (encode_index_entry e)),
)

-- The last word of an entry is the id of its dictionary.
pub dict_word :
    (e : IndexEntry) → IsEntry e → take 4 (drop 56 (encode_index_entry e)) ≡ put_le 4 e.dict_id
dict_word e v =
    ap (λ b. take 4 (drop 56 b))
      (sym (append-nil (encode_index_entry e)) ∙ encode_index_entry-append e [])
    ∙ ap (take 4) (drop_56 e [] v.4)
    ∙ take-append_eq 4 (put_le 4 e.dict_id) [] (sym (length-put_le 4 e.dict_id))

-- Entries one behind the other.
abbrev pub entries_bytes : List IndexEntry → Bytes
entries_bytes [] = []
entries_bytes (e ∷ es) = encode_index_entry e ++ entries_bytes es

pub length-entries_bytes :
    (es : List IndexEntry) → All IsEntry es → length (entries_bytes es) ≡ 60 * length es
length-entries_bytes [] v = refl
length-entries_bytes (e ∷ es) (v, vs) = omega (
  arith,
  length-append (encode_index_entry e) (entries_bytes es),
  length-encode_index_entry e v.4,
  length-entries_bytes es vs,
)

pub entries_bytes-append :
    (es fs : List IndexEntry) → entries_bytes (es ++ fs) ≡ entries_bytes es ++ entries_bytes fs
entries_bytes-append [] fs = refl
entries_bytes-append (e ∷ es) fs =
    ap (λ b. encode_index_entry e ++ b) (entries_bytes-append es fs)
    ∙ sym (append_assoc (encode_index_entry e) (entries_bytes es) (entries_bytes fs))

pub decode_entries-entries_bytes :
    (es : List IndexEntry) → All IsEntry es → decode_entries (length es) (entries_bytes es) ≡ ok es
unfolding decode_entries
decode_entries-entries_bytes [] v = refl
decode_entries-entries_bytes (e ∷ es) (v, vs) =
    rw
      (
        take-append_eq 60 (encode_index_entry e) (entries_bytes es)
            (sym (length-encode_index_entry e v.4)),
        drop-append_eq 60 (encode_index_entry e) (entries_bytes es)
            (sym (length-encode_index_entry e v.4)),
        ap decode_index_entry (sym (append-nil (encode_index_entry e)))
            ∙ decode_index_entry-encode_index_entry e [] v,
        decode_entries-entries_bytes es vs,
      )
      refl

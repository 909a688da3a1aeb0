-- ===== src/Storage/SegmentIndex/Append.antt =====
-- internal/storage/segment_index.go: what Append wrote ReadIndexFile reads.
use little_big_files.Common.{
  ℕ, ◌+◌, ◌-◌, ◌/◌, ◌%◌, ◌^◌, ◌<◌, ◌≡◌, ◌≢◌, refl, sym, ap, ◌∙◌, none, some, List, [], ◌∷◌, ◌++◌,
  append_assoc, append-nil, arith, Bytes, length, length-append, take, get_le, get_le-put_le,
  drop-append_add, take-append_eq, take_all, drop_all, All, All-append,
}
use little_big_files.Common.Result.{ok}
use little_big_files.Storage.Checksum.{checksum_ieee, checksum_ieee-lt}
use little_big_files.Storage.File.{write_at, write_at-within}
use little_big_files.Storage.SegmentIndex.{
  IndexEntry, encode_index_entry, encode_index_footer, decode_index_footer, decode_entries,
  entries_of, open_append, append, read_index_file, index_magic, cut_footer, open_at, read_with,
  read_entries,
}
use little_big_files.Storage.SegmentIndex.Entries.{
  IsEntry, entries_bytes, length-entries_bytes, entries_bytes-append, length-encode_index_entry,
  dict_word, decode_entries-entries_bytes,
}
use little_big_files.Storage.SegmentIndex.Footer.{
  length-encode_index_footer, decode_index_footer-encode_index_footer,
}

-- The file of these entries, whose last one stands at `last`.
abbrev pub index_file : List IndexEntry → ℕ → Bytes
index_file es last =
    entries_bytes es ++ encode_index_footer (length es) last (checksum_ieee (entries_bytes es))

write_at-end : (file bytes : Bytes) → write_at file (length file) bytes ≡ file ++ bytes
write_at-end file bytes =
    write_at-within file (length file) bytes (omega arith)
    ∙ rw
        (
          take_all (length file) file (omega arith),
          drop_all (length file + length bytes) file (omega arith),
          append-nil bytes,
        )
        refl

read_entries_lem :
    (es : List IndexEntry)
    → All IsEntry es
    → read_entries (entries_bytes es) (length es) (checksum_ieee (entries_bytes es)) ≡ ok es
unfolding read_entries
read_entries_lem es v = ground (arith, whole, count, decode_entries-entries_bytes es v)
  where
    whole : length (entries_bytes es) % 60 ≡ 0
    whole = omega (arith, length-entries_bytes es v)

    count : length (entries_bytes es) / 60 ≡ length es
    count = omega (arith, length-entries_bytes es v)

module _ (es : List IndexEntry) (last : ℕ) (fits : length es < 2 ^ 64) (lt : last < 2 ^ 64) where
  decode_index_footer-index_file :
      decode_index_footer (index_file es last)
      ≡ some (length es, last, checksum_ieee (entries_bytes es))
  decode_index_footer-index_file =
      decode_index_footer-encode_index_footer (length es) last (checksum_ieee (entries_bytes es))
        (entries_bytes es) fits lt (checksum_ieee-lt (entries_bytes es))

  cut-index_file : take (length (index_file es last) - 32) (index_file es last) ≡ entries_bytes es
  cut-index_file = take-append_eq _ (entries_bytes es) _ (
      omega (
        arith,
        length-append (entries_bytes es)
            (encode_index_footer (length es) last (checksum_ieee (entries_bytes es))),
        length-encode_index_footer (length es) last (checksum_ieee (entries_bytes es)),
      ))

  open_append-index_file :
      open_append (index_file es last) ≡ (entries_bytes es, length (entries_bytes es))
  unfolding open_append
  open_append-index_file =
      rw (decode_index_footer-index_file, open_at) (ap (λ b. (b, length b)) cut-index_file)

  -- ReadIndexFile reads the entries of such a file.
  pub read_index_file-index_file : All IsEntry es → read_index_file (index_file es last) ≡ ok es
  unfolding read_index_file
  read_index_file-index_file v =
      rw (decode_index_footer-index_file, read_with)
        (ap (λ b. read_entries b (length es) (checksum_ieee (entries_bytes es))) cut-index_file
          ∙ read_entries_lem es v)

footer_behind :
    (es : List IndexEntry) (n last : ℕ)
    → n ≡ length (entries_bytes es)
    → length (entries_bytes es) / 60 ≡ length es
    → write_at (entries_bytes es) n (
        encode_index_footer
          (length (entries_bytes es) / 60)
          last
          (checksum_ieee (entries_bytes es)))
      ≡ index_file es last
footer_behind es n last h k = rw (h, k) (write_at-end (entries_bytes es) _)

module _ (es : List IndexEntry) (e : IndexEntry) (v : IsEntry e) where
  -- An entry whose dictionary is no magic does not end in a footer.
  no_footer :
      e.dict_id ≢ index_magic
      → decode_index_footer (entries_bytes es ++ encode_index_entry e) ≡ none
  unfolding decode_index_footer
  no_footer h = ground (
    arith,
    length-append (entries_bytes es) (encode_index_entry e),
    length-encode_index_entry e v.4,
    drop-append_add (entries_bytes es) (encode_index_entry e) 56 (length (entries_bytes es) + 56)
        refl,
    ap get_le (dict_word e v),
    get_le-put_le 4 e.dict_id v.6,
  )

  entries_of-append :
      e.dict_id ≢ index_magic
      → entries_of (entries_bytes es ++ encode_index_entry e)
        ≡ entries_bytes es ++ encode_index_entry e
  unfolding entries_of
  entries_of-append h = rw (no_footer h, cut_footer) refl

  -- A file that is opened behind its entries is rewritten with one more entry.
  append-opened :
      All IsEntry es
      → e.dict_id ≢ index_magic
      → (bytes : Bytes) → open_append bytes ≡ (entries_bytes es, length (entries_bytes es))
      → append e bytes ≡ index_file (es ++ (e ∷ [])) e.offset
  unfolding append
  append-opened vs h bytes opened =
      rw
        (
          opened,
          write_at-end (entries_bytes es) (encode_index_entry e),
          entries_of-append h,
          sym one_more,
        )
        (footer_behind (es ++ (e ∷ [])) (length (entries_bytes es) + 60) e.offset long count)
    where
      one_more : entries_bytes (es ++ (e ∷ [])) ≡ entries_bytes es ++ encode_index_entry e
      one_more =
          entries_bytes-append es (e ∷ [])
          ∙ ap (λ b. entries_bytes es ++ b) (append-nil (encode_index_entry e))

      long : length (entries_bytes es) + 60 ≡ length (entries_bytes (es ++ (e ∷ [])))
      long = omega (
        arith,
        ap length one_more,
        length-append (entries_bytes es) (encode_index_entry e),
        length-encode_index_entry e v.4,
      )

      count : length (entries_bytes (es ++ (e ∷ []))) / 60 ≡ length (es ++ (e ∷ []))
      count = omega (arith, long, length-entries_bytes es vs, length-append es (e ∷ []))

-- Append of entry after entry.
abbrev pub append_all : List IndexEntry → Bytes → Bytes
append_all [] bytes = bytes
append_all (e ∷ es) bytes = append_all es (append e bytes)

-- An entry that is encoded right and whose dictionary is no magic of the index.
abbrev pub IsStored : IndexEntry → Type 0
IsStored e = IsEntry e × (e.dict_id ≢ index_magic)

stored-IsEntry : (es : List IndexEntry) → All IsStored es → All IsEntry es
stored-IsEntry [] v = tt
stored-IsEntry (e ∷ es) (v, vs) = (v.0, stored-IsEntry es vs)

append_all-index_file :
    (es fs : List IndexEntry) (last : ℕ)
    → All IsEntry es
    → last < 2 ^ 64
    → All IsStored fs
    → length (es ++ fs) < 2 ^ 64
    → read_index_file (append_all fs (index_file es last)) ≡ ok (es ++ fs)
append_all-index_file es [] last v lt w fits =
    rw (append-nil es)
      (read_index_file-index_file es last (omega (arith, length-append es [], fits)) lt v)
append_all-index_file es (f ∷ fs) last v lt (w, ws) fits =
    rw
      (
        append-opened es f w.0 v w.1 (index_file es last)
            (open_append-index_file es last (omega (arith, length-append es (f ∷ fs), fits)) lt),
        sym (append_assoc es (f ∷ []) fs),
      )
      (append_all-index_file (es ++ (f ∷ [])) fs f.offset
        (All-append IsEntry es (f ∷ []) v (w.0, tt)) w.0.0 ws
        (omega (arith, fits, ap length (append_assoc es (f ∷ []) fs))))

open_append-empty : open_append [] ≡ ([], 0)
unfolding open_append decode_index_footer open_at
open_append-empty = refl

-- ReadIndexFile returns the entries that were appended to an empty index file, one after the other,
-- in order; each of them fits its fields, and none has the index magic as its dictionary.
pub read_index_file-append_all :
    (es : List IndexEntry)
    → All IsStored es
    → length es < 2 ^ 64
    → read_index_file (append_all es []) ≡ ok es
unfolding read_index_file decode_index_footer read_with read_entries decode_entries
read_index_file-append_all [] v fits = refl
read_index_file-append_all (e ∷ es) (v, vs) fits =
    rw (append-opened [] e v.0 tt v.1 [] open_append-empty)
      (append_all-index_file (e ∷ []) es e.offset (v.0, tt) v.0.0 vs fits)

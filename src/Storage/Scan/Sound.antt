-- ===== src/Storage/Scan/Sound.antt =====
-- A scan keeps nothing but whole records, and as many of them as there are.
use little_big_files.Common.{
  ℕ, zero, suc, ◌+◌, ◌%◌, ◌^◌, ◌≤◌, ◌<◌, ◌≡◌, ◌≢◌, refl, ◌∙◌, sym, ap, subst, true, none, some,
  List, [], ◌∷◌, ◌++◌, append_assoc, arith, Bytes, AreBytes, put_le, get_le, put_le-get_le,
  get_le-lt, length, length-take, length-drop, take, drop, take-append-drop, drop-drop, All,
  All-take, All-drop, ◌⊎◌, inl, inr, Bool-cases, ltb, ltb→lt, ltb→le, ◌==◌, ==→eq, ◌-◌,
  Option-cases,
}
use little_big_files.Storage.Checksum.{record_checksum}
use little_big_files.Storage.Record.{
  footer_size, footer_magic, known_magic, encode_record, decode_record_header,
}
use little_big_files.Storage.Scan.{next_record, skip_footer, truncate_to_valid}
use little_big_files.Storage.Scan.Complete.{Entry, IsRecord, records, next_record-encode_record}
use little_big_files.Storage.Scan.Crash.{footer_at, skip_footer_lem, truncate_to_valid_lem}

-- A word of four bytes at the front.
word_front :
    (bytes : Bytes)
    → AreBytes bytes
    → 4 ≤ length bytes
    → bytes ≡ put_le 4 (get_le (take 4 bytes)) ++ drop 4 bytes
word_front bytes b h =
    sym (take-append-drop 4 bytes)
    ∙ ap (λ w. w ++ drop 4 bytes)
        (sym (put_le-get_le (take 4 bytes) (All-take _ 4 bytes b))
          ∙ ap (λ k. put_le k (get_le (take 4 bytes))) {x = length (take 4 bytes)} {y = 4}
              (omega (arith, length-take 4 bytes)))

-- The fields of the record at the front.
abbrev magic_of : Bytes → ℕ
magic_of bytes = get_le (take 4 bytes)

abbrev size_of : Bytes → ℕ
size_of bytes = get_le (take 4 (drop 4 bytes))

abbrev payload_of : Bytes → Bytes
payload_of bytes = take (size_of bytes) (drop 8 bytes)

abbrev trailer_of : Bytes → Bytes
trailer_of bytes = drop (size_of bytes) (drop 8 bytes)

module _ (bytes : Bytes) {e : ℕ} (found : next_record bytes 0 ≡ some e) where
  -- The tests that a round has passed.
  passed :
      (8 + size_of bytes + 4 ≤ length bytes)
      × (0 < size_of bytes)
      × (known_magic (magic_of bytes) ≡ true)
      × (record_checksum (payload_of bytes) ≡ get_le (take 4 (trailer_of bytes)))
      × (e ≡ 8 + size_of bytes + 4)
  unfolding next_record decode_record_header
  passed = ground (arith, drop-drop 8 (size_of bytes) bytes)

  length-payload : length (payload_of bytes) ≡ size_of bytes
  length-payload =
      omega (arith, passed, length-take (size_of bytes) (drop 8 bytes), length-drop 8 bytes)

module _ (bytes : Bytes) (b : AreBytes bytes) {e : ℕ} (found : next_record bytes 0 ≡ some e) where
  size-lt : size_of bytes < 2 ^ 32
  size-lt =
      subst (λ k. size_of bytes < 256 ^ k) {x = length (take 4 (drop 4 bytes))} {y = 4}
        (omega (arith, passed bytes found, length-take 4 (drop 4 bytes), length-drop 4 bytes))
        (get_le-lt (take 4 (drop 4 bytes)) (All-take _ 4 (drop 4 bytes) (All-drop _ 4 bytes b)))

  parsed-IsRecord : IsRecord (magic_of bytes, payload_of bytes)
  parsed-IsRecord = (
    (passed bytes found).2,
    omega (arith, passed bytes found, length-payload bytes found),
    omega (arith, length-payload bytes found, size-lt),
  )

  -- What was found is a record as the writers make it.
  parsed : bytes ≡ encode_record (magic_of bytes) (payload_of bytes) ++ drop 4 (trailer_of bytes)
  unfolding encode_record
  parsed = simp append_assoc (
      cc (
        word_front bytes b (omega (arith, passed bytes found)),
        word_front (drop 4 bytes) (All-drop _ 4 bytes b)
            (omega (arith, passed bytes found, length-drop 4 bytes)),
        drop-drop 4 4 bytes,
        sym (take-append-drop (size_of bytes) (drop 8 bytes)),
        word_front (trailer_of bytes)
            (All-drop _ (size_of bytes) (drop 8 bytes) (All-drop _ 8 bytes b))
            (omega (
              arith,
              passed bytes found,
              length-drop (size_of bytes) (drop 8 bytes),
              length-drop 8 bytes,
            )),
        size_fits,
        (passed bytes found).3,
      ))
    where
      size_fits : length (payload_of bytes) % 2 ^ 32 ≡ size_of bytes
      size_fits = omega (arith, length-payload bytes found, size-lt)

-- A byte string as records and a rest that begins with none.
abbrev pub Split : Bytes → Type 0
Split bytes =
    (es : List Entry) × (rest : Bytes) × All IsRecord es
    × (bytes ≡ records es ++ rest)
    × (next_record rest 0 ≡ none)

Split-cons :
    (bytes more : Bytes) (magic : ℕ) (payload : Bytes)
    → IsRecord (magic, payload)
    → bytes ≡ encode_record magic payload ++ more
    → Split more
    → Split bytes
Split-cons bytes more magic payload v eq (es, rest, vs, eq', stop) = (
  (magic, payload) ∷ es,
  rest,
  (v, vs),
  eq ∙ rw (append_assoc (encode_record magic payload) (records es) rest, eq'),
  stop,
)

take_valid : (fuel : ℕ) (bytes : Bytes) → AreBytes bytes → length bytes < fuel → Split bytes
take_valid zero bytes b h = absurd (omega arith)
take_valid (suc fuel) bytes b h = elim (Option-cases (next_record bytes 0)) [
  | inl stop ↦ ([], bytes, tt, refl, stop)
  | inr (e, found) ↦
      Split-cons bytes (drop 4 (trailer_of bytes)) (magic_of bytes) (payload_of bytes)
        (parsed-IsRecord bytes b found) (parsed bytes b found)
        (take_valid fuel (drop 4 (trailer_of bytes))
          (All-drop _ 4 (trailer_of bytes)
            (All-drop _ (size_of bytes) (drop 8 bytes) (All-drop _ 8 bytes b)))
          (omega (
            arith,
            passed bytes found,
            length-drop 4 (trailer_of bytes),
            length-drop (size_of bytes) (drop 8 bytes),
            length-drop 8 bytes,
          )))
]

-- No record stands at the front.
abbrev pub NoRecord : Bytes → Type 0
NoRecord rest =
    (magic : ℕ) (payload more : Bytes)
    → IsRecord (magic, payload)
    → rest ≢ encode_record magic payload ++ more

none-NoRecord : (rest : Bytes) → next_record rest 0 ≡ none → NoRecord rest
none-NoRecord rest stop magic payload more v e =
    cc (stop, ap (λ r. next_record r 0) e, next_record-encode_record magic payload more v)

-- The bytes begin with 32 bytes, the last four of which are the magic of a footer.
abbrev pub HasFooter : Bytes → Type 0
HasFooter rest = (32 ≤ length rest) × (get_le (take 4 (drop 28 rest)) ≡ footer_magic)

-- How much a scan keeps of what stands behind the records.
abbrev pub KeepsFooter : Bytes → ℕ → Type 0
KeepsFooter rest kept = (HasFooter rest × (kept ≡ 32)) ⊎ (¬ HasFooter rest × (kept ≡ 0))

skip_footer-KeepsFooter : (rest : Bytes) → KeepsFooter rest (skip_footer rest 0)
skip_footer-KeepsFooter rest = elim (Bool-cases (ltb (length rest - 0) footer_size)) [
  | inl short ↦ inr (
    (λ (long, _). absurd (omega (arith, long, ltb→lt (length rest - 0) footer_size short))),
    ground (arith, skip_footer_lem rest 0, short),
  )
  | inr long ↦ elim (Bool-cases (footer_at rest 0 == footer_magic)) [
    | inl is ↦ inl (
      (omega (arith, ltb→le (length rest - 0) footer_size long), ==→eq _ _ is),
      ground (arith, skip_footer_lem rest 0, long, is),
    )
    | inr differs ↦ inr (
      (λ (_, is). ground (arith, is, differs)),
      ground (arith, skip_footer_lem rest 0, long, differs),
    )
  ]
]

-- Any bytes are whole records and a rest that begins with no record. Of these a scan keeps the
-- records and, if the rest begins with 32 bytes that end in the magic of a footer, those, and nothing
-- else; it counts the records modulo 2 ^ 32.
pub truncate_to_valid_sound :
    (bytes : Bytes)
    → AreBytes bytes
    → (es : List Entry) × (rest : Bytes) × (kept : ℕ) × All IsRecord es
      × (bytes ≡ records es ++ rest)
      × NoRecord rest
      × KeepsFooter rest kept
      × (truncate_to_valid bytes
          ≡ (records es ++ take kept rest, length es % 2 ^ 32, length (records es) + kept))
truncate_to_valid_sound bytes b =
    let (es, rest, vs, eq, stop) = take_valid (suc (length bytes)) bytes b (omega arith) in
    (
      es,
      rest,
      skip_footer rest 0,
      vs,
      eq,
      none-NoRecord rest stop,
      skip_footer-KeepsFooter rest,
      ap truncate_to_valid eq ∙ truncate_to_valid_lem es rest (skip_footer rest 0) vs stop refl,
    )

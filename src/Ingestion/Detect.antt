-- ===== src/Ingestion/Detect.antt =====
-- internal/ingestion/detect.go: DetectPayload.
use little_big_files.Common.{
  ℕ, zero, suc, Bool, false, ◌&&◌, ◌||◌, [], ◌∷◌, Bytes, length, drop, ltb, leb, ◌==◌,
  if◌then◌else◌,
}
use little_big_files.Common.Result.{Result, ok, err}
use little_big_files.Common.Text.{has_prefix}
use little_big_files.Metadata.Tables.{PayloadType, zip, xml}

-- How many bytes the white space in front of a text takes: the UTF-8 of a character of
-- unicode.IsSpace, 0 without one.
unfoldable pub space_width : Bytes → ℕ
space_width [] = 0
space_width (b ∷ rest) =
    if leb 9 b && leb b 13 || b == 32
    then 1
    else if has_prefix (0x85 ∷ []) rest && b == 0xC2 || has_prefix (0xA0 ∷ []) rest && b == 0xC2
    then 2
    else if wide_space b rest
    then 3
    else 0
  where
    last_is_space : Bytes → Bool
    last_is_space [] = false
    last_is_space (c ∷ rest) = leb 0x80 c && leb c 0x8A || c == 0xA8 || c == 0xA9 || c == 0xAF

    wide_space : ℕ → Bytes → Bool
    wide_space b rest =
        b == 0xE1 && has_prefix (0x9A ∷ 0x80 ∷ []) rest
        || b == 0xE2 && has_prefix (0x80 ∷ []) rest && last_is_space (drop 1 rest)
        || b == 0xE2 && has_prefix (0x81 ∷ 0x9F ∷ []) rest
        || b == 0xE3 && has_prefix (0x80 ∷ 0x80 ∷ []) rest

-- TrimSpace, in front of the text: the prefixes that are looked for have no space at their end.
unfoldable pub trim_front : ℕ → Bytes → Bytes
trim_front zero text = text
trim_front (suc fuel) text =
    let width = space_width text in
    let rest = trim_front fuel (drop width text) in if width == 0 then text else rest

unfoldable pub trim_space : Bytes → Bytes
unfolding trim_front
trim_space text = trim_front (length text) text

-- DetectPayload
unfoldable pub detect_payload : Bytes → Result PayloadType
detect_payload text =
    let trimmed = trim_space text in
    if ltb (length text) 4
    then err "payload too small"
    else if has_prefix (b'P' ∷ b'K' ∷ []) text
    then ok zip
    else if has_prefix (b'<' ∷ b'?' ∷ b'x' ∷ b'm' ∷ b'l' ∷ []) trimmed
        || has_prefix (b'<' ∷ []) trimmed
    then ok xml
    else err "unsupported payload type"

-- ===== src/Ingestion/Errors.antt =====
-- internal/ingestion: the bodies that ProcessPackage refuses.
use little_big_files.Common.{
  ℕ, zero, suc, ◌<◌, ◌≤◌, ◌≡◌, ◌≢◌, ◌∙◌, refl, ap, Bool, true, false, Option, String, [], ◌∷◌, ◌++◌,
  Bytes, length, length-append, take, All, ltb, ◌==◌, ==→eq, ◌⊎◌, inl, inr, arith, if◌then◌else◌,
  lt→ltb, Bool-cases,
}
use little_big_files.Common.Result.{Result, ok, err}
use little_big_files.Common.Exec.{raise}
use little_big_files.Common.Text.{has_prefix}
use little_big_files.Metadata.Tables.{PayloadType}
use little_big_files.Ingestion.Detect.{space_width, trim_front, trim_space, detect_payload}
use little_big_files.Ingestion.Service.{Environment, Config, Service}
use little_big_files.Ingestion.Package.{process_package, process_payload}

-- White space of ASCII.
abbrev pub IsBlank : ℕ → Type 0
IsBlank b = ((9 ≤ b) × (b ≤ 13)) ⊎ (b ≡ 32)

-- After white space of ASCII the text ends, or goes on with a character of ASCII other than `<`.
abbrev pub IsOther : Bytes → Type 0
IsOther text =
    (blanks : Bytes) × (rest : Bytes) × All IsBlank blanks
    × (text ≡ blanks ++ rest)
    × ((rest ≡ [])
        ⊎ ((c : ℕ) × (more : Bytes) × (rest ≡ c ∷ more) × (c < 128) × (¬ IsBlank c) × (c ≢ b'<')))

space_width-blank : (b : ℕ) (rest : Bytes) → IsBlank b → space_width (b ∷ rest) ≡ 1
unfolding space_width
space_width-blank b rest h = ground (arith, h)

space_width-other : (c : ℕ) (rest : Bytes) → c < 128 → ¬ IsBlank c → space_width (c ∷ rest) ≡ 0
unfolding space_width
space_width-other c rest h k = ground (arith, h, k)

trim_front-blanks :
    (fuel : ℕ) (blanks rest : Bytes)
    → All IsBlank blanks
    → space_width rest ≡ 0
    → length blanks ≤ fuel
    → trim_front fuel (blanks ++ rest) ≡ rest
unfolding trim_front
trim_front-blanks zero [] rest h w f = refl
trim_front-blanks zero (b ∷ blanks) rest h w f = absurd (omega arith)
trim_front-blanks (suc fuel) [] rest h w f = rw w refl
trim_front-blanks (suc fuel) (b ∷ blanks) rest (p, h) w f =
    rw (space_width-blank b (blanks ++ rest) p)
      (trim_front-blanks fuel blanks rest h w (omega arith))

no_prefix :
    (text : Bytes) → take 2 text ≢ b'P' ∷ b'K' ∷ [] → has_prefix (b'P' ∷ b'K' ∷ []) text ≡ false
unfolding has_prefix
no_prefix [] h = refl
no_prefix (a ∷ []) h = ground arith
no_prefix (a ∷ b ∷ text) h = elim (Bool-cases (b'P' == a)) [
  | inr other ↦ rw other refl
  | inl p ↦ elim (Bool-cases (b'K' == b)) [
    | inr other ↦ rw (p, other) refl
    | inl k ↦ absurd (h (cc (==→eq b'P' a p, ==→eq b'K' b k)))
  ]
]

-- What follows the white space is no text that begins with `<`.
no_mark :
    (rest : Bytes)
    → (rest ≡ [])
      ⊎ ((c : ℕ) × (more : Bytes) × (rest ≡ c ∷ more) × (c < 128) × (¬ IsBlank c) × (c ≢ b'<'))
    → (space_width rest ≡ 0)
      × (has_prefix (b'<' ∷ b'?' ∷ b'x' ∷ b'm' ∷ b'l' ∷ []) rest ≡ false)
      × (has_prefix (b'<' ∷ []) rest ≡ false)
unfolding has_prefix space_width
no_mark rest (inl e) = rw e (refl, refl, refl)
no_mark rest (inr (c, more, e, ascii, text, other)) =
    rw e (space_width-other c more ascii text, ground (arith, other), ground (arith, other))

-- DetectPayload fails on what is shorter than four bytes, and on a text of another kind.
pub detect_payload-refused :
    (text : Bytes)
    → (length text < 4) ⊎ ((take 2 text ≢ b'P' ∷ b'K' ∷ []) × IsOther text)
    → (e : String) × (detect_payload text ≡ err e)
unfolding detect_payload trim_space
detect_payload-refused text (inl short) =
    ("payload too small", rw (lt→ltb (length text) 4 short) refl)
detect_payload-refused text (inr (no_zip, (blanks, rest, h, e, end))) =
    elim (Bool-cases (ltb (length text) 4)) [
      | inl short ↦ ("payload too small", rw short refl)
      | inr long ↦ (
        "unsupported payload type",
        rw (long, no_prefix text no_zip, trimmed, (no_mark rest end).1, (no_mark rest end).2) refl,
      )
    ]
  where
    trimmed : trim_front (length text) text ≡ rest
    trimmed =
        ap (trim_front (length text)) e
        ∙ trim_front-blanks (length text) blanks rest h (no_mark rest end).0
            (omega (arith, ap length e, length-append blanks rest))

-- ProcessPackage refuses a body that is shorter than four bytes, is longer than the configured limit,
-- or does not begin with PK and, behind any white space of ASCII, ends or goes on with a character of
-- ASCII other than `<`; and it leaves the service as it was.
pub process_package-refused :
    (E : Environment) (config : Config) (supplier_id : ℕ) (body : Bytes) (filename : Option Bytes)
    (s : Service E)
    → (length body < 4)
      ⊎ (config.max_body_bytes < length body)
      ⊎ ((take 2 body ≢ b'P' ∷ b'K' ∷ []) × IsOther body)
    → (m : String) × (process_package E config supplier_id body filename s ≡ (err m, s))
unfolding process_package process_payload
process_package-refused E config supplier_id body filename s h =
    go (length body == 0) (ltb config.max_body_bytes (length body)) (detect_payload body) (tests h)
  where
    tests :
        (length body < 4)
          ⊎ (config.max_body_bytes < length body)
          ⊎ ((take 2 body ≢ b'P' ∷ b'K' ∷ []) × IsOther body)
        → (ltb config.max_body_bytes (length body) ≡ true)
          ⊎ ((e : String) × (detect_payload body ≡ err e))
    tests (inl h) = inr (detect_payload-refused body (inl h))
    tests (inr (inl h)) = inl (lt→ltb config.max_body_bytes (length body) h)
    tests (inr (inr h)) = inr (detect_payload-refused body (inr h))

    go :
        (empty large : Bool) (r : Result PayloadType)
        → (large ≡ true) ⊎ ((e : String) × (r ≡ err e))
        → (m : String) × ((if empty
                then raise "empty body"
                else if large
                then raise "payload too large"
                else process_payload E config supplier_id body filename r)
              s
            ≡ (err m, s))
    go true large r h = ("empty body", refl)
    go false true r h = ("payload too large", refl)
    go false false (err e) h = (e, refl)
    go false false (ok p) (inl h) = absurd (cc h)
    go false false (ok p) (inr (e, h)) = absurd (cc h)

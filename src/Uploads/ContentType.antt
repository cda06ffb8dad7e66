-- ===== src/Uploads/ContentType.antt =====
-- `sanitizeCT` of backend/internal/api/handlers_uploads.go, with the functions of package strings that
-- it calls, on the code points of a text.
use Prim.Native.Char.{code}
use cc_005_offline_inspectio.Base.{
  ℕ, String, Bool, true, false, not, ◌||◌, ◌&&◌, ◌≡◌, ◌↔◌, refl, inl, inr, leb, ◌==◌, if◌then◌else◌,
  Bool-cases, arith,
}

-- unicode.IsSpace
unfoldable pub is_space : ℕ → Bool
is_space c =
    (leb 9 c && leb c 13)
    || c == 32
    || c == 133
    || c == 160
    || c == 5760
    || (leb 8192 c && leb c 8202)
    || c == 8232
    || c == 8233
    || c == 8239
    || c == 8287
    || c == 12288

unfoldable pub trim_left : String → String
trim_left String.[] = String.[]
trim_left (String.◌∷◌ c s) = if is_space (code c) then trim_left s else String.◌∷◌ c s

unfoldable pub is_empty : String → Bool
is_empty String.[] = true
is_empty (String.◌∷◌ c s) = false

unfoldable pub trim_right : String → String
trim_right String.[] = String.[]
trim_right (String.◌∷◌ c s) =
    let rest = trim_right s in
    if is_empty rest && is_space (code c) then String.[] else String.◌∷◌ c rest

-- strings.ContainsAny(s, "\r\n")
unfoldable pub has_newline : String → Bool
has_newline String.[] = false
has_newline (String.◌∷◌ c s) = code c == 10 || code c == 13 || has_newline s

unfoldable pub trim_space : String → String
trim_space s = trim_right (trim_left s)

unfoldable pub sanitize : String → String
sanitize ct =
    let s = trim_space ct in if is_empty s || has_newline s then "application/octet-stream" else s

-- no space at the start, and none at the end
pub starts_clean : String → Bool
starts_clean String.[] = true
starts_clean (String.◌∷◌ c s) = not (is_space (code c))

pub ends_clean : String → Bool
ends_clean String.[] = true
ends_clean (String.◌∷◌ c s) =
    let rest = ends_clean s in if is_empty s then not (is_space (code c)) else rest

trim_left-starts_clean : (s : String) → starts_clean (trim_left s) ≡ true
unfolding trim_left starts_clean
trim_left-starts_clean String.[] = refl
trim_left-starts_clean (String.◌∷◌ c s) = elim (Bool-cases (is_space (code c))) [
  | inl e ↦ rw e (trim_left-starts_clean s)
  | inr e ↦ rw (e, e)
]

trim_left_clean : (s : String) → starts_clean s ≡ true → trim_left s ≡ s
unfolding trim_left starts_clean
trim_left_clean String.[] h = refl
trim_left_clean (String.◌∷◌ c s) h = elim (Bool-cases (is_space (code c))) [
  | inl e ↦ cc (rw e at h)
  | inr e ↦ rw e
]

trim_right-ends_clean : (s : String) → ends_clean (trim_right s) ≡ true
unfolding trim_right ends_clean
trim_right-ends_clean String.[] = refl
trim_right-ends_clean (String.◌∷◌ c s) =
    elim (Bool-cases (is_empty (trim_right s) && is_space (code c))) [
      | inl gone ↦ rw gone
      | inr kept ↦ rw kept (elim (Bool-cases (is_empty (trim_right s))) [
        | inl e ↦ rw e (ground arith)
        | inr e ↦ rw e (trim_right-ends_clean s)
      ])
    ]

trim_right-starts_clean : (s : String) → starts_clean s ≡ true → starts_clean (trim_right s) ≡ true
unfolding trim_right starts_clean
trim_right-starts_clean String.[] h = refl
trim_right-starts_clean (String.◌∷◌ c s) h = ground arith

empty_text : (s : String) → is_empty s ≡ true → s ≡ String.[]
unfolding is_empty
empty_text String.[] h = refl
empty_text (String.◌∷◌ c s) h = cc h

trim_right_clean : (s : String) → ends_clean s ≡ true → trim_right s ≡ s
unfolding trim_right ends_clean is_empty
trim_right_clean String.[] h = refl
trim_right_clean (String.◌∷◌ c s) h = elim (Bool-cases (is_empty s)) [
  | inl e ↦
      let clear : not (is_space (code c)) ≡ true = rw e at h in rw (empty_text s e) (ground arith)
  | inr e ↦ rw (trim_right_clean s (rw e at h), e)
]

abbrev octets : String
octets = "application/octet-stream"

-- a text of one line, with no space at its ends
abbrev pub IsTrimmedLine : String → Type 0
IsTrimmedLine s =
    (is_empty s ≡ false) × (has_newline s ≡ false) × (starts_clean s ≡ true) × (ends_clean s ≡ true)

octets-IsTrimmedLine : IsTrimmedLine octets
unfolding is_empty has_newline starts_clean ends_clean is_space
octets-IsTrimmedLine = (refl, refl, refl, refl)

-- Whatever content type a client names, the one that is stored
-- is
-- not empty, has no line break and no space at its ends.
pub sanitize-IsTrimmedLine : (ct : String) → IsTrimmedLine (sanitize ct)
unfolding sanitize trim_space
sanitize-IsTrimmedLine ct =
    let t = trim_right (trim_left ct) in
    elim (Bool-cases (is_empty t || has_newline t)) [
      | inl bad ↦ rw bad octets-IsTrimmedLine
      | inr good ↦ rw good (
        ground arith,
        ground arith,
        trim_right-starts_clean (trim_left ct) (trim_left-starts_clean ct),
        trim_right-ends_clean (trim_left ct),
      )
    ]

-- A content type is left as it is exactly if it is not empty, has no line break and no space at its
-- ends.
pub sanitize_iff : (ct : String) → (sanitize ct ≡ ct) ↔ IsTrimmedLine ct
unfolding sanitize trim_space
sanitize_iff ct = (
  (λ h. rw h at (sanitize-IsTrimmedLine ct)),
  λ h.
      let (filled, one_line, start, end) = h in
      rw (trim_left_clean ct start, trim_right_clean ct end, filled, one_line),
)

-- ===== src/Invalidation/Matcher/WellFormed.antt =====
-- The character rules of invalidation paths as a grammar of byte values, and the loop of
-- `validateChars` against it.
use cf_local.Prelude.{
  ℕ, ◌+◌, ◌≤◌, ◌≡◌, refl, ◌∙◌, ◌≢◌, ◌⊎◌, inl, inr, none, [], ◌∷◌, arith, ◌==◌, ==_iff, Bool-cases,
  Bytes,
}
use cf_local.Invalidation.Matcher.{is_rfc1738_unsafe, is_hex, escape_error, byte_error, scan}

-- A byte that may stand for itself: a control character; or a visible character of ASCII but `"`,
-- `%`, `<`, `>`, `[`, `\`, `]`, `^`, the backquote, `{`, `|`, `}` and `~`.
abbrev pub IsPlain : ℕ → Type 0
IsPlain c =
    (c ≤ 31)
    ⊎ (c ≡ 127)
    ⊎ (c ≡ b'!')
    ⊎ ((35 ≤ c) × (c ≤ 36))
    ⊎ ((38 ≤ c) × (c ≤ 59))
    ⊎ (c ≡ b'=')
    ⊎ ((63 ≤ c) × (c ≤ 90))
    ⊎ (c ≡ b'_')
    ⊎ ((97 ≤ c) × (c ≤ 122))

-- A digit, or a letter from A to F in either case.
abbrev pub IsDigit : ℕ → Type 0
IsDigit h = ((48 ≤ h) × (h ≤ 57)) ⊎ ((65 ≤ h) × (h ≤ 70)) ⊎ ((97 ≤ h) × (h ≤ 102))

-- Two digits that may follow a `%`: not those of `~`.
pub record IsEscape (h1 h2 : ℕ) : Type 0 where
  pub high : IsDigit h1
  pub low : IsDigit h2
  pub no_tilde : h1 ≡ 55 → (h2 ≢ 69) × (h2 ≢ 101)

-- A text of plain bytes and of escapes.
pub data WellFormed : Bytes → Type 0 where
  done : WellFormed []
  plain : {c : ℕ} {rest : Bytes} → IsPlain c → WellFormed rest → WellFormed (c ∷ rest)
  escape :
      {c h1 h2 : ℕ} {rest : Bytes}
      → c ≡ b'%'
      → IsEscape h1 h2
      → WellFormed rest
      → WellFormed (c ∷ h1 ∷ h2 ∷ rest)

byte_error-IsPlain : (i c : ℕ) (rest : Bytes) → IsPlain c → byte_error i c rest ≡ none
unfolding byte_error is_rfc1738_unsafe
byte_error-IsPlain i c rest h = ground arith

byte_error-IsEscape :
    (i h1 h2 : ℕ) (rest : Bytes) → IsEscape h1 h2 → byte_error i b'%' (h1 ∷ h2 ∷ rest) ≡ none
unfolding byte_error escape_error is_rfc1738_unsafe is_hex
byte_error-IsEscape i h1 h2 rest h = ground arith

pub scan_plain : (i c : ℕ) (rest : Bytes) → IsPlain c → scan 0 i (c ∷ rest) ≡ scan 0 (i + 1) rest
unfolding scan
scan_plain i c rest h = ground (arith, byte_error-IsPlain i c rest h)

pub scan_escape :
    (i h1 h2 : ℕ) (rest : Bytes)
    → IsEscape h1 h2
    → scan 0 i (b'%' ∷ h1 ∷ h2 ∷ rest) ≡ scan 0 (i + 1 + 1 + 1) rest
unfolding scan
scan_escape i h1 h2 rest h = rw (byte_error-IsEscape i h1 h2 rest h, scan)

-- Every well-formed text passes.
pub scan-WellFormed : {s : Bytes} (i : ℕ) → WellFormed s → scan 0 i s ≡ none
scan-WellFormed i done = unfold scan in refl
scan-WellFormed i (plain {c} {rest} h w) = scan_plain i c rest h ∙ scan-WellFormed (i + 1) w
scan-WellFormed i (escape {c} {h1} {h2} {rest} e h w) =
    rw e (scan_escape i h1 h2 rest h ∙ scan-WellFormed (i + 1 + 1 + 1) w)

-- One accepted round of the loop, read backwards.
pub data Round (c : ℕ) : Bytes → Type 0 where
  one : {rest : Bytes} → IsPlain c → Round c rest
  three : {h1 h2 : ℕ} {rest : Bytes} → c ≡ b'%' → IsEscape h1 h2 → Round c (h1 ∷ h2 ∷ rest)

escape_error-IsEscape :
    (i h1 h2 : ℕ) (rest : Bytes) → escape_error i (h1 ∷ h2 ∷ rest) ≡ none → IsEscape h1 h2
unfolding escape_error is_hex
escape_error-IsEscape i h1 h2 rest e = ground arith

byte_error-cases :
    (i c : ℕ) (rest : Bytes)
    → byte_error i c rest ≡ none
    → IsPlain c ⊎ ((c ≡ b'%') × (escape_error i rest ≡ none))
unfolding byte_error is_rfc1738_unsafe
byte_error-cases i c rest e = elim (Bool-cases (c == b'%')) [
  | inl p ↦ inr ((==_iff _ _).0 p, ground arith)
  | inr n ↦ inl (ground arith)
]

pub Round-of_none : (i c : ℕ) (rest : Bytes) → byte_error i c rest ≡ none → Round c rest
Round-of_none i c rest e = go rest (byte_error-cases i c rest e)
  where
    go : (r : Bytes) → IsPlain c ⊎ ((c ≡ b'%') × (escape_error i r ≡ none)) → Round c r
    go r (inl p) = one p
    go (h1 ∷ h2 ∷ r) (inr (p, q)) = three p (escape_error-IsEscape i h1 h2 r q)
    go (h1 ∷ []) (inr (p, q)) = absurd (unfold escape_error in cc q)
    go [] (inr (p, q)) = absurd (unfold escape_error in cc q)

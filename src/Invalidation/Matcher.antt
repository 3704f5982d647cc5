-- ===== src/Invalidation/Matcher.antt =====
-- internal/invalidation/matcher.go: invalidation path patterns. The loop of `validateChars` counts
-- `skip` down where the source adds 2 to its index behind an escape.
pub mod WellFormed
pub mod Sound
pub mod Denotes
use cf_local.Prelude.{
  ℕ, zero, suc, ◌+◌, ◌*◌, ◌/◌, ◌%◌, ◌^◌, ◌<◌, Bool, true, false, not, ◌&&◌, ◌||◌, Option, none,
  some, [], ◌∷◌, ltb, ◌==◌, if◌then◌else◌, within, length, Bytes, equal, has_prefix, Result, ok,
  err, ◌>>=◌, ◌>>◌, refuse_if,
}

abbrev pub max_path_len : ℕ
max_path_len = 4000

pub record Pattern : Type 0 where
  pub raw : Bytes
  pub literal : Bytes
  pub is_wildcard : Bool

-- The error values, with the offsets and bytes that their messages name.
pub data PathError : Type 0 where
  empty no_slash tilde encoded_tilde : PathError
  too_long : ℕ → PathError
  non_ascii incomplete_escape invalid_escape : ℕ → PathError
  unsafe_char : ℕ → ℕ → PathError

unfoldable pub is_rfc1738_unsafe : ℕ → Bool
is_rfc1738_unsafe c =
    c == b' '
    || c == b'<'
    || c == b'>'
    || c == 34
    || c == b'{'
    || c == b'}'
    || c == b'|'
    || c == 92
    || c == b'^'
    || c == b'`'
    || c == b'['
    || c == b']'

unfoldable pub is_hex : ℕ → Bool
is_hex c = within b'0' b'9' c || within b'a' b'f' c || within b'A' b'F' c

-- The escape behind a `%` at offset `i`.
unfoldable pub escape_error : ℕ → Bytes → Option PathError
escape_error i (h1 ∷ h2 ∷ rest) =
    if not (is_hex h1) || not (is_hex h2)
    then some (invalid_escape i)
    else if h1 == b'7' && (h2 == b'E' || h2 == b'e')
    then some encoded_tilde
    else none
escape_error i _ = some (incomplete_escape i)

-- One round of the loop, at byte `c` with `rest` behind it.
unfoldable pub byte_error : ℕ → ℕ → Bytes → Option PathError
byte_error i c rest =
    if ltb 127 c
    then some (non_ascii i)
    else if c == b'~'
    then some tilde
    else if is_rfc1738_unsafe c
    then some (unsafe_char c i)
    else if not (c == b'%')
    then none
    else escape_error i rest

unfoldable pub scan : ℕ → ℕ → Bytes → Option PathError
scan skip i [] = none
scan (suc skip) i (c ∷ rest) = scan skip (i + 1) rest
scan zero i (c ∷ rest) = elim (byte_error i c rest) [
  | some e ↦ some e
  | none ↦ scan (if c == b'%' then 2 else 0) (i + 1) rest
]

unfoldable pub validate_chars : Bytes → Option PathError
validate_chars = scan 0 0

-- `strings.HasSuffix(path, "*")`
unfoldable pub ends_in_star : Bytes → Bool
ends_in_star [] = false
ends_in_star (c ∷ []) = c == b'*'
ends_in_star (c ∷ d ∷ rest) = ends_in_star (d ∷ rest)

-- All but the last byte: `strings.TrimSuffix(path, "*")` where the suffix is there.
unfoldable pub trim_last : Bytes → Bytes
trim_last [] = []
trim_last (c ∷ []) = []
trim_last (c ∷ d ∷ rest) = c ∷ trim_last (d ∷ rest)

-- The pattern of a path that passed the checks.
unfoldable pub make_pattern : Bytes → Pattern
make_pattern path =
    if ends_in_star path
    then record { raw = path; literal = trim_last path; is_wildcard = true }
    else record { raw = path; literal = path; is_wildcard = false }

abbrev check_chars : Option PathError → Result PathError (Unit {0})
check_chars none = ok tt
check_chars (some e) = err e

unfoldable pub parse_pattern : Bytes → Result PathError Pattern
parse_pattern path = do
  refuse_if (length path == 0) empty
  refuse_if (ltb max_path_len (length path)) (too_long (length path))
  refuse_if (not (has_prefix (b'/' ∷ []) path)) no_slash
  check_chars (validate_chars path)
  ok (make_pattern path)

unfoldable pub matches : Pattern → Bytes → Bool
matches p urlpath = if p.is_wildcard then has_prefix p.literal urlpath else equal urlpath p.literal

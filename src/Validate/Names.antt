-- ===== src/Validate/Names.antt =====
-- internal/api/validate/policy.go: the names that a policy may carry. Names go into the nginx
-- configuration, so the characters are an allow-list.
use cf_local.Prelude.{
  ℕ, ◌≤◌, ◌≡◌, refl, ◌≢◌, ◌↔◌, ◌⊎◌, Bool, true, false, ◌||◌, [], ◌∷◌, arith, ◌==◌, if◌then◌else◌,
  within, All, all, Bytes, equal, equal_iff,
}
use cf_local.Prelude.Runes.{runes, all-runes}

unfoldable pub is_safe_name_rune : ℕ → Bool
is_safe_name_rune r =
    if within b'A' b'Z' r
    then true
    else if within b'a' b'z' r
    then true
    else if within b'0' b'9' r
    then true
    else r == b'.' || r == b'_' || r == b'-'

unfoldable pub is_safe_name : Bytes → Bool
is_safe_name s = if equal s [] then false else all is_safe_name_rune (runes s)

unfoldable pub is_safe_item_name : Bytes → Bool
is_safe_item_name s = if equal s [] then false else all is_safe_name_rune (runes s)

-- One round of the loop of `isHTTPTokenName`.
unfoldable pub is_token_rune : ℕ → Bool
is_token_rune r = within b'A' b'Z' r || within b'a' b'z' r || within b'0' b'9' r || r == b'-'

unfoldable pub is_http_token_name : Bytes → Bool
is_http_token_name s = if equal s [] then false else all is_token_rune (runes s)

-- The bytes a header name may hold, and with `.` and `_` those of the other names.
abbrev pub IsTokenByte : ℕ → Type 0
IsTokenByte c = (65 ≤ c) × (c ≤ 90) ⊎ (97 ≤ c) × (c ≤ 122) ⊎ (48 ≤ c) × (c ≤ 57) ⊎ (c ≡ 45)

abbrev pub IsSafeByte : ℕ → Type 0
IsSafeByte c = IsTokenByte c ⊎ (c ≡ 46) ⊎ (c ≡ 95)

abbrev pub IsSafeName : Bytes → Type 0
IsSafeName s = (s ≢ []) × All IsSafeByte s

abbrev pub IsTokenName : Bytes → Type 0
IsTokenName s = (s ≢ []) × All IsTokenByte s

safe_rune_iff : (c : ℕ) → (is_safe_name_rune c ≡ true) ↔ IsSafeByte c
unfolding is_safe_name_rune
safe_rune_iff c = ground arith

token_rune_iff : (c : ℕ) → (is_token_rune c ≡ true) ↔ IsTokenByte c
unfolding is_token_rune
token_rune_iff c = ground arith

safe_rune-high : (c : ℕ) → 128 ≤ c → is_safe_name_rune c ≡ false
unfolding is_safe_name_rune
safe_rune-high c h = ground arith

token_rune-high : (c : ℕ) → 128 ≤ c → is_token_rune c ≡ false
unfolding is_token_rune
token_rune-high c h = ground arith

all_iff :
    (p : ℕ → Bool) (P : ℕ → Type 0)
    → ((c : ℕ) → (p c ≡ true) ↔ P c)
    → (s : Bytes) → (all p s ≡ true) ↔ All P s
all_iff p P h [] = (λ e. tt, λ a. refl)
all_iff p P h (c ∷ s) = ground (arith, h c, all_iff p P h s)

-- A non-empty string all of whose runes pass, read byte by byte.
all_of_iff :
    (p : ℕ → Bool) (P : ℕ → Type 0)
    → ((c : ℕ) → (p c ≡ true) ↔ P c)
    → ((c : ℕ) → 128 ≤ c → p c ≡ false)
    → (s : Bytes) → ((if equal s [] then false else all p (runes s)) ≡ true) ↔ (s ≢ []) × All P s
all_of_iff p P h high s = rw (all-runes p high s) (ground (arith, all_iff p P h s, equal_iff s []))

-- `isSafeName` works on runes; what it accepts are the non-empty strings of the allow-list's bytes.
pub is_safe_name_iff : (s : Bytes) → (is_safe_name s ≡ true) ↔ IsSafeName s
unfolding is_safe_name
is_safe_name_iff s = all_of_iff is_safe_name_rune IsSafeByte safe_rune_iff safe_rune-high s

pub is_safe_item_name_iff : (s : Bytes) → (is_safe_item_name s ≡ true) ↔ IsSafeName s
unfolding is_safe_item_name
is_safe_item_name_iff s = all_of_iff is_safe_name_rune IsSafeByte safe_rune_iff safe_rune-high s

pub is_http_token_name_iff : (s : Bytes) → (is_http_token_name s ≡ true) ↔ IsTokenName s
unfolding is_http_token_name
is_http_token_name_iff s = all_of_iff is_token_rune IsTokenByte token_rune_iff token_rune-high s

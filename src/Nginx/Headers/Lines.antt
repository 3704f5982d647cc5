-- ===== src/Nginx/Headers/Lines.antt =====
-- internal/nginx/response_headers.go: the bytes of names, values and lines.
use cf_local.Prelude.{
  ℕ, ◌≤◌, ◌≡◌, refl, ◌≢◌, ◌↔◌, Bool, true, false, List, [], ◌∷◌, ◌++◌, arith, All, all, any, Bytes,
  codes,
}
use cf_local.Prelude.Runes.{runes, any-runes}
use cf_local.Validate.Names.{IsTokenName, is_http_token_name, is_http_token_name_iff, is_token_rune}
use cf_local.Nginx.Headers.{
  is_header_name_rune, is_valid_header_name, is_value_breaker, is_valid_header_value,
}

-- A byte that neither ends the quoted string nor the line.
abbrev pub IsValueByte : ℕ → Type 0
IsValueByte c = (c ≢ 10) × (c ≢ 13) × (c ≢ 0) × (c ≢ 34) × (c ≢ 92)

-- A whole directive: eight blanks, a header's name, for one kind a quoted value, and the end.
pub data IsDirective : Bytes → Type 0 where
  hide :
      (name : Bytes)
      → IsTokenName name
      → IsDirective (codes "        proxy_hide_header " ++ name ++ codes ";")
  add :
      (name value : Bytes)
      → IsTokenName name
      → All IsValueByte value
      → IsDirective
          (codes "        add_header " ++ name ++ codes " \"" ++ value ++ codes "\" always;")

name_rune_lem : (r : ℕ) → is_header_name_rune r ≡ is_token_rune r
unfolding is_header_name_rune is_token_rune
name_rune_lem r = ground arith

all-eq : (p q : ℕ → Bool) → ((c : ℕ) → p c ≡ q c) → (s : List ℕ) → all p s ≡ all q s
all-eq p q h [] = refl
all-eq p q h (c ∷ s) = ground (arith, h c, all-eq p q h s)

-- The renderer keeps exactly the header names that the API accepts.
pub is_valid_header_name-is_http_token_name :
    (s : Bytes) → is_valid_header_name s ≡ is_http_token_name s
unfolding is_valid_header_name is_http_token_name
is_valid_header_name-is_http_token_name s =
    ground (arith, all-eq is_header_name_rune is_token_rune name_rune_lem (runes s))

pub name_sound : (s : Bytes) → is_valid_header_name s ≡ true → IsTokenName s
name_sound s h = ground (arith, is_valid_header_name-is_http_token_name s, is_http_token_name_iff s)

breaker-high : (c : ℕ) → 128 ≤ c → is_value_breaker c ≡ false
unfolding is_value_breaker
breaker-high c h = ground arith

IsValueByte-iff : (c : ℕ) → (is_value_breaker c ≡ false) ↔ IsValueByte c
unfolding is_value_breaker
IsValueByte-iff c = ground arith

any_iff : (s : Bytes) → (any is_value_breaker s ≡ false) ↔ All IsValueByte s
any_iff [] = (λ e. tt, λ a. refl)
any_iff (c ∷ s) = ground (arith, IsValueByte-iff c, any_iff s)

pub is_valid_header_value_iff : (s : Bytes) → (is_valid_header_value s ≡ true) ↔ All IsValueByte s
unfolding is_valid_header_value
is_valid_header_value_iff s =
    rw (any-runes is_value_breaker breaker-high s) (ground (arith, any_iff s))

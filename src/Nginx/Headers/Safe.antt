-- ===== src/Nginx/Headers/Safe.antt =====
-- internal/nginx/response_headers.go: what the lines can hold.
use cf_local.Prelude.{
  ◌+◌, ◌≡◌, refl, inl, inr, Bool, true, false, not, ◌||◌, Option, none, some, List, [], ◌∷◌, arith,
  if◌then◌else◌, Bool-cases, All, all, Bytes, codes, equal, Dict, lookup, All-append,
}
use cf_local.Prelude.Int.{ℤ, pos, negsuc}
use cf_local.Prelude.Runes.{runes}
use cf_local.Prelude.Format.{decimal, decimal_int, decimal-all, is_digit}
use cf_local.Validate.Names.{IsTokenName}
use cf_local.Nginx.Headers.{
  CustomHeader, CorsConfig, HeadersPolicy, deref_string, deref_bool, is_header_name_rune,
  is_valid_header_name, is_valid_header_value, hide_line, add_line, header_lines,
  custom_header_lines, custom_headers_lines, append_custom_header_directives, append_cors_directive,
  join_list, append_checked, append_origin, append_joined, append_credentials, append_max_age,
  append_cors_directives, response_headers_to_directives, lookup_response_headers,
}
use cf_local.Nginx.Headers.Lines.{
  IsValueByte, IsDirective, hide, add, name_sound, is_valid_header_value_iff,
}

header_lines_safe :
    (override : Bool) (name value : Bytes)
    → IsTokenName name
    → All IsValueByte value
    → All IsDirective (header_lines override name value)
unfolding header_lines hide_line add_line
header_lines_safe true name value n v = (hide name n, (add name value n v, tt))
header_lines_safe false name value n v = (add name value n v, tt)

custom_header_lines_safe : (h : CustomHeader) → All IsDirective (custom_header_lines h)
unfolding custom_header_lines
custom_header_lines_safe h =
    go (is_valid_header_name (deref_string h.header)) refl
      (is_valid_header_value (deref_string h.value)) refl
  where
    go :
        (n : Bool)
        → is_valid_header_name (deref_string h.header) ≡ n
        → (v : Bool) → is_valid_header_value (deref_string h.value) ≡ v
        → All IsDirective (
            if not n || not v
            then []
            else header_lines
                (deref_bool h.override)
                (deref_string h.header)
                (deref_string h.value))
    go false e v f = tt
    go true e false f = tt
    go true e true f =
        header_lines_safe (deref_bool h.override) (deref_string h.header) (deref_string h.value)
          (name_sound (deref_string h.header) e)
          ((is_valid_header_value_iff (deref_string h.value)).0 f)

custom_headers_lines_safe :
    (items : List CustomHeader) → All IsDirective (custom_headers_lines items)
unfolding custom_headers_lines
custom_headers_lines_safe [] = tt
custom_headers_lines_safe (h ∷ items) =
    All-append IsDirective (custom_header_lines h) (custom_headers_lines items)
      (custom_header_lines_safe h) (custom_headers_lines_safe items)

append_cors_directive_safe :
    (out : List Bytes) (override : Bool) (name value : Bytes)
    → All IsDirective out
    → is_valid_header_name name ≡ true
    → All IsValueByte value
    → All IsDirective (append_cors_directive out override name value)
unfolding append_cors_directive
append_cors_directive_safe out override name value o n v =
    All-append IsDirective out (header_lines override name value) o
      (header_lines_safe override name value (name_sound name n) v)

append_checked_safe :
    (out : List Bytes) (override : Bool) (name value : Bytes)
    → All IsDirective out
    → is_valid_header_name name ≡ true
    → All IsDirective (append_checked out override name value)
unfolding append_checked
append_checked_safe out override name value o n = elim (Bool-cases (is_valid_header_value value)) [
  | inl e ↦ rw e (
      append_cors_directive_safe out override name value o n
        ((is_valid_header_value_iff value).0 e))
  | inr e ↦ rw e o
]

append_origin_safe :
    (override : Bool) (origins : Option (List Bytes)) (out : List Bytes)
    → All IsDirective out
    → All IsDirective (append_origin override origins out)
unfolding append_origin is_valid_header_name runes is_header_name_rune equal
append_origin_safe override none out o = o
append_origin_safe override (some []) out o = o
append_origin_safe override (some (first ∷ _)) out o =
    append_checked_safe out override (codes "Access-Control-Allow-Origin") first o refl

append_joined_safe :
    (name : Bytes) (override : Bool) (items : Option (List Bytes)) (out : List Bytes)
    → is_valid_header_name name ≡ true
    → All IsDirective out
    → All IsDirective (append_joined name override items out)
unfolding append_joined
append_joined_safe name override none out n o = o
append_joined_safe name override (some []) out n o = o
append_joined_safe name override (some (x ∷ items)) out n o =
    append_checked_safe out override name (join_list (x ∷ items)) o n

append_credentials_safe :
    (override : Bool) (flag : Option Bool) (out : List Bytes)
    → All IsDirective out
    → All IsDirective (append_credentials override flag out)
unfolding append_credentials is_valid_header_name runes is_header_name_rune equal
append_credentials_safe override none out o = o
append_credentials_safe override (some false) out o = o
append_credentials_safe override (some true) out o =
    append_cors_directive_safe out override (codes "Access-Control-Allow-Credentials")
      (codes "true") o refl (ground arith)

digits_safe : (s : Bytes) → all is_digit s ≡ true → All IsValueByte s
digits_safe [] h = tt
digits_safe (c ∷ s) h = ground (arith, digits_safe s)

decimal_int_safe : (i : ℤ) → All IsValueByte (decimal_int i)
unfolding decimal_int
decimal_int_safe (pos n) = digits_safe (decimal n) (decimal-all n)
decimal_int_safe (negsuc n) =
    let rest = digits_safe (decimal (n + 1)) (decimal-all (n + 1)) in ground arith

append_max_age_safe :
    (override : Bool) (age : Option ℤ) (out : List Bytes)
    → All IsDirective out
    → All IsDirective (append_max_age override age out)
unfolding append_max_age is_valid_header_name runes is_header_name_rune equal
append_max_age_safe override none out o = o
append_max_age_safe override (some age) out o =
    append_cors_directive_safe out override (codes "Access-Control-Max-Age") (decimal_int age) o
      refl (decimal_int_safe age)

append_cors_directives_safe :
    (out : List Bytes) (cfg : Option CorsConfig)
    → All IsDirective out
    → All IsDirective (append_cors_directives out cfg)
unfolding append_cors_directives is_valid_header_name runes is_header_name_rune equal
append_cors_directives_safe out none o = o
append_cors_directives_safe out (some cfg) o =
    let override = deref_bool cfg.origin_override in
    let o1 = append_origin_safe override cfg.allow_origins out o in
    let o2 =
      append_joined_safe (codes "Access-Control-Allow-Headers") override cfg.allow_headers _ refl
        o1 in
    let o3 =
      append_joined_safe (codes "Access-Control-Allow-Methods") override cfg.allow_methods _ refl
        o2 in
    let o4 =
      append_joined_safe (codes "Access-Control-Expose-Headers") override cfg.expose_headers _ refl
        o3 in
    let o5 = append_credentials_safe override cfg.allow_credentials _ o4 in
    append_max_age_safe override cfg.max_age_sec _ o5

append_custom_safe :
    (items : Option (List CustomHeader))
    → All IsDirective (append_custom_header_directives [] items)
unfolding append_custom_header_directives
append_custom_safe none = tt
append_custom_safe (some items) = custom_headers_lines_safe items

-- Whatever a response headers policy holds, each line that it adds to the configuration is one
-- whole directive: proxy_hide_header or add_header, a header name of letters, digits and dashes,
-- and for the second a quoted value without quote, backslash, line break or NUL. No policy can
-- close the quotes or the line and so add a directive of its own.
pub response_headers_to_directives_safe :
    (cfg : Option HeadersPolicy) → All IsDirective (response_headers_to_directives cfg)
unfolding response_headers_to_directives
response_headers_to_directives_safe none = tt
response_headers_to_directives_safe (some cfg) =
    append_cors_directives_safe (append_custom_header_directives [] cfg.custom_headers_config)
      cfg.cors_config (append_custom_safe cfg.custom_headers_config)

pub lookup_response_headers_safe :
    (rhp : Dict (Option HeadersPolicy)) (id : Bytes)
    → All IsDirective (lookup_response_headers rhp id)
unfolding lookup_response_headers
lookup_response_headers_safe rhp id = elim (Bool-cases (equal id [])) [
  | inl e ↦ rw e tt
  | inr e ↦ rw e (found (lookup id rhp))
]
  where
    found :
        (o : Option (Option HeadersPolicy))
        → All IsDirective (elim o [ none ↦ [] | some cfg ↦ response_headers_to_directives cfg ])
    found none = tt
    found (some cfg) = response_headers_to_directives_safe cfg

-- ===== src/Nginx/Headers.antt =====
-- internal/nginx/response_headers.go: the directives of a response headers policy. Records hold
-- the fields of the SDK's structs that the renderer reads.
pub mod Lines
pub mod Safe
use cf_local.Prelude.{
  ℕ, ◌+◌, ◌-◌, Bool, true, false, not, ◌||◌, Option, none, some, List, [], ◌∷◌, ◌++◌, ◌==◌,
  if◌then◌else◌, within, all, any, Bytes, codes, equal, Dict, lookup,
}
use cf_local.Prelude.Int.{ℤ}
use cf_local.Prelude.Runes.{runes}
use cf_local.Prelude.Format.{decimal_int, join}

-- types.ResponseHeadersPolicyCustomHeader
pub record CustomHeader : Type 0 where
  pub header : Option Bytes
  pub value : Option Bytes
  pub override : Option Bool

-- types.ResponseHeadersPolicyCorsConfig: the four lists by their items.
pub record CorsConfig : Type 0 where
  pub origin_override : Option Bool
  pub allow_origins : Option (List Bytes)
  pub allow_headers : Option (List Bytes)
  pub allow_methods : Option (List Bytes)
  pub expose_headers : Option (List Bytes)
  pub allow_credentials : Option Bool
  pub max_age_sec : Option ℤ

-- types.ResponseHeadersPolicyConfig
pub record HeadersPolicy : Type 0 where
  pub custom_headers_config : Option (List CustomHeader)
  pub cors_config : Option CorsConfig

unfoldable pub deref_string : Option Bytes → Bytes
deref_string none = []
deref_string (some s) = s

unfoldable pub deref_bool : Option Bool → Bool
deref_bool none = false
deref_bool (some b) = b

unfoldable pub is_header_name_rune : ℕ → Bool
is_header_name_rune r =
    if within b'A' b'Z' r
    then true
    else if within b'a' b'z' r
    then true
    else if within b'0' b'9' r
    then true
    else r == b'-'

unfoldable pub is_valid_header_name : Bytes → Bool
is_valid_header_name s = if equal s [] then false else all is_header_name_rune (runes s)

-- `'\n', '\r', 0, '"', '\\'`
unfoldable pub is_value_breaker : ℕ → Bool
is_value_breaker r = r == 10 || r == 13 || r == 0 || r == 34 || r == 92

unfoldable pub is_valid_header_value : Bytes → Bool
is_valid_header_value s = not (any is_value_breaker (runes s))

unfoldable pub hide_line : Bytes → Bytes
hide_line name = codes "        proxy_hide_header " ++ name ++ codes ";"

unfoldable pub add_line : Bytes → Bytes → Bytes
add_line name value =
    codes "        add_header " ++ name ++ codes " \"" ++ value ++ codes "\" always;"

-- The lines that one header adds.
unfoldable pub header_lines : Bool → Bytes → Bytes → List Bytes
header_lines override name value = elim override [
  | true ↦ hide_line name ∷ add_line name value ∷ []
  | false ↦ add_line name value ∷ []
]

unfoldable pub custom_header_lines : CustomHeader → List Bytes
custom_header_lines h =
    if not (is_valid_header_name (deref_string h.header))
      || not (is_valid_header_value (deref_string h.value))
    then []
    else header_lines (deref_bool h.override) (deref_string h.header) (deref_string h.value)

unfoldable pub custom_headers_lines : List CustomHeader → List Bytes
custom_headers_lines [] = []
custom_headers_lines (h ∷ items) = custom_header_lines h ++ custom_headers_lines items

unfoldable pub append_custom_header_directives :
    List Bytes → Option (List CustomHeader) → List Bytes
append_custom_header_directives out none = out
append_custom_header_directives out (some items) = out ++ custom_headers_lines items

unfoldable pub append_cors_directive : List Bytes → Bool → Bytes → Bytes → List Bytes
append_cors_directive out override name value = out ++ header_lines override name value

-- `strings.Join` with a comma and a blank.
unfoldable pub join_list : List Bytes → Bytes
join_list items = join (codes ", ") items

unfoldable pub append_checked : List Bytes → Bool → Bytes → Bytes → List Bytes
append_checked out override name value =
    if is_valid_header_value value then append_cors_directive out override name value else out

-- Of several origins the first.
unfoldable pub append_origin : Bool → Option (List Bytes) → List Bytes → List Bytes
append_origin override (some (first ∷ _)) out =
    append_checked out override (codes "Access-Control-Allow-Origin") first
append_origin override _ out = out

unfoldable pub append_joined : Bytes → Bool → Option (List Bytes) → List Bytes → List Bytes
append_joined name override (some (x ∷ items)) out =
    append_checked out override name (join_list (x ∷ items))
append_joined name override _ out = out

unfoldable pub append_credentials : Bool → Option Bool → List Bytes → List Bytes
append_credentials override (some true) out =
    append_cors_directive out override (codes "Access-Control-Allow-Credentials") (codes "true")
append_credentials override _ out = out

unfoldable pub append_max_age : Bool → Option ℤ → List Bytes → List Bytes
append_max_age override (some age) out =
    append_cors_directive out override (codes "Access-Control-Max-Age") (decimal_int age)
append_max_age override none out = out

unfoldable pub append_cors_directives : List Bytes → Option CorsConfig → List Bytes
append_cors_directives out none = out
append_cors_directives out (some cfg) =
    let override = deref_bool cfg.origin_override in
    append_max_age override cfg.max_age_sec (
      append_credentials override cfg.allow_credentials (
        append_joined (codes "Access-Control-Expose-Headers") override cfg.expose_headers (
          append_joined (codes "Access-Control-Allow-Methods") override cfg.allow_methods (
            append_joined (codes "Access-Control-Allow-Headers") override cfg.allow_headers
              (append_origin override cfg.allow_origins out)))))

-- A nil slice and an empty one are one list here: both add no line.
unfoldable pub response_headers_to_directives : Option HeadersPolicy → List Bytes
response_headers_to_directives none = []
response_headers_to_directives (some cfg) =
    append_cors_directives (append_custom_header_directives [] cfg.custom_headers_config)
      cfg.cors_config

-- A nil map is an empty one, and a nil policy in the map is `none`.
unfoldable pub lookup_response_headers : Dict (Option HeadersPolicy) → Bytes → List Bytes
lookup_response_headers rhp id =
    if equal id []
    then []
    else elim (lookup id rhp) [ none ↦ [] | some cfg ↦ response_headers_to_directives cfg ]

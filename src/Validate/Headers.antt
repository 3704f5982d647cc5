-- ===== src/Validate/Headers.antt =====
-- internal/api/validate/policy.go: the check of a response headers policy. Of its parts only the
-- custom and the removed headers' names are read.
use cf_local.Prelude.{
  ℕ, ◌+◌, not, Option, none, some, List, [], ◌∷◌, if◌then◌else◌, Bytes, ok, err, ◌>>◌,
}
use cf_local.Validate.Names.{is_http_token_name}
use cf_local.Validate.Policy.{
  Check, Part, nil_config, unsafe_item, custom_headers, remove_headers, validate_name,
}

-- types.ResponseHeadersPolicyCustomHeader and types.ResponseHeadersPolicyRemoveHeader
pub record HeaderItem : Type 0 where
  pub header : Option Bytes

pub record ResponseHeadersPolicyConfig : Type 0 where
  pub name : Option Bytes
  pub custom_headers_config : Option (List HeaderItem)
  pub remove_headers_config : Option (List HeaderItem)

abbrev pub header_name : Option Bytes → Bytes
header_name none = []
header_name (some h) = h

-- The loop over the items of one part, from index `i`.
unfoldable pub check_headers : Part → ℕ → List HeaderItem → Check
check_headers part i [] = ok tt
check_headers part i (h ∷ items) =
    let rest = check_headers part (i + 1) items in
    if not (is_http_token_name (header_name h.header))
    then err (unsafe_item part i (header_name h.header))
    else rest

unfoldable pub check_optional_headers : Part → Option (List HeaderItem) → Check
unfolding check_headers
check_optional_headers part none = ok tt
check_optional_headers part (some items) = check_headers part 0 items

unfoldable pub validate_response_headers_policy_config : Option ResponseHeadersPolicyConfig → Check
unfolding check_optional_headers
validate_response_headers_policy_config none = err nil_config
validate_response_headers_policy_config (some cfg) = do
  validate_name cfg.name
  check_optional_headers custom_headers cfg.custom_headers_config
  check_optional_headers remove_headers cfg.remove_headers_config

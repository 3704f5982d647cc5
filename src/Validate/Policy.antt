-- ===== src/Validate/Policy.antt =====
-- internal/api/validate/policy.go: the checks of cache and origin request policies. The SDK's
-- structs are records of the fields that cf-local sets or reads; a nil pointer is `none`. The three kinds of
-- section (headers, cookies, query strings) have one shape in the SDK and one record here.
use cf_local.Prelude.{
  ℕ, ◌+◌, Bool, false, not, ◌||◌, Option, none, some, List, [], ◌∷◌, ltb, if◌then◌else◌, length,
  Bytes, codes, equal, Result, ok, err, ◌>>◌, refuse_if,
}
use cf_local.Validate.Names.{is_safe_name, is_safe_item_name}

-- types.Headers, types.CookieNames and types.QueryStringNames
pub record Names : Type 0 where
  pub quantity : Option ℕ
  pub items : List Bytes

-- types.CachePolicyHeadersConfig and its kin: the behavior, and the names it is about.
pub record Section : Type 0 where
  pub behavior : Bytes
  pub names : Option Names

pub record Parameters : Type 0 where
  pub enable_accept_encoding_brotli : Option Bool
  pub enable_accept_encoding_gzip : Option Bool
  pub headers : Option Section
  pub cookies : Option Section
  pub query_strings : Option Section

-- The times to live are bit patterns of int64s.
pub record CachePolicyConfig : Type 0 where
  pub comment : Option Bytes
  pub default_ttl : Option ℕ
  pub max_ttl : Option ℕ
  pub min_ttl : Option ℕ
  pub name : Option Bytes
  pub parameters : Option Parameters

pub record OriginRequestPolicyConfig : Type 0 where
  pub name : Option Bytes
  pub headers : Option Section
  pub cookies : Option Section
  pub query_strings : Option Section

-- The SDK's values of the behaviors.
abbrev pub behavior_none : Bytes
behavior_none = codes "none"

abbrev pub behavior_whitelist : Bytes
behavior_whitelist = codes "whitelist"

abbrev pub behavior_all_except : Bytes
behavior_all_except = codes "allExcept"

abbrev pub behavior_all : Bytes
behavior_all = codes "all"

abbrev pub behavior_all_viewer : Bytes
behavior_all_viewer = codes "allViewer"

abbrev pub behavior_all_viewer_and_whitelist : Bytes
behavior_all_viewer_and_whitelist = codes "allViewerAndWhitelistCloudFront"

pub data Part : Type 0 where
  headers cookies query_strings custom_headers remove_headers : Part

-- The messages, with what they name.
pub data ConfigError : Type 0 where
  nil_config no_name no_parameters : ConfigError
  unsafe_name : Bytes → ConfigError
  no_section : Part → ConfigError
  must_be_empty must_be_listed invalid_behavior : Part → Bytes → ConfigError
  unsafe_item : Part → ℕ → Bytes → ConfigError

abbrev pub Check : Type 0
Check = Result ConfigError Unit

-- `c.Headers != nil && len(c.Headers.Items) > 0`; the negation is the test of the other branch.
unfoldable pub has_items : Option Names → Bool
has_items none = false
has_items (some n) = ltb 0 (length n.items)

-- The loop over the items, from index `i`.
unfoldable pub check_items : Part → ℕ → List Bytes → Check
check_items part i [] = ok tt
check_items part i (h ∷ items) =
    let rest = check_items part (i + 1) items in
    if not (is_safe_item_name h) then err (unsafe_item part i h) else rest

unfoldable pub listed : Part → Section → Check
unfolding has_items
listed part c = elim c.names [
  | none ↦ err (must_be_listed part c.behavior)
  | some n ↦
      if not (has_items (some n))
      then err (must_be_listed part c.behavior)
      else check_items part 0 n.items
]

unfoldable pub bare : Part → Section → Check
bare part c = refuse_if (has_items c.names) (must_be_empty part c.behavior)

unfoldable pub validate_cache_policy_headers : Option Section → Check
unfolding listed bare
validate_cache_policy_headers none = err (no_section headers)
validate_cache_policy_headers (some c) =
    if equal c.behavior behavior_none
    then bare headers c
    else if equal c.behavior behavior_whitelist
    then listed headers c
    else err (invalid_behavior headers c.behavior)

unfoldable pub validate_cache_policy_cookies : Option Section → Check
unfolding listed bare
validate_cache_policy_cookies none = err (no_section cookies)
validate_cache_policy_cookies (some c) =
    if equal c.behavior behavior_none || equal c.behavior behavior_all
    then bare cookies c
    else if equal c.behavior behavior_whitelist || equal c.behavior behavior_all_except
    then listed cookies c
    else err (invalid_behavior cookies c.behavior)

unfoldable pub validate_cache_policy_query_strings : Option Section → Check
unfolding listed bare
validate_cache_policy_query_strings none = err (no_section query_strings)
validate_cache_policy_query_strings (some c) =
    if equal c.behavior behavior_none || equal c.behavior behavior_all
    then bare query_strings c
    else if equal c.behavior behavior_whitelist || equal c.behavior behavior_all_except
    then listed query_strings c
    else err (invalid_behavior query_strings c.behavior)

-- The checks of `cfg.Name`, which every policy begins with.
unfoldable pub validate_name : Option Bytes → Check
validate_name none = err no_name
validate_name (some n) = do
  refuse_if (equal n []) no_name
  refuse_if (not (is_safe_name n)) (unsafe_name n)

unfoldable pub check_parameters : Option Parameters → Check
check_parameters none = err no_parameters
check_parameters (some p) = do
  validate_cache_policy_headers p.headers
  validate_cache_policy_cookies p.cookies
  validate_cache_policy_query_strings p.query_strings

unfoldable pub validate_cache_policy_config : Option CachePolicyConfig → Check
validate_cache_policy_config none = err nil_config
validate_cache_policy_config (some cfg) = do validate_name cfg.name; check_parameters cfg.parameters

unfoldable pub validate_orp_headers : Option Section → Check
unfolding listed bare
validate_orp_headers none = err (no_section headers)
validate_orp_headers (some c) =
    if equal c.behavior behavior_none || equal c.behavior behavior_all_viewer
    then bare headers c
    else if equal c.behavior behavior_whitelist
        || equal c.behavior behavior_all_except
        || equal c.behavior behavior_all_viewer_and_whitelist
    then listed headers c
    else err (invalid_behavior headers c.behavior)

unfoldable pub validate_orp_cookies : Option Section → Check
unfolding listed bare
validate_orp_cookies none = err (no_section cookies)
validate_orp_cookies (some c) =
    if equal c.behavior behavior_none || equal c.behavior behavior_all
    then bare cookies c
    else if equal c.behavior behavior_whitelist || equal c.behavior behavior_all_except
    then listed cookies c
    else err (invalid_behavior cookies c.behavior)

unfoldable pub validate_orp_query_strings : Option Section → Check
unfolding listed bare
validate_orp_query_strings none = err (no_section query_strings)
validate_orp_query_strings (some c) =
    if equal c.behavior behavior_none || equal c.behavior behavior_all
    then bare query_strings c
    else if equal c.behavior behavior_whitelist || equal c.behavior behavior_all_except
    then listed query_strings c
    else err (invalid_behavior query_strings c.behavior)

unfoldable pub validate_origin_request_policy_config : Option OriginRequestPolicyConfig → Check
validate_origin_request_policy_config none = err nil_config
validate_origin_request_policy_config (some cfg) = do
  validate_name cfg.name
  validate_orp_headers cfg.headers
  validate_orp_cookies cfg.cookies
  validate_orp_query_strings cfg.query_strings

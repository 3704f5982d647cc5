-- ===== src/Validate/Accepts.antt =====
-- What `CachePolicyConfig`, `OriginRequestPolicyConfig` and `ResponseHeadersPolicyConfig` accept.
use cf_local.Prelude.{
  ℕ, ◌+◌, ◌≡◌, refl, ◌↔◌, Option, none, some, List, [], ◌∷◌, arith, All, Bytes, equal_iff, Result,
  ok, err, ◌>>◌,
}
use cf_local.Validate.Names.{IsSafeName, is_safe_name_iff, IsTokenName, is_http_token_name_iff}
use cf_local.Validate.Policy.{
  Parameters, CachePolicyConfig, OriginRequestPolicyConfig, Part, custom_headers, remove_headers,
  validate_name, validate_cache_policy_headers, validate_cache_policy_cookies,
  validate_cache_policy_query_strings, check_parameters, validate_cache_policy_config,
  validate_orp_headers, validate_orp_cookies, validate_orp_query_strings,
  validate_origin_request_policy_config,
}
use cf_local.Validate.Headers.{
  HeaderItem, ResponseHeadersPolicyConfig, header_name, check_headers, check_optional_headers,
  validate_response_headers_policy_config,
}
use cf_local.Validate.Sections.{
  AdmitsCacheHeaders, AdmitsNames, AdmitsOriginHeaders, cache_headers_iff, cache_cookies_iff,
  cache_query_strings_iff, orp_headers_iff, orp_cookies_iff, orp_query_strings_iff,
}

abbrev pub HasSafeName : Option Bytes → Type 0
HasSafeName none = ⊥
HasSafeName (some n) = IsSafeName n

pub validate_name_iff : (o : Option Bytes) → (validate_name o ≡ ok tt) ↔ HasSafeName o
unfolding validate_name
validate_name_iff none = (λ e. cc, λ a. absurd a)
validate_name_iff (some n) = ground (arith, equal_iff n [], is_safe_name_iff n)

-- A chain of checks passes exactly when each does.
pub >>-eq-ok_iff {κ} :
    {E : Type κ} (m k : Result E (Unit {0})) → ((m >> k) ≡ ok tt) ↔ (m ≡ ok tt) × (k ≡ ok tt)
>>-eq-ok_iff (ok u) k = (λ e. (refl, e), λ a. a.1)
>>-eq-ok_iff (err e) k = (λ h. cc, λ a. cc)

abbrev pub AdmitsParameters : Option Parameters → Type 0
AdmitsParameters none = ⊥
AdmitsParameters (some p) =
    AdmitsCacheHeaders p.headers × AdmitsNames p.cookies × AdmitsNames p.query_strings

abbrev pub AdmitsCachePolicy : Option CachePolicyConfig → Type 0
AdmitsCachePolicy none = ⊥
AdmitsCachePolicy (some cfg) = HasSafeName cfg.name × AdmitsParameters cfg.parameters

abbrev pub AdmitsOriginRequestPolicy : Option OriginRequestPolicyConfig → Type 0
AdmitsOriginRequestPolicy none = ⊥
AdmitsOriginRequestPolicy (some cfg) =
    HasSafeName cfg.name
    × AdmitsOriginHeaders cfg.headers
    × AdmitsNames cfg.cookies
    × AdmitsNames cfg.query_strings

parameters_iff : (o : Option Parameters) → (check_parameters o ≡ ok tt) ↔ AdmitsParameters o
unfolding check_parameters
parameters_iff none = (λ e. cc, λ a. absurd a)
parameters_iff (some p) = ground (
  arith,
  cache_headers_iff p.headers,
  cache_cookies_iff p.cookies,
  cache_query_strings_iff p.query_strings,
  >>-eq-ok_iff (validate_cache_policy_headers p.headers) (
      validate_cache_policy_cookies p.cookies
      >> validate_cache_policy_query_strings p.query_strings),
  >>-eq-ok_iff (validate_cache_policy_cookies p.cookies)
      (validate_cache_policy_query_strings p.query_strings),
)

-- `CachePolicyConfig` accepts exactly the configurations whose name is safe and whose three
-- sections are present, each with a behavior of its kind and names where that behavior needs them.
pub cache_policy_config_iff :
    (o : Option CachePolicyConfig) → (validate_cache_policy_config o ≡ ok tt) ↔ AdmitsCachePolicy o
unfolding validate_cache_policy_config
cache_policy_config_iff none = (λ e. cc, λ a. absurd a)
cache_policy_config_iff (some cfg) = ground (
  arith,
  validate_name_iff cfg.name,
  parameters_iff cfg.parameters,
  >>-eq-ok_iff (validate_name cfg.name) (check_parameters cfg.parameters),
)

-- `OriginRequestPolicyConfig` accepts exactly the configurations whose name is safe and whose three
-- sections are present, each with a behavior of its kind and names where that behavior needs them.
pub origin_request_policy_config_iff :
    (o : Option OriginRequestPolicyConfig)
    → (validate_origin_request_policy_config o ≡ ok tt) ↔ AdmitsOriginRequestPolicy o
unfolding validate_origin_request_policy_config
origin_request_policy_config_iff none = (λ e. cc, λ a. absurd a)
origin_request_policy_config_iff (some cfg) = ground (
  validate_name_iff cfg.name,
  orp_headers_iff cfg.headers,
  orp_cookies_iff cfg.cookies,
  orp_query_strings_iff cfg.query_strings,
  >>-eq-ok_iff (validate_name cfg.name) (
      validate_orp_headers cfg.headers
      >> (validate_orp_cookies cfg.cookies >> validate_orp_query_strings cfg.query_strings)),
  >>-eq-ok_iff (validate_orp_headers cfg.headers)
      (validate_orp_cookies cfg.cookies >> validate_orp_query_strings cfg.query_strings),
  >>-eq-ok_iff (validate_orp_cookies cfg.cookies) (validate_orp_query_strings cfg.query_strings),
  arith,
)

-- Every named header is a header name.
abbrev pub AllTokenNames : Option (List HeaderItem) → Type 0
AllTokenNames none = Unit
AllTokenNames (some items) = All (λ h. IsTokenName (header_name h.header)) items

abbrev pub AdmitsResponseHeadersPolicy : Option ResponseHeadersPolicyConfig → Type 0
AdmitsResponseHeadersPolicy none = ⊥
AdmitsResponseHeadersPolicy (some cfg) =
    HasSafeName cfg.name
    × AllTokenNames cfg.custom_headers_config
    × AllTokenNames cfg.remove_headers_config

check_headers_iff :
    (part : Part) (i : ℕ) (items : List HeaderItem)
    → (check_headers part i items ≡ ok tt) ↔ AllTokenNames (some items)
unfolding check_headers
check_headers_iff part i [] = (λ e. tt, λ a. refl)
check_headers_iff part i (h ∷ items) =
    ground
      (arith, is_http_token_name_iff (header_name h.header), check_headers_iff part (i + 1) items)

check_optional_headers_iff :
    (part : Part) (o : Option (List HeaderItem))
    → (check_optional_headers part o ≡ ok tt) ↔ AllTokenNames o
unfolding check_optional_headers
check_optional_headers_iff part none = (λ e. tt, λ a. refl)
check_optional_headers_iff part (some items) = check_headers_iff part 0 items

-- `ResponseHeadersPolicyConfig` accepts exactly the configurations whose name is safe and whose
-- custom and removed headers, where there are any, all have names of letters, digits and `-`.
pub response_headers_policy_config_iff :
    (o : Option ResponseHeadersPolicyConfig)
    → (validate_response_headers_policy_config o ≡ ok tt) ↔ AdmitsResponseHeadersPolicy o
unfolding validate_response_headers_policy_config
response_headers_policy_config_iff none = (λ e. cc, λ a. absurd a)
response_headers_policy_config_iff (some cfg) = ground (
  arith,
  validate_name_iff cfg.name,
  check_optional_headers_iff custom_headers cfg.custom_headers_config,
  check_optional_headers_iff remove_headers cfg.remove_headers_config,
  >>-eq-ok_iff (validate_name cfg.name) (
      check_optional_headers custom_headers cfg.custom_headers_config
      >> check_optional_headers remove_headers cfg.remove_headers_config),
  >>-eq-ok_iff (check_optional_headers custom_headers cfg.custom_headers_config)
      (check_optional_headers remove_headers cfg.remove_headers_config),
)

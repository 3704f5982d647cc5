-- ===== src/Validate/Tests.antt =====
-- Runs of the policy checks.
use cf_local.Prelude.{◌-◌, ◌≡◌, refl, ◌↔◌, true, none, some, [], ◌∷◌, codes, equal, ok, err}
use cf_local.Prelude.Runes.{runes}
use cf_local.Validate.Names.{IsSafeName, is_safe_name, is_safe_name_iff}
use cf_local.Validate.Policy.{
  Section, CachePolicyConfig, OriginRequestPolicyConfig, validate_cache_policy_config,
  validate_origin_request_policy_config, behavior_none, behavior_whitelist, behavior_all,
  behavior_all_viewer, unsafe_item, headers,
}
use cf_local.Validate.Headers.{ResponseHeadersPolicyConfig, validate_response_headers_policy_config}
use cf_local.Validate.Accepts.{
  AdmitsCachePolicy, AdmitsOriginRequestPolicy, AdmitsResponseHeadersPolicy,
  cache_policy_config_iff, origin_request_policy_config_iff, response_headers_policy_config_iff,
}

-- "é€" and a stray continuation byte.
test_runes : runes (195 ∷ 169 ∷ 226 ∷ 130 ∷ 172 ∷ 128 ∷ 65 ∷ []) ≡ 233 ∷ 8364 ∷ 65533 ∷ 65 ∷ []
unfolding runes
test_runes = refl

abbrev bare_section : Section
bare_section = record { behavior = behavior_none; names = none }

abbrev host_section : Section
host_section = record {
  behavior = behavior_whitelist;
  names = some (record { quantity = some 1; items = codes "Host" ∷ [] });
}

abbrev bad_section : Section
bad_section = record {
  behavior = behavior_whitelist;
  names = some (record { quantity = some 2; items = codes "Host" ∷ codes "a;b" ∷ [] });
}

abbrev cache_config : CachePolicyConfig
cache_config = record {
  comment = none;
  default_ttl = some 60;
  max_ttl = some 3600;
  min_ttl = some 1;
  name = some (codes "static-1");
  parameters = some (record {
    enable_accept_encoding_brotli = some true;
    enable_accept_encoding_gzip = some true;
    headers = some host_section;
    cookies = some bare_section;
    query_strings = some bare_section;
  });
}

abbrev bad_config : CachePolicyConfig
bad_config = record {
  comment = none;
  default_ttl = none;
  max_ttl = none;
  min_ttl = none;
  name = some (codes "static-1");
  parameters = some (record {
    enable_accept_encoding_brotli = some true;
    enable_accept_encoding_gzip = some true;
    headers = some bad_section;
    cookies = some bare_section;
    query_strings = some bare_section;
  });
}

abbrev origin_config : OriginRequestPolicyConfig
origin_config = record {
  name = some (codes "api");
  headers = some (record { behavior = behavior_all_viewer; names = none });
  cookies = some (record { behavior = behavior_all; names = none });
  query_strings = some host_section;
}

abbrev headers_config : ResponseHeadersPolicyConfig
headers_config = record {
  name = some (codes "sec");
  custom_headers_config = some (record { header = some (codes "X-Frame") } ∷ []);
  remove_headers_config = none;
}

test_bad :
    validate_cache_policy_config (some bad_config) ≡ err (unsafe_item headers 1 (codes "a;b"))
unfolding validate_cache_policy_config cf_local.Validate.Policy.validate_name cf_local.Prelude.equal
    is_safe_name runes cf_local.Validate.Names.is_safe_name_rune
    cf_local.Validate.Policy.check_parameters cf_local.Validate.Policy.validate_cache_policy_headers
    cf_local.Validate.Policy.check_items cf_local.Validate.Names.is_safe_item_name
test_bad = refl

accepted_cache : validate_cache_policy_config (some cache_config) ≡ ok tt
unfolding validate_cache_policy_config cf_local.Validate.Policy.validate_name cf_local.Prelude.equal
    is_safe_name runes cf_local.Validate.Names.is_safe_name_rune
    cf_local.Validate.Policy.check_parameters cf_local.Validate.Policy.validate_cache_policy_headers
    cf_local.Validate.Policy.check_items cf_local.Validate.Names.is_safe_item_name
    cf_local.Validate.Policy.validate_cache_policy_cookies
    cf_local.Validate.Policy.validate_cache_policy_query_strings
accepted_cache = refl

accepted_origin : validate_origin_request_policy_config (some origin_config) ≡ ok tt
unfolding validate_origin_request_policy_config cf_local.Validate.Policy.validate_name
    cf_local.Prelude.equal is_safe_name runes cf_local.Validate.Names.is_safe_name_rune
    cf_local.Validate.Policy.validate_orp_headers cf_local.Validate.Policy.validate_orp_cookies
    cf_local.Validate.Policy.validate_orp_query_strings cf_local.Validate.Policy.check_items
    cf_local.Validate.Names.is_safe_item_name
accepted_origin = refl

accepted_headers : validate_response_headers_policy_config (some headers_config) ≡ ok tt
unfolding validate_response_headers_policy_config cf_local.Validate.Policy.validate_name
    cf_local.Prelude.equal is_safe_name runes cf_local.Validate.Names.is_safe_name_rune
    cf_local.Validate.Names.is_http_token_name cf_local.Validate.Names.is_token_rune
accepted_headers = refl

cache_policy_config_iff_example :
    (validate_cache_policy_config (some cache_config) ≡ ok tt)
    ↔ AdmitsCachePolicy (some cache_config)
cache_policy_config_iff_example = cache_policy_config_iff (some cache_config)

origin_request_policy_config_iff_example :
    (validate_origin_request_policy_config (some origin_config) ≡ ok tt)
    ↔ AdmitsOriginRequestPolicy (some origin_config)
origin_request_policy_config_iff_example = origin_request_policy_config_iff (some origin_config)

response_headers_policy_config_iff_example :
    (validate_response_headers_policy_config (some headers_config) ≡ ok tt)
    ↔ AdmitsResponseHeadersPolicy (some headers_config)
response_headers_policy_config_iff_example =
    response_headers_policy_config_iff (some headers_config)

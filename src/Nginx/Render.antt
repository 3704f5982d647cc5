-- ===== src/Nginx/Render.antt =====
-- internal/nginx/renderer.go: the dispatch on the distribution's state, and policies.json. The JSON
-- encoder is a parameter; a Go map of policies is an association list.
pub mod Accepts
pub mod Policies
use cf_local.Prelude.{
  ℕ, ◌+◌, ◌-◌, ◌/◌, Bool, false, not, ◌||◌, Option, none, some, List, [], ◌∷◌, ◌++◌, if◌then◌else◌,
  any, Bytes, codes, equal, Dict, Result, ok, err, ◌>>=◌, ◌>>◌,
}
use cf_local.Validate.Policy.{Names, Section, Parameters, CachePolicyConfig}
use cf_local.Distribution.{DistributionConfig}
use cf_local.Nginx.Headers.{HeadersPolicy, deref_string, deref_bool}
use cf_local.Nginx.Conf.Names.{ConfError}
use cf_local.Nginx.Conf.Views.{BehaviorView, InnerView, build_origin_views, build_behavior_views}
use cf_local.Nginx.Conf.Writers.{write_conf_header, write_upstreams, write_server_block}

-- config.LoadResult: what the renderer reads of it.
pub record LoadResult : Type 0 where
  pub distribution : Option DistributionConfig
  pub distribution_id : Bytes
  pub cache_policies : Dict (Option CachePolicyConfig)
  pub response_headers_policies : Dict (Option HeadersPolicy)
  pub edge_proxy_url : Bytes
  pub resolver : Bytes

-- headersConfigOut and its kin: a behavior and names.
pub record SectionOut : Type 0 where
  pub behavior : Bytes
  pub names : List Bytes

pub record CacheKeyParamsOut : Type 0 where
  pub enable_accept_encoding_gzip : Bool
  pub enable_accept_encoding_brotli : Bool
  pub headers_config : SectionOut
  pub cookies_config : SectionOut
  pub query_strings_config : SectionOut

pub record PolicyOut : Type 0 where
  pub name : Bytes
  pub min_ttl : ℕ
  pub max_ttl : Option ℕ
  pub default_ttl : Option ℕ
  pub parameters : CacheKeyParamsOut

pub data RenderError : Type 0 where
  nil_load_result encode_failed : RenderError
  nil_policy : Bytes → RenderError
  conf_error : ConfError → RenderError

-- Output: no configuration is `none`.
pub record Output : Type 0 where
  pub conf : Option Bytes
  pub policies : Bytes

abbrev pub default_edge_proxy_url : Bytes
default_edge_proxy_url = codes "http://edge-proxy:4569"

abbrev pub default_resolver : Bytes
default_resolver = codes "127.0.0.11"

abbrev pub empty_section : SectionOut
empty_section = record { behavior = []; names = [] }

unfoldable pub section_names : Option Names → List Bytes
section_names none = []
section_names (some n) = n.items

unfoldable pub convert_headers_config : Option Section → SectionOut
convert_headers_config none = empty_section
convert_headers_config (some c) = record { behavior = c.behavior; names = section_names c.names }

unfoldable pub convert_cookies_config : Option Section → SectionOut
convert_cookies_config none = empty_section
convert_cookies_config (some c) = record { behavior = c.behavior; names = section_names c.names }

unfoldable pub convert_query_strings_config : Option Section → SectionOut
convert_query_strings_config none = empty_section
convert_query_strings_config (some c) = record {
  behavior = c.behavior;
  names = section_names c.names;
}

unfoldable pub convert_parameters : Option Parameters → CacheKeyParamsOut
convert_parameters none = record {
  enable_accept_encoding_gzip = false;
  enable_accept_encoding_brotli = false;
  headers_config = empty_section;
  cookies_config = empty_section;
  query_strings_config = empty_section;
}
convert_parameters (some p) = record {
  enable_accept_encoding_gzip = deref_bool p.enable_accept_encoding_gzip;
  enable_accept_encoding_brotli = deref_bool p.enable_accept_encoding_brotli;
  headers_config = convert_headers_config p.headers;
  cookies_config = convert_cookies_config p.cookies;
  query_strings_config = convert_query_strings_config p.query_strings;
}

abbrev deref_ttl : Option ℕ → ℕ
deref_ttl none = 0
deref_ttl (some t) = t

unfoldable pub convert_cache_policy : CachePolicyConfig → PolicyOut
convert_cache_policy cp = record {
  name = deref_string cp.name;
  min_ttl = deref_ttl cp.min_ttl;
  max_ttl = cp.max_ttl;
  default_ttl = cp.default_ttl;
  parameters = convert_parameters cp.parameters;
}

-- The loop over the map: a nil policy is refused.
unfoldable pub convert_policies :
    Dict (Option CachePolicyConfig) → Result RenderError (Dict PolicyOut)
convert_policies [] = ok []
convert_policies ((name, none) ∷ m) = err (nil_policy name)
convert_policies ((name, some cp) ∷ m) = do
  rest ← convert_policies m
  ok ((name, convert_cache_policy cp) ∷ rest)

module _ (encode : Dict PolicyOut → Option Bytes) where
  unfoldable pub build_policies_json : Dict (Option CachePolicyConfig) → Result RenderError Bytes
  build_policies_json m = do
    out ← convert_policies m
    elim (encode out) [ none ↦ err encode_failed | some text ↦ ok text ]

unfoldable pub has_hook : BehaviorView → Bool
has_hook b = b.viewer_request || b.origin_request || b.origin_response

module _ (printable : ℕ → Bool) where
  unfoldable pub render_conf :
      DistributionConfig
      → Dict (Option HeadersPolicy)
      → Bytes
      → Bytes
      → Bytes
      → Result ConfError Bytes
  render_conf d rhp distribution_id edge_proxy_url resolver = do
    origins ← build_origin_views d.origins
    views ← build_behavior_views rhp (some d)
    ok (
        write_conf_header (any has_hook views.0) resolver
        ++ write_upstreams origins
        ++ write_server_block printable distribution_id edge_proxy_url views.0 views.1)

unfoldable pub or_default : Bytes → Bytes → Bytes
or_default default s = if equal s [] then default else s

abbrev pub disabled_conf : Bytes
disabled_conf =
    codes "# Generated by cf-local "
    ++ 226 ∷ 128 ∷ 148 ∷ codes " distribution disabled (Enabled=false)."
    ++ 10 ∷ []

module _ (printable : ℕ → Bool) where
  -- The configuration of an enabled distribution, with the defaults for what is not set.
  unfoldable pub enabled_conf : LoadResult → DistributionConfig → Result RenderError (Option Bytes)
  enabled_conf res d =
      elim (render_conf printable d res.response_headers_policies res.distribution_id
        (or_default default_edge_proxy_url res.edge_proxy_url)
        (or_default default_resolver res.resolver)) [
          | ok conf ↦ ok (some conf)
          | err e ↦ err (conf_error e)
        ]

  unfoldable pub conf_for :
      LoadResult → Option DistributionConfig → Result RenderError (Option Bytes)
  conf_for res none = ok none
  conf_for res (some d) =
      if not (deref_bool d.enabled) then ok (some disabled_conf) else enabled_conf res d

module _ (encode : Dict PolicyOut → Option Bytes) (printable : ℕ → Bool) where
  unfoldable pub render : Option LoadResult → Result RenderError Output
  render none = err nil_load_result
  render (some res) = do
    policies ← build_policies_json encode res.cache_policies
    conf ← conf_for printable res res.distribution
    ok (record { conf = conf; policies = policies })

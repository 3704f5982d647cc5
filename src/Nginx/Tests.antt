-- ===== src/Nginx/Tests.antt =====
-- Runs of the renderer, the writer and the reloader, and the theorems at concrete inputs.
mod Reload
use cf_local.Prelude.{
  ◌≡◌, refl, ◌↔◌, true, false, Option, none, some, List, [], ◌∷◌, ◌++◌, map, All, codes, less, Dict,
  Result, ok, err, All2,
}
use cf_local.Prelude.Int.{ℤ, pos}
use cf_local.Prelude.Runes.{runes}
use cf_local.Prelude.Sort.{In, Nodup, Ordered, sort_stable}
use cf_local.Prelude.Quote.{quote}
use cf_local.Prelude.Format.{decimal, decimal_int}
use cf_local.Distribution.{Origin, Association, Behavior, CacheBehavior, DistributionConfig}
use cf_local.Validate.Names.{is_http_token_name}
use cf_local.Nginx.Headers.{
  CustomHeader, CorsConfig, HeadersPolicy, response_headers_to_directives, lookup_response_headers,
  is_valid_header_name,
}
use cf_local.Nginx.Headers.Lines.{IsDirective, is_valid_header_name-is_http_token_name}
use cf_local.Nginx.Headers.Safe.{response_headers_to_directives_safe}
use cf_local.Nginx.Conf.Names.{ConfError, conflict, sanitize_id, is_id_rune}
use cf_local.Nginx.Conf.Views.{
  BehaviorView, InnerView, build_behavior_views, event_viewer_request, event_origin_response,
  inner_list,
}
use cf_local.Nginx.Conf.Views.Listing.{inner_list_unique}
use cf_local.Nginx.Conf.Views.Complete.{IsNamed, Agree}
use cf_local.Nginx.Conf.Views.Served.{
  rules, ServedBy, build_behavior_views_served, build_behavior_views-Ordered,
  build_behavior_views_iff,
}

abbrev policy : HeadersPolicy
policy = record {
  custom_headers_config = some (
      record { header = some (codes "X-Frame"); value = some (codes "DENY"); override = some true }
      ∷ record { header = some (codes "X-Bad"); value = some (codes "a\"b"); override = none }
      ∷ []);
  cors_config = some (record {
    origin_override = none;
    allow_origins = some (codes "*" ∷ codes "http://a" ∷ []);
    allow_headers = none;
    allow_methods = some (codes "GET" ∷ codes "PUT" ∷ []);
    expose_headers = none;
    allow_credentials = some false;
    max_age_sec = some (pos 600);
  });
}

abbrev web : Origin
web = record {
  id = some (codes "web-1");
  domain_name = some (codes "web");
  custom_origin_config = some (some (pos 8080));
}

abbrev api_behavior : Behavior
api_behavior = record {
  target_origin_id = some (codes "web-1");
  cache_policy_id = some (codes "p-1");
  response_headers_policy_id = some (codes "h1");
  lambda_function_associations = some (
      record {
        event_type = event_viewer_request;
        lambda_function_arn = some (codes "f");
        include_body = none;
      }
      ∷ record {
        event_type = event_origin_response;
        lambda_function_arn = some (codes "g");
        include_body = none;
      }
      ∷ []);
}

abbrev default_behavior : Behavior
default_behavior = record {
  target_origin_id = some (codes "web-1");
  cache_policy_id = some (codes "p-0");
  response_headers_policy_id = none;
  lambda_function_associations = none;
}

abbrev site : DistributionConfig
site = record {
  caller_reference = some (codes "r");
  enabled = some true;
  origins = some (web ∷ []);
  cache_behaviors =
      some (record { path_pattern = some (codes "/api/*"); behavior = api_behavior } ∷ []);
  default_cache_behavior = some default_behavior;
}

abbrev headers_policies : Dict (Option HeadersPolicy)
headers_policies = (codes "h1", some policy) ∷ []

abbrev views_of :
    Result ConfError (List BehaviorView × List InnerView) → List BehaviorView × List InnerView
views_of (ok v) = v
views_of (err _) = ([], [])

abbrev site_views : List BehaviorView × List InnerView
site_views = views_of (build_behavior_views headers_policies (some site))

test_directives :
    response_headers_to_directives (some policy)
    ≡ codes "        proxy_hide_header X-Frame;"
      ∷ codes "        add_header X-Frame \"DENY\" always;"
      ∷ codes "        add_header Access-Control-Allow-Origin \"*\" always;"
      ∷ codes "        add_header Access-Control-Allow-Methods \"GET, PUT\" always;"
      ∷ codes "        add_header Access-Control-Max-Age \"600\" always;"
      ∷ []
unfolding cf_local.Nginx.Headers.add_line cf_local.Nginx.Headers.append_checked
    cf_local.Nginx.Headers.append_cors_directive cf_local.Nginx.Headers.append_cors_directives
    cf_local.Nginx.Headers.append_credentials cf_local.Nginx.Headers.append_custom_header_directives
    cf_local.Nginx.Headers.append_joined cf_local.Nginx.Headers.append_max_age
    cf_local.Nginx.Headers.append_origin cf_local.Nginx.Headers.custom_header_lines
    cf_local.Nginx.Headers.custom_headers_lines cf_local.Nginx.Headers.deref_bool
    cf_local.Nginx.Headers.deref_string cf_local.Nginx.Headers.header_lines
    cf_local.Nginx.Headers.hide_line cf_local.Nginx.Headers.is_header_name_rune is_valid_header_name
    cf_local.Nginx.Headers.is_valid_header_value cf_local.Nginx.Headers.is_value_breaker
    cf_local.Nginx.Headers.join_list response_headers_to_directives decimal decimal_int
    cf_local.Prelude.Format.join cf_local.Prelude.Runes.decode_rune runes cf_local.Prelude.equal
test_directives = refl

response_headers_to_directives_safe_example :
    All IsDirective (response_headers_to_directives (some policy))
response_headers_to_directives_safe_example = response_headers_to_directives_safe (some policy)

site_built : build_behavior_views headers_policies (some site) ≡ ok site_views
unfolding cf_local.Nginx.Conf.Names.inner_prefix is_id_rune
    cf_local.Nginx.Conf.Names.origin_upstream_name
    cf_local.Nginx.Conf.Names.path_pattern_to_location sanitize_id
    cf_local.Nginx.Conf.Names.strip_star cf_local.Nginx.Conf.Views.add_behavior
    cf_local.Nginx.Conf.Views.add_behaviors cf_local.Nginx.Conf.Views.add_inner
    cf_local.Nginx.Conf.Views.behavior_head cf_local.Nginx.Conf.Views.behavior_view
    build_behavior_views cf_local.Nginx.Conf.Views.build_views
    cf_local.Nginx.Conf.Views.comment_tail cf_local.Nginx.Conf.Views.has_association
    cf_local.Nginx.Conf.Views.has_origin_request_association
    cf_local.Nginx.Conf.Views.has_origin_response_association
    cf_local.Nginx.Conf.Views.has_viewer_request_association cf_local.Nginx.Conf.Views.inner_for
    inner_list cf_local.Nginx.Conf.Views.inners_at cf_local.Nginx.Conf.Views.items_of
    cf_local.Nginx.Conf.Views.keys cf_local.Nginx.Conf.Views.merge_inner
    cf_local.Nginx.Conf.Views.new_inner cf_local.Nginx.Conf.Views.within_behavior
    cf_local.Nginx.Headers.add_line cf_local.Nginx.Headers.append_checked
    cf_local.Nginx.Headers.append_cors_directive cf_local.Nginx.Headers.append_cors_directives
    cf_local.Nginx.Headers.append_credentials cf_local.Nginx.Headers.append_custom_header_directives
    cf_local.Nginx.Headers.append_joined cf_local.Nginx.Headers.append_max_age
    cf_local.Nginx.Headers.append_origin cf_local.Nginx.Headers.custom_header_lines
    cf_local.Nginx.Headers.custom_headers_lines cf_local.Nginx.Headers.deref_bool
    cf_local.Nginx.Headers.deref_string cf_local.Nginx.Headers.header_lines
    cf_local.Nginx.Headers.hide_line cf_local.Nginx.Headers.is_header_name_rune is_valid_header_name
    cf_local.Nginx.Headers.is_valid_header_value cf_local.Nginx.Headers.is_value_breaker
    cf_local.Nginx.Headers.join_list lookup_response_headers response_headers_to_directives decimal
    decimal_int cf_local.Prelude.Format.join cf_local.Prelude.delete cf_local.Prelude.insert
    cf_local.Prelude.lookup cf_local.Prelude.Runes.decode_rune runes
    cf_local.Prelude.Sort.sort_insert sort_stable cf_local.Prelude.equal less
site_built = refl

build_behavior_views_served_example :
    All2 (ServedBy site_views.1) (rules site default_behavior) site_views.0
build_behavior_views_served_example =
    build_behavior_views_served headers_policies site default_behavior site_views refl site_built

build_behavior_views-Ordered_example :
    Ordered less (map (λ (v : InnerView). v.sanitized_policy_id) site_views.1)
    × Nodup (map (λ (v : InnerView). v.sanitized_policy_id) site_views.1)
build_behavior_views-Ordered_example =
    build_behavior_views-Ordered headers_policies site default_behavior site_views refl site_built

-- ===== src/Nginx/Conf/Writers.antt =====
-- internal/nginx/conf.go: the text of the configuration. A writer returns what it appends to the
-- buffer; `printable` is strconv's table of printable runes behind ASCII.
use cf_local.Prelude.{
  ℕ, Bool, true, false, not, ◌&&◌, List, [], ◌∷◌, ◌++◌, ltb, if◌then◌else◌, length, Bytes, codes,
}
use cf_local.Prelude.Quote.{quote}
use cf_local.Nginx.Conf.Names.{
  sanitize_comment_text, sanitize_nginx_set_value, forward_location_name, origin_request_prefix,
  origin_response_prefix,
}
use cf_local.Nginx.Conf.Views.{OriginView, BehaviorView, InnerView}

abbrev newline : ℕ
newline = 10

abbrev pub line : Bytes → Bytes
line s = s ++ newline ∷ []

-- The em dash in UTF-8.
abbrev dash : Bytes
dash = 226 ∷ 128 ∷ 148 ∷ []

abbrev pub inner_socket_path : Bytes
inner_socket_path = codes "/run/cf-local-inner.sock"

unfoldable pub lines : List Bytes → Bytes
lines [] = []
lines (l ∷ ls) = line l ++ lines ls

unfoldable pub write_conf_header : Bool → Bytes → Bytes
write_conf_header has_lambda_edge resolver =
    line (codes "# Generated by cf-local " ++ dash ++ codes " do not edit by hand.")
    ++ line []
    ++ line (codes "js_path \"/etc/nginx/njs/\";")
    ++ line (codes "js_import ck  from cache_key.js;")
    ++ line (codes "js_import ttl from ttl.js;")
    ++ line (codes "js_set $cf_cache_key ck.forNginx;")
    ++ (if has_lambda_edge
        then line (codes "js_import edge from edge.js;")
          ++ line (codes "resolver " ++ resolver ++ codes " valid=30s ipv6=off;")
        else [])
    ++ line []
    ++ line (
        codes
          "proxy_cache_path /var/cache/nginx levels=1:2 keys_zone=cf_cache:100m max_size=1g inactive=7d use_temp_path=off;")
    ++ line []

unfoldable pub write_upstream : OriginView → Bytes
write_upstream o =
    line (codes "upstream " ++ o.upstream_name ++ codes " {")
    ++ line (codes "    server " ++ o.server ++ codes ";")
    ++ line (codes "}")

unfoldable pub write_origins : List OriginView → Bytes
write_origins [] = []
write_origins (o ∷ os) = write_upstream o ++ write_origins os

unfoldable pub write_upstreams : List OriginView → Bytes
write_upstreams origins =
    write_origins origins
    ++ line (codes "upstream self {")
    ++ line (codes "    server unix:" ++ inner_socket_path ++ codes ";")
    ++ line (codes "}")
    ++ line []

-- Where the cache hop of a behavior goes.
unfoldable pub target_prefix : BehaviorView → Bytes
target_prefix beh =
    if beh.origin_response
    then origin_response_prefix beh.sanitized_policy_id
    else if beh.origin_request
    then origin_request_prefix beh.sanitized_policy_id
    else beh.inner_prefix

-- Where the origin-response hook fetches from.
unfoldable pub fetch_prefix : InnerView → Bytes
fetch_prefix inner =
    if inner.origin_request
    then origin_request_prefix inner.sanitized_policy_id
    else codes "/_cf_inner_" ++ inner.sanitized_policy_id

-- Where the origin-request hook sends the request.
unfoldable pub origin_inner_prefix : InnerView → Bytes
origin_inner_prefix inner = codes "/_cf_inner_" ++ inner.sanitized_policy_id

module _ (printable : ℕ → Bool) where
  -- `        set $<name> <quoted value>;`
  unfoldable pub set_line : Bytes → Bytes → Bytes
  set_line name value =
      line (codes "        set $" ++ name ++ codes " " ++ quote printable value ++ codes ";")

  unfoldable pub write_outer_location_body : BehaviorView → Bool → Bytes
  write_outer_location_body beh use_updated_uri =
      set_line (codes "cf_policy_id") beh.policy_id
      ++ line []
      ++ line (codes "        proxy_cache cf_cache;")
      ++ line (codes "        proxy_cache_key $cf_cache_key;")
      ++ line (codes "        proxy_cache_valid 200 86400s;")
      ++ line (codes "        proxy_cache_valid 404 10s;")
      ++ line (codes "        proxy_no_cache $upstream_http_x_cf_ttl_error;")
      ++ line (codes "        proxy_ignore_headers Set-Cookie Vary Cache-Control;")
      ++ line []
      ++ line (codes "        add_header X-Cache-Status $upstream_cache_status always;")
      ++ line (codes "        add_header X-Cache-Key    $cf_cache_key          always;")
      ++ line []
      ++ lines beh.header_directives
      ++ (if ltb 0 (length beh.header_directives) then line [] else [])
      ++ line (
          codes "        proxy_pass http://self"
          ++ target_prefix beh
          ++ (if use_updated_uri then codes "$uri$is_args$args" else codes "$request_uri")
          ++ codes ";")
      ++ line (codes "        proxy_set_header Host $host;")
      ++ line (codes "        proxy_set_header X-Real-IP $remote_addr;")
      ++ line (codes "        proxy_set_header X-Forwarded-For $proxy_add_x_forwarded_for;")
      ++ line (codes "        proxy_set_header X-Forwarded-Proto $scheme;")

  unfoldable pub write_outer_location : BehaviorView → Bytes
  write_outer_location beh =
      line (codes "    # " ++ sanitize_comment_text beh.comment)
      ++ line (codes "    location " ++ beh.location ++ codes " {")
      ++ write_outer_location_body beh false
      ++ line (codes "    }")

  unfoldable pub write_lambda_edge_outer : Bytes → Bytes → BehaviorView → Bytes
  write_lambda_edge_outer distribution_id edge_proxy_url beh =
      line (
        codes "    # "
        ++ sanitize_comment_text beh.comment
        ++ codes " "
        ++ dash
        ++ codes " Lambda@Edge viewer-request")
      ++ line (codes "    location " ++ beh.location ++ codes " {")
      ++ set_line (codes "cf_distribution_id") (sanitize_nginx_set_value distribution_id)
      ++ set_line (codes "cf_edge_proxy") (sanitize_nginx_set_value edge_proxy_url)
      ++ set_line (codes "cf_le_forward") (forward_location_name beh.sanitized_policy_id)
      ++ line (codes "        js_content edge.viewerRequest;")
      ++ line (codes "    }")

  unfoldable pub write_forward_location : BehaviorView → Bytes
  write_forward_location beh =
      line (codes "    location " ++ forward_location_name beh.sanitized_policy_id ++ codes " {")
      ++ line (codes "        internal;")
      ++ write_outer_location_body beh true
      ++ line (codes "    }")

  unfoldable pub write_origin_request_location : Bytes → Bytes → InnerView → Bytes
  write_origin_request_location distribution_id edge_proxy_url inner =
      let prefix = origin_request_prefix inner.sanitized_policy_id in
      line (codes "    location " ++ prefix ++ codes "/ {")
      ++ set_line (codes "cf_distribution_id") (sanitize_nginx_set_value distribution_id)
      ++ set_line (codes "cf_edge_proxy") (sanitize_nginx_set_value edge_proxy_url)
      ++ set_line (codes "cf_le_origin_inner_prefix") (origin_inner_prefix inner)
      ++ set_line (codes "cf_le_or_prefix") prefix
      ++ line (codes "        js_content edge.runOriginRequest;")
      ++ line (codes "    }")

  unfoldable pub write_origin_response_location : Bytes → Bytes → InnerView → Bytes
  write_origin_response_location distribution_id edge_proxy_url inner =
      let prefix = origin_response_prefix inner.sanitized_policy_id in
      line (codes "    location " ++ prefix ++ codes "/ {")
      ++ set_line (codes "cf_distribution_id") (sanitize_nginx_set_value distribution_id)
      ++ set_line (codes "cf_edge_proxy") (sanitize_nginx_set_value edge_proxy_url)
      ++ set_line (codes "cf_le_inner_socket") inner_socket_path
      ++ set_line (codes "cf_le_oresp_prefix") prefix
      ++ set_line (codes "cf_le_oresp_fetch_prefix") (fetch_prefix inner)
      ++ line (codes "        js_content edge.runOriginResponse;")
      ++ line (codes "    }")

  unfoldable pub write_inner_location : InnerView → Bytes
  write_inner_location inner =
      line (codes "    location " ++ inner.location ++ codes " {")
      ++ set_line (codes "cf_policy_id") inner.policy_id
      ++ line (codes "        js_header_filter ttl.computeAndInject;")
      ++ line []
      ++ line (codes "        proxy_pass http://" ++ inner.upstream_name ++ codes "/;")
      ++ line (codes "        proxy_set_header Host $host;")
      ++ line (codes "    }")

  module _ (distribution_id edge_proxy_url : Bytes) where
    unfoldable pub write_behavior : BehaviorView → Bytes
    write_behavior beh =
        if beh.viewer_request
        then write_lambda_edge_outer distribution_id edge_proxy_url beh
          ++ line []
          ++ write_forward_location beh
        else write_outer_location beh

    -- A blank line between two behaviors.
    unfoldable pub write_behaviors : Bool → List BehaviorView → Bytes
    write_behaviors first [] = []
    write_behaviors first (beh ∷ behs) =
        (if first then [] else line []) ++ write_behavior beh ++ write_behaviors false behs

    -- The locations of one policy: the origin-request one, the plain one, the origin-response one.
    unfoldable pub write_inner : Bool → InnerView → Bytes
    write_inner first inner =
        (if inner.origin_request
          then (if first then [] else line [])
            ++ write_origin_request_location distribution_id edge_proxy_url inner
          else [])
        ++ (if first && not inner.origin_request then [] else line [])
        ++ write_inner_location inner
        ++ (if inner.origin_response
            then line [] ++ write_origin_response_location distribution_id edge_proxy_url inner
            else [])

    unfoldable pub write_inners : Bool → List InnerView → Bytes
    write_inners first [] = []
    write_inners first (inner ∷ inners) = write_inner first inner ++ write_inners false inners

    unfoldable pub write_server_block : List BehaviorView → List InnerView → Bytes
    write_server_block behaviors inners =
        line (codes "server {")
        ++ line (codes "    listen 8080;")
        ++ line []
        ++ write_behaviors true behaviors
        ++ line (codes "}")
        ++ line []
        ++ line (codes "server {")
        ++ line (codes "    listen unix:" ++ inner_socket_path ++ codes ";")
        ++ line []
        ++ write_inners true inners
        ++ line (codes "}")

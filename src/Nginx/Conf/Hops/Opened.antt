-- ===== src/Nginx/Conf/Hops/Opened.antt =====
-- internal/nginx/conf.go: the locations in the text that is written for the inner server.
use cf_local.Prelude.{
  ℕ, ◌≡◌, refl, ap, ◌⊎◌, inl, inr, Bool, true, false, not, ◌&&◌, List, [], ◌∷◌, ◌++◌, if◌then◌else◌,
  All, Bytes, codes, has_prefix, append_nil, snoc_append,
}
use mathlib.Core.Path.{subst}
use cf_local.Prelude.Quote.{quote}
use cf_local.Nginx.Conf.Names.{
  origin_request_prefix, origin_response_prefix, sanitize_nginx_set_value,
}
use cf_local.Nginx.Conf.Views.{InnerView}
use cf_local.Nginx.Conf.Writers.{
  line, set_line, inner_socket_path, origin_inner_prefix, fetch_prefix, write_inner_location,
  write_origin_request_location, write_origin_response_location, write_inner, write_inners,
}
use cf_local.Nginx.Conf.Hops.{slash, locations_of, locations}

-- A block: its first line, its body, and its end.
abbrev pub closed : Bytes → List Bytes → Bytes
closed text [] = text ++ line (codes "    }")
closed text (l ∷ ls) = closed (text ++ line l) ls

-- A line of a block: empty, or behind eight spaces.
abbrev pub Indented : Bytes → Type 0
Indented l = (l ≡ []) ⊎ (has_prefix (codes "        ") l ≡ true)

-- A text that consists of blank lines and of location blocks, with the names of the blocks in their
-- order.
pub data Opens : Bytes → List Bytes → Type 0 where
  nothing : Opens [] []
  blank : Opens (line []) []
  block :
      (name : Bytes) (body : List Bytes)
      → All Indented body
      → Opens (closed (line (codes "    location " ++ name ++ codes " {")) body) (name ∷ [])
  both : {a b : Bytes} {ls ms : List Bytes} → Opens a ls → Opens b ms → Opens (a ++ b) (ls ++ ms)

-- The first line of a location whose name ends in a slash.
slash_head :
    (prefix : Bytes)
    → codes "    location " ++ (prefix ++ slash) ++ codes " {"
      ≡ codes "    location " ++ prefix ++ codes "/ {"
slash_head prefix =
    let moved : (prefix ++ slash) ++ codes " {" ≡ prefix ++ codes "/ {" =
      snoc_append prefix b'/' (codes " {") in
    ap (λ (x : Bytes). codes "    location " ++ x) moved

-- A block whose name ends in a slash.
slash_block :
    (prefix : Bytes) (body : List Bytes)
    → All Indented body
    → Opens
        (closed (line (codes "    location " ++ prefix ++ codes "/ {")) body)
        ((prefix ++ slash) ∷ [])
slash_block prefix body inside =
    subst (λ x. Opens (closed (line x) body) ((prefix ++ slash) ∷ [])) (slash_head prefix)
      (block (prefix ++ slash) body inside)

module _ (printable : ℕ → Bool) where
  -- A line that sets a variable, without its end.
  abbrev set_text : Bytes → Bytes → Bytes
  set_text name value =
      codes "        set $" ++ name ++ codes " " ++ quote printable value ++ codes ";"

  Opens-inner : (v : InnerView) → Opens (write_inner_location printable v) (v.location ∷ [])
  unfolding write_inner_location set_line has_prefix
  Opens-inner v =
      block v.location
        (set_text (codes "cf_policy_id") v.policy_id
          ∷ codes "        js_header_filter ttl.computeAndInject;"
          ∷ []
          ∷ (codes "        proxy_pass http://" ++ v.upstream_name ++ codes "/;")
          ∷ codes "        proxy_set_header Host $host;"
          ∷ [])
        (inr refl, (inr refl, (inl refl, (inr refl, (inr refl, tt)))))

  module _ (distribution_id edge_proxy_url : Bytes) where
    -- The two lines that both hooks begin with.
    abbrev hook_lines : List Bytes → List Bytes
    hook_lines rest =
        set_text (codes "cf_distribution_id") (sanitize_nginx_set_value distribution_id)
        ∷ set_text (codes "cf_edge_proxy") (sanitize_nginx_set_value edge_proxy_url)
        ∷ rest

    Opens-request :
        (v : InnerView)
        → Opens
            (write_origin_request_location printable distribution_id edge_proxy_url v)
            ((origin_request_prefix v.sanitized_policy_id ++ slash) ∷ [])
    unfolding write_origin_request_location set_line has_prefix
    Opens-request v =
        let prefix = origin_request_prefix v.sanitized_policy_id in
        slash_block prefix
          (hook_lines (
            set_text (codes "cf_le_origin_inner_prefix") (origin_inner_prefix v)
            ∷ set_text (codes "cf_le_or_prefix") prefix
            ∷ codes "        js_content edge.runOriginRequest;"
            ∷ []))
          (inr refl, (inr refl, (inr refl, (inr refl, (inr refl, tt)))))

    Opens-response :
        (v : InnerView)
        → Opens
            (write_origin_response_location printable distribution_id edge_proxy_url v)
            ((origin_response_prefix v.sanitized_policy_id ++ slash) ∷ [])
    unfolding write_origin_response_location set_line has_prefix
    Opens-response v =
        let prefix = origin_response_prefix v.sanitized_policy_id in
        slash_block prefix
          (hook_lines (
            set_text (codes "cf_le_inner_socket") inner_socket_path
            ∷ set_text (codes "cf_le_oresp_prefix") prefix
            ∷ set_text (codes "cf_le_oresp_fetch_prefix") (fetch_prefix v)
            ∷ codes "        js_content edge.runOriginResponse;"
            ∷ []))
          (inr refl, (inr refl, (inr refl, (inr refl, (inr refl, (inr refl, tt))))))

    Opens-blank : (b : Bool) → Opens (if b then [] else line []) []
    Opens-blank true = nothing
    Opens-blank false = blank

    Opens-write_inner :
        (first : Bool) (v : InnerView)
        → Opens (write_inner printable distribution_id edge_proxy_url first v) (locations_of v)
    unfolding write_inner locations_of
    Opens-write_inner first v =
        subst (Opens (write_inner printable distribution_id edge_proxy_url first v))
          (regrouped
            (if v.origin_request
              then (origin_request_prefix v.sanitized_policy_id ++ slash) ∷ []
              else [])
            (if v.origin_response
              then (origin_response_prefix v.sanitized_policy_id ++ slash) ∷ []
              else []))
          (both
            (both (both (request v.origin_request) (Opens-blank (first && not v.origin_request)))
              (Opens-inner v))
            (response v.origin_response))
      where
        regrouped :
            (xs ys : List Bytes) → xs ++ [] ++ (v.location ∷ []) ++ ys ≡ xs ++ (v.location ∷ ys)
        regrouped xs ys = rw (append_nil xs) (snoc_append xs v.location ys)

        request :
            (b : Bool)
            → Opens
                (if b
                  then (if first then [] else line [])
                    ++ write_origin_request_location printable distribution_id edge_proxy_url v
                  else [])
                (if b then (origin_request_prefix v.sanitized_policy_id ++ slash) ∷ [] else [])
        request true = both (Opens-blank first) (Opens-request v)
        request false = nothing

        response :
            (b : Bool)
            → Opens
                (if b
                  then line []
                    ++ write_origin_response_location printable distribution_id edge_proxy_url v
                  else [])
                (if b then (origin_response_prefix v.sanitized_policy_id ++ slash) ∷ [] else [])
        response true = both blank (Opens-response v)
        response false = nothing

    -- What is written for the inner views opens their locations, in order.
    pub Opens-write_inners :
        (first : Bool) (vs : List InnerView)
        → Opens (write_inners printable distribution_id edge_proxy_url first vs) (locations vs)
    unfolding write_inners locations
    Opens-write_inners first [] = nothing
    Opens-write_inners first (v ∷ vs) =
        both (Opens-write_inner first v) (Opens-write_inners false vs)

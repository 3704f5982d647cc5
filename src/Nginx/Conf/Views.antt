-- ===== src/Nginx/Conf/Views.antt =====
-- internal/nginx/conf.go: the views of origins, behaviors and inner locations.
pub mod Complete
pub mod Inner
pub mod Listing
pub mod Routes
pub mod Served
use cf_local.Prelude.{
  ℕ, ◌+◌, Bool, false, not, ◌||◌, Option, none, some, List, [], ◌∷◌, ◌++◌, if◌then◌else◌, any,
  Bytes, codes, equal, less, Dict, lookup, insert, Result, ok, err, ◌>>=◌,
}
use cf_local.Prelude.Int.{ℤ, pos}
use cf_local.Prelude.Sort.{sort_stable}
use cf_local.Prelude.Format.{decimal, decimal_int}
use cf_local.Distribution.{Origin, Association, Behavior, CacheBehavior, DistributionConfig}
use cf_local.Nginx.Headers.{HeadersPolicy, deref_string, lookup_response_headers}
use cf_local.Nginx.Conf.Names.{
  ConfError, no_distribution, no_default, no_origins, empty_origin, empty_policy, conflict,
  in_behavior, sanitize_id, origin_upstream_name, inner_prefix, path_pattern_to_location,
}

pub record OriginView : Type 0 where
  pub upstream_name : Bytes
  pub server : Bytes

pub record BehaviorView : Type 0 where
  pub comment : Bytes
  pub location : Bytes
  pub policy_id : Bytes
  pub inner_prefix : Bytes
  pub header_directives : List Bytes
  pub viewer_request : Bool
  pub origin_request : Bool
  pub origin_response : Bool
  pub sanitized_policy_id : Bytes

pub record InnerView : Type 0 where
  pub location : Bytes
  pub policy_id : Bytes
  pub upstream_name : Bytes
  pub origin_request : Bool
  pub origin_response : Bool
  pub sanitized_policy_id : Bytes

unfoldable pub port_of : Option (Option ℤ) → ℤ
port_of (some (some port)) = port
port_of _ = pos 80

unfoldable pub origin_view : Origin → Result ConfError OriginView
origin_view o =
    let san = sanitize_id (deref_string o.id) in
    if equal san []
    then err (empty_origin (deref_string o.id))
    else ok (record {
      upstream_name = codes "origin_" ++ san;
      server = deref_string o.domain_name ++ b':' ∷ decimal_int (port_of o.custom_origin_config);
    })

unfoldable pub origin_views : List Origin → Result ConfError (List OriginView)
origin_views [] = ok []
origin_views (o ∷ os) = do view ← origin_view o; views ← origin_views os; ok (view ∷ views)

unfoldable pub build_origin_views : Option (List Origin) → Result ConfError (List OriginView)
build_origin_views none = err no_origins
build_origin_views (some []) = err no_origins
build_origin_views (some (o ∷ os)) = origin_views (o ∷ os)

-- The SDK's values of the event types.
abbrev pub event_viewer_request : Bytes
event_viewer_request = codes "viewer-request"

abbrev pub event_origin_request : Bytes
event_origin_request = codes "origin-request"

abbrev pub event_origin_response : Bytes
event_origin_response = codes "origin-response"

unfoldable pub has_association : Bytes → Option (List Association) → Bool
has_association event none = false
has_association event (some items) = any (λ a. equal a.event_type event) items

unfoldable pub has_viewer_request_association : Option (List Association) → Bool
has_viewer_request_association lfa = has_association event_viewer_request lfa

unfoldable pub has_origin_request_association : Option (List Association) → Bool
has_origin_request_association lfa = has_association event_origin_request lfa

unfoldable pub has_origin_response_association : Option (List Association) → Bool
has_origin_response_association lfa = has_association event_origin_response lfa

-- The flags are raised, never lowered. The first policy's raw id stays.
unfoldable pub merge_inner : InnerView → Bytes → Bytes → Bool → Bool → Result ConfError InnerView
merge_inner existing policy_id upstream origin_request origin_response =
    if not (equal existing.upstream_name upstream)
    then err (conflict policy_id existing.upstream_name upstream)
    else ok (record {
      location = existing.location;
      policy_id = existing.policy_id;
      upstream_name = existing.upstream_name;
      origin_request = existing.origin_request || origin_request;
      origin_response = existing.origin_response || origin_response;
      sanitized_policy_id = existing.sanitized_policy_id;
    })

-- `/_cf_inner_<san>/`
unfoldable pub new_inner : Bytes → Bytes → Bytes → Bool → Bool → InnerView
new_inner policy_id upstream san origin_request origin_response = record {
  location = codes "/_cf_inner_" ++ san ++ codes "/";
  policy_id = policy_id;
  upstream_name = upstream;
  origin_request = origin_request;
  origin_response = origin_response;
  sanitized_policy_id = san;
}

unfoldable pub inner_for :
    Option InnerView → Bytes → Bytes → Bytes → Bool → Bool → Result ConfError InnerView
inner_for none policy_id upstream san origin_request origin_response =
    ok (new_inner policy_id upstream san origin_request origin_response)
inner_for (some existing) policy_id upstream san origin_request origin_response =
    merge_inner existing policy_id upstream origin_request origin_response

-- The source writes an unchanged view back only where a flag is raised; the map is the same.
unfoldable pub add_inner :
    Bytes → Bytes → Bytes → Bool → Bool → Dict InnerView → Result ConfError (Dict InnerView)
add_inner policy_id origin_id san origin_request origin_response inners = do
  upstream ← origin_upstream_name origin_id
  inner ← inner_for (lookup san inners) policy_id upstream san origin_request origin_response
  ok (insert san inner inners)

-- The comment behind its first words.
unfoldable pub comment_tail : Bytes → Bytes → Bytes
comment_tail policy_id rhp_id =
    codes "(CachePolicyId="
    ++ policy_id
    ++ (if equal rhp_id [] then [] else codes ", ResponseHeadersPolicyId=" ++ rhp_id)
    ++ codes ")."

abbrev pub Views : Type 0
Views = List BehaviorView × Dict InnerView

unfoldable pub behavior_head : ℕ → Bytes → Bytes
behavior_head i pattern =
    codes "CacheBehaviors[" ++ decimal i ++ codes "]: " ++ pattern ++ codes " "

unfoldable pub within_behavior {ℓ} : {A : Type ℓ} → ℕ → Result ConfError A → Result ConfError A
within_behavior i (ok a) = ok a
within_behavior i (err e) = err (in_behavior i e)

unfoldable pub items_of : Option (List CacheBehavior) → List CacheBehavior
items_of none = []
items_of (some items) = items

unfoldable pub keys : Dict InnerView → List Bytes
keys [] = []
keys ((k, v) ∷ m) = k ∷ keys m

-- `inners[k]` at the keys that stand in the map.
unfoldable pub inners_at : Dict InnerView → List Bytes → List InnerView
inners_at m [] = []
inners_at m (k ∷ ks) = elim (lookup k m) [ none ↦ inners_at m ks | some v ↦ v ∷ inners_at m ks ]

unfoldable pub inner_list : Dict InnerView → List InnerView
inner_list m = inners_at m (sort_stable less (keys m))

module _ (rhp : Dict (Option HeadersPolicy)) where
  unfoldable pub behavior_view : Bytes → Bytes → Behavior → BehaviorView
  behavior_view head location b =
      let policy_id = deref_string b.cache_policy_id in
      let rhp_id = deref_string b.response_headers_policy_id in
      record {
        comment = head ++ comment_tail policy_id rhp_id;
        location = location;
        policy_id = policy_id;
        inner_prefix = codes "/_cf_inner_" ++ sanitize_id policy_id;
        header_directives = lookup_response_headers rhp rhp_id;
        viewer_request = has_viewer_request_association b.lambda_function_associations;
        origin_request = has_origin_request_association b.lambda_function_associations;
        origin_response = has_origin_response_association b.lambda_function_associations;
        sanitized_policy_id = sanitize_id policy_id;
      }

  -- What the two halves of `buildBehaviorViews` do with one behavior.
  unfoldable pub add_behavior :
      Bytes → Bytes → Behavior → Dict InnerView → Result ConfError (BehaviorView × Dict InnerView)
  add_behavior head location b inners =
      let policy_id = deref_string b.cache_policy_id in
      if equal (sanitize_id policy_id) [] then err (empty_policy policy_id) else do
        inners ←
            add_inner policy_id (deref_string b.target_origin_id) (sanitize_id policy_id)
              (has_origin_request_association b.lambda_function_associations)
              (has_origin_response_association b.lambda_function_associations) inners
        ok (behavior_view head location b, inners)

  -- The loop over CacheBehaviors, from index `i`.
  unfoldable pub add_behaviors : ℕ → List CacheBehavior → Views → Result ConfError Views
  add_behaviors i [] views = ok views
  add_behaviors i (b ∷ bs) (behaviors, inners) = do
    location ← within_behavior i (path_pattern_to_location (deref_string b.path_pattern))
    added ←
        within_behavior i
          (add_behavior (behavior_head i (deref_string b.path_pattern)) location b.behavior inners)
    add_behaviors (i + 1) bs (behaviors ++ added.0 ∷ [], added.1)

  unfoldable pub build_views : Behavior → List CacheBehavior → Result ConfError Views
  build_views default items = do
    views ← add_behaviors 0 items ([], [])
    added ← add_behavior (codes "DefaultCacheBehavior ") (codes "/") default views.1
    ok (views.0 ++ added.0 ∷ [], added.1)

  unfoldable pub build_behavior_views :
      Option DistributionConfig → Result ConfError (List BehaviorView × List InnerView)
  build_behavior_views none = err no_distribution
  build_behavior_views (some d) = elim d.default_cache_behavior [
    | none ↦ err no_default
    | some default ↦ do
      views ← build_views default (items_of d.cache_behaviors)
      ok (views.0, inner_list views.1)
  ]

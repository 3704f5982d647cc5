-- ===== src/Nginx/Render/Accepts.antt =====
-- internal/nginx/renderer.go: which configurations are rendered.
use cf_local.Prelude.{
  ℕ, ◌≡◌, refl, ap, ◌≢◌, ◌↔◌, inl, inr, Bool, true, Option, none, some, List, [], ◌∷◌, ◌++◌, arith,
  Bool-cases, Option-cases, All, Bytes, codes, equal, equal_iff, Dict, Result, ok, err, >>=-eq-ok,
  some-injective, Succeeds, Succeeds->>=,
}
use mathlib.Core.Path.{subst}
use cf_local.Prelude.Format.{decimal_int}
use cf_local.Distribution.{Origin, Behavior, DistributionConfig}
use cf_local.Nginx.Headers.{HeadersPolicy, deref_string, deref_bool}
use cf_local.Nginx.Conf.Names.{ConfError, sanitize_id}
use cf_local.Nginx.Conf.Views.{
  BehaviorView, InnerView, origin_view, origin_views, build_origin_views, build_behavior_views,
  port_of,
}
use cf_local.Nginx.Conf.Views.Complete.{IsNamed, Agree}
use cf_local.Nginx.Conf.Views.Served.{rules, build_behavior_views_iff}
use cf_local.Nginx.Render.Policies.{NoNil, build_policies_json_iff}
use cf_local.Nginx.Render.{
  LoadResult, PolicyOut, build_policies_json, render_conf, conf_error, enabled_conf, conf_for,
  disabled_conf, or_default, default_edge_proxy_url, default_resolver, render,
}

abbrev pub HasName : Origin → Type 0
HasName o = sanitize_id (deref_string o.id) ≢ []

-- There is an origin, and each has an id of which something is left.
abbrev pub OriginsNamed : Option (List Origin) → Type 0
OriginsNamed none = ⊥
OriginsNamed (some []) = ⊥
OriginsNamed (some (o ∷ os)) = All HasName (o ∷ os)

-- The default behavior is there, and the behaviors have locations, names and one origin a policy.
abbrev pub BehaviorsNamed : DistributionConfig → Type 0
BehaviorsNamed d =
    (default : Behavior) × (d.default_cache_behavior ≡ some default)
    × All IsNamed (rules d default)
    × Agree (rules d default)

origin_view_iff : (o : Origin) → Succeeds (origin_view o) ↔ HasName o
unfolding origin_view
origin_view_iff o = elim (Bool-cases (equal (sanitize_id (deref_string o.id)) [])) [
  | inl e ↦ (
    λ (v, h). absurd (ground (arith, rw e at h)),
    λ n. absurd (n ((equal_iff (sanitize_id (deref_string o.id)) []).0 e)),
  )
  | inr e ↦ (
    λ s n. absurd (ground (arith, (equal_iff (sanitize_id (deref_string o.id)) []).1 n)),
    λ n. (
      record {
        upstream_name = codes "origin_" ++ sanitize_id (deref_string o.id);
        server = deref_string o.domain_name ++ b':' ∷ decimal_int (port_of o.custom_origin_config);
      },
      rw e refl,
    ),
  )
]

origin_views_iff : (os : List Origin) → Succeeds (origin_views os) ↔ All HasName os
unfolding origin_views
origin_views_iff [] = (λ s. tt, λ a. ([], refl))
origin_views_iff (o ∷ os) = (
  λ (vs, h).
      let (v, e, k) = >>=-eq-ok (origin_view o) _ h in
      let (rest, f, l) = >>=-eq-ok (origin_views os) _ k in
      ((origin_view_iff o).0 (v, e), (origin_views_iff os).0 (rest, f)),
  λ (n, ns).
      let (v, e) = (origin_view_iff o).1 n in
      let (rest, f) = (origin_views_iff os).1 ns in (v ∷ rest, rw e (rw f refl)),
)

build_origin_views_iff :
    (o : Option (List Origin)) → Succeeds (build_origin_views o) ↔ OriginsNamed o
unfolding build_origin_views
build_origin_views_iff none = (λ (v, h). cc, λ n. absurd n)
build_origin_views_iff (some []) = (λ (v, h). cc, λ n. absurd n)
build_origin_views_iff (some (o ∷ os)) = origin_views_iff (o ∷ os)

default_of :
    (rhp : Dict (Option HeadersPolicy)) (d : DistributionConfig)
    (vs : List BehaviorView × List InnerView)
    → build_behavior_views rhp (some d) ≡ ok vs
    → (default : Behavior) × (d.default_cache_behavior ≡ some default)
unfolding build_behavior_views
default_of rhp d vs h = elim (Option-cases d.default_cache_behavior) [
  | inr (default, e) ↦ (default, e)
  | inl e ↦ absurd (ground (arith, rw (e, build_behavior_views) at h))
]

module _ (encode : Dict PolicyOut → Option Bytes) (printable : ℕ → Bool) where
  render_conf_iff :
      (d : DistributionConfig) (rhp : Dict (Option HeadersPolicy)) (id url resolver : Bytes)
      → Succeeds (render_conf printable d rhp id url resolver)
        ↔ OriginsNamed d.origins × BehaviorsNamed d
  unfolding render_conf
  render_conf_iff d rhp id url resolver = (
    λ (v, h).
        let (os, e, k) = >>=-eq-ok (build_origin_views d.origins) _ h in
        let (vs, f, _) = >>=-eq-ok (build_behavior_views rhp (some d)) _ k in
        let (default, g) = default_of rhp d vs f in
        let (ns, ag) = (build_behavior_views_iff rhp d default g).0 (vs, f) in
        ((build_origin_views_iff d.origins).0 (os, e), (default, g, ns, ag)),
    λ (names, (default, g, named, agree)).
        let (os, e) = (build_origin_views_iff d.origins).1 names in
        let (vs, f) = (build_behavior_views_iff rhp d default g).1 (named, agree) in
        Succeeds->>= (build_origin_views d.origins) _ os e
          (Succeeds->>= (build_behavior_views rhp (some d)) _ vs f (_, refl)),
  )

  enabled_conf_iff :
      (res : LoadResult) (d : DistributionConfig)
      → Succeeds (enabled_conf printable res d) ↔ OriginsNamed d.origins × BehaviorsNamed d
  unfolding enabled_conf
  enabled_conf_iff res d =
      let i =
        render_conf_iff d res.response_headers_policies res.distribution_id
          (or_default default_edge_proxy_url res.edge_proxy_url)
          (or_default default_resolver res.resolver) in
      go _ refl i
    where
      go :
          (r : Result ConfError Bytes)
          → render_conf printable d res.response_headers_policies res.distribution_id
              (or_default default_edge_proxy_url res.edge_proxy_url)
              (or_default default_resolver res.resolver)
            ≡ r
          → (Succeeds (
                render_conf printable d res.response_headers_policies res.distribution_id
                  (or_default default_edge_proxy_url res.edge_proxy_url)
                  (or_default default_resolver res.resolver))
              ↔ OriginsNamed d.origins × BehaviorsNamed d)
          → Succeeds (elim r [ ok conf ↦ ok (some conf) | err e ↦ err (conf_error e) ])
            ↔ OriginsNamed d.origins × BehaviorsNamed d
      go (ok conf) e (to, from) = (λ s. to (conf, e), λ n. (some conf, refl))
      go (err x) e (to, from) = (λ (v, h). cc, λ n. let (v, h) = from n in cc)

  conf_for_iff :
      (res : LoadResult) (o : Option DistributionConfig)
      → Succeeds (conf_for printable res o) ↔ (
          (d : DistributionConfig)
          → o ≡ some d
          → deref_bool d.enabled ≡ true
          → OriginsNamed d.origins × BehaviorsNamed d)
  unfolding conf_for
  conf_for_iff res none = (λ s d e. cc, λ h. (none, refl))
  conf_for_iff res (some d) = elim (Bool-cases (deref_bool d.enabled)) [
    | inl e ↦ (
      λ (v, h) x p q.
          subst (λ y. OriginsNamed y.origins × BehaviorsNamed y) (some-injective p)
            ((enabled_conf_iff res d).0 (v, rw (e, conf_for) at h)),
      λ h. let (v, k) = (enabled_conf_iff res d).1 (h d refl e) in (v, rw (e, conf_for) k),
    )
    | inr e ↦ (
      λ s x p q. absurd (
          ground (arith, ap (λ (y : DistributionConfig). deref_bool y.enabled) (some-injective p))),
      λ h. (some disabled_conf, rw (e, conf_for) refl),
    )
  ]

  -- With an encoder that does not fail, Render succeeds exactly when no cache policy is nil and,
  -- where there is a distribution and it is enabled, it has an origin, every origin id and every
  -- behavior's policy and target ids sanitize to something, every path pattern has a location, the
  -- default behavior is there, and behaviors whose policy ids sanitize alike have target ids that
  -- sanitize alike. That an id names an existing policy or origin is not among the conditions.
  pub render_iff :
      ((m : Dict PolicyOut) → (text : Bytes) × (encode m ≡ some text))
      → (res : LoadResult)
      → Succeeds (render encode printable (some res))
        ↔ NoNil res.cache_policies
          × ((d : DistributionConfig)
              → res.distribution ≡ some d
              → deref_bool d.enabled ≡ true
              → OriginsNamed d.origins × BehaviorsNamed d)
  unfolding render
  render_iff encodes res = (
    λ (v, h).
        let (text, e, k) = >>=-eq-ok (build_policies_json encode res.cache_policies) _ h in
        let (conf, f, _) = >>=-eq-ok (conf_for printable res res.distribution) _ k in
        (
          (build_policies_json_iff encode encodes res.cache_policies).0 (text, e),
          (conf_for_iff res res.distribution).0 (conf, f),
        ),
    λ (n, c).
        let (text, e) = (build_policies_json_iff encode encodes res.cache_policies).1 n in
        let (conf, f) = (conf_for_iff res res.distribution).1 c in
        Succeeds->>= (build_policies_json encode res.cache_policies) _ text e
          (Succeeds->>= (conf_for printable res res.distribution) _ conf f (_, refl)),
  )

-- ===== src/Nginx/Conf/Views/Served.antt =====
-- internal/nginx/conf.go: `buildBehaviorViews` as a whole.
use cf_local.Prelude.{
  ◌≡◌, refl, sym, ap, ◌∙◌, ◌↔◌, Option, some, List, ◌++◌, map, All, Bytes, codes, less, Dict,
  lookup, Result, ok, ◌>>=◌, >>=-eq-ok, ok-injective, All2, All2-map, some-injective,
}
use mathlib.Core.Path.{subst}
use cf_local.Prelude.Sort.{In, Nodup, Ordered, All2-In, All-of_All2}
use cf_local.Distribution.{Behavior, DistributionConfig}
use cf_local.Nginx.Headers.{HeadersPolicy}
use cf_local.Nginx.Conf.Names.{ConfError}
use cf_local.Nginx.Conf.Views.{
  InnerView, BehaviorView, Views, build_views, build_behavior_views, items_of, inner_list,
}
use cf_local.Nginx.Conf.Views.Inner.{policy_key, origin_key}
use cf_local.Nginx.Conf.Views.Routes.{Rule, rules_of, Routes, RoutedIn, build_views-eq-ok}
use cf_local.Nginx.Conf.Views.Complete.{IsNamed, Agree, build_views_complete}
use cf_local.Nginx.Conf.Views.Listing.{In-inner_list, inner_list-Ordered}

-- The rules of a configuration: those of its cache behaviors, and the default one.
abbrev pub rules : DistributionConfig → Behavior → List Rule
rules d default = rules_of default (items_of d.cache_behaviors)

abbrev pub ServedBy : List InnerView → Rule → BehaviorView → Type 0
ServedBy inners rule view = (inner : InnerView) × In inner inners × Routes rule view inner

origin_injective : (a b : Bytes) → codes "origin_" ++ a ≡ codes "origin_" ++ b → a ≡ b
origin_injective a b h = cc

-- Rules of one policy are served by one view, and so have its upstream.
routed-Agree :
    (m : Dict InnerView) (rs : List Rule) (views : List BehaviorView)
    → All2 (RoutedIn m) rs views
    → Agree rs
routed-Agree m rs views routed r t i j same =
    let (_, (v, e, rv)) = All2-In (RoutedIn m) rs views routed i in
    let (_, (w, f, tw)) = All2-In (RoutedIn m) rs views routed j in
    let one : v ≡ w = some-injective (sym e ∙ ap (λ k. lookup k m) same ∙ f) in
    origin_injective (origin_key r.1) (origin_key t.1)
      (sym rv.serves.upstream ∙ ap (λ (x : InnerView). x.upstream_name) one ∙ tw.serves.upstream)

module _ (rhp : Dict (Option HeadersPolicy)) (d : DistributionConfig) (default : Behavior) where
  abbrev finish : Views → Result ConfError (List BehaviorView × List InnerView)
  finish views = ok (views.0, inner_list views.1)

  build_behavior_views_lem :
      d.default_cache_behavior ≡ some default
      → build_behavior_views rhp (some d)
        ≡ (build_views rhp default (items_of d.cache_behaviors) >>= finish)
  unfolding build_behavior_views
  build_behavior_views_lem e = rw (e, build_behavior_views) refl

  pub build_behavior_views-eq-ok :
      (result : List BehaviorView × List InnerView)
      → d.default_cache_behavior ≡ some default
      → build_behavior_views rhp (some d) ≡ ok result
      → (views : Views) × (build_views rhp default (items_of d.cache_behaviors) ≡ ok views)
        × ((views.0, inner_list views.1) ≡ result)
  build_behavior_views-eq-ok result e h =
      let (views, f, last) =
        >>=-eq-ok (build_views rhp default (items_of d.cache_behaviors)) finish
          (sym (build_behavior_views_lem e) ∙ h) in
      (views, f, ok-injective last)

  -- When the views of a distribution with a default behavior are built, the outer locations are one
  -- for each cache behavior in its order, under the location of its path pattern, and last `/` for
  -- the default one. The proxy prefix of each, with `/` behind it, is the location of a listed inner
  -- location, whose upstream is that of the behavior's own target origin and which has the
  -- origin-request and the origin-response hook wherever the behavior wants them.
  pub build_behavior_views_served :
      (result : List BehaviorView × List InnerView)
      → d.default_cache_behavior ≡ some default
      → build_behavior_views rhp (some d) ≡ ok result
      → All2 (ServedBy result.1) (rules d default) result.0
  build_behavior_views_served result e h =
      let (views, f, last) = build_behavior_views-eq-ok result e h in
      let (g, routed) = build_views-eq-ok rhp default (items_of d.cache_behaviors) views f in
      subst (λ (x : List BehaviorView × List InnerView). All2 (ServedBy x.1) (rules d default) x.0)
        last
        (All2-map (RoutedIn views.1) (ServedBy (inner_list views.1)) (rules d default) views.0
          (λ rule view (inner, found, r).
            (inner, In-inner_list views.1 (policy_key rule.1) inner found, r))
          routed)

  -- The inner locations of built views stand in the order of their sanitized policy ids, and no two
  -- have the same one.
  pub build_behavior_views-Ordered :
      (result : List BehaviorView × List InnerView)
      → d.default_cache_behavior ≡ some default
      → build_behavior_views rhp (some d) ≡ ok result
      → Ordered less (map (λ (v : InnerView). v.sanitized_policy_id) result.1)
        × Nodup (map (λ (v : InnerView). v.sanitized_policy_id) result.1)
  build_behavior_views-Ordered result e h =
      let (views, f, last) = build_behavior_views-eq-ok result e h in
      let (g, routed) = build_views-eq-ok rhp default (items_of d.cache_behaviors) views f in
      subst
        (λ (x : List BehaviorView × List InnerView).
          Ordered less (map (λ (v : InnerView). v.sanitized_policy_id) x.1)
          × Nodup (map (λ (v : InnerView). v.sanitized_policy_id) x.1))
        last (inner_list-Ordered views.1 g)

  -- The views of a distribution with a default behavior can be built exactly when
  -- pathPatternToLocation accepts every path pattern, no sanitized id of a policy or a target origin is empty, and any two
  -- behaviors whose policy ids sanitize alike have origin ids that sanitize alike.
  pub build_behavior_views_iff :
      d.default_cache_behavior ≡ some default
      → (((result : List BehaviorView × List InnerView) × (build_behavior_views rhp (some d)
              ≡ ok result))
          ↔ All IsNamed (rules d default) × Agree (rules d default))
  build_behavior_views_iff e = (
    λ (result, h).
        let (views, f, _) = build_behavior_views-eq-ok result e h in
        let (g, routed) = build_views-eq-ok rhp default (items_of d.cache_behaviors) views f in
        (
          All-of_All2 (RoutedIn views.1) IsNamed (rules d default) views.0
              (λ rule view (inner, found, r). ((view.location, r.location), r.named, r.target))
              routed,
          routed-Agree views.1 (rules d default) views.0 routed,
        ),
    λ (named, agree).
        let (views, f) =
          build_views_complete rhp default (items_of d.cache_behaviors) agree named in
        ((views.0, inner_list views.1), build_behavior_views_lem e ∙ rw f refl),
  )

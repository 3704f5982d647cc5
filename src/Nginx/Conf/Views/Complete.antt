-- ===== src/Nginx/Conf/Views/Complete.antt =====
-- internal/nginx/conf.go: which configurations `buildBehaviorViews` accepts.
use cf_local.Prelude.{
  ℕ, ◌+◌, ◌≡◌, refl, ap, ◌∙◌, ◌≢◌, Bool, true, Option, none, some, List, [], ◌∷◌, ◌++◌, map, All,
  here, there, Bytes, codes, equal, equal_iff, equal-ne, Dict, lookup, insert, ok, Entries,
  Entries-insert, All-of_append, Succeeds->>=,
}
use cf_local.Prelude.Sort.{In, In-map, In-appendl, In-appendr}
use cf_local.Distribution.{Behavior, CacheBehavior}
use cf_local.Nginx.Headers.{HeadersPolicy, deref_string}
use cf_local.Nginx.Conf.Names.{origin_upstream_name}
use cf_local.Nginx.Conf.Views.{
  InnerView, BehaviorView, Views, add_inner, inner_for, merge_inner, new_inner, add_behavior,
  add_behaviors, behavior_view, behavior_head, within_behavior, build_views,
}
use cf_local.Nginx.Conf.Views.Inner.{policy_key, origin_key, wants_request, wants_response, merged}
use cf_local.Nginx.Conf.Views.Routes.{Rule, rule_of, rules_of}

-- A rule with a location, and with ids of which something is left.
abbrev pub IsNamed : Rule → Type 0
IsNamed r =
    ((location : Bytes) × (r.0 ≡ ok location)) × (policy_key r.1 ≢ []) × (origin_key r.1 ≢ [])

-- Rules of one policy have one origin, as far as their sanitized ids tell.
abbrev pub Agree : List Rule → Type 0
Agree rules =
    (r t : Rule)
    → In r rules
    → In t rules
    → policy_key r.1 ≡ policy_key t.1
    → origin_key r.1 ≡ origin_key t.1

-- Each view goes back to a rule.
abbrev From : List Rule → Dict InnerView → Type 0
From rules = Entries (λ k v.
    (r : Rule) × In r rules
    × (policy_key r.1 ≡ k)
    × (v.upstream_name ≡ codes "origin_" ++ origin_key r.1))

origin_upstream_name_complete :
    (b : Behavior)
    → origin_key b ≢ []
    → origin_upstream_name (deref_string b.target_origin_id) ≡ ok (codes "origin_" ++ origin_key b)
unfolding origin_upstream_name
origin_upstream_name_complete b h = rw (equal-ne (origin_key b) [] h) refl

inner_for_complete :
    (o : Option InnerView) (policy_id upstream san : Bytes) (req resp : Bool)
    → ((v : InnerView) → o ≡ some v → v.upstream_name ≡ upstream)
    → (w : InnerView) × (inner_for o policy_id upstream san req resp ≡ ok w)
      × (w.upstream_name ≡ upstream)
unfolding inner_for merge_inner new_inner
inner_for_complete none policy_id upstream san req resp h =
    (new_inner policy_id upstream san req resp, refl, refl)
inner_for_complete (some v) policy_id upstream san req resp h =
    let e : equal v.upstream_name upstream ≡ true =
      (equal_iff v.upstream_name upstream).1 (h v refl) in
    (merged v req resp, rw e refl, h v refl)

module _ (rhp : Dict (Option HeadersPolicy)) where
  add_behavior_complete :
      (head location : Bytes) (b : Behavior) (m : Dict InnerView)
      → policy_key b ≢ []
      → origin_key b ≢ []
      → ((v : InnerView)
          → lookup (policy_key b) m ≡ some v
          → v.upstream_name ≡ codes "origin_" ++ origin_key b)
      → (w : InnerView) × (add_behavior rhp head location b m
          ≡ ok (behavior_view rhp head location b, insert (policy_key b) w m))
        × (w.upstream_name ≡ codes "origin_" ++ origin_key b)
  unfolding add_behavior add_inner
  add_behavior_complete head location b m named target agree =
      let (w, e, up) =
        inner_for_complete (lookup (policy_key b) m) (deref_string b.cache_policy_id) _
          (policy_key b) (wants_request b) (wants_response b) agree in
      (
        w,
        rw (equal-ne (policy_key b) [] named)
            (rw (origin_upstream_name_complete b target) (rw e refl)),
        up,
      )

  add_rule_complete :
      (rules : List Rule) (head location : Bytes) (rule : Rule) (m : Dict InnerView)
      → Agree rules
      → In rule rules
      → IsNamed rule
      → From rules m
      → (added : BehaviorView × Dict InnerView) × (add_behavior rhp head location rule.1 m
          ≡ ok added)
        × From rules added.1
  add_rule_complete rules head location rule m agree i (at, named, target) from =
      let (w, e, up) = add_behavior_complete head location rule.1 m named target (λ v found.
        let (r, j, k, u) = from (policy_key rule.1) v found in
        u ∙ ap (λ s. codes "origin_" ++ s) (agree r rule j i k)) in
      (
        (behavior_view rhp head location rule.1, insert (policy_key rule.1) w m),
        e,
        Entries-insert _ (policy_key rule.1) w m (rule, i, refl, up) from,
      )

  add_behaviors_complete :
      (rules : List Rule) (i : ℕ) (items : List CacheBehavior) (views : Views)
      → Agree rules
      → ((b : CacheBehavior) → In b items → In (rule_of b) rules)
      → All IsNamed (map rule_of items)
      → From rules views.1
      → (result : Views) × (add_behaviors rhp i items views ≡ ok result) × From rules result.1
  unfolding add_behaviors within_behavior
  add_behaviors_complete rules i [] views agree sub named from = (views, refl, from)
  add_behaviors_complete rules i (b ∷ bs) (behaviors, m) agree sub named from =
      let ((location, at), _, _) = named.0 in
      let (added, e, next) =
        add_rule_complete rules (behavior_head i (deref_string b.path_pattern)) location (rule_of b)
          m agree (sub b (here refl)) named.0 from in
      let (result, last, done) =
        add_behaviors_complete rules (i + 1) bs (behaviors ++ added.0 ∷ [], added.1) agree
          (λ c j. sub c (there j)) named.1 next in
      (result, rw (at) (rw e last), done)

  pub build_views_complete :
      (default : Behavior) (items : List CacheBehavior)
      → Agree (rules_of default items)
      → All IsNamed (rules_of default items)
      → (result : Views) × (build_views rhp default items ≡ ok result)
  unfolding build_views lookup
  build_views_complete default items agree named =
      let rules = rules_of default items in
      let last : Rule = (ok (codes "/"), default) in
      let names = All-of_append IsNamed (map rule_of items) (last ∷ []) named in
      let (views, e, from) =
        add_behaviors_complete rules 0 items ([], []) agree
          (λ b i. In-appendl (map rule_of items) (last ∷ []) (In-map rule_of items i)) names.0
          (λ k v h. cc) in
      let (added, f, _) =
        add_rule_complete rules (codes "DefaultCacheBehavior ") (codes "/") last views.1 agree
          (In-appendr (map rule_of items) (last ∷ []) (here refl)) names.1.0 from in
      Succeeds->>= (add_behaviors rhp 0 items ([], [])) _ views e (
        Succeeds->>= (add_behavior rhp (codes "DefaultCacheBehavior ") (codes "/") default views.1)
          _ added f (_, refl))

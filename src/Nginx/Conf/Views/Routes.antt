-- ===== src/Nginx/Conf/Views/Routes.antt =====
-- internal/nginx/conf.go: where the outer locations send the requests of each behavior.
use cf_local.Prelude.{
  ℕ, ◌+◌, ◌≡◌, refl, sym, ◌∙◌, ◌≢◌, inl, inr, Option, some, List, [], ◌∷◌, ◌++◌, map, arith,
  Bool-cases, all, Bytes, codes, equal, equal_iff, Dict, lookup, Result, ok, err, >>=-eq-ok,
  ok-injective, All2, All2-snoc, All2-map, append_nil, snoc_append,
}
use mathlib.Core.Path.{subst}
use cf_local.Distribution.{Behavior, CacheBehavior}
use cf_local.Nginx.Headers.{HeadersPolicy, deref_string}
use cf_local.Nginx.Conf.Names.{sanitize_id-all, ConfError, path_pattern_to_location}
use cf_local.Nginx.Conf.Views.{
  InnerView, BehaviorView, Views, add_inner, add_behavior, add_behaviors, behavior_view,
  behavior_head, within_behavior, build_views, has_viewer_request_association,
}
use cf_local.Nginx.Conf.Views.Inner.{
  policy_key, origin_key, wants_request, wants_response, Extends, Serves, Serves-Extends, Good,
  add_inner-eq-ok,
}

-- A behavior with the location that its path pattern stands for.
abbrev pub Rule : Type 0
Rule = Result ConfError Bytes × Behavior

abbrev pub rule_of : CacheBehavior → Rule
rule_of c = (path_pattern_to_location (deref_string c.path_pattern), c.behavior)

-- The rules in the order of the outer locations: the default one is the last.
abbrev pub rules_of : Behavior → List CacheBehavior → List Rule
rules_of default items = map rule_of items ++ (ok (codes "/"), default) ∷ []

-- Its outer location is the rule's, and its requests reach the rule's origin: the proxy prefix is
-- that of an inner location whose upstream is the origin, with the hooks that the rule asks for.
pub record Routes (rule : Rule) (view : BehaviorView) (inner : InnerView) : Type 0 where
  pub location : rule.0 ≡ ok view.location
  pub prefix : inner.location ≡ view.inner_prefix ++ codes "/"
  pub policy : view.policy_id ≡ deref_string rule.1.cache_policy_id
  pub viewer :
      view.viewer_request ≡ has_viewer_request_association rule.1.lambda_function_associations
  pub request : view.origin_request ≡ wants_request rule.1
  pub response : view.origin_response ≡ wants_response rule.1
  pub key : view.sanitized_policy_id ≡ policy_key rule.1
  pub named : policy_key rule.1 ≢ []
  pub target : origin_key rule.1 ≢ []
  pub serves : Serves rule.1 inner

abbrev pub RoutedIn : Dict InnerView → Rule → BehaviorView → Type 0
RoutedIn m rule view =
    (inner : InnerView) × (lookup (policy_key rule.1) m ≡ some inner) × Routes rule view inner

abbrev Kept : Dict InnerView → Dict InnerView → Type 0
Kept m m' =
    (k : Bytes) (v : InnerView)
    → lookup k m ≡ some v
    → (w : InnerView) × (lookup k m' ≡ some w) × Extends v w

Extends-location :
    (rule : Rule) (view : BehaviorView) (v w : InnerView)
    → Extends v w
    → Routes rule view v
    → Routes rule view w
Extends-location rule view v w x r = record {
  location = r.location;
  prefix = x.location ∙ r.prefix;
  policy = r.policy;
  viewer = r.viewer;
  request = r.request;
  response = r.response;
  key = r.key;
  named = r.named;
  target = r.target;
  serves = Serves-Extends rule.1 v w r.serves x;
}

RoutedIn-Kept :
    (m m' : Dict InnerView)
    → Kept m m'
    → (rule : Rule) (view : BehaviorView) → RoutedIn m rule view
    → RoutedIn m' rule view
RoutedIn-Kept m m' kept rule view (v, found, r) =
    let (w, at, x) = kept (policy_key rule.1) v found in (w, at, Extends-location rule view v w x r)

within_behavior-eq-ok {ℓ} :
    {A : Type ℓ} (i : ℕ) (r : Result ConfError A) (a : A) → within_behavior i r ≡ ok a → r ≡ ok a
unfolding within_behavior
within_behavior-eq-ok i (ok b) a h = h
within_behavior-eq-ok i (err e) a h = cc

module _ (rhp : Dict (Option HeadersPolicy)) where
  add_behavior-eq-ok :
      (head location : Bytes) (rule : Rule) (m : Dict InnerView)
      (added : BehaviorView × Dict InnerView)
      → Good m
      → rule.0 ≡ ok location
      → add_behavior rhp head location rule.1 m ≡ ok added
      → Good added.1 × Kept m added.1 × RoutedIn added.1 rule added.0
  unfolding add_behavior behavior_view
  add_behavior-eq-ok head location rule m added g at h =
      elim (Bool-cases (equal (policy_key rule.1) [])) [
        | inl e ↦ absurd (ground (arith, rw e at h))
        | inr e ↦
            let (m', added_inner, last) =
              >>=-eq-ok
                (add_inner (deref_string rule.1.cache_policy_id)
                  (deref_string rule.1.target_origin_id) (policy_key rule.1) (wants_request rule.1)
                  (wants_response rule.1) m)
                _ (rw e at h) in
            let a =
              add_inner-eq-ok _ _ (policy_key rule.1) _ _ m m' g (sanitize_id-all _) added_inner in
            subst
              (λ (x : BehaviorView × Dict InnerView). Good x.1 × Kept m x.1 × RoutedIn x.1 rule x.0)
              (ok-injective last)
              (
                a.good,
                a.kept,
                (
                  a.view,
                  a.found,
                  record {
                    location = at;
                    prefix = a.placed.location;
                    policy = refl;
                    viewer = refl;
                    request = refl;
                    response = refl;
                    key = refl;
                    named = λ n. absurd (ground (arith, equal_iff (policy_key rule.1) []));
                    target = a.named;
                    serves = record {
                      location = a.placed.location;
                      upstream = a.upstream;
                      request = a.request;
                      response = a.response;
                    };
                  },
                ),
              )
      ]

  add_behaviors-eq-ok :
      (i : ℕ) (items : List CacheBehavior) (done : List Rule) (views result : Views)
      → Good views.1
      → All2 (RoutedIn views.1) done views.0
      → add_behaviors rhp i items views ≡ ok result
      → Good result.1 × All2 (RoutedIn result.1) (done ++ map rule_of items) result.0
  unfolding add_behaviors
  add_behaviors-eq-ok i [] done views result g routed h =
      subst (λ (x : Views). Good x.1 × All2 (RoutedIn x.1) (done ++ []) x.0) (ok-injective h)
        (g, subst (λ ds. All2 (RoutedIn views.1) ds views.0) (sym (append_nil done)) routed)
  add_behaviors-eq-ok i (b ∷ bs) done (behaviors, m) result g routed h =
      let (location, e1, h1) =
        >>=-eq-ok (within_behavior i (path_pattern_to_location (deref_string b.path_pattern))) _
          h in
      let (added, e2, h2) =
        >>=-eq-ok
          (within_behavior i (
            add_behavior rhp (behavior_head i (deref_string b.path_pattern)) location b.behavior m))
          _ h1 in
      let (g', kept, now) =
        add_behavior-eq-ok _ location (rule_of b) m added g (within_behavior-eq-ok i _ location e1)
          (within_behavior-eq-ok i _ added e2) in
      let earlier =
        All2-map (RoutedIn m) (RoutedIn added.1) done behaviors (RoutedIn-Kept m added.1 kept)
          routed in
      let (g2, all) =
        add_behaviors-eq-ok (i + 1) bs (done ++ rule_of b ∷ []) (behaviors ++ added.0 ∷ [], added.1)
          result g' (All2-snoc (RoutedIn added.1) done behaviors (rule_of b) added.0 earlier now)
          h2 in
      (
        g2,
        subst (λ ds. All2 (RoutedIn result.1) ds result.0)
            (snoc_append done (rule_of b) (map rule_of bs)) all,
      )

  pub build_views-eq-ok :
      (default : Behavior) (items : List CacheBehavior) (result : Views)
      → build_views rhp default items ≡ ok result
      → Good result.1 × All2 (RoutedIn result.1) (rules_of default items) result.0
  unfolding build_views lookup
  build_views-eq-ok default items result h =
      let (views, e1, h1) = >>=-eq-ok (add_behaviors rhp 0 items ([], [])) _ h in
      let (added, e2, h2) =
        >>=-eq-ok (add_behavior rhp (codes "DefaultCacheBehavior ") (codes "/") default views.1) _
          h1 in
      let empty : Good [] = record { distinct = tt; placed = λ k v e. cc } in
      let (g, all) = add_behaviors-eq-ok 0 items [] ([], []) views empty tt e1 in
      let (g', kept, now) =
        add_behavior-eq-ok _ (codes "/") (ok (codes "/"), default) views.1 added g refl e2 in
      let earlier =
        All2-map (RoutedIn views.1) (RoutedIn added.1) _ _ (RoutedIn-Kept views.1 added.1 kept)
          all in
      subst (λ (x : Views). Good x.1 × All2 (RoutedIn x.1) (rules_of default items) x.0)
        (ok-injective h2)
        (g', All2-snoc (RoutedIn added.1) (map rule_of items) views.0 _ added.0 earlier now)

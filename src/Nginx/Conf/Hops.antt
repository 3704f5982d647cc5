-- ===== src/Nginx/Conf/Hops.antt =====
-- internal/nginx/conf.go: the locations of the inner server, and the hops to them.
pub mod Opened
pub mod Once
pub mod Unique
use cf_local.Prelude.{
  ◌≡◌, refl, sym, ap, ◌∙◌, inl, inr, Bool, true, false, List, [], ◌∷◌, ◌++◌, arith, if◌then◌else◌,
  Bool-cases, Option-cases, All, here, there, all, Bytes, codes, has_prefix, Dict, lookup,
  All-append, snoc_append,
}
use mathlib.Core.Path.{subst}
use cf_local.Prelude.Sort.{In, In-cases, not-In-nil, All-In, In-appendl, In-appendr}
use cf_local.Distribution.{Behavior, CacheBehavior, DistributionConfig}
use cf_local.Nginx.Headers.{HeadersPolicy}
use cf_local.Nginx.Conf.Names.{ConfError, is_id_rune, origin_request_prefix, origin_response_prefix}
use cf_local.Nginx.Conf.Views.{
  InnerView, BehaviorView, build_behavior_views, inner_list, inners_at, items_of,
}
use cf_local.Nginx.Conf.Views.Inner.{policy_key, wants_request, wants_response, Good, Placed}
use cf_local.Nginx.Conf.Views.Listing.{In-inner_list}
use cf_local.Nginx.Conf.Views.Routes.{Rule, Routes, RoutedIn}
use cf_local.Nginx.Conf.Writers.{target_prefix, fetch_prefix}

abbrev pub slash : Bytes
slash = codes "/"

-- The locations of the inner server for one policy, as `writeServerBlock` is to open them.
unfoldable pub locations_of : InnerView → List Bytes
locations_of v =
    (if v.origin_request then (origin_request_prefix v.sanitized_policy_id ++ slash) ∷ [] else [])
    ++ v.location
      ∷ (if v.origin_response
          then (origin_response_prefix v.sanitized_policy_id ++ slash) ∷ []
          else [])

unfoldable pub locations : List InnerView → List Bytes
locations [] = []
locations (v ∷ vs) = locations_of v ++ locations vs

-- A location of one of the three kinds, for a sanitized policy id.
data Shape : Bytes → Type 0 where
  plain : (san : Bytes) → all is_id_rune san ≡ true → Shape (codes "/_cf_inner_" ++ san ++ slash)
  request : (san : Bytes) → all is_id_rune san ≡ true → Shape (codes "/_cf_or_" ++ san ++ slash)
  response : (san : Bytes) → all is_id_rune san ≡ true → Shape (codes "/_cf_oresp_" ++ san ++ slash)

-- An id ends at the slash.
pub id_ends :
    (s t rest : Bytes)
    → all is_id_rune s ≡ true
    → all is_id_rune t ≡ true
    → has_prefix (s ++ slash) (t ++ b'/' ∷ rest) ≡ true
    → s ≡ t
unfolding has_prefix is_id_rune
id_ends [] [] rest h k p = refl
id_ends [] (d ∷ t) rest h k p = absurd (ground arith)
id_ends (c ∷ s) [] rest h k p = absurd (ground arith)
id_ends (c ∷ s) (d ∷ t) rest h k p = ground (arith, id_ends s t rest)

shapes : (l m : Bytes) (rest : Bytes) → Shape l → Shape m → has_prefix l (m ++ rest) ≡ true → l ≡ m
unfolding has_prefix
shapes l m rest (plain s h) (plain t k) p =
    ap (λ x. codes "/_cf_inner_" ++ x ++ slash)
      (id_ends s t rest h k (rw (snoc_append t b'/' rest) at p))
shapes l m rest (plain s h) (request t k) p = absurd (ground arith)
shapes l m rest (plain s h) (response t k) p = absurd (ground arith)
shapes l m rest (request s h) (plain t k) p = absurd (ground arith)
shapes l m rest (request s h) (request t k) p =
    ap (λ x. codes "/_cf_or_" ++ x ++ slash)
      (id_ends s t rest h k (rw (snoc_append t b'/' rest) at p))
shapes l m rest (request s h) (response t k) p = absurd (ground arith)
shapes l m rest (response s h) (plain t k) p = absurd (ground arith)
shapes l m rest (response s h) (request t k) p = absurd (ground arith)
shapes l m rest (response s h) (response t k) p =
    ap (λ x. codes "/_cf_oresp_" ++ x ++ slash)
      (id_ends s t rest h k (rw (snoc_append t b'/' rest) at p))

-- Every location of these views has a shape.
abbrev pub Shaped : InnerView → Type 0
Shaped v = Placed v.sanitized_policy_id v

locations_of-Shape : (v : InnerView) → Shaped v → All Shape (locations_of v)
unfolding locations_of origin_request_prefix origin_response_prefix
locations_of-Shape v p =
    All-append Shape _ _ (before v.origin_request) (at, after v.origin_response)
  where
    at : Shape v.location
    at = subst Shape (sym p.location) (plain v.sanitized_policy_id p.clean)

    before :
        (b : Bool)
        → All Shape (if b then (codes "/_cf_or_" ++ v.sanitized_policy_id ++ slash) ∷ [] else [])
    before true = (request v.sanitized_policy_id p.clean, tt)
    before false = tt

    after :
        (b : Bool)
        → All Shape (if b then (codes "/_cf_oresp_" ++ v.sanitized_policy_id ++ slash) ∷ [] else [])
    after true = (response v.sanitized_policy_id p.clean, tt)
    after false = tt

locations-Shape : (vs : List InnerView) → All Shaped vs → All Shape (locations vs)
unfolding locations
locations-Shape [] p = tt
locations-Shape (v ∷ vs) p =
    All-append Shape _ _ (locations_of-Shape v p.0) (locations-Shape vs p.1)

pub inners_at-Shaped : (m : Dict InnerView) (ks : List Bytes) → Good m → All Shaped (inners_at m ks)
unfolding inners_at
inners_at-Shaped m [] g = tt
inners_at-Shaped m (k ∷ ks) g = elim (Option-cases (lookup k m)) [
  | inl e ↦ rw (e, inners_at) (inners_at-Shaped m ks g)
  | inr (v, e) ↦
      let p = g.placed k v e in
      rw (e, inners_at) (subst (λ j. Placed j v) (sym p.keyed) p, inners_at-Shaped m ks g)
]

-- In a list of well-placed views no location is a prefix of a request for another one.
pub locations_prefix_free :
    (vs : List InnerView) (l m rest : Bytes)
    → All Shaped vs
    → In l (locations vs)
    → In m (locations vs)
    → has_prefix l (m ++ rest) ≡ true
    → l ≡ m
locations_prefix_free vs l m rest p i j h =
    let s = locations-Shape vs p in
    shapes l m rest (All-In Shape (locations vs) s i) (All-In Shape (locations vs) s j) h

pub In-locations :
    (l : Bytes) (v : InnerView) (vs : List InnerView)
    → In v vs
    → In l (locations_of v)
    → In l (locations vs)
unfolding locations
In-locations l v [] i j = absurd (not-In-nil i)
In-locations l v (w ∷ vs) i j = elim (In-cases i) [
  | inl e ↦
      In-appendl (locations_of w) (locations vs) (subst (λ x. In l (locations_of x)) (sym e) j)
  | inr r ↦ In-appendr (locations_of w) (locations vs) (In-locations l v vs r j)
]

pub In-plain : (v : InnerView) → In v.location (locations_of v)
unfolding locations_of
In-plain v =
    In-appendr
      (if v.origin_request then (origin_request_prefix v.sanitized_policy_id ++ slash) ∷ [] else [])
      _ (here refl)

pub In-request :
    (v : InnerView)
    → v.origin_request ≡ true
    → In (origin_request_prefix v.sanitized_policy_id ++ slash) (locations_of v)
unfolding locations_of
In-request v e = rw (e, locations_of) (here refl)

In-response :
    (v : InnerView)
    → v.origin_response ≡ true
    → In (origin_response_prefix v.sanitized_policy_id ++ slash) (locations_of v)
unfolding locations_of
In-response v e =
    In-appendr
      (if v.origin_request then (origin_request_prefix v.sanitized_policy_id ++ slash) ∷ [] else [])
      _ (there (rw e (here refl)))

-- The hop of a behavior ends in a location of its inner view.
pub In-target :
    (rule : Rule) (view : BehaviorView) (v : InnerView)
    → v.sanitized_policy_id ≡ policy_key rule.1
    → Routes rule view v
    → In (target_prefix view ++ slash) (locations_of v)
unfolding target_prefix
In-target rule view v keyed r = elim (Bool-cases view.origin_response) [
  | inl e ↦ rw e (
      subst (λ k. In (origin_response_prefix k ++ slash) (locations_of v)) (keyed ∙ sym r.key)
        (In-response v (r.serves.response (sym r.response ∙ e))))
  | inr e ↦ rw e (elim (Bool-cases view.origin_request) [
    | inl f ↦ rw f (
        subst (λ k. In (origin_request_prefix k ++ slash) (locations_of v)) (keyed ∙ sym r.key)
          (In-request v (r.serves.request (sym r.request ∙ f))))
    | inr f ↦ rw f (subst (λ k. In k (locations_of v)) r.prefix (In-plain v))
  ])
]

-- ===== src/Nginx/Conf/Views/Inner.antt =====
-- internal/nginx/conf.go: what `addInner` does to the map of inner locations.
use cf_local.Prelude.{
  ◌≡◌, refl, ap, ◌∙◌, ◌≢◌, inl, inr, Bool, true, ◌||◌, Option, none, some, [], ◌++◌, arith,
  Bool-cases, Option-cases, all, Bytes, codes, equal, equal_iff, Dict, lookup, insert,
  lookup-insert, lookup-insert_self, ok, >>=-eq-ok, Distinct, Distinct-insert, ok-injective,
  Entries, Entries-insert, some-injective,
}
use mathlib.Core.Path.{subst}
use cf_local.Distribution.{Behavior}
use cf_local.Nginx.Headers.{deref_string}
use cf_local.Nginx.Conf.Names.{is_id_rune, sanitize_id, origin_upstream_name}
use cf_local.Nginx.Conf.Views.{
  InnerView, add_inner, inner_for, merge_inner, new_inner, has_origin_request_association,
  has_origin_response_association,
}

abbrev pub policy_key : Behavior → Bytes
policy_key b = sanitize_id (deref_string b.cache_policy_id)

abbrev pub origin_key : Behavior → Bytes
origin_key b = sanitize_id (deref_string b.target_origin_id)

abbrev pub wants_request : Behavior → Bool
wants_request b = has_origin_request_association b.lambda_function_associations

abbrev pub wants_response : Behavior → Bool
wants_response b = has_origin_response_association b.lambda_function_associations

-- A later view of the same policy: nothing but raised flags.
pub record Extends (v w : InnerView) : Type 0 where
  pub location : w.location ≡ v.location
  pub upstream : w.upstream_name ≡ v.upstream_name
  pub request : v.origin_request ≡ true → w.origin_request ≡ true
  pub response : v.origin_response ≡ true → w.origin_response ≡ true

pub Extends-refl : (v : InnerView) → Extends v v
Extends-refl v = record { location = refl; upstream = refl; request = λ h. h; response = λ h. h }

-- The view sends the behavior's requests where the behavior wants them.
pub record Serves (b : Behavior) (v : InnerView) : Type 0 where
  pub location : v.location ≡ codes "/_cf_inner_" ++ policy_key b ++ codes "/"
  pub upstream : v.upstream_name ≡ codes "origin_" ++ origin_key b
  pub request : wants_request b ≡ true → v.origin_request ≡ true
  pub response : wants_response b ≡ true → v.origin_response ≡ true

pub Serves-Extends : (b : Behavior) (v w : InnerView) → Serves b v → Extends v w → Serves b w
Serves-Extends b v w s x = record {
  location = x.location ∙ s.location;
  upstream = x.upstream ∙ s.upstream;
  request = λ h. x.request (s.request h);
  response = λ h. x.response (s.response h);
}

-- Where the view of a key stands.
pub record Placed (k : Bytes) (v : InnerView) : Type 0 where
  pub location : v.location ≡ codes "/_cf_inner_" ++ k ++ codes "/"
  pub keyed : v.sanitized_policy_id ≡ k
  pub clean : all is_id_rune k ≡ true

-- Each view stands under its sanitized policy id, and each key once.
pub record Good (m : Dict InnerView) : Type 0 where
  pub distinct : Distinct m
  pub placed : Entries Placed m

pub origin_upstream_name-eq-ok :
    (id upstream : Bytes)
    → origin_upstream_name id ≡ ok upstream
    → (sanitize_id id ≢ []) × (upstream ≡ codes "origin_" ++ sanitize_id id)
unfolding origin_upstream_name
origin_upstream_name-eq-ok id upstream h = elim (Bool-cases (equal (sanitize_id id) [])) [
  | inl e ↦ absurd (ground (arith, rw e at h))
  | inr e ↦ ground (arith, equal_iff (sanitize_id id) [], rw e at h)
]

-- What stands under the key after `addInner`: a new view, or the old one with more flags.
record InnerStep (o : Option InnerView) (upstream san : Bytes) (req resp : Bool) (w : InnerView)
    : Type 0 where
  extends :
      (v : InnerView) → o ≡ some v → Extends v w × (w.sanitized_policy_id ≡ v.sanitized_policy_id)
  fresh : o ≡ none → Placed san w
  up : w.upstream_name ≡ upstream
  request : req ≡ true → w.origin_request ≡ true
  response : resp ≡ true → w.origin_response ≡ true

abbrev pub merged : InnerView → Bool → Bool → InnerView
merged v req resp = record {
  location = v.location;
  policy_id = v.policy_id;
  upstream_name = v.upstream_name;
  origin_request = v.origin_request || req;
  origin_response = v.origin_response || resp;
  sanitized_policy_id = v.sanitized_policy_id;
}

Extends-merged : (v : InnerView) (req resp : Bool) → Extends v (merged v req resp)
Extends-merged v req resp = record {
  location = refl;
  upstream = refl;
  request = λ p. ground arith;
  response = λ p. ground arith;
}

inner_for-InnerStep :
    (o : Option InnerView) (policy_id upstream san : Bytes) (req resp : Bool) (w : InnerView)
    → all is_id_rune san ≡ true
    → inner_for o policy_id upstream san req resp ≡ ok w
    → InnerStep o upstream san req resp w
unfolding inner_for merge_inner new_inner
inner_for-InnerStep none policy_id upstream san req resp w clean h =
    subst (λ x. InnerStep none upstream san req resp x) (ok-injective h)
      (record {
        extends = λ v e. cc;
        fresh = λ e. record { location = refl; keyed = refl; clean = clean };
        up = refl;
        request = λ e. e;
        response = λ e. e;
      })
inner_for-InnerStep (some v) policy_id upstream san req resp w clean h =
    elim (Bool-cases (equal v.upstream_name upstream)) [
      | inl e ↦
          subst (λ x. InnerStep (some v) upstream san req resp x) (ok-injective (rw e at h))
            (record {
              extends = λ u f.
                  subst
                    (λ y.
                      Extends y (merged v req resp)
                      × (v.sanitized_policy_id ≡ y.sanitized_policy_id))
                    (some-injective f) (Extends-merged v req resp, refl);
              fresh = λ f. cc;
              up = (equal_iff v.upstream_name upstream).0 e;
              request = λ p. ground arith;
              response = λ p. ground arith;
            })
      | inr e ↦ absurd (ground (arith, rw e at h))
    ]

-- `addInner` keeps the map in order and its views, and serves the behavior it is called for.
pub record Added (m : Dict InnerView) (origin_id san : Bytes) (req resp : Bool)
    (m' : Dict InnerView) : Type 0 where
  pub good : Good m'
  pub kept :
      (k : Bytes) (v : InnerView)
      → lookup k m ≡ some v
      → (w : InnerView) × (lookup k m' ≡ some w) × Extends v w
  pub named : sanitize_id origin_id ≢ []
  pub view : InnerView
  pub found : lookup san m' ≡ some view
  pub placed : Placed san view
  pub upstream : view.upstream_name ≡ codes "origin_" ++ sanitize_id origin_id
  pub request : req ≡ true → view.origin_request ≡ true
  pub response : resp ≡ true → view.origin_response ≡ true

InnerStep-Placed :
    {m : Dict InnerView} {upstream san : Bytes} {req resp : Bool} {w : InnerView}
    → Good m
    → InnerStep (lookup san m) upstream san req resp w
    → Placed san w
InnerStep-Placed {m} {upstream} {san} g st = elim (Option-cases (lookup san m)) [
  | inl e ↦ st.fresh e
  | inr (v, e) ↦
      let (x, k) = st.extends v e in
      let p = g.placed san v e in
      record { location = x.location ∙ p.location; keyed = k ∙ p.keyed; clean = p.clean }
]

kept_lem :
    (m : Dict InnerView) {upstream san : Bytes} {req resp : Bool} {w : InnerView}
    → InnerStep (lookup san m) upstream san req resp w
    → (k : Bytes) (v : InnerView) → lookup k m ≡ some v
    → (u : InnerView) × (lookup k (insert san w m) ≡ some u) × Extends v u
kept_lem m {upstream} {san} {req} {resp} {w} st k v e = elim (Bool-cases (equal san k)) [
  | inl h ↦
      let same : san ≡ k = (equal_iff san k).0 h in
      let at : lookup san m ≡ some v = ap (λ i. lookup i m) same ∙ e in
      (w, ground (arith, lookup-insert san k w m), (st.extends v at).0)
  | inr h ↦ (v, ground (arith, lookup-insert san k w m), Extends-refl v)
]

pub add_inner-eq-ok :
    (policy_id origin_id san : Bytes) (req resp : Bool) (m m' : Dict InnerView)
    → Good m
    → all is_id_rune san ≡ true
    → add_inner policy_id origin_id san req resp m ≡ ok m'
    → Added m origin_id san req resp m'
unfolding add_inner
add_inner-eq-ok policy_id origin_id san req resp m m' g clean h =
    let (upstream, e1, h1) = >>=-eq-ok (origin_upstream_name origin_id) _ h in
    let (w, e2, h2) = >>=-eq-ok (inner_for (lookup san m) policy_id upstream san req resp) _ h1 in
    let (named, up) = origin_upstream_name-eq-ok origin_id upstream e1 in
    let st = inner_for-InnerStep (lookup san m) policy_id upstream san req resp w clean e2 in
    let p = InnerStep-Placed g st in
    subst (λ x. Added m origin_id san req resp x) (ok-injective h2)
      (record {
        good = record {
          distinct = Distinct-insert san w m g.distinct;
          placed = Entries-insert Placed san w m p g.placed;
        };
        kept = kept_lem m st;
        named = named;
        view = w;
        found = lookup-insert_self san w m;
        placed = p;
        upstream = st.up ∙ up;
        request = st.request;
        response = st.response;
      })

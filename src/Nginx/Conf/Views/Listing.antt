-- ===== src/Nginx/Conf/Views/Listing.antt =====
-- internal/nginx/conf.go: the list of inner locations, by their sanitized policy ids.
use cf_local.Prelude.{
  ◌≡◌, refl, sym, ap, ◌∙◌, inl, inr, none, some, List, [], ◌∷◌, map, arith, Bool-cases,
  Option-cases, here, there, all, Bytes, equal, equal_iff, less, Dict, lookup, Distinct,
}
use mathlib.Core.Path.{subst, ap₂}
use cf_local.Prelude.Sort.{
  In, In-cases, not-In-nil, Nodup, Ordered, sort_stable, sort_stable_unique, In-sort_stable,
  In-of_sort_stable, Ordered-sort_stable, Nodup-sort_stable,
}
use cf_local.Prelude.Order.{less-IsOrder, less_antisym}
use cf_local.Nginx.Conf.Views.{InnerView, keys, inners_at, inner_list}
use cf_local.Nginx.Conf.Views.Inner.{Good}

In-keys : (k : Bytes) (v : InnerView) (m : Dict InnerView) → lookup k m ≡ some v → In k (keys m)
unfolding lookup keys
In-keys k v [] h = cc
In-keys k v ((j, w) ∷ m) h = elim (Bool-cases (equal j k)) [
  | inl e ↦ here ((equal_iff j k).0 e)
  | inr e ↦ there (In-keys k v m (ground arith))
]

In-of_keys :
    (k : Bytes) (m : Dict InnerView) → In k (keys m) → (v : InnerView) × (lookup k m ≡ some v)
unfolding lookup keys
In-of_keys k [] i = absurd (not-In-nil i)
In-of_keys k ((j, w) ∷ m) i = elim (Bool-cases (equal j k)) [
  | inl e ↦ (w, ground arith)
  | inr e ↦ elim (In-cases i) [
    | inl p ↦ absurd (ground (arith, equal_iff j k))
    | inr r ↦ let (v, f) = In-of_keys k m r in (v, ground arith)
  ]
]

Nodup-keys : (m : Dict InnerView) → Distinct m → Nodup (keys m)
unfolding keys
Nodup-keys [] d = tt
Nodup-keys ((k, v) ∷ m) d =
    (λ i. let (w, e) = In-of_keys k m i in absurd (ground (arith, d.0)), Nodup-keys m d.1)

In-inners_at :
    (m : Dict InnerView) (k : Bytes) (v : InnerView) (ks : List Bytes)
    → lookup k m ≡ some v
    → In k ks
    → In v (inners_at m ks)
unfolding inners_at
In-inners_at m k v [] h i = absurd (not-In-nil i)
In-inners_at m k v (j ∷ ks) h i = elim (In-cases i) [
  | inl e ↦
      let at : lookup j m ≡ some v = ap (λ x. lookup x m) e ∙ h in rw (at, inners_at) (here refl)
  | inr r ↦ elim (Option-cases (lookup j m)) [
    | inl n ↦ rw (n, inners_at) (In-inners_at m k v ks h r)
    | inr (w, n) ↦ rw (n, inners_at) (there (In-inners_at m k v ks h r))
  ]
]

map-inners_at :
    (m : Dict InnerView) (ks : List Bytes)
    → Good m
    → ((k : Bytes) → In k ks → (v : InnerView) × (lookup k m ≡ some v))
    → map (λ (v : InnerView). v.sanitized_policy_id) (inners_at m ks) ≡ ks
unfolding inners_at
map-inners_at m [] g all = refl
map-inners_at m (k ∷ ks) g all =
    let (v, e) = all k (here refl) in
    let rest = map-inners_at m ks g (λ j i. all j (there i)) in
    rw (e, inners_at) (ap₂ (λ (z : Bytes) (zs : List Bytes). z ∷ zs) (g.placed k v e).keyed rest)

inners_at_unique :
    (m n : Dict InnerView) (ks : List Bytes)
    → ((k : Bytes) → lookup k m ≡ lookup k n)
    → inners_at m ks ≡ inners_at n ks
unfolding inners_at
inners_at_unique m n [] same = refl
inners_at_unique m n (k ∷ ks) same = elim (Option-cases (lookup k n)) [
  | inl e ↦
      let f : lookup k m ≡ none = same k ∙ e in rw (e, f, inners_at) (inners_at_unique m n ks same)
  | inr (v, e) ↦
      let f : lookup k m ≡ some v = same k ∙ e in
      rw (e, f, inners_at) (ap (◌∷◌ v) (inners_at_unique m n ks same))
]

pub In-inner_list :
    (m : Dict InnerView) (k : Bytes) (v : InnerView) → lookup k m ≡ some v → In v (inner_list m)
unfolding inner_list
In-inner_list m k v h =
    In-inners_at m k v (sort_stable less (keys m)) h
      (In-sort_stable less (keys m) (In-keys k v m h))

-- The sanitized policy ids of the list are the keys of the map, in order.
pub map-inner_list :
    (m : Dict InnerView)
    → Good m
    → map (λ (v : InnerView). v.sanitized_policy_id) (inner_list m) ≡ sort_stable less (keys m)
unfolding inner_list
map-inner_list m g =
    map-inners_at m (sort_stable less (keys m)) g
      (λ k i. In-of_keys k m (In-of_sort_stable less (keys m) i))

-- The list of inner locations depends only on what the map holds, not on the order in which Go
-- ranges over it: two maps with one content, each key once, give one list.
pub inner_list_unique :
    (m n : Dict InnerView)
    → Distinct m
    → Distinct n
    → ((k : Bytes) → lookup k m ≡ lookup k n)
    → inner_list m ≡ inner_list n
unfolding inner_list
inner_list_unique m n d f same =
    let e =
      sort_stable_unique less (keys m) (keys n) less-IsOrder (Nodup-keys m d) (Nodup-keys n f)
        (λ k i. let (v, h) = In-of_keys k m i in In-keys k v n (sym (same k) ∙ h))
        (λ k i. let (v, h) = In-of_keys k n i in In-keys k v m (same k ∙ h))
        (λ a b i j p q. less_antisym a b q p) in
    ap (inners_at m) e ∙ inners_at_unique m n (sort_stable less (keys n)) same

-- The sanitized ids stand in order, and each once.
pub inner_list-Ordered :
    (m : Dict InnerView)
    → Good m
    → Ordered less (map (λ (v : InnerView). v.sanitized_policy_id) (inner_list m))
      × Nodup (map (λ (v : InnerView). v.sanitized_policy_id) (inner_list m))
inner_list-Ordered m g =
    subst (λ ks. Ordered less ks × Nodup ks) (sym (map-inner_list m g))
      (
        Ordered-sort_stable less less-IsOrder (keys m),
        Nodup-sort_stable less (keys m) (Nodup-keys m g.distinct),
      )

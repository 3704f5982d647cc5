-- ===== src/Nginx/Conf/Hops/Once.antt =====
-- internal/nginx/conf.go: no location of the inner server is opened twice.
use cf_local.Prelude.{
  ℕ, zero, suc, ◌≡◌, ◌≢◌, refl, sym, ap, ◌∙◌, ◌⊎◌, inl, inr, Bool, true, false, List, [], ◌∷◌, ◌++◌,
  map, arith, if◌then◌else◌, All, here, there, all, Bytes, codes, has_prefix, append→has_prefix,
  append_nil,
}
use mathlib.Core.Path.{subst}
use cf_local.Prelude.Sort.{In, In-cases, All-In, not-In-nil, Nodup, In-map}
use cf_local.Nginx.Conf.Names.{is_id_rune, origin_request_prefix, origin_response_prefix}
use cf_local.Nginx.Conf.Views.{InnerView}
use cf_local.Nginx.Conf.Hops.{slash, Shaped, id_ends, locations_of, locations}

In-append : {a : Bytes} (xs ys : List Bytes) → In a (xs ++ ys) → In a xs ⊎ In a ys
In-append [] ys i = inr i
In-append (x ∷ xs) ys i = elim (In-cases i) [
  | inl e ↦ inl (here e)
  | inr j ↦ elim (In-append xs ys j) [ inl k ↦ inl (there k) | inr k ↦ inr k ]
]

Nodup-append :
    (xs ys : List Bytes)
    → Nodup xs
    → Nodup ys
    → ((a : Bytes) → In a xs → In a ys → ⊥)
    → Nodup (xs ++ ys)
Nodup-append [] ys n m apart = m
Nodup-append (x ∷ xs) ys n m apart = (
  λ i. elim (In-append xs ys i) [ inl j ↦ n.0 j | inr j ↦ apart x (here refl) j ],
  Nodup-append xs ys n.1 m (λ a i j. apart a (there i) j),
)

-- The location belongs to the sanitized policy id.
abbrev IsOf : Bytes → Bytes → Type 0
IsOf san l =
    (l ≡ codes "/_cf_inner_" ++ san ++ slash)
    ⊎ (l ≡ codes "/_cf_or_" ++ san ++ slash)
    ⊎ (l ≡ codes "/_cf_oresp_" ++ san ++ slash)

same_id :
    (s t : Bytes)
    → all is_id_rune s ≡ true
    → all is_id_rune t ≡ true
    → s ++ slash ≡ t ++ slash
    → s ≡ t
same_id s t h k e = id_ends s t [] h k (
    subst (λ x. has_prefix (s ++ slash) x ≡ true) (append_nil (s ++ slash) ∙ e)
      (append→has_prefix (s ++ slash) []))

-- The eighth byte tells the three kinds apart.
abbrev kind : Bytes → ℕ
kind (_ ∷ _ ∷ _ ∷ _ ∷ _ ∷ _ ∷ _ ∷ c ∷ _) = c
kind _ = 0

abbrev behind : ℕ → Bytes → Bytes
behind zero l = l
behind (suc n) [] = []
behind (suc n) (c ∷ l) = behind n l

IsOf-unique :
    (s t l : Bytes)
    → all is_id_rune s ≡ true
    → all is_id_rune t ≡ true
    → IsOf s l
    → IsOf t l
    → s ≡ t
IsOf-unique s t l h k (inl p) (inl q) = same_id s t h k (ap (behind 11) (sym p ∙ q))
IsOf-unique s t l h k (inl p) (inr (inl q)) = absurd (omega (arith, ap kind (sym p ∙ q)))
IsOf-unique s t l h k (inl p) (inr (inr q)) = absurd (omega (arith, ap kind (sym p ∙ q)))
IsOf-unique s t l h k (inr (inl p)) (inl q) = absurd (omega (arith, ap kind (sym p ∙ q)))
IsOf-unique s t l h k (inr (inl p)) (inr (inl q)) = same_id s t h k (ap (behind 8) (sym p ∙ q))
IsOf-unique s t l h k (inr (inl p)) (inr (inr q)) = absurd (omega (arith, ap kind (sym p ∙ q)))
IsOf-unique s t l h k (inr (inr p)) (inl q) = absurd (omega (arith, ap kind (sym p ∙ q)))
IsOf-unique s t l h k (inr (inr p)) (inr (inl q)) = absurd (omega (arith, ap kind (sym p ∙ q)))
IsOf-unique s t l h k (inr (inr p)) (inr (inr q)) = same_id s t h k (ap (behind 11) (sym p ∙ q))

-- The locations of one view, with its location written out.
abbrev three : Bytes → Bool → Bool → List Bytes
three san request response =
    (if request then (codes "/_cf_or_" ++ san ++ slash) ∷ [] else [])
    ++ (codes "/_cf_inner_" ++ san ++ slash)
      ∷ (if response then (codes "/_cf_oresp_" ++ san ++ slash) ∷ [] else [])

locations_of-three :
    (v : InnerView)
    → Shaped v
    → locations_of v ≡ three v.sanitized_policy_id v.origin_request v.origin_response
unfolding locations_of origin_request_prefix origin_response_prefix
locations_of-three v p = rw p.location refl

three-IsOf : (san : Bytes) (b c : Bool) → All (IsOf san) (three san b c)
three-IsOf san true true = (inr (inl refl), (inl refl, (inr (inr refl), tt)))
three-IsOf san true false = (inr (inl refl), (inl refl, tt))
three-IsOf san false true = (inl refl, (inr (inr refl), tt))
three-IsOf san false false = (inl refl, tt)

-- The kinds differ, and so do the locations.
other_kind : (a b : Bytes) (rest : List Bytes) → kind b ≢ kind a → (¬ In a rest) → ¬ In a (b ∷ rest)
other_kind a b rest ne new i = elim (In-cases i) [ inl e ↦ ne (ap kind e) | inr j ↦ new j ]

Nodup-three : (san : Bytes) (b c : Bool) → Nodup (three san b c)
Nodup-three san true true = (
  other_kind _ _ _ (omega arith) (other_kind _ _ _ (omega arith) not-In-nil),
  (other_kind _ _ _ (omega arith) not-In-nil, (not-In-nil, tt)),
)
Nodup-three san true false = (other_kind _ _ _ (omega arith) not-In-nil, (not-In-nil, tt))
Nodup-three san false true = (other_kind _ _ _ (omega arith) not-In-nil, (not-In-nil, tt))
Nodup-three san false false = (not-In-nil, tt)

locations_of-IsOf :
    (v : InnerView) (l : Bytes) → Shaped v → In l (locations_of v) → IsOf v.sanitized_policy_id l
locations_of-IsOf v l p i =
    All-In (IsOf v.sanitized_policy_id)
      (three v.sanitized_policy_id v.origin_request v.origin_response)
      (three-IsOf v.sanitized_policy_id v.origin_request v.origin_response)
      (subst (In l) (locations_of-three v p) i)

In-of_locations :
    (l : Bytes) (vs : List InnerView)
    → In l (locations vs)
    → (v : InnerView) × In v vs × In l (locations_of v)
unfolding locations
In-of_locations l [] i = absurd (not-In-nil i)
In-of_locations l (v ∷ vs) i = elim (In-append (locations_of v) (locations vs) i) [
  | inl j ↦ (v, here refl, j)
  | inr j ↦ let (w, k, m) = In-of_locations l vs j in (w, there k, m)
]

-- Views with different sanitized policy ids open different locations, each once.
pub Nodup-locations :
    (vs : List InnerView)
    → All Shaped vs
    → Nodup (map (λ (v : InnerView). v.sanitized_policy_id) vs)
    → Nodup (locations vs)
unfolding locations
Nodup-locations [] p n = tt
Nodup-locations (v ∷ vs) p n =
    Nodup-append (locations_of v) (locations vs)
      (subst Nodup (sym (locations_of-three v p.0))
        (Nodup-three v.sanitized_policy_id v.origin_request v.origin_response))
      (Nodup-locations vs p.1 n.1)
      (λ l i j.
        let (w, k, m) = In-of_locations l vs j in
        let q = All-In Shaped vs p.1 k in
        let same =
          IsOf-unique w.sanitized_policy_id v.sanitized_policy_id l q.clean p.0.clean
            (locations_of-IsOf w l q m) (locations_of-IsOf v l p.0 i) in
        n.0 (
          subst (λ x. In x (map (λ (u : InnerView). u.sanitized_policy_id) vs)) same
            (In-map (λ (u : InnerView). u.sanitized_policy_id) vs k)))

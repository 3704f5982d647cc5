-- ===== src/Nginx/Render/Policies.antt =====
-- internal/nginx/renderer.go: policies.json.
use cf_local.Prelude.{
  ◌≡◌, refl, ◌↔◌, inl, inr, Option, none, some, [], ◌∷◌, if◌then◌else◌, Bool-cases, Bytes, equal,
  Dict, lookup, ok, >>=-eq-ok, ok-injective, Succeeds,
}
use mathlib.Core.Path.{subst}
use cf_local.Validate.Policy.{CachePolicyConfig}
use cf_local.Nginx.Render.{PolicyOut, convert_policies, build_policies_json, convert_cache_policy}

-- No policy of the map is nil.
abbrev pub NoNil : Dict (Option CachePolicyConfig) → Type 0
NoNil [] = Unit
NoNil ((name, none) ∷ m) = ⊥
NoNil ((name, some cp) ∷ m) = NoNil m

convert_policies_iff :
    (m : Dict (Option CachePolicyConfig)) → Succeeds (convert_policies m) ↔ NoNil m
unfolding convert_policies
convert_policies_iff [] = (λ s. tt, λ n. ([], refl))
convert_policies_iff ((name, none) ∷ m) = (λ (v, h). cc, λ n. absurd n)
convert_policies_iff ((name, some cp) ∷ m) = (
  λ (v, h).
      let (rest, e, k) = >>=-eq-ok (convert_policies m) _ h in (convert_policies_iff m).0 (rest, e),
  λ n.
      let (rest, e) = (convert_policies_iff m).1 n in
      ((name, convert_cache_policy cp) ∷ rest, rw e refl),
)

-- What policies.json has for one entry of the map.
abbrev pub converted : Option (Option CachePolicyConfig) → Option PolicyOut
converted none = none
converted (some none) = none
converted (some (some cp)) = some (convert_cache_policy cp)

-- policies.json has each policy of the map, converted, under its own name, and nothing else.
pub convert_policies-lookup :
    (m : Dict (Option CachePolicyConfig)) (out : Dict PolicyOut) (name : Bytes)
    → convert_policies m ≡ ok out
    → lookup name out ≡ converted (lookup name m)
unfolding convert_policies lookup
convert_policies-lookup [] out name h = subst (λ x. lookup name x ≡ none) (ok-injective h) refl
convert_policies-lookup ((key, none) ∷ m) out name h = cc
convert_policies-lookup ((key, some cp) ∷ m) out name h =
    let (rest, e, k) = >>=-eq-ok (convert_policies m) _ h in
    let tail = convert_policies-lookup m rest name e in
    subst
      (λ x. lookup name x ≡ converted (if equal key name then some (some cp) else lookup name m))
      (ok-injective k)
      (elim (Bool-cases (equal key name)) [ inl q ↦ rw q refl | inr q ↦ rw q tail ])

pub build_policies_json_iff :
    (encode : Dict PolicyOut → Option Bytes)
    → ((m : Dict PolicyOut) → (text : Bytes) × (encode m ≡ some text))
    → (m : Dict (Option CachePolicyConfig)) → Succeeds (build_policies_json encode m) ↔ NoNil m
unfolding build_policies_json
build_policies_json_iff encode encodes m = (
  λ (v, h).
      let (out, e, k) = >>=-eq-ok (convert_policies m) _ h in (convert_policies_iff m).0 (out, e),
  λ n.
      let (out, e) = (convert_policies_iff m).1 n in
      let (text, f) = encodes out in (text, rw e (rw f refl)),
)

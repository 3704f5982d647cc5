-- ===== src/Validate/Sections.antt =====
-- What the checks of one section of a policy accept: the switches over the behaviors.
use cf_local.Prelude.{
  ℕ, ◌+◌, ◌≡◌, refl, ◌≢◌, ◌↔◌, ◌⊎◌, inl, inr, ◌||◌, Option, none, some, List, [], ◌∷◌, arith,
  if◌then◌else◌, Option-cases, All, Bytes, equal, equal_iff, ok, err,
}
use cf_local.Validate.Names.{IsSafeName, is_safe_item_name_iff}
use cf_local.Validate.Policy.{
  Names, Section, behavior_none, behavior_whitelist, behavior_all_except, behavior_all,
  behavior_all_viewer, behavior_all_viewer_and_whitelist, Part, headers, cookies, query_strings,
  invalid_behavior, has_items, check_items, listed, bare, validate_cache_policy_headers,
  validate_cache_policy_cookies, validate_cache_policy_query_strings, validate_orp_headers,
  validate_orp_cookies, validate_orp_query_strings,
}

abbrev pub OneOf : Bytes → List Bytes → Type 0
OneOf b [] = ⊥
OneOf b (x ∷ []) = b ≡ x
OneOf b (x ∷ y ∷ xs) = (b ≡ x) ⊎ OneOf b (y ∷ xs)

abbrev pub items_of : Option Names → List Bytes
items_of none = []
items_of (some n) = n.items

abbrev pub IsBare : Section → Type 0
IsBare c = items_of c.names ≡ []

abbrev pub IsListed : Section → Type 0
IsListed c = (items_of c.names ≢ []) × All IsSafeName (items_of c.names)

-- A section that is present: one of the first behaviors and no names, or one of the second and a
-- non-empty list of safe names.
abbrev pub Admits : List Bytes → List Bytes → Option Section → Type 0
Admits bares lists none = ⊥
Admits bares lists (some c) =
    OneOf c.behavior bares × IsBare c ⊎ OneOf c.behavior lists × IsListed c

check_items_iff :
    (part : Part) (i : ℕ) (items : List Bytes)
    → (check_items part i items ≡ ok tt) ↔ All IsSafeName items
unfolding check_items
check_items_iff part i [] = (λ e. tt, λ a. refl)
check_items_iff part i (h ∷ items) =
    ground (arith, is_safe_item_name_iff h, check_items_iff part (i + 1) items)

bare_iff : (part : Part) (c : Section) → (bare part c ≡ ok tt) ↔ IsBare c
unfolding bare has_items
bare_iff part c = ground arith

listed_iff : (part : Part) (c : Section) → (listed part c ≡ ok tt) ↔ IsListed c
unfolding listed has_items
listed_iff part c = elim (Option-cases c.names) [
  | inl e ↦ ground arith
  | inr (n, e) ↦ ground (arith, check_items_iff part 0 n.items)
]

-- The behaviors of each section.
abbrev pub AdmitsCacheHeaders : Option Section → Type 0
AdmitsCacheHeaders = Admits (behavior_none ∷ []) (behavior_whitelist ∷ [])

abbrev pub AdmitsNames : Option Section → Type 0
AdmitsNames =
    Admits (behavior_none ∷ behavior_all ∷ []) (behavior_whitelist ∷ behavior_all_except ∷ [])

abbrev pub AdmitsOriginHeaders : Option Section → Type 0
AdmitsOriginHeaders =
    Admits (behavior_none ∷ behavior_all_viewer ∷ [])
      (behavior_whitelist ∷ behavior_all_except ∷ behavior_all_viewer_and_whitelist ∷ [])

pub cache_headers_iff :
    (o : Option Section) → (validate_cache_policy_headers o ≡ ok tt) ↔ AdmitsCacheHeaders o
unfolding validate_cache_policy_headers
cache_headers_iff none = (λ e. cc, λ a. absurd a)
cache_headers_iff (some c) = ground (
  arith,
  equal_iff c.behavior behavior_none,
  equal_iff c.behavior behavior_whitelist,
  bare_iff headers c,
  listed_iff headers c,
)

names_iff :
    (part : Part) (c : Section)
    → ((if equal c.behavior behavior_none || equal c.behavior behavior_all
          then bare part c
          else if equal c.behavior behavior_whitelist || equal c.behavior behavior_all_except
          then listed part c
          else err (invalid_behavior part c.behavior))
        ≡ ok tt)
      ↔ AdmitsNames (some c)
names_iff part c = ground (
  arith,
  equal_iff c.behavior behavior_none,
  equal_iff c.behavior behavior_whitelist,
  equal_iff c.behavior behavior_all,
  equal_iff c.behavior behavior_all_except,
  bare_iff part c,
  listed_iff part c,
)

pub cache_cookies_iff :
    (o : Option Section) → (validate_cache_policy_cookies o ≡ ok tt) ↔ AdmitsNames o
unfolding validate_cache_policy_cookies
cache_cookies_iff none = (λ e. cc, λ a. absurd a)
cache_cookies_iff (some c) = names_iff cookies c

pub cache_query_strings_iff :
    (o : Option Section) → (validate_cache_policy_query_strings o ≡ ok tt) ↔ AdmitsNames o
unfolding validate_cache_policy_query_strings
cache_query_strings_iff none = (λ e. cc, λ a. absurd a)
cache_query_strings_iff (some c) = names_iff query_strings c

pub orp_cookies_iff : (o : Option Section) → (validate_orp_cookies o ≡ ok tt) ↔ AdmitsNames o
unfolding validate_orp_cookies
orp_cookies_iff none = (λ e. cc, λ a. absurd a)
orp_cookies_iff (some c) = names_iff cookies c

pub orp_query_strings_iff :
    (o : Option Section) → (validate_orp_query_strings o ≡ ok tt) ↔ AdmitsNames o
unfolding validate_orp_query_strings
orp_query_strings_iff none = (λ e. cc, λ a. absurd a)
orp_query_strings_iff (some c) = names_iff query_strings c

pub orp_headers_iff :
    (o : Option Section) → (validate_orp_headers o ≡ ok tt) ↔ AdmitsOriginHeaders o
unfolding validate_orp_headers
orp_headers_iff none = (λ e. cc, λ a. absurd a)
orp_headers_iff (some c) = ground (
  arith,
  equal_iff c.behavior behavior_none,
  equal_iff c.behavior behavior_all_viewer,
  equal_iff c.behavior behavior_whitelist,
  equal_iff c.behavior behavior_all_except,
  equal_iff c.behavior behavior_all_viewer_and_whitelist,
  bare_iff headers c,
  listed_iff headers c,
)

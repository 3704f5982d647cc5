-- ===== src/Xml/CachePolicy.antt =====
-- internal/api/xml/cache_policy.go and cache_policy_convert.go: the XML shape of a cache policy and
-- its conversions. An int64 is its bit pattern.
use cf_local.Prelude.{
  ℕ, ◌%◌, ◌^◌, ◌≡◌, refl, sym, ap, inl, inr, Bool, false, not, Option, none, some, List, [], ◌∷◌,
  arith, ltb, if◌then◌else◌, Bool-cases, length, Bytes, equal, equal_iff,
}
use cf_local.Validate.Policy.{Names, Section, Parameters, CachePolicyConfig}

pub record NamesXml : Type 0 where
  pub items : List Bytes
  pub quantity : ℕ

-- CachePolicyHeadersConfig, CachePolicyCookiesConfig and CachePolicyQueryStringsConfig
pub record SectionXml : Type 0 where
  pub behavior : Bytes
  pub names : Option NamesXml

pub record ParametersXml : Type 0 where
  pub cookies : Option SectionXml
  pub enable_accept_encoding_brotli : Bool
  pub enable_accept_encoding_gzip : Bool
  pub headers : Option SectionXml
  pub query_strings : Option SectionXml

pub record CachePolicyConfigXml : Type 0 where
  pub comment : Bytes
  pub default_ttl : Option ℕ
  pub max_ttl : Option ℕ
  pub min_ttl : ℕ
  pub name : Bytes
  pub parameters : Option ParametersXml

-- A list of names without its quantity; an empty one is left out with its parent.
unfoldable pub names_to_sdk : Option NamesXml → Option Names
names_to_sdk none = none
names_to_sdk (some n) =
    if ltb 0 (length n.items)
    then some (record { quantity = some (length n.items % 2 ^ 32); items = n.items })
    else none

unfoldable pub names_from_sdk : Option Names → Option NamesXml
names_from_sdk none = none
names_from_sdk (some n) =
    if ltb 0 (length n.items)
    then some (record { items = n.items; quantity = length n.items })
    else none

-- The `toSDK` of a section, and `fromSDKHeadersConfig` and its kin.
unfoldable pub section_to_sdk : Option SectionXml → Option Section
section_to_sdk none = none
section_to_sdk (some h) = some (record { behavior = h.behavior; names = names_to_sdk h.names })

unfoldable pub section_from_sdk : Option Section → Option SectionXml
section_from_sdk none = none
section_from_sdk (some h) = some (record { behavior = h.behavior; names = names_from_sdk h.names })

unfoldable pub parameters_to_sdk : Option ParametersXml → Option Parameters
parameters_to_sdk none = none
parameters_to_sdk (some p) = some (record {
  enable_accept_encoding_brotli = some p.enable_accept_encoding_brotli;
  enable_accept_encoding_gzip = some p.enable_accept_encoding_gzip;
  headers = section_to_sdk p.headers;
  cookies = section_to_sdk p.cookies;
  query_strings = section_to_sdk p.query_strings;
})

-- aws.ToBool
abbrev pub to_bool : Option Bool → Bool
to_bool none = false
to_bool (some b) = b

unfoldable pub parameters_from_sdk : Option Parameters → Option ParametersXml
parameters_from_sdk none = none
parameters_from_sdk (some p) = some (record {
  cookies = section_from_sdk p.cookies;
  enable_accept_encoding_brotli = to_bool p.enable_accept_encoding_brotli;
  enable_accept_encoding_gzip = to_bool p.enable_accept_encoding_gzip;
  headers = section_from_sdk p.headers;
  query_strings = section_from_sdk p.query_strings;
})

unfoldable pub config_to_sdk : CachePolicyConfigXml → CachePolicyConfig
config_to_sdk c = record {
  comment = if not (equal c.comment []) then some c.comment else none;
  default_ttl = c.default_ttl;
  max_ttl = c.max_ttl;
  min_ttl = some c.min_ttl;
  name = some c.name;
  parameters = parameters_to_sdk c.parameters;
}

-- aws.ToInt64 and aws.ToString
abbrev pub to_int64 : Option ℕ → ℕ
to_int64 none = 0
to_int64 (some n) = n

abbrev pub to_string : Option Bytes → Bytes
to_string none = []
to_string (some s) = s

unfoldable pub config_from_sdk : CachePolicyConfig → CachePolicyConfigXml
config_from_sdk c = record {
  comment = to_string c.comment;
  default_ttl = c.default_ttl;
  max_ttl = c.max_ttl;
  min_ttl = to_int64 c.min_ttl;
  name = to_string c.name;
  parameters = parameters_from_sdk c.parameters;
}

-- A list of names as it comes back: with its own length for a quantity, and left out where it is
-- empty.
abbrev pub tidy_names : Option NamesXml → Option NamesXml
tidy_names none = none
tidy_names (some n) = elim n.items [
  | [] ↦ none
  | x ∷ xs ↦ some (record { items = x ∷ xs; quantity = length (x ∷ xs) })
]

abbrev pub tidy_section : Option SectionXml → Option SectionXml
tidy_section none = none
tidy_section (some h) = some (record { behavior = h.behavior; names = tidy_names h.names })

abbrev pub tidy_parameters : Option ParametersXml → Option ParametersXml
tidy_parameters none = none
tidy_parameters (some p) = some (record {
  cookies = tidy_section p.cookies;
  enable_accept_encoding_brotli = p.enable_accept_encoding_brotli;
  enable_accept_encoding_gzip = p.enable_accept_encoding_gzip;
  headers = tidy_section p.headers;
  query_strings = tidy_section p.query_strings;
})

names_back : (o : Option NamesXml) → names_from_sdk (names_to_sdk o) ≡ tidy_names o
unfolding names_to_sdk names_from_sdk
names_back none = refl
names_back (some n) =
    elim n.items
      as (λ l.
        names_from_sdk (names_to_sdk (some (record { items = l; quantity = n.quantity })))
        ≡ tidy_names (some (record { items = l; quantity = n.quantity }))) [
          | [] ↦ ground arith
          | x ∷ xs ↦ ground arith
        ]

section_back : (o : Option SectionXml) → section_from_sdk (section_to_sdk o) ≡ tidy_section o
unfolding section_to_sdk section_from_sdk
section_back none = refl
section_back (some h) =
    ap (λ n. some (record { behavior = h.behavior; names = n })) (names_back h.names)

parameters_back :
    (o : Option ParametersXml) → parameters_from_sdk (parameters_to_sdk o) ≡ tidy_parameters o
unfolding parameters_to_sdk parameters_from_sdk
parameters_back none = refl
parameters_back (some p) =
    ground (arith, section_back p.headers, section_back p.cookies, section_back p.query_strings)

comment_back : (s : Bytes) → to_string (if not (equal s []) then some s else none) ≡ s
comment_back s = elim (Bool-cases (equal s [])) [
  | inl e ↦ rw e (sym ((equal_iff s []).0 e))
  | inr e ↦ rw e refl
]

-- A configuration that a client sends and is then answered is the one that it sent, in all of its
-- fields, but that every list of names has its own length for a quantity, and that an empty list of
-- names is left out.
pub config_from_sdk-to_sdk :
    (x : CachePolicyConfigXml)
    → config_from_sdk (config_to_sdk x) ≡ record x { parameters = tidy_parameters x.parameters }
unfolding config_to_sdk config_from_sdk
config_from_sdk-to_sdk x = ground (arith, parameters_back x.parameters, comment_back x.comment)

-- ===== src/Nginx/Conf/Names.antt =====
-- internal/nginx/conf.go: names and texts made fit for the nginx configuration.
use cf_local.Prelude.{
  ℕ, ◌≡◌, refl, Bool, true, ◌&&◌, ◌||◌, Option, none, some, List, [], ◌∷◌, ◌++◌, map, arith, ◌==◌,
  if◌then◌else◌, within, all, Bytes, codes, equal, Result, ok, err,
}
use cf_local.Prelude.Runes.{runes}
use cf_local.Prelude.Quote.{encode_rune}

pub data ConfError : Type 0 where
  no_distribution no_default no_origins no_pattern : ConfError
  unsupported_pattern : Bytes → ConfError
  -- An id of an origin, of a behavior's origin or of a behavior's cache policy without letters.
  empty_origin empty_target empty_policy : Bytes → ConfError
  -- Two behaviors of one policy and different origins.
  conflict : Bytes → Bytes → Bytes → ConfError
  in_behavior : ℕ → ConfError → ConfError

unfoldable pub is_id_rune : ℕ → Bool
is_id_rune r = within b'a' b'z' r || within b'A' b'Z' r || within b'0' b'9' r || r == b'_'

unfoldable pub sanitize_id : Bytes → Bytes
sanitize_id s = map (λ r. if is_id_rune r then r else b'_') (runes s)

-- The replacer changes single bytes into single bytes.
unfoldable pub sanitize_comment_text : Bytes → Bytes
sanitize_comment_text s = map (λ c. if c == 10 || c == 13 then b' ' else c) s

unfoldable pub set_value_rune : ℕ → Bytes
set_value_rune r =
    if r == b'$' || r == 92 || r == 10 || r == 13 || r == 0 then b'_' ∷ [] else encode_rune r

unfoldable pub concat_map : (ℕ → Bytes) → List ℕ → Bytes
concat_map f [] = []
concat_map f (r ∷ rs) = f r ++ concat_map f rs

unfoldable pub sanitize_nginx_set_value : Bytes → Bytes
sanitize_nginx_set_value s = concat_map set_value_rune (runes s)

unfoldable pub origin_upstream_name : Bytes → Result ConfError Bytes
origin_upstream_name origin_id =
    let san = sanitize_id origin_id in
    if equal san [] then err (empty_target origin_id) else ok (codes "origin_" ++ san)

unfoldable pub forward_location_name : Bytes → Bytes
forward_location_name san = codes "@cf_le_" ++ san ++ codes "_forward"

unfoldable pub inner_prefix : Bytes → Bytes
inner_prefix san = codes "/_cf_inner_" ++ san

unfoldable pub origin_request_prefix : Bytes → Bytes
origin_request_prefix san = codes "/_cf_or_" ++ san

unfoldable pub origin_response_prefix : Bytes → Bytes
origin_response_prefix san = codes "/_cf_oresp_" ++ san

-- `strings.TrimSuffix(p, "*")` behind the test `strings.HasSuffix(p, "/*")`.
unfoldable pub strip_star : Bytes → Option Bytes
strip_star [] = none
strip_star (c ∷ []) = none
strip_star (c ∷ d ∷ []) = if c == b'/' && d == b'*' then some (c ∷ []) else none
strip_star (c ∷ d ∷ e ∷ s) = elim (strip_star (d ∷ e ∷ s)) [ none ↦ none | some p ↦ some (c ∷ p) ]

unfoldable pub path_pattern_to_location : Bytes → Result ConfError Bytes
path_pattern_to_location p =
    if equal p []
    then err no_pattern
    else if equal p (codes "*")
    then ok (codes "/")
    else elim (strip_star p) [ none ↦ err (unsupported_pattern p) | some loc ↦ ok loc ]

id_rune_lem : (r : ℕ) → is_id_rune (if is_id_rune r then r else b'_') ≡ true
unfolding is_id_rune
id_rune_lem r = ground arith

-- A sanitized id is of letters, digits and underscores.
pub sanitize_id-all : (s : Bytes) → all is_id_rune (sanitize_id s) ≡ true
unfolding sanitize_id
sanitize_id-all s = go (runes s)
  where
    go : (rs : List ℕ) → all is_id_rune (map (λ r. if is_id_rune r then r else b'_') rs) ≡ true
    go [] = refl
    go (r ∷ rs) = ground (arith, go rs, id_rune_lem r)

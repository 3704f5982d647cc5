-- ===== src/Invalidation/Matcher/Denotes.antt =====
-- What a path stands for: `ParsePattern` and `Match` against the documented meaning of a path.
use cf_local.Prelude.{
  ℕ, ◌≤◌, ◌<◌, ◌≡◌, refl, sym, ap, ◌∙◌, ◌↔◌, inl, inr, true, false, [], ◌∷◌, ◌++◌, arith,
  Bool-cases, length, Bytes, equal_iff, has_prefix, has_prefix→append, append→has_prefix, ok,
}
use cf_local.Invalidation.Matcher.{
  Pattern, max_path_len, ends_in_star, trim_last, make_pattern, parse_pattern, matches,
}
use cf_local.Invalidation.Matcher.WellFormed.{WellFormed}
use cf_local.Invalidation.Matcher.Sound.{validate_chars_iff}

-- The rules of the API for a path.
pub record IsValidPath (path : Bytes) : Type 0 where
  pub short : length path ≤ max_path_len
  pub rooted : (rest : Bytes) × (path ≡ b'/' ∷ rest)
  pub well_formed : WellFormed path

-- The URL paths that a path stands for: a final `*` for any ending, and else the path itself.
pub data Denotes (path : Bytes) : Bytes → Type 0 where
  exactly : {url : Bytes} → ends_in_star path ≡ false → url ≡ path → Denotes path url
  any_ending :
      {url : Bytes} (pre rest : Bytes)
      → path ≡ pre ++ b'*' ∷ []
      → url ≡ pre ++ rest
      → Denotes path url

star-append : (pre : Bytes) → ends_in_star (pre ++ b'*' ∷ []) ≡ true
unfolding ends_in_star
star-append [] = refl
star-append (c ∷ []) = refl
star-append (c ∷ d ∷ pre) = star-append (d ∷ pre)

trim_last-append : (pre : Bytes) (c : ℕ) → trim_last (pre ++ c ∷ []) ≡ pre
unfolding trim_last
trim_last-append [] c = refl
trim_last-append (d ∷ []) c = refl
trim_last-append (d ∷ e ∷ pre) c = ap (◌∷◌ d) (trim_last-append (e ∷ pre) c)

append-trim_last : (path : Bytes) → ends_in_star path ≡ true → path ≡ trim_last path ++ b'*' ∷ []
unfolding ends_in_star trim_last
append-trim_last [] h = cc
append-trim_last (c ∷ []) h = ground arith
append-trim_last (c ∷ d ∷ rest) h = ap (◌∷◌ c) (append-trim_last (d ∷ rest) h)

module _ (path url : Bytes) where
  matches_sound : matches (make_pattern path) url ≡ true → Denotes path url
  unfolding matches make_pattern
  matches_sound h = elim (Bool-cases (ends_in_star path)) [
    | inl star ↦
        let (rest, e) = has_prefix→append (trim_last path) url (ground arith) in
        any_ending (trim_last path) rest (append-trim_last path star) e
    | inr plain ↦ exactly plain ((equal_iff url path).0 (ground arith))
  ]

  matches_complete : Denotes path url → matches (make_pattern path) url ≡ true
  unfolding matches make_pattern
  matches_complete (exactly plain e) = ground (arith, equal_iff url path)
  matches_complete (any_ending pre rest p e) =
      rw (p, e) (rw (star-append pre, trim_last-append pre (b'*')) (append→has_prefix pre rest))

  -- `Match` on the pattern of a path decides what the path stands for.
  pub matches_iff : (matches (make_pattern path) url ≡ true) ↔ Denotes path url
  matches_iff = (matches_sound, matches_complete)

has_slash :
    (path : Bytes) → has_prefix (b'/' ∷ []) path ≡ true → (rest : Bytes) × (path ≡ b'/' ∷ rest)
has_slash path h = has_prefix→append (b'/' ∷ []) path h

module _ (path : Bytes) where
  parse_pattern_sound :
      {p : Pattern} → parse_pattern path ≡ ok p → IsValidPath path × (p ≡ make_pattern path)
  unfolding parse_pattern
  parse_pattern_sound {p} h = (
    record {
      short = ground arith;
      rooted = has_slash path (ground arith);
      well_formed = (validate_chars_iff path).0 (ground arith);
    },
    ground arith,
  )

  parse_pattern_complete : IsValidPath path → parse_pattern path ≡ ok (make_pattern path)
  unfolding parse_pattern
  parse_pattern_complete v =
      let (rest, e) = v.rooted in
      let slash : has_prefix (b'/' ∷ []) path ≡ true = rw e (append→has_prefix (b'/' ∷ []) rest) in
      let some_byte : 0 < length path = rw e (omega arith) in
      ground (arith, v.short, (validate_chars_iff path).1 v.well_formed)

  -- `ParsePattern` accepts exactly the paths that keep the rules, and then returns the pattern made
  -- of the path.
  pub parse_pattern_iff :
      (p : Pattern) → (parse_pattern path ≡ ok p) ↔ IsValidPath path × (p ≡ make_pattern path)
  parse_pattern_iff p = (parse_pattern_sound, λ v. parse_pattern_complete v.0 ∙ ap ok (sym v.1))

  -- The pattern that `ParsePattern` returns matches exactly the URL paths that the path stands for.
  pub parse_pattern-matches :
      (p : Pattern) (url : Bytes)
      → parse_pattern path ≡ ok p
      → (matches p url ≡ true) ↔ Denotes path url
  parse_pattern-matches p url h = rw ((parse_pattern_sound h).1) (matches_iff path url)

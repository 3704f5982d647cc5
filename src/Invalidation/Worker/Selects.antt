-- ===== src/Invalidation/Worker/Selects.antt =====
-- Which stored keys a job selects.
use cf_local.Prelude.{
  ℕ, ◌+◌, ◌≡◌, refl, ◌↔◌, inl, inr, true, List, [], ◌∷◌, ◌++◌, arith, Bool-cases, Option-cases,
  length, drop, Any, here, there, any, Bytes, ok, Result-cases, drop_add-append,
}
use cf_local.Invalidation.Matcher.{Pattern, make_pattern, parse_pattern, matches}
use cf_local.Invalidation.Matcher.Denotes.{
  IsValidPath, Denotes, parse_pattern_iff, parse_pattern-matches, matches_iff,
}
use cf_local.Invalidation.Cache.{index_byte}
use cf_local.Invalidation.Cache.Find.{Without, index_byte_sound, index_byte_complete}
use cf_local.Invalidation.Worker.{parse_paths, should_purge}

-- A valid path that stands for `url`.
pub record Names (url path : Bytes) : Type 0 where
  pub valid : IsValidPath path
  pub denotes : Denotes path url

-- A stored key `<sha256>:<uri>` whose uri some valid path of the job stands for.
pub record Selects (paths : List Bytes) (stored_key : Bytes) : Type 0 where
  pub sha : Bytes
  pub uri : Bytes
  pub layout : stored_key ≡ sha ++ b':' ∷ uri
  pub no_colon : Without b':' sha
  pub named : Any (Names uri) paths

module _ (url : Bytes) where
  Names-of_match :
      (path : Bytes) (p : Pattern)
      → parse_pattern path ≡ ok p
      → matches p url ≡ true
      → Names url path
  Names-of_match path p e m = record {
    valid = ((parse_pattern_iff path p).0 e).0;
    denotes = (parse_pattern-matches path p url e).0 m;
  }

  any-sound :
      (paths : List Bytes)
      → any (λ p. matches p url) (parse_paths paths) ≡ true
      → Any (Names url) paths
  unfolding parse_paths
  any-sound [] h = cc
  any-sound (path ∷ rest) h = elim (Result-cases (parse_pattern path)) [
    | inr (x, e) ↦ there (any-sound rest (ground arith))
    | inl (p, e) ↦ elim (Bool-cases (matches p url)) [
      | inl m ↦ here (Names-of_match path p e m)
      | inr m ↦ there (any-sound rest (ground arith))
    ]
  ]

  any_complete :
      {paths : List Bytes}
      → Any (Names url) paths
      → any (λ p. matches p url) (parse_paths paths) ≡ true
  unfolding parse_paths
  any_complete (here {x = path} n) =
      let e = (parse_pattern_iff path (make_pattern path)).1 (n.valid, refl) in
      ground (arith, (matches_iff path url).1 n.denotes)
  any_complete (there {x = path} {xs = rest} t) = elim (Result-cases (parse_pattern path)) [
    | inr (x, e) ↦ ground (arith, any_complete t)
    | inl (p, e) ↦ ground (arith, any_complete t)
  ]

drop-byte : (before after : Bytes) (b : ℕ) → drop (length before + 1) (before ++ b ∷ after) ≡ after
drop-byte before after b = drop_add-append before (b ∷ after) 1

module _ (paths : List Bytes) (stored_key : Bytes) where
  should_purge_sound : should_purge (parse_paths paths) stored_key ≡ true → Selects paths stored_key
  unfolding should_purge
  should_purge_sound h = elim (Option-cases (index_byte b':' stored_key)) [
    | inl e ↦ absurd (ground arith)
    | inr (i, e) ↦
        let f = index_byte_sound (b':') stored_key i e in
        let uri_is : drop (i + 1) stored_key ≡ f.after =
          rw (f.layout, ← f.at) (drop-byte f.before f.after (b':')) in
        let hit : any (λ p. matches p (drop (i + 1) stored_key)) (parse_paths paths) ≡ true =
          ground arith in
        record {
          sha = f.before;
          uri = f.after;
          layout = f.layout;
          no_colon = f.first;
          named = any-sound f.after paths (rw uri_is at hit);
        }
  ]

  should_purge_complete :
      Selects paths stored_key → should_purge (parse_paths paths) stored_key ≡ true
  unfolding should_purge
  should_purge_complete s =
      let found = index_byte_complete (b':') stored_key (length s.sha) (record {
        before = s.sha;
        after = s.uri;
        layout = s.layout;
        at = refl;
        first = s.no_colon;
      }) in
      let uri_is : drop (length s.sha + 1) stored_key ≡ s.uri =
        rw s.layout (drop-byte s.sha s.uri (b':')) in
      rw (found, should_purge) (rw uri_is (any_complete s.uri s.named))

  -- The predicate that the worker hands to the cache selects a stored key exactly when it is
  -- `<sha>:<uri>`, split at the first colon, and a valid path of the job stands for the uri.
  pub should_purge_iff :
      (should_purge (parse_paths paths) stored_key ≡ true) ↔ Selects paths stored_key
  should_purge_iff = (should_purge_sound, should_purge_complete)

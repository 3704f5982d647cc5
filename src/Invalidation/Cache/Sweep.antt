-- ===== src/Invalidation/Cache/Sweep.antt =====
-- `FileSystemCache.Purge`: which entries of the walk it removes, and where it stops.
use cf_local.Prelude.{
  ◌+◌, ◌≡◌, ap, inl, inr, Bool, true, false, ◌&&◌, Option, none, some, List, [], ◌∷◌, arith,
  if◌then◌else◌, Bool-cases, Option-cases, length, keep, Bytes, equal, ok, err,
}
use cf_local.Invalidation.Cache.{
  Visit, Swept, WalkError, root_missing, context_done, not_exist, other_error, read_cache_key,
  visit_file, visit, walk, purge,
}

module _ (dir : Bytes) (should_purge : Bytes → Bool) where
  -- The error with which an entry ends the walk: the root is missing, or the context is done.
  abbrev pub stops_with : Visit → Option WalkError
  stops_with v = elim v.walk_error [
    | none ↦ if v.cancelled then some context_done else none
    | some e ↦ elim e [
      | not_exist ↦ if equal v.path dir then some root_missing else none
      | other_error ↦ none
    ]
  ]

  -- A file that reads as a cache entry with a selected key, and that is gone afterwards.
  abbrev pub is_purged : Visit → Bool
  is_purged v = elim v.walk_error [
    | some e ↦ false
    | none ↦ if v.is_dir then false else elim (read_cache_key v.contents) [
      | err _ ↦ false
      | ok key ↦ should_purge key && elim v.removal [
        | none ↦ true
        | some e ↦ elim e [ not_exist ↦ true | other_error ↦ false ]
      ]
    ]
  ]

  -- The entries before the first that ends the walk, and the error of that one.
  abbrev pub reached : List Visit → List Visit
  reached [] = []
  reached (v ∷ vs) = elim (stops_with v) [ none ↦ v ∷ reached vs | some e ↦ [] ]

  abbrev pub first_stop : List Visit → Option WalkError
  first_stop [] = none
  first_stop (v ∷ vs) = elim (stops_with v) [ none ↦ first_stop vs | some e ↦ some e ]

-- The entries of the list, last first, onto `paths`.
abbrev pub paths_onto : List Visit → List Bytes → List Bytes
paths_onto [] paths = paths
paths_onto (v ∷ vs) paths = paths_onto vs (v.path ∷ paths)

abbrev counted : Visit → Bool → Swept → Swept
counted v true s = record { purged = s.purged + 1; removed = v.path ∷ s.removed }
counted v false s = s

module _ (dir : Bytes) (should_purge : Bytes → Bool) where
  visit_go :
      (v : Visit) (s : Swept)
      → stops_with dir should_purge v ≡ none
      → visit dir should_purge v s ≡ (counted v (is_purged dir should_purge v) s, none)
  unfolding visit visit_file
  visit_go v s h = ground arith

  visit_stop :
      (v : Visit) (s : Swept) (e : WalkError)
      → stops_with dir should_purge v ≡ some e
      → visit dir should_purge v s ≡ (s, some e)
  unfolding visit
  visit_stop v s e h = ground arith

  abbrev Result_of : List Visit → Swept → Swept × Option WalkError
  Result_of vs s = (
    record {
      purged = s.purged + length (keep (is_purged dir should_purge) (reached dir should_purge vs));
      removed =
          paths_onto (keep (is_purged dir should_purge) (reached dir should_purge vs)) s.removed;
    },
    first_stop dir should_purge vs,
  )

  walk-Result_of : (vs : List Visit) (s : Swept) → walk dir should_purge vs s ≡ Result_of vs s
  unfolding walk
  walk-Result_of [] s = ground arith
  walk-Result_of (v ∷ vs) s = elim (Option-cases (stops_with dir should_purge v)) [
    | inr (e, h) ↦ ground (arith, visit_stop v s e h)
    | inl h ↦ elim (Bool-cases (is_purged dir should_purge v)) [
      | inl p ↦ ground (arith, visit_go v s h, walk-Result_of vs (counted v true s))
      | inr p ↦ ground (arith, visit_go v s h, walk-Result_of vs (counted v false s))
    ]
  ]

  -- `Purge` goes through the entries up to the first at which the root is missing or the context
  -- is done. It has removed exactly those of them that are files with a selected key whose removal
  -- was not refused, its count is their number, and its error is that of the entry that ended it.
  pub purge_lem :
      (visits : List Visit)
      → let done = keep (is_purged dir should_purge) (reached dir should_purge visits) in
        ((purge dir should_purge visits).0.purged ≡ length done)
        × ((purge dir should_purge visits).0.removed ≡ paths_onto done [])
        × ((purge dir should_purge visits).1 ≡ first_stop dir should_purge visits)
  unfolding purge
  purge_lem visits =
      let r = walk-Result_of visits (record { purged = 0; removed = [] }) in
      (
        omega (arith, ap (λ (t : Swept × Option WalkError). t.0.purged) r),
        ap (λ t. t.0.removed) r,
        ap (λ t. t.1) r,
      )

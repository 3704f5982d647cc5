-- ===== src/CachePolicy/Seed.antt =====
-- `SeedManaged` on a store in which no managed policy's ID or name is taken.
use cf_local.Prelude.{
  ◌-◌, ◌≡◌, refl, sym, ap, ◌∙◌, ◌≢◌, inl, inr, Bool, true, false, not, ◌&&◌, none, some, List, [],
  ◌∷◌, arith, Bool-cases, Option-cases, &&-eq-true, All, all, Bytes, equal, equal_iff, Dict, lookup,
  insert, lookup-insert, lookup-insert_ne, ok, Distinct-insert,
}
use cf_local.Storage.{Bbolt, Json}
use cf_local.Validate.Policy.{CachePolicyConfig, validate_cache_policy_config}
use cf_local.CachePolicy.Store.{
  Record, is_managed, string_deref, BoltStore, seed_records, index_name,
}
use cf_local.CachePolicy.Store.Index.{Indexed-add, name_of}
use cf_local.CachePolicy.Store.Valid.{IsValid}
use cf_local.CachePolicy.Managed.{managed_policies, seed_managed}

-- The record differs from another in ID and in name.
abbrev pub Apart : Record → Record → Type 0
Apart r q = (r.id ≢ q.id) × (name_of r ≢ name_of q)

-- Managed, named, and apart from every record behind it.
abbrev pub Seedable : List Record → Type 0
Seedable [] = Unit
Seedable (r ∷ rest) =
    (is_managed r ≡ true)
    × ((n : Bytes) × (name_of r ≡ some n))
    × All (Apart r) rest
    × Seedable rest

index_name-named :
    (r : Record) (n : Bytes) (by_name : Dict Bytes)
    → name_of r ≡ some n
    → index_name r by_name ≡ insert n r.id by_name
unfolding index_name
index_name-named r n by_name h = elim (Option-cases r.config) [
  | inl e ↦ absurd (ground arith)
  | inr (c, e) ↦ ground arith
]

module _ (bolt : Bbolt) (json : Json Record) (etag_gen : CachePolicyConfig → Bytes) where
  -- Nothing of the record is taken in the store.
  abbrev pub IsAbsent : BoltStore bolt json etag_gen → Record → Type 0
  IsAbsent s r =
      (lookup r.id s.by_id ≡ none) × ((n : Bytes) → name_of r ≡ some n → lookup n s.by_name ≡ none)

  abbrev seeded : Record → BoltStore bolt json etag_gen → BoltStore bolt json etag_gen
  seeded r s = record s { by_id = insert r.id r s.by_id; by_name = index_name r s.by_name }

  seeded-IsValid :
      (r : Record) (n : Bytes) (s : BoltStore bolt json etag_gen)
      → is_managed r ≡ true
      → name_of r ≡ some n
      → IsAbsent s r
      → IsValid bolt json etag_gen s
      → IsValid bolt json etag_gen (seeded r s)
  seeded-IsValid r n s managed named absent v = record {
    distinct = Distinct-insert r.id r s.by_id v.distinct;
    distinct_names =
        rw (index_name-named r n s.by_name named)
          (Distinct-insert n r.id s.by_name v.distinct_names);
    indexed =
        rw (index_name-named r n s.by_name named)
          (Indexed-add s.by_id s.by_name v.indexed r r.id n refl named absent.0 (absent.1 n named));
    mirrored = λ j. rw (lookup-insert r.id j r s.by_id) (elim (Bool-cases (equal r.id j)) [
      | inl e ↦ rw e (inl (managed, nothing_stored j e))
      | inr e ↦ rw e (v.mirrored j)
    ]);
  }
    where
      nothing_stored : (j : Bytes) → equal r.id j ≡ true → lookup j (bolt.entries s.db) ≡ none
      nothing_stored j e =
          let gone : lookup j s.by_id ≡ none = ground (arith, equal_iff r.id j, absent.0) in
          rw gone at (v.mirrored j)

  seeded-IsAbsent :
      (r q : Record) (n : Bytes) (s : BoltStore bolt json etag_gen)
      → name_of r ≡ some n
      → Apart r q
      → IsAbsent s q
      → IsAbsent (seeded r s) q
  seeded-IsAbsent r q n s named apart absent = (
    rw (lookup-insert_ne r.id q.id r s.by_id apart.0) absent.0,
    λ m h. rw (index_name-named r n s.by_name named) (
        rw (lookup-insert_ne n m r.id s.by_name (λ e. apart.1 (named ∙ ap some e ∙ sym h)))
          (absent.1 m h)),
  )

  All-seeded :
      (r : Record) (n : Bytes) (rest : List Record) (s : BoltStore bolt json etag_gen)
      → name_of r ≡ some n
      → All (Apart r) rest
      → All (IsAbsent s) rest
      → All (IsAbsent (seeded r s)) rest
  All-seeded r n [] s named a b = tt
  All-seeded r n (q ∷ rest) s named a b =
      (seeded-IsAbsent r q n s named a.0 b.0, All-seeded r n rest s named a.1 b.1)

  seed_records-db :
      (rs : List Record) (s : BoltStore bolt json etag_gen)
      → (seed_records bolt json etag_gen rs s).db ≡ s.db
  unfolding seed_records
  seed_records-db [] s = refl
  seed_records-db (r ∷ rest) s = seed_records-db rest (seeded r s)

  seed_records-IsValid :
      (rs : List Record) (s : BoltStore bolt json etag_gen)
      → Seedable rs
      → All (IsAbsent s) rs
      → IsValid bolt json etag_gen s
      → IsValid bolt json etag_gen (seed_records bolt json etag_gen rs s)
  unfolding seed_records
  seed_records-IsValid [] s d a v = v
  seed_records-IsValid (r ∷ rest) s (managed, (n, named), apart, d) (here_absent, a) v =
      seed_records-IsValid rest (seeded r s) d (All-seeded r n rest s named apart a)
        (seeded-IsValid r n s managed named here_absent v)

-- The conditions as a test that runs.
unfoldable has_name : Record → Bool
has_name r = elim (name_of r) [ none ↦ false | some n ↦ true ]

unfoldable apart_test : Record → Record → Bool
apart_test r q =
    not (equal r.id q.id) && not (equal (string_deref (name_of r)) (string_deref (name_of q)))

unfoldable seedable_test : List Record → Bool
seedable_test [] = true
seedable_test (r ∷ rest) =
    is_managed r && has_name r && all (apart_test r) rest && seedable_test rest

has_name-true : (r : Record) → has_name r ≡ true → (n : Bytes) × (name_of r ≡ some n)
unfolding has_name
has_name-true r h = elim (Option-cases (name_of r)) [
  | inl e ↦ absurd (ground arith)
  | inr (n, e) ↦ (n, e)
]

apart_test-Apart : (r q : Record) → apart_test r q ≡ true → Apart r q
unfolding apart_test
apart_test-Apart r q h = (
  λ e. ground (arith, equal_iff r.id q.id),
  λ e.
      let same : string_deref (name_of r) ≡ string_deref (name_of q) = ap string_deref e in
      ground (arith, equal_iff (string_deref (name_of r)) (string_deref (name_of q))),
)

all-Apart : (r : Record) (rest : List Record) → all (apart_test r) rest ≡ true → All (Apart r) rest
all-Apart r [] h = tt
all-Apart r (q ∷ rest) h =
    let (a, b) = &&-eq-true (apart_test r q) (all (apart_test r) rest) h in
    (apart_test-Apart r q a, all-Apart r rest b)

seedable_test-Seedable : (rs : List Record) → seedable_test rs ≡ true → Seedable rs
unfolding seedable_test
seedable_test-Seedable [] h = tt
seedable_test-Seedable (r ∷ rest) h = (
  ground arith,
  has_name-true r (ground arith),
  all-Apart r rest (ground arith),
  seedable_test-Seedable rest (ground arith),
)

pub managed-Seedable : (etag_gen : CachePolicyConfig → Bytes) → Seedable (managed_policies etag_gen)
unfolding managed_policies
managed-Seedable etag_gen = seedable_test-Seedable (managed_policies etag_gen) (
    unfold seedable_test in
    unfold apart_test in
    unfold has_name in unfold string_deref in unfold is_managed in unfold equal in refl)

module _ (bolt : Bbolt) (json : Json Record) (etag_gen : CachePolicyConfig → Bytes) where
  -- `SeedManaged` on a valid store in which no managed policy's ID or name is taken keeps the
  -- invariant, and leaves the bucket as it is.
  pub seed_managed-IsValid :
      (s : BoltStore bolt json etag_gen)
      → IsValid bolt json etag_gen s
      → All (IsAbsent bolt json etag_gen s) (managed_policies etag_gen)
      → IsValid bolt json etag_gen (seed_managed bolt json etag_gen s)
        × ((seed_managed bolt json etag_gen s).db ≡ s.db)
  unfolding seed_managed
  seed_managed-IsValid s v a = (
    seed_records-IsValid bolt json etag_gen (managed_policies etag_gen) s
        (managed-Seedable etag_gen) a v,
    seed_records-db bolt json etag_gen (managed_policies etag_gen) s,
  )

-- Every managed policy passes the checks that the API makes of a policy it is sent.
pub managed_policies-accepted :
    (etag_gen : CachePolicyConfig → Bytes)
    → All (λ r. validate_cache_policy_config r.config ≡ ok tt) (managed_policies etag_gen)
unfolding managed_policies validate_cache_policy_config cf_local.Validate.Policy.validate_name equal
    cf_local.Validate.Names.is_safe_name cf_local.Prelude.Runes.runes
    cf_local.Validate.Names.is_safe_name_rune cf_local.Validate.Policy.check_parameters
    cf_local.Validate.Policy.validate_cache_policy_headers
    cf_local.Validate.Policy.validate_cache_policy_cookies
    cf_local.Validate.Policy.validate_cache_policy_query_strings
    cf_local.Validate.Policy.check_items cf_local.Validate.Names.is_safe_item_name
managed_policies-accepted etag_gen = (refl, (refl, (refl, (refl, (refl, tt)))))

-- ===== src/CachePolicy/Store/Delete.antt =====
-- `Delete` of the cache policy store, on all of its paths.
use mathlib.Core.Path.{subst}
use cf_local.Prelude.{
  ◌+◌, ◌≡◌, refl, sym, ap, ◌∙◌, ◌≢◌, ◌⊎◌, inl, inr, false, some, arith, if◌then◌else◌, Bool-cases,
  Option-cases, Bytes, equal_iff, Dict, lookup, delete, lookup-delete, lookup-delete_self, Result,
  ok, err, Result-cases, Distinct-delete,
}
use cf_local.Storage.{Bbolt, Json}
use cf_local.Validate.Policy.{CachePolicyConfig}
use cf_local.CachePolicy.Store.{
  Record, StoreError, not_found, managed_immutable, is_managed, delete_key, BoltStore, fire,
  remove_record, remove, get, string_deref,
}
use cf_local.CachePolicy.Store.Index.{Indexed-remove, name_of}
use cf_local.CachePolicy.Store.Valid.{IsValid, IsValid-fire, fire-db, Mirrors-delete}

module _ (bolt : Bbolt) (json : Json Record) (etag_gen : CachePolicyConfig → Bytes) where
  abbrev deleted :
      Bytes → Bytes → bolt.Db → BoltStore bolt json etag_gen → BoltStore bolt json etag_gen
  deleted id n db s = record s { db = db; by_id = delete id s.by_id; by_name = delete n s.by_name }

  -- What a successful `Delete` did.
  pub record Deleted (id : Bytes) (s t : BoltStore bolt json etag_gen) : Type 0 where
    pub name : Bytes
    pub db : bolt.Db
    pub before : Record
    pub found : lookup id s.by_id ≡ some before
    pub custom : is_managed before ≡ false
    pub named : name_of before ≡ some name
    pub stored : delete_key bolt json etag_gen id s ≡ ok db
    pub result : t ≡ fire bolt json etag_gen (deleted id name db s)

  abbrev pub DeleteOutcome :
      Bytes
      → BoltStore bolt json etag_gen
      → Result StoreError (Unit {0}) × BoltStore bolt json etag_gen
      → Type 0
  DeleteOutcome id s a =
      ((e : StoreError) × (a ≡ (err e, s)))
      ⊎ ((t : BoltStore bolt json etag_gen) × (a ≡ (ok tt, t)) × Deleted id s t)

  module _ (id : Bytes) (s : BoltStore bolt json etag_gen) where
    remove_record-ran :
        (r : Record) (old : CachePolicyConfig) (n : Bytes) (db : bolt.Db)
        → r.config ≡ some old
        → old.name ≡ some n
        → delete_key bolt json etag_gen id s ≡ ok db
        → remove_record bolt json etag_gen id r s
          ≡ (ok tt, fire bolt json etag_gen (deleted id n db s))
    unfolding remove_record string_deref
    remove_record-ran r old n db has_config has_name h =
        rw (h, remove_record, has_config, has_name) refl

    with_config :
        (r : Record) (a : Bytes)
        → name_of r ≡ some a
        → (old : CachePolicyConfig) × (r.config ≡ some old) × (old.name ≡ some a)
    with_config r a h = elim (Option-cases r.config) [
      | inl e ↦ absurd (ground arith)
      | inr (old, e) ↦ (old, e, ground arith)
    ]

    remove_record-outcome :
        (r : Record) (n : Bytes)
        → lookup id s.by_id ≡ some r
        → is_managed r ≡ false
        → name_of r ≡ some n
        → DeleteOutcome id s (remove_record bolt json etag_gen id r s)
    unfolding remove_record
    remove_record-outcome r n found custom named =
        let (old, has_config, has_name) = with_config r n named in
        elim (Result-cases (delete_key bolt json etag_gen id s)) [
          | inr (e, h) ↦ inl (e, rw (h, remove_record) refl)
          | inl (db, h) ↦ inr (
            fire bolt json etag_gen (deleted id n db s),
            remove_record-ran r old n db has_config has_name h,
            record {
              name = n;
              db = db;
              before = r;
              found = found;
              custom = custom;
              named = named;
              stored = h;
              result = refl;
            },
          )
        ]

  -- On a valid store `Delete` fails and leaves the store as it was, or removes one custom record.
  pub delete_outcome :
      (id if_match : Bytes) (s : BoltStore bolt json etag_gen)
      → IsValid bolt json etag_gen s
      → DeleteOutcome id s (remove bolt json etag_gen id if_match s)
  unfolding remove
  delete_outcome id if_match s v = elim (Option-cases (lookup id s.by_id)) [
    | inl e ↦ inl (not_found, rw (e, remove) refl)
    | inr (r, e) ↦ elim (Bool-cases (is_managed r)) [
      | inl m ↦ inl (managed_immutable, ground arith)
      | inr m ↦
          let run : remove bolt json etag_gen id if_match s
              ≡ remove_record bolt json etag_gen id r s =
            ground arith in
          let (a, a_named, a_at) = v.indexed.complete id r e in
          subst (DeleteOutcome id s) (sym run) (remove_record-outcome id s r a e m a_named)
    ]
  ]

  -- On a valid store a failed `Delete` leaves the store as it was, whatever failed.
  pub delete-unchanged :
      (id if_match : Bytes) (s : BoltStore bolt json etag_gen) (e : StoreError)
      (t : BoltStore bolt json etag_gen)
      → IsValid bolt json etag_gen s
      → remove bolt json etag_gen id if_match s ≡ (err e, t)
      → t ≡ s
  delete-unchanged id m s e t v h = elim (delete_outcome id m s v) [
    | inl (e', q) ↦ ground arith
    | inr (t', q, c) ↦ absurd (ground arith)
  ]

  remove-Deleted :
      (id if_match : Bytes) (s t : BoltStore bolt json etag_gen)
      → IsValid bolt json etag_gen s
      → remove bolt json etag_gen id if_match s ≡ (ok tt, t)
      → Deleted id s t
  remove-Deleted id m s t v h = elim (delete_outcome id m s v) [
    | inl (e, x) ↦ absurd (ground arith)
    | inr (t', x, c) ↦ let same : t' ≡ t = ground arith in subst (Deleted id s) same c
  ]

  Deleted-IsValid :
      (id : Bytes) (s t : BoltStore bolt json etag_gen)
      → Deleted id s t
      → IsValid bolt json etag_gen s
      → IsValid bolt json etag_gen t
  Deleted-IsValid id s t d v = subst (IsValid bolt json etag_gen) (sym d.result) (
      IsValid-fire bolt json etag_gen (deleted id d.name d.db s) (record {
        distinct = Distinct-delete id s.by_id v.distinct;
        distinct_names = Distinct-delete d.name s.by_name v.distinct_names;
        indexed = Indexed-remove s.by_id s.by_name v.indexed d.before id d.name d.found d.named;
        mirrored = Mirrors-delete bolt json etag_gen s d.db v.mirrored id d.stored;
      }))

  lookup-delete_ne {ℓ} :
      {V : Type ℓ} (k j : Bytes) (m : Dict V) → j ≢ k → lookup j (delete k m) ≡ lookup j m
  lookup-delete_ne k j m ne = ground (arith, lookup-delete k j m, equal_iff k j)

  -- On a valid store a successful `Delete` keeps the invariant, was asked for a custom record that
  -- is there, makes its ID answer not found, leaves what every other ID answers,
  -- and calls `onChange` once where it is set.
  pub get-delete_policy :
      (id if_match : Bytes) (s t : BoltStore bolt json etag_gen)
      → IsValid bolt json etag_gen s
      → remove bolt json etag_gen id if_match s ≡ (ok tt, t)
      → IsValid bolt json etag_gen t
        × ((r : Record) × (get bolt json etag_gen id s ≡ ok r) × (is_managed r ≡ false))
        × (get bolt json etag_gen id t ≡ err not_found)
        × ((j : Bytes) → j ≢ id → get bolt json etag_gen j t ≡ get bolt json etag_gen j s)
        × (t.fired ≡ (if s.on_change then s.fired + 1 else s.fired))
  unfolding get
  get-delete_policy id m s t v h =
      let d = remove-Deleted id m s t v h in
      let map_is : t.by_id ≡ delete id s.by_id =
        ap (λ x. x.by_id) d.result ∙ (fire-db bolt json etag_gen (deleted id d.name d.db s)).0 in
      (
        Deleted-IsValid id s t d v,
        (d.before, rw d.found refl, d.custom),
        rw map_is (rw (lookup-delete_self id s.by_id) refl),
        λ j ne. rw map_is (rw (lookup-delete_ne id j s.by_id ne) refl),
        ap (λ x. x.fired) d.result ∙ (fire-db bolt json etag_gen (deleted id d.name d.db s)).1,
      )

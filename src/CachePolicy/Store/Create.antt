-- ===== src/CachePolicy/Store/Create.antt =====
-- `Create` of the cache policy store, on all of its paths.
use mathlib.Core.Path.{subst}
use cf_local.Prelude.{
  ℕ, ◌+◌, ◌≡◌, refl, sym, ap, ◌∙◌, ◌≢◌, ◌⊎◌, inl, inr, false, Option, none, some, arith,
  if◌then◌else◌, Option-cases, Bytes, equal, lookup, insert, lookup-insert_self, lookup-insert_ne,
  Result, ok, err, Result-cases, Distinct-insert,
}
use cf_local.Storage.{Bbolt, Json}
use cf_local.Validate.Policy.{CachePolicyConfig}
use cf_local.CachePolicy.Store.{
  Record, StoreError, already_exists, missing_name, mint_failed, type_custom, is_managed, put,
  BoltStore, fire, insert_new, create_named, create, new_record, get,
}
use cf_local.CachePolicy.Store.Index.{Indexed-add, name_of}
use cf_local.CachePolicy.Store.Valid.{IsValid, IsValid-fire, fire-db, Mirrors-put}

module _ (bolt : Bbolt) (json : Json Record) (etag_gen : CachePolicyConfig → Bytes) where
  abbrev inserted :
      Record → Bytes → bolt.Db → BoltStore bolt json etag_gen → BoltStore bolt json etag_gen
  inserted r n db s = record s {
    db = db;
    by_id = insert r.id r s.by_id;
    by_name = insert n r.id s.by_name;
  }

  -- What a successful `Create` did.
  pub record Created (o : Option CachePolicyConfig) (minted : Option Bytes) (now : ℕ)
      (s : BoltStore bolt json etag_gen) (r : Record) (t : BoltStore bolt json etag_gen)
      : Type 0 where
    pub config : CachePolicyConfig
    pub name : Bytes
    pub db : bolt.Db
    pub given : o ≡ some config
    pub named : config.name ≡ some name
    pub free : lookup name s.by_name ≡ none
    pub id_minted : minted ≡ some r.id
    pub built : r ≡ new_record bolt json etag_gen r.id config now type_custom
    pub stored : put bolt json etag_gen r s ≡ ok db
    pub result : t ≡ fire bolt json etag_gen (inserted r name db s)

  -- What an operation that creates may do: fail and change nothing, or create.
  abbrev pub CreateOutcome :
      Option CachePolicyConfig
      → Option Bytes
      → ℕ
      → BoltStore bolt json etag_gen
      → Result StoreError Record × BoltStore bolt json etag_gen
      → Type 0
  CreateOutcome o minted now s a =
      ((e : StoreError) × (a ≡ (err e, s)))
      ⊎ ((r : Record) × (t : BoltStore bolt json etag_gen) × (a ≡ (ok r, t))
          × Created o minted now s r t)

  module _ (c : CachePolicyConfig) (n : Bytes) (named : c.name ≡ some n) (now : ℕ)
      (s : BoltStore bolt json etag_gen) where
    insert_new-outcome :
        (id : Bytes)
        → lookup n s.by_name ≡ none
        → CreateOutcome (some c) (some id) now s (insert_new bolt json etag_gen c n id now s)
    unfolding insert_new
    insert_new-outcome id free =
        let r = new_record bolt json etag_gen id c now type_custom in
        elim (Result-cases (put bolt json etag_gen r s)) [
          | inr (e, h) ↦ inl (e, rw (h, insert_new) refl)
          | inl (db, h) ↦ inr (
            r,
            fire bolt json etag_gen (inserted r n db s),
            rw (h, insert_new) refl,
            record {
              config = c;
              name = n;
              db = db;
              given = refl;
              named = named;
              free = free;
              id_minted = refl;
              built = refl;
              stored = h;
              result = refl;
            },
          )
        ]

    create_named-outcome :
        (minted : Option Bytes)
        → CreateOutcome (some c) minted now s (create_named bolt json etag_gen c n minted now s)
    unfolding create_named
    create_named-outcome minted = elim (Option-cases (lookup n s.by_name)) [
      | inr (j, e) ↦ inl (already_exists, rw (e, create_named) refl)
      | inl e ↦ rw (e, create_named) (at_mint minted e)
    ]
      where
        at_mint :
            (minted : Option Bytes)
            → lookup n s.by_name ≡ none
            → CreateOutcome (some c) minted now s (elim minted [
              | none ↦ (err mint_failed, s)
              | some id ↦ insert_new bolt json etag_gen c n id now s
            ])
        at_mint none e = inl (mint_failed, refl)
        at_mint (some id) e = insert_new-outcome id e

  -- `Create` fails and leaves the store as it was, or creates one record.
  pub create_outcome :
      (o : Option CachePolicyConfig) (minted : Option Bytes) (now : ℕ)
      (s : BoltStore bolt json etag_gen)
      → CreateOutcome o minted now s (create bolt json etag_gen o minted now s)
  unfolding create
  create_outcome none minted now s = inl (missing_name, refl)
  create_outcome (some c) minted now s = at_name c.name refl
    where
      at_name :
          (m : Option Bytes)
          → c.name ≡ m
          → CreateOutcome (some c) minted now s (elim m [
            | none ↦ (err missing_name, s)
            | some n ↦ create_named bolt json etag_gen c n minted now s
          ])
      at_name none e = inl (missing_name, refl)
      at_name (some n) e = create_named-outcome c n e now s minted

  Created-custom :
      (o : Option CachePolicyConfig) (minted : Option Bytes) (now : ℕ)
      (s : BoltStore bolt json etag_gen) (r : Record) (t : BoltStore bolt json etag_gen)
      → Created o minted now s r t
      → is_managed r ≡ false
  Created-custom o minted now s r t c =
      ap is_managed c.built ∙ (unfold is_managed in unfold equal in refl)

  Created-IsValid :
      (o : Option CachePolicyConfig) (minted : Option Bytes) (now : ℕ)
      (s : BoltStore bolt json etag_gen) (r : Record) (t : BoltStore bolt json etag_gen)
      → Created o minted now s r t
      → lookup r.id s.by_id ≡ none
      → IsValid bolt json etag_gen s
      → IsValid bolt json etag_gen t
  Created-IsValid o minted now s r t c fresh v = subst (IsValid bolt json etag_gen) (sym c.result) (
      IsValid-fire bolt json etag_gen (inserted r c.name c.db s) (record {
        distinct = Distinct-insert r.id r s.by_id v.distinct;
        distinct_names = Distinct-insert c.name r.id s.by_name v.distinct_names;
        indexed =
            Indexed-add s.by_id s.by_name v.indexed r r.id c.name refl
              (ap name_of c.built ∙ c.named) fresh c.free;
        mirrored = Mirrors-put bolt json etag_gen s c.db v.mirrored r r.id refl (custom c) c.stored;
      }))
    where
      custom : Created o minted now s r t → is_managed r ≡ false
      custom c = ap is_managed c.built ∙ (unfold is_managed in unfold equal in refl)

  pub create-Created :
      (o : Option CachePolicyConfig) (minted : Option Bytes) (now : ℕ)
      (s : BoltStore bolt json etag_gen) (r : Record) (t : BoltStore bolt json etag_gen)
      → create bolt json etag_gen o minted now s ≡ (ok r, t)
      → Created o minted now s r t
  create-Created o minted now s r t h = elim (create_outcome o minted now s) [
    | inl (e, q) ↦ absurd (ground arith)
    | inr (r', t', q, c) ↦
        let same_r : r' ≡ r = ground arith in
        let same_t : t' ≡ t = ground arith in
        subst (λ x. Created o minted now s x t) same_r (subst (Created o minted now s r') same_t c)
  ]

  -- A failed `Create` leaves the store as it was, whatever failed.
  pub create-unchanged :
      (o : Option CachePolicyConfig) (minted : Option Bytes) (now : ℕ)
      (s : BoltStore bolt json etag_gen) (e : StoreError) (t : BoltStore bolt json etag_gen)
      → create bolt json etag_gen o minted now s ≡ (err e, t)
      → t ≡ s
  create-unchanged o minted now s e t h = elim (create_outcome o minted now s) [
    | inl (e', q) ↦ ground arith
    | inr (r', t', q, c) ↦ absurd (ground arith)
  ]

  -- When the minted ID is not in use, a successful `Create` keeps the invariant, stores a custom
  -- record of the configuration under the minted ID, leaves what every other ID answers, and calls
  -- `onChange` once where it is set.
  pub get-create_policy :
      (o : Option CachePolicyConfig) (minted : Option Bytes) (now : ℕ)
      (s : BoltStore bolt json etag_gen) (r : Record) (t : BoltStore bolt json etag_gen)
      → IsValid bolt json etag_gen s
      → ((id : Bytes) → minted ≡ some id → lookup id s.by_id ≡ none)
      → create bolt json etag_gen o minted now s ≡ (ok r, t)
      → IsValid bolt json etag_gen t
        × (minted ≡ some r.id)
        × (r.config ≡ o)
        × (is_managed r ≡ false)
        × (get bolt json etag_gen r.id t ≡ ok r)
        × ((j : Bytes) → j ≢ r.id → get bolt json etag_gen j t ≡ get bolt json etag_gen j s)
        × (t.fired ≡ (if s.on_change then s.fired + 1 else s.fired))
  unfolding get
  get-create_policy o minted now s r t v fresh h =
      let c = create-Created o minted now s r t h in
      let map_is : t.by_id ≡ insert r.id r s.by_id =
        ap (λ x. x.by_id) c.result ∙ (fire-db bolt json etag_gen (inserted r c.name c.db s)).0 in
      (
        Created-IsValid o minted now s r t c (fresh r.id c.id_minted) v,
        c.id_minted,
        ap (λ x. x.config) c.built ∙ sym c.given,
        Created-custom o minted now s r t c,
        rw map_is (rw (lookup-insert_self r.id r s.by_id) refl),
        λ j ne. rw map_is (rw (lookup-insert_ne r.id j r s.by_id (λ e. ne (sym e))) refl),
        ap (λ x. x.fired) c.result ∙ (fire-db bolt json etag_gen (inserted r c.name c.db s)).1,
      )

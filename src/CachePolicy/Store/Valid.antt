-- ===== src/CachePolicy/Store/Valid.antt =====
-- The invariant of the cache policy store, and what the writes through to the bucket do to it.
use cf_local.Prelude.{
  ◌+◌, ◌≡◌, refl, ◌⊎◌, inl, inr, true, false, Option, none, some, arith, if◌then◌else◌, Bool-cases,
  Option-cases, Bytes, equal, lookup, delete, insert, lookup-delete, lookup-insert, ok, Distinct,
}
use cf_local.Storage.{Bbolt, Json}
use cf_local.Validate.Policy.{CachePolicyConfig}
use cf_local.CachePolicy.Store.{get, Record, is_managed, put, delete_key, BoltStore, fire}
use cf_local.CachePolicy.Store.Index.{Indexed, Indexed-unique, name_of}

-- The stored bytes that belong to what the map holds at one ID: the coding of a custom record, and
-- nothing for a managed one.
abbrev pub Mirrors : Json Record → Option Record → Option Bytes → Type 0
Mirrors json none stored = stored ≡ none
Mirrors json (some r) stored =
    (is_managed r ≡ true) × (stored ≡ none)
    ⊎ (is_managed r ≡ false) × ((b : Bytes) × (json.marshal r ≡ some b) × (stored ≡ some b))

module _ (bolt : Bbolt) (json : Json Record) (etag_gen : CachePolicyConfig → Bytes) where
  -- Both maps have distinct keys and describe each other, and the bucket holds exactly the codings
  -- of the custom records.
  pub record IsValid (s : BoltStore bolt json etag_gen) : Type 0 where
    pub distinct : Distinct s.by_id
    pub distinct_names : Distinct s.by_name
    pub indexed : Indexed s.by_id s.by_name
    pub mirrored : (id : Bytes) → Mirrors json (lookup id s.by_id) (lookup id (bolt.entries s.db))

  pub IsValid-fire :
      (s : BoltStore bolt json etag_gen) → IsValid s → IsValid (fire bolt json etag_gen s)
  unfolding fire
  IsValid-fire s v =
      elim s.on_change as (λ b. IsValid (if b then record s { fired = s.fired + 1 } else s)) [
        | true ↦ record {
          distinct = v.distinct;
          distinct_names = v.distinct_names;
          indexed = v.indexed;
          mirrored = v.mirrored;
        }
        | false ↦ v
      ]

  -- The parts of a store that `onChange` has been called for are those of the store before.
  pub fire-db :
      (s : BoltStore bolt json etag_gen)
      → ((fire bolt json etag_gen s).by_id ≡ s.by_id)
        × ((fire bolt json etag_gen s).fired ≡ (if s.on_change then s.fired + 1 else s.fired))
  unfolding fire
  fire-db s =
      elim s.on_change
        as (λ b.
          ((if b then record s { fired = s.fired + 1 } else s).by_id ≡ s.by_id)
          × ((if b then record s { fired = s.fired + 1 } else s).fired
              ≡ (if b then s.fired + 1 else s.fired))) [
                | true ↦ (refl, refl)
                | false ↦ (refl, refl)
              ]

  pub put_ok :
      (r : Record) (s : BoltStore bolt json etag_gen) {db : bolt.Db}
      → put bolt json etag_gen r s ≡ ok db
      → (b : Bytes) × (json.marshal r ≡ some b) × (bolt.put r.id b s.db ≡ some db)
  unfolding put
  put_ok r s h = elim (Option-cases (json.marshal r)) [
    | inl e ↦ absurd (ground arith)
    | inr (b, e) ↦ (b, e, ground arith)
  ]

  get-found :
      (id : Bytes) (s : BoltStore bolt json etag_gen) (r : Record)
      → get bolt json etag_gen id s ≡ ok r
      → lookup id s.by_id ≡ some r
  unfolding get
  get-found id s r h = elim (Option-cases (lookup id s.by_id)) [
    | inl e ↦ absurd (ground arith)
    | inr (q, e) ↦ ground arith
  ]

  -- In a valid store a name is used once: two IDs that `Get` answers for with records of one name
  -- are one ID.
  pub get-name_of_unique :
      (s : BoltStore bolt json etag_gen) (i j n : Bytes) (r q : Record)
      → IsValid s
      → get bolt json etag_gen i s ≡ ok r
      → get bolt json etag_gen j s ≡ ok q
      → name_of r ≡ some n
      → name_of q ≡ some n
      → i ≡ j
  get-name_of_unique s i j n r q v at_i at_j =
      Indexed-unique v.indexed i j n r q (get-found i s r at_i) (get-found j s q at_j)

  module _ (s : BoltStore bolt json etag_gen) (db : bolt.Db)
      (before : (id : Bytes)
        → Mirrors json (lookup id s.by_id) (lookup id (bolt.entries s.db))) where
    pub Mirrors-put :
        (r : Record) (id : Bytes)
        → r.id ≡ id
        → is_managed r ≡ false
        → put bolt json etag_gen r s ≡ ok db
        → (j : Bytes) → Mirrors json (lookup j (insert id r s.by_id)) (lookup j (bolt.entries db))
    Mirrors-put r id at_id custom h j =
        let (b, m, p) = put_ok r s h in
        let stored : bolt.put id b s.db ≡ some db = rw (← at_id) p in
        let new_db = bolt.entries-put id j b stored in
        rw (lookup-insert id j r s.by_id, new_db)
          (elim (Bool-cases (equal id j)) [
            | inl e ↦ rw e (inr (custom, (b, m, refl)))
            | inr e ↦ rw e (before j)
          ])

    pub Mirrors-delete :
        (id : Bytes)
        → delete_key bolt json etag_gen id s ≡ ok db
        → (j : Bytes) → Mirrors json (lookup j (delete id s.by_id)) (lookup j (bolt.entries db))
    unfolding delete_key
    Mirrors-delete id h j =
        let p : bolt.remove id s.db ≡ some db = ground arith in
        rw (lookup-delete id j s.by_id, bolt.entries-remove id j p)
          (elim (Bool-cases (equal id j)) [ inl e ↦ rw e refl | inr e ↦ rw e (before j) ])

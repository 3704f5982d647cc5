-- ===== src/Invalidation/Store/Restart.antt =====
-- `Create`, `Get` and a restart: what is stored is found again, under its distribution only, and a
-- store opened on the same bucket serves the same records.
use cf_local.Prelude.{
  ℕ, ◌≡◌, refl, sym, ◌∙◌, ◌≢◌, ◌↔◌, inl, inr, true, Option, none, some, [], ◌∷◌, arith,
  Option-cases, Bytes, equal, equal_iff, equal_refl, Dict, lookup, insert, lookup-insert,
  lookup-insert_self, lookup-insert_ne, ok, Distinct, Distinct-insert,
}
use cf_local.Storage.{Bbolt, Json, RoundTrips}
use cf_local.Invalidation.Store.{
  Batch, Record, status_in_progress, validate_status, create, get, BoltStore, load_entries,
  new_bolt_store,
}
use cf_local.Invalidation.Store.Valid.{IsValid, Created, create-Created, write-IsValid}

in_progress_known : validate_status status_in_progress ≡ true
unfolding validate_status equal
in_progress_known = refl

module _ (bolt : Bbolt) (json : Json Record) where
  create-IsValid :
      (distribution_id : Bytes) (batch : Option Batch) (minted : Option Bytes) (now : ℕ)
      (s : BoltStore bolt json) (r : Record) (t : BoltStore bolt json)
      → Created bolt json distribution_id batch minted now s r t
      → IsValid bolt json s
      → IsValid bolt json t
  create-IsValid d b m now s r t c v =
      let known : validate_status r.status ≡ true = rw c.in_progress in_progress_known in
      let t_is : record { db = t.db; by_id = insert r.id r s.by_id } ≡ t =
        ground (arith, c.mapped) in
      rw (← t_is) (write-IsValid bolt json r s t.db v known c.stored)

  -- `Get` answers for a record under its own distribution, and for nothing else.
  pub get_iff :
      (distribution_id id : Bytes) (s : BoltStore bolt json) (r : Record)
      → (get bolt json distribution_id id s ≡ ok r)
        ↔ (lookup id s.by_id ≡ some r) × (r.distribution_id ≡ distribution_id)
  unfolding get
  get_iff d id s r = (
    λ h. elim (Option-cases (lookup id s.by_id)) [
      | inl e ↦ absurd (ground arith)
      | inr (q, e) ↦ (ground arith, ground (arith, equal_iff q.distribution_id d))
    ],
    λ h. ground (arith, equal_iff r.distribution_id d),
  )

  -- After a successful `Create` on a valid store, `Get` answers with the new record under its
  -- distribution, the invariant still holds, and every other ID answers as before.
  pub get-create :
      (distribution_id : Bytes) (batch : Option Batch) (minted : Option Bytes) (now : ℕ)
      (s : BoltStore bolt json) (r : Record) (t : BoltStore bolt json)
      → IsValid bolt json s
      → create bolt json distribution_id batch minted now s ≡ ok (r, t)
      → IsValid bolt json t
        × (get bolt json distribution_id r.id t ≡ ok r)
        × (r.status ≡ status_in_progress)
        × ((d j : Bytes) → j ≢ r.id → get bolt json d j t ≡ get bolt json d j s)
  get-create d b m now s r t v h =
      let c = create-Created bolt json d b m now s r t h in
      (
        create-IsValid d b m now s r t c v,
        (get_iff d r.id t r).1 (rw c.mapped (lookup-insert_self r.id r s.by_id), c.of_distribution),
        c.in_progress,
        λ d' j ne.
            unfold get in
            ground (arith, c.mapped, lookup-insert_ne r.id j r s.by_id (λ e. ne (sym e))),
      )

  -- Every entry decodes to a record whose ID is its key.
  abbrev Decodes : Dict Bytes → Type 0
  Decodes es =
      (k v : Bytes) → lookup k es ≡ some v → (r : Record) × (json.unmarshal v ≡ some r) × (r.id ≡ k)

  Decodes-tail :
      (k v : Bytes) (es : Dict Bytes) → Distinct ((k, v) ∷ es) → Decodes ((k, v) ∷ es) → Decodes es
  Decodes-tail k v es d dec j w h = dec j w (unfold lookup in ground (arith, equal_iff k j, d.0))

  abbrev loaded : Option Bytes → Option Record → Option Record
  loaded none old = old
  loaded (some v) old = json.unmarshal v

  load_entries-lookup :
      (es : Dict Bytes) (m : Dict Record)
      → Distinct es
      → Decodes es
      → Distinct m
      → (n : Dict Record) × (load_entries bolt json es m ≡ ok n)
        × ((j : Bytes) → lookup j n ≡ loaded (lookup j es) (lookup j m))
        × Distinct n
  unfolding load_entries lookup
  load_entries-lookup [] m d dec dm = (m, refl, λ j. refl, dm)
  load_entries-lookup ((k, v) ∷ es) m d dec dm =
      let (r, u, at_key) = dec k v (ground (arith, equal_refl k)) in
      let (n, ran, looks, dn) =
        load_entries-lookup es (insert r.id r m) d.1 (Decodes-tail k v es d dec)
          (Distinct-insert r.id r m dm) in
      (
        n,
        ground arith,
        λ j. looks j ∙ ground (arith, lookup-insert r.id j r m, equal_iff k j, d.0),
        dn,
      )

  stored-decodes :
      (s : BoltStore bolt json) (k v : Bytes)
      → IsValid bolt json s
      → ((id : Bytes) (r : Record) → lookup id s.by_id ≡ some r → RoundTrips json r)
      → lookup k (bolt.entries s.db) ≡ some v
      → (r : Record) × (json.unmarshal v ≡ some r) × (r.id ≡ k) × (lookup k s.by_id ≡ some r)
  stored-decodes s k v val trips h = elim (Option-cases (lookup k s.by_id)) [
    | inl e ↦ let gone = rw e at (val.mirrored k) in absurd (ground arith)
    | inr (r, e) ↦
        let (b, m, stored) = rw e at (val.mirrored k) in
        let same : b ≡ v = ground arith in
        (r, rw same at (trips k r e b m), (val.good k r e).keyed, e)
  ]

  loaded-stored :
      (s : BoltStore bolt json) (j : Bytes)
      → IsValid bolt json s
      → ((id : Bytes) (r : Record) → lookup id s.by_id ≡ some r → RoundTrips json r)
      → loaded (lookup j (bolt.entries s.db)) none ≡ lookup j s.by_id
  loaded-stored s j val trips = elim (Option-cases (lookup j s.by_id)) [
    | inl e ↦ let gone = rw e at (val.mirrored j) in ground arith
    | inr (r, e) ↦
        let (b, m, stored) = rw e at (val.mirrored j) in let back = trips j r e b m in ground arith
  ]

  -- The records of the store come back from their codings.
  abbrev pub AllRoundTrip : BoltStore bolt json → Type 0
  AllRoundTrip s = (id : Bytes) (r : Record) → lookup id s.by_id ≡ some r → RoundTrips json r

  -- On the bucket of a valid store whose records come back from their codings, and on which the
  -- bucket is created, a store opens without error, is valid, and holds the same record, or none,
  -- at every ID.
  pub new_bolt_store-restart :
      (s : BoltStore bolt json) (db : bolt.Db)
      → IsValid bolt json s
      → AllRoundTrip s
      → bolt.create_bucket s.db ≡ some db
      → (t : BoltStore bolt json) × (new_bolt_store bolt json s.db ≡ ok t)
        × ((id : Bytes) → lookup id t.by_id ≡ lookup id s.by_id)
        × IsValid bolt json t
  unfolding new_bolt_store
  new_bolt_store-restart s db v trips made =
      let same_entries : (k : Bytes) → lookup k (bolt.entries db) ≡ lookup k (bolt.entries s.db) =
        λ k. bolt.entries-create_bucket k made in
      let (n, ran, looks, dn) =
        load_entries-lookup (bolt.entries db) [] (bolt.entries-Distinct db)
          (λ k w h.
            let (r, u, at_key, found) = stored-decodes s k w v trips (sym (same_entries k) ∙ h) in
            (r, u, at_key))
          tt in
      let agree : (id : Bytes) → lookup id n ≡ lookup id s.by_id =
        λ id. looks id ∙ rw (same_entries id) (nothing_before id ∙ loaded-stored s id v trips) in
      (
        record { db = db; by_id = n },
        ground arith,
        agree,
        record {
          distinct = dn;
          good = λ id r h. v.good id r (sym (agree id) ∙ h);
          mirrored = λ id. rw (agree id, same_entries id) (v.mirrored id);
        },
      )
    where
      nothing_before :
          (id : Bytes)
          → loaded (lookup id (bolt.entries s.db)) (lookup id [])
            ≡ loaded (lookup id (bolt.entries s.db)) none
      nothing_before id = unfold lookup in refl

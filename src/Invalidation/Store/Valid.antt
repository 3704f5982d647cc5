-- ===== src/Invalidation/Store/Valid.antt =====
-- The invariant of the invalidation store: the map is keyed by the records' IDs, statuses are the
-- two documented ones, and the bucket holds exactly the codings of the records in the map.
use mathlib.Core.Path.{subst}
use cf_local.Prelude.{
  ℕ, ◌≡◌, refl, ◌≢◌, inl, inr, true, Option, none, some, [], arith, Bool-cases, Option-cases, Bytes,
  equal, equal_iff, Dict, lookup, insert, lookup-insert, ok, Distinct, Distinct-insert,
}
use cf_local.Storage.{Bbolt, Json}
use cf_local.Invalidation.Store.{
  Batch, Record, status_in_progress, validate_status, put, create, BoltStore,
}

-- The stored bytes that belong to what the map holds at one ID.
abbrev pub Mirrors : Json Record → Option Record → Option Bytes → Type 0
Mirrors json none stored = stored ≡ none
Mirrors json (some r) stored = (b : Bytes) × (json.marshal r ≡ some b) × (stored ≡ some b)

pub record IsGood (id : Bytes) (r : Record) : Type 0 where
  pub keyed : r.id ≡ id
  pub status_known : validate_status r.status ≡ true

module _ (bolt : Bbolt) (json : Json Record) where
  pub record IsValid (s : BoltStore bolt json) : Type 0 where
    pub distinct : Distinct s.by_id
    pub good : (id : Bytes) (r : Record) → lookup id s.by_id ≡ some r → IsGood id r
    pub mirrored : (id : Bytes) → Mirrors json (lookup id s.by_id) (lookup id (bolt.entries s.db))

  put_ok :
      (r : Record) (s : BoltStore bolt json) {db : bolt.Db}
      → put bolt json r s ≡ ok db
      → (b : Bytes) × (json.marshal r ≡ some b) × (bolt.put r.id b s.db ≡ some db)
  unfolding put
  put_ok r s h = elim (Option-cases (json.marshal r)) [
    | inl e ↦ absurd (ground arith)
    | inr (b, e) ↦ (b, e, ground arith)
  ]

  Mirrors-put :
      (r : Record) (s : BoltStore bolt json) (db : bolt.Db) (b : Bytes) (j : Bytes)
      → json.marshal r ≡ some b
      → bolt.put r.id b s.db ≡ some db
      → Mirrors json (lookup j s.by_id) (lookup j (bolt.entries s.db))
      → Mirrors json (lookup j (insert r.id r s.by_id)) (lookup j (bolt.entries db))
  Mirrors-put r s db b j m p before =
      let new_map = lookup-insert r.id j r s.by_id in
      let new_db = bolt.entries-put r.id j b p in
      rw (new_map, new_db)
        (elim (Bool-cases (equal r.id j)) [ inl e ↦ rw e (b, m, refl) | inr e ↦ rw e before ])

  IsGood-insert :
      (r : Record) (m : Dict Record) (id : Bytes) (q : Record)
      → validate_status r.status ≡ true
      → (lookup id m ≡ some q → IsGood id q)
      → lookup id (insert r.id r m) ≡ some q
      → IsGood id q
  IsGood-insert r m id q known old h = elim (Bool-cases (equal r.id id)) [
    | inl e ↦
        let same : r ≡ q = ground (arith, lookup-insert r.id id r m) in
        let at_id = (equal_iff r.id id).0 e in
        rw (← same) (record { keyed = at_id; status_known = known })
    | inr e ↦ old (ground (arith, lookup-insert r.id id r m))
  ]

  -- A record written through keeps the invariant.
  pub write-IsValid :
      (r : Record) (s : BoltStore bolt json) (db : bolt.Db)
      → IsValid s
      → validate_status r.status ≡ true
      → put bolt json r s ≡ ok db
      → IsValid (record { db = db; by_id = insert r.id r s.by_id })
  write-IsValid r s db v known h =
      let (b, m, p) = put_ok r s h in
      record {
        distinct = Distinct-insert r.id r s.by_id v.distinct;
        good = λ id q e. IsGood-insert r s.by_id id q known (v.good id q) e;
        mirrored = λ j. Mirrors-put r s db b j m p (v.mirrored j);
      }

  -- The same with the key written as the caller has it.
  pub write_at-IsValid :
      (id : Bytes) (r : Record) (s : BoltStore bolt json) (db : bolt.Db)
      → IsValid s
      → r.id ≡ id
      → validate_status r.status ≡ true
      → put bolt json r s ≡ ok db
      → IsValid (record { db = db; by_id = insert id r s.by_id })
  write_at-IsValid id r s db v at_id known h =
      subst (λ k. IsValid (record { db = db; by_id = insert k r s.by_id })) at_id
        (write-IsValid r s db v known h)

  -- What a successful `Create` did.
  pub record Created (distribution_id : Bytes) (batch : Option Batch) (minted : Option Bytes)
      (now : ℕ) (s : BoltStore bolt json) (r : Record) (t : BoltStore bolt json) : Type 0 where
    pub named : distribution_id ≢ []
    pub id_minted : minted ≡ some r.id
    pub of_distribution : r.distribution_id ≡ distribution_id
    pub in_progress : r.status ≡ status_in_progress
    pub at_time : r.create_time ≡ now
    pub with_batch : r.batch ≡ batch
    pub batch_given : batch ≢ none
    pub stored : put bolt json r s ≡ ok t.db
    pub mapped : t.by_id ≡ insert r.id r s.by_id

  module _ (distribution_id : Bytes) (batch : Option Batch) (minted : Option Bytes) (now : ℕ)
      (s : BoltStore bolt json) (r : Record) (t : BoltStore bolt json) where
    pub create-Created :
        create bolt json distribution_id batch minted now s ≡ ok (r, t)
        → Created distribution_id batch minted now s r t
    unfolding create
    create-Created h = record {
      named = λ e. ground (arith, equal_iff distribution_id []);
      id_minted = ground arith;
      of_distribution = ground arith;
      in_progress = ground arith;
      at_time = ground arith;
      with_batch = ground arith;
      batch_given = ground arith;
      stored = ground arith;
      mapped = ground arith;
    }

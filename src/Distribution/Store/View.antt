-- ===== src/Distribution/Store/View.antt =====
-- The registry that a state of bolt.go's `BoltStore` stands for, and what the writes do to it.
use mathlib.Core.Path.{fun_ext, ap₂}
use cf_local.Prelude.Sort.{In, In-cases, Nodup, not-In-nil}
use cf_local.Prelude.{
  ◌+◌, ◌≡◌, refl, ap, ◌∙◌, inl, inr, Bool, true, false, Option, none, some, List, [], ◌∷◌, arith,
  if◌then◌else◌, Bool-cases, All2, here, there, Distinct, values, Bytes, equal, equal_iff,
  equal_refl, Dict, lookup, delete, insert, lookup-delete, lookup-insert,
}
use cf_local.Storage.{Bbolt, Json}
use cf_local.Distribution.{DistributionConfig}
use cf_local.Distribution.Store.{Record, caller_of, release_caller, BoltStore, fire}
use cf_local.Distribution.Store.Registry.{Registry, hold, withdraw, reserve, release, notify}

-- Whether the map has the key.
abbrev pub has : Bytes → Dict Bytes → Bool
has k m = elim (lookup k m) [ none ↦ false | some i ↦ true ]

has-insert :
    (k j i : Bytes) (m : Dict Bytes) → has j (insert k i m) ≡ (if equal k j then true else has j m)
has-insert k j i m = ground (arith, lookup-insert k j i m)

has-delete :
    (k j : Bytes) (m : Dict Bytes) → has j (delete k m) ≡ (if equal k j then false else has j m)
has-delete k j m = ground (arith, lookup-delete k j m)

module _ (bolt : Bbolt) (json : Json Record) (etag_gen : DistributionConfig → Bytes) where
  -- The registry that a store stands for.
  abbrev pub view : BoltStore bolt json etag_gen → Registry
  view s = record {
    records = λ id. lookup id s.by_id;
    reserved = λ caller. has caller s.by_caller;
    stored = λ id. lookup id (bolt.entries s.db);
    listening = s.on_change;
    notified = s.fired;
  }

  pub view-fire :
      (s : BoltStore bolt json etag_gen) → view (fire bolt json etag_gen s) ≡ notify (view s)
  unfolding fire
  view-fire s =
      elim s.on_change
        as (λ b.
          view (if b then record s { fired = s.fired + 1 } else s)
          ≡ record (view s) { notified = if b then s.fired + 1 else s.fired }) [
            | true ↦ refl
            | false ↦ refl
          ]

  module _ (s : BoltStore bolt json etag_gen) where
    abbrev built : (Bytes → Option Record) → (Bytes → Bool) → (Bytes → Option Bytes) → Registry
    built f k b = record {
      records = f;
      reserved = k;
      stored = b;
      listening = s.on_change;
      notified = s.fired;
    }

    pub view-create :
        (id caller b : Bytes) (r : Record) (db : bolt.Db)
        → bolt.put id b s.db ≡ some db
        → view (record s {
          db = db;
          by_id = insert id r s.by_id;
          by_caller = insert caller id s.by_caller;
        })
          ≡ reserve caller (hold id r b (view s))
    view-create id caller b r db p =
        ap₂ (λ f k. built f k (λ j. lookup j (bolt.entries db)))
          (fun_ext (λ j. lookup-insert id j r s.by_id))
          (fun_ext (λ k. has-insert caller k id s.by_caller))
        ∙ ap (built _ _) (fun_ext (λ j. bolt.entries-put id j b p))

    pub view-update :
        (id b : Bytes) (r : Record) (db : bolt.Db)
        → bolt.put id b s.db ≡ some db
        → view (record s { db = db; by_id = insert id r s.by_id }) ≡ hold id r b (view s)
    view-update id b r db p =
        ap₂ (λ f c. built f (λ caller. has caller s.by_caller) c)
          (fun_ext (λ j. lookup-insert id j r s.by_id)) (fun_ext (λ j. bolt.entries-put id j b p))

    pub view-remove :
        (id : Bytes) (r : Record) (db : bolt.Db)
        → bolt.remove id s.db ≡ some db
        → view (record s {
          db = db;
          by_id = delete id s.by_id;
          by_caller = release_caller r s.by_caller;
        })
          ≡ release (caller_of r) (withdraw id (view s))
    unfolding release_caller
    view-remove id r db p =
        let gone =
          ap₂ (λ f c. built f (λ caller. has caller s.by_caller) c)
            (fun_ext (λ j. lookup-delete id j s.by_id))
            (fun_ext (λ j. bolt.entries-remove id j p)) in
        elim (caller_of r)
          as (λ o.
            view (record s {
              db = db;
              by_id = delete id s.by_id;
              by_caller = elim o [ none ↦ s.by_caller | some caller ↦ delete caller s.by_caller ];
            })
            ≡ release o (withdraw id (view s))) [
              | none ↦ gone
              | some caller ↦
                  ap
                    (λ k.
                      built (λ j. lookup j (delete id s.by_id)) k (λ j. lookup j (bolt.entries db)))
                    (fun_ext (λ j. has-delete caller j s.by_caller))
                  ∙ ap (λ (g : Registry). release (some caller) g) gone
            ]

    -- The callback changes no record.
    pub fire-by_id : (fire bolt json etag_gen s).by_id ≡ s.by_id
    unfolding fire
    fire-by_id =
        elim s.on_change
          as (λ b. (if b then record s { fired = s.fired + 1 } else s).by_id ≡ s.by_id) [
            | true ↦ refl
            | false ↦ refl
          ]

-- The keys of a map, in the order of its values.
abbrev pub ids {ℓ} : {V : Type ℓ} → Dict V → List Bytes
ids [] = []
ids ((k, v) ∷ m) = k ∷ ids m

In-keys : (k : Bytes) (r : Record) (m : Dict Record) → lookup k m ≡ some r → In k (ids m)
unfolding lookup
In-keys k r [] h = cc
In-keys k r ((j, q) ∷ m) h = elim (Bool-cases (equal j k)) [
  | inl e ↦ here ((equal_iff j k).0 e)
  | inr e ↦ there (In-keys k r m (ground arith))
]

not-In-keys : (k : Bytes) (m : Dict Record) → lookup k m ≡ none → ¬ In k (ids m)
unfolding lookup
not-In-keys k [] h i = not-In-nil i
not-In-keys k ((j, q) ∷ m) h i = elim (In-cases i) [
  | inl e ↦ absurd (ground (arith, equal_iff j k))
  | inr r ↦ elim (Bool-cases (equal j k)) [
    | inl e ↦ absurd (ground arith)
    | inr e ↦ not-In-keys k m (ground arith) r
  ]
]

lookup-head : (k : Bytes) (v : Record) (m : Dict Record) → lookup k ((k, v) ∷ m) ≡ some v
unfolding lookup
lookup-head k v m = ground (arith, equal_refl k)

lookup-tail :
    (k j : Bytes) (v r : Record) (m : Dict Record)
    → lookup k m ≡ none
    → lookup j m ≡ some r
    → lookup j ((k, v) ∷ m) ≡ some r
unfolding lookup
lookup-tail k j v r m n h = elim (Bool-cases (equal k j)) [
  | inl e ↦ absurd (ground (arith, equal_iff k j))
  | inr e ↦ ground arith
]

-- The values of a map with distinct keys are what its keys are mapped to, each key once.
pub ids-values :
    (m : Dict Record)
    → Distinct m
    → Nodup (ids m)
      × All2 (λ id r. lookup id m ≡ some r) (ids m) (values m)
      × ((id : Bytes) (r : Record) → lookup id m ≡ some r → In id (ids m))
ids-values m d = (nodup m d, at m m d (λ id r h. h), λ id r h. In-keys id r m h)
  where
    nodup : (m : Dict Record) → Distinct m → Nodup (ids m)
    nodup [] d = tt
    nodup ((k, v) ∷ m) d = (not-In-keys k m d.0, nodup m d.1)

    at :
        (all m : Dict Record)
        → Distinct m
        → ((id : Bytes) (r : Record) → lookup id m ≡ some r → lookup id all ≡ some r)
        → All2 (λ id r. lookup id all ≡ some r) (ids m) (values m)
    at all [] d sub = tt
    at all ((k, v) ∷ m) d sub = (
      sub k v (lookup-head k v m),
      at all m d.1 (λ id r h. sub id r (lookup-tail k id v r m d.0 h)),
    )

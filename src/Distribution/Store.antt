-- ===== src/Distribution/Store.antt =====
-- internal/api/distribution/store.go (record and errors) and bolt.go (`BoltStore`): distributions
-- by ID, and the index of caller references by which Create refuses a repeated request, written
-- through to a bbolt bucket. The mutex makes each method one step. `etag_gen` and `idGen` are
-- parameters: a hash of the coded configuration, and random bytes. `fired` counts the calls of the
-- callback `onChange`.
pub mod Registry
pub mod View
pub mod Refines
use cf_local.Prelude.{
  ℕ, ◌+◌, Bool, true, false, Option, none, some, List, [], ◌∷◌, if◌then◌else◌, Bytes, Dict, lookup,
  delete, insert, Result, ok, err, ◌>>=◌, values,
}
use cf_local.Storage.{Bbolt, Json}
use cf_local.Distribution.{DistributionConfig}

-- `Record`, and `boltRecord` with the same fields.
pub record Record : Type 0 where
  pub id : Bytes
  pub etag : Bytes
  pub config : Option DistributionConfig
  pub last_modified_time : ℕ

pub data StoreError : Type 0 where
  not_found already_exists missing_caller_reference missing_config mint_failed : StoreError
  marshal_failed unmarshal_failed transaction_failed bucket_failed : StoreError

abbrev pub of_option {ℓ} : {A : Type ℓ} → StoreError → Option A → Result StoreError A
of_option e none = err e
of_option e (some a) = ok a

-- The caller reference of a record, where its configuration has one.
unfoldable pub caller_of : Record → Option Bytes
caller_of r = elim r.config [ none ↦ none | some c ↦ c.caller_reference ]

-- `byCaller[*rec.Config.CallerReference] = rec.ID`, where there is a caller reference.
unfoldable pub index_caller : Record → Dict Bytes → Dict Bytes
index_caller r by_caller = elim (caller_of r) [
  | none ↦ by_caller
  | some caller ↦ insert caller r.id by_caller
]

-- `delete(s.byCaller, *rec.Config.CallerReference)`, where there is a caller reference.
unfoldable pub release_caller : Record → Dict Bytes → Dict Bytes
release_caller r by_caller = elim (caller_of r) [
  | none ↦ by_caller
  | some caller ↦ delete caller by_caller
]

-- The record that `Create` and `Update` build.
abbrev pub new_record : (DistributionConfig → Bytes) → Bytes → DistributionConfig → ℕ → Record
new_record etag_gen id c now = record {
  id = id;
  etag = etag_gen c;
  config = some c;
  last_modified_time = now;
}

module _ (bolt : Bbolt) (json : Json Record) (etag_gen : DistributionConfig → Bytes) where
  pub record BoltStore : Type 0 where
    pub db : bolt.Db
    pub by_id : Dict Record
    pub by_caller : Dict Bytes
    pub on_change : Bool
    pub fired : ℕ

  -- What an operation answers, and the store behind it.
  abbrev pub Answer : Type 0 → Type 0
  Answer A = Result StoreError A × BoltStore

  unfoldable pub set_on_change : BoltStore → BoltStore
  set_on_change s = record s { on_change = true }

  -- `if s.onChange != nil { s.onChange() }`
  unfoldable pub fire : BoltStore → BoltStore
  fire s = if s.on_change then record s { fired = s.fired + 1 } else s

  -- The loop of `load` over the bucket, on both maps.
  unfoldable pub load_entries :
      Dict Bytes → Dict Record → Dict Bytes → Result StoreError (Dict Record × Dict Bytes)
  load_entries [] by_id by_caller = ok (by_id, by_caller)
  load_entries ((k, v) ∷ rest) by_id by_caller = elim (json.unmarshal v) [
    | none ↦ err unmarshal_failed
    | some r ↦ load_entries rest (insert r.id r by_id) (index_caller r by_caller)
  ]

  unfoldable pub new_bolt_store : bolt.Db → Result StoreError BoltStore
  new_bolt_store db = do
    db' ← of_option bucket_failed (bolt.create_bucket db)
    m ← load_entries (bolt.entries db') [] []
    ok (record { db = db'; by_id = m.0; by_caller = m.1; on_change = false; fired = 0 })

  unfoldable pub put : Record → BoltStore → Result StoreError bolt.Db
  put r s = do
    buf ← of_option marshal_failed (json.marshal r)
    of_option transaction_failed (bolt.put r.id buf s.db)

  unfoldable pub delete_key : Bytes → BoltStore → Result StoreError bolt.Db
  delete_key id s = of_option transaction_failed (bolt.remove id s.db)

  unfoldable pub insert_new : DistributionConfig → Bytes → Bytes → ℕ → BoltStore → Answer Record
  insert_new c caller id now s =
      let r = new_record etag_gen id c now in
      elim (put r s) [
        | err e ↦ (err e, s)
        | ok db ↦ (
          ok r,
          fire (record s {
            db = db;
            by_id = insert id r s.by_id;
            by_caller = insert caller id s.by_caller;
          }),
        )
      ]

  unfoldable pub create_for :
      DistributionConfig → Bytes → Option Bytes → ℕ → BoltStore → Answer Record
  create_for c caller minted now s = elim (lookup caller s.by_caller) [
    | some other ↦ (err already_exists, s)
    | none ↦ elim minted [ none ↦ (err mint_failed, s) | some id ↦ insert_new c caller id now s ]
  ]

  -- `minted` is what `idGen` returns, `now` what `nowFn` does.
  unfoldable pub create : Option DistributionConfig → Option Bytes → ℕ → BoltStore → Answer Record
  create none minted now s = (err missing_caller_reference, s)
  create (some c) minted now s = elim c.caller_reference [
    | none ↦ (err missing_caller_reference, s)
    | some caller ↦ create_for c caller minted now s
  ]

  unfoldable pub get : Bytes → BoltStore → Result StoreError Record
  get id s = of_option not_found (lookup id s.by_id)

  -- The write of an update: the index of caller references stays as it is.
  unfoldable pub replace : Bytes → DistributionConfig → ℕ → BoltStore → Answer Record
  replace id c now s =
      let q = new_record etag_gen id c now in
      elim (put q s) [
        | err e ↦ (err e, s)
        | ok db ↦ (ok q, fire (record s { db = db; by_id = insert id q s.by_id }))
      ]

  -- `if_match` is accepted and not compared.
  unfoldable pub update : Bytes → Option DistributionConfig → Bytes → ℕ → BoltStore → Answer Record
  update id none if_match now s = (err missing_config, s)
  update id (some c) if_match now s = elim (lookup id s.by_id) [
    | none ↦ (err not_found, s)
    | some r ↦ replace id c now s
  ]

  unfoldable pub remove_record : Bytes → Record → BoltStore → Answer Unit
  remove_record id r s = elim (delete_key id s) [
    | err e ↦ (err e, s)
    | ok db ↦ (
      ok tt,
      fire (record s {
        db = db;
        by_id = delete id s.by_id;
        by_caller = release_caller r s.by_caller;
      }),
    )
  ]

  unfoldable pub remove : Bytes → Bytes → BoltStore → Answer Unit
  remove id if_match s = elim (lookup id s.by_id) [
    | none ↦ (err not_found, s)
    | some r ↦ remove_record id r s
  ]

  unfoldable pub list : BoltStore → List Record
  list s = values s.by_id

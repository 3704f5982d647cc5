-- ===== src/CachePolicy/Store.antt =====
-- internal/api/cachepolicy/store.go (types and errors), bolt.go and id.go (`BoltStore`): cache
-- policies by ID and by name in memory, the custom ones written through to a bbolt bucket. The
-- mutex makes each method one step. `etag_gen` and `idGen` are parameters: a hash of the coded
-- configuration, and random bytes. `fired` counts the calls of the callback `onChange`. An
-- operation gives its state back on every path, since a panic may come behind a write.
pub mod Index
pub mod Valid
pub mod Create
pub mod Update
pub mod Delete
use cf_local.Prelude.{
  ℕ, ◌+◌, Bool, true, false, not, Option, none, some, List, [], ◌∷◌, if◌then◌else◌, Bytes, codes,
  equal, Dict, lookup, delete, insert, Result, ok, err, ◌>>=◌, ◌>>◌, values,
}
use cf_local.Storage.{Bbolt, Json}
use cf_local.Validate.Policy.{CachePolicyConfig}

abbrev pub type_custom : Bytes
type_custom = codes "custom"

abbrev pub type_managed : Bytes
type_managed = codes "managed"

-- `Record`, and `boltRecord` with the same fields.
pub record Record : Type 0 where
  pub id : Bytes
  pub etag : Bytes
  pub config : Option CachePolicyConfig
  pub last_modified_time : ℕ
  pub kind : Bytes

pub data StoreError : Type 0 where
  not_found already_exists managed_immutable missing_name mint_failed : StoreError
  marshal_failed unmarshal_failed transaction_failed bucket_failed panicked : StoreError

abbrev pub of_option {ℓ} : {A : Type ℓ} → StoreError → Option A → Result StoreError A
of_option e none = err e
of_option e (some a) = ok a

unfoldable pub string_deref : Option Bytes → Bytes
string_deref none = []
string_deref (some n) = n

unfoldable pub is_managed : Record → Bool
is_managed r = equal r.kind type_managed

-- `existingID, dup := s.byName[name]; dup && existingID != id`
unfoldable pub is_taken : Bytes → Bytes → Dict Bytes → Bool
is_taken n id by_name = elim (lookup n by_name) [ none ↦ false | some j ↦ not (equal j id) ]

-- The index behind an update that may rename.
unfoldable pub rename : Bytes → Bytes → Bytes → Dict Bytes → Dict Bytes
rename old n id by_name = if not (equal old n) then insert n id (delete old by_name) else by_name

-- The default of a record that was stored without a type.
unfoldable pub with_kind : Record → Record
with_kind r = if equal r.kind [] then record r { kind = type_custom } else r

-- `byName[*rec.Config.Name] = rec.ID`, where there is a name.
unfoldable pub index_name : Record → Dict Bytes → Dict Bytes
index_name r by_name = elim r.config [
  | none ↦ by_name
  | some c ↦ elim c.name [ none ↦ by_name | some n ↦ insert n r.id by_name ]
]

module _ (bolt : Bbolt) (json : Json Record) (etag_gen : CachePolicyConfig → Bytes) where
  pub record BoltStore : Type 0 where
    pub db : bolt.Db
    pub by_id : Dict Record
    pub by_name : Dict Bytes
    pub on_change : Bool
    pub fired : ℕ

  -- What an operation answers, and the store behind it.
  abbrev pub Answer : Type 0 → Type 0
  Answer A = Result StoreError A × BoltStore

  -- `if s.onChange != nil { s.onChange() }`
  unfoldable pub fire : BoltStore → BoltStore
  fire s = if s.on_change then record s { fired = s.fired + 1 } else s

  -- The loop of `load` over the bucket, on both maps.
  unfoldable pub load_entries :
      Dict Bytes → Dict Record → Dict Bytes → Result StoreError (Dict Record × Dict Bytes)
  load_entries [] by_id by_name = ok (by_id, by_name)
  load_entries ((k, v) ∷ rest) by_id by_name = elim (json.unmarshal v) [
    | none ↦ err unmarshal_failed
    | some br ↦
        let r = with_kind br in load_entries rest (insert r.id r by_id) (index_name r by_name)
  ]

  unfoldable pub new_bolt_store : bolt.Db → Result StoreError BoltStore
  new_bolt_store db = do
    db' ← of_option bucket_failed (bolt.create_bucket db)
    m ← load_entries (bolt.entries db') [] []
    ok (record { db = db'; by_id = m.0; by_name = m.1; on_change = false; fired = 0 })

  unfoldable pub set_on_change : BoltStore → BoltStore
  set_on_change s = record s { on_change = true }

  -- The loop of `SeedManaged` over the managed policies.
  unfoldable pub seed_records : List Record → BoltStore → BoltStore
  seed_records [] s = s
  seed_records (r ∷ rest) s =
      seed_records rest
        (record s { by_id = insert r.id r s.by_id; by_name = index_name r s.by_name })

  unfoldable pub put : Record → BoltStore → Result StoreError bolt.Db
  put r s = do
    buf ← of_option marshal_failed (json.marshal r)
    of_option transaction_failed (bolt.put r.id buf s.db)

  unfoldable pub delete_key : Bytes → BoltStore → Result StoreError bolt.Db
  delete_key id s = of_option transaction_failed (bolt.remove id s.db)

  -- The record that `Create` and `Update` build.
  abbrev pub new_record : Bytes → CachePolicyConfig → ℕ → Bytes → Record
  new_record id c now kind = record {
    id = id;
    etag = etag_gen c;
    config = some c;
    last_modified_time = now;
    kind = kind;
  }

  unfoldable pub insert_new : CachePolicyConfig → Bytes → Bytes → ℕ → BoltStore → Answer Record
  insert_new c n id now s =
      let r = new_record id c now type_custom in
      elim (put r s) [
        | err e ↦ (err e, s)
        | ok db ↦ (
          ok r,
          fire (record s { db = db; by_id = insert id r s.by_id; by_name = insert n id s.by_name }),
        )
      ]

  unfoldable pub create_named :
      CachePolicyConfig → Bytes → Option Bytes → ℕ → BoltStore → Answer Record
  create_named c n minted now s = elim (lookup n s.by_name) [
    | some other ↦ (err already_exists, s)
    | none ↦ elim minted [ none ↦ (err mint_failed, s) | some id ↦ insert_new c n id now s ]
  ]

  -- `minted` is what `idGen` returns, `now` what `nowFn` does.
  unfoldable pub create : Option CachePolicyConfig → Option Bytes → ℕ → BoltStore → Answer Record
  create none minted now s = (err missing_name, s)
  create (some c) minted now s = elim c.name [
    | none ↦ (err missing_name, s)
    | some n ↦ create_named c n minted now s
  ]

  unfoldable pub get : Bytes → BoltStore → Result StoreError Record
  get id s = of_option not_found (lookup id s.by_id)

  -- The write of an update. A record without a configuration makes `rec.Config.Name` panic.
  unfoldable pub replace :
      Bytes → CachePolicyConfig → Bytes → Record → ℕ → BoltStore → Answer Record
  replace id c n r now s =
      let q = new_record id c now r.kind in
      elim (put q s) [
        | err e ↦ (err e, s)
        | ok db ↦ elim r.config [
          | none ↦ (err panicked, record s { db = db })
          | some old ↦ (
            ok q,
            fire (record s {
              db = db;
              by_id = insert id q s.by_id;
              by_name = rename (string_deref old.name) n id s.by_name;
            }),
          )
        ]
      ]

  unfoldable pub update_named : Bytes → CachePolicyConfig → Bytes → ℕ → BoltStore → Answer Record
  update_named id c n now s = elim (lookup id s.by_id) [
    | none ↦ (err not_found, s)
    | some r ↦
        if is_managed r
        then (err managed_immutable, s)
        else if is_taken n id s.by_name
        then (err already_exists, s)
        else replace id c n r now s
  ]

  -- `if_match` is accepted and not compared.
  unfoldable pub update : Bytes → Option CachePolicyConfig → Bytes → ℕ → BoltStore → Answer Record
  update id none if_match now s = (err missing_name, s)
  update id (some c) if_match now s = elim c.name [
    | none ↦ (err missing_name, s)
    | some n ↦ update_named id c n now s
  ]

  unfoldable pub remove_record : Bytes → Record → BoltStore → Answer Unit
  remove_record id r s = elim (delete_key id s) [
    | err e ↦ (err e, s)
    | ok db ↦ elim r.config [
      | none ↦ (err panicked, record s { db = db; by_id = delete id s.by_id })
      | some old ↦ (
        ok tt,
        fire (record s {
          db = db;
          by_id = delete id s.by_id;
          by_name = delete (string_deref old.name) s.by_name;
        }),
      )
    ]
  ]

  unfoldable pub remove : Bytes → Bytes → BoltStore → Answer Unit
  remove id if_match s = elim (lookup id s.by_id) [
    | none ↦ (err not_found, s)
    | some r ↦ if is_managed r then (err managed_immutable, s) else remove_record id r s
  ]

  unfoldable pub list : BoltStore → List Record
  list s = values s.by_id

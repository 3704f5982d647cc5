-- ===== src/Invalidation/Store.antt =====
-- internal/api/invalidation/store.go and bolt.go: invalidation records, written through to a bbolt
-- bucket and served from a map. The mutex makes each method one step. A `time.Time` is its instant
-- in nanoseconds.
pub mod Valid
pub mod Status
pub mod Recover
pub mod Restart
pub mod Listing
use cf_local.Prelude.{
  ℕ, Bool, true, false, not, ◌||◌, Option, none, some, List, [], ◌∷◌, ltb, ◌==◌, if◌then◌else◌,
  length, keep, Bytes, codes, equal, less, Dict, lookup, insert, Result, ok, err, ◌>>=◌, ◌>>◌,
  refuse_if, values,
}
use cf_local.Prelude.Sort.{sort_stable}
use cf_local.Storage.{Bbolt, Json}

-- types.Paths and types.InvalidationBatch of the SDK; `quantity` is the bit pattern of an int32.
pub record Paths : Type 0 where
  pub quantity : Option ℕ
  pub items : List Bytes

pub record Batch : Type 0 where
  pub caller_reference : Option Bytes
  pub paths : Option Paths

abbrev pub status_in_progress : Bytes
status_in_progress = codes "InProgress"

abbrev pub status_completed : Bytes
status_completed = codes "Completed"

-- `Record`, and `boltRecord` with the same fields.
pub record Record : Type 0 where
  pub id : Bytes
  pub distribution_id : Bytes
  pub status : Bytes
  pub create_time : ℕ
  pub batch : Option Batch

pub data StoreError : Type 0 where
  not_found invalid_status no_distribution no_batch mint_failed : StoreError
  marshal_failed unmarshal_failed transaction_failed bucket_failed : StoreError

abbrev of_option {ℓ} : {A : Type ℓ} → StoreError → Option A → Result StoreError A
of_option e none = err e
of_option e (some a) = ok a

unfoldable pub validate_status : Bytes → Bool
validate_status s = equal s status_in_progress || equal s status_completed

-- The order of `List`: newest first, then by ID.
unfoldable pub record_less : Record → Record → Bool
record_less a b =
    if not (a.create_time == b.create_time) then ltb b.create_time a.create_time else less a.id b.id

unfoldable pub of_distribution : Bytes → List Record → List Record
of_distribution distribution_id = keep (λ r. equal r.distribution_id distribution_id)

unfoldable pub in_progress_ids : Dict Record → List Bytes
in_progress_ids [] = []
in_progress_ids ((id, r) ∷ m) = elim (equal r.status status_in_progress) [
  | true ↦ id ∷ in_progress_ids m
  | false ↦ in_progress_ids m
]

module _ (bolt : Bbolt) (json : Json Record) where
  pub record BoltStore : Type 0 where
    pub db : bolt.Db
    pub by_id : Dict Record

  -- The loop of `load` over the bucket.
  unfoldable pub load_entries : Dict Bytes → Dict Record → Result StoreError (Dict Record)
  load_entries [] m = ok m
  load_entries ((k, v) ∷ rest) m = elim (json.unmarshal v) [
    | none ↦ err unmarshal_failed
    | some r ↦ load_entries rest (insert r.id r m)
  ]

  unfoldable pub new_bolt_store : bolt.Db → Result StoreError BoltStore
  new_bolt_store db = do
    db' ← of_option bucket_failed (bolt.create_bucket db)
    m ← load_entries (bolt.entries db') []
    ok (record { db = db'; by_id = m })

  unfoldable pub put : Record → BoltStore → Result StoreError bolt.Db
  put r s = do
    buf ← of_option marshal_failed (json.marshal r)
    of_option transaction_failed (bolt.put r.id buf s.db)

  -- `minted` is what `idGen` returns, `now` what `nowFn` does.
  unfoldable pub create :
      Bytes → Option Batch → Option Bytes → ℕ → BoltStore → Result StoreError (Record × BoltStore)
  create distribution_id batch minted now s = do
    refuse_if (equal distribution_id []) no_distribution
    b ← of_option no_batch batch
    id ← of_option mint_failed minted
    let r : Record = record {
      id = id;
      distribution_id = distribution_id;
      status = status_in_progress;
      create_time = now;
      batch = some b;
    }
    db' ← put r s
    ok (r, record { db = db'; by_id = insert id r s.by_id })

  unfoldable pub get : Bytes → Bytes → BoltStore → Result StoreError Record
  get distribution_id id s = do
    r ← of_option not_found (lookup id s.by_id)
    refuse_if (not (equal r.distribution_id distribution_id)) not_found
    ok r

  -- The write of a changed status.
  unfoldable pub write_status :
      Bytes → Bytes → Record → BoltStore → Result StoreError (Record × BoltStore)
  write_status id status r s = do
    let updated : Record = record r { status = status }
    db' ← put updated s
    ok (updated, record { db = db'; by_id = insert id updated s.by_id })

  unfoldable pub update_status : Bytes → Bytes → BoltStore → Result StoreError (Record × BoltStore)
  update_status id status s = do
    refuse_if (not (validate_status status)) invalid_status
    r ← of_option not_found (lookup id s.by_id)
    if equal r.status status then ok (r, s) else write_status id status r s

  -- The second loop of `RecoverInProgress`, which stops at the first error and keeps what it wrote.
  unfoldable pub recover_ids : List Bytes → BoltStore → Option StoreError × BoltStore
  recover_ids [] s = (none, s)
  recover_ids (id ∷ rest) s = elim (update_status id status_completed s) [
    | err e ↦ (some e, s)
    | ok (r, s') ↦ recover_ids rest s'
  ]

  unfoldable pub recover_in_progress : BoltStore → Result StoreError ℕ × BoltStore
  recover_in_progress s =
      let ids = in_progress_ids s.by_id in
      let (e, s') = recover_ids ids s in (elim e [ none ↦ ok (length ids) | some x ↦ err x ], s')

  unfoldable pub list : Bytes → BoltStore → List Record
  list distribution_id s =
      sort_stable record_less (of_distribution distribution_id (values s.by_id))

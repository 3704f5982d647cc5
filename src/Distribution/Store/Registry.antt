-- ===== src/Distribution/Store/Registry.antt =====
-- What the distribution store promises, without its maps and their order: which record each ID has,
-- what is stored of it, which caller references are taken, and how often the listener was told.
use cf_local.Prelude.{
  ℕ, ◌+◌, ◌≡◌, Bool, true, false, Option, none, some, List, if◌then◌else◌, Bytes, equal, Result, ok,
  err, All2,
}
use cf_local.Prelude.Sort.{In, Nodup}
use cf_local.Distribution.{DistributionConfig}
use cf_local.Distribution.Store.{
  Record, StoreError, not_found, already_exists, missing_caller_reference, missing_config,
  mint_failed, marshal_failed, transaction_failed, caller_of,
}

pub record Registry : Type 0 where
  pub records : Bytes → Option Record
  pub reserved : Bytes → Bool
  -- What a restart would read.
  pub stored : Bytes → Option Bytes
  pub listening : Bool
  pub notified : ℕ

-- `id` has the record `r`, which is stored as `b`.
abbrev pub hold : Bytes → Record → Bytes → Registry → Registry
hold id r b g = record g {
  records = λ j. if equal id j then some r else g.records j;
  stored = λ j. if equal id j then some b else g.stored j;
}

-- `id` has no record, and none is stored.
abbrev pub withdraw : Bytes → Registry → Registry
withdraw id g = record g {
  records = λ j. if equal id j then none else g.records j;
  stored = λ j. if equal id j then none else g.stored j;
}

-- The caller reference is taken.
abbrev pub reserve : Bytes → Registry → Registry
reserve caller g = record g { reserved = λ k. if equal caller k then true else g.reserved k }

-- The caller reference, if there is one, may be used again.
abbrev pub release : Option Bytes → Registry → Registry
release none g = g
release (some caller) g = record g {
  reserved = λ k. if equal caller k then false else g.reserved k;
}

-- The listener, if there is one, is told of a change.
abbrev pub notify : Registry → Registry
notify g = record g { notified = if g.listening then g.notified + 1 else g.notified }

-- The calls of the interface `Store`.
pub data Call : Type 0 where
  create_call : Option DistributionConfig → Option Bytes → ℕ → Call
  get_call : Bytes → Call
  update_call : Bytes → Option DistributionConfig → Bytes → ℕ → Call
  remove_call : Bytes → Bytes → Call
  list_call : Call

-- What a call answers: a record, the records of a list, or nothing.
pub data Returned : Type 0 where
  one : Record → Returned
  many : List Record → Returned
  done : Returned

abbrev pub CallResult : Type 0
CallResult = Result StoreError Returned

-- `r` is the record of a configuration that was given for `id` at `now`.
pub record IsRecordOf (etag_gen : DistributionConfig → Bytes) (id : Bytes) (c : DistributionConfig)
    (now : ℕ) (r : Record) : Type 0 where
  pub same_id : r.id ≡ id
  pub same_config : r.config ≡ some c
  pub hashed : r.etag ≡ etag_gen c
  pub modified : r.last_modified_time ≡ now

-- Why a record may not have been written: it has no coding, or the transaction did not commit.
pub data Fault (marshal : Record → Option Bytes) (r : Record) : StoreError → Type 0 where
  marshal_fault : marshal r ≡ none → Fault marshal r marshal_failed
  transaction_fault : {b : Bytes} → marshal r ≡ some b → Fault marshal r transaction_failed

-- What may follow each call: the answer, and the registry after it.
pub data Permits (etag_gen : DistributionConfig → Bytes) (marshal : Record → Option Bytes)
    (g : Registry) : Call → CallResult → Registry → Type 0 where
  created :
      {c : DistributionConfig} {caller id b : Bytes} {now : ℕ} {r : Record} {h : Registry}
      → c.caller_reference ≡ some caller
      → g.reserved caller ≡ false
      → IsRecordOf etag_gen id c now r
      → marshal r ≡ some b
      → h ≡ notify (reserve caller (hold id r b g))
      → Permits etag_gen marshal g (create_call (some c) (some id) now) (ok (one r)) h
  unconfigured_create :
      {minted : Option Bytes} {now : ℕ}
      → Permits etag_gen marshal g (create_call none minted now) (err missing_caller_reference) g
  anonymous :
      {c : DistributionConfig} {minted : Option Bytes} {now : ℕ}
      → c.caller_reference ≡ none
      → Permits etag_gen marshal g
          (create_call (some c) minted now)
          (err missing_caller_reference)
          g
  repeated :
      {c : DistributionConfig} {caller : Bytes} {minted : Option Bytes} {now : ℕ}
      → c.caller_reference ≡ some caller
      → g.reserved caller ≡ true
      → Permits etag_gen marshal g (create_call (some c) minted now) (err already_exists) g
  unminted :
      {c : DistributionConfig} {caller : Bytes} {now : ℕ}
      → c.caller_reference ≡ some caller
      → g.reserved caller ≡ false
      → Permits etag_gen marshal g (create_call (some c) none now) (err mint_failed) g
  create_fault :
      {c : DistributionConfig} {caller id : Bytes} {now : ℕ} {r : Record} {e : StoreError}
      → c.caller_reference ≡ some caller
      → g.reserved caller ≡ false
      → IsRecordOf etag_gen id c now r
      → Fault marshal r e
      → Permits etag_gen marshal g (create_call (some c) (some id) now) (err e) g
  answered :
      {id : Bytes} {r : Record}
      → g.records id ≡ some r
      → Permits etag_gen marshal g (get_call id) (ok (one r)) g
  absent_get :
      {id : Bytes}
      → g.records id ≡ none
      → Permits etag_gen marshal g (get_call id) (err not_found) g
  updated :
      {id b : Bytes} {c : DistributionConfig} {if_match : Bytes} {now : ℕ} {before r : Record}
      {h : Registry}
      → g.records id ≡ some before
      → IsRecordOf etag_gen id c now r
      → marshal r ≡ some b
      → h ≡ notify (hold id r b g)
      → Permits etag_gen marshal g (update_call id (some c) if_match now) (ok (one r)) h
  unconfigured_update :
      {id if_match : Bytes} {now : ℕ}
      → Permits etag_gen marshal g (update_call id none if_match now) (err missing_config) g
  absent_update :
      {id : Bytes} {c : DistributionConfig} {if_match : Bytes} {now : ℕ}
      → g.records id ≡ none
      → Permits etag_gen marshal g (update_call id (some c) if_match now) (err not_found) g
  update_fault :
      {id : Bytes} {c : DistributionConfig} {if_match : Bytes} {now : ℕ} {before r : Record}
      {e : StoreError}
      → g.records id ≡ some before
      → IsRecordOf etag_gen id c now r
      → Fault marshal r e
      → Permits etag_gen marshal g (update_call id (some c) if_match now) (err e) g
  removed :
      {id if_match : Bytes} {r : Record} {h : Registry}
      → g.records id ≡ some r
      → h ≡ notify (release (caller_of r) (withdraw id g))
      → Permits etag_gen marshal g (remove_call id if_match) (ok done) h
  absent_remove :
      {id if_match : Bytes}
      → g.records id ≡ none
      → Permits etag_gen marshal g (remove_call id if_match) (err not_found) g
  remove_fault :
      {id if_match : Bytes} {r : Record}
      → g.records id ≡ some r
      → Permits etag_gen marshal g (remove_call id if_match) (err transaction_failed) g
  -- Each ID that has a record, once, in any order.
  enumerated :
      {ids : List Bytes} {rs : List Record}
      → Nodup ids
      → All2 (λ id r. g.records id ≡ some r) ids rs
      → ((id : Bytes) (r : Record) → g.records id ≡ some r → In id ids)
      → Permits etag_gen marshal g list_call (ok (many rs)) g

-- ===== src/CachePolicy/Handler.antt =====
-- internal/api/cachepolicy/handler.go on `BoltStore`. `xml.Unmarshal` and `time.Format` are
-- parameters; the encoding of a response is left out.
use cf_local.Prelude.{ℕ, ◌^◌, Option, none, some, List, map, length, take, Bytes, Result, ok, err}
use cf_local.Storage.{Bbolt, Json}
use cf_local.Xml.Codes.{
  Code, Response, content, no_content, write_error, write_internal_error, invalid_argument,
  malformed_xml, no_such_cache_policy, cache_policy_already_exists, illegal_update,
}
use cf_local.Xml.CachePolicy.{CachePolicyConfigXml, config_to_sdk, config_from_sdk}
use cf_local.Validate.Policy.{CachePolicyConfig, validate_cache_policy_config}
use cf_local.CachePolicy.Store.{
  Record, StoreError, not_found, already_exists, managed_immutable, BoltStore, create, get, update,
  remove, list,
}

abbrev pub max_body_bytes : ℕ
max_body_bytes = 2 ^ 20

-- awsxml.CachePolicy
pub record CachePolicyXml : Type 0 where
  pub id : Bytes
  pub last_modified_time : Bytes
  pub cache_policy_config : Option CachePolicyConfigXml

-- A policy with the ETag header of its response.
pub record Reply : Type 0 where
  pub etag : Bytes
  pub policy : CachePolicyXml

pub record SummaryXml : Type 0 where
  pub kind : Bytes
  pub cache_policy : CachePolicyXml

pub record ListXml : Type 0 where
  pub items : List SummaryXml
  pub max_items : ℕ
  pub quantity : ℕ

-- The code of a store error in each handler; every other error is an internal error.
unfoldable pub create_error : StoreError → Response Reply
create_error already_exists = write_error cache_policy_already_exists
create_error _ = write_internal_error

unfoldable pub get_error : StoreError → Response Reply
get_error not_found = write_error no_such_cache_policy
get_error _ = write_internal_error

unfoldable pub update_error : StoreError → Response Reply
update_error not_found = write_error no_such_cache_policy
update_error already_exists = write_error cache_policy_already_exists
update_error managed_immutable = write_error illegal_update
update_error _ = write_internal_error

unfoldable pub delete_error : StoreError → Response Reply
delete_error not_found = write_error no_such_cache_policy
delete_error managed_immutable = write_error illegal_update
delete_error _ = write_internal_error

-- `body` is what io.ReadAll gives of the limited reader, or `none` for its error.
unfoldable pub decode_config :
    (Bytes → Option CachePolicyConfigXml) → Option Bytes → Result Code CachePolicyConfig
decode_config unmarshal none = err invalid_argument
decode_config unmarshal (some body) = elim (unmarshal (take max_body_bytes body)) [
  | none ↦ err malformed_xml
  | some wrapper ↦
      let cfg = config_to_sdk wrapper in
      elim (validate_cache_policy_config (some cfg)) [
        | err e ↦ err invalid_argument
        | ok u ↦ ok cfg
      ]
]

module _ (format : ℕ → Bytes) where
  unfoldable pub to_response_cache_policy : Record → CachePolicyXml
  to_response_cache_policy r = record {
    id = r.id;
    last_modified_time = format r.last_modified_time;
    cache_policy_config = elim r.config [ none ↦ none | some c ↦ some (config_from_sdk c) ];
  }

  unfoldable pub write_cache_policy_response : ℕ → Record → Response Reply
  write_cache_policy_response status r = record {
    status = status;
    body = content (record { etag = r.etag; policy = to_response_cache_policy r });
  }

  unfoldable pub to_summary : Record → SummaryXml
  to_summary r = record { kind = r.kind; cache_policy = to_response_cache_policy r }

module _ (bolt : Bbolt) (json : Json Record) (etag_gen : CachePolicyConfig → Bytes)
    (unmarshal : Bytes → Option CachePolicyConfigXml) (format : ℕ → Bytes) where
  -- The answer to a request, and the store behind it.
  abbrev pub Served : Type 0
  Served = Response Reply × BoltStore bolt json etag_gen

  -- The end of `Create` and `Update`: an error response, or the record with its status.
  abbrev pub served :
      (StoreError → Response Reply)
      → ℕ
      → Result StoreError Record × BoltStore bolt json etag_gen
      → Served
  served on_error status (err e, s) = (on_error e, s)
  served on_error status (ok r, s) = (write_cache_policy_response format status r, s)

  unfoldable pub handle_create :
      Option Bytes → Option Bytes → ℕ → BoltStore bolt json etag_gen → Served
  handle_create body minted now s = elim (decode_config unmarshal body) [
    | err c ↦ (write_error c, s)
    | ok cfg ↦ served create_error 201 (create bolt json etag_gen (some cfg) minted now s)
  ]

  unfoldable pub handle_get : Bytes → BoltStore bolt json etag_gen → Response Reply
  handle_get id s = elim (get bolt json etag_gen id s) [
    | err e ↦ get_error e
    | ok r ↦ write_cache_policy_response format 200 r
  ]

  unfoldable pub handle_update :
      Bytes → Bytes → Option Bytes → ℕ → BoltStore bolt json etag_gen → Served
  handle_update id if_match body now s = elim (decode_config unmarshal body) [
    | err c ↦ (write_error c, s)
    | ok cfg ↦ served update_error 200 (update bolt json etag_gen id (some cfg) if_match now s)
  ]

  unfoldable pub handle_delete : Bytes → Bytes → BoltStore bolt json etag_gen → Served
  handle_delete id if_match s =
      let (answer, t) = remove bolt json etag_gen id if_match s in
      (
        elim answer [ err e ↦ delete_error e | ok u ↦ record { status = 204; body = no_content } ],
        t,
      )

  unfoldable pub handle_list : BoltStore bolt json etag_gen → Response ListXml
  handle_list s =
      let items = map (to_summary format) (list bolt json etag_gen s) in
      record {
        status = 200;
        body = content (record { items = items; max_items = 100; quantity = length items });
      }

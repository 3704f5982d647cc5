-- ===== src/CachePolicy/Requests.antt =====
-- What a client sees of the handlers of cache policies.
pub mod Create
pub mod Update
pub mod Delete
use mathlib.Core.Path.{subst}
use cf_local.Prelude.{
  ℕ, ◌-◌, ◌≡◌, refl, ◌∙◌, ◌≢◌, inl, inr, Option, none, some, arith, Option-cases, take, Bytes, ok,
  Result-cases,
}
use cf_local.Storage.{Bbolt, Json}
use cf_local.Xml.Codes.{
  Code, Response, content, no_content, write_error, write_internal_error, internal_error,
  no_such_cache_policy, illegal_update, cache_policy_already_exists,
}
use cf_local.Xml.CachePolicy.{CachePolicyConfigXml, config_to_sdk, config_from_sdk}
use cf_local.Validate.Policy.{CachePolicyConfig, validate_cache_policy_config}
use cf_local.Validate.Accepts.{AdmitsCachePolicy, cache_policy_config_iff}
use cf_local.CachePolicy.Store.{
  Record, StoreError, not_found, already_exists, managed_immutable, BoltStore, new_record, create,
  get, update, remove,
}
use cf_local.CachePolicy.Store.Valid.{IsValid}
use cf_local.CachePolicy.Store.Create.{create-unchanged, get-create_policy}
use cf_local.CachePolicy.Store.Delete.{delete-unchanged, get-delete_policy}
use cf_local.CachePolicy.Handler.{
  max_body_bytes, Reply, to_response_cache_policy, decode_config, Served, served, handle_create,
  handle_get, handle_update, handle_delete, write_cache_policy_response, create_error, get_error,
  update_error, delete_error,
}

-- Each handler answers a store error with an error response.
pub create_error-code : (e : StoreError) → (c : Code) × (create_error e ≡ write_error c)
unfolding create_error write_internal_error
create_error-code already_exists = (cache_policy_already_exists, refl)
create_error-code _ = (internal_error, refl)

pub update_error-code : (e : StoreError) → (c : Code) × (update_error e ≡ write_error c)
unfolding update_error write_internal_error
update_error-code not_found = (no_such_cache_policy, refl)
update_error-code already_exists = (cache_policy_already_exists, refl)
update_error-code managed_immutable = (illegal_update, refl)
update_error-code _ = (internal_error, refl)

pub delete_error-code : (e : StoreError) → (c : Code) × (delete_error e ≡ write_error c)
unfolding delete_error write_internal_error
delete_error-code not_found = (no_such_cache_policy, refl)
delete_error-code managed_immutable = (illegal_update, refl)
delete_error-code _ = (internal_error, refl)

-- A configuration that a handler decodes is one that the checks admit.
pub decode_config-admitted :
    (unmarshal : Bytes → Option CachePolicyConfigXml) (body : Option Bytes)
    (cfg : CachePolicyConfig)
    → decode_config unmarshal body ≡ ok cfg
    → AdmitsCachePolicy (some cfg)
unfolding decode_config
decode_config-admitted unmarshal none cfg h = absurd (ground arith)
decode_config-admitted unmarshal (some body) cfg h =
    elim (Option-cases (unmarshal (take max_body_bytes body))) [
      | inl e ↦ absurd (ground arith)
      | inr (w, e) ↦ elim (Result-cases (validate_cache_policy_config (some (config_to_sdk w)))) [
        | inr (x, f) ↦ absurd (ground arith)
        | inl (u, f) ↦
            let same : config_to_sdk w ≡ cfg = ground arith in
            subst (λ c. AdmitsCachePolicy (some c)) same
              ((cache_policy_config_iff (some (config_to_sdk w))).0 f)
      ]
    ]

module _ (bolt : Bbolt) (json : Json Record) (etag_gen : CachePolicyConfig → Bytes)
    (unmarshal : Bytes → Option CachePolicyConfigXml) (format : ℕ → Bytes) where
  abbrev pub State : Type 0
  State = BoltStore bolt json etag_gen

  -- The request was refused with an AWS error, and the store is the one before.
  abbrev pub Refused : State → Served bolt json etag_gen unmarshal format → Type 0
  Refused s a = (c : Code) × (a ≡ (write_error c, s))

  -- The response with a policy: its status, its ETag, and the policy's ID, time and configuration.
  abbrev pub policy_response : ℕ → Bytes → ℕ → CachePolicyConfig → Response Reply
  policy_response status id now cfg = record {
    status = status;
    body = content (record {
      etag = etag_gen cfg;
      policy = record {
        id = id;
        last_modified_time = format now;
        cache_policy_config = some (config_from_sdk cfg);
      };
    });
  }

  -- The request for `id` was answered with the configuration of its body, which the checks admit;
  -- the store behind it is valid, answers for `id` with the same policy and status 200, and for
  -- other IDs as before.
  abbrev pub Stored :
      ℕ
      → Option Bytes
      → Option Bytes
      → ℕ
      → State
      → Served bolt json etag_gen unmarshal format
      → Type 0
  Stored status asked body now s a =
      (cfg : CachePolicyConfig) × (id : Bytes) × (t : State) × (asked ≡ some id)
      × (decode_config unmarshal body ≡ ok cfg)
      × AdmitsCachePolicy (some cfg)
      × (a ≡ (policy_response status id now cfg, t))
      × IsValid bolt json etag_gen t
      × (handle_get bolt json etag_gen unmarshal format id t ≡ policy_response 200 id now cfg)
      × ((j : Bytes)
          → j ≢ id
          → handle_get bolt json etag_gen unmarshal format j t
            ≡ handle_get bolt json etag_gen unmarshal format j s)

  pub handle_get-of :
      (id : Bytes) (s t : State)
      → get bolt json etag_gen id t ≡ get bolt json etag_gen id s
      → handle_get bolt json etag_gen unmarshal format id t
        ≡ handle_get bolt json etag_gen unmarshal format id s
  unfolding handle_get
  handle_get-of id s t h = rw (h, handle_get) refl

  -- The response that is written for a record.
  pub written :
      (status : ℕ) (id : Bytes) (now : ℕ) (cfg : CachePolicyConfig) (kind : Bytes) (r : Record)
      → r ≡ new_record bolt json etag_gen id cfg now kind
      → write_cache_policy_response format status r ≡ policy_response status id now cfg
  unfolding write_cache_policy_response to_response_cache_policy
  written status id now cfg kind r e = rw e refl

  handle_get-found :
      (id : Bytes) (t : State) (r : Record)
      → get bolt json etag_gen id t ≡ ok r
      → handle_get bolt json etag_gen unmarshal format id t
        ≡ write_cache_policy_response format 200 r
  unfolding handle_get
  handle_get-found id t r h = rw (h, handle_get) refl

  pub handle_get-ok :
      (id : Bytes) (t : State) (now : ℕ) (cfg : CachePolicyConfig) (kind : Bytes) (r : Record)
      → r ≡ new_record bolt json etag_gen id cfg now kind
      → get bolt json etag_gen id t ≡ ok r
      → handle_get bolt json etag_gen unmarshal format id t ≡ policy_response 200 id now cfg
  handle_get-ok id t now cfg kind r e h =
      handle_get-found id t r h ∙ written 200 id now cfg kind r e

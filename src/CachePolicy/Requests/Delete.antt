-- ===== src/CachePolicy/Requests/Delete.antt =====
-- `DELETE /2020-05-31/cache-policy/{id}`, from the request to the store behind it.
use cf_local.Prelude.{ℕ, ◌≡◌, refl, ◌≢◌, ◌⊎◌, inl, inr, Option, arith, Bytes, Result, ok, err}
use cf_local.Storage.{Bbolt, Json}
use cf_local.Xml.Codes.{no_content, write_error, no_such_cache_policy}
use cf_local.Xml.CachePolicy.{CachePolicyConfigXml}
use cf_local.Validate.Policy.{CachePolicyConfig}
use cf_local.CachePolicy.Store.{Record, StoreError, not_found, get, remove}
use cf_local.CachePolicy.Store.Valid.{IsValid}
use cf_local.CachePolicy.Store.Delete.{delete-unchanged, get-delete_policy}
use cf_local.CachePolicy.Handler.{Served, handle_get, handle_delete, get_error, delete_error}
use cf_local.CachePolicy.Requests.{delete_error-code, State, Refused, handle_get-of}

module _ (bolt : Bbolt) (json : Json Record) (etag_gen : CachePolicyConfig → Bytes)
    (unmarshal : Bytes → Option CachePolicyConfigXml) (format : ℕ → Bytes) where
  handle_get-not_found :
      (id : Bytes) (t : State bolt json etag_gen unmarshal format)
      → get bolt json etag_gen id t ≡ err not_found
      → handle_get bolt json etag_gen unmarshal format id t ≡ write_error no_such_cache_policy
  unfolding handle_get get_error
  handle_get-not_found id t h = rw (h, handle_get) refl

  -- The request was answered with 204; the store behind it is valid, answers 404 for the ID, and for
  -- other IDs as before.
  abbrev pub Gone :
      Bytes
      → State bolt json etag_gen unmarshal format
      → Served bolt json etag_gen unmarshal format
      → Type 0
  Gone id s a =
      (t : State bolt json etag_gen unmarshal format) × (a
        ≡ (record { status = 204; body = no_content }, t))
      × IsValid bolt json etag_gen t
      × (handle_get bolt json etag_gen unmarshal format id t ≡ write_error no_such_cache_policy)
      × ((j : Bytes)
          → j ≢ id
          → handle_get bolt json etag_gen unmarshal format j t
            ≡ handle_get bolt json etag_gen unmarshal format j s)

  deleted_or_not :
      (id if_match : Bytes) (s : State bolt json etag_gen unmarshal format)
      → IsValid bolt json etag_gen s
      → (answer : Result StoreError (Unit {0})) (t : State bolt json etag_gen unmarshal format)
      → remove bolt json etag_gen id if_match s ≡ (answer, t)
      → let a : Served bolt json etag_gen unmarshal format = (
        elim answer [ err e ↦ delete_error e | ok u ↦ record { status = 204; body = no_content } ],
        t,
      ) in
        Refused bolt json etag_gen unmarshal format s a ⊎ Gone id s a
  deleted_or_not id m s v (err e) t h =
      let same = delete-unchanged bolt json etag_gen id m s e t v h in
      let (c, is_c) = delete_error-code e in inl (c, ground arith)
  deleted_or_not id m s v (ok u) t h =
      let (vt, there_before, gone, others, fired) =
        get-delete_policy bolt json etag_gen id m s t v h in
      inr (
        t,
        refl,
        vt,
        handle_get-not_found id t gone,
        λ j ne. handle_get-of bolt json etag_gen unmarshal format j s t (others j ne),
      )

  -- On a valid store `Delete` refuses the request with an AWS error and changes nothing, or answers
  -- 204, and from then on `Get` answers 404 for the ID: the store stays valid, and other IDs answer
  -- as before.
  pub handle_delete_outcome :
      (id if_match : Bytes) (s : State bolt json etag_gen unmarshal format)
      → IsValid bolt json etag_gen s
      → Refused bolt json etag_gen unmarshal format s
          (handle_delete bolt json etag_gen unmarshal format id if_match s)
        ⊎ Gone id s (handle_delete bolt json etag_gen unmarshal format id if_match s)
  unfolding handle_delete
  handle_delete_outcome id m s v =
      let (answer, t) = remove bolt json etag_gen id m s in deleted_or_not id m s v answer t refl

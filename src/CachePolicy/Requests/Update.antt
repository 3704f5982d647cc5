-- ===== src/CachePolicy/Requests/Update.antt =====
-- `PUT /2020-05-31/cache-policy/{id}`, from the request to the store behind it.
use mathlib.Core.Path.{subst}
use cf_local.Prelude.{
  ℕ, ◌≡◌, refl, sym, ap, ◌⊎◌, inl, inr, Option, some, arith, Bytes, Result, ok, err, Result-cases,
  some-injective,
}
use cf_local.Storage.{Bbolt, Json}
use cf_local.Xml.CachePolicy.{CachePolicyConfigXml}
use cf_local.Validate.Policy.{CachePolicyConfig}
use cf_local.CachePolicy.Store.{Record, StoreError, new_record, update}
use cf_local.CachePolicy.Store.Valid.{IsValid}
use cf_local.CachePolicy.Store.Update.{update-Updated, update-unchanged}
use cf_local.CachePolicy.Store.Update.Keeps.{get-update_policy}
use cf_local.CachePolicy.Handler.{decode_config, served, handle_update, update_error}
use cf_local.CachePolicy.Requests.{
  update_error-code, decode_config-admitted, State, Refused, Stored, written, handle_get-of,
  handle_get-ok,
}

module _ (bolt : Bbolt) (json : Json Record) (etag_gen : CachePolicyConfig → Bytes)
    (unmarshal : Bytes → Option CachePolicyConfigXml) (format : ℕ → Bytes) where
  updated :
      (id if_match : Bytes) (body : Option Bytes) (now : ℕ)
      (s : State bolt json etag_gen unmarshal format)
      → IsValid bolt json etag_gen s
      → (cfg : CachePolicyConfig) → decode_config unmarshal body ≡ ok cfg
      → (a : Result StoreError Record × State bolt json etag_gen unmarshal format)
      → update bolt json etag_gen id (some cfg) if_match now s ≡ a
      → Refused bolt json etag_gen unmarshal format s
          (served bolt json etag_gen unmarshal format update_error 200 a)
        ⊎ Stored bolt json etag_gen unmarshal format 200
            (some id)
            body
            now
            s
            (served bolt json etag_gen unmarshal format update_error 200 a)
  updated id m body now s v cfg d (err e, t) h =
      let same = update-unchanged bolt json etag_gen id (some cfg) m now s e t v h in
      let (c, is_c) = update_error-code e in inl (c, ground arith)
  updated id m body now s v cfg d (ok r, t) h =
      let (vt, at_id, has_config, custom, found, others, fired) =
        get-update_policy bolt json etag_gen id (some cfg) m now s r t v h in
      let made = update-Updated bolt json etag_gen id (some cfg) m now s r t v h in
      let same : made.config ≡ cfg = some-injective (sym made.given) in
      let kind = made.before.kind in
      let built : r ≡ new_record bolt json etag_gen id cfg now kind =
        subst (λ c. r ≡ new_record bolt json etag_gen id c now kind) same made.built in
      inr (
        cfg,
        id,
        t,
        refl,
        d,
        decode_config-admitted unmarshal body cfg d,
        ap (λ x. (x, t)) (written bolt json etag_gen unmarshal format 200 id now cfg kind r built),
        vt,
        handle_get-ok bolt json etag_gen unmarshal format id t now cfg kind r built found,
        λ j ne. handle_get-of bolt json etag_gen unmarshal format j s t (others j ne),
      )

  -- On a valid store `Update` refuses the request with an AWS error and changes nothing, or answers
  -- 200 with the ID of the request, the ETag of the configuration in the body, the time and that
  -- configuration, which the checks admit. Then `Get` for that ID answers with the same response, the
  -- store stays valid, and other IDs answer as before.
  pub handle_update_outcome :
      (id if_match : Bytes) (body : Option Bytes) (now : ℕ)
      (s : State bolt json etag_gen unmarshal format)
      → IsValid bolt json etag_gen s
      → Refused bolt json etag_gen unmarshal format s
          (handle_update bolt json etag_gen unmarshal format id if_match body now s)
        ⊎ Stored bolt json etag_gen unmarshal format 200
            (some id)
            body
            now
            s
            (handle_update bolt json etag_gen unmarshal format id if_match body now s)
  unfolding handle_update
  handle_update_outcome id m body now s v = elim (Result-cases (decode_config unmarshal body)) [
    | inr (c, e) ↦ inl (c, rw (e, handle_update) refl)
    | inl (cfg, e) ↦
        let run : handle_update bolt json etag_gen unmarshal format id m body now s
            ≡ served bolt json etag_gen unmarshal format update_error 200
                (update bolt json etag_gen id (some cfg) m now s) =
          rw (e, handle_update) refl in
        subst
          (λ a.
            Refused bolt json etag_gen unmarshal format s a
            ⊎ Stored bolt json etag_gen unmarshal format 200 (some id) body now s a)
          (sym run)
          (updated id m body now s v cfg e (update bolt json etag_gen id (some cfg) m now s) refl)
  ]

-- ===== src/CachePolicy/Requests/Create.antt =====
-- `POST /2020-05-31/cache-policy`, from the request to the store behind it.
use mathlib.Core.Path.{subst}
use cf_local.Prelude.{
  ℕ, ◌≡◌, refl, sym, ap, ◌⊎◌, inl, inr, Option, none, some, arith, Bytes, lookup, Result, ok, err,
  Result-cases, some-injective,
}
use cf_local.Storage.{Bbolt, Json}
use cf_local.Xml.CachePolicy.{CachePolicyConfigXml}
use cf_local.Validate.Policy.{CachePolicyConfig}
use cf_local.CachePolicy.Store.{Record, StoreError, type_custom, new_record, create}
use cf_local.CachePolicy.Store.Valid.{IsValid}
use cf_local.CachePolicy.Store.Create.{create-Created, create-unchanged, get-create_policy}
use cf_local.CachePolicy.Handler.{decode_config, served, handle_create, create_error}
use cf_local.CachePolicy.Requests.{
  create_error-code, decode_config-admitted, State, Refused, Stored, written, handle_get-of,
  handle_get-ok,
}

module _ (bolt : Bbolt) (json : Json Record) (etag_gen : CachePolicyConfig → Bytes)
    (unmarshal : Bytes → Option CachePolicyConfigXml) (format : ℕ → Bytes) where
  created :
      (body minted : Option Bytes) (now : ℕ) (s : State bolt json etag_gen unmarshal format)
      → IsValid bolt json etag_gen s
      → ((id : Bytes) → minted ≡ some id → lookup id s.by_id ≡ none)
      → (cfg : CachePolicyConfig) → decode_config unmarshal body ≡ ok cfg
      → (a : Result StoreError Record × State bolt json etag_gen unmarshal format)
      → create bolt json etag_gen (some cfg) minted now s ≡ a
      → Refused bolt json etag_gen unmarshal format s
          (served bolt json etag_gen unmarshal format create_error 201 a)
        ⊎ Stored bolt json etag_gen unmarshal format 201 minted body now s
            (served bolt json etag_gen unmarshal format create_error 201 a)
  created body minted now s v fresh cfg d (err e, t) h =
      let same = create-unchanged bolt json etag_gen (some cfg) minted now s e t h in
      let (c, is_c) = create_error-code e in inl (c, ground arith)
  created body minted now s v fresh cfg d (ok r, t) h =
      let (vt, id_minted, has_config, custom, found, others, fired) =
        get-create_policy bolt json etag_gen (some cfg) minted now s r t v fresh h in
      let made = create-Created bolt json etag_gen (some cfg) minted now s r t h in
      let same : made.config ≡ cfg = some-injective (sym made.given) in
      let built : r ≡ new_record bolt json etag_gen r.id cfg now type_custom =
        subst (λ c. r ≡ new_record bolt json etag_gen r.id c now type_custom) same made.built in
      inr (
        cfg,
        r.id,
        t,
        id_minted,
        d,
        decode_config-admitted unmarshal body cfg d,
        ap (λ x. (x, t))
            (written bolt json etag_gen unmarshal format 201 r.id now cfg type_custom r built),
        vt,
        handle_get-ok bolt json etag_gen unmarshal format r.id t now cfg type_custom r built found,
        λ j ne. handle_get-of bolt json etag_gen unmarshal format j s t (others j ne),
      )

  -- On a valid store, and when the minted ID is not in use, `Create` refuses the request with an AWS
  -- error and changes nothing, or answers 201 with the minted ID, the ETag of the configuration in
  -- the body, the time and that configuration, which the checks admit. Then `Get` for that ID answers
  -- 200 with the same policy, the store stays valid, and other IDs answer as before.
  pub handle_create_outcome :
      (body minted : Option Bytes) (now : ℕ) (s : State bolt json etag_gen unmarshal format)
      → IsValid bolt json etag_gen s
      → ((id : Bytes) → minted ≡ some id → lookup id s.by_id ≡ none)
      → Refused bolt json etag_gen unmarshal format s
          (handle_create bolt json etag_gen unmarshal format body minted now s)
        ⊎ Stored bolt json etag_gen unmarshal format 201 minted body now s
            (handle_create bolt json etag_gen unmarshal format body minted now s)
  unfolding handle_create
  handle_create_outcome body minted now s v fresh =
      elim (Result-cases (decode_config unmarshal body)) [
        | inr (c, e) ↦ inl (c, rw (e, handle_create) refl)
        | inl (cfg, e) ↦
            let run : handle_create bolt json etag_gen unmarshal format body minted now s
                ≡ served bolt json etag_gen unmarshal format create_error 201
                    (create bolt json etag_gen (some cfg) minted now s) =
              rw (e, handle_create) refl in
            subst
              (λ a.
                Refused bolt json etag_gen unmarshal format s a
                ⊎ Stored bolt json etag_gen unmarshal format 201 minted body now s a)
              (sym run)
              (created body minted now s v fresh cfg e
                (create bolt json etag_gen (some cfg) minted now s) refl)
      ]

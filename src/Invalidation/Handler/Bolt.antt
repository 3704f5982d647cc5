-- ===== src/Invalidation/Handler/Bolt.antt =====
-- The bolt store behind the handler: it is a `Store`, and what a client sees through both.
use cf_local.Prelude.{
  ℕ, ◌<◌, ◌≡◌, refl, ◌≢◌, inl, inr, Bool, Option, none, some, List, [], ◌∷◌, arith, length, All,
  here, there, Bytes, equal-ne, lookup, ok,
}
use cf_local.Prelude.Sort.{In, Nodup}
use cf_local.Storage.{Bbolt, Json}
use cf_local.Invalidation.Store.{Batch, Record, StoreError, BoltStore}
use cf_local.Invalidation.Store as Records
use cf_local.Invalidation.Store.Valid.{IsValid, create-Created}
use cf_local.Invalidation.Store.Restart.{get_iff, get-create}
use cf_local.Invalidation.Store.Listing.{list_iff, list-Nodup}
use cf_local.Invalidation.Handler.{BatchXml, Outcome, Store, create, get, batch_to_sdk}
use cf_local.Invalidation.Handler.Create.{Accepted, create_cases}
use cf_local.Invalidation.Handler.Walk.{collect, GoodIds, collect-paginate}

module _ (store : Store) (unmarshal : Bytes → Option BatchXml) (format_time : ℕ → Bytes) where
  -- `Get` answers with what an accepted request was answered with.
  get-Accepted :
      (wired : Bool) (dist_id id : Bytes) (body : Option Bytes) (now : ℕ) (s : store.State)
      (o : Outcome store.State)
      → store.IsValid s
      → id ≢ []
      → Accepted store unmarshal format_time wired dist_id body (some id) now s o
      → get store unmarshal format_time dist_id id o.state
        ≡ record { status = 200; body = o.response.body }
  unfolding get
  get-Accepted wired d id body now s o v ne a =
      let r = a.record_made in
      let law =
        store.get-create d (some (batch_to_sdk a.wrapper)) (some id) now s r o.state v a.stored in
      let same : r.id ≡ id = ground (arith, law.3) in
      let found : store.get d id o.state ≡ ok r = rw (← same) law.1 in
      ground (arith, found, equal-ne d [] a.named, equal-ne id [] ne, a.answer)

  -- When `Create` on a valid store, with a minted ID that is not empty, answers 201, then `Get` for
  -- that ID under the same distribution answers on the store behind it with status 200 and the same
  -- body.
  pub get-create_handler :
      (wired : Bool) (dist_id id : Bytes) (body : Option Bytes) (now : ℕ) (s : store.State)
      → store.IsValid s
      → id ≢ []
      → let o = create store unmarshal format_time wired dist_id body (some id) now s in
        o.response.status ≡ 201
        → get store unmarshal format_time dist_id id o.state
          ≡ record { status = 200; body = o.response.body }
  get-create_handler wired d id body now s v ne h =
      let o = create store unmarshal format_time wired d body (some id) now s in
      elim (create_cases store unmarshal format_time wired d (some id) now s body) [
        | inl a ↦ get-Accepted wired d id body now s o v ne a
        | inr r ↦ absurd (omega (arith, r.is_error, h))
      ]

module _ (bolt : Bbolt) (json : Json Record) where
  pub bolt_get-create :
      (d : Bytes) (b : Option Batch) (m : Option Bytes) (now : ℕ) (s : BoltStore bolt json)
      (r : Record) (t : BoltStore bolt json)
      → IsValid bolt json s
      → Records.create bolt json d b m now s ≡ ok (r, t)
      → IsValid bolt json t
        × (Records.get bolt json d r.id t ≡ ok r)
        × (r.batch ≡ b)
        × (m ≡ some r.id)
  bolt_get-create d b m now s r t v h =
      let g = get-create bolt json d b m now s r t v h in
      let c = create-Created bolt json d b m now s r t h in (g.0, g.1, c.with_batch, c.id_minted)

  -- `BoltStore` implements the interface of the handler.
  abbrev pub bolt_store : Store
  bolt_store = record {
    State = BoltStore bolt json;
    IsValid = IsValid bolt json;
    create = Records.create bolt json;
    get = Records.get bolt json;
    list = Records.list bolt json;
    get-create = bolt_get-create;
    list_iff = list_iff bolt json;
  }

  apart :
      (d : Bytes) (s : BoltStore bolt json) (r : Record) (rs : List Record)
      → (lookup r.id s.by_id ≡ some r)
      → ((q : Record) → In q rs → lookup q.id s.by_id ≡ some q)
      → (¬ In r rs)
      → All (λ (q : Record). r.id ≢ q.id) rs
  apart d s r [] lr lq new = tt
  apart d s r (q ∷ rs) lr lq new = (
    λ e.
        let lq' = lq q (here refl) in
        let same : lookup r.id s.by_id ≡ some q = rw e lq' in new (here (ground arith)),
    apart d s r rs lr (λ z i. lq z (there i)) (λ i. new (there i)),
  )

  GoodIds-of_stored :
      (d : Bytes) (s : BoltStore bolt json) (rs : List Record)
      → lookup [] s.by_id ≡ none
      → Nodup rs
      → ((q : Record) → In q rs → lookup q.id s.by_id ≡ some q)
      → GoodIds rs
  GoodIds-of_stored d s [] no_empty n lq = tt
  GoodIds-of_stored d s (r ∷ rs) no_empty n lq = (
    λ e. let lr = lq r (here refl) in let at_empty = rw e at lr in absurd (ground arith),
    apart d s r rs (lq r (here refl)) (λ q i. lq q (there i)) n.0,
    GoodIds-of_stored d s rs no_empty n.1 (λ q i. lq q (there i)),
  )

  -- A client that pages through the list of a valid store in which no record has the empty ID, with
  -- any page size above 0, is handed the whole list, each record once and in its order.
  pub collect-list :
      (distribution_id : Bytes) (s : BoltStore bolt json) (max_items : ℕ)
      → IsValid bolt json s
      → lookup [] s.by_id ≡ none
      → 0 < max_items
      → let records = Records.list bolt json distribution_id s in
        collect (length records) records [] max_items ≡ records
  collect-list d s k v no_empty pos_k =
      let records = Records.list bolt json d s in
      collect-paginate records k
        (GoodIds-of_stored d s records no_empty (list-Nodup bolt json d s v)
          (λ q i. ((get_iff bolt json d q.id s q).0 ((list_iff bolt json d s q v).0 i)).0))
        pos_k

-- ===== src/Distribution/Store/Refines.antt =====
-- bolt.go's `BoltStore` against the registry of distributions.
use mathlib.Core.Path.{subst}
use cf_local.Prelude.{
  ℕ, ◌≡◌, ◌∙◌, refl, sym, ap, inl, inr, false, Option, none, some, arith, Option-cases, Bytes,
  lookup, Result, Result-cases, ok, err, Distinct, Distinct-insert, Distinct-delete,
}
use cf_local.Storage.{Bbolt, Json}
use cf_local.Distribution.{DistributionConfig}
use cf_local.Distribution.Store.{
  Record, StoreError, new_record, BoltStore, put, delete_key, create, create_for, insert_new, get,
  update, replace, remove, remove_record, list, marshal_failed, transaction_failed,
  missing_caller_reference, fire,
}
use cf_local.Distribution.Store.Registry.{
  notify, Call, create_call, get_call, update_call, remove_call, list_call, Fault, marshal_fault,
  transaction_fault, one, many, done, CallResult, IsRecordOf, Permits, created, unconfigured_create,
  anonymous, repeated, unminted, create_fault, answered, absent_get, updated, unconfigured_update,
  absent_update, update_fault, removed, absent_remove, remove_fault, enumerated,
}
use cf_local.Distribution.Store.View.{
  has, view, view-fire, view-create, view-update, view-remove, fire-by_id, ids-values,
}

-- The answer of a call that returns a record, and of one that returns none.
abbrev reply_record : {S : Type 0} → Result StoreError Record × S → CallResult × S
reply_record (ok r, s) = (ok (one r), s)
reply_record (err e, s) = (err e, s)

abbrev reply_done : {S : Type 0} → Result StoreError (Unit {0}) × S → CallResult × S
reply_done (ok u, s) = (ok done, s)
reply_done (err e, s) = (err e, s)

module _ (bolt : Bbolt) (json : Json Record) (etag_gen : DistributionConfig → Bytes) where
  -- A call of the interface, served by the store.
  unfoldable pub perform :
      Call → BoltStore bolt json etag_gen → CallResult × BoltStore bolt json etag_gen
  perform (create_call o minted now) s = reply_record (create bolt json etag_gen o minted now s)
  perform (get_call id) s = reply_record (get bolt json etag_gen id s, s)
  perform (update_call id o if_match now) s =
      reply_record (update bolt json etag_gen id o if_match now s)
  perform (remove_call id if_match) s = reply_done (remove bolt json etag_gen id if_match s)
  perform list_call s = (ok (many (list bolt json etag_gen s)), s)

  -- `a` answers the call as the registry behind `s` allows, and leaves what it asks for, with
  -- distinct IDs.
  abbrev pub Allows :
      BoltStore bolt json etag_gen → Call → CallResult × BoltStore bolt json etag_gen → Type 0
  Allows s c a =
      Permits etag_gen json.marshal (view bolt json etag_gen s) c a.0 (view bolt json etag_gen a.1)
      × Distinct a.1.by_id

  built-IsRecordOf :
      (id : Bytes) (c : DistributionConfig) (now : ℕ)
      → IsRecordOf etag_gen id c now (new_record etag_gen id c now)
  built-IsRecordOf id c now = record {
    same_id = refl;
    same_config = refl;
    hashed = refl;
    modified = refl;
  }

  put-Fault :
      (r : Record) (s : BoltStore bolt json etag_gen) {e : StoreError}
      → put bolt json etag_gen r s ≡ err e
      → Fault json.marshal r e
  unfolding put
  put-Fault r s {e} h = elim (Option-cases (json.marshal r)) [
    | inl m ↦
        let same : marshal_failed ≡ e = ground arith in
        subst (Fault json.marshal r) same (marshal_fault m)
    | inr (b, m) ↦ elim (Option-cases (bolt.put r.id b s.db)) [
      | inl n ↦
          let same : transaction_failed ≡ e = ground arith in
          subst (Fault json.marshal r) same (transaction_fault m)
      | inr (d, n) ↦ absurd (ground arith)
    ]
  ]

  put-eq-ok :
      (r : Record) (s : BoltStore bolt json etag_gen) {db : bolt.Db}
      → put bolt json etag_gen r s ≡ ok db
      → (b : Bytes) × (json.marshal r ≡ some b) × (bolt.put r.id b s.db ≡ some db)
  unfolding put
  put-eq-ok r s h = elim (Option-cases (json.marshal r)) [
    | inl m ↦ absurd (ground arith)
    | inr (b, m) ↦ (b, m, ground arith)
  ]

  fired-Distinct :
      (s : BoltStore bolt json etag_gen)
      → Distinct s.by_id
      → Distinct (fire bolt json etag_gen s).by_id
  fired-Distinct s d = subst (λ m. Distinct m) (sym (fire-by_id bolt json etag_gen s)) d

  module _ (s : BoltStore bolt json etag_gen) (d : Distinct s.by_id) where
    insert_new-Allows :
        (c : DistributionConfig) (caller id : Bytes) (now : ℕ)
        → c.caller_reference ≡ some caller
        → lookup caller s.by_caller ≡ none
        → Allows s
            (create_call (some c) (some id) now)
            (reply_record (insert_new bolt json etag_gen c caller id now s))
    unfolding insert_new
    insert_new-Allows c caller id now named free =
        let r = new_record etag_gen id c now in
        let unused : has caller s.by_caller ≡ false = ground arith in
        elim (Result-cases (put bolt json etag_gen r s)) [
          | inr (e, h) ↦
              rw (h, insert_new)
                (create_fault named unused (built-IsRecordOf id c now) (put-Fault r s h), d)
          | inl (db, h) ↦
              let (b, m, p) = put-eq-ok r s h in
              rw (h, insert_new)
                (
                  created named unused (built-IsRecordOf id c now) m (
                      view-fire bolt json etag_gen _
                      ∙ ap notify (view-create bolt json etag_gen s id caller b r db p)),
                  fired-Distinct _ (Distinct-insert id r s.by_id d),
                )
        ]

    create_for-Allows :
        (c : DistributionConfig) (caller : Bytes) (minted : Option Bytes) (now : ℕ)
        → c.caller_reference ≡ some caller
        → Allows s
            (create_call (some c) minted now)
            (reply_record (create_for bolt json etag_gen c caller minted now s))
    unfolding create_for
    create_for-Allows c caller minted now named = elim (Option-cases (lookup caller s.by_caller)) [
      | inr (other, h) ↦ rw (h, create_for) (repeated named (ground arith), d)
      | inl h ↦ elim (Option-cases minted) [
        | inl m ↦ rw (h, m, create_for) (unminted named (ground arith), d)
        | inr (id, m) ↦ rw (h, m, create_for) (insert_new-Allows c caller id now named h)
      ]
    ]

    create-Allows :
        (o : Option DistributionConfig) (minted : Option Bytes) (now : ℕ)
        → Allows s
            (create_call o minted now)
            (reply_record (create bolt json etag_gen o minted now s))
    unfolding create
    create-Allows none minted now = (unconfigured_create, d)
    create-Allows (some c) minted now = at_name c.caller_reference refl
      where
        at_name :
            (named : Option Bytes)
            → c.caller_reference ≡ named
            → Allows s (create_call (some c) minted now) (
                reply_record (elim named [
                  | none ↦ (err missing_caller_reference, s)
                  | some caller ↦ create_for bolt json etag_gen c caller minted now s
                ]))
        at_name none e = (anonymous e, d)
        at_name (some caller) e = create_for-Allows c caller minted now e

    replace-Allows :
        (id : Bytes) (c : DistributionConfig) (if_match : Bytes) (now : ℕ) (r : Record)
        → lookup id s.by_id ≡ some r
        → Allows s
            (update_call id (some c) if_match now)
            (reply_record (replace bolt json etag_gen id c now s))
    unfolding replace
    replace-Allows id c if_match now r found =
        let q = new_record etag_gen id c now in
        elim (Result-cases (put bolt json etag_gen q s)) [
          | inr (e, h) ↦
              rw (h, replace) (update_fault found (built-IsRecordOf id c now) (put-Fault q s h), d)
          | inl (db, h) ↦
              let (b, m, p) = put-eq-ok q s h in
              rw (h, replace)
                (
                  updated found (built-IsRecordOf id c now) m (
                      view-fire bolt json etag_gen _
                      ∙ ap notify (view-update bolt json etag_gen s id b q db p)),
                  fired-Distinct _ (Distinct-insert id q s.by_id d),
                )
        ]

    update-Allows :
        (id : Bytes) (o : Option DistributionConfig) (if_match : Bytes) (now : ℕ)
        → Allows s
            (update_call id o if_match now)
            (reply_record (update bolt json etag_gen id o if_match now s))
    unfolding update
    update-Allows id none if_match now = (unconfigured_update, d)
    update-Allows id (some c) if_match now = elim (Option-cases (lookup id s.by_id)) [
      | inl h ↦ rw (h, update) (absent_update h, d)
      | inr (r, h) ↦ rw (h, update) (replace-Allows id c if_match now r h)
    ]

    get-Allows :
        (id : Bytes) → Allows s (get_call id) (reply_record (get bolt json etag_gen id s, s))
    unfolding get
    get-Allows id = elim (Option-cases (lookup id s.by_id)) [
      | inl h ↦ rw (h, get) (absent_get h, d)
      | inr (r, h) ↦ rw (h, get) (answered h, d)
    ]

    remove-Allows :
        (id if_match : Bytes)
        → Allows s (remove_call id if_match) (reply_done (remove bolt json etag_gen id if_match s))
    unfolding remove remove_record delete_key
    remove-Allows id if_match = elim (Option-cases (lookup id s.by_id)) [
      | inl h ↦ rw (h, remove) (absent_remove h, d)
      | inr (r, h) ↦ elim (Option-cases (bolt.remove id s.db)) [
        | inl n ↦ rw (h, remove, remove_record, delete_key, n) (remove_fault h, d)
        | inr (db, n) ↦
            rw (h, remove, remove_record, delete_key, n)
              (
                removed h (
                    view-fire bolt json etag_gen _
                    ∙ ap notify (view-remove bolt json etag_gen s id r db n)),
                fired-Distinct _ (Distinct-delete id s.by_id d),
              )
      ]
    ]

    list-Allows : Allows s list_call (ok (many (list bolt json etag_gen s)), s)
    unfolding list
    list-Allows = let (once, at, whole) = ids-values s.by_id d in (enumerated once at whole, d)

  -- The store refines the registry: in every state in which each ID stands once, as in any Go map,
  -- and for every call of the interface, Create, Get, Update, Delete and List answer as the registry
  -- that the state stands for allows. They leave a state that stands for the registry after that step,
  -- its bucket included: a write that fails is answered with its error and changes nothing, and one
  -- that is answered with a record is in the bucket. Each ID stands once there, too.
  pub perform-Permits :
      (c : Call) (s : BoltStore bolt json etag_gen)
      → Distinct s.by_id
      → let a = perform c s in
        Permits etag_gen json.marshal
          (view bolt json etag_gen s)
          c
          a.0
          (view bolt json etag_gen a.1)
        × Distinct a.1.by_id
  unfolding perform
  perform-Permits (create_call o minted now) s d = create-Allows s d o minted now
  perform-Permits (get_call id) s d = get-Allows s d id
  perform-Permits (update_call id o if_match now) s d = update-Allows s d id o if_match now
  perform-Permits (remove_call id if_match) s d = remove-Allows s d id if_match
  perform-Permits list_call s d = list-Allows s d

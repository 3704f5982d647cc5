-- ===== src/CachePolicy/Store/Update.antt =====
-- `Update` of the cache policy store, on all of its paths.
pub mod Keeps
use mathlib.Core.Path.{subst}
use cf_local.Prelude.{
  ℕ, ◌-◌, ◌≡◌, refl, sym, ◌⊎◌, inl, inr, false, Option, none, some, arith, Bool-cases, Option-cases,
  Bytes, equal_iff, Dict, lookup, insert, Result, ok, err, Result-cases,
}
use cf_local.Storage.{Bbolt, Json}
use cf_local.Validate.Policy.{CachePolicyConfig}
use cf_local.CachePolicy.Store.{
  Record, StoreError, already_exists, missing_name, not_found, managed_immutable, is_managed,
  is_taken, put, BoltStore, fire, replace, update_named, update, new_record, get, rename,
  string_deref,
}
use cf_local.CachePolicy.Store.Index.{Indexed-rename, name_of}
use cf_local.CachePolicy.Store.Valid.{IsValid, IsValid-fire, fire-db, Mirrors-put}

module _ (bolt : Bbolt) (json : Json Record) (etag_gen : CachePolicyConfig → Bytes) where
  abbrev pub replaced :
      Record → Bytes → Bytes → bolt.Db → BoltStore bolt json etag_gen → BoltStore bolt json etag_gen
  replaced q old n db s = record s {
    db = db;
    by_id = insert q.id q s.by_id;
    by_name = rename old n q.id s.by_name;
  }

  -- What a successful `Update` did.
  pub record Updated (id : Bytes) (o : Option CachePolicyConfig) (now : ℕ)
      (s : BoltStore bolt json etag_gen) (q : Record) (t : BoltStore bolt json etag_gen)
      : Type 0 where
    pub config : CachePolicyConfig
    pub name : Bytes
    pub db : bolt.Db
    pub before : Record
    pub old : Bytes
    pub given : o ≡ some config
    pub named : config.name ≡ some name
    pub found : lookup id s.by_id ≡ some before
    pub custom : is_managed before ≡ false
    pub old_named : name_of before ≡ some old
    pub free : (lookup name s.by_name ≡ none) ⊎ (lookup name s.by_name ≡ some id)
    pub at_id : q.id ≡ id
    pub built : q ≡ new_record bolt json etag_gen id config now before.kind
    pub stored : put bolt json etag_gen q s ≡ ok db
    pub result : t ≡ fire bolt json etag_gen (replaced q old name db s)

  abbrev pub UpdateOutcome :
      Bytes
      → Option CachePolicyConfig
      → ℕ
      → BoltStore bolt json etag_gen
      → Result StoreError Record × BoltStore bolt json etag_gen
      → Type 0
  UpdateOutcome id o now s a =
      ((e : StoreError) × (a ≡ (err e, s)))
      ⊎ ((q : Record) × (t : BoltStore bolt json etag_gen) × (a ≡ (ok q, t))
          × Updated id o now s q t)

  is_taken-false :
      (n id : Bytes) (by_name : Dict Bytes)
      → is_taken n id by_name ≡ false
      → (lookup n by_name ≡ none) ⊎ (lookup n by_name ≡ some id)
  unfolding is_taken
  is_taken-false n id by_name h = elim (Option-cases (lookup n by_name)) [
    | inl e ↦ inl e
    | inr (j, e) ↦ inr (ground (arith, equal_iff j id))
  ]

  module _ (id : Bytes) (c : CachePolicyConfig) (n : Bytes) (named : c.name ≡ some n) (now : ℕ)
      (s : BoltStore bolt json etag_gen) (v : IsValid bolt json etag_gen s) where
    replace-ran :
        (r : Record) (old : CachePolicyConfig) (old_name : Bytes) (db : bolt.Db)
        → r.config ≡ some old
        → old.name ≡ some old_name
        → put bolt json etag_gen (new_record bolt json etag_gen id c now r.kind) s ≡ ok db
        → let q = new_record bolt json etag_gen id c now r.kind in
          replace bolt json etag_gen id c n r now s
          ≡ (ok q, fire bolt json etag_gen (replaced q old_name n db s))
    unfolding replace string_deref
    replace-ran r old old_name db has_config has_name h = rw (h, replace, has_config, has_name) refl

    replace-outcome :
        (r : Record) (old : CachePolicyConfig) (old_name : Bytes)
        → lookup id s.by_id ≡ some r
        → is_managed r ≡ false
        → is_taken n id s.by_name ≡ false
        → r.config ≡ some old
        → old.name ≡ some old_name
        → UpdateOutcome id (some c) now s (replace bolt json etag_gen id c n r now s)
    unfolding replace
    replace-outcome r old old_name found custom free has_config has_name =
        let q = new_record bolt json etag_gen id c now r.kind in
        elim (Result-cases (put bolt json etag_gen q s)) [
          | inr (e, h) ↦ inl (e, rw (h, replace) refl)
          | inl (db, h) ↦ inr (
            q,
            fire bolt json etag_gen (replaced q old_name n db s),
            replace-ran r old old_name db has_config has_name h,
            record {
              config = c;
              name = n;
              db = db;
              before = r;
              old = old_name;
              given = refl;
              named = named;
              found = found;
              custom = custom;
              old_named = ground arith;
              free = is_taken-false n id s.by_name free;
              at_id = refl;
              built = refl;
              stored = h;
              result = refl;
            },
          )
        ]

    with_config :
        (r : Record) (a : Bytes)
        → name_of r ≡ some a
        → (old : CachePolicyConfig) × (r.config ≡ some old) × (old.name ≡ some a)
    with_config r a h = elim (Option-cases r.config) [
      | inl e ↦ absurd (ground arith)
      | inr (old, e) ↦ (old, e, ground arith)
    ]

    custom-outcome :
        (r : Record)
        → lookup id s.by_id ≡ some r
        → is_managed r ≡ false
        → is_taken n id s.by_name ≡ false
        → UpdateOutcome id (some c) now s (replace bolt json etag_gen id c n r now s)
    custom-outcome r e m f =
        let (a, a_named, a_at) = v.indexed.complete id r e in
        let (old, has_config, has_name) = with_config r a a_named in
        replace-outcome r old a e m f has_config has_name

    update_named-outcome :
        UpdateOutcome id (some c) now s (update_named bolt json etag_gen id c n now s)
    unfolding update_named
    update_named-outcome = elim (Option-cases (lookup id s.by_id)) [
      | inl e ↦ inl (not_found, rw (e, update_named) refl)
      | inr (r, e) ↦ elim (Bool-cases (is_managed r)) [
        | inl m ↦ inl (managed_immutable, ground arith)
        | inr m ↦ elim (Bool-cases (is_taken n id s.by_name)) [
          | inl f ↦ inl (already_exists, ground arith)
          | inr f ↦
              let run : update_named bolt json etag_gen id c n now s
                  ≡ replace bolt json etag_gen id c n r now s =
                ground arith in
              subst (UpdateOutcome id (some c) now s) (sym run) (custom-outcome r e m f)
        ]
      ]
    ]

  -- On a valid store `Update` fails and leaves the store as it was, or replaces one custom record.
  pub update_outcome :
      (id : Bytes) (o : Option CachePolicyConfig) (if_match : Bytes) (now : ℕ)
      (s : BoltStore bolt json etag_gen)
      → IsValid bolt json etag_gen s
      → UpdateOutcome id o now s (update bolt json etag_gen id o if_match now s)
  unfolding update
  update_outcome id none if_match now s v = inl (missing_name, refl)
  update_outcome id (some c) if_match now s v = at_name c.name refl
    where
      at_name :
          (m : Option Bytes)
          → c.name ≡ m
          → UpdateOutcome id (some c) now s (elim m [
            | none ↦ (err missing_name, s)
            | some n ↦ update_named bolt json etag_gen id c n now s
          ])
      at_name none e = inl (missing_name, refl)
      at_name (some n) e = update_named-outcome id c n e now s v

  pub update-Updated :
      (id : Bytes) (o : Option CachePolicyConfig) (if_match : Bytes) (now : ℕ)
      (s : BoltStore bolt json etag_gen) (q : Record) (t : BoltStore bolt json etag_gen)
      → IsValid bolt json etag_gen s
      → update bolt json etag_gen id o if_match now s ≡ (ok q, t)
      → Updated id o now s q t
  update-Updated id o m now s q t v h = elim (update_outcome id o m now s v) [
    | inl (e, x) ↦ absurd (ground arith)
    | inr (q', t', x, c) ↦
        let same_q : q' ≡ q = ground arith in
        let same_t : t' ≡ t = ground arith in
        subst (λ x. Updated id o now s x t) same_q (subst (Updated id o now s q') same_t c)
  ]

  -- On a valid store a failed `Update` leaves the store as it was, whatever failed.
  pub update-unchanged :
      (id : Bytes) (o : Option CachePolicyConfig) (if_match : Bytes) (now : ℕ)
      (s : BoltStore bolt json etag_gen) (e : StoreError) (t : BoltStore bolt json etag_gen)
      → IsValid bolt json etag_gen s
      → update bolt json etag_gen id o if_match now s ≡ (err e, t)
      → t ≡ s
  update-unchanged id o m now s e t v h = elim (update_outcome id o m now s v) [
    | inl (e', q) ↦ ground arith
    | inr (r', t', q, c) ↦ absurd (ground arith)
  ]

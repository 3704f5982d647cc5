-- ===== src/CachePolicy/Store/Update/Keeps.antt =====
-- A successful `Update` keeps the invariant of the cache policy store.
use mathlib.Core.Path.{subst}
use cf_local.Prelude.{
  ℕ, ◌+◌, ◌≡◌, refl, sym, ap, ◌∙◌, ◌≢◌, inl, inr, false, Option, if◌then◌else◌, Bool-cases, Bytes,
  equal, Dict, delete, insert, lookup-insert_self, lookup-insert_ne, ok, Distinct, Distinct-delete,
  Distinct-insert,
}
use cf_local.Storage.{Bbolt, Json}
use cf_local.Validate.Policy.{CachePolicyConfig}
use cf_local.CachePolicy.Store.{Record, is_managed, BoltStore, update, get, rename}
use cf_local.CachePolicy.Store.Index.{Indexed-rename, name_of}
use cf_local.CachePolicy.Store.Valid.{IsValid, IsValid-fire, fire-db, Mirrors-put}
use cf_local.CachePolicy.Store.Update.{Updated, replaced, update-Updated}

module _ (bolt : Bbolt) (json : Json Record) (etag_gen : CachePolicyConfig → Bytes) where
  Updated-custom :
      (id : Bytes) (o : Option CachePolicyConfig) (now : ℕ) (s : BoltStore bolt json etag_gen)
      (q : Record) (t : BoltStore bolt json etag_gen)
      → Updated bolt json etag_gen id o now s q t
      → is_managed q ≡ false
  Updated-custom id o now s q t u = ap is_managed u.built ∙ (unfold is_managed in u.custom)

  Distinct-rename :
      (old n id : Bytes) (by_name : Dict Bytes)
      → Distinct by_name
      → Distinct (rename old n id by_name)
  unfolding rename
  Distinct-rename old n id by_name d = elim (Bool-cases (equal old n)) [
    | inl e ↦ rw e d
    | inr e ↦ rw e (Distinct-insert n id (delete old by_name) (Distinct-delete old by_name d))
  ]

  Updated-IsValid :
      (id : Bytes) (o : Option CachePolicyConfig) (now : ℕ) (s : BoltStore bolt json etag_gen)
      (q : Record) (t : BoltStore bolt json etag_gen)
      → Updated bolt json etag_gen id o now s q t
      → IsValid bolt json etag_gen s
      → IsValid bolt json etag_gen t
  Updated-IsValid id o now s q t u v = subst (IsValid bolt json etag_gen) (sym u.result) (
      IsValid-fire bolt json etag_gen (replaced bolt json etag_gen q u.old u.name u.db s) (record {
        distinct = Distinct-insert q.id q s.by_id v.distinct;
        distinct_names = Distinct-rename u.old u.name q.id s.by_name v.distinct_names;
        indexed =
            Indexed-rename s.by_id s.by_name v.indexed u.before q q.id u.old u.name
              (rw u.at_id u.found) u.old_named refl (ap name_of u.built ∙ u.named)
              (rw u.at_id u.free);
        mirrored =
            Mirrors-put bolt json etag_gen s u.db v.mirrored q q.id refl
              (Updated-custom id o now s q t u) u.stored;
      }))

  -- On a valid store a successful `Update` keeps the invariant, was asked for a custom record that
  -- is there, answers for its ID with the new configuration from now on, leaves what every other ID
  -- answers, and calls `onChange` once where it is set.
  pub get-update_policy :
      (id : Bytes) (o : Option CachePolicyConfig) (if_match : Bytes) (now : ℕ)
      (s : BoltStore bolt json etag_gen) (q : Record) (t : BoltStore bolt json etag_gen)
      → IsValid bolt json etag_gen s
      → update bolt json etag_gen id o if_match now s ≡ (ok q, t)
      → IsValid bolt json etag_gen t
        × (q.id ≡ id)
        × (q.config ≡ o)
        × (is_managed q ≡ false)
        × (get bolt json etag_gen id t ≡ ok q)
        × ((j : Bytes) → j ≢ id → get bolt json etag_gen j t ≡ get bolt json etag_gen j s)
        × (t.fired ≡ (if s.on_change then s.fired + 1 else s.fired))
  unfolding get
  get-update_policy id o m now s q t v h =
      let u = update-Updated bolt json etag_gen id o m now s q t v h in
      let map_is : t.by_id ≡ insert id q s.by_id =
        ap (λ x. x.by_id) u.result
        ∙ (fire-db bolt json etag_gen (replaced bolt json etag_gen q u.old u.name u.db s)).0
        ∙ ap (λ k. insert k q s.by_id) u.at_id in
      (
        Updated-IsValid id o now s q t u v,
        u.at_id,
        ap (λ x. x.config) u.built ∙ sym u.given,
        Updated-custom id o now s q t u,
        rw map_is (rw (lookup-insert_self id q s.by_id) refl),
        λ j ne. rw map_is (rw (lookup-insert_ne id j q s.by_id (λ e. ne (sym e))) refl),
        ap (λ x. x.fired) u.result
            ∙ (fire-db bolt json etag_gen (replaced bolt json etag_gen q u.old u.name u.db s)).1,
      )

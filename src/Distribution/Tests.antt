-- ===== src/Distribution/Tests.antt =====
-- Tests and instances for internal/api/distribution, over a bucket in memory.
use cf_local.Prelude.{◌≡◌, refl, true, none, some, Bytes, codes, ok, err, [], Dict, ◌∷◌, Distinct}
use cf_local.Storage.{Json}
use cf_local.Storage.Memory.{memory}
use cf_local.Distribution.{DistributionConfig}
use cf_local.Distribution.Store.{
  Record, already_exists, not_found, BoltStore, create, update, remove,
}
use cf_local.Distribution.Store.Registry.{Permits, create_call}
use cf_local.Distribution.Store.View.{view}
use cf_local.Distribution.Store.Refines.{perform, perform-Permits}

abbrev referred : Bytes → DistributionConfig
referred caller = record {
  caller_reference = some caller;
  enabled = some true;
  origins = none;
  cache_behaviors = none;
  default_cache_behavior = none;
}

abbrev coding : Json Record
coding = record { marshal = λ r. some r.id; unmarshal = λ b. none }

abbrev etag : DistributionConfig → Bytes
etag c = codes "etag"

abbrev Bolt : Type 0
Bolt = BoltStore memory coding etag

abbrev empty_store : Bolt
empty_store = record { db = ([], tt); by_id = []; by_caller = []; on_change = true; fired = 0 }

-- One distribution, made under the caller reference `a`.
abbrev one_store : Bolt
one_store =
    (create memory coding etag (some (referred (codes "a"))) (some (codes "E1")) 1 empty_store).1

-- The same distribution after an update that gives it the caller reference `b`.
abbrev updated_store : Bolt
updated_store =
    (update memory coding etag (codes "E1") (some (referred (codes "b"))) [] 2 one_store).1

repeat_refused :
    (create memory coding etag (some (referred (codes "a"))) (some (codes "E2")) 3 one_store).0
    ≡ err already_exists
unfolding create cf_local.Distribution.Store.create_for cf_local.Distribution.Store.fire
    cf_local.Distribution.Store.insert_new cf_local.Distribution.Store.put cf_local.Prelude.delete
    cf_local.Prelude.insert cf_local.Prelude.lookup cf_local.Prelude.equal
repeat_refused = refl

-- The old caller reference stays taken behind an update, and behind the deletion.
stale_refused :
    (create memory coding etag
      (some (referred (codes "a")))
      (some (codes "E2"))
      4
      (remove memory coding etag (codes "E1") [] updated_store).1).0
    ≡ err already_exists
unfolding cf_local.Distribution.Store.caller_of create cf_local.Distribution.Store.create_for
    cf_local.Distribution.Store.delete_key cf_local.Distribution.Store.fire
    cf_local.Distribution.Store.insert_new cf_local.Distribution.Store.put
    cf_local.Distribution.Store.release_caller remove cf_local.Distribution.Store.remove_record
    cf_local.Distribution.Store.replace update cf_local.Prelude.delete cf_local.Prelude.insert
    cf_local.Prelude.lookup cf_local.Prelude.equal
stale_refused = refl

removed_once :
    (remove memory coding etag
      (codes "E1")
      []
      (remove memory coding etag (codes "E1") [] one_store).1).0
    ≡ err not_found
unfolding cf_local.Distribution.Store.caller_of create cf_local.Distribution.Store.create_for
    cf_local.Distribution.Store.delete_key cf_local.Distribution.Store.fire
    cf_local.Distribution.Store.insert_new cf_local.Distribution.Store.put
    cf_local.Distribution.Store.release_caller remove cf_local.Distribution.Store.remove_record
    cf_local.Prelude.delete cf_local.Prelude.insert cf_local.Prelude.lookup cf_local.Prelude.equal
removed_once = refl

told_twice : updated_store.fired ≡ 2
unfolding create cf_local.Distribution.Store.create_for cf_local.Distribution.Store.fire
    cf_local.Distribution.Store.insert_new cf_local.Distribution.Store.put
    cf_local.Distribution.Store.replace update cf_local.Prelude.delete cf_local.Prelude.insert
    cf_local.Prelude.lookup cf_local.Prelude.equal
told_twice = refl

one_store-Distinct : Distinct one_store.by_id
unfolding create cf_local.Distribution.Store.create_for cf_local.Distribution.Store.fire
    cf_local.Distribution.Store.insert_new cf_local.Distribution.Store.put cf_local.Prelude.delete
    cf_local.Prelude.insert cf_local.Prelude.lookup cf_local.Prelude.equal
one_store-Distinct = (refl, tt)

perform-Permits_example :
    let c = create_call (some (referred (codes "b"))) (some (codes "E2")) 5 in
    let a = perform memory coding etag c one_store in
    Permits etag coding.marshal
      (view memory coding etag one_store)
      c
      a.0
      (view memory coding etag a.1)
    × Distinct a.1.by_id
perform-Permits_example =
    perform-Permits memory coding etag
      (create_call (some (referred (codes "b"))) (some (codes "E2")) 5) one_store one_store-Distinct

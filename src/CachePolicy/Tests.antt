-- ===== src/CachePolicy/Tests.antt =====
-- Tests and instances for internal/api/cachepolicy, over a bucket in memory.
use cf_local.Prelude.{
  ℕ, ◌+◌, ◌-◌, ◌≡◌, refl, ◌≢◌, ◌⊎◌, true, false, Option, none, some, List, [], ◌∷◌, arith,
  if◌then◌else◌, All, Bytes, codes, equal, lookup, delete, insert, ok, err,
}
use cf_local.Storage.{Json}
use cf_local.Storage.Memory.{memory}
use cf_local.Xml.CachePolicy.{
  CachePolicyConfigXml, SectionXml, config_to_sdk, config_from_sdk, tidy_parameters,
  config_from_sdk-to_sdk,
}
use cf_local.Validate.Policy.{CachePolicyConfig}
use cf_local.CachePolicy.Store.{
  Record, StoreError, already_exists, managed_immutable, not_found, type_custom, is_managed,
  BoltStore, create, get, update, remove,
}
use cf_local.CachePolicy.Store.Valid.{IsValid}
use cf_local.CachePolicy.Store.Create.{get-create_policy}
use cf_local.CachePolicy.Store.Update.Keeps.{get-update_policy}
use cf_local.CachePolicy.Store.Delete.{get-delete_policy}
use cf_local.CachePolicy.Managed.{managed_policies, seed_managed}
use cf_local.CachePolicy.Seed.{IsAbsent, seed_managed-IsValid}
use cf_local.CachePolicy.Handler.{handle_create, handle_update, handle_delete}
use cf_local.CachePolicy.Requests.{Refused, Stored}
use cf_local.CachePolicy.Requests.Create.{handle_create_outcome}
use cf_local.CachePolicy.Requests.Update.{handle_update_outcome}
use cf_local.CachePolicy.Requests.Delete.{Gone, handle_delete_outcome}

abbrev bare_xml : CachePolicyConfigXml
bare_xml = record {
  comment = [];
  default_ttl = some 60;
  max_ttl = none;
  min_ttl = 1;
  name = codes "one";
  parameters = none;
}

abbrev names_xml : SectionXml
names_xml = record {
  behavior = codes "whitelist";
  names = some (record { items = codes "a" ∷ codes "b" ∷ []; quantity = 7 });
}

abbrev full_xml : CachePolicyConfigXml
full_xml = record bare_xml {
  parameters = some (record {
    cookies = none;
    enable_accept_encoding_brotli = true;
    enable_accept_encoding_gzip = false;
    headers = some names_xml;
    query_strings = some (record { behavior = codes "none"; names = none });
  });
}

config_from_sdk-to_sdk_example :
    config_from_sdk (config_to_sdk full_xml)
    ≡ record full_xml { parameters = tidy_parameters full_xml.parameters }
config_from_sdk-to_sdk_example = config_from_sdk-to_sdk full_xml

abbrev named : Bytes → CachePolicyConfig
named n = record {
  comment = none;
  default_ttl = none;
  max_ttl = none;
  min_ttl = some 0;
  name = some n;
  parameters = none;
}

abbrev coding : Json Record
coding = record { marshal = λ r. some r.id; unmarshal = λ b. none }

abbrev etag : CachePolicyConfig → Bytes
etag c = codes "etag"

abbrev Bolt : Type 0
Bolt = BoltStore memory coding etag

abbrev empty_store : Bolt
empty_store = record { db = ([], tt); by_id = []; by_name = []; on_change = true; fired = 0 }

nothing : {V : Type 0} {v : V} (j : Bytes) → lookup j [] ≡ some v → ⊥
unfolding lookup
nothing j h = ground arith

empty_store-IsValid : IsValid memory coding etag empty_store
empty_store-IsValid = record {
  distinct = tt;
  distinct_names = tt;
  indexed = record {
    keyed = λ j r h. absurd (nothing j h);
    complete = λ j r h. absurd (nothing j h);
    sound = λ n j h. absurd (nothing n h);
  };
  mirrored = λ id. unfold lookup in refl;
}

abbrev record_of : Bytes → Bytes → ℕ → Record
record_of id n now = record {
  id = id;
  etag = codes "etag";
  config = some (named n);
  last_modified_time = now;
  kind = type_custom;
}

abbrev one_store : Bolt
one_store =
    (create memory coding etag (some (named (codes "one"))) (some (codes "E1")) 5 empty_store).1

one_created :
    create memory coding etag (some (named (codes "one"))) (some (codes "E1")) 5 empty_store
    ≡ (ok (record_of (codes "E1") (codes "one") 5), one_store)
unfolding create cf_local.CachePolicy.Store.create_named lookup
    cf_local.CachePolicy.Store.insert_new cf_local.CachePolicy.Store.put
one_created = refl

one_store-IsValid : IsValid memory coding etag one_store
one_store-IsValid =
    (get-create_policy memory coding etag (some (named (codes "one"))) (some (codes "E1")) 5
      empty_store (record_of (codes "E1") (codes "one") 5) one_store empty_store-IsValid
      (λ id h. unfold lookup in refl) one_created).0

get-create_policy_example :
    IsValid memory coding etag one_store
    × (some (codes "E1") ≡ some (codes "E1"))
    × (some (named (codes "one")) ≡ some (named (codes "one")))
    × (is_managed (record_of (codes "E1") (codes "one") 5) ≡ false)
    × (get memory coding etag (codes "E1") one_store ≡ ok (record_of (codes "E1") (codes "one") 5))
    × ((j : Bytes)
        → j ≢ codes "E1"
        → get memory coding etag j one_store ≡ get memory coding etag j empty_store)
    × (one_store.fired ≡ (if true then 0 + 1 else 0))
get-create_policy_example =
    get-create_policy memory coding etag (some (named (codes "one"))) (some (codes "E1")) 5
      empty_store (record_of (codes "E1") (codes "one") 5) one_store empty_store-IsValid
      (λ id h. unfold lookup in refl) one_created

duplicate_refused :
    create memory coding etag (some (named (codes "one"))) (some (codes "E2")) 6 one_store
    ≡ (err already_exists, one_store)
unfolding create cf_local.CachePolicy.Store.create_named lookup
    cf_local.CachePolicy.Store.insert_new cf_local.CachePolicy.Store.put
    cf_local.CachePolicy.Store.fire cf_local.Prelude.insert cf_local.Prelude.equal
duplicate_refused = refl

abbrev renamed_store : Bolt
renamed_store =
    (update memory coding etag (codes "E1") (some (named (codes "two"))) [] 7 one_store).1

renamed :
    update memory coding etag (codes "E1") (some (named (codes "two"))) [] 7 one_store
    ≡ (ok (record_of (codes "E1") (codes "two") 7), renamed_store)
unfolding update cf_local.CachePolicy.Store.update_named lookup create
    cf_local.CachePolicy.Store.create_named cf_local.CachePolicy.Store.insert_new
    cf_local.CachePolicy.Store.put cf_local.CachePolicy.Store.fire cf_local.Prelude.insert
    cf_local.Prelude.equal is_managed cf_local.CachePolicy.Store.is_taken cf_local.Prelude.delete
    cf_local.CachePolicy.Store.replace
renamed = refl

get-update_policy_example :
    IsValid memory coding etag renamed_store
    × (codes "E1" ≡ codes "E1")
    × (some (named (codes "two")) ≡ some (named (codes "two")))
    × (is_managed (record_of (codes "E1") (codes "two") 7) ≡ false)
    × (get memory coding etag (codes "E1") renamed_store
        ≡ ok (record_of (codes "E1") (codes "two") 7))
    × ((j : Bytes)
        → j ≢ codes "E1"
        → get memory coding etag j renamed_store ≡ get memory coding etag j one_store)
    × (renamed_store.fired ≡ (if one_store.on_change then one_store.fired + 1 else one_store.fired))
get-update_policy_example =
    get-update_policy memory coding etag (codes "E1") (some (named (codes "two"))) [] 7 one_store
      (record_of (codes "E1") (codes "two") 7) renamed_store one_store-IsValid renamed

update_missing :
    update memory coding etag (codes "E9") (some (named (codes "two"))) [] 7 one_store
    ≡ (err not_found, one_store)
unfolding update cf_local.CachePolicy.Store.update_named lookup create
    cf_local.CachePolicy.Store.create_named cf_local.CachePolicy.Store.insert_new
    cf_local.CachePolicy.Store.put cf_local.CachePolicy.Store.fire cf_local.Prelude.insert
    cf_local.Prelude.equal cf_local.Prelude.delete
update_missing = refl

abbrev deleted_store : Bolt
deleted_store = (remove memory coding etag (codes "E1") [] one_store).1

removed : remove memory coding etag (codes "E1") [] one_store ≡ (ok tt, deleted_store)
unfolding remove lookup create cf_local.CachePolicy.Store.create_named
    cf_local.CachePolicy.Store.insert_new cf_local.CachePolicy.Store.put
    cf_local.CachePolicy.Store.fire cf_local.Prelude.insert cf_local.Prelude.equal is_managed
    cf_local.CachePolicy.Store.remove_record cf_local.CachePolicy.Store.delete_key
removed = refl

get-delete_policy_example :
    IsValid memory coding etag deleted_store
    × ((r : Record) × (get memory coding etag (codes "E1") one_store ≡ ok r)
        × (is_managed r ≡ false))
    × (get memory coding etag (codes "E1") deleted_store ≡ err not_found)
    × ((j : Bytes)
        → j ≢ codes "E1"
        → get memory coding etag j deleted_store ≡ get memory coding etag j one_store)
    × (deleted_store.fired ≡ (if one_store.on_change then one_store.fired + 1 else one_store.fired))
get-delete_policy_example =
    get-delete_policy memory coding etag (codes "E1") [] one_store deleted_store one_store-IsValid
      removed

delete_missing : remove memory coding etag (codes "E9") [] one_store ≡ (err not_found, one_store)
unfolding remove lookup create cf_local.CachePolicy.Store.create_named
    cf_local.CachePolicy.Store.insert_new cf_local.CachePolicy.Store.put
    cf_local.CachePolicy.Store.fire cf_local.Prelude.insert cf_local.Prelude.equal
    cf_local.Prelude.delete
delete_missing = refl

absent : (r : Record) → IsAbsent memory coding etag empty_store r
absent r = (unfold lookup in refl, λ n h. unfold lookup in refl)

All-IsAbsent : (rs : List Record) → All (IsAbsent memory coding etag empty_store) rs
All-IsAbsent [] = tt
All-IsAbsent (r ∷ rs) = (absent r, All-IsAbsent rs)

seed_managed-IsValid_example :
    IsValid memory coding etag (seed_managed memory coding etag empty_store)
    × ((seed_managed memory coding etag empty_store).db ≡ ([], tt))
seed_managed-IsValid_example =
    seed_managed-IsValid memory coding etag empty_store empty_store-IsValid
      (All-IsAbsent (managed_policies etag))

abbrev decode : Bytes → Option CachePolicyConfigXml
decode b = some bare_xml

abbrev print : ℕ → Bytes
print n = n ∷ []

handle_create_outcome_example :
    Refused memory coding etag decode print empty_store (
      handle_create memory coding etag decode print
        (some (codes "x"))
        (some (codes "E1"))
        5
        empty_store)
    ⊎ Stored memory coding etag decode print 201
        (some (codes "E1"))
        (some (codes "x"))
        5
        empty_store
        (handle_create memory coding etag decode print
          (some (codes "x"))
          (some (codes "E1"))
          5
          empty_store)
handle_create_outcome_example =
    handle_create_outcome memory coding etag decode print (some (codes "x")) (some (codes "E1")) 5
      empty_store empty_store-IsValid (λ id h. unfold lookup in refl)

handle_update_outcome_example :
    Refused memory coding etag decode print one_store
      (handle_update memory coding etag decode print (codes "E1") [] (some (codes "x")) 8 one_store)
    ⊎ Stored memory coding etag decode print 200
        (some (codes "E1"))
        (some (codes "x"))
        8
        one_store
        (handle_update memory coding etag decode print
          (codes "E1")
          []
          (some (codes "x"))
          8
          one_store)
handle_update_outcome_example =
    handle_update_outcome memory coding etag decode print (codes "E1") [] (some (codes "x")) 8
      one_store one_store-IsValid

handle_delete_outcome_example :
    Refused memory coding etag decode print one_store
      (handle_delete memory coding etag decode print (codes "E1") [] one_store)
    ⊎ Gone memory coding etag decode print
        (codes "E1")
        one_store
        (handle_delete memory coding etag decode print (codes "E1") [] one_store)
handle_delete_outcome_example =
    handle_delete_outcome memory coding etag decode print (codes "E1") [] one_store
      one_store-IsValid

one_found :
    get memory coding etag (codes "E1") one_store ≡ ok (record_of (codes "E1") (codes "one") 5)
unfolding get lookup create cf_local.CachePolicy.Store.create_named
    cf_local.CachePolicy.Store.insert_new cf_local.CachePolicy.Store.put
    cf_local.CachePolicy.Store.fire insert equal
one_found = refl

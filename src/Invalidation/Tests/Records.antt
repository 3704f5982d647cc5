-- ===== src/Invalidation/Tests/Records.antt =====
-- Tests and instances for internal/api/invalidation: the store and the handler, over a bucket in
-- memory.
use cf_local.Prelude.{
  ℕ, ◌-◌, ◌*◌, ◌/◌, ◌<◌, ◌≡◌, refl, ◌≢◌, ◌↔◌, ◌⊎◌, true, Option, none, some, [], ◌∷◌, arith,
  if◌then◌else◌, length, take, Bytes, codes, equal, equal_iff, has_prefix, lookup, delete, insert,
  ok, Distinct-insert,
}
use cf_local.Prelude.Sort.{In}
use cf_local.Storage.{Json, RoundTrips}
use cf_local.Storage.Memory.{memory}
use cf_local.Invalidation.Matcher.{make_pattern}
use cf_local.Invalidation.Matcher.{is_rfc1738_unsafe}
use cf_local.Invalidation.Matcher.WellFormed.{WellFormed, plain, done}
use cf_local.Invalidation.Handler.{aws_max_body_bytes}
use cf_local.Invalidation.Store.{
  Batch, Paths, Record, StoreError, BoltStore, status_in_progress, status_completed, new_bolt_store,
  recover_in_progress, record_less,
}
use cf_local.Invalidation.Store as Records
use cf_local.Invalidation.Store.Valid.{IsValid}
use cf_local.Invalidation.Store.Status.{completed}
use cf_local.Invalidation.Store.Recover.{
  in_progress_count, IsReliable, recover_in_progress-completed, recover_in_progress_total,
}
use cf_local.Invalidation.Store.Restart.{get-create, new_bolt_store-restart}
use cf_local.Invalidation.Store.Listing.{list_iff, list_unique}
use cf_local.Invalidation.Handler.{BatchXml, InvalidationXml, Outcome, batch_to_sdk}
use cf_local.Invalidation.Handler as Handler
use cf_local.Invalidation.Handler.Pages.{parse_list_max_items}
use cf_local.Invalidation.Handler.Walk.{collect}
use cf_local.Invalidation.Handler.Create.{
  Accepted, Refused, IsAcceptable, create_cases, create_complete,
}
use cf_local.Invalidation.Handler.Bolt.{bolt_store, get-create_handler, collect-list}

abbrev purge_all : Batch
purge_all = record {
  caller_reference = some (codes "ref");
  paths = some (record { quantity = some 1; items = codes "/*" ∷ [] });
}

abbrev first : Record
first = record {
  id = codes "I1";
  distribution_id = codes "D";
  status = status_in_progress;
  create_time = 7;
  batch = some purge_all;
}

-- A coding that is right for `first` and its completed form.
abbrev coding : Json Record
coding = record {
  marshal = λ r. some (r.status);
  unmarshal = λ b.
      if equal b status_in_progress
      then some first
      else some (record first { status = status_completed });
}

abbrev Db : Type 0
Db = BoltStore memory coding

abbrev empty_store : Db
empty_store = record { db = ([], tt); by_id = [] }

empty-IsValid : IsValid memory coding empty_store
unfolding lookup
empty-IsValid = record { distinct = tt; good = λ id r e. cc; mirrored = λ id. refl }

abbrev one_store : Db
one_store = record {
  db = (
    insert (codes "I1") status_in_progress [],
    Distinct-insert (codes "I1") status_in_progress [] tt,
  );
  by_id = insert (codes "I1") first [];
}

created :
    Records.create memory coding (codes "D") (some purge_all) (some (codes "I1")) 7 empty_store
    ≡ ok (first, one_store)
unfolding Records.create Records.put equal
created = refl

get-create_example :
    IsValid memory coding one_store
    × (Records.get memory coding (codes "D") (codes "I1") one_store ≡ ok first)
    × (first.status ≡ status_in_progress)
    × ((d j : Bytes)
        → j ≢ codes "I1"
        → Records.get memory coding d j one_store ≡ Records.get memory coding d j empty_store)
get-create_example =
    get-create memory coding (codes "D") (some purge_all) (some (codes "I1")) 7 empty_store first
      one_store empty-IsValid created

one-IsValid : IsValid memory coding one_store
one-IsValid =
    (get-create memory coding (codes "D") (some purge_all) (some (codes "I1")) 7 empty_store first
      one_store empty-IsValid created).0

only_first : (id : Bytes) (r : Record) → lookup id one_store.by_id ≡ some r → r ≡ first
unfolding lookup insert delete
only_first id r e = ground arith

first-codes : (b : Bytes) → some status_in_progress ≡ some b → coding.unmarshal b ≡ some first
first-codes b e = ground (arith, equal_iff b status_in_progress)

first-RoundTrips :
    (id : Bytes) (r : Record) → lookup id one_store.by_id ≡ some r → RoundTrips coding r
first-RoundTrips id r e = rw (only_first id r e) first-codes

restarted :
    (t : Db) × (new_bolt_store memory coding one_store.db ≡ ok t)
    × ((id : Bytes) → lookup id t.by_id ≡ lookup id one_store.by_id)
    × IsValid memory coding t
restarted =
    new_bolt_store-restart memory coding one_store one_store.db one-IsValid first-RoundTrips refl

restart_example :
    (t : Db) × (new_bolt_store memory coding one_store.db ≡ ok t)
    × ((id : Bytes) → lookup id t.by_id ≡ lookup id one_store.by_id)
    × IsValid memory coding t
restart_example =
    new_bolt_store-restart memory coding one_store one_store.db one-IsValid first-RoundTrips refl

memory-IsReliable : IsReliable memory coding
memory-IsReliable = record {
  marshals = λ r. (r.status, refl);
  commits = λ k b d. ((insert k b d.0, Distinct-insert k b d.0 d.1), refl);
}

recovered :
    (t : Db) × (recover_in_progress memory coding one_store
      ≡ (ok (in_progress_count one_store.by_id), t))
    × ((j : Bytes) → lookup j t.by_id ≡ completed (lookup j one_store.by_id))
recovered = recover_in_progress_total memory coding one_store memory-IsReliable one-IsValid

recover_example :
    ((j : Bytes) → lookup j recovered.0.by_id ≡ completed (lookup j one_store.by_id))
    × (in_progress_count one_store.by_id ≡ in_progress_count one_store.by_id)
    × IsValid memory coding recovered.0
recover_example =
    recover_in_progress-completed memory coding one_store recovered.0
      (in_progress_count one_store.by_id) one-IsValid recovered.1

list_iff_example :
    In first (Records.list memory coding (codes "D") one_store)
    ↔ (Records.get memory coding (codes "D") (codes "I1") one_store ≡ ok first)
list_iff_example = list_iff memory coding (codes "D") one_store first one-IsValid

list_unique_example :
    Records.list memory coding (codes "D") restarted.0
    ≡ Records.list memory coding (codes "D") one_store
list_unique_example =
    list_unique memory coding (codes "D") restarted.0 one_store restarted.3 one-IsValid restarted.2

abbrev request : BatchXml
request = record { caller_reference = codes "ref"; paths = some (codes "/*" ∷ []) }

abbrev decode : Bytes → Option BatchXml
decode b = if equal b (codes "<x/>") then some request else none

abbrev time_text : ℕ → Bytes
time_text t = t ∷ []

abbrev made : Outcome Db
made =
    Handler.create (bolt_store memory coding) decode time_text true (codes "D")
      (some (codes "<x/>")) (some (codes "I1")) 7 empty_store

create_cases_example :
    Accepted
      (bolt_store memory coding)
      decode
      time_text
      true
      (codes "D")
      (some (codes "<x/>"))
      (some (codes "I1"))
      7
      empty_store
      made
    ⊎ Refused (bolt_store memory coding) decode time_text empty_store made
create_cases_example =
    create_cases (bolt_store memory coding) decode time_text true (codes "D") (some (codes "I1")) 7
      empty_store (some (codes "<x/>"))

slash_star-WellFormed : WellFormed (codes "/*")
slash_star-WellFormed = plain (omega arith) (plain (omega arith) done)

request-IsAcceptable : IsAcceptable request (codes "/*" ∷ [])
request-IsAcceptable = record {
  has_reference = λ e. cc e;
  has_paths = refl;
  some_path = λ e. cc e;
  valid_paths = (
    record { short = omega arith; rooted = (codes "*", refl); well_formed = slash_star-WellFormed },
    tt,
  );
}

decodes : decode (take aws_max_body_bytes (codes "<x/>")) ≡ some request
unfolding equal
decodes = refl

D_named : ◌≢◌ {A = Bytes} (codes "D") []
D_named e = cc e

create_complete_example :
    (made.response.status ≡ 201)
    × (made.state ≡ one_store)
    × (made.enqueued ≡ some (codes "I1", codes "/*" ∷ []))
unfolding batch_to_sdk
create_complete_example =
    create_complete (bolt_store memory coding) decode time_text true (codes "D") (some (codes "I1"))
      7 empty_store (codes "<x/>") request (codes "/*" ∷ []) first one_store D_named decodes
      request-IsAcceptable created

made_created : made.response.status ≡ 201
unfolding Handler.create Handler.store_batch Records.create Records.put equal batch_to_sdk
    Handler.check_batch Handler.any_refused cf_local.Invalidation.Matcher.parse_pattern
    cf_local.Prelude.has_prefix cf_local.Invalidation.Matcher.validate_chars
    cf_local.Invalidation.Matcher.scan cf_local.Invalidation.Matcher.byte_error is_rfc1738_unsafe
    Handler.items_of
made_created = refl

get-create_handler_example :
    Handler.get (bolt_store memory coding) decode time_text (codes "D") (codes "I1") made.state
    ≡ record { status = 200; body = made.response.body }
get-create_handler_example =
    get-create_handler (bolt_store memory coding) decode time_text true (codes "D") (codes "I1")
      (some (codes "<x/>")) 7 empty_store empty-IsValid (λ e. cc e) made_created

no_empty_id : lookup [] one_store.by_id ≡ none
unfolding lookup insert delete equal
no_empty_id = refl

collect-list_example :
    let records = Records.list memory coding (codes "D") one_store in
    collect (length records) records [] 50 ≡ records
collect-list_example =
    collect-list memory coding (codes "D") one_store 50 one-IsValid no_empty_id (omega arith)

page_size : parse_list_max_items (codes "250") ≡ some 100
unfolding parse_list_max_items equal cf_local.Prelude.Numbers.atoi
page_size = refl

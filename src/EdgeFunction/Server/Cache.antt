-- ===== src/EdgeFunction/Server/Cache.antt =====
-- internal/edgefunc/server.go: how long a binding is used without asking again.
use cf_local.Prelude.{
  ℕ, ◌+◌, ◌≤◌, ◌≡◌, refl, ◌≢◌, inl, inr, true, false, none, some, List, arith, ltb, Bool-cases,
  Bytes, lookup, insert, lookup-insert_self, lookup-insert_ne,
}
use cf_local.EdgeFunction.{EdgeFunction}
use cf_local.EdgeFunction.Server.{
  Entry, Cache, Resolved, find_by_event, is_expired, cached, resolve_functions, resolve_function,
}

asked :
    (ttl now later : ℕ) (functions : List EdgeFunction) (id : Bytes) (cache : Cache)
    → is_expired now (lookup id cache) ≡ true
    → resolve_functions ttl now later (some functions) id cache
      ≡ (functions, insert id (record { functions = functions; expires_at = later + ttl }) cache)
unfolding resolve_functions
asked ttl now later functions id cache e = rw e refl

fresh :
    (ttl now later : ℕ) (answer : Resolved) (id : Bytes) (cache : Cache) (entry : Entry)
    → lookup id cache ≡ some entry
    → now ≤ entry.expires_at
    → resolve_functions ttl now later answer id cache ≡ (entry.functions, cache)
unfolding resolve_functions is_expired cached
fresh ttl now later answer id cache entry e h =
    let t : ltb entry.expires_at now ≡ false = ground arith in
    rw (e, is_expired, cached) (rw (t, is_expired) refl)

-- Let the control plane answer a lookup of a distribution that is not in the cache, or whose entry is
-- expired, with some functions. Until the time to live is over, every later lookup of the
-- distribution finds the binding among these functions and leaves the cache as it is, whatever the
-- control plane would answer by then, and for every other distribution nothing is changed.
pub resolve_function-again :
    (ttl now later soon sooner : ℕ) (functions : List EdgeFunction) (answer : Resolved)
    (id event_type other_type : Bytes) (cache : Cache)
    → is_expired now (lookup id cache) ≡ true
    → soon ≤ later + ttl
    → let after = (resolve_function ttl now later (some functions) id event_type cache).1 in
      (resolve_function ttl soon sooner answer id other_type after
        ≡ (find_by_event functions other_type, after))
      × ((j : Bytes) → id ≢ j → lookup j after ≡ lookup j cache)
unfolding resolve_function
resolve_function-again ttl now later soon sooner functions answer id event_type other_type cache e
      h =
    let entry : Entry = record { functions = functions; expires_at = later + ttl } in
    let first = asked ttl now later functions id cache e in
    let again =
      fresh ttl soon sooner answer id (insert id entry cache) entry
        (lookup-insert_self id entry cache) h in
    rw first (rw again refl, λ j n. lookup-insert_ne id j entry cache n)

-- Where the control plane fails, the cache stays as it is, and what was found there last, expired or
-- not, is used; without an entry no function is found.
pub resolve_function-stale :
    (ttl now later : ℕ) (id event_type : Bytes) (cache : Cache)
    → resolve_function ttl now later none id event_type cache
      ≡ (find_by_event (cached (lookup id cache)) event_type, cache)
unfolding resolve_function resolve_functions
resolve_function-stale ttl now later id event_type cache =
    elim (Bool-cases (is_expired now (lookup id cache))) [ inl e ↦ rw e refl | inr e ↦ rw e refl ]

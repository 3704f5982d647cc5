-- ===== src/Invalidation/Tests.antt =====
-- Tests and instances for internal/invalidation: patterns, the cache walk and the worker.
pub mod Records
use cf_local.Prelude.{
  ◌+◌, ◌-◌, ◌*◌, ◌/◌, ◌%◌, ◌≡◌, refl, ◌↔◌, Bool, true, false, Option, none, some, List, [], ◌∷◌,
  ◌++◌, arith, length, keep, Bytes, codes, has_prefix, ok,
}
use cf_local.Prelude.Int.{pos}
use cf_local.Invalidation.Matcher.{
  Pattern, PathError, make_pattern, parse_pattern, matches, validate_chars, encoded_tilde,
  unsafe_char, incomplete_escape, byte_error,
}
use cf_local.Invalidation.Matcher.WellFormed.{WellFormed}
use cf_local.Invalidation.Matcher.Sound.{validate_chars_iff, FailsAt, validate_chars-FailsAt}
use cf_local.Invalidation.Matcher.Denotes.{
  IsValidPath, Denotes, parse_pattern_iff, parse_pattern-matches,
}
use cf_local.Invalidation.Cache.{
  Visit, Swept, not_exist, other_error, parse_cache_key_head, read_cache_key, purge,
}
use cf_local.Invalidation.Cache.Key.{HoldsKey, parse_cache_key_head_iff, read_cache_key-whole}
use cf_local.Invalidation.Cache.Sweep.{is_purged, reached, paths_onto, first_stop, purge_lem}
use cf_local.Invalidation.Worker.{
  Job, Worker, Channel, queue_capacity, ensured, enqueue, parse_paths, should_purge,
}
use cf_local.Invalidation.Worker.Selects.{Selects, should_purge_iff}
use cf_local.Invalidation.Worker.Queue.{
  System, Reach, IsValid, stay, next, accept, Reach-IsValid, Works, drain_lem,
}

abbrev images : Bytes
images = codes "/img/*"

abbrev images_pattern : Pattern
images_pattern = record { raw = images; literal = codes "/img/"; is_wildcard = true }

parse_images : parse_pattern images ≡ ok images_pattern
unfolding parse_pattern validate_chars make_pattern has_prefix cf_local.Invalidation.Matcher.scan
    byte_error cf_local.Invalidation.Matcher.is_rfc1738_unsafe
    cf_local.Invalidation.Matcher.ends_in_star cf_local.Invalidation.Matcher.trim_last
parse_images = refl

errors_found :
    (validate_chars (codes "/a%7eb") ≡ some encoded_tilde)
    × (validate_chars (codes "/a b") ≡ some (unsafe_char b' ' 2))
    × (validate_chars (codes "/ok%2") ≡ some (incomplete_escape 3))
unfolding validate_chars cf_local.Invalidation.Matcher.scan byte_error
    cf_local.Invalidation.Matcher.is_rfc1738_unsafe cf_local.Invalidation.Matcher.escape_error
    cf_local.Invalidation.Matcher.is_hex
errors_found = (refl, refl, refl)

validate_chars_iff_example : (validate_chars (codes "/a%20b") ≡ none) ↔ WellFormed (codes "/a%20b")
validate_chars_iff_example = validate_chars_iff (codes "/a%20b")

parse_pattern-matches_example :
    (matches images_pattern (codes "/img/x.png") ≡ true) ↔ Denotes images (codes "/img/x.png")
parse_pattern-matches_example =
    parse_pattern-matches images images_pattern (codes "/img/x.png") parse_images

abbrev cache_head : Bytes
cache_head = 3 ∷ 0 ∷ 10 ∷ (10 ∷ codes "KEY: ab:/img/x" ++ 10 ∷ codes "HTTP/1.1 200 OK")

head_read : read_cache_key (some cache_head) ≡ ok (codes "ab:/img/x")
unfolding read_cache_key parse_cache_key_head cf_local.Invalidation.Cache.index_of has_prefix
    cf_local.Invalidation.Cache.index_byte
head_read = refl

read_cache_key-whole_example : parse_cache_key_head cache_head ≡ ok (codes "ab:/img/x")
read_cache_key-whole_example = read_cache_key-whole cache_head (codes "ab:/img/x") head_read

abbrev cache_file : Bytes → Option Bytes → Visit
cache_file path contents = record {
  path = path;
  walk_error = none;
  cancelled = false;
  is_dir = false;
  contents = contents;
  removal = none;
}

abbrev visits : List Visit
visits =
    record {
      path = codes "/c";
      walk_error = none;
      cancelled = false;
      is_dir = true;
      contents = none;
      removal = none;
    }
    ∷ cache_file (codes "/c/1") (some cache_head)
    ∷ cache_file (codes "/c/2") none
    ∷ []

abbrev selects_images : Bytes → Bool
selects_images = should_purge (parse_paths (images ∷ []))

purge_run : (purge (codes "/c") selects_images visits).0.removed ≡ codes "/c/1" ∷ []
unfolding purge should_purge parse_paths parse_pattern validate_chars make_pattern matches
    read_cache_key parse_cache_key_head cf_local.Invalidation.Cache.walk
    cf_local.Invalidation.Cache.visit cf_local.Invalidation.Cache.visit_file
    cf_local.Invalidation.Cache.index_of has_prefix cf_local.Invalidation.Cache.index_byte
    cf_local.Invalidation.Matcher.scan byte_error cf_local.Invalidation.Matcher.is_rfc1738_unsafe
    cf_local.Invalidation.Matcher.ends_in_star cf_local.Invalidation.Matcher.trim_last
purge_run = refl

purge_example :
    let done =
      keep (is_purged (codes "/c") selects_images) (reached (codes "/c") selects_images visits) in
    ((purge (codes "/c") selects_images visits).0.purged ≡ length done)
    × ((purge (codes "/c") selects_images visits).0.removed ≡ paths_onto done [])
    × ((purge (codes "/c") selects_images visits).1 ≡ first_stop (codes "/c") selects_images visits)
purge_example = purge_lem (codes "/c") selects_images visits

should_purge_iff_example :
    (should_purge (parse_paths (images ∷ codes "bad" ∷ [])) (codes "ab:/img/x") ≡ true)
    ↔ Selects (images ∷ codes "bad" ∷ []) (codes "ab:/img/x")
should_purge_iff_example = should_purge_iff (images ∷ codes "bad" ∷ []) (codes "ab:/img/x")

abbrev job : Job
job = record { id = codes "I1"; paths = images ∷ [] }

abbrev idle : System
idle = record {
  worker = record { queue_size = pos 2; queue = none };
  accepted = [];
  processed = [];
  running = true;
}

idle-IsValid : IsValid idle
unfolding ensured
idle-IsValid = record { capacity_is = refl; bounded = omega arith; in_order = refl }

abbrev busy : System
busy = record idle { worker = (enqueue job idle.worker).0; accepted = job ∷ [] }

idle_to_busy : Reach idle busy
unfolding enqueue ensured
idle_to_busy = next stay (accept job refl refl)

busy-IsValid : IsValid busy
busy-IsValid = Reach-IsValid {s = idle} {t = busy} idle-IsValid idle_to_busy

Reach-IsValid_example : IsValid busy
Reach-IsValid_example = Reach-IsValid {s = idle} {t = busy} idle-IsValid idle_to_busy

drain_example :
    (t : System) × Works busy t
    × (t.processed ≡ job ∷ [])
    × (t.accepted ≡ job ∷ [])
    × ((ensured t.worker).jobs ≡ [])
    × (t.running ≡ true)
drain_example = drain_lem busy busy-IsValid refl

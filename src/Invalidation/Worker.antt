-- ===== src/Invalidation/Worker.antt =====
-- internal/invalidation/worker.go: the bounded queue and the processing of one job. The cache and
-- the status store are interfaces of the source, and are parameters here: functions on a world.
-- Log lines are left out.
pub mod Selects
pub mod Queue
use cf_local.Prelude.{
  ℕ, zero, suc, ◌+◌, Bool, true, false, Option, none, some, List, [], ◌∷◌, ◌++◌, ltb, if◌then◌else◌,
  length, drop, any, Bytes, codes, ok, err,
}
use cf_local.Prelude.Int.{ℤ, pos, negsuc}
use cf_local.Invalidation.Matcher.{Pattern, parse_pattern, matches}
use cf_local.Invalidation.Cache.{index_byte}

pub record Job : Type 0 where
  pub id : Bytes
  pub paths : List Bytes

abbrev pub status_completed : Bytes
status_completed = codes "Completed"

abbrev pub default_queue_size : ℕ
default_queue_size = 256

-- The loop over `job.Paths`: a path that does not parse is skipped.
unfoldable pub parse_paths : List Bytes → List Pattern
parse_paths [] = []
parse_paths (p ∷ rest) = elim (parse_pattern p) [
  | err _ ↦ parse_paths rest
  | ok pat ↦ pat ∷ parse_paths rest
]

-- The closure `shouldPurge`.
unfoldable pub should_purge : List Pattern → Bytes → Bool
should_purge patterns stored_key = elim (index_byte b':' stored_key) [
  | none ↦ false
  | some i ↦ any (λ p. matches p (drop (i + 1) stored_key)) patterns
]

-- `CachePurger` and `StatusUpdater` over a world `W`; the Boolean says that an error came back.
pub record Interfaces (W : Type 0) : Type 0 where
  pub purge : (Bytes → Bool) → W → W × ℕ × Bool
  pub update_status : Bytes → Bytes → W → W × Bool

-- `process`: an error of the purge is logged and the status is written all the same.
unfoldable pub process : {W : Type 0} → Interfaces W → Job → W → W
process i job w =
    (i.update_status job.id status_completed (i.purge (should_purge (parse_paths job.paths)) w).0).0

-- `queue` is `none` until `ensureQueue` has made the channel; then it holds the capacity and the
-- jobs that wait, oldest first.
pub record Channel : Type 0 where
  pub capacity : ℕ
  pub jobs : List Job

pub record Worker : Type 0 where
  pub queue_size : ℤ
  pub queue : Option Channel

-- `if size <= 0 { size = defaultQueueSize }`
unfoldable pub queue_capacity : ℤ → ℕ
queue_capacity (pos zero) = default_queue_size
queue_capacity (pos (suc n)) = suc n
queue_capacity (negsuc n) = default_queue_size

-- The channel after `ensureQueue`.
unfoldable pub ensured : Worker → Channel
unfolding queue_capacity
ensured w = elim w.queue [
  | none ↦ record { capacity = queue_capacity w.queue_size; jobs = [] }
  | some c ↦ c
]

unfoldable pub ensure_queue : Worker → Worker
ensure_queue w = record w { queue = some (ensured w) }

-- The send of `Enqueue`: it drops the job if the channel is full.
unfoldable pub enqueue : Job → Worker → Worker × Bool
unfolding ensure_queue
enqueue job w =
    let c = ensured w in
    if ltb (length c.jobs) c.capacity
    then (record w { queue = some (record c { jobs = c.jobs ++ job ∷ [] }) }, true)
    else (ensure_queue w, false)

-- The receive of `Run`: the oldest job, if one waits.
unfoldable pub receive : Worker → Option (Job × Worker)
receive w = elim (ensured w).jobs [
  | [] ↦ none
  | job ∷ rest ↦ some (job, record w { queue = some (record (ensured w) { jobs = rest }) })
]

-- ===== src/Nginx/Reloader.antt =====
-- internal/nginx/reloader.go: the loop that renders behind a pause. A step is one choice of the
-- `select` in `Run`, or what another goroutine does between: a store changes, and the change
-- callback calls `Trigger`. Time is not counted: an armed timer may fire at any later step.
pub mod Current
pub mod Settles
use cf_local.Prelude.{
  ℕ, ◌+◌, ◌-◌, Bool, true, false, ◌&&◌, Option, none, some, List, [], ◌∷◌, ltb, if◌then◌else◌,
  Bytes, codes, Dict, ok, err,
}
use cf_local.Nginx.Render.{LoadResult, Output, RenderError, PolicyOut, render}
use cf_local.Nginx.Writer.{Disk, Calls, WriteError, Trace, last_disk, write_atomic}

pub data ReloadError : Type 0 where
  fetch_nil : ReloadError
  render_failed : RenderError → ReloadError
  policies_failed conf_failed : WriteError → ReloadError

-- The system calls of the two files that one render writes.
pub record Answers : Type 0 where
  pub policies_calls : Calls
  pub conf_calls : Calls

-- `store` is what `fetch` returns now. `fetched` is what the last render has read: the program does
-- not keep it. `callers` are the changes whose callback has not called `Trigger` yet.
pub record State : Type 0 where
  pub store : Option LoadResult
  pub callers : ℕ
  pub trigger_pending : Bool
  pub debounce_armed : Bool
  pub running : Bool
  pub fetched : Option LoadResult
  pub disk : Disk
  pub last_err : Option ReloadError

pub data Event : Type 0 where
  -- A store commits a change, and its callback is about to run.
  changed : Option LoadResult → Event
  -- The callback calls Trigger.
  triggered : Event
  -- The loop takes the trigger, takes the tick, or sees that the context is done.
  received : Event
  fired : Answers → Event
  cancelled : Event

-- `Trigger`: a pending trigger stays the only one.
unfoldable pub trigger : State → State
trigger s = record s { trigger_pending = true }

abbrev pub policies_name : Bytes
policies_name = codes "policies.json"

abbrev pub conf_name : Bytes
conf_name = codes "cf-local.conf"

unfoldable pub write_conf : Calls → Option Bytes → Disk → Disk × Option ReloadError
write_conf calls none d = (d, none)
write_conf calls (some conf) d =
    let t = write_atomic calls conf_name conf d in
    (last_disk d t.disks, elim t.failure [ none ↦ none | some e ↦ some (conf_failed e) ])

unfoldable pub write_output : Answers → Output → Disk → Disk × Option ReloadError
write_output answers out d =
    let t = write_atomic answers.policies_calls policies_name out.policies d in
    elim t.failure [
      | some e ↦ (last_disk d t.disks, some (policies_failed e))
      | none ↦ write_conf answers.conf_calls out.conf (last_disk d t.disks)
    ]

module _ (encode : Dict PolicyOut → Option Bytes) (printable : ℕ → Bool) where
  -- The files and the error behind one render of what is fetched.
  unfoldable pub render_to : Answers → Option LoadResult → Disk → Disk × Option ReloadError
  render_to answers none d = (d, some fetch_nil)
  render_to answers (some res) d = elim (render encode printable (some res)) [
    | err e ↦ (d, some (render_failed e))
    | ok out ↦ write_output answers out d
  ]

  unfoldable pub reload : Answers → State → State
  reload answers s =
      let after = render_to answers s.store s.disk in
      record s { fetched = s.store; disk = after.0; last_err = after.1 }

  -- A step that cannot happen in the state is `none`. The select takes a ready channel; a nil timer
  -- channel is never ready.
  unfoldable pub step : Event → State → Option State
  step (changed store) s = some (record s { store = store; callers = s.callers + 1 })
  step triggered s =
      if ltb 0 s.callers then some (trigger (record s { callers = s.callers - 1 })) else none
  step received s =
      if s.running && s.trigger_pending
      then some (record s { trigger_pending = false; debounce_armed = true })
      else none
  step (fired answers) s =
      if s.running && s.debounce_armed
      then some (reload answers (record s { debounce_armed = false }))
      else none
  step cancelled s = if s.running then some (record s { running = false }) else none

  unfoldable pub run : List Event → State → Option State
  run [] s = some s
  run (e ∷ es) s = elim (step e s) [ none ↦ none | some t ↦ run es t ]

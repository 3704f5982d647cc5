-- ===== src/Nginx/Reloader/Current.antt =====
-- internal/nginx/reloader.go: no change is lost.
use cf_local.Prelude.{
  ℕ, ◌<◌, ◌≡◌, refl, ◌⊎◌, inl, inr, Bool, true, false, ◌&&◌, Option, none, some, List, [], ◌∷◌,
  arith, ltb, if◌then◌else◌, Option-cases, Bytes, Dict, some-injective,
}
use mathlib.Core.Path.{subst}
use cf_local.Nginx.Render.{PolicyOut}
use cf_local.Nginx.Writer.{Disk}
use cf_local.Nginx.Reloader.{
  Answers, State, Event, changed, triggered, received, fired, cancelled, trigger, render_to, reload,
  step, run,
}

pub guarded :
    (b : Bool) (t u : State) → (if b then some t else none) ≡ some u → (b ≡ true) × (t ≡ u)
guarded true t u h = (refl, cc)
guarded false t u h = cc

-- The loop has nothing left to do.
abbrev pub IsSettled : State → Type 0
IsSettled s = (s.callers ≡ 0) × (s.trigger_pending ≡ false) × (s.debounce_armed ≡ false)

module _ (encode : Dict PolicyOut → Option Bytes) (printable : ℕ → Bool) where
  -- What was fetched is the store as it is, and the files and the last error are those of one render
  -- of it.
  abbrev pub IsRendered : State → Type 0
  IsRendered s =
      (s.fetched ≡ s.store)
      × ((answers : Answers) × (before : Disk) × (render_to encode printable answers s.store before
            ≡ (s.disk, s.last_err)))

  -- While the loop runs, the store is rendered, or a render is on its way: a callback is about to
  -- trigger, a trigger is pending, or the timer is armed.
  abbrev IsCurrent : State → Type 0
  IsCurrent s =
      s.running ≡ true
      → IsRendered s ⊎ (0 < s.callers) ⊎ (s.trigger_pending ≡ true) ⊎ (s.debounce_armed ≡ true)

  -- Every step leads to such a state, from any state in which the loop runs.
  step-IsCurrent : (e : Event) (s t : State) → step encode printable e s ≡ some t → IsCurrent t
  unfolding step trigger reload
  step-IsCurrent (changed store) s t h =
      subst IsCurrent (some-injective h) (λ r. inr (inl (omega arith)))
  step-IsCurrent triggered s t h =
      let (b, e) = guarded (ltb 0 s.callers) _ t h in subst IsCurrent e (λ r. inr (inr (inl refl)))
  step-IsCurrent received s t h =
      let (b, e) = guarded (s.running && s.trigger_pending) _ t h in
      subst IsCurrent e (λ r. inr (inr (inr refl)))
  step-IsCurrent (fired answers) s t h =
      let (b, e) = guarded (s.running && s.debounce_armed) _ t h in
      subst IsCurrent e (λ r. inl (refl, (answers, s.disk, refl)))
  step-IsCurrent cancelled s t h =
      let (b, e) = guarded s.running _ t h in subst IsCurrent e (λ r. cc)

  pub run-cons :
      (e : Event) (es : List Event) (s t : State)
      → run encode printable (e ∷ es) s ≡ some t
      → (u : State) × (step encode printable e s ≡ some u) × (run encode printable es u ≡ some t)
  unfolding run
  run-cons e es s t h = elim (Option-cases (step encode printable e s)) [
    | inl n ↦ absurd (ground (arith, rw (n, run) at h))
    | inr (u, p) ↦ (u, p, rw (p, run) at h)
  ]

  run-IsCurrent :
      (es : List Event) (s t : State)
      → IsCurrent s
      → run encode printable es s ≡ some t
      → IsCurrent t
  unfolding run
  run-IsCurrent [] s t c h = subst IsCurrent (some-injective h) c
  run-IsCurrent (e ∷ es) s t c h =
      let (u, p, k) = run-cons e es s t h in run-IsCurrent es u t (step-IsCurrent e s u p) k

  -- Take any sequence of one or more changes, triggers, turns of the loop and answers of the
  -- operating system, from any state: also from the start of the program, where the store holds what
  -- was persisted and the reloader has not rendered it. Wherever the loop then runs and has nothing
  -- left to do (no callback on its way, no trigger pending, no timer armed), the files and the last
  -- error are those of one render of the store as it is now: no change is lost, however the triggers
  -- were dropped and the pauses extended. Nothing is said of a start behind which nothing happens.
  pub run_current :
      (e : Event) (es : List Event) (s t : State)
      → run encode printable (e ∷ es) s ≡ some t
      → t.running ≡ true
      → IsSettled t
      → (t.fetched ≡ t.store)
        × ((answers : Answers) × (before : Disk) × (render_to encode printable answers t.store
                before
              ≡ (t.disk, t.last_err)))
  run_current e es s t h running (c, p, a) =
      let (u, q, k) = run-cons e es s t h in
      elim (run-IsCurrent es u t (step-IsCurrent e s u q) k running) [
        | inl r ↦ r
        | inr (inl m) ↦ absurd (omega (arith, c, m))
        | inr (inr (inl b)) ↦ cc
        | inr (inr (inr b)) ↦ cc
      ]

-- ===== src/Nginx/Reloader/Settles.antt =====
-- internal/nginx/reloader.go: the loop settles, and renders no more often than it is triggered.
use cf_local.Prelude.{
  ℕ, suc, ◌+◌, ◌≤◌, ◌≡◌, refl, ◌∙◌, ◌⊎◌, inl, inr, Bool, true, false, ◌&&◌, Option, some, List, [],
  ◌∷◌, arith, ltb, Bool-cases, length, All, Bytes, Dict, some-injective,
}
use mathlib.Core.Path.{subst}
use cf_local.Nginx.Render.{PolicyOut}
use cf_local.Nginx.Reloader.{
  Answers, State, Event, changed, triggered, received, fired, cancelled, trigger, reload, step, run,
}
use cf_local.Nginx.Reloader.Current.{run-cons, guarded, IsSettled}

abbrev flag : Bool → ℕ
flag true = 1
flag false = 0

flag_bound : (b : Bool) → flag b ≤ 1
flag_bound true = omega arith
flag_bound false = omega arith

-- The renders among the events, and the triggers.
abbrev pub fires : List Event → ℕ
fires [] = 0
fires (fired answers ∷ es) = suc (fires es)
fires (_ ∷ es) = fires es

abbrev pub triggers : List Event → ℕ
triggers [] = 0
triggers (triggered ∷ es) = suc (triggers es)
triggers (_ ∷ es) = triggers es

-- The renders that are on their way.
abbrev pub waiting : State → ℕ
waiting s = flag s.trigger_pending + flag s.debounce_armed

-- What the loop does by itself: it takes a pending trigger, and lets the timer fire.
abbrev pub IsTurn : Event → Type 0
IsTurn e = (e ≡ received) ⊎ ((answers : Answers) × (e ≡ fired answers))

module _ (encode : Dict PolicyOut → Option Bytes) (printable : ℕ → Bool) where
  step-waiting :
      (e : Event) (s t : State)
      → step encode printable e s ≡ some t
      → fires (e ∷ []) + waiting t ≤ triggers (e ∷ []) + waiting s
  unfolding step trigger reload
  step-waiting (changed store) s t h =
      subst (λ x. 0 + waiting x ≤ 0 + waiting s) (some-injective h) (omega arith)
  step-waiting triggered s t h =
      let (b, e) = guarded (ltb 0 s.callers) _ t h in
      subst (λ x. 0 + waiting x ≤ 1 + waiting s) e (omega arith)
  step-waiting received s t h =
      let (b, e) = guarded (s.running && s.trigger_pending) _ t h in
      subst (λ x. 0 + waiting x ≤ 0 + waiting s) e (ground arith)
  step-waiting (fired answers) s t h =
      let (b, e) = guarded (s.running && s.debounce_armed) _ t h in
      subst (λ x. 1 + waiting x ≤ 0 + waiting s) e (ground arith)
  step-waiting cancelled s t h =
      let (b, e) = guarded s.running _ t h in
      subst (λ x. 0 + waiting x ≤ 0 + waiting s) e (omega arith)

  fires-cons : (e : Event) (es : List Event) → fires (e ∷ es) ≡ fires (e ∷ []) + fires es
  fires-cons (changed store) es = omega arith
  fires-cons triggered es = omega arith
  fires-cons received es = omega arith
  fires-cons (fired answers) es = omega arith
  fires-cons cancelled es = omega arith

  triggers-cons :
      (e : Event) (es : List Event) → triggers (e ∷ es) ≡ triggers (e ∷ []) + triggers es
  triggers-cons (changed store) es = omega arith
  triggers-cons triggered es = omega arith
  triggers-cons received es = omega arith
  triggers-cons (fired answers) es = omega arith
  triggers-cons cancelled es = omega arith

  -- In any run, the renders, with those that a pending trigger or an armed timer will cause, are at
  -- most the calls of Trigger, with those that were on their way at the start.
  pub fires_bounds :
      (es : List Event) (s t : State)
      → run encode printable es s ≡ some t
      → fires es + waiting t ≤ triggers es + waiting s
  unfolding run
  fires_bounds [] s t h =
      subst (λ x. 0 + waiting x ≤ 0 + waiting s) (some-injective h) (omega arith)
  fires_bounds (e ∷ es) s t h =
      let (u, p, k) = run-cons encode printable e es s t h in
      omega
        (arith, step-waiting e s u p, fires_bounds es u t k, fires-cons e es, triggers-cons e es)

  -- The turns that are still to come, at most: a pending trigger is one, and arms the timer.
  abbrev left : State → ℕ
  left s = flag s.trigger_pending + flag s.trigger_pending + flag s.debounce_armed

  -- What a turn keeps, and that it brings the end nearer.
  record Turned (s t : State) : Type 0 where
    nearer : suc (left t) ≤ left s
    same_store : t.store ≡ s.store
    same_callers : t.callers ≡ s.callers
    same_running : t.running ≡ s.running

  received-Turned : (s t : State) → step encode printable received s ≡ some t → Turned s t
  unfolding step
  received-Turned s t h =
      let (b, e) = guarded (s.running && s.trigger_pending) _ t h in
      subst (Turned s) e (record {
        nearer = ground arith;
        same_store = refl;
        same_callers = refl;
        same_running = refl;
      })

  fired-Turned :
      (answers : Answers) (s t : State)
      → step encode printable (fired answers) s ≡ some t
      → Turned s t
  unfolding step reload
  fired-Turned answers s t h =
      let (b, e) = guarded (s.running && s.debounce_armed) _ t h in
      subst (Turned s) e (record {
        nearer = ground arith;
        same_store = refl;
        same_callers = refl;
        same_running = refl;
      })

  turn-Turned :
      (e : Event) (s t : State) → IsTurn e → step encode printable e s ≡ some t → Turned s t
  turn-Turned e s t (inl x) h = received-Turned s t (rw x at h)
  turn-Turned e s t (inr (answers, x)) h = fired-Turned answers s t (rw x at h)

  -- With no callback on its way the loop has nothing left to do, or can take a turn.
  goes_on :
      (answers : Answers) (s : State)
      → s.running ≡ true
      → s.callers ≡ 0
      → IsSettled s ⊎ ((e : Event) × (u : State) × IsTurn e × (step encode printable e s ≡ some u))
  unfolding step
  goes_on answers s r c = elim (Bool-cases s.trigger_pending) [
    | inl p ↦ inr (
      received,
      record s { trigger_pending = false; debounce_armed = true },
      inl refl,
      ground arith,
    )
    | inr p ↦ elim (Bool-cases s.debounce_armed) [
      | inl a ↦ inr (
        fired answers,
        reload encode printable answers (record s { debounce_armed = false }),
        inr (answers, refl),
        ground arith,
      )
      | inr a ↦ inl (c, p, a)
    ]
  ]

  turns-bound :
      (es : List Event) (s t : State)
      → All IsTurn es
      → run encode printable es s ≡ some t
      → (length es + left t ≤ left s)
        × (t.store ≡ s.store)
        × (t.callers ≡ s.callers)
        × (t.running ≡ s.running)
  unfolding run
  turns-bound [] s t all h =
      subst
        (λ x.
          (0 + left x ≤ left s)
          × (x.store ≡ s.store)
          × (x.callers ≡ s.callers)
          × (x.running ≡ s.running))
        (some-injective h) (omega arith, refl, refl, refl)
  turns-bound (e ∷ es) s t all h =
      let (u, p, k) = run-cons encode printable e es s t h in
      let first = turn-Turned e s u all.0 p in
      let (n, st, ca, ru) = turns-bound es u t all.1 k in
      (
        omega (arith, n, first.nearer),
        st ∙ first.same_store,
        ca ∙ first.same_callers,
        ru ∙ first.same_running,
      )

  -- From a state in which the loop runs and the callbacks have triggered, any sequence of turns that
  -- the loop takes by itself has at most three, whichever ready channels `select` takes and whatever
  -- the system calls answer; and it leads to a state with the same store in which the loop runs and
  -- has nothing left to do, or can take a further turn. So the loop comes to rest.
  pub settles :
      (answers : Answers) (es : List Event) (s t : State)
      → s.running ≡ true
      → s.callers ≡ 0
      → All IsTurn es
      → run encode printable es s ≡ some t
      → (length es ≤ 3)
        × (t.store ≡ s.store)
        × (t.running ≡ true)
        × (IsSettled t
            ⊎ ((e : Event) × (u : State) × IsTurn e × (step encode printable e t ≡ some u)))
  settles answers es s t r c all h =
      let (n, st, ca, ru) = turns-bound es s t all h in
      (
        omega (arith, n, flag_bound s.trigger_pending, flag_bound s.debounce_armed),
        st,
        ru ∙ r,
        goes_on answers t (ru ∙ r) (ca ∙ c),
      )

-- ===== src/Invalidation/Worker/Queue.antt =====
-- `Enqueue` and `Run` of worker.go as a step relation: handlers enqueue at any time, the one
-- goroutine of `Run` receives while it runs, and cancelling its context ends it. Which of the ready
-- cases `select` takes is open.
use mathlib.Core.List.{append_assoc, append-nil}
use cf_local.Prelude.{
  ◌≤◌, ◌<◌, ◌≡◌, refl, sym, ap, ◌∙◌, ◌↔◌, inl, inr, Bool, true, false, some, List, [], ◌∷◌, ◌++◌,
  arith, ltb, ltb→lt, Bool-cases, length, length-append,
}
use cf_local.Invalidation.Worker.{
  Job, Worker, queue_capacity, ensured, ensure_queue, enqueue, receive,
}

-- Beside the worker's state: the jobs that `Enqueue` took and those that `Run` has processed, in
-- order, and whether `Run` still loops.
pub record System : Type 0 where
  pub worker : Worker
  pub accepted : List Job
  pub processed : List Job
  pub running : Bool

pub data Step (s : System) : System → Type 0 where
  accept :
      {t : System} (job : Job)
      → (enqueue job s.worker).1 ≡ true
      → t ≡ record s { worker = (enqueue job s.worker).0; accepted = s.accepted ++ job ∷ [] }
      → Step s t
  refuse :
      {t : System} (job : Job)
      → (enqueue job s.worker).1 ≡ false
      → t ≡ record s { worker = (enqueue job s.worker).0 }
      → Step s t
  work :
      {t : System} (job : Job) (w : Worker)
      → s.running ≡ true
      → receive s.worker ≡ some (job, w)
      → t ≡ record s { worker = w; processed = s.processed ++ job ∷ [] }
      → Step s t
  cancel : {t : System} → t ≡ record s { running = false } → Step s t

pub data Reach (s : System) : System → Type 0 where
  stay : Reach s s
  next : {t u : System} → Reach s t → Step t u → Reach s u

-- The worker's queue holds what was accepted and is not processed, in order, within its capacity.
pub record IsValid (s : System) : Type 0 where
  pub capacity_is : (ensured s.worker).capacity ≡ queue_capacity s.worker.queue_size
  pub bounded : length (ensured s.worker).jobs ≤ (ensured s.worker).capacity
  pub in_order : s.accepted ≡ s.processed ++ (ensured s.worker).jobs

enqueue_accept :
    (job : Job) (w : Worker)
    → (enqueue job w).1 ≡ true
    → (ensured (enqueue job w).0 ≡ record (ensured w) { jobs = (ensured w).jobs ++ job ∷ [] })
      × (length (ensured w).jobs < (ensured w).capacity)
      × ((enqueue job w).0.queue_size ≡ w.queue_size)
unfolding enqueue
enqueue_accept job w h = elim (Bool-cases (ltb (length (ensured w).jobs) (ensured w).capacity)) [
  | inl e ↦ rw e (unfold ensured in refl, ltb→lt _ _ e, refl)
  | inr e ↦ absurd (ground arith)
]

enqueue_refuse :
    (job : Job) (w : Worker)
    → (enqueue job w).1 ≡ false
    → (ensured (enqueue job w).0 ≡ ensured w)
      × ((ensured w).capacity ≤ length (ensured w).jobs)
      × ((enqueue job w).0.queue_size ≡ w.queue_size)
unfolding enqueue
enqueue_refuse job w h = elim (Bool-cases (ltb (length (ensured w).jobs) (ensured w).capacity)) [
  | inl e ↦ absurd (ground arith)
  | inr e ↦ rw e (unfold ensured ensure_queue in refl, ground arith, unfold ensure_queue in refl)
]

receive-some :
    (w w' : Worker) (job : Job)
    → receive w ≡ some (job, w')
    → ((ensured w).jobs ≡ job ∷ (ensured w').jobs)
      × ((ensured w').capacity ≡ (ensured w).capacity)
      × (w'.queue_size ≡ w.queue_size)
unfolding receive ensured
receive-some w w' job h = ground arith

receive_next :
    (w : Worker) (job : Job) (rest : List Job)
    → (ensured w).jobs ≡ job ∷ rest
    → (w' : Worker) × (receive w ≡ some (job, w')) × ((ensured w').jobs ≡ rest)
unfolding receive ensured
receive_next w job rest h =
    (record w { queue = some (record (ensured w) { jobs = rest }) }, rw (h, receive), refl)

Step-IsValid : {s t : System} → Step s t → IsValid s → IsValid t
Step-IsValid {s} (accept job h e) v =
    let (c, room, q) = enqueue_accept job s.worker h in
    rw e (record {
      capacity_is = rw (c, q) v.capacity_is;
      bounded = rw c (omega (arith, length-append (ensured s.worker).jobs (job ∷ [])));
      in_order = rw c (
          ap (λ (l : List Job). l ++ job ∷ []) v.in_order
          ∙ append_assoc s.processed (ensured s.worker).jobs (job ∷ []));
    })
Step-IsValid {s} (refuse job h e) v =
    let (c, full, q) = enqueue_refuse job s.worker h in
    rw e (record {
      capacity_is = rw (c, q) v.capacity_is;
      bounded = rw c v.bounded;
      in_order = rw c v.in_order;
    })
Step-IsValid {s} (work job w r h e) v =
    let (j, c, q) = receive-some s.worker w job h in
    rw e (record {
      capacity_is = rw (c, q) v.capacity_is;
      bounded = rw c (omega (arith, v.bounded, ap length j));
      in_order = v.in_order ∙ rw j (sym (append_assoc s.processed (job ∷ []) (ensured w).jobs));
    })
Step-IsValid (cancel e) v =
    rw e (record { capacity_is = v.capacity_is; bounded = v.bounded; in_order = v.in_order })

-- In every state that handlers and the loop of `Run` reach from a valid one, the queue is within its capacity, and
-- the accepted jobs are the processed ones followed by those that wait: none is lost, doubled or
-- overtaken.
pub Reach-IsValid : {s t : System} → IsValid s → Reach s t → IsValid t
Reach-IsValid v stay = v
Reach-IsValid v (next r st) = Step-IsValid st (Reach-IsValid v r)

-- What the loop of `Run` does with nothing else between: it receives a job and processes it.
pub data Works : System → System → Type 0 where
  rest : {s : System} → Works s s
  takes :
      {s t : System} (job : Job) (w : Worker)
      → s.running ≡ true
      → receive s.worker ≡ some (job, w)
      → Works (record s { worker = w; processed = s.processed ++ job ∷ [] }) t
      → Works s t

-- The state in which `Run` has worked off the queue of `s`.
pub record Drained (s t : System) : Type 0 where
  pub worked : Works s t
  pub all_processed : t.processed ≡ s.processed ++ (ensured s.worker).jobs
  pub same_accepted : t.accepted ≡ s.accepted
  pub nothing_waits : (ensured t.worker).jobs ≡ []
  pub still_running : t.running ≡ true

drain_jobs :
    (jobs : List Job) (s : System)
    → s.running ≡ true
    → (ensured s.worker).jobs ≡ jobs
    → (t : System) × Drained s t
drain_jobs [] s r e = (
  s,
  record {
    worked = rest;
    all_processed = rw e (sym (append-nil s.processed));
    same_accepted = refl;
    nothing_waits = e;
    still_running = r;
  },
)
drain_jobs (job ∷ jobs) s r e =
    let (w, received, left) = receive_next s.worker job jobs e in
    let s' = record s { worker = w; processed = s.processed ++ job ∷ [] } in
    let (t, d) = drain_jobs jobs s' r left in
    (
      t,
      record {
        worked = takes job w r received d.worked;
        all_processed = d.all_processed ∙ rw (left, e) (append_assoc s.processed (job ∷ []) jobs);
        same_accepted = d.same_accepted;
        nothing_waits = d.nothing_waits;
        still_running = d.still_running;
      },
    )

-- From a valid state in which `Run` loops, its receives alone, with no call of `Enqueue` and no
-- cancellation between, reach a state in which `Run` loops and nothing waits: the processed jobs are
-- then exactly the jobs that were accepted, in the order of acceptance.
pub drain_lem :
    (s : System)
    → IsValid s
    → s.running ≡ true
    → (t : System) × Works s t
      × (t.processed ≡ s.accepted)
      × (t.accepted ≡ s.accepted)
      × ((ensured t.worker).jobs ≡ [])
      × (t.running ≡ true)
drain_lem s v r =
    let (t, d) = drain_jobs (ensured s.worker).jobs s r refl in
    (
      t,
      d.worked,
      d.all_processed ∙ sym v.in_order,
      d.same_accepted,
      d.nothing_waits,
      d.still_running,
    )

-- In a valid state, `Enqueue` drops a job exactly when the queue holds as many jobs as its capacity, which is the
-- configured size, or 256 where that is not positive.
enqueue_full :
    (s : System) (job : Job)
    → IsValid s
    → ((enqueue job s.worker).1 ≡ false)
      ↔ (length (ensured s.worker).jobs ≡ queue_capacity s.worker.queue_size)
unfolding enqueue
enqueue_full s job v =
    (λ h. ground (arith, v.bounded, v.capacity_is), λ h. ground (arith, v.capacity_is))

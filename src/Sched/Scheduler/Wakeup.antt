-- ===== src/Sched/Scheduler/Wakeup.antt =====
-- generic/Scheduler.hh and Transients.hh: making threads, suspending and resuming them, and waking
-- those that wait for a future keeps every thread in its queue.
use aliceml_seam.Base.{
  ℕ, ◌<◌, ◌≡◌, ◌≢◌, arith, List, [], ◌∷◌, ◌++◌, true, false, ◌==◌, if◌then◌else◌, refl, ap, ◌⊎◌,
  ◌∙◌, append-nil, append_assoc, Bool-cases, inl, inr,
}
use aliceml_seam.Sched.Thread.{Thread, Args, runnable}
use aliceml_seam.Sched.Transients.{Cell, future, waiters_of}
use aliceml_seam.Sched.Scheduler.{
  Scheduler, set_cell, new_thread, wakeup_thread, suspend_thread, resume_thread, schedule_waiting,
  bind_future,
}
use aliceml_seam.Sched.Scheduler.Invariant.{count, count-append, count-erase, names, waits_on, Inv}

-- A new thread is ready, and waits in the queue.
pub new_thread-Inv : (s : Scheduler) (n : ℕ) (a : Args) → Inv s → Inv (new_thread s n a)
unfolding new_thread
new_thread-Inv s n a v = record {
  queued = λ t. ground (
    arith,
    v.queued t,
    v.unborn t,
    v.current_runs t,
    count-append t s.queue (s.next_thread ∷ []),
  );
  waiting = λ f t. ground (arith, v.waiting f t, v.unborn t);
  current_runs = λ t h. ground (arith, v.current_runs t, v.unborn t);
  has_future = λ t h. ground (arith, v.has_future t);
  unborn = λ t h. ground (arith, v.unborn t);
}

-- A thread other than the current one is suspended.
pub suspend_thread-Inv :
    (s : Scheduler) (t : ℕ) → Inv s → names s.current t ≡ false → Inv (suspend_thread s t)
unfolding suspend_thread
suspend_thread-Inv s t v other = record {
  queued = λ u. ground (arith, v.queued u, count-erase u t s.queue);
  waiting = λ f u. ground (arith, v.waiting f u);
  current_runs = λ u h. ground (arith, v.current_runs u);
  has_future = λ u h. ground (arith, v.has_future u);
  unborn = λ u h. ground (arith, v.unborn u);
}

-- A suspended thread is resumed.
pub resume_thread-Inv : (s : Scheduler) (t : ℕ) → Inv s → Inv (resume_thread s t)
unfolding resume_thread
resume_thread-Inv s t v = record {
  queued = λ u. ground (arith, v.queued u, v.current_runs u, count-append u s.queue (t ∷ []));
  waiting = λ f u. ground (arith, v.waiting f u);
  current_runs = λ u h. ground (arith, v.current_runs u);
  has_future = λ u h. ground (arith, v.has_future u);
  unborn = λ u h. ground (arith, v.unborn u);
}

cell_left :
    (s : Scheduler) (f t : ℕ) (ts : List ℕ)
    → (wakeup_thread (record s { cells = set_cell s.cells f (future ts) }) t).cells f ≡ future ts
unfolding wakeup_thread
cell_left s f t ts = ground arith

module _ (s : Scheduler) (f t : ℕ) (ts : List ℕ) (v : Inv s) (e : s.cells f ≡ future (t ∷ ts)) where
  -- `WakeupThread` asserts this of its thread.
  first_waits : waits_on (s.threads t) f ≡ true
  first_waits = ground (arith, ap waiters_of e, v.waiting f t)

  wake_first-Inv : Inv (wakeup_thread (record s { cells = set_cell s.cells f (future ts) }) t)
  unfolding wakeup_thread
  wake_first-Inv = record {
    queued = λ u.
        ground (arith, first_waits, v.queued u, v.current_runs u, count-append u s.queue (t ∷ []));
    waiting = λ g u. ground (arith, first_waits, v.waiting g u, v.waiting f u);
    current_runs = λ u h. ground (arith, first_waits, v.current_runs u);
    has_future = λ u h. ground (arith, v.has_future u);
    unborn = λ u h. ground (arith, first_waits, v.unborn u);
  }

-- What `ScheduleWaitingThreads` reads of the store: nothing but the wait queue of its future.
schedule_waiting-Inv :
    (f : ℕ) (ts : List ℕ) (s : Scheduler)
    → Inv s
    → s.cells f ≡ future ts
    → Inv (schedule_waiting f ts s) × ((schedule_waiting f ts s).cells f ≡ future [])
unfolding schedule_waiting
schedule_waiting-Inv f [] s v e = (v, e)
schedule_waiting-Inv f (t ∷ ts) s v e =
    schedule_waiting-Inv f ts _ (wake_first-Inv s f t ts v e) (cell_left s f t ts)

-- Binding or cancelling a future wakes its threads and keeps every thread in its queue.
pub bind_future-Inv :
    (s : Scheduler) (f : ℕ) (ts : List ℕ) (c : Cell)
    → Inv s
    → s.cells f ≡ future ts
    → waiters_of c ≡ []
    → Inv (bind_future s f ts c)
unfolding bind_future
bind_future-Inv s f ts c v e empty =
    let (w, left) = schedule_waiting-Inv f ts s v e in
    record {
      queued = w.queued;
      waiting = λ g u. ground (arith, w.waiting g u, w.waiting f u, ap waiters_of left, empty);
      current_runs = w.current_runs;
      has_future = w.has_future;
      unborn = w.unborn;
    }

-- The threads of a list that are not suspended.
pub awake : (ℕ → Thread) → List ℕ → List ℕ
awake threads [] = []
awake threads (t ∷ ts) = if (threads t).is_suspended then awake threads ts else t ∷ awake threads ts

awake_congr :
    (a b : ℕ → Thread) (ts : List ℕ)
    → ((t : ℕ) → (a t).is_suspended ≡ (b t).is_suspended)
    → awake a ts ≡ awake b ts
unfolding awake
awake_congr a b [] h = refl
awake_congr a b (t ∷ ts) h = ground (arith, h t, awake_congr a b ts h)

-- What waking one thread changes.
module _ (s : Scheduler) (f t : ℕ) (ts : List ℕ) where
  abbrev first_woken : Scheduler
  first_woken = wakeup_thread (record s { cells = set_cell s.cells f (future ts) }) t

  queue-first_woken :
      first_woken.queue ≡ (if (s.threads t).is_suspended then s.queue else s.queue ++ (t ∷ []))
  unfolding wakeup_thread
  queue-first_woken = ground arith

  is_suspended-first_woken :
      (u : ℕ) → (first_woken.threads u).is_suspended ≡ (s.threads u).is_suspended
  unfolding wakeup_thread
  is_suspended-first_woken u = ground arith

  threads-first_woken :
      (u : ℕ)
      → ((t ≡ u) × ((first_woken.threads u).state ≡ runnable))
        ⊎ ((t ≢ u) × (first_woken.threads u ≡ s.threads u))
  unfolding wakeup_thread
  threads-first_woken u = elim (Bool-cases (t == u)) [
    | inl e ↦ inl (ground arith, ground arith)
    | inr e ↦ inr (ground arith, ground arith)
  ]

-- The woken threads that are not suspended join the thread queue in the order in which they
-- waited; every waiting thread is runnable afterwards, and no other thread is changed.
pub schedule_waiting_refines :
    (f : ℕ) (ts : List ℕ) (s : Scheduler)
    → let r = schedule_waiting f ts s in
      (r.queue ≡ s.queue ++ awake s.threads ts)
      × ((t : ℕ) → (r.threads t).is_suspended ≡ (s.threads t).is_suspended)
      × ((t : ℕ) → 0 < count t ts → (r.threads t).state ≡ runnable)
      × ((t : ℕ) → count t ts ≡ 0 → r.threads t ≡ s.threads t)
unfolding schedule_waiting awake
schedule_waiting_refines f [] s = (rw append-nil, λ t. refl, λ t h. elim h [ ], λ t h. refl)
schedule_waiting_refines f (t ∷ ts) s =
    let one = first_woken s f t ts in
    let (queue, suspended, woken, others) = schedule_waiting_refines f ts one in
    let same = awake_congr one.threads s.threads ts (is_suspended-first_woken s f t ts) in
    (
      ground (
        arith,
        queue,
        same,
        queue-first_woken s f t ts,
        append_assoc s.queue (t ∷ []) (awake s.threads ts),
      ),
      λ u. suspended u ∙ is_suspended-first_woken s f t ts u,
      λ u h. ground (arith, woken u, others u, threads-first_woken s f t ts u),
      λ u h. ground (arith, others u, threads-first_woken s f t ts u),
    )

cells-first_woken :
    (s : Scheduler) (f t : ℕ) (ts : List ℕ) (g : ℕ)
    → g ≢ f
    → (first_woken s f t ts).cells g ≡ s.cells g
unfolding wakeup_thread
cells-first_woken s f t ts g ne = ground arith

cells-schedule_waiting :
    (f : ℕ) (ts : List ℕ) (s : Scheduler) (g : ℕ)
    → g ≢ f
    → (schedule_waiting f ts s).cells g ≡ s.cells g
unfolding schedule_waiting
cells-schedule_waiting f [] s g ne = refl
cells-schedule_waiting f (t ∷ ts) s g ne =
    cells-schedule_waiting f ts (first_woken s f t ts) g ne ∙ cells-first_woken s f t ts g ne

-- No other cell changes.
pub cells-bind_future :
    (s : Scheduler) (f : ℕ) (ts : List ℕ) (c : Cell) (g : ℕ)
    → (bind_future s f ts c).cells g ≡ (if f == g then c else s.cells g)
unfolding bind_future
cells-bind_future s f ts c g = ground (arith, cells-schedule_waiting f ts s g)

-- ===== src/Sched/Scheduler/Reach.antt =====
-- generic/Scheduler.cc: the runs of the scheduler as steps, and what holds in every state of a run.
use aliceml_seam.Base.{ℕ, ◌≡◌, arith, List, [], ◌∷◌, none, some, subst, false, ap}
use aliceml_seam.Store.Block.{zero_word}
use aliceml_seam.Sched.Thread.{Thread, State, Args, runnable, blocked, terminated, value}
use aliceml_seam.Sched.Thread
use aliceml_seam.Sched.Transients.{Cell, future, cancelled, waiters_of}
use aliceml_seam.Sched.Transients.Deref.{IsUnbound}
use aliceml_seam.Sched.Scheduler.{
  Scheduler, set_cell, new_thread, suspend_thread, resume_thread, bind_future, switch_to_thread,
  interpret, Result, Outcome,
}
use aliceml_seam.Sched.Scheduler.Result.{request}
use aliceml_seam.Sched.Scheduler.Outcome.{running, raising, next, exits, error}
use aliceml_seam.Sched.Scheduler.Invariant.{count, names, Inv}
use aliceml_seam.Sched.Scheduler.Wakeup.{
  new_thread-Inv, suspend_thread-Inv, resume_thread-Inv, bind_future-Inv,
}
use aliceml_seam.Sched.Scheduler.Results.{set_cell-Inv, interpret-Keeps, Keeps}

-- No thread and no transient has been made.
abbrev pub start : Scheduler
start = record {
  threads = λ t. record (Thread.new 0 (value zero_word)) { state = terminated };
  next_thread = 0;
  queue = [];
  current = none;
  cells = λ i. cancelled 0;
  nargs = 0;
  regs = λ i. zero_word;
}

-- The steps of `Run`, and those that workers, handlers and signals make through the scheduler's
-- functions while it runs. A cell without waiting threads may become another one: a transient is
-- made, a hole gets its future, or one that nobody waits for is bound.
pub data Step : Scheduler → Scheduler → Type 0 where
  dispatches :
      {s : Scheduler} (t : ℕ) (ts : List ℕ)
      → s.current ≡ none
      → s.queue ≡ t ∷ ts
      → Step s (switch_to_thread (record s { queue = ts }) t)
  proceeds :
      {s : Scheduler} (r : Result) (c : ℕ) (s' : Scheduler)
      → s.current ≡ some c
      → ((i : ℕ) → r ≡ request i → IsUnbound (s.cells i))
      → interpret r s c ≡ next s'
      → Step s s'
  spawns : {s : Scheduler} (n : ℕ) (a : Args) → Step s (new_thread s n a)
  suspends : {s : Scheduler} (t : ℕ) → names s.current t ≡ false → Step s (suspend_thread s t)
  resumes : {s : Scheduler} (t : ℕ) → Step s (resume_thread s t)
  becomes :
      {s : Scheduler} (i : ℕ) (c : Cell)
      → waiters_of (s.cells i) ≡ []
      → waiters_of c ≡ []
      → Step s (record s { cells = set_cell s.cells i c })
  binds :
      {s : Scheduler} (f : ℕ) (ts : List ℕ) (c : Cell)
      → s.cells f ≡ future ts
      → waiters_of c ≡ []
      → Step s (bind_future s f ts c)

pub data Reach (s : Scheduler) : Scheduler → Type 0 where
  here : Reach s s
  then_step : {t u : Scheduler} → Reach s t → Step t u → Reach s u

start-Inv : Inv start
unfolding Thread.new
start-Inv = record {
  queued = λ t. ground arith;
  waiting = λ f t. ground arith;
  current_runs = λ t h. ground arith;
  has_future = λ t h. ground arith;
  unborn = λ t h. ground arith;
}

dispatches-Inv :
    (s : Scheduler) (t : ℕ) (ts : List ℕ)
    → Inv s
    → s.current ≡ none
    → s.queue ≡ t ∷ ts
    → Inv (switch_to_thread (record s { queue = ts }) t)
unfolding switch_to_thread
dispatches-Inv s t ts v e q = record {
  queued = λ u. ground (arith, v.queued u, v.queued t, ap (count u) q, ap (count t) q);
  waiting = v.waiting;
  current_runs = λ u h. ground (arith, v.queued u, v.queued t, ap (count t) q);
  has_future = v.has_future;
  unborn = v.unborn;
}

proceeds-Inv : (s s' : Scheduler) (o : Outcome) → Keeps s o → o ≡ next s' → Inv s'
proceeds-Inv s s' (running r) k e = absurd (cc)
proceeds-Inv s s' (raising r) k e = absurd (cc)
proceeds-Inv s s' (next r) k e = let same : r ≡ s' = cc in subst Inv same k.0
proceeds-Inv s s' (exits r) k e = absurd (cc)
proceeds-Inv s s' error k e = absurd k

Step-Inv : {s u : Scheduler} → Step s u → Inv s → Inv u
Step-Inv {s = s} (dispatches t ts e q) v = dispatches-Inv s t ts v e q
Step-Inv {s = s} (proceeds r c s' e u q) v =
    proceeds-Inv s s' (interpret r s c) (interpret-Keeps r s c v e u) q
Step-Inv {s = s} (spawns n a) v = new_thread-Inv s n a v
Step-Inv {s = s} (suspends t h) v = suspend_thread-Inv s t v h
Step-Inv {s = s} (resumes t) v = resume_thread-Inv s t v
Step-Inv {s = s} (becomes i c old new) v = set_cell-Inv s i c v old new
Step-Inv {s = s} (binds f ts c e new) v = bind_future-Inv s f ts c v e new

-- In every state that a run from the start comes to, each thread stands in the thread queue once
-- if it is runnable, not suspended and not current, and else not at all; it stands once in the
-- wait queue of the future that it is blocked on and in no other wait queue; the current thread is
-- runnable and not suspended.
pub Reach-Inv : {s : Scheduler} → Reach start s → Inv s
Reach-Inv here = start-Inv
Reach-Inv (then_step r st) = Step-Inv st (Reach-Inv r)

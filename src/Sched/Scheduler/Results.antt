-- ===== src/Sched/Scheduler/Results.antt =====
-- generic/Scheduler.cc: what `Run` does with each result of a worker.
use aliceml_seam.Base.{ℕ, ◌≡◌, arith, List, [], ◌∷◌, none, some, refl, ◌∙◌, ap}
use aliceml_seam.Store.Block.{zero_word}
use aliceml_seam.Sched.Thread.{
  Thread, State, Args, runnable, blocked, terminated, value, set_terminated, suspend, set_args,
}
use aliceml_seam.Sched.Thread
use aliceml_seam.Sched.Transients.{Cell, hole, future, cancelled, byneed, reference, waiters_of}
use aliceml_seam.Sched.Transients.Deref.{IsUnbound}
use aliceml_seam.Sched.Scheduler.{
  Scheduler, set_cell, new_thread, flush_thread, preempt, suspend_current, terminate, block_on,
  Result, Outcome, request_cell, interpret, schedule_thread,
}
use aliceml_seam.Sched.Scheduler.Result.{
  continue, preempts, suspends, raise, reraise, terminates, exit, request,
}
use aliceml_seam.Sched.Scheduler.Outcome.{running, raising, next, exits, error}
use aliceml_seam.Sched.Scheduler.Invariant.{count-append, Inv}
use aliceml_seam.Sched.Scheduler.Wakeup.{new_thread-Inv}

current-preempt : (s : Scheduler) (c : ℕ) → (preempt s c).current ≡ none
unfolding preempt
current-preempt s c = refl

current-suspend_current : (s : Scheduler) (c : ℕ) → (suspend_current s c).current ≡ none
unfolding suspend_current
current-suspend_current s c = refl

current-terminate : (s : Scheduler) (c : ℕ) → (terminate s c).current ≡ none
unfolding terminate
current-terminate s c = refl

current-block_on : (s : Scheduler) (c i : ℕ) (ts : List ℕ) → (block_on s c i ts).current ≡ none
unfolding block_on
current-block_on s c i ts = refl

current-new_thread : (s : Scheduler) → (new_thread s 0 (value zero_word)).current ≡ s.current
unfolding new_thread
current-new_thread s = refl

cells-new_thread : (s : Scheduler) (i : ℕ) → (new_thread s 0 (value zero_word)).cells i ≡ s.cells i
unfolding new_thread
cells-new_thread s i = refl

set_cell_self : (cells : ℕ → Cell) (i : ℕ) (c : Cell) → set_cell cells i c i ≡ c
set_cell_self cells i c = ground arith

module _ (s : Scheduler) (c : ℕ) (v : Inv s) (e : s.current ≡ some c) where
  preempt-Inv : Inv (preempt s c)
  unfolding preempt flush_thread schedule_thread Thread.set_args
  preempt-Inv = record {
    queued = λ t. ground (arith, v.queued t, v.current_runs t, count-append t s.queue (c ∷ []));
    waiting = λ f t. ground (arith, v.waiting f t);
    current_runs = λ t h. ground arith;
    has_future = λ t h. ground (arith, v.has_future t);
    unborn = λ t h. ground (arith, v.unborn t);
  }

  suspend_current-Inv : Inv (suspend_current s c)
  unfolding suspend_current flush_thread Thread.set_args Thread.suspend
  suspend_current-Inv = record {
    queued = λ t. ground (arith, v.queued t, v.current_runs t);
    waiting = λ f t. ground (arith, v.waiting f t);
    current_runs = λ t h. ground arith;
    has_future = λ t h. ground (arith, v.has_future t);
    unborn = λ t h. ground (arith, v.unborn t);
  }

  terminate-Inv : Inv (terminate s c)
  unfolding terminate flush_thread Thread.set_args Thread.set_terminated
  terminate-Inv = record {
    queued = λ t. ground (arith, v.queued t, v.current_runs t);
    waiting = λ f t. ground (arith, v.waiting f t, v.current_runs t);
    current_runs = λ t h. ground arith;
    has_future = λ t h. ground (arith, v.has_future t);
    unborn = λ t h. ground (arith, v.unborn t);
  }

  block_on-Inv : (i : ℕ) (ts : List ℕ) → s.cells i ≡ future ts → Inv (block_on s c i ts)
  unfolding block_on flush_thread Thread.set_args Thread.block_on
  block_on-Inv i ts cell = record {
    queued = λ t. ground (arith, v.queued t, v.current_runs t);
    waiting = λ f t. ground (
      arith,
      v.waiting f t,
      v.waiting i t,
      v.current_runs t,
      ap waiters_of cell,
      count-append t ts (c ∷ []),
    );
    current_runs = λ t h. ground arith;
    has_future = λ t h. ground (arith, v.has_future t);
    unborn = λ t h. ground (arith, v.unborn t, v.current_runs t);
  }

-- A cell with no waiting thread may become another such cell.
pub set_cell-Inv :
    (s : Scheduler) (i : ℕ) (c : Cell)
    → Inv s
    → waiters_of (s.cells i) ≡ []
    → waiters_of c ≡ []
    → Inv (record s { cells = set_cell s.cells i c })
set_cell-Inv s i c v old new = record {
  queued = v.queued;
  waiting = λ f t. ground (arith, v.waiting f t, v.waiting i t, old, new);
  current_runs = v.current_runs;
  has_future = v.has_future;
  unborn = v.unborn;
}

-- What the code promises of each way to go on.
abbrev pub Keeps : Scheduler → Outcome → Type 0
Keeps s (running r) = r ≡ s
Keeps s (raising r) = r ≡ s
Keeps s (next r) = Inv r × (r.current ≡ none)
Keeps s (exits r) = r ≡ s
Keeps s error = ⊥

request_cell-Keeps :
    (s : Scheduler) (c i : ℕ) (cell : Cell)
    → Inv s
    → s.current ≡ some c
    → s.cells i ≡ cell
    → IsUnbound cell
    → Keeps s (request_cell cell i s c)
unfolding request_cell
request_cell-Keeps s c i (hole f) v e q u = refl
request_cell-Keeps s c i (cancelled w) v e q u = refl
request_cell-Keeps s c i (reference r) v e q u = u r refl
request_cell-Keeps s c i (future ts) v e q u =
    (block_on-Inv s c v e i ts q, current-block_on s c i ts)
request_cell-Keeps s c i (byneed w) v e q u =
    let n = new_thread s 0 (value zero_word) in
    let spawned = new_thread-Inv s 0 (value zero_word) v in
    let cleared =
      set_cell-Inv n i (future []) spawned (ap waiters_of (cells-new_thread s i ∙ q)) refl in
    let emptied : Scheduler = record n { cells = set_cell n.cells i (future []) } in
    (
      block_on-Inv emptied c cleared (current-new_thread s ∙ e) i []
          (set_cell_self n.cells i (future [])),
      current-block_on emptied c i [],
    )

-- For every result of a worker, in a state with the invariant and a current thread, and when a
-- requested transient is not bound: the switch of Run either ends the turn of the thread in a
-- state with the invariant and no current thread, or goes on, raises or leaves in the same state,
-- and never ends in an error.
pub interpret-Keeps :
    (r : Result) (s : Scheduler) (c : ℕ)
    → Inv s
    → s.current ≡ some c
    → ((i : ℕ) → r ≡ request i → IsUnbound (s.cells i))
    → Keeps s (interpret r s c)
unfolding interpret
interpret-Keeps continue s c v e u = refl
interpret-Keeps preempts s c v e u = (preempt-Inv s c v e, current-preempt s c)
interpret-Keeps suspends s c v e u = (suspend_current-Inv s c v e, current-suspend_current s c)
interpret-Keeps raise s c v e u = refl
interpret-Keeps reraise s c v e u = refl
interpret-Keeps (request i) s c v e u = request_cell-Keeps s c i (s.cells i) v e refl (u i refl)
interpret-Keeps terminates s c v e u = (terminate-Inv s c v e, current-terminate s c)
interpret-Keeps exit s c v e u = refl

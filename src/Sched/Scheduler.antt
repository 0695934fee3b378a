-- ===== src/Sched/Scheduler.antt =====
-- generic/Scheduler.cc and Scheduler.hh with the parts of generic/Transients.hh that wake threads.
-- Threads and transients are known by numbers. The thread queue and the wait queues stand here as
-- the lists of their items, which `ThreadQueue.run_refines` relates to the arrays. Task stacks and
-- what a worker computes are not part of this state: a worker is known by the result it returns.
pub mod Invariant
pub mod Wakeup
pub mod Results
pub mod Reach
pub mod Safety
use aliceml_seam.Base.{
  ℕ, ◌+◌, List, [], ◌∷◌, ◌++◌, Option, none, some, Bool, true, false, ◌||◌, ◌>>=◌, ◌==◌,
  if◌then◌else◌,
}
use aliceml_seam.Store.Block.{Word, zero_word}
use aliceml_seam.Adt.Queue.Erase.{erase}
use aliceml_seam.Sched.Thread
use aliceml_seam.Sched.Thread.{Thread, State, runnable, blocked, terminated, Args, value}
use aliceml_seam.Sched.Transients.{
  Value, transient, determined, Cell, hole, future, cancelled, byneed, reference,
}
use aliceml_seam.Sched.Transients.Deref.{bind, deref}

-- `nargs` and `regs` are the argument registers. `current` is `none` between two threads.
pub record Scheduler : Type 0 where
  pub threads : ℕ → Thread
  pub next_thread : ℕ
  pub queue : List ℕ
  pub current : Option ℕ
  pub cells : ℕ → Cell
  pub nargs : ℕ
  pub regs : ℕ → Word

abbrev pub is_runnable : State → Bool
is_runnable runnable = true
is_runnable _ = false

abbrev pub is_blocked : State → Bool
is_blocked blocked = true
is_blocked _ = false

abbrev pub set_thread : (ℕ → Thread) → ℕ → Thread → ℕ → Thread
set_thread threads t th u = if t == u then th else threads u

abbrev pub set_cell : (ℕ → Cell) → ℕ → Cell → ℕ → Cell
set_cell cells i c j = if i == j then c else cells j

unfoldable pub schedule_thread : Scheduler → ℕ → Scheduler
schedule_thread s t = record s { queue = s.queue ++ (t ∷ []) }

-- `NewThread`: the thread is runnable and stands in the queue.
unfoldable pub new_thread : Scheduler → ℕ → Args → Scheduler
unfolding schedule_thread Thread.new
new_thread s n a =
    schedule_thread
      (record s {
        threads = set_thread s.threads s.next_thread (Thread.new n a);
        next_thread = s.next_thread + 1;
      })
      s.next_thread

unfoldable pub wakeup_thread : Scheduler → ℕ → Scheduler
unfolding schedule_thread Thread.wakeup
wakeup_thread s t =
    let woken : Scheduler = record s {
      threads = set_thread s.threads t (Thread.wakeup (s.threads t));
    } in
    if (s.threads t).is_suspended then woken else schedule_thread woken t

unfoldable pub suspend_thread : Scheduler → ℕ → Scheduler
unfolding Thread.suspend
suspend_thread s t = record s {
  threads = set_thread s.threads t (Thread.suspend (s.threads t));
  queue = if is_runnable (s.threads t).state then erase t s.queue else s.queue;
}

unfoldable pub resume_thread : Scheduler → ℕ → Scheduler
unfolding schedule_thread Thread.resume
resume_thread s t =
    let resumed : Scheduler = record s {
      threads = set_thread s.threads t (Thread.resume (s.threads t));
    } in
    if (s.threads t).is_suspended
    then (if is_runnable (s.threads t).state then schedule_thread resumed t else resumed)
    else s

-- `ScheduleWaitingThreads`, over the threads that the future's wait queue holds.
unfoldable pub schedule_waiting : ℕ → List ℕ → Scheduler → Scheduler
schedule_waiting f [] s = s
schedule_waiting f (t ∷ ts) s =
    schedule_waiting f ts (wakeup_thread (record s { cells = set_cell s.cells f (future ts) }) t)

-- `SwitchToThread`
unfoldable pub switch_to_thread : Scheduler → ℕ → Scheduler
switch_to_thread s t = record s {
  current = some t;
  nargs = (s.threads t).nargs;
  regs = Thread.load_args (s.threads t).nargs (s.threads t).args s.regs;
}

-- `FlushThread`, of the thread `c` that is current.
unfoldable pub flush_thread : Scheduler → ℕ → Scheduler
flush_thread s c = record s {
  threads =
      set_thread s.threads c
        (Thread.set_args (s.threads c) s.nargs (Thread.flush_args s.nargs s.regs));
}

-- The end of a thread's turn.
abbrev pub leave : Scheduler → Scheduler
leave s = record s { current = none }

unfoldable pub preempt : Scheduler → ℕ → Scheduler
preempt s c = leave (schedule_thread (flush_thread s c) c)

unfoldable pub suspend_current : Scheduler → ℕ → Scheduler
suspend_current s c =
    let f = flush_thread s c in
    leave (record f { threads = set_thread f.threads c (Thread.suspend (f.threads c)) })

unfoldable pub terminate : Scheduler → ℕ → Scheduler
terminate s c =
    let f = flush_thread s c in
    leave (record f { threads = set_thread f.threads c (Thread.set_terminated (f.threads c)) })

-- The current thread waits for the future `i`, which holds the wait queue `ts`.
unfoldable pub block_on : Scheduler → ℕ → ℕ → List ℕ → Scheduler
block_on s c i ts =
    let f = flush_thread s c in
    leave (record f {
      cells = set_cell f.cells i (future (ts ++ (c ∷ [])));
      threads = set_thread f.threads c (Thread.block_on (f.threads c) i);
    })

-- `Worker::Result`; `request` names the transient of `currentData`, dereferenced.
pub data Result : Type 0 where
  continue preempts suspends raise reraise terminates exit : Result
  request : ℕ → Result

-- How the loop goes on: with the same thread, with the exception handler of the same thread, with
-- the next thread, out of `Run`, or into `Error`.
pub data Outcome : Type 0 where
  running raising next exits : Scheduler → Outcome
  error : Outcome

unfoldable pub request_cell : Cell → ℕ → Scheduler → ℕ → Outcome
request_cell (hole f) i s c = raising s
request_cell (future ts) i s c = next (block_on s c i ts)
request_cell (cancelled w) i s c = raising s
request_cell (byneed w) i s c =
    let spawned = new_thread s 0 (value zero_word) in
    next (block_on (record spawned { cells = set_cell spawned.cells i (future []) }) c i [])
request_cell (reference v) i s c = error

-- The `switch` of `Scheduler::Run`.
unfoldable pub interpret : Result → Scheduler → ℕ → Outcome
interpret continue s c = running s
interpret preempts s c = next (preempt s c)
interpret suspends s c = next (suspend_current s c)
interpret raise s c = raising s
interpret reraise s c = raising s
interpret (request i) s c = request_cell (s.cells i) i s c
interpret terminates s c = next (terminate s c)
interpret exit s c = exits s

-- `ScheduleWaitingThreads` of a future with this wait queue, and `Become`.
unfoldable pub bind_future : Scheduler → ℕ → List ℕ → Cell → Scheduler
bind_future s f ts c =
    let woken = schedule_waiting f ts s in record woken { cells = set_cell woken.cells f c }

-- The transient that a value refers to is `i`.
abbrev pub refers_to : Value → ℕ → Bool
refers_to (transient t) i = t == i
refers_to (determined w) i = false

-- What `WordToTransient(GetArg())` finds of a hole: no future, or a future and its wait queue. `none`
-- is a round of `Deref` too many, or another transient where these two are expected.
unfoldable pub associated : ℕ → (ℕ → Cell) → ℕ → Option (Option (ℕ × List ℕ))
unfolding deref
associated fuel cells h = elim (cells h) [
  | hole none ↦ some none
  | hole (some g) ↦ elim (deref fuel cells (transient g)) [
    | none ↦ none
    | some (determined w) ↦ some none
    | some (transient f) ↦ elim (cells f) [ future ts ↦ some (some (f, ts)) | _ ↦ none ]
  ]
  | _ ↦ none
]

-- The hole, and the future that it holds, are bound to the value as it is given. `t` is the value
-- behind its references.
abbrev pub fill_with : Scheduler → ℕ → Value → (t : Value) → Option (ℕ × List ℕ) → Bool × Scheduler
fill_with s h v t none = (true, record s { cells = set_cell s.cells h (reference v) })
fill_with s h v t (some (f, ts)) =
    if refers_to t f
    then (false, s)
    else (let bound = bind_future s f ts (reference v) in
        (true, record bound { cells = set_cell bound.cells h (reference v) }))

-- What `Hole::Fill` does with a value that refers to the hole, and with another.
abbrev pub fill_unless : ℕ → Scheduler → ℕ → Value → (t : Value) → Bool → Option (Bool × Scheduler)
fill_unless fuel s h v t true = some (false, s)
fill_unless fuel s h v t false = do a ← associated fuel s.cells h; some (fill_with s h v t a)

-- `Hole::Fill`. A cyclic binding is refused.
unfoldable pub fill : ℕ → Scheduler → ℕ → Value → Option (Bool × Scheduler)
unfolding associated bind_future
fill fuel s h v = do t ← deref fuel s.cells v; fill_unless fuel s h v t (refers_to t h)

abbrev pub fail_with : Scheduler → ℕ → Word → Option (ℕ × List ℕ) → Scheduler
fail_with s h exn none = record s { cells = set_cell s.cells h (cancelled exn) }
fail_with s h exn (some (f, ts)) =
    let bound = bind_future s f ts (cancelled exn) in
    record bound { cells = set_cell bound.cells h (cancelled exn) }

-- `Hole::Fail`, with the package of the exception.
unfoldable pub fail : ℕ → Scheduler → ℕ → Word → Option Scheduler
unfolding associated bind_future
fail fuel s h exn = do a ← associated fuel s.cells h; some (fail_with s h exn a)

-- ===== src/Tests/Sched.antt =====
-- Instances of the theorems about the scheduler, along one run: thread 0 requests a future, thread 1
-- runs, and the future is bound through its hole.
use aliceml_seam.Base.{
  ℕ, ◌+◌, ◌-◌, ◌≢◌, ◌≡◌, refl, arith, List, [], ◌∷◌, none, some, subst, ◌==◌, if◌then◌else◌,
}
use aliceml_seam.Store.Block.{Word, zero_word}
use aliceml_seam.Sched.Thread
use aliceml_seam.Sched.Thread.{Thread, State, Args, value, blocked, load_args-flush_args}
use aliceml_seam.Sched.ThreadQueue
use aliceml_seam.Sched.ThreadQueue.{
  Call, enqueues, removes, dequeues, run, run_list, run_refines, run-new,
}
use aliceml_seam.Sched.Transients.{Value, transient, determined, Cell, hole, future, reference}
use aliceml_seam.Sched.Transients.Deref.{
  deref, bind, Ranked, IsDereferenced, IsAcyclic, IsUnbound, deref_total, bind-IsAcyclic,
}
use aliceml_seam.Sched.Scheduler.{
  Scheduler, new_thread, schedule_thread, switch_to_thread, flush_thread, request_cell, set_cell,
  block_on, interpret,
}
use aliceml_seam.Sched.Scheduler.Result.{request}
use aliceml_seam.Sched.Scheduler.Invariant.{Inv}
use aliceml_seam.Sched.Scheduler.Results.{Keeps, interpret-Keeps}
use aliceml_seam.Sched.Scheduler.Reach.{
  start, Reach, Reach-Inv, here, then_step, spawns, becomes, dispatches, proceeds,
}
use aliceml_seam.Sched.TaskStack.{Frames}
use aliceml_seam.Sched.Handlers
use aliceml_seam.Sched.Handlers.{HandlerStack, trying, handling}
use aliceml_seam.Sched.Handlers.Entries

abbrev spawned : Scheduler
spawned = new_thread (new_thread start 0 (value zero_word)) 0 (value zero_word)

-- The hole 8 with its future 9.
abbrev with_future : Scheduler
with_future = record spawned { cells = set_cell spawned.cells 9 (future []) }

abbrev with_hole : Scheduler
with_hole = record with_future { cells = set_cell with_future.cells 8 (hole (some 9)) }

with_hole-Reach : Reach start with_hole
unfolding new_thread schedule_thread Thread.new
with_hole-Reach =
    then_step
      (then_step
        (then_step (then_step here (spawns 0 (value zero_word))) (spawns 0 (value zero_word)))
        (becomes {s = spawned} 9 (future []) refl refl))
      (becomes {s = with_future} 8 (hole (some 9)) refl refl)

abbrev first_runs : Scheduler
first_runs = switch_to_thread (record with_hole { queue = 1 ∷ [] }) 0

first_runs-Reach : Reach start first_runs
unfolding new_thread schedule_thread Thread.new
first_runs-Reach = then_step with_hole-Reach (dispatches {s = with_hole} 0 (1 ∷ []) refl refl)

future_IsUnbound : IsUnbound (first_runs.cells 9)
unfolding switch_to_thread new_thread schedule_thread
future_IsUnbound v e = cc

requests_future : (i : ℕ) → request 9 ≡ request i → IsUnbound (first_runs.cells i)
requests_future i e =
    let same : 9 ≡ i = cc in subst (λ k. IsUnbound (first_runs.cells k)) same future_IsUnbound

abbrev first_waits : Scheduler
first_waits = block_on first_runs 0 9 []

first_waits-Reach : Reach start first_waits
unfolding new_thread schedule_thread switch_to_thread interpret request_cell block_on flush_thread
first_waits-Reach =
    then_step first_runs-Reach
      (proceeds {s = first_runs} (request 9) 0 first_waits refl requests_future refl)

Reach-Inv_example : Inv first_waits
Reach-Inv_example = Reach-Inv first_waits-Reach

first_is_blocked : (first_waits.threads 0).state ≡ blocked
unfolding block_on flush_thread Thread.block_on Thread.set_state
first_is_blocked = refl

second_is_queued : first_waits.queue ≡ 1 ∷ []
unfolding block_on flush_thread switch_to_thread
second_is_queued = refl

waits_for_future : first_waits.cells 9 ≡ future (0 ∷ [])
unfolding block_on flush_thread
waits_for_future = refl

interpret-Keeps_example : Keeps first_runs (interpret (request 9) first_runs 0)
unfolding switch_to_thread
interpret-Keeps_example =
    interpret-Keeps (request 9) first_runs 0 (Reach-Inv first_runs-Reach) refl requests_future

-- The value is a reference to the number 7.
abbrev with_reference : Scheduler
with_reference = record first_waits {
  cells = set_cell first_waits.cells 3 (reference (determined 7));
}

holds_future : first_waits.cells 8 ≡ hole (some 9)
unfolding block_on flush_thread switch_to_thread
holds_future = refl

-- The ninth thread makes the array of eight cells grow.
abbrev nine_calls : List Call
nine_calls =
    enqueues 1
    ∷ enqueues 2
    ∷ enqueues 3
    ∷ enqueues 4
    ∷ enqueues 5
    ∷ removes 3
    ∷ enqueues 6
    ∷ enqueues 7
    ∷ enqueues 8
    ∷ enqueues 9
    ∷ dequeues
    ∷ []

run-new_example : run ThreadQueue.new nine_calls ≡ run_list [] nine_calls
run-new_example = run-new nine_calls

abbrev chain : ℕ → Cell
chain i = if i == 9 then future [] else if i == 8 then reference (transient 9) else hole none

chain-Ranked : Ranked (λ i. 9 - i) chain
chain-Ranked i j e = ground arith

deref_total_example : (r : Value) × (deref 3 chain (transient 8) ≡ some r) × IsDereferenced chain r
deref_total_example = deref_total 3 chain (λ i. 9 - i) (transient 8) chain-Ranked (omega arith)

nine_IsDereferenced : IsDereferenced chain (transient 9)
nine_IsDereferenced i e v =
    let same : 9 ≡ i = cc in subst (λ k. chain k ≢ reference v) same (λ q. cc)

bind-IsAcyclic_example : IsAcyclic (bind chain 7 (transient 9))
bind-IsAcyclic_example =
    bind-IsAcyclic chain 7 (transient 9) (λ i. 9 - i, chain-Ranked) nine_IsDereferenced
      (λ e. absurd (cc))

abbrev registers : ℕ → Word
registers i = 100 + i

-- Two handlers, of which the newer one is being handled.
abbrev handler_words : ℕ → Word
handler_words i = if i == 4 then handling else if i == 1 then trying else 40 + i

abbrev two_handlers : HandlerStack
two_handlers = record { active = 6; size = 10; words = handler_words }

two_handlers-IsValid : Entries.IsValid two_handlers
unfolding Entries.IsValid
two_handlers-IsValid = (refl, omega arith, omega arith)

push_handler_refines_example :
    Entries.IsValid (Handlers.push_handler two_handlers 12 7)
    × (Entries.handlers (Handlers.push_handler two_handlers 12 7)
        ≡ record { frame = 12; state = trying; payload = 7 } ∷ Entries.handlers two_handlers)
push_handler_refines_example = Entries.push_handler_refines two_handlers 12 7 two_handlers-IsValid

activate_next_handler_refines_example :
    Entries.listed (Handlers.activate_next_handler two_handlers 7)
    ≡ Entries.activate_list 7 (Entries.handlers two_handlers)
activate_next_handler_refines_example = Entries.activate_next_handler_refines two_handlers 7 refl

-- A full stack of twenty words.
abbrev full_frames : Frames
full_frames = record { stack = record { size = 20; words = registers }; top = 19 }

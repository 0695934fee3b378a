-- ===== src/Sched/TaskStack.antt =====
-- generic/TaskStack.cc with the stack functions of generic/Scheduler.hh: the words of a task stack
-- and its growth. `GetBase` points at the word that keeps the active size, so that the words are
-- counted from there.
pub mod Growth
use aliceml_seam.Base.{
  ℕ, zero, suc, ◌+◌, ◌-◌, ◌*◌, ◌/◌, Option, none, some, ltb, leb, if◌then◌else◌,
}
use aliceml_seam.Store.Block.{Word, max_bigblocksize, translate_size, fresh_word, write, memcpy}

abbrev pub max_dynblocksize : ℕ
max_dynblocksize = max_bigblocksize - 1

-- The block of a task stack: `GetSize`, one less than its words.
pub record TaskStack : Type 0 where
  pub size : ℕ
  pub words : ℕ → Word

-- `TaskStack::New`, with the word of the empty task. The active size is 1.
unfoldable pub new : Word → ℕ → TaskStack
new empty_task size = record {
  size = translate_size (size + 1) - 1;
  words = write (write (λ _. fresh_word) 0 1) 1 empty_task;
}

-- The size that `Enlarge` asks for; `none` is the overflow of the stack.
unfoldable pub enlarged_size : ℕ → Option ℕ
enlarged_size size =
    if ltb max_dynblocksize (size * 3 / 2)
    then (if ltb size max_dynblocksize then some max_dynblocksize else none)
    else some (size * 3 / 2)

unfoldable pub enlarge : Word → TaskStack → Option TaskStack
unfolding new
enlarge empty_task t = elim (enlarged_size t.size) [
  | none ↦ none
  | some size ↦
      let fresh = new empty_task size in
      some (record fresh { words = memcpy 0 t.words 0 t.size fresh.words })
]

-- The current task stack with `stackTop` as a distance from the base; `stackMax` is at its size.
pub record Frames : Type 0 where
  pub stack : TaskStack
  pub top : ℕ

-- How the loop of `PushFrame` ends: with the top raised, or with the overflow of the stack.
pub data Push : Type 0 where
  pushed : Frames → Push
  overflow : Push

-- `Scheduler::PushFrame` with the `EnlargeTaskStack` of its loop. `none` is one round too many.
unfoldable pub push_frame : ℕ → Word → Frames → ℕ → Option Push
push_frame zero empty_task s size = none
push_frame (suc fuel) empty_task s size =
    if ltb (s.top + size) s.stack.size
    then some (pushed (record s { top = s.top + size }))
    else elim (enlarge empty_task s.stack) [
      | none ↦ some overflow
      | some bigger ↦ push_frame fuel empty_task (record s { stack = bigger }) size
    ]

-- `Scheduler::PopFrame` of a frame of known size.
unfoldable pub pop_frame : Frames → ℕ → Frames
pop_frame s size = record s { top = s.top - size }

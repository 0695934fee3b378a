-- ===== src/Pickle/Frame.antt =====
-- generic/Unpickler.cc: `UnpickleFrame`, the locals and the stack of the `UnpickleWorker`.
use aliceml_seam.Base.{
  ℕ, zero, suc, ◌+◌, ◌-◌, List, [], ◌∷◌, Option, none, some, ltb, ◌==◌, if◌then◌else◌,
}
use aliceml_seam.Pickle.Heap.{Value, posint}

-- The arguments from `SIZE` on, first the locals and then the stack. `top` is `TOP_POS` less `SIZE`,
-- `size` the number of these arguments.
pub record Frame : Type 0 where
  pub slots : ℕ → Value
  pub top : ℕ
  pub size : ℕ

-- `UnpickleFrame::New`
unfoldable pub new : ℕ → ℕ → Frame
new stack_size locals = record { slots = λ i. posint 0; top = locals; size = stack_size + locals }

unfoldable pub put : ℕ → Value → Frame → Frame
put i v f = record f { slots = λ j. if j == i then v else f.slots j }

-- The operations; `none` is an access outside of the arguments, which nothing checks.
unfoldable pub push : Value → Frame → Option Frame
unfolding put
push v f = if ltb f.top f.size then some (record (put f.top v f) { top = f.top + 1 }) else none

unfoldable pub pop : Frame → Option (Value × Frame)
pop f = if ltb 0 f.top then some (f.slots (f.top - 1), record f { top = f.top - 1 }) else none

unfoldable pub top_value : Frame → Option Value
top_value f = if ltb 0 f.top then some (f.slots (f.top - 1)) else none

unfoldable pub store : ℕ → Value → Frame → Option Frame
unfolding put
store i v f = if ltb i f.size then some (put i v f) else none

unfoldable pub load : ℕ → Frame → Option Value
load i f = if ltb i f.size then some (f.slots i) else none

unfoldable pub push_store : ℕ → Value → Frame → Option Frame
unfolding store push
push_store i v f = elim (store i v f) [ none ↦ none | some g ↦ push v g ]

-- The loops that pop the arguments of a block, the first of them first.
unfoldable pub pop_args : ℕ → Frame → Option (List Value × Frame)
unfolding pop
pop_args zero f = some ([], f)
pop_args (suc n) f = elim (pop f) [
  | none ↦ none
  | some (v, g) ↦ elim (pop_args n g) [ none ↦ none | some (vs, k) ↦ some (v ∷ vs, k) ]
]

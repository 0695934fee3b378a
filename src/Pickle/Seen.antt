-- ===== src/Pickle/Seen.antt =====
-- generic/Pickler.cc: `Seen`, the table of the blocks that the `PickleWorker` has met, and
-- `PickleArgs`, its arguments.
use aliceml_seam.Base.{
  ℕ, ◌+◌, ◌-◌, ◌%◌, ◌^◌, List, [], ◌∷◌, Option, none, some, Bool, false, ltb, ◌==◌, if◌then◌else◌,
}
use aliceml_seam.Pickle.Heap.{Value}
use aliceml_seam.Pickle.Output.{OutputBuffer}
use aliceml_seam.Pickle.Output

-- The position behind the instructions of a block, or `NOT_WRITTEN`.
pub data Index : Type 0 where
  not_written : Index
  written : ℕ → Index

-- What the table has for a block; the local is 0 as long as there is none.
pub record Entry : Type 0 where
  pub index : Index
  pub var_no : ℕ

-- The map of `Seen`, by the address of the block; `none` is `NOT_FOUND`.
abbrev pub Seen : Type 0
Seen = ℕ → Option Entry

unfoldable pub put : ℕ → Entry → Seen → Seen
put a e seen = λ b. if b == a then some e else seen b

unfoldable pub add : ℕ → Index → Seen → Seen
unfolding put
add a i seen = put a (record { index = i; var_no = 0 }) seen

-- `none` is a block that is not in the table.
unfoldable pub set_index : ℕ → Index → Seen → Option Seen
unfolding put
set_index a i seen = elim (seen a) [
  | none ↦ none
  | some e ↦ some (put a (record e { index = i }) seen)
]

unfoldable pub set_var_no : ℕ → ℕ → Seen → Option Seen
unfolding put
set_var_no a n seen = elim (seen a) [
  | none ↦ none
  | some e ↦ some (put a (record e { var_no = n }) seen)
]

-- The arguments of the worker, with the frames of the `PickleStack`, the top first: a word, and
-- whether the worker is back from its parts.
pub record Pickling : Type 0 where
  pub buffer : OutputBuffer
  pub seen : Seen
  pub stack : List (Value × Bool)
  pub root : Value
  pub height : ℕ
  pub max_height : ℕ
  pub transient_found : Bool

-- `PickleArgs::New`
unfoldable pub new : Value → Pickling
unfolding Output.new
new root = record {
  buffer = Output.new;
  seen = λ a. none;
  stack = (root, false) ∷ [];
  root = root;
  height = 0;
  max_height = 0;
  transient_found = false;
}

-- `PickleArgs::Reset`
unfoldable pub reset : Pickling → Pickling
unfolding Output.reset
reset s = record s {
  buffer = Output.reset s.buffer;
  seen = λ a. none;
  stack = (s.root, false) ∷ [];
  height = 0;
  max_height = 0;
  transient_found = false;
}

unfoldable pub simulate_push : Pickling → Pickling
simulate_push s = record s {
  height = s.height + 1;
  max_height = if ltb s.max_height (s.height + 1) then s.height + 1 else s.max_height;
}

-- The height and `i` are a `u_int`.
unfoldable pub simulate_pop : ℕ → Pickling → Pickling
simulate_pop i s = record s { height = (s.height + 2 ^ 32 - i) % 2 ^ 32 }

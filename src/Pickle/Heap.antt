-- ===== src/Pickle/Heap.antt =====
-- generic/Unpickler.cc: the words and blocks that the `UnpickleWorker` makes.
use aliceml_seam.Base.{ℕ, suc, List, Option, none, some, Bool, ◌==◌, if◌then◌else◌}

-- A word: an integer `y` or `-(y + 1)`, a block by its address, or a word that nothing initialised.
pub data Value : Type 0 where
  posint negint : ℕ → Value
  pointer : ℕ → Value
  unset : Value

-- What is at an address. A unique string keeps its string; a future is open, or `REF` to its value.
pub data Cell : Type 0 where
  block : (is_mutable : Bool) → (label : ℕ) → (args : List Value) → Cell
  chunk : (is_mutable : Bool) → (bytes : List ℕ) → Cell
  unique_string : (string : Value) → Cell
  future : Cell
  bound : Value → Cell

pub record Heap : Type 0 where
  pub cells : ℕ → Cell
  pub next : ℕ

unfoldable pub alloc : Cell → Heap → Value × Heap
alloc c h = (
  pointer h.next,
  record { cells = λ a. if a == h.next then c else h.cells a; next = suc h.next },
)

unfoldable pub write_cell : ℕ → Cell → Heap → Heap
write_cell at c h = record h { cells = λ a. if a == at then c else h.cells a }

-- The string that a word points to. Another word is read as one without a check: `none`.
unfoldable pub string_of : Heap → Value → Option (List ℕ)
string_of h (pointer a) = elim (h.cells a) [ chunk m bytes ↦ some bytes | _ ↦ none ]
string_of h _ = none

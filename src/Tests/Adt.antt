-- ===== src/Tests/Adt.antt =====
-- Instances of the theorems about adt/, on small queues, stacks and arrays.
use aliceml_seam.Base.{ℕ, ◌+◌, ◌≤◌, ◌≡◌, refl, arith, [], ◌∷◌, ◌++◌, false}
use aliceml_seam.Store.Block.{Word, translate_size}
use aliceml_seam.Adt.Queue
use aliceml_seam.Adt.Queue.{Queue}
use aliceml_seam.Adt.Queue.Contents.{contents, IsValid}
use aliceml_seam.Adt.Queue.Ends.{enqueue_refines, dequeue_refines}
use aliceml_seam.Adt.Queue.Remove.{Erases, remove_refines}
use aliceml_seam.Adt.Queue.Blank.{UnusedZero, blank_refines, blank_empty}
use aliceml_seam.Adt.Stack
use aliceml_seam.Adt.Stack.{Stack}
use aliceml_seam.Adt.Stack.Items
use aliceml_seam.Adt.Stack.Items.{items, slow_push_refines, slow_push_overruns}
use aliceml_seam.Adt.DynamicArray
use aliceml_seam.Adt.DynamicArray.{DynamicArray}
use aliceml_seam.Adt.DynamicArray.Reads.{sub-update, init_overruns}

abbrev squares : ℕ → Word
squares i = 100 + i

-- Four cells; the items 103, 100 and 101 wrap around the end, and the next one fills the array.
abbrev wrapped : Queue
wrapped = record {
  read_index = 3;
  write_index = 2;
  array = record { big = false; size = 4; word_at = squares };
}

wrapped-IsValid : IsValid wrapped
unfolding translate_size
wrapped-IsValid = record {
  two_cells = omega arith;
  read_in = omega arith;
  write_in = omega arith;
  sized = refl;
}

enqueue_refines_example :
    (contents (Queue.enqueue wrapped 7) ≡ contents wrapped ++ (7 ∷ []))
    × IsValid (Queue.enqueue wrapped 7)
enqueue_refines_example = enqueue_refines wrapped 7 wrapped-IsValid

dequeue_refines_example :
    (contents wrapped ≡ (Queue.dequeue wrapped).0 ∷ contents (Queue.dequeue wrapped).1)
    × IsValid (Queue.dequeue wrapped).1
unfolding Queue.is_empty
dequeue_refines_example = dequeue_refines wrapped wrapped-IsValid refl

remove_refines_example : Erases wrapped 100 (Queue.remove wrapped 100)
remove_refines_example = remove_refines wrapped 100 wrapped-IsValid

-- One item in twenty cells: the array is cut.
abbrev sparse : Queue
sparse = record {
  read_index = 17;
  write_index = 18;
  array = record { big = false; size = 20; word_at = squares };
}

sparse-IsValid : IsValid sparse
unfolding translate_size
sparse-IsValid = record {
  two_cells = omega arith;
  read_in = omega arith;
  write_in = omega arith;
  sized = refl;
}

blank_refines_example :
    (contents (Queue.blank sparse) ≡ contents sparse)
    × IsValid (Queue.blank sparse)
    × UnusedZero (Queue.blank sparse)
unfolding Queue.is_empty
blank_refines_example = blank_refines sparse sparse-IsValid (refl, omega arith) refl

abbrev drained : Queue
drained = record sparse { write_index = 17 }

drained-IsValid : IsValid drained
unfolding translate_size
drained-IsValid = record {
  two_cells = omega arith;
  read_in = omega arith;
  write_in = omega arith;
  sized = refl;
}

blank_empty_example :
    ((Queue.blank drained).array.size ≡ 20)
    × ((i : ℕ) → (Queue.blank drained).array.word_at i ≡ squares i)
unfolding Queue.is_empty
blank_empty_example = blank_empty drained drained-IsValid refl

-- A full stack of three cells.
abbrev full_stack : Stack
full_stack = record { top = 3; array = record { big = false; size = 3; word_at = squares } }

full_stack-IsValid : Stack.Items.IsValid full_stack
full_stack-IsValid = record { fits = omega arith; small = omega arith }

slow_push_refines_example :
    (items (Stack.slow_push full_stack 7) ≡ items full_stack ++ (7 ∷ []))
    × Stack.Items.IsValid (Stack.slow_push full_stack 7)
unfolding translate_size
slow_push_refines_example =
    slow_push_refines full_stack 7 full_stack-IsValid (omega arith) (omega arith)

abbrev tiny_stack : Stack
tiny_stack = record { top = 1; array = record { big = false; size = 1; word_at = squares } }

tiny_stack-IsValid : Stack.Items.IsValid tiny_stack
tiny_stack-IsValid = record { fits = omega arith; small = omega arith }

slow_push_overruns_example : (Stack.slow_push tiny_stack 7).array.size ≤ 1
slow_push_overruns_example = slow_push_overruns tiny_stack 7 tiny_stack-IsValid refl (omega arith)

abbrev roomy_stack : Stack
roomy_stack = record { top = 3; array = record { big = false; size = 9; word_at = squares } }

roomy_stack-IsValid : Stack.Items.IsValid roomy_stack
roomy_stack-IsValid = record { fits = omega arith; small = omega arith }

-- The invalid element is the word 9, the initial element too.
abbrev two_cells_array : DynamicArray
two_cells_array = record {
  size = 2;
  init_elem = 9;
  array = record { big = false; size = 2; word_at = squares };
}

sub-update_example :
    DynamicArray.sub 9 (DynamicArray.update two_cells_array 10 7) 1
    ≡ DynamicArray.sub 9 two_cells_array 1
unfolding DynamicArray.get_length
sub-update_example = sub-update 9 two_cells_array 10 1 7 refl (omega arith)

init_overruns_example :
    (DynamicArray.get_length (DynamicArray.init two_cells_array 10 7) ≤ 10)
    × (DynamicArray.sub 9 (DynamicArray.init two_cells_array 10 7) 10 ≡ 9)
unfolding DynamicArray.get_length
init_overruns_example = init_overruns 9 two_cells_array 10 7 (ground arith)

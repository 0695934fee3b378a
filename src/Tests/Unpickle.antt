-- ===== src/Tests/Unpickle.antt =====
-- Instances of the theorems about the instructions of a pickle.
use aliceml_seam.Base.{◌∷◌, [], ℕ, zero, suc, ◌+◌, ◌-◌, ◌≡◌, refl, arith, none, some, min, false}
use aliceml_seam.Pickle.Format.{run_stream}
use aliceml_seam.Pickle.Stream.{File, fetch_string, fetch_file, new_from_file, new_from_string}
use aliceml_seam.Pickle.Stream.Follows.{Delivers, new_from_file-Ready}
use aliceml_seam.Pickle.Stream.Whole.{Same, fetch_file-Same}
use aliceml_seam.Pickle.Output.{OutputBuffer}
use aliceml_seam.Pickle.Output as Output
use aliceml_seam.Pickle.Output.Writes.{IsValid, new-IsValid}
use aliceml_seam.Pickle.Instr.{Instr, instr_format}
use aliceml_seam.Pickle.Write.{parts, write_instr}
use aliceml_seam.Pickle.Write.Reads.{Fits, at, after}
use aliceml_seam.Pickle.Write.Round.{ending, instr_format-write_instr}
use aliceml_seam.Pickle.Heap.{Value, Heap, pointer}
use aliceml_seam.Pickle.Heap as Cells
use aliceml_seam.Pickle.Frame.{load}
use aliceml_seam.Pickle.Machine.{Machine, run_instr, next}
use aliceml_seam.Pickle.Run.{Ending, run}
use aliceml_seam.Pickle.Run.Whole.{run_file_whole}
use aliceml_seam.Pickle.Run.Ends.{run_string_ends}
use aliceml_seam.Pickle.Tree.{
  Tree, code, need, Plain, Represents, posint, negint, node, more, empty,
}
use aliceml_seam.Pickle.Tree.Builds.{run_instrs, run_instrs-code}
use aliceml_seam.Pickle.Tree.Words.{OnStack}
use aliceml_seam.Pickle.Tree.Fulfill.{run_instr-fulfill}

-- POSINT 5, STORE 0, ENDOFSTREAM, in a file that is read a byte at a time.
abbrev five : ℕ → ℕ
five zero = 3
five (suc zero) = 5
five (suc (suc zero)) = 1
five (suc (suc (suc zero))) = 0
five _ = 19

abbrev file_of_five : File
file_of_five = record { bytes = five; length = 5; gzread = λ at n. some (min 1 (min n (5 - at))) }

file_of_five-Delivers : Delivers file_of_five
file_of_five-Delivers = record {
  count = λ at n. min 1 (min n (5 - at));
  no_error = λ at n. refl;
  some_bytes = λ at n lt room. omega arith;
  no_more = λ at n le. omega arith;
  wanted = λ at n. omega arith;
}

-- A stack of three words and a local.
abbrev start_machine : Machine
start_machine = record {
  frame = record { slots = λ i. Cells.posint 0; top = 1; size = 4 };
  heap = record { cells = λ a. Cells.future; next = 0 };
  handlers = λ name. none;
  uniques = λ key. none;
}

fetch_file-Same_example :
    Same file_of_five
      (fetch_file 6 file_of_five instr_format new_from_file)
      (fetch_string instr_format (new_from_string five 5))
unfolding new_from_file
fetch_file-Same_example =
    fetch_file-Same file_of_five file_of_five-Delivers 6 instr_format new_from_file
      (new_from_string five 5) (new_from_file-Ready file_of_five) (omega arith)

run_file_whole_example :
    run 10 11 12 (λ id m. m) (fetch_file 6 file_of_five instr_format) 5 start_machine new_from_file
    ≡ run 10 11 12
        (λ id m. m)
        (λ t. some (fetch_string instr_format t))
        5
        start_machine
        (new_from_string five 5)
run_file_whole_example =
    run_file_whole 10 11 12 (λ id m. m) file_of_five 5 start_machine file_of_five-Delivers

run_string_ends_example :
    (e : Ending) × (run 10 11 12
        (λ id m. m)
        (λ t. some (fetch_string instr_format t))
        6
        start_machine
        (new_from_string five 5)
      ≡ some e)
unfolding new_from_string
run_string_ends_example =
    run_string_ends 10 11 12 (λ id m. m) 6 start_machine (new_from_string five 5) (omega arith)
      (omega arith)

instr_format-write_instr_example :
    (c : OutputBuffer) × (write_instr (Instr.block 16 300) Output.new ≡ some c)
    × IsValid c
    × (run_stream instr_format (at c.buffer 0 (c.pos + 1) Output.new.pos) ≡ (
      ending (Instr.block 16 300),
      after c.buffer 0 (c.pos + 1) (ending (Instr.block 16 300)) c.pos,
    ))
unfolding parts Fits
instr_format-write_instr_example =
    instr_format-write_instr (Instr.block 16 300) Output.new 0 0 (λ e. absurd (cc)) new-IsValid
      (omega arith, (omega arith, tt))

-- The block with the label 16 and the elements 300 and -8.
abbrev pair : Tree
pair = node false 16 (more (posint 300) (more (negint 7) empty))

run_instrs-code_example :
    (k : Machine) × (run_instrs 10 11 12 (λ id m. m) (code 10 11 pair) start_machine ≡ some k)
    × (k.frame.top ≡ start_machine.frame.top + 1)
    × (k.frame.size ≡ start_machine.frame.size)
    × (k.frame.slots 0 ≡ start_machine.frame.slots 0)
    × Represents k.heap (k.frame.slots start_machine.frame.top) pair
unfolding Plain need
run_instrs-code_example =
    run_instrs-code 10 11 12 (λ id m. m) pair start_machine 0 (omega arith)
      (omega arith, refl, (omega arith, (omega arith, tt))) (omega arith) (omega arith)

-- A block with the label 16 that is announced, stored as the local 0 and pushed twice.
abbrev announced_machine : Machine
announced_machine = record {
  frame = record { slots = λ i. pointer 0; top = 3; size = 4 };
  heap = record { cells = λ a. Cells.block false 16 (Cells.unset ∷ []); next = 1 };
  handlers = λ name. none;
  uniques = λ key. none;
}

run_instr-fulfill_example :
    (k : Machine) × (run_instr 10 11 12 (λ id m. m) (Instr.fulfill 0) announced_machine ≡ next k)
    × (k.frame.top ≡ 3)
    × (k.frame.slots 2 ≡ pointer 0)
    × (k.heap.cells 0 ≡ Cells.block false 16 (pointer 0 ∷ []))
    × (k.heap.cells 1 ≡ announced_machine.heap.cells 1)
unfolding OnStack load
run_instr-fulfill_example =
    run_instr-fulfill 10 11 12 (λ id m. m) announced_machine false 16 0 0 2 1 (Cells.unset ∷ [])
      (pointer 0 ∷ []) (omega arith) refl refl refl (refl, tt) (omega arith) (omega arith)
      (omega arith)

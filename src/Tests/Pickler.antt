-- ===== src/Tests/Pickler.antt =====
-- Instances of the theorems about the pickler, the header and the gzip member.
use aliceml_seam.Base.{
  List, ◌∷◌, [], ℕ, zero, suc, ◌+◌, ◌*◌, ◌^◌, ◌≢◌, ◌<◌, ◌≤◌, ◌≡◌, ◌↔◌, refl, arith, none, some,
  Bool, true, false, ◌==◌, length, replicate,
}
use aliceml_seam.Pickle.Output.{OutputBuffer}
use aliceml_seam.Pickle.Output as Output
use aliceml_seam.Pickle.Output.Writes.{IsValid}
use aliceml_seam.Pickle.Write.{parts}
use aliceml_seam.Pickle.Write.Reads.{Fits}
use aliceml_seam.Pickle.Heap.{Value, Cell, Heap, pointer}
use aliceml_seam.Pickle.Heap as Cells
use aliceml_seam.Pickle.Machine.{Machine}
use aliceml_seam.Pickle.Run.{loaded, broken}
use aliceml_seam.Pickle.Seen.{Pickling}
use aliceml_seam.Pickle.Seen as Seen
use aliceml_seam.Pickle.Worker.{Round, pickled, deref}
use aliceml_seam.Pickle.Worker.Bound.{measure, left}
use aliceml_seam.Pickle.Worker.Ends.{run_ends}
use aliceml_seam.Pickle.Worker.Walk.{Stands, Distinct, NotIn, Known, turns, measured}
use aliceml_seam.Pickle.Worker.Whole.{worker, run_writes_code, Full}
use aliceml_seam.Pickle.Tree.{
  Tree, block_instr, code, need, Plain, Represents, posint, negint, node, more, empty,
}
use aliceml_seam.Pickle.Tree.Loads.{AllFit, write_instrs}
use aliceml_seam.Sched.TaskStack.{Frames}
use aliceml_seam.Pickle.{InputStream}
use aliceml_seam.Pickle.Stream.{new_from_string, fetch_string, fetched}
use aliceml_seam.Pickle.Instr.{instr_format}
use aliceml_seam.Pickle.Frame
use aliceml_seam.Pickle.Check.{unpack, unpacked, header, check_string}
use aliceml_seam.Pickle.Save.{
  StringStream, write_to_stream, put_bytes, close, words_of, get_locals, ref_of,
}
use aliceml_seam.Pickle.Save as Save
use aliceml_seam.Pickle.Save.Closes.{close_overruns}
use aliceml_seam.Pickle.Numbers.{Holds}
use aliceml_seam.Pickle.Save.Permuted.{Permuted}
use aliceml_seam.Pickle.Save.Sorted.{Sorted, get_locals-Sorted}
use aliceml_seam.Pickle.Save.Whole.{unpack-write_to_stream}
use aliceml_seam.Pickle.Save.Empty.{unpack_empty}
use aliceml_seam.Pickle.Gzip.{found, number2, number4, is_set, skip_extra, parse_meta_data}
use aliceml_seam.Pickle.Gzip.Member.{
  Extra, Ended, Sum, parse_meta_data-member, number4_little, skip_extra_overruns,
}

-- The block with the label 16 and the elements 300 and -8, and a future that is bound to it.
abbrev pair : Tree
pair = node false 16 (more (posint 300) (more (negint 7) empty))

abbrev cells_of_pair : ℕ → Cell
cells_of_pair zero = Cells.block false 16 (Cells.posint 300 ∷ Cells.negint 7 ∷ [])
cells_of_pair (suc zero) = Cells.bound (pointer 0)
cells_of_pair _ = Cells.future

abbrev heap_of_pair : Heap
heap_of_pair = record { cells = cells_of_pair; next = 2 }

pair-Stands : Stands heap_of_pair (pointer 1) pair (0 ∷ [])
unfolding Stands deref
pair-Stands = (
  0,
  Cells.posint 300 ∷ Cells.negint 7 ∷ [],
  [],
  refl,
  refl,
  ([], [], (refl, refl), ([], [], (refl, refl), refl, refl), refl),
  refl,
)

pair-AllFit : AllFit (code 10 11 pair)
unfolding code AllFit Fits parts
pair-AllFit = (
  (λ e. absurd (cc)),
  (omega arith, tt),
  (
    (λ e. absurd (cc)),
    (omega arith, tt),
    ((λ e. absurd (cc)), (omega arith, (omega arith, tt)), tt),
  ),
)

abbrev sited : ℕ → Bool
sited label = label == 14

run_writes_code_example :
    (s : Pickling) × (worker 10 11 13 12 sited
        (λ a. none)
        (turns pair + 1)
        heap_of_pair
        (Seen.new (pointer 1))
      ≡ some (pickled s))
    × (write_instrs (code 10 11 pair) Output.new ≡ some s.buffer)
    × IsValid s.buffer
    × (s.max_height ≡ measured pair)
unfolding Distinct NotIn Known need
run_writes_code_example =
    run_writes_code 10 11 13 12 sited (λ a. none) heap_of_pair (pointer 1) pair (0 ∷ [])
      (omega arith) pair-Stands (tt, tt) (refl, omega arith, omega arith, (tt, (tt, tt)))
      pair-AllFit (omega arith)

abbrev start_machine : Machine
start_machine = record {
  frame = record { slots = λ i. Cells.posint 0; top = 0; size = 0 };
  heap = record { cells = λ a. Cells.future; next = 0 };
  handlers = λ name. none;
  uniques = λ key. none;
}

abbrev start_frames : Frames
start_frames = record { stack = record { size = 20; words = λ i. 1 }; top = 1 }

unpack-write_to_stream_example :
    (s : Pickling) × (u : StringStream) × (v : Value) × (k : Machine) × (worker 10 11 13 12 sited
        (λ a. none)
        (turns pair + 1)
        heap_of_pair
        (Seen.new (pointer 1))
      ≡ some (pickled s))
    × (write_to_stream s.buffer s.max_height Save.new ≡ some u)
    × (unpack 10 11 12
          (λ id m. m)
          (suc 16777200)
          0
          start_frames
          9
          start_machine
          (close u).value
          (close u).size
        ≡ some (unpacked (loaded v k)))
    × Represents k.heap v pair
unfolding Distinct NotIn Known need Plain Full code
unpack-write_to_stream_example =
    unpack-write_to_stream 10 11 13 12 sited (λ a. none) (λ id m. m) 0 heap_of_pair (pointer 1) pair
      (0 ∷ []) start_frames 16777200 start_machine 9 (omega arith) pair-Stands (tt, tt)
      (refl, omega arith, omega arith, (tt, (tt, tt)))
      (omega arith, refl, (omega arith, (omega arith, tt))) pair-AllFit
      (omega arith, (tt, (tt, tt))) (omega arith) (omega arith) (omega arith) (omega arith)
      (omega arith)

abbrev heap_of_empty : Heap
heap_of_empty = record { cells = λ a. Cells.block false 16 []; next = 1 }

unpack_empty_example :
    (s : Pickling) × (u : StringStream) × (t r : InputStream) × (worker 10 11 13 12 sited
        (λ a. none)
        3
        heap_of_empty
        (Seen.new (pointer 0))
      ≡ some (pickled s))
    × (write_to_stream s.buffer s.max_height Save.new ≡ some u)
    × (check_string (new_from_string (close u).value (close u).size) ≡ (header 0 1, t))
    × (fetch_string instr_format t ≡ (fetched (block_instr 10 11 false 16 0), r))
    × ((v : Value) → Frame.push v (Frame.new 0 1) ≡ none)
    × (unpack 10 11 12
          (λ id m. m)
          (suc 16777200)
          0
          start_frames
          9
          start_machine
          (close u).value
          (close u).size
        ≡ some (unpacked broken))
unfolding Stands deref Known Plain code AllFit Fits parts
unpack_empty_example =
    unpack_empty 10 11 13 12 sited (λ a. none) (λ id m. m) 0 heap_of_empty (pointer 0) 0 16 false
      start_frames 16777200 start_machine 8 (omega arith) (0, [], [], refl, refl, refl, refl)
      (refl, omega arith, omega arith, tt) (omega arith, refl, tt)
      ((λ e. absurd (cc)), (omega arith, (omega arith, tt)), tt) (omega arith) (omega arith)
      (omega arith) (omega arith)

-- 70 bytes, in the 256 that a new string has, which are 65 words.
abbrev seventy : List ℕ
seventy = replicate 70 7

seventy_length : length seventy ≡ 70
seventy_length = refl

close_overruns_example :
    (s : StringStream) × (put_bytes seventy Save.new ≡ some s)
    × Holds (close s).value 0 seventy
    × (length seventy < (close s).size)
    × ((close s).words ≡ length seventy)
    × (words_of (close s).size < (close s).words)
close_overruns_example =
    close_overruns seventy (omega (arith, seventy_length)) (omega (arith, seventy_length))

-- A block that is its own part.
abbrev cells_of_cycle : ℕ → Cell
cells_of_cycle zero = Cells.block false 16 (pointer 0 ∷ [])
cells_of_cycle _ = Cells.future

abbrev heap_of_cycle : Heap
heap_of_cycle = record { cells = cells_of_cycle; next = 1 }

cycle_finite : (a : ℕ) → 1 ≤ a → cells_of_cycle a ≡ Cells.future
cycle_finite zero le = absurd (omega arith)
cycle_finite (suc a) le = refl

run_ends_example :
    (o : Round) × (worker 10 11 13 12 sited (λ a. none) 9 heap_of_cycle (Seen.new (pointer 0))
      ≡ some o)
unfolding measure left Seen.new
run_ends_example =
    run_ends 10 11 13 12 sited (λ a. none) heap_of_cycle cycle_finite 9 (Seen.new (pointer 0))
      (omega arith)

-- Three locals, of the blocks before the positions 9 and 4 and of an announcement.
abbrev locals_of_three : ℕ → ℕ
locals_of_three (suc (suc zero)) = 9
locals_of_three (suc (suc (suc zero))) = 1
locals_of_three (suc (suc (suc (suc (suc zero))))) = 2
locals_of_three (suc (suc (suc (suc (suc (suc zero)))))) = 4
locals_of_three (suc (suc (suc (suc (suc (suc (suc zero))))))) = 3
locals_of_three _ = 0

abbrev three_locals : OutputBuffer
three_locals = record {
  buffer = λ i. 0;
  pos = 12;
  size = 8192;
  locals = locals_of_three;
  loc_count = 3;
  loc_size = 128;
}

get_locals-Sorted_example :
    (c : ℕ → ℕ) × (get_locals three_locals ≡ some c)
    × Permuted 0 4 locals_of_three c
    × Sorted 0 4 c
    × (ref_of c 0 ≡ 0)
get_locals-Sorted_example = get_locals-Sorted three_locals refl

-- A member with a name of one letter and three bytes of data.
abbrev member : ℕ → ℕ
member zero = 31
member (suc zero) = 139
member (suc (suc zero)) = 8
member (suc (suc (suc zero))) = 8
member (suc (suc (suc (suc (suc (suc (suc (suc (suc (suc zero)))))))))) = 97
member _ = 0

member_name : (i : ℕ) → i < 1 → member (10 + 0 + i) ≢ 0
member_name zero lt e = omega (arith, e)
member_name (suc i) lt e = omega arith

member-Ended : Ended (is_set (member 3) 3) member (10 + 0) 2
unfolding Ended is_set
member-Ended = (1, refl, refl, member_name)

parse_meta_data-member_example :
    parse_meta_data 23 member 23
    ≡ found
        (record { compressed_start = 12; compressed_len = 3; uncompressed_len = number4 member 19 })
unfolding Extra Ended Sum is_set
parse_meta_data-member_example =
    parse_meta_data-member 23 member 0 2 0 0 3 refl refl refl refl member-Ended refl refl
      (omega arith) (omega arith) (omega arith)

-- The size 2 ^ 24.
abbrev isize : ℕ → ℕ
isize (suc (suc (suc zero))) = 1
isize _ = 0

number4_little_example :
    (number4 isize 0 ≡ isize 0 + isize 1 * 2 ^ 8 + isize 2 * 2 ^ 16 + isize 3 * 2 ^ 24)
    ↔ (isize 3 ≡ 0)
number4_little_example = number4_little isize 0

skip_extra_overruns_example :
    (m : ℕ) × (skip_extra true (λ i. 255) (10, 30) ≡ found (10 + (2 + number2 (λ i. 255) 10), m))
    × (30 < m)
unfolding number2
skip_extra_overruns_example = skip_extra_overruns (λ i. 255) 10 30 (omega arith) (omega arith)

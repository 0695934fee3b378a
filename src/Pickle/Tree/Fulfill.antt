-- ===== src/Pickle/Tree/Fulfill.antt =====
-- generic/Unpickler.cc: a block that was announced gets its arguments, among them itself.
use aliceml_seam.Base.{
  ℕ, ◌+◌, ◌≤◌, ◌<◌, ◌≡◌, ◌≢◌, refl, ap, List, Bool, some, length, ==_refl, ==_of_ne, ◌==◌,
  if◌then◌else◌, lt→ltb, le→ltb, subst,
}
use aliceml_seam.Pickle.Instr.{Instr}
use aliceml_seam.Pickle.Heap.{Value, pointer, block}
use aliceml_seam.Pickle.Frame.{Frame, pop_args, push}
use aliceml_seam.Pickle.Frame
use aliceml_seam.Pickle.Machine.{Machine, next, run_instr, fulfill_cell, max_valid_int}
use aliceml_seam.Pickle.Tree.Words.{OnStack, pop_args-OnStack}

module _ (tuple_label closure_label transform_label : ℕ)
    (broker_load : List ℕ → Machine → Machine) where
  -- FULFILL of a local that holds an announced block, with the words for its arguments on top of
  -- the stack, puts these words into the block, first the top one, leaves its label and mutability
  -- and every other block as they are, and leaves the block on the stack in place of the words,
  -- also when the block is one of its own arguments.
  pub run_instr-fulfill :
      (m : Machine) (is_mutable : Bool) (label addr at base other : ℕ) (args vs : List Value)
      → addr ≤ max_valid_int
      → Frame.load addr m.frame ≡ some (pointer at)
      → m.heap.cells at ≡ block is_mutable label args
      → length vs ≡ length args
      → OnStack m.frame.slots base vs
      → m.frame.top ≡ base + length vs
      → base < m.frame.size
      → other ≢ at
      → (k : Machine) × (run_instr tuple_label closure_label transform_label broker_load
            (Instr.fulfill addr)
            m
          ≡ next k)
        × (k.frame.top ≡ base + 1)
        × (k.frame.slots base ≡ pointer at)
        × (k.heap.cells at ≡ block is_mutable label vs)
        × (k.heap.cells other ≡ m.heap.cells other)
  unfolding run_instr fulfill_cell push Frame.put
  run_instr-fulfill m is_mutable label addr at base other args vs small local cell len stack top
        room ne =
      (
        record m {
          frame = record m.frame {
            slots = λ j. if j == base then pointer at else m.frame.slots j;
            top = base + 1;
          };
          heap = record m.heap {
            cells = λ a. if a == at then block is_mutable label vs else m.heap.cells a;
          };
        },
        rw
            (
              le→ltb max_valid_int addr small,
              local,
              cell,
              popped,
              lt→ltb base m.frame.size room,
              fulfill_cell,
            )
            refl,
        refl,
        ap (λ t. if t then pointer at else m.frame.slots base) (==_refl base),
        ap (λ t. if t then block is_mutable label vs else m.heap.cells at) (==_refl at),
        ap (λ t. if t then block is_mutable label vs else m.heap.cells other)
            (==_of_ne other at ne),
      )
    where
      popped : pop_args (length args) m.frame ≡ some (vs, record m.frame { top = base })
      popped =
          subst (λ n. pop_args n m.frame ≡ some (vs, record m.frame { top = base })) len
            (pop_args-OnStack vs m.frame base stack top)

-- ===== src/Pickle/Machine.antt =====
-- generic/Unpickler.cc: `StoreAbstraction`, and what `UnpickleWorker::Run` does for an instruction.
use aliceml_seam.Base.{
  ℕ, ◌-◌, ◌^◌, List, [], ◌∷◌, Option, none, some, Bool, true, false, ltb, ◌==◌, ◌&&◌, if◌then◌else◌,
  replicate, length, ◌++◌,
}
use aliceml_seam.Store.Block.{translate_size}
use aliceml_seam.Pickle.Instr.{
  Instr, init, end_of_stream, unknown, unique, transform, store, load, posint, negint, fulfill,
  chunk, mchunk, block, mblock, tuple, closure, a_block, a_mblock, a_tuple, a_closure, a_transform,
}
use aliceml_seam.Pickle.Heap.{Value, Cell, Heap, alloc, write_cell, string_of, pointer, unset}
use aliceml_seam.Pickle.Heap as Cells
use aliceml_seam.Pickle.Frame.{Frame, push, pop, top_value, push_store, pop_args}
use aliceml_seam.Pickle.Frame

-- The words of a new block: those that it was asked for, and behind them, when `TranslateSize` rounds
-- a big size up, words that nothing sets.
unfoldable pub in_block : List Value → List Value
unfolding translate_size
in_block vs = vs ++ replicate (translate_size (length vs) - length vs) unset

-- A handler makes a word of a word.
abbrev pub Handler : Type 0
Handler = Value → Heap → Value × Heap

-- The frame, the blocks, the handler table and the table of unique strings, which promise what an
-- association list does.
pub record Machine : Type 0 where
  pub frame : Frame
  pub heap : Heap
  pub handlers : List ℕ → Option Handler
  pub uniques : List ℕ → Option Value

abbrev pub max_valid_int : ℕ
max_valid_int = 2 ^ 30 - 1

-- How an instruction ends: the next one is run, the pickle is loaded, `Unpickler::Corrupt` is raised,
-- or an access is outside of what the model has, where C++ reads or writes what happens to be there.
pub data Step : Type 0 where
  next : Machine → Step
  loaded : Value → Machine → Step
  corrupt broken : Step

abbrev pub next_frame : Machine → Option Frame → Step
next_frame m none = broken
next_frame m (some f) = next (record m { frame = f })

-- `frame->Push(newBlock)` after an allocation.
abbrev pub push_new : Machine → Value × Heap → Step
push_new m (v, h) = next_frame (record m { heap = h }) (push v m.frame)

-- The string up to its first `.`, which is searched beyond its end, too: then `none`.
unfoldable pub language_id : List ℕ → Option (List ℕ)
language_id [] = none
language_id (c ∷ cs) =
    let rest = language_id cs in
    if c == 46 then some [] else elim rest [ none ↦ none | some id ↦ some (c ∷ id) ]

-- The keys of a `ChunkMap` are the same when their bytes are.
abbrev pub same_bytes : List ℕ → List ℕ → Bool
same_bytes [] [] = true
same_bytes (a ∷ xs) (b ∷ ys) = (a == b) && same_bytes xs ys
same_bytes _ _ = false

-- The labels of the generated store configuration, and `Broker::Load` with what the loaded component
-- does, which may register handlers.
module _ (tuple_label closure_label transform_label : ℕ)
    (broker_load : List ℕ → Machine → Machine) where
  -- `TransformWorker::Run`, for a future at an address.
  unfoldable pub run_transform : ℕ → List ℕ → Value → Machine → Step
  unfolding write_cell
  run_transform future name argument m = elim (m.handlers name) [
    | none ↦ corrupt
    | some handler ↦
        let (v, h) = handler argument m.heap in
        next (record m { heap = write_cell future (Cells.bound v) h })
  ]

  abbrev pub transform_later : ℕ → List ℕ → Value → Option (List ℕ) → Step → Step
  transform_later future name argument (some id) (next m) =
      run_transform future name argument (broker_load id m)
  transform_later future name argument (some id) step = step
  transform_later future name argument none step = broken

  -- `ApplyTransform`, and the `Push` of what it makes. A component that is to be loaded is loaded, and
  -- the `TransformWorker` run, before the next instruction.
  unfoldable pub apply_transform : ℕ → Option (List ℕ) → Value → Machine → Step
  unfolding run_transform push language_id
  apply_transform future none argument m = broken
  apply_transform future (some name) argument m = elim (m.handlers name) [
    | some handler ↦ push_new m (handler argument m.heap)
    | none ↦
        transform_later future name argument (language_id name)
          (push_new m (pointer future, m.heap))
  ]

  -- `AllocBlock` for a `TRANSFORM`: the name is popped first. `Future::New` makes a new future.
  unfoldable pub alloc_transform : Machine → Step
  unfolding pop string_of apply_transform
  alloc_transform m = elim (pop_args 2 m.frame) [
    | some (name ∷ argument ∷ [], f) ↦
        apply_transform m.heap.next (string_of m.heap name) argument
          (record m { frame = f; heap = (alloc Cells.future m.heap).1 })
    | _ ↦ broken
  ]

  abbrev pub with_args : (List Value → Cell) → Machine → Option (List Value × Frame) → Step
  with_args cell m none = broken
  with_args cell m (some (vs, f)) =
      push_new (record m { frame = f }) (alloc (cell (in_block vs)) m.heap)

  -- `AllocBlock`, and the `Push` of its result. `Closure::New` of a size below 0 is an allocation of
  -- four billion words.
  unfoldable pub alloc_block : Bool → ℕ → ℕ → Machine → Step
  unfolding alloc_transform pop_args alloc in_block
  alloc_block is_mutable label size m =
      if label == transform_label
      then alloc_transform m
      else if label == closure_label
      then (if size == 0
          then broken
          else with_args (Cells.block true closure_label) m (pop_args size m.frame))
      else with_args (Cells.block is_mutable label) m (pop_args size m.frame)

  -- `AnnounceBlock`: the arguments are not there yet, but for the code of a closure.
  unfoldable pub announced : Bool → ℕ → ℕ → Option Cell
  unfolding in_block
  announced is_mutable label size =
      if label == transform_label
      then some Cells.future
      else if label == closure_label
      then (if size == 0
          then none
          else some (
              Cells.block true closure_label
                (in_block (Cells.posint 0 ∷ replicate (size - 1) unset))))
      else some (Cells.block is_mutable label (in_block (replicate size unset)))

  -- `AnnounceBlock` and `PushStore`
  unfoldable pub announce : Bool → ℕ → ℕ → ℕ → Machine → Step
  unfolding announced alloc push_store
  announce is_mutable label size addr m = elim (announced is_mutable label size) [
    | none ↦ broken
    | some cell ↦
        let (v, h) = alloc cell m.heap in
        next_frame (record m { heap = h }) (push_store addr v m.frame)
  ]

  -- `MakeFulfilledBlock`, and the `Push` of its result, for what is at an address. A word of another
  -- kind is read as a block or a future without a check.
  unfoldable pub fulfill_cell : ℕ → Cell → Machine → Step
  unfolding pop_args write_cell apply_transform string_of
  fulfill_cell at (Cells.block is_mutable label args) m = elim (pop_args (length args) m.frame) [
    | none ↦ broken
    | some (vs, f) ↦
        push_new (record m { frame = f })
          (pointer at, write_cell at (Cells.block is_mutable label vs) m.heap)
  ]
  fulfill_cell at Cells.future m = elim (pop_args 2 m.frame) [
    | some (argument ∷ name ∷ [], f) ↦
        apply_transform at (string_of m.heap name) argument (record m { frame = f })
    | _ ↦ broken
  ]
  fulfill_cell at _ m = broken

  abbrev pub fulfill_value : Option Value → Machine → Step
  fulfill_value (some (pointer at)) m = fulfill_cell at (m.heap.cells at) m
  fulfill_value _ m = broken

  -- `UniqueString::New`
  unfoldable pub intern : Value → List ℕ → Machine → Value × Machine
  unfolding alloc
  intern string bytes m = elim (m.uniques bytes) [
    | some v ↦ (v, m)
    | none ↦
        let (v, h) = alloc (Cells.unique_string string) m.heap in
        (
          v,
          record m {
            heap = h;
            uniques = λ key. if same_bytes key bytes then some v else m.uniques key;
          },
        )
  ]

  abbrev pub unique_of : Value → Frame → Option (List ℕ) → Machine → Step
  unique_of v f none m = broken
  unique_of v f (some bytes) m = let (w, k) = intern v bytes m in next_frame k (push w f)

  abbrev pub checked : ℕ → Step → Step
  checked n step = if ltb max_valid_int n then corrupt else step

  abbrev pub or_broken : Option Value → (Value → Step) → Step
  or_broken none k = broken
  or_broken (some v) k = k v

  -- The cases of `UnpickleWorker::Run`, after the reads.
  unfoldable pub run_instr : Instr → Machine → Step
  unfolding push pop top_value alloc alloc_block announce fulfill_cell intern string_of
  run_instr init m = corrupt
  run_instr (store addr) m =
      checked addr (or_broken (top_value m.frame) (λ v. next_frame m (Frame.store addr v m.frame)))
  run_instr (load addr) m =
      checked addr (or_broken (Frame.load addr m.frame) (λ v. next_frame m (push v m.frame)))
  run_instr (posint y) m = checked y (next_frame m (push (Cells.posint y) m.frame))
  run_instr (negint y) m = checked y (next_frame m (push (Cells.negint y) m.frame))
  run_instr (chunk bytes) m = push_new m (alloc (Cells.chunk false bytes) m.heap)
  run_instr (mchunk bytes) m = push_new m (alloc (Cells.chunk true bytes) m.heap)
  run_instr unique m = elim (pop m.frame) [
    | none ↦ broken
    | some (v, f) ↦ unique_of v f (string_of m.heap v) m
  ]
  run_instr (mblock label size) m = alloc_block true label size m
  run_instr (block label size) m = alloc_block false label size m
  run_instr (tuple size) m = alloc_block false tuple_label size m
  run_instr (closure size) m = alloc_block false closure_label size m
  run_instr transform m = alloc_block false transform_label 2 m
  run_instr (a_block label size addr) m = announce false label size addr m
  run_instr (a_mblock label size addr) m = announce true label size addr m
  run_instr (a_tuple size addr) m = announce false tuple_label size addr m
  run_instr (a_closure size addr) m = announce false closure_label size addr m
  run_instr (a_transform addr) m = announce false transform_label 2 addr m
  run_instr (fulfill addr) m = checked addr (fulfill_value (Frame.load addr m.frame) m)
  run_instr end_of_stream m = or_broken (Frame.load 0 m.frame) (λ v. loaded v m)
  run_instr unknown m = corrupt

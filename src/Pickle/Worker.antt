-- ===== src/Pickle/Worker.antt =====
-- generic/Pickler.cc: `PickleWorker::Run`, one round of its loop as a step.
pub mod Walk
pub mod Turns
pub mod Rounds
pub mod Whole
pub mod Bound
pub mod Knows
pub mod Ends
pub mod Writes
use aliceml_seam.Base.{
  ℕ, zero, suc, ◌+◌, ◌-◌, ◌%◌, ◌^◌, List, [], ◌∷◌, Option, none, some, Bool, true, false, ◌==◌,
  if◌then◌else◌, length, ◌>>=◌,
}
use aliceml_seam.Pickle.Heap.{Value, Cell, Heap, pointer, unset}
use aliceml_seam.Pickle.Heap as Cells
use aliceml_seam.Pickle.Output.{OutputBuffer, put_local}
use aliceml_seam.Pickle.Instr.{Instr, Tag}
use aliceml_seam.Pickle.Write.{Part, byte, uint, write_parts, write_instr, tag_number}
use aliceml_seam.Pickle.Seen.{
  Index, not_written, written, Entry, Seen, add, set_index, set_var_no, Pickling, simulate_push,
  simulate_pop,
}

-- The word behind the futures that are bound.
unfoldable pub deref : ℕ → Heap → Value → Value
deref zero h v = v
deref (suc fuel) h (pointer a) = elim (h.cells a) [ Cells.bound v ↦ deref fuel h v | _ ↦ pointer a ]
deref (suc fuel) h v = v

-- `size - 1` as a `u_int`.
abbrev pub less_one : ℕ → ℕ
less_one size = (size + (2 ^ 32 - 1)) % 2 ^ 32

-- How a round ends: with the next one, with the worker, with the request for a transient, with
-- `Pickler::Sited`, or with an access that nothing checks.
pub data Round : Type 0 where
  goes : Pickling → Round
  pickled : Pickling → Round
  requests : Value → Pickling → Round
  sited : Pickling → Round
  broken : Round

abbrev pub goes_if : Option Pickling → Round
goes_if (some s) = goes s
goes_if none = broken

-- The calls that write an instruction.
unfoldable pub emit : Instr → Pickling → Option Pickling
unfolding write_instr
emit i s = do b ← write_instr i s.buffer; some (record s { buffer = b })

-- The same with `PutLocal` at the end, for a block, whose local the new one becomes.
unfoldable pub emit_local : List Part → (ref : ℕ) → (block : ℕ) → Pickling → Option Pickling
unfolding write_parts put_local set_var_no
emit_local ps ref a s = do
  b ← write_parts ps s.buffer
  c ← put_local ref b
  seen ← set_var_no a c.loc_count s.seen
  some (record s { buffer = c; seen = seen })

-- `seen->SetIndex(v, outputBuffer->GetPos())`
unfoldable pub set_written : ℕ → Pickling → Option Pickling
unfolding set_index
set_written a s = do
  seen ← set_index a (written s.buffer.pos) s.seen
  some (record s { seen = seen })

abbrev pub push_words : List Value → List (Value × Bool) → List (Value × Bool)
push_words [] rest = rest
push_words (v ∷ vs) rest = push_words vs ((v, false) ∷ rest)

-- The labels of the generated store configuration, those that are `Sited`, and what the handler of a
-- concrete representation makes of it: the name, the argument and the address of the transform.
module _ (tuple_label closure_label concrete_label transform_label : ℕ) (is_sited : ℕ → Bool)
    (abstract_of : ℕ → Option (Value × Value × ℕ)) where
  -- The instruction of a block whose parts are written, and the words that it takes from the stack.
  abbrev pub block_instr : Bool → ℕ → ℕ → Instr × ℕ
  block_instr is_mutable label size =
      if label == concrete_label
      then (Instr.transform, 1)
      else if label == closure_label
      then (Instr.closure size, less_one size)
      else if label == tuple_label
      then (Instr.tuple size, less_one size)
      else if is_mutable
      then (Instr.mblock label size, less_one size)
      else (Instr.block label size, less_one size)

  abbrev pub written_block : ℕ → Instr → ℕ → Pickling → Option Pickling
  written_block a i n s = do t ← emit i s; set_written a (simulate_pop n t)

  -- Back from the parts of a block without an announcement.
  unfoldable pub finish_block : ℕ → Cell → Pickling → Option Pickling
  unfolding emit simulate_pop set_written
  finish_block a (Cells.unique_string string) s = do t ← emit Instr.unique s; set_written a t
  finish_block a (Cells.block is_mutable label args) s =
      let (i, n) = block_instr is_mutable label (length args) in written_block a i n s
  finish_block a _ s = none

  abbrev pub size_of : Cell → Option ℕ
  size_of (Cells.block is_mutable label args) = some (length args)
  size_of (Cells.unique_string string) = some 2
  size_of _ = none

  -- Back from the parts of a block that was announced meanwhile.
  unfoldable pub fulfill_block : ℕ → Cell → Pickling → Option Pickling
  unfolding emit simulate_pop
  fulfill_block n c s = do
    size ← size_of c
    t ← emit (Instr.fulfill n) s
    some (simulate_pop (less_one size) t)

  unfoldable pub back : ℕ → Cell → Pickling → Option Pickling
  unfolding finish_block fulfill_block
  back a c s = do
    e ← s.seen a
    if e.var_no == 0 then finish_block a c s else fulfill_block e.var_no c s

  -- The calls before `PutLocal` of an announcement.
  abbrev pub announcement : Cell → Option (List Part)
  announcement (Cells.block is_mutable label args) = some (
      if label == concrete_label
      then byte (tag_number Tag.a_transform) ∷ []
      else if label == closure_label
      then byte (tag_number Tag.a_closure) ∷ uint (length args) ∷ []
      else if label == tuple_label
      then byte (tag_number Tag.a_tuple) ∷ uint (length args) ∷ []
      else byte (tag_number (if is_mutable then Tag.a_mblock else Tag.a_block))
        ∷ uint label
        ∷ uint (length args)
        ∷ [])
  announcement _ = none

  -- A block that is in the table and has no local yet.
  unfoldable pub new_local : ℕ → Cell → Index → Pickling → Option Pickling
  unfolding emit_local tag_number
  new_local a c not_written s = do ps ← announcement c; emit_local ps 0 a s
  new_local a c (written ref) s = emit_local (byte (tag_number Tag.load) ∷ []) ref a s

  -- A block that is in the table.
  unfoldable pub visit_seen : ℕ → Cell → Entry → Pickling → Option Pickling
  unfolding emit new_local
  visit_seen a c e s =
      if e.var_no == 0 then new_local a c e.index s else emit (Instr.load e.var_no) s

  abbrev pub chunk_instr : Bool → List ℕ → Instr
  chunk_instr is_mutable bytes = if is_mutable then Instr.mchunk bytes else Instr.chunk bytes

  -- The frame of a word is marked, its block noted, and its parts pushed.
  abbrev pub descend : Value → ℕ → List Value → List (Value × Bool) → Pickling → Round
  descend x a parts rest s =
      goes
        (record s { seen = add a not_written s.seen; stack = push_words parts ((x, true) ∷ rest) })

  abbrev pub descend_concrete :
      Value → ℕ → Option (Value × Value × ℕ) → List (Value × Bool) → Pickling → Round
  descend_concrete x a none rest s =
      sited (record s { seen = add a not_written s.seen; stack = (x, true) ∷ rest })
  descend_concrete x a (some (name, argument, b)) rest s = goes (record s {
    seen = add b not_written (add a not_written s.seen);
    stack = push_words (name ∷ argument ∷ []) ((x, true) ∷ rest);
  })

  -- A block that is met for the first time.
  unfoldable pub visit_new : Value → ℕ → Cell → List (Value × Bool) → Pickling → Round
  unfolding emit add simulate_push
  visit_new x a (Cells.chunk is_mutable bytes) rest s = goes_if (do
    t ← emit (chunk_instr is_mutable bytes) s
    some (simulate_push (record t { seen = add a (written t.buffer.pos) t.seen; stack = rest })))
  visit_new x a (Cells.unique_string string) rest s = descend x a (string ∷ []) rest s
  visit_new x a (Cells.block is_mutable label args) rest s =
      if is_sited label
      then sited s
      else if label == concrete_label
      then descend_concrete x a (abstract_of a) rest s
      else if label == transform_label
      then sited s
      else descend x a args rest s
  visit_new x a _ rest s = broken

  abbrev pub pushed : List (Value × Bool) → Option Pickling → Round
  pushed rest none = broken
  pushed rest (some t) = goes (simulate_push (record t { stack = rest }))

  abbrev pub visit_block : Value → ℕ → Cell → Option Entry → List (Value × Bool) → Pickling → Round
  visit_block x a Cells.future e rest s = requests x (record s { transient_found = true })
  visit_block x a c (some e) rest s = pushed rest (visit_seen a c e s)
  visit_block x a c none rest s = visit_new x a c rest s

  -- A word, behind the futures that are bound.
  unfoldable pub visit : Heap → Value → Value → List (Value × Bool) → Pickling → Round
  unfolding emit visit_seen visit_new
  visit h x (Cells.posint y) rest s = pushed rest (emit (Instr.posint y) s)
  visit h x (Cells.negint y) rest s = pushed rest (emit (Instr.negint y) s)
  visit h x (pointer a) rest s = visit_block x a (h.cells a) (s.seen a) rest s
  visit h x unset rest s = broken

  abbrev pub return : Heap → Value → List (Value × Bool) → Pickling → Round
  return h (pointer a) rest s =
      goes_if (do t ← back a (h.cells a) s; some (record t { stack = rest }))
  return h _ rest s = broken

  -- A round of the loop on a heap.
  unfoldable pub round : Heap → Pickling → Round
  unfolding deref visit back
  round h s = elim s.stack [
    | [] ↦ pickled s
    | (x, true) ∷ rest ↦ return h (deref h.next h x) rest s
    | (x, false) ∷ rest ↦ visit h x (deref h.next h x) rest s
  ]

  abbrev pub again : (Pickling → Option Round) → Round → Option Round
  again rest (goes t) = rest t
  again rest r = some r

  -- The loop; the fuel bounds the rounds, and `none` is one too many.
  unfoldable pub run : ℕ → Heap → Pickling → Option Round
  unfolding round
  run zero h s = none
  run (suc fuel) h s = again (λ t. run fuel h t) (round h s)

-- ===== src/Pickle/Worker/Rounds.antt =====
-- generic/Pickler.cc: single rounds of the `PickleWorker` on a value without sharing.
use aliceml_seam.Base.{
  ℕ, ◌≡◌, ◌≢◌, ◌∙◌, refl, sym, List, ◌∷◌, Option, none, some, Bool, true, false, length, ◌==◌,
  ==_of_ne, ==_refl, ==→≡, Bool-cases, inl, inr,
}
use aliceml_seam.Pickle.Instr.{Instr}
use aliceml_seam.Pickle.Write.{write_instr}
use aliceml_seam.Pickle.Output.{OutputBuffer}
use aliceml_seam.Pickle.Heap.{Value, Heap, pointer}
use aliceml_seam.Pickle.Heap as Cells
use aliceml_seam.Pickle.Seen.{
  Seen, Index, not_written, written, Entry, put, add, set_index, Pickling, simulate_push,
  simulate_pop,
}
use aliceml_seam.Pickle.Worker.{
  Round, goes, goes_if, less_one, emit, push_words, round, run, set_written, visit, deref, back,
  finish_block, visit_new,
}
use aliceml_seam.Pickle.Worker as Worker
use aliceml_seam.Pickle.Worker.Walk.{NotIn}
use aliceml_seam.Pickle.Worker.Turns.{turn}
use aliceml_seam.Pickle.Tree.{chunk_instr, block_instr}

pub put_other : (a b : ℕ) (e : Entry) (seen : Seen) → b ≢ a → put a e seen b ≡ seen b
unfolding put
put_other a b e seen ne = rw (==_of_ne b a ne) refl

pub add_same :
    (a : ℕ) (i : Index) (seen : Seen) → add a i seen a ≡ some (record { index = i; var_no = 0 })
unfolding add put
add_same a i seen = rw (==_refl a) refl

pub add_others :
    (a : ℕ) (bs : List ℕ) (i : Index) (seen : Seen) (b : ℕ)
    → NotIn b (a ∷ bs)
    → add a i seen b ≡ seen b
unfolding add NotIn
add_others a bs i seen b (ne, ni) = put_other a b (record { index = i; var_no = 0 }) seen ne

-- The state after the instruction of a block.
abbrev pub finished : ℕ → ℕ → OutputBuffer → List (Value × Bool) → Pickling → Pickling
finished a size c rest s = record (simulate_pop (less_one size) (record s { buffer = c })) {
  seen = put a (record { index = written c.pos; var_no = 0 }) s.seen;
  stack = rest;
}

module _ (tuple_label closure_label concrete_label transform_label : ℕ) (is_sited : ℕ → Bool)
    (abstract_of : ℕ → Option (Value × Value × ℕ)) (h : Heap) where
  abbrev pub one_turn : Pickling → Round
  one_turn = turn tuple_label closure_label concrete_label transform_label is_sited abstract_of h

  abbrev instr_of : Bool → ℕ → ℕ → Instr
  instr_of = block_instr tuple_label closure_label

  pub turn_posint :
      (v : Value) (y : ℕ) (rest : List (Value × Bool)) (s : Pickling) (c : OutputBuffer)
      → s.stack ≡ (v, false) ∷ rest
      → deref h.next h v ≡ Cells.posint y
      → write_instr (Instr.posint y) s.buffer ≡ some c
      → one_turn s ≡ goes (simulate_push (record s { buffer = c; stack = rest }))
  unfolding round visit emit
  turn_posint v y rest s c at is_posint e = rw (at, is_posint, visit, emit, e) refl

  pub turn_negint :
      (v : Value) (y : ℕ) (rest : List (Value × Bool)) (s : Pickling) (c : OutputBuffer)
      → s.stack ≡ (v, false) ∷ rest
      → deref h.next h v ≡ Cells.negint y
      → write_instr (Instr.negint y) s.buffer ≡ some c
      → one_turn s ≡ goes (simulate_push (record s { buffer = c; stack = rest }))
  unfolding round visit emit
  turn_negint v y rest s c at is_negint e = rw (at, is_negint, visit, emit, e) refl

  pub turn_chunk :
      (v : Value) (a : ℕ) (is_mutable : Bool) (bs : List ℕ) (rest : List (Value × Bool))
      (s : Pickling) (c : OutputBuffer)
      → s.stack ≡ (v, false) ∷ rest
      → deref h.next h v ≡ pointer a
      → h.cells a ≡ Cells.chunk is_mutable bs
      → s.seen a ≡ none
      → write_instr (chunk_instr is_mutable bs) s.buffer ≡ some c
      → one_turn s
        ≡ goes (
            simulate_push
              (record s { buffer = c; seen = add a (written c.pos) s.seen; stack = rest }))
  unfolding round visit visit_new emit
  turn_chunk v a is_mutable bs rest s c at is_pointer cell is_new e =
      rw (at, is_pointer, cell, is_new, visit_new, emit, e) refl

  pub turn_node :
      (v : Value) (a : ℕ) (is_mutable : Bool) (label : ℕ) (vs : List Value)
      (rest : List (Value × Bool)) (s : Pickling)
      → s.stack ≡ (v, false) ∷ rest
      → deref h.next h v ≡ pointer a
      → h.cells a ≡ Cells.block is_mutable label vs
      → s.seen a ≡ none
      → is_sited label ≡ false
      → label ≢ concrete_label
      → label ≢ transform_label
      → one_turn s
        ≡ goes
            (record s { seen = add a not_written s.seen; stack = push_words vs ((v, true) ∷ rest) })
  unfolding round visit visit_new
  turn_node v a is_mutable label vs rest s at is_pointer cell is_new known nc nt =
      rw
        (
          at,
          is_pointer,
          cell,
          is_new,
          known,
          ==_of_ne label concrete_label nc,
          ==_of_ne label transform_label nt,
        )
        refl

  -- A block without the label of a closure and a tuple at once is written alike.
  block_instr_same :
      (is_mutable : Bool) (label size : ℕ)
      → closure_label ≢ tuple_label
      → label ≢ concrete_label
      → Worker.block_instr tuple_label closure_label concrete_label transform_label is_sited
          abstract_of is_mutable label size
        ≡ (instr_of is_mutable label size, less_one size)
  block_instr_same is_mutable label size ne nc = elim (Bool-cases (label == tuple_label)) [
    | inl is_tuple ↦
        let same = ==→≡ label tuple_label is_tuple in
        rw
          (
            ==_of_ne label concrete_label nc,
            ==_of_ne label closure_label (λ e. ne (sym e ∙ same)),
            is_tuple,
          )
          refl
    | inr other ↦ elim (Bool-cases (label == closure_label)) [
      | inl is_closure ↦ rw (==_of_ne label concrete_label nc, other, is_closure) refl
      | inr ordinary ↦ elim (Bool-cases is_mutable) [
        | inl is_mut ↦ rw (==_of_ne label concrete_label nc, other, ordinary, is_mut) refl
        | inr is_not ↦ rw (==_of_ne label concrete_label nc, other, ordinary, is_not) refl
      ]
    ]
  ]

  pub turn_back :
      (v : Value) (a : ℕ) (is_mutable : Bool) (label : ℕ) (vs : List Value)
      (rest : List (Value × Bool)) (s : Pickling) (c : OutputBuffer)
      → closure_label ≢ tuple_label
      → label ≢ concrete_label
      → s.stack ≡ (v, true) ∷ rest
      → deref h.next h v ≡ pointer a
      → h.cells a ≡ Cells.block is_mutable label vs
      → s.seen a ≡ some (record { index = not_written; var_no = 0 })
      → write_instr (instr_of is_mutable label (length vs)) s.buffer ≡ some c
      → one_turn s ≡ goes (finished a (length vs) c rest s)
  unfolding round back finish_block emit simulate_pop set_written set_index
  turn_back v a is_mutable label vs rest s c ne nc at is_pointer cell noted e =
      rw
        (
          at,
          is_pointer,
          cell,
          noted,
          back,
          finish_block,
          block_instr_same is_mutable label (length vs) ne nc,
          emit,
          e,
          set_written,
          set_index,
          noted,
        )
        refl

-- ===== src/Pickle/Worker/Ends.antt =====
-- generic/Pickler.cc: the loop of the `PickleWorker` ends on every heap.
use aliceml_seam.Base.{
  ℕ, zero, suc, ◌<◌, ◌≤◌, ◌≡◌, ◌≢◌, ◌∙◌, refl, sym, ap, arith, List, [], ◌∷◌, Option, none, some,
  Bool, true, false, ◌==◌, ltb, ltb→lt, ltb→le, if◌then◌else◌, Bool-cases, inl, inr,
}
use aliceml_seam.Pickle.Instr.{Instr}
use aliceml_seam.Pickle.Heap.{Value, Cell, Heap, pointer, unset}
use aliceml_seam.Pickle.Heap as Cells
use aliceml_seam.Pickle.Seen.{Entry, put, add, not_written, written, Pickling, simulate_push}
use aliceml_seam.Pickle.Worker.{
  descend_concrete, Round, goes, pickled, requests, sited, broken, emit, push_words, pushed, again,
  back, visit_seen, visit_new, visit, round, run, deref, return, visit_block,
}
use aliceml_seam.Pickle.Worker.Bound.{
  parts_of, measure, left_kept, put_kept, emit-Knows, Lower, popped,
}
use aliceml_seam.Pickle.Worker.Knows.{
  goes_if-Lower, pushed-Lower, descends, bind_Lower, back-Knows, visit_seen-Knows,
}

module _ (tuple_label closure_label concrete_label transform_label : ℕ) (is_sited : ℕ → Bool)
    (abstract_of : ℕ → Option (Value × Value × ℕ)) (h : Heap)
    (finite : (a : ℕ) → h.next ≤ a → h.cells a ≡ Cells.future) where
  allocated : (a : ℕ) (c : Cell) → h.cells a ≡ c → c ≢ Cells.future → a < h.next
  allocated a c at ne = elim (Bool-cases (ltb a h.next)) [
    | inl lt ↦ ltb→lt a h.next lt
    | inr ge ↦ absurd (ne (sym at ∙ finite a (ltb→le a h.next ge)))
  ]

  concrete_Lower :
      (x : Value) (a : ℕ) (r : Option (Value × Value × ℕ)) (rest : List (Value × Bool))
      (s : Pickling)
      → s.stack ≡ (x, false) ∷ rest
      → s.seen a ≡ none
      → a < h.next
      → 2 ≤ parts_of (h.cells a)
      → Lower h (measure h s) (
          descend_concrete tuple_label closure_label concrete_label transform_label is_sited
            abstract_of x a r rest s)
  unfolding add
  concrete_Lower x a none rest s at new lt few = tt
  concrete_Lower x a (some (name, argument, b)) rest s at new lt few =
      let e : Entry = record { index = not_written; var_no = 0 } in
      descends tuple_label closure_label concrete_label transform_label is_sited abstract_of h s x
        false rest at a e (name ∷ argument ∷ [])
        (record s {
          seen = put b e (put a e s.seen);
          stack = push_words (name ∷ argument ∷ []) ((x, true) ∷ rest);
        })
        refl new lt few
        (left_kept h (put a e s.seen) (put b e (put a e s.seen)) h.next
          (λ c known. put_kept b c e (put a e s.seen) known))
        refl

  seen_Lower :
      (x : Value) (a : ℕ) (c : Cell) (e : Entry) (rest : List (Value × Bool)) (s : Pickling)
      → s.stack ≡ (x, false) ∷ rest
      → Lower h (measure h s) (
          pushed tuple_label closure_label concrete_label transform_label is_sited abstract_of rest
            (visit_seen tuple_label closure_label concrete_label transform_label is_sited
              abstract_of a c e s))
  seen_Lower x a c e rest s at =
      pushed-Lower tuple_label closure_label concrete_label transform_label is_sited abstract_of h s
        x false rest at _
        (λ t ok.
          visit_seen-Knows tuple_label closure_label concrete_label transform_label is_sited
            abstract_of a c e s t ok)

  visit_new-Lower :
      (x : Value) (a : ℕ) (c : Cell) (rest : List (Value × Bool)) (s : Pickling)
      → s.stack ≡ (x, false) ∷ rest
      → h.cells a ≡ c
      → s.seen a ≡ none
      → Lower h (measure h s) (
          visit_new tuple_label closure_label concrete_label transform_label is_sited abstract_of x
            a c rest s)
  unfolding visit_new add
  visit_new-Lower x a (Cells.chunk is_mutable bytes) rest s at cell new =
      let i : Instr = if is_mutable then Instr.mchunk bytes else Instr.chunk bytes in
      bind_Lower h (measure h s) (emit i s)
        (λ t.
          some
            (simulate_push (record t { seen = add a (written t.buffer.pos) t.seen; stack = rest })))
        (λ t ok.
          popped h s
            (simulate_push (record t { seen = add a (written t.buffer.pos) t.seen; stack = rest }))
            x false rest at
            (λ b known.
              put_kept a b (record { index = written t.buffer.pos; var_no = 0 }) t.seen
                (emit-Knows i s t ok b known))
            refl)
  visit_new-Lower x a (Cells.unique_string string) rest s at cell new =
      descends tuple_label closure_label concrete_label transform_label is_sited abstract_of h s x
        false rest at a (record { index = not_written; var_no = 0 }) (string ∷ [])
        (record s {
          seen = add a not_written s.seen;
          stack = push_words (string ∷ []) ((x, true) ∷ rest);
        })
        refl new (allocated a (Cells.unique_string string) cell (λ e. absurd (cc)))
        (omega (arith, ap parts_of cell)) (omega arith) refl
  visit_new-Lower x a (Cells.block is_mutable label args) rest s at cell new =
      let lt = allocated a (Cells.block is_mutable label args) cell (λ e. absurd (cc)) in
      elim (Bool-cases (is_sited label)) [
        | inl a_site ↦ rw a_site tt
        | inr no_site ↦ elim (Bool-cases (label == concrete_label)) [
          | inl concrete ↦
              rw (no_site, concrete)
                (concrete_Lower x a (abstract_of a) rest s at new lt
                  (omega (arith, ap parts_of cell)))
          | inr abstract_ ↦ elim (Bool-cases (label == transform_label)) [
            | inl transform ↦ rw (no_site, abstract_, transform) tt
            | inr plain ↦
                rw (no_site, abstract_, plain)
                  (descends tuple_label closure_label concrete_label transform_label is_sited
                    abstract_of h s x false rest at a (record { index = not_written; var_no = 0 })
                    args
                    (record s {
                      seen = add a not_written s.seen;
                      stack = push_words args ((x, true) ∷ rest);
                    })
                    refl new lt (omega (arith, ap parts_of cell)) (omega arith) refl)
          ]
        ]
      ]
  visit_new-Lower x a Cells.future rest s at cell new = tt
  visit_new-Lower x a (Cells.bound v) rest s at cell new = tt

  abbrev one_round : Pickling → Round
  one_round = round tuple_label closure_label concrete_label transform_label is_sited abstract_of h

  visit_block-Lower :
      (x : Value) (a : ℕ) (c : Cell) (e : Option Entry) (rest : List (Value × Bool)) (s : Pickling)
      → s.stack ≡ (x, false) ∷ rest
      → h.cells a ≡ c
      → s.seen a ≡ e
      → Lower h (measure h s) (
          visit_block tuple_label closure_label concrete_label transform_label is_sited abstract_of
            x a c e rest s)
  visit_block-Lower x a Cells.future e rest s at cell found = tt
  visit_block-Lower x a (Cells.chunk m bs) none rest s at cell new =
      visit_new-Lower x a (Cells.chunk m bs) rest s at cell new
  visit_block-Lower x a (Cells.block m l vs) none rest s at cell new =
      visit_new-Lower x a (Cells.block m l vs) rest s at cell new
  visit_block-Lower x a (Cells.unique_string v) none rest s at cell new =
      visit_new-Lower x a (Cells.unique_string v) rest s at cell new
  visit_block-Lower x a (Cells.bound v) none rest s at cell new =
      visit_new-Lower x a (Cells.bound v) rest s at cell new
  visit_block-Lower x a (Cells.chunk m bs) (some e) rest s at cell found =
      seen_Lower x a _ e rest s at
  visit_block-Lower x a (Cells.block m l vs) (some e) rest s at cell found =
      seen_Lower x a _ e rest s at
  visit_block-Lower x a (Cells.unique_string v) (some e) rest s at cell found =
      seen_Lower x a _ e rest s at
  visit_block-Lower x a (Cells.bound v) (some e) rest s at cell found = seen_Lower x a _ e rest s at

  visit-Lower :
      (x v : Value) (rest : List (Value × Bool)) (s : Pickling)
      → s.stack ≡ (x, false) ∷ rest
      → Lower h (measure h s) (
          visit tuple_label closure_label concrete_label transform_label is_sited abstract_of h x v
            rest s)
  unfolding visit
  visit-Lower x (Cells.posint y) rest s at =
      pushed-Lower tuple_label closure_label concrete_label transform_label is_sited abstract_of h s
        x false rest at (emit (Instr.posint y) s) (emit-Knows (Instr.posint y) s)
  visit-Lower x (Cells.negint y) rest s at =
      pushed-Lower tuple_label closure_label concrete_label transform_label is_sited abstract_of h s
        x false rest at (emit (Instr.negint y) s) (emit-Knows (Instr.negint y) s)
  visit-Lower x (pointer a) rest s at =
      visit_block-Lower x a (h.cells a) (s.seen a) rest s at refl refl
  visit-Lower x unset rest s at = tt

  return-Lower :
      (x v : Value) (rest : List (Value × Bool)) (s : Pickling)
      → s.stack ≡ (x, true) ∷ rest
      → Lower h (measure h s) (
          return tuple_label closure_label concrete_label transform_label is_sited abstract_of h v
            rest s)
  return-Lower x (pointer a) rest s at =
      goes_if-Lower tuple_label closure_label concrete_label transform_label is_sited abstract_of h
        s x true rest at
        (back tuple_label closure_label concrete_label transform_label is_sited abstract_of a
          (h.cells a) s)
        (back-Knows tuple_label closure_label concrete_label transform_label is_sited abstract_of a
          (h.cells a) s)
  return-Lower x (Cells.posint y) rest s at = tt
  return-Lower x (Cells.negint y) rest s at = tt
  return-Lower x unset rest s at = tt

  -- The round, by the stack.
  abbrev round_on : Pickling → List (Value × Bool) → Round
  round_on s [] = pickled s
  round_on s ((x, true) ∷ rest) =
      return tuple_label closure_label concrete_label transform_label is_sited abstract_of h
        (deref h.next h x) rest s
  round_on s ((x, false) ∷ rest) =
      visit tuple_label closure_label concrete_label transform_label is_sited abstract_of h x
        (deref h.next h x) rest s

  round_on-Lower :
      (s : Pickling) (stack : List (Value × Bool))
      → s.stack ≡ stack
      → Lower h (measure h s) (round_on s stack)
  round_on-Lower s [] at = tt
  round_on-Lower s ((x, true) ∷ rest) at = return-Lower x (deref h.next h x) rest s at
  round_on-Lower s ((x, false) ∷ rest) at = visit-Lower x (deref h.next h x) rest s at

  round-Lower : (s : Pickling) → Lower h (measure h s) (one_round s)
  unfolding round
  round-Lower s = round_on-Lower s s.stack refl

  abbrev go_on : (Pickling → Option Round) → Round → Option Round
  go_on = again tuple_label closure_label concrete_label transform_label is_sited abstract_of

  ends_after :
      (f : Pickling → Option Round) (m : ℕ) (r : Round)
      → Lower h m r
      → ((t : Pickling) → measure h t < m → (o : Round) × (f t ≡ some o))
      → (o : Round) × (go_on f r ≡ some o)
  ends_after f m (goes t) low ends = ends t low
  ends_after f m (pickled t) low ends = (pickled t, refl)
  ends_after f m (requests v t) low ends = (requests v t, refl)
  ends_after f m (sited t) low ends = (sited t, refl)
  ends_after f m broken low ends = (broken, refl)

  -- On a heap with finitely many blocks, with sharing and cycles or without, the loop of the
  -- PickleWorker ends, in one of its ways to end, with fuel above a sum: one for each frame of its
  -- stack that is marked and two for each other one, and of the blocks that are not in its table,
  -- two for each unique string, and four for each block of words and two for each of its words.
  pub run_ends :
      (fuel : ℕ) (s : Pickling)
      → measure h s < fuel
      → (o : Round) × (run tuple_label closure_label concrete_label transform_label is_sited
            abstract_of fuel h s
          ≡ some o)
  unfolding run
  run_ends zero s lt = absurd (omega arith)
  run_ends (suc fuel) s lt =
      ends_after
        (λ t.
          run tuple_label closure_label concrete_label transform_label is_sited abstract_of fuel h
            t)
        (measure h s) (one_round s) (round-Lower s) (λ t less. run_ends fuel t (omega arith))

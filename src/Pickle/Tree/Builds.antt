-- ===== src/Pickle/Tree/Builds.antt =====
-- generic/Unpickler.cc: running the instructions of a value pushes a word that stands for it.
use aliceml_seam.Base.{
  ℕ, suc, ◌+◌, ◌≤◌, ◌<◌, ◌≡◌, ◌≢◌, ◌∙◌, refl, sym, ap, subst, arith, List, [], ◌∷◌, ◌++◌, Option,
  none, some, Bool, true, false, length, ==_of_ne, ==_refl, ==→≡, ◌==◌, Bool-cases, inl, inr,
  le→ltb,
}
use aliceml_seam.Pickle.Instr.{Instr}
use aliceml_seam.Pickle.Heap.{Value, Cell, Heap, pointer, alloc}
use aliceml_seam.Pickle.Heap as Cells
use aliceml_seam.Pickle.Frame.{Frame, pop_args}
use aliceml_seam.Pickle.Machine.{
  Machine, Step, next, run_instr, max_valid_int, alloc_block, in_block, push_new, next_frame,
}
use aliceml_seam.Pickle.Machine
use aliceml_seam.Pickle.Tree.{
  Tree, Trees, posint, negint, chunk, node, empty, more, count, code, codes, need, needs, Plain,
  AllPlain, Represents, RepresentsAll, chunk_instr, block_instr, fits_label,
}
use aliceml_seam.Pickle.Tree.Words.{
  OnStack, Extends, Built, pop_args-OnStack, RepresentsAll-kept, Built-more, push-Built,
  alloc-Extends, new_cell, Built-none,
}

-- The next instruction.
abbrev pub and_then : (Machine → Option Machine) → Step → Option Machine
and_then f (next k) = f k
and_then f _ = none

and_then-some :
    (f g : Machine → Option Machine) (x : Step) (k : Machine) (r : Option Machine)
    → and_then f x ≡ some k
    → ((n : Machine) → f n ≡ some k → g n ≡ r)
    → and_then g x ≡ r
and_then-some f g (next n) k r e h = h n e
and_then-some f g (Machine.loaded v n) k r e h = absurd (cc)
and_then-some f g Machine.corrupt k r e h = absurd (cc)
and_then-some f g Machine.broken k r e h = absurd (cc)

module _ (tuple_label closure_label transform_label : ℕ)
    (broker_load : List ℕ → Machine → Machine) where
  abbrev pub instr : Instr → Machine → Step
  instr = run_instr tuple_label closure_label transform_label broker_load

  -- The instructions, without the stream.
  unfoldable pub run_instrs : List Instr → Machine → Option Machine
  unfolding run_instr
  run_instrs [] m = some m
  run_instrs (i ∷ is) m = elim (instr i m) [ next k ↦ run_instrs is k | _ ↦ none ]

  pub run_instrs-append :
      (is js : List Instr) (m k : Machine)
      → run_instrs is m ≡ some k
      → run_instrs (is ++ js) m ≡ run_instrs js k
  unfolding run_instrs
  run_instrs-append [] js m k e = ap (run_instrs js) cc
  run_instrs-append (i ∷ is) js m k e =
      and_then-some (λ n. run_instrs is n) (λ n. run_instrs (is ++ js) n) (instr i m) k
        (run_instrs js k) e (λ n f. run_instrs-append is js n k f)

  pub run_one : (i : Instr) (m l : Machine) → instr i m ≡ next l → run_instrs (i ∷ []) m ≡ some l
  unfolding run_instrs
  run_one i m l e = ap (and_then (λ k. some k)) e

  run_last :
      (is : List Instr) (i : Instr) (m k l : Machine)
      → run_instrs is m ≡ some k
      → instr i k ≡ next l
      → run_instrs (is ++ (i ∷ [])) m ≡ some l
  unfolding run_instrs
  run_last is i m k l e f = run_instrs-append is (i ∷ []) m k e ∙ run_one i k l f

  run_posint :
      (y : ℕ) (m l : Machine)
      → y ≤ max_valid_int
      → push_new m (Cells.posint y, m.heap) ≡ next l
      → instr (Instr.posint y) m ≡ next l
  unfolding run_instr
  run_posint y m l le e = rw (le→ltb max_valid_int y le) e

  run_negint :
      (y : ℕ) (m l : Machine)
      → y ≤ max_valid_int
      → push_new m (Cells.negint y, m.heap) ≡ next l
      → instr (Instr.negint y) m ≡ next l
  unfolding run_instr
  run_negint y m l le e = rw (le→ltb max_valid_int y le) e

  run_chunk :
      (is_mutable : Bool) (bs : List ℕ) (m : Machine)
      → instr (chunk_instr is_mutable bs) m ≡ push_new m (alloc (Cells.chunk is_mutable bs) m.heap)
  unfolding run_instr
  run_chunk true bs m = refl
  run_chunk false bs m = refl

  run_ordinary :
      (is_mutable : Bool) (label size : ℕ) (m : Machine)
      → (label == tuple_label) ≡ false
      → (label == closure_label) ≡ false
      → label ≢ transform_label
      → (vs : List Value) (f : Frame) → pop_args size m.frame ≡ some (vs, f)
      → instr (block_instr tuple_label closure_label is_mutable label size) m
        ≡ push_new
            (record m { frame = f })
            (alloc (Cells.block is_mutable label (in_block vs)) m.heap)
  unfolding run_instr alloc_block
  run_ordinary true label size m nu nc nt vs f e =
      rw (nu, nc, ==_of_ne label transform_label nt, nc, e) refl
  run_ordinary false label size m nu nc nt vs f e =
      rw (nu, nc, ==_of_ne label transform_label nt, nc, e) refl

  pub run_block :
      (is_mutable : Bool) (label size : ℕ) (m : Machine)
      → closure_label ≢ tuple_label
      → label ≢ transform_label
      → fits_label tuple_label closure_label is_mutable label size ≡ true
      → (vs : List Value) (f : Frame) → pop_args size m.frame ≡ some (vs, f)
      → instr (block_instr tuple_label closure_label is_mutable label size) m
        ≡ push_new
            (record m { frame = f })
            (alloc (Cells.block is_mutable label (in_block vs)) m.heap)
  unfolding run_instr alloc_block
  run_block is_mutable label size m ne nt fits vs f e = elim (Bool-cases (label == tuple_label)) [
    | inl is_tuple ↦
        let same : label ≡ tuple_label = ==→≡ label tuple_label is_tuple in
        let immutable : is_mutable ≡ false = ground (arith, rw is_tuple at fits) in
        rw
          (
            immutable,
            same,
            ==_refl tuple_label,
            ==_of_ne tuple_label transform_label (λ x. nt (same ∙ x)),
            ==_of_ne tuple_label closure_label (λ x. ne (sym x)),
            e,
          )
          refl
    | inr other ↦ elim (Bool-cases (label == closure_label)) [
      | inl is_closure ↦
          let same : label ≡ closure_label = ==→≡ label closure_label is_closure in
          let is_closed : (is_mutable ≡ true) × ((size == 0) ≡ false) =
            ground (arith, rw (other, is_closure) at fits) in
          rw
            (
              is_closed.0,
              same,
              ==_of_ne closure_label tuple_label ne,
              ==_refl closure_label,
              ==_of_ne closure_label transform_label (λ x. nt (same ∙ x)),
              ==_refl closure_label,
              is_closed.1,
              e,
            )
            refl
      | inr ordinary ↦ run_ordinary is_mutable label size m other ordinary nt vs f e
    ]
  ]

  mutual
    unfolding code need Plain Represents alloc run_instrs

    code_builds :
        (t : Tree) (m : Machine)
        → closure_label ≢ tuple_label
        → Plain tuple_label closure_label transform_label t
        → m.frame.top + need t ≤ m.frame.size
        → (k : Machine) × (v : Value) × (run_instrs (code tuple_label closure_label t) m ≡ some k)
          × Built m k (v ∷ [])
          × Represents k.heap v t
    code_builds (posint y) m labels_differ p room =
        let (l, e, b, same) =
          push-Built m m m.heap (Cells.posint y) [] (Built-none m) (Built-none m).extends
            (omega arith) in
        (l, Cells.posint y, run_one (Instr.posint y) m l (run_posint y m l p e), b, refl)
    code_builds (negint y) m labels_differ p room =
        let (l, e, b, same) =
          push-Built m m m.heap (Cells.negint y) [] (Built-none m) (Built-none m).extends
            (omega arith) in
        (l, Cells.negint y, run_one (Instr.negint y) m l (run_negint y m l p e), b, refl)
    code_builds (chunk is_mutable bs) m labels_differ p room =
        let new = alloc (Cells.chunk is_mutable bs) m.heap in
        let (l, e, b, same) =
          push-Built m m new.1 new.0 [] (Built-none m)
            (alloc-Extends (Cells.chunk is_mutable bs) m.heap) (omega arith) in
        (
          l,
          new.0,
          run_one (chunk_instr is_mutable bs) m l (run_chunk is_mutable bs m ∙ e),
          b,
          (let (lt, cell) = new_cell (Cells.chunk is_mutable bs) m.heap l.heap same in
              (m.heap.next, refl, lt, cell)),
        )
    code_builds (node is_mutable label ts) m labels_differ (not_transform, fits, p) room =
        let (k, vs, e, x, len, rs) = codes_build ts m labels_differ p (omega arith) in
        let new = alloc (Cells.block is_mutable label (in_block vs)) k.heap in
        let (l, f, b, same) =
          push-Built m k new.1 new.0 vs x
            (alloc-Extends (Cells.block is_mutable label (in_block vs)) k.heap) (omega arith) in
        (
          l,
          new.0,
          run_last (codes tuple_label closure_label ts)
              (block_instr tuple_label closure_label is_mutable label (count ts)) m k l e
              (run_block is_mutable label (count ts) k labels_differ not_transform fits vs
                  (record k.frame { top = m.frame.top })
                  (subst (λ n. pop_args n k.frame ≡ some (vs, record k.frame { top = m.frame.top }))
                    len (pop_args-OnStack vs k.frame m.frame.top x.on_stack x.top_at))
                ∙ f),
          b,
          (let (lt, cell) =
                new_cell (Cells.block is_mutable label (in_block vs)) k.heap l.heap same in
              (
                k.heap.next,
                vs,
                refl,
                lt,
                cell,
                RepresentsAll-kept ts k.heap l.heap vs
                    (subst (Extends k.heap) (sym same)
                      (alloc-Extends (Cells.block is_mutable label (in_block vs)) k.heap))
                    rs,
              )),
        )

    codes_build :
        (ts : Trees) (m : Machine)
        → closure_label ≢ tuple_label
        → AllPlain tuple_label closure_label transform_label ts
        → m.frame.top + needs ts ≤ m.frame.size
        → (k : Machine) × (vs : List Value) × (run_instrs (codes tuple_label closure_label ts) m
            ≡ some k)
          × Built m k vs
          × (length vs ≡ count ts)
          × RepresentsAll k.heap vs ts
    codes_build empty m labels_differ p room = (m, [], refl, Built-none m, refl, tt)
    codes_build (more t ts) m labels_differ (p, ps) room =
        let (k, vs, e, x, len, rs) = codes_build ts m labels_differ ps (omega arith) in
        let (l, v, f, y, r) =
          code_builds t k labels_differ p (omega (arith, x.top_at, x.size_same)) in
        (
          l,
          v ∷ vs,
          run_instrs-append (codes tuple_label closure_label ts) (code tuple_label closure_label t)
                m k e
              ∙ f,
          Built-more m k l v vs x y,
          ap suc len,
          (r, RepresentsAll-kept ts k.heap l.heap vs y.extends rs),
        )

  -- The instructions of a value with integers of 30 bits, without labels of transforms, with
  -- immutable tuples and mutable closures of at least one word, where the labels of tuples and
  -- closures differ, run on a machine with the stack that the value needs, end with one more word
  -- on the stack, which stands for the value in new blocks, where a block whose size is rounded up
  -- has unset words behind its parts; the size of the frame and the words below are the same.
  pub run_instrs-code :
      (t : Tree) (m : Machine) (j : ℕ)
      → closure_label ≢ tuple_label
      → Plain tuple_label closure_label transform_label t
      → m.frame.top + need t ≤ m.frame.size
      → j < m.frame.top
      → (k : Machine) × (run_instrs (code tuple_label closure_label t) m ≡ some k)
        × (k.frame.top ≡ m.frame.top + 1)
        × (k.frame.size ≡ m.frame.size)
        × (k.frame.slots j ≡ m.frame.slots j)
        × Represents k.heap (k.frame.slots m.frame.top) t
  unfolding OnStack
  run_instrs-code t m j labels_differ p room lt =
      let (k, v, e, b, r) = code_builds t m labels_differ p room in
      let at : k.frame.slots m.frame.top ≡ v =
        ap k.frame.slots {x = m.frame.top} {y = m.frame.top + 0} (omega arith) ∙ b.on_stack.0 in
      (k, e, b.top_at, b.size_same, b.kept j lt, subst (λ w. Represents k.heap w t) (sym at) r)

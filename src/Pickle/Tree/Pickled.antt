-- ===== src/Pickle/Tree/Pickled.antt =====
-- generic/Pickler.cc and generic/Unpickler.cc: the pickle of a value, written and loaded.
use aliceml_seam.Base.{
  ℕ, suc, ◌+◌, ◌-◌, ◌<◌, ◌≤◌, ◌≡◌, ◌≢◌, ◌∙◌, refl, sym, ap, subst, arith, List, [], ◌∷◌, ◌++◌, some,
  length, length-append, lt→ltb, ◌==◌, if◌then◌else◌,
}
use aliceml_seam.Pickle.Output.{OutputBuffer}
use aliceml_seam.Pickle.Output.Writes.{IsValid}
use aliceml_seam.Pickle.Instr.{Instr, end_of_stream}
use aliceml_seam.Pickle.Write.{parts, tag_number}
use aliceml_seam.Pickle.Write.Reads.{Fits, Written, at}
use aliceml_seam.Pickle.Heap.{Value}
use aliceml_seam.Pickle.Frame
use aliceml_seam.Pickle.Machine.{Machine, next, run_instr}
use aliceml_seam.Pickle.Run.{loaded}
use aliceml_seam.Pickle.Tree.{Tree, posint, negint, chunk, node, code, need, Plain, Represents}
use aliceml_seam.Pickle.Tree.Builds.{run_instrs-append, run_one, run_instrs-code}
use aliceml_seam.Pickle.Tree.Loads.{
  write_instrs, AllFit, AllWritten, write_instrs-AllWritten, rounds, rounds_length, run_string,
  run_written, run_end,
}

-- The instructions of a value, and what `WriteToStream` writes after them.
unfoldable pub pickled : (tuple_label closure_label : ℕ) → Tree → List Instr
pickled tuple_label closure_label t =
    (code tuple_label closure_label t ++ (Instr.store 0 ∷ [])) ++ (end_of_stream ∷ [])

pub AllWritten-append :
    (xs ys : List Instr) (buffer : ℕ → ℕ) (i j : ℕ)
    → AllWritten (xs ++ ys) buffer i j
    → (n : ℕ) × AllWritten xs buffer i n × AllWritten ys buffer n j
unfolding AllWritten
AllWritten-append [] ys buffer i j w = (i, refl, w)
AllWritten-append (x ∷ xs) ys buffer i j (a, w, ws) =
    let (n, us, vs) = AllWritten-append xs ys buffer a j ws in (n, (a, w, us), vs)

pub AllFit-append : (xs ys : List Instr) → AllFit xs → AllFit ys → AllFit (xs ++ ys)
unfolding AllFit
AllFit-append [] ys f g = g
AllFit-append (x ∷ xs) ys (ne, f, fs) g = (ne, f, AllFit-append xs ys fs g)

pub store-AllFit : AllFit (Instr.store 0 ∷ [])
unfolding AllFit Fits parts tag_number
store-AllFit = ((λ e. absurd (cc)), (omega arith, tt), tt)

pub end-AllFit : AllFit (end_of_stream ∷ [])
unfolding AllFit Fits parts tag_number
end-AllFit = ((λ e. absurd (cc)), tt, tt)

pub need_pos : (t : Tree) → 0 < need t
unfolding need
need_pos (posint y) = omega arith
need_pos (negint y) = omega arith
need_pos (chunk is_mutable bs) = omega arith
need_pos (node is_mutable label ts) = omega arith

module _ (tuple_label closure_label transform_label : ℕ)
    (broker_load : List ℕ → Machine → Machine) where
  -- The topmost word becomes the local 0.
  run_store :
      (k : Machine) (top : ℕ)
      → k.frame.top ≡ top + 1
      → k.frame.top ≤ k.frame.size
      → (l : Machine) × (run_instr tuple_label closure_label transform_label broker_load
            (Instr.store 0)
            k
          ≡ next l)
        × (Frame.load 0 l.frame ≡ some (k.frame.slots top))
        × (l.heap ≡ k.heap)
  unfolding run_instr Frame.load Frame.store Frame.put Frame.top_value
  run_store k top at room = (
    record k {
      frame = record k.frame {
        slots = λ j. if j == 0 then k.frame.slots (k.frame.top - 1) else k.frame.slots j;
      };
    },
    rw (lt→ltb 0 k.frame.top (omega (arith, at)), lt→ltb 0 k.frame.size (omega (arith, at))) refl,
    rw (lt→ltb 0 k.frame.size (omega (arith, at)))
        (ap some (ap k.frame.slots {x = k.frame.top - 1} {y = top} (omega (arith, at)))),
    refl,
  )

  -- The instructions of a value that stand in a buffer, whatever follows them, load a word that
  -- stands for it.
  pub run_pickled :
      (t : Tree) (m : Machine) (n : ℕ) (buffer : ℕ → ℕ) (i last tl : ℕ)
      → closure_label ≢ tuple_label
      → Plain tuple_label closure_label transform_label t
      → AllFit (code tuple_label closure_label t)
      → 0 < m.frame.top
      → m.frame.top + need t ≤ m.frame.size
      → AllWritten (pickled tuple_label closure_label t) buffer i last
      → last ≤ tl
      → length (code tuple_label closure_label t) + 1 < n
      → (v : Value) × (k : Machine) × (run_string tuple_label closure_label transform_label
            broker_load n m
            (at buffer i tl i)
          ≡ some (loaded v k))
        × Represents k.heap v t
  unfolding pickled AllWritten Written parts tag_number
  run_pickled t m n buffer i last tl labels_differ plain fit local room w below fuel =
      let xs = code tuple_label closure_label t ++ (Instr.store 0 ∷ []) in
      let fits =
        AllFit-append (code tuple_label closure_label t) (Instr.store 0 ∷ []) fit store-AllFit in
      let (k, ran, top_at, size_same, kept, r) =
        run_instrs-code tuple_label closure_label transform_label broker_load t m 0 labels_differ
          plain room local in
      let (l, stored, at_zero, same_heap) =
        run_store k m.frame.top top_at (omega (arith, need_pos t)) in
      let ran_all =
        run_instrs-append tuple_label closure_label transform_label broker_load
          (code tuple_label closure_label t) (Instr.store 0 ∷ []) m k ran
        ∙ run_one tuple_label closure_label transform_label broker_load (Instr.store 0) k l
            stored in
      let (j, us, (end, (nineteen, next_at), end_at)) =
        AllWritten-append xs (end_of_stream ∷ []) buffer i last w in
      let v = k.frame.slots m.frame.top in
      let rest = n - (length (code tuple_label closure_label t) + 2) in
      let fuel_is : rounds xs (suc rest) ≡ n =
        rounds_length xs (suc rest)
        ∙ omega (arith, length-append (code tuple_label closure_label t) (Instr.store 0 ∷ [])) in
      (
        v,
        l,
        subst
            (λ q.
              run_string tuple_label closure_label transform_label broker_load q m
                (at buffer i tl i)
              ≡ some (loaded v l))
            fuel_is
            (run_written tuple_label closure_label transform_label broker_load xs (suc rest) m l
                buffer i j tl us fits (omega (arith, below, next_at, end_at)) ran_all
              ∙ run_end tuple_label closure_label transform_label broker_load rest l buffer j tl v
                  nineteen (omega (arith, below, next_at, end_at)) at_zero),
        subst (λ h. Represents h v t) (sym same_heap) r,
      )

  -- If a value without sharing has integers of 30 bits, no labels of transforms, immutable tuples,
  -- mutable closures of at least one word, and sizes below 2 ^ 31, the labels of tuples and
  -- closures differ, and the machine has a local and the stack that the value needs: its
  -- instructions, STORE 0 and ENDOFSTREAM can be written to a valid output buffer, and the loop of
  -- the UnpickleWorker on what was written, with one more round than these instructions but the
  -- last, loads a word that stands for the value.
  pub load-pickled :
      (t : Tree) (m : Machine) (b : OutputBuffer) (n : ℕ)
      → closure_label ≢ tuple_label
      → Plain tuple_label closure_label transform_label t
      → AllFit (code tuple_label closure_label t)
      → 0 < m.frame.top
      → m.frame.top + need t ≤ m.frame.size
      → IsValid b
      → length (code tuple_label closure_label t) + 1 < n
      → (c : OutputBuffer) × (v : Value) × (k : Machine) × (write_instrs
            (pickled tuple_label closure_label t)
            b
          ≡ some c)
        × (run_string tuple_label closure_label transform_label broker_load n m
              (at c.buffer b.pos c.pos b.pos)
            ≡ some (loaded v k))
        × Represents k.heap v t
  unfolding pickled
  load-pickled t m b n labels_differ plain fit local room valid fuel =
      let fits =
        AllFit-append (code tuple_label closure_label t) (Instr.store 0 ∷ []) fit store-AllFit in
      let (c, e, w, before) =
        write_instrs-AllWritten (pickled tuple_label closure_label t) b valid (
          AllFit-append (code tuple_label closure_label t ++ (Instr.store 0 ∷ [])) _ fits
            end-AllFit) in
      let (v, k, ran, r) =
        run_pickled t m n c.buffer b.pos c.pos c.pos labels_differ plain fit local room w
          (omega arith) fuel in
      (c, v, k, e, ran, r)

-- ===== src/Pickle/Worker/Whole.antt =====
-- generic/Pickler.cc: the `PickleWorker` from its start to its end.
use aliceml_seam.Base.{
  ℕ, ◌+◌, ◌^◌, ◌<◌, ◌≡◌, ◌≢◌, ◌∙◌, refl, arith, List, [], ◌∷◌, Option, none, some, Bool, max,
}
use aliceml_seam.Pickle.Output.{OutputBuffer}
use aliceml_seam.Pickle.Output as Output
use aliceml_seam.Pickle.Output.Writes.{IsValid, new-IsValid}
use aliceml_seam.Pickle.Heap.{Value, Heap}
use aliceml_seam.Pickle.Seen.{Pickling}
use aliceml_seam.Pickle.Seen as Seen
use aliceml_seam.Pickle.Worker.{Round, pickled, round, run}
use aliceml_seam.Pickle.Worker.Walk.{
  Distinct, AllNew, Stands, Known, turns, measured, all_measured, above, count_le_needs,
}
use aliceml_seam.Pickle.Worker.Writes.{walk}
use aliceml_seam.Pickle.Tree.{
  Tree, Trees, posint, negint, chunk, node, empty, more, count, code, need, needs,
}
use aliceml_seam.Pickle.Tree.Pickled.{need_pos}
use aliceml_seam.Pickle.Tree.Loads.{AllFit, write_instrs}

all_new : (as_ : List ℕ) → AllNew (λ a. none) as_
unfolding AllNew
all_new [] = tt
all_new (a ∷ as_) = (refl, all_new as_)

-- Every block has a part.
unfoldable mutual
  pub Full : Tree → Type 0
  Full (node is_mutable label ts) = (0 < count ts) × AllFull ts
  Full _ = Unit

  pub AllFull : Trees → Type 0
  AllFull empty = Unit
  AllFull (more t ts) = Full t × AllFull ts

above_zero : (m : ℕ) → max 0 (above 0 m) ≡ m
unfolding above
above_zero m = ground arith

above_pos : (n m : ℕ) → 0 < m → above n m ≡ n + m
unfolding above
above_pos n m lt = ground arith

module _ (tuple_label closure_label concrete_label transform_label : ℕ) (is_sited : ℕ → Bool)
    (abstract_of : ℕ → Option (Value × Value × ℕ)) where
  abbrev pub worker : ℕ → Heap → Pickling → Option Round
  worker = run tuple_label closure_label concrete_label transform_label is_sited abstract_of

  run_end : (h : Heap) (s : Pickling) → s.stack ≡ [] → worker 1 h s ≡ some (pickled s)
  unfolding run round
  run_end h s at = rw at refl

  -- If the root is, behind the futures that are bound, a value without sharing, the labels of
  -- tuples and closures differ, no block has a sited label or one of a concrete representation or
  -- a transform, sizes and numbers are below 2 ^ 31, and the value needs a stack of less than 2 ^
  -- 32 words: the loop of the PickleWorker ends, after one round for each integer and chunk, two
  -- for each block and one more, with a valid buffer that holds what writing the instructions of
  -- the value gives, those for the parts of a block, the last part first, before that of the
  -- block; the largest height that it finds is the one that these instructions reach, where an
  -- instruction for a block without parts does not count.
  pub run_writes_code :
      (h : Heap) (root : Value) (t : Tree) (blocks : List ℕ)
      → closure_label ≢ tuple_label
      → Stands h root t blocks
      → Distinct blocks
      → Known concrete_label transform_label is_sited t
      → AllFit (code tuple_label closure_label t)
      → need t < 2 ^ 32
      → (s : Pickling) × (worker (turns t + 1) h (Seen.new root) ≡ some (pickled s))
        × (write_instrs (code tuple_label closure_label t) Output.new ≡ some s.buffer)
        × IsValid s.buffer
        × (s.max_height ≡ measured t)
  unfolding Seen.new
  run_writes_code h root t blocks ne stands d known fit room =
      let (s, done, at, w) =
        walk tuple_label closure_label concrete_label transform_label is_sited abstract_of h t root
          blocks [] (Seen.new root) ne stands d (all_new blocks) known fit new-IsValid (omega arith)
          refl in
      (s, done 1 ∙ run_end h s at, w.wrote, w.valid, w.max_height ∙ above_zero (measured t))

-- Then the worker finds what the instructions need.
mutual
  unfolding Full measured need

  pub measured-Full : (t : Tree) → Full t → measured t ≡ need t
  measured-Full (posint y) f = refl
  measured-Full (negint y) f = refl
  measured-Full (chunk is_mutable bs) f = refl
  measured-Full (node is_mutable label ts) (some_, f) =
      omega (arith, some_, all_measured-Full ts f, count_le_needs ts)

  all_measured-Full : (ts : Trees) → AllFull ts → all_measured ts ≡ needs ts
  all_measured-Full empty f = refl
  all_measured-Full (more t ts) (f, fs) =
      let same = measured-Full t f in
      let pos = need_pos t in
      let sum = above_pos (count ts) (measured t) (omega arith) in
      omega (arith, sum, all_measured-Full ts fs)

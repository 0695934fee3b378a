-- ===== src/Pickle/Save/Whole.antt =====
-- generic/Pickler.cc and generic/Unpickler.cc: `Pickler::Pack`, and `Unpickler::Load` of its result.
use aliceml_seam.Base.{
  ℕ, suc, ◌+◌, ◌<◌, ◌≤◌, ◌≡◌, ◌≢◌, ◌∙◌, refl, subst, arith, List, [], ◌∷◌, ◌++◌, Option, some, Bool,
  length, tabulate, length-tabulate,
}
use aliceml_seam.Store.Block.{Word}
use aliceml_seam.Sched.TaskStack.{Frames, max_dynblocksize}
use aliceml_seam.Pickle.Output.{OutputBuffer}
use aliceml_seam.Pickle.Output as Output
use aliceml_seam.Pickle.Output.Writes as Buffer
use aliceml_seam.Pickle.Stream.{new_from_string}
use aliceml_seam.Pickle.Instr.{Instr, end_of_stream}
use aliceml_seam.Pickle.Write.{parts, tag_number}
use aliceml_seam.Pickle.Write.Reads.{Fits, Written, at}
use aliceml_seam.Pickle.Heap.{Value, Heap}
use aliceml_seam.Pickle.Frame
use aliceml_seam.Pickle.Machine.{Machine, max_valid_int}
use aliceml_seam.Pickle.Run.{loaded}
use aliceml_seam.Pickle.Seen.{Pickling}
use aliceml_seam.Pickle.Seen as Seen
use aliceml_seam.Pickle.Worker.{pickled}
use aliceml_seam.Pickle.Worker.Walk.{Distinct, Stands, Known, turns}
use aliceml_seam.Pickle.Worker.Whole.{worker, run_writes_code, Full, measured-Full}
use aliceml_seam.Pickle.Tree.{Tree, code, need, Plain, Represents}
use aliceml_seam.Pickle.Tree.Loads.{
  AllFit, AllWritten, Written-kept, write_instrs, write_instrs-AllWritten,
}
use aliceml_seam.Pickle.Tree.Pickled as Tree
use aliceml_seam.Pickle.Tree.Pickled.{run_pickled}
use aliceml_seam.Pickle.Check.{unpack, unpacked}
use aliceml_seam.Pickle.Check.Enters.{unpack-enter}
use aliceml_seam.Pickle.Check.Reads.{check_string-header}
use aliceml_seam.Pickle.Save.{StringStream, write_to_stream, close}
use aliceml_seam.Pickle.Save as Save
use aliceml_seam.Pickle.Save.Writes.{new-IsValid}
use aliceml_seam.Pickle.Save.Parts.{
  save_parts-Written, header_parts, body_parts, write_to_stream-plain,
}
use aliceml_seam.Pickle.Save.Moved.{
  write_instrs-loc_count, AllWritten-moved, AllWritten-join, Holds-tabulate,
}

header-Fits : (max_height : ℕ) → max_height ≤ max_valid_int → Fits (header_parts max_height 0)
unfolding Fits
header-Fits max_height small = (omega arith, (omega arith, (omega arith, (omega arith, tt))))

body-Fits : (b : OutputBuffer) → Fits (body_parts b)
unfolding Fits
body-Fits b = (omega arith, tt)

-- What stands in the string behind the header.
body-Written :
    (xs : List Instr) (b : OutputBuffer) (string : ℕ → ℕ) (i j : ℕ)
    → AllWritten xs b.buffer 0 b.pos
    → Written (body_parts b) string i j
    → AllWritten ((xs ++ (Instr.store 0 ∷ [])) ++ (end_of_stream ∷ [])) string i j
unfolding AllWritten Written parts tag_number
body-Written xs b string i j w (h, (stored, (bs, zero_is, number, (ended, at_end)))) =
    let k = i + length (tabulate b.pos b.buffer) in
    let moved =
      subst (λ n. AllWritten xs string n (i + b.pos)) {x = i + 0} {y = i} (omega arith)
        (AllWritten-moved xs b.buffer string i 0 b.pos w
          (λ n lt. Holds-tabulate b.pos b.buffer string i n h lt)) in
    let first =
      subst (AllWritten xs string i) {x = i + b.pos} {y = k}
        (omega (arith, length-tabulate b.pos b.buffer)) moved in
    AllWritten-join (xs ++ (Instr.store 0 ∷ [])) (end_of_stream ∷ []) string i (k + 1 + length bs) j
      (AllWritten-join xs (Instr.store 0 ∷ []) string i k (k + 1 + length bs) first
        (k + 1 + length bs, (stored, (bs, zero_is, number, refl)), refl))
      (j, (ended, at_end), refl)

body_later :
    (b : OutputBuffer) (string : ℕ → ℕ) (i j : ℕ) → Written (body_parts b) string i j → i < j
unfolding Written
body_later b string i j (h, (stored, (bs, zero_is, number, (ended, at_end)))) =
    omega (arith, at_end)

-- `WriteToStream` of a buffer with the instructions of a value, and what stands where.
pub saved :
    (xs : List Instr) (b : OutputBuffer) (max_height : ℕ)
    → write_instrs xs Output.new ≡ some b
    → AllFit xs
    → max_height ≤ max_valid_int
    → (u : StringStream) × (i : ℕ) × (write_to_stream b max_height Save.new ≡ some u)
      × Written (header_parts max_height 0) u.string 0 i
      × (i < u.pos)
      × (u.pos < u.size)
      × AllWritten ((xs ++ (Instr.store 0 ∷ [])) ++ (end_of_stream ∷ [])) u.string i u.pos
unfolding Save.new Output.new
saved xs b max_height wrote fits small =
    let (c, e, w, before) = write_instrs-AllWritten xs Output.new Buffer.new-IsValid fits in
    let same : c ≡ b = cc in
    let (t, f, valid, header_at, _) =
      save_parts-Written (header_parts max_height 0) Save.new new-IsValid
        (header-Fits max_height small) in
    let (u, g, fit, body_at, kept) = save_parts-Written (body_parts b) t valid (body-Fits b) in
    (
      u,
      t.pos,
      write_to_stream-plain b max_height Save.new t (write_instrs-loc_count xs Output.new b wrote) f
          ∙ g,
      Written-kept (header_parts max_height 0) t.string u.string 0 t.pos header_at kept,
      body_later b u.string t.pos u.pos body_at,
      fit.fits,
      body-Written xs b u.string t.pos u.pos (subst (λ d. AllWritten xs d.buffer 0 d.pos) same w)
          body_at,
    )

module _ (tuple_label closure_label concrete_label transform_label : ℕ) (is_sited : ℕ → Bool)
    (abstract_of : ℕ → Option (Value × Value × ℕ)) (broker_load : List ℕ → Machine → Machine)
    (empty_task : Word) where
  -- If the root is, behind the futures that are bound, a value without sharing, with integers of
  -- 30 bits, sizes below 2 ^ 31, no empty blocks, immutable tuples, mutable closures, no sited
  -- label and none of a concrete representation or a transform, the labels of tuples and closures
  -- differ, and there is a task stack of at least four words that is not larger than the largest
  -- block, on which the frames of Unpack, with the stack that the value needs, end below this
  -- limit: the PickleWorker ends, WriteToStream writes its buffer to a new string, and Unpack of
  -- the string that Close returns, whose size is the capacity of the stream, with fuel for two
  -- more instructions than those of the value, ends with a word that stands for the value.
  pub unpack-write_to_stream :
      (h : Heap) (root : Value) (t : Tree) (blocks : List ℕ) (frames : Frames) (rounds : ℕ)
      (m : Machine) (n : ℕ)
      → closure_label ≢ tuple_label
      → Stands h root t blocks
      → Distinct blocks
      → Known concrete_label transform_label is_sited t
      → Plain tuple_label closure_label transform_label t
      → AllFit (code tuple_label closure_label t)
      → Full t
      → 4 ≤ frames.stack.size
      → frames.stack.size ≤ max_dynblocksize
      → max_dynblocksize ≤ rounds + frames.stack.size
      → frames.top + (need t + 5) < max_dynblocksize
      → length (code tuple_label closure_label t) + 1 < n
      → (s : Pickling) × (u : StringStream) × (v : Value) × (k : Machine) × (worker tuple_label
            closure_label concrete_label transform_label is_sited abstract_of
            (turns t + 1)
            h
            (Seen.new root)
          ≡ some (pickled s))
        × (write_to_stream s.buffer s.max_height Save.new ≡ some u)
        × (unpack tuple_label closure_label transform_label broker_load
              (suc rounds)
              empty_task
              frames
              n
              m
              (close u).value
              (close u).size
            ≡ some (unpacked (loaded v k)))
        × Represents k.heap v t
  unfolding new_from_string close Frame.new Tree.pickled
  unpack-write_to_stream h root t blocks frames rounds m n ne stands d known plain fits full least
        bound enough room fuel =
      let (s, done, wrote, valid, measured_at) =
        run_writes_code tuple_label closure_label concrete_label transform_label is_sited
          abstract_of h root t blocks ne stands d known fits (omega arith) in
      let height_at = measured_at ∙ measured-Full t full in
      let (u, i, written, header_at, later, fit, body_at) =
        saved (code tuple_label closure_label t) s.buffer s.max_height wrote fits
          (omega (arith, height_at)) in
      let (v, k, ran, stands_for) =
        run_pickled tuple_label closure_label transform_label broker_load t
          (record m { frame = Frame.new s.max_height 1 }) n u.string i u.pos u.size ne plain fits
          (omega arith) (omega (arith, height_at)) body_at (omega arith) fuel in
      (
        s,
        u,
        v,
        k,
        done,
        written,
        unpack-enter tuple_label closure_label transform_label broker_load rounds empty_task frames
            n s.max_height 1 m u.string u.size (at u.string i u.size i) (loaded v k) least bound
            enough (omega (arith, height_at))
            (check_string-header u.string u.size s.max_height 0 0 i (omega (arith, height_at))
              (omega arith) header_at (omega arith))
            ran,
        stands_for,
      )

-- ===== src/Pickle/Save/Empty.antt =====
-- generic/Pickler.cc and generic/Unpickler.cc: the pickle of an empty block.
use aliceml_seam.Base.{
  ℕ, suc, ◌+◌, ◌<◌, ◌≤◌, none, subst, ◌≡◌, ◌≢◌, ◌∙◌, refl, ap, arith, List, Option, [], ◌∷◌, ◌++◌,
  some, Bool, ◌==◌, Bool-cases, inl, inr, le→ltb,
}
use aliceml_seam.Store.Block.{Word}
use aliceml_seam.Sched.TaskStack.{Frames, max_dynblocksize}
use aliceml_seam.Pickle.{InputStream, commit}
use aliceml_seam.Pickle.Format.{got, run_stream}
use aliceml_seam.Pickle.Stream.{fetch_string, new_from_string, outcome, fetched}
use aliceml_seam.Pickle.Instr.{Instr, instr_format, end_of_stream}
use aliceml_seam.Pickle.Write.{parts}
use aliceml_seam.Pickle.Write.Reads.{Written, Written-le, run_stream-Parses, at, after}
use aliceml_seam.Pickle.Write.Round.{ending, parts-Parses}
use aliceml_seam.Pickle.Heap.{Value, Heap}
use aliceml_seam.Pickle.Frame.{pop_args}
use aliceml_seam.Pickle.Frame
use aliceml_seam.Pickle.Machine.{Machine, Step, max_valid_int, push_new, run_instr}
use aliceml_seam.Pickle.Machine
use aliceml_seam.Pickle.Run.{run, after_fetch, after_step}
use aliceml_seam.Pickle.Run as Run
use aliceml_seam.Pickle.Seen.{Pickling}
use aliceml_seam.Pickle.Seen as Seen
use aliceml_seam.Pickle.Worker.{pickled}
use aliceml_seam.Pickle.Worker.Walk.{Distinct, NotIn, Stands, Known, turns, measured}
use aliceml_seam.Pickle.Worker.Whole.{worker, run_writes_code}
use aliceml_seam.Pickle.Tree.{node, empty, code, need, Plain, block_instr}
use aliceml_seam.Pickle.Tree.Builds.{run_block}
use aliceml_seam.Pickle.Tree.Loads.{AllFit, AllWritten, run_string, step}
use aliceml_seam.Pickle.Check.{header, unpack, unpacked, check_string}
use aliceml_seam.Pickle.Check.Enters.{unpack-enter}
use aliceml_seam.Pickle.Check.Reads.{check_string-header}
use aliceml_seam.Pickle.Save.{StringStream, write_to_stream, close}
use aliceml_seam.Pickle.Save as Save
use aliceml_seam.Pickle.Save.Whole.{saved}

block_instr_committed :
    (tuple_label closure_label : ℕ) (is_mutable : Bool) (label size : ℕ)
    → ending (block_instr tuple_label closure_label is_mutable label size)
      ≡ got (block_instr tuple_label closure_label is_mutable label size)
block_instr_committed tuple_label closure_label is_mutable label size =
    elim (Bool-cases (label == tuple_label)) [
      | inl a ↦ rw a refl
      | inr a ↦ elim (Bool-cases (label == closure_label)) [
        | inl b ↦ rw (a, b) refl
        | inr b ↦ elim (Bool-cases is_mutable) [
          | inl c ↦ rw (a, b, c) refl
          | inr c ↦ rw (a, b, c) refl
        ]
      ]
    ]

module _ (tuple_label closure_label transform_label : ℕ)
    (broker_load : List ℕ → Machine → Machine) where
  run_broken :
      (i : Instr) (n : ℕ) (m : Machine) (s t : InputStream)
      → run_stream instr_format s ≡ (got i, t)
      → step tuple_label closure_label transform_label broker_load i m ≡ Machine.broken
      → run_string tuple_label closure_label transform_label broker_load (suc n) m s
        ≡ some Run.broken
  unfolding run fetch_string
  run_broken i n m s t e f =
      ap
        (λ p.
          after_fetch tuple_label closure_label transform_label broker_load
            (λ k u. run_string tuple_label closure_label transform_label broker_load n k u) m
            (some (outcome p.0, p.1)))
        e
      ∙ ap
          (after_step (λ k. run_string tuple_label closure_label transform_label broker_load n k t))
          f

  -- A full frame has no room for the block.
  push_full :
      (is_mutable : Bool) (label : ℕ) (m : Machine)
      → closure_label ≢ tuple_label
      → Plain tuple_label closure_label transform_label (node is_mutable label empty)
      → m.frame.top ≡ m.frame.size
      → step tuple_label closure_label transform_label broker_load
          (block_instr tuple_label closure_label is_mutable label 0)
          m
        ≡ Machine.broken
  unfolding Plain pop_args Frame.push
  push_full is_mutable label m ne (nt, fits, _) full =
      run_block tuple_label closure_label transform_label broker_load is_mutable label 0 m ne nt
        fits [] m.frame refl
      ∙ rw (le→ltb m.frame.top m.frame.size (omega (arith, full))) refl

  -- The instruction of the block is read, and has no room.
  run_empty :
      (is_mutable : Bool) (label n : ℕ) (m : Machine) (buffer : ℕ → ℕ) (i last tl : ℕ)
      → closure_label ≢ tuple_label
      → Plain tuple_label closure_label transform_label (node is_mutable label empty)
      → AllFit (block_instr tuple_label closure_label is_mutable label 0 ∷ [])
      → m.frame.top ≡ m.frame.size
      → AllWritten
          (((block_instr tuple_label closure_label is_mutable label 0 ∷ []) ++ (Instr.store 0 ∷ []))
            ++ (end_of_stream ∷ []))
          buffer
          i
          last
      → last ≤ tl
      → (u : InputStream) × (fetch_string instr_format (at buffer i tl i)
          ≡ (fetched (block_instr tuple_label closure_label is_mutable label 0), u))
        × (run_string tuple_label closure_label transform_label broker_load
              (suc n)
              m
              (at buffer i tl i)
            ≡ some Run.broken)
  unfolding AllWritten AllFit Written parts commit fetch_string
  run_empty is_mutable label n m buffer i last tl ne plain (known, fit, _) full
        (a, written, (b, stored, (c, (ended, at_c), at_end))) below =
      let x = block_instr tuple_label closure_label is_mutable label 0 in
      let later = Written-le (parts (Instr.store 0)) buffer a b stored in
      let read =
        run_stream-Parses buffer i tl instr_format (parts x) (ending x) i a (parts-Parses x known)
          fit written (omega (arith, at_c, at_end))
        ∙ ap (λ r. (r, after buffer i tl r a))
            (block_instr_committed tuple_label closure_label is_mutable label 0) in
      (
        at buffer a tl a,
        ap (λ p. (outcome p.0, p.1)) read,
        run_broken x n m (at buffer i tl i) (at buffer a tl a) read
            (push_full is_mutable label m ne plain full),
      )

module _ (tuple_label closure_label concrete_label transform_label : ℕ) (is_sited : ℕ → Bool)
    (abstract_of : ℕ → Option (Value × Value × ℕ)) (broker_load : List ℕ → Machine → Machine)
    (empty_task : Word) where
  -- If the root is, behind the futures that are bound, a block without parts, whose label is not
  -- sited and not one of a closure, a concrete representation or a transform, and which is not a
  -- mutable tuple, the labels of tuples and closures differ, and there is a task stack of at least
  -- four words that is not larger than the largest block, with room for the frames of Unpack: the
  -- PickleWorker ends and WriteToStream writes its buffer to a new string, but the header of the
  -- string that Close returns declares no stack and one local, the first instruction is the one
  -- that makes the block, a frame of these sizes has no room to push any word, and Unpack ends
  -- with an access outside of the frame.
  pub unpack_empty :
      (h : Heap) (root : Value) (a label : ℕ) (is_mutable : Bool) (frames : Frames) (rounds : ℕ)
      (m : Machine) (n : ℕ)
      → closure_label ≢ tuple_label
      → Stands h root (node is_mutable label empty) (a ∷ [])
      → Known concrete_label transform_label is_sited (node is_mutable label empty)
      → Plain tuple_label closure_label transform_label (node is_mutable label empty)
      → AllFit (code tuple_label closure_label (node is_mutable label empty))
      → 4 ≤ frames.stack.size
      → frames.stack.size ≤ max_dynblocksize
      → max_dynblocksize ≤ rounds + frames.stack.size
      → frames.top + 5 < max_dynblocksize
      → (s : Pickling) × (u : StringStream) × (t r : InputStream) × (worker tuple_label
            closure_label concrete_label transform_label is_sited abstract_of 3 h
            (Seen.new root)
          ≡ some (pickled s))
        × (write_to_stream s.buffer s.max_height Save.new ≡ some u)
        × (check_string (new_from_string (close u).value (close u).size) ≡ (header 0 1, t))
        × (fetch_string instr_format t
            ≡ (fetched (block_instr tuple_label closure_label is_mutable label 0), r))
        × ((v : Value) → Frame.push v (Frame.new 0 1) ≡ none)
        × (unpack tuple_label closure_label transform_label broker_load
              (suc rounds)
              empty_task
              frames
              (suc n)
              m
              (close u).value
              (close u).size
            ≡ some (unpacked Run.broken))
  unfolding new_from_string close Frame.new Frame.push code turns measured Distinct NotIn need
  unpack_empty h root a label is_mutable frames rounds m n ne stands known plain fits least bound
        enough room =
      let t = node is_mutable label empty in
      let (s, done, wrote, valid, height_at) =
        run_writes_code tuple_label closure_label concrete_label transform_label is_sited
          abstract_of h root t (a ∷ []) ne stands (tt, tt) known fits (omega arith) in
      let (u, i, written, header_at, later, fit, body_at) =
        saved (code tuple_label closure_label t) s.buffer s.max_height wrote fits
          (omega (arith, height_at)) in
      let none_needed : s.max_height ≡ 0 = height_at in
      let checked =
        subst (λ h. check_string (at u.string 0 u.size 0) ≡ (header h 1, at u.string i u.size i))
          none_needed
          (check_string-header u.string u.size s.max_height 0 0 i (omega (arith, height_at))
            (omega arith) header_at (omega arith)) in
      let (r, read, ran) =
        run_empty tuple_label closure_label transform_label broker_load is_mutable label n
          (record m { frame = Frame.new 0 1 }) u.string i u.pos u.size ne plain fits refl body_at
          (omega arith) in
      (
        s,
        u,
        at u.string i u.size i,
        r,
        done,
        written,
        checked,
        read,
        λ v. refl,
        unpack-enter tuple_label closure_label transform_label broker_load rounds empty_task frames
            (suc n) 0 1 m u.string u.size (at u.string i u.size i) Run.broken least bound enough
            (omega arith) checked ran,
      )

-- ===== src/Pickle/Check/Enters.antt =====
-- generic/Unpickler.cc: the frames that `PickleCheckWorker::Run` leaves on the task stack.
use aliceml_seam.Base.{ℕ, suc, ◌+◌, ◌<◌, ◌≤◌, ◌≡◌, ◌∙◌, refl, ap, arith, List, some, ◌>>=◌}
use aliceml_seam.Store.Block.{Word}
use aliceml_seam.Sched.TaskStack.{
  Frames, Push, pushed, overflow, max_dynblocksize, push_frame, pop_frame,
}
use aliceml_seam.Sched.TaskStack.Growth.{Comes, push_frame_total}
use aliceml_seam.Pickle.{InputStream}
use aliceml_seam.Pickle.Stream.{new_from_string}
use aliceml_seam.Pickle.Frame
use aliceml_seam.Pickle.Tree.Loads.{run_string}
use aliceml_seam.Pickle.Machine.{Machine}
use aliceml_seam.Pickle.Run.{Ending}
use aliceml_seam.Pickle.Check.{
  header, unpacked, entered, check_string, check_on, unpack, enter, enter_unpickle, after_check,
  frame_size, base_size,
}

-- A frame that ends below the limit is pushed.
pushed_below :
    (s : Frames) (size : ℕ) (p : Push)
    → s.top + size < max_dynblocksize
    → Comes s size p
    → (r : Frames) × (p ≡ pushed r)
      × (r.top ≡ s.top + size)
      × (s.stack.size ≤ r.stack.size)
      × (r.stack.size ≤ max_dynblocksize)
pushed_below s size (pushed r) below (at, room, longer, bound, same) = (r, refl, at, longer, bound)
pushed_below s size overflow below over = absurd (omega arith)

push_room :
    (rounds : ℕ) (empty_task : Word) (s : Frames) (size : ℕ)
    → 4 ≤ s.stack.size
    → s.stack.size ≤ max_dynblocksize
    → max_dynblocksize ≤ rounds + s.stack.size
    → s.top + size < max_dynblocksize
    → (r : Frames) × (push_frame (suc rounds) empty_task s size ≡ some (pushed r))
      × (r.top ≡ s.top + size)
      × (s.stack.size ≤ r.stack.size)
      × (r.stack.size ≤ max_dynblocksize)
push_room rounds empty_task s size least bound enough below =
    let (p, run, comes) = push_frame_total rounds empty_task s size least bound enough in
    let (r, is, at, longer, small) = pushed_below s size p below comes in
    (r, run ∙ ap some is, at, longer, small)

-- Both frames are pushed if the second ends below the limit of the task stacks.
enter_room :
    (rounds : ℕ) (empty_task : Word) (s : Frames) (stack_size locals : ℕ)
    → 4 ≤ s.stack.size
    → s.stack.size ≤ max_dynblocksize
    → max_dynblocksize ≤ rounds + s.stack.size
    → s.top + (4 + stack_size + locals) < max_dynblocksize
    → (r : Frames) × (enter (suc rounds) empty_task s stack_size locals ≡ some (pushed r))
      × (r.top ≡ s.top + (4 + stack_size + locals))
unfolding enter
enter_room rounds empty_task s stack_size locals least bound enough below =
    let (first, run, at, longer, small) =
      push_room rounds empty_task s base_size least bound enough (omega arith) in
    let (r, last, at_last, _, _) =
      push_room rounds empty_task first (frame_size + stack_size + locals + base_size) (omega arith)
        small (omega arith) (omega (arith, at)) in
    (
      r,
      ap (λ o. o >>= enter_unpickle (suc rounds) empty_task stack_size locals) run ∙ last,
      omega (arith, at, at_last),
    )

module _ (tuple_label closure_label transform_label : ℕ) (broker_load : List ℕ → Machine → Machine)
    (rounds : ℕ) (empty_task : Word) where
  -- What `Unpack` comes to when the header is accepted and there is room for the frames.
  pub unpack-enter :
      (s : Frames) (n stack_size locals : ℕ) (m : Machine) (bytes : ℕ → ℕ) (size : ℕ)
      (t : InputStream) (e : Ending)
      → 4 ≤ s.stack.size
      → s.stack.size ≤ max_dynblocksize
      → max_dynblocksize ≤ rounds + s.stack.size
      → s.top + (4 + stack_size + locals) < max_dynblocksize
      → check_string (new_from_string bytes size) ≡ (header stack_size locals, t)
      → run_string tuple_label closure_label transform_label broker_load n
          (record m { frame = Frame.new stack_size locals })
          t
        ≡ some e
      → unpack tuple_label closure_label transform_label broker_load
          (suc rounds)
          empty_task
          s
          n
          m
          bytes
          size
        ≡ some (unpacked e)
  unfolding unpack pop_frame
  unpack-enter s n stack_size locals m bytes size t e least bound enough below checked ran =
      let (r, first, at, longer, small) =
        push_room rounds empty_task s base_size least bound enough (omega arith) in
      let (q, room, _) =
        enter_room rounds empty_task (pop_frame r base_size) stack_size locals (omega arith) small
          (omega arith) (omega (arith, at)) in
      ap
        (λ o.
          o
          >>= check_on tuple_label closure_label transform_label broker_load (suc rounds) empty_task
              n m bytes size)
        first
      ∙ ap
          (after_check tuple_label closure_label transform_label broker_load (suc rounds) empty_task
            r n m)
          checked
      ∙ ap
          (λ o.
            o
            >>= entered (
                run_string tuple_label closure_label transform_label broker_load n
                  (record m { frame = Frame.new stack_size locals }) t))
          room
      ∙ ap (λ o. entered o (pushed q)) ran

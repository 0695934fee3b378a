-- ===== src/Pickle/Check.antt =====
-- generic/Unpickler.cc: `PickleCheckWorker`, which reads the header, and `Unpack`.
pub mod Reads
pub mod Enters
use aliceml_seam.Base.{
  ℕ, zero, suc, List, [], ◌∷◌, Option, none, some, Bool, true, false, ltb, leb, ◌==◌, if◌then◌else◌,
  ◌+◌, ◌>>=◌,
}
use aliceml_seam.Store.Block.{Word}
use aliceml_seam.Sched.TaskStack.{Frames, Push, pushed, push_frame, pop_frame}
use aliceml_seam.Sched.TaskStack
use aliceml_seam.Pickle.{InputStream}
use aliceml_seam.Pickle.Format.{
  Format, done, finish, byte, uint, chunk, Got, got, ended, starved, failed, run_stream,
}
use aliceml_seam.Pickle.Stream.{fetch_string, new_from_string}
use aliceml_seam.Pickle.Save.{magic, major_version, minor_version}
use aliceml_seam.Pickle.Instr.{instr_format}
use aliceml_seam.Pickle.Frame
use aliceml_seam.Pickle.Machine.{Machine, same_bytes, max_valid_int}
use aliceml_seam.Pickle.Run.{Ending, run}
use aliceml_seam.Pickle.Run as Run

-- The sizes of the header, `Unpickler::Corrupt`, or `Error`.
pub data Checked : Type 0 where
  header : (stack_size locals : ℕ) → Checked
  corrupt broken : Checked

-- Each part is committed by itself. At the end of a string, `FillBuffer` raises `Corrupt`.
abbrev pub after_part :
    {A : Type 0}
    → (A → InputStream → Checked × InputStream)
    → Got A × InputStream
    → Checked × InputStream
after_part k (got a, t) = k a t
after_part k (ended a, t) = (corrupt, t)
after_part k (starved, t) = (corrupt, t)
after_part k (failed, t) = (broken, t)

abbrev pub accept_locals : (stack_size locals : ℕ) → InputStream → Checked × InputStream
accept_locals stack_size locals t =
    if ltb max_valid_int locals then (corrupt, t) else (header stack_size locals, t)

unfoldable pub check_locals : (stack_size : ℕ) → InputStream → Checked × InputStream
unfolding run_stream
check_locals stack_size s =
    if leb s.tl s.rd
    then (corrupt, s)
    else after_part (accept_locals stack_size) (run_stream (uint done) s)

unfoldable pub check_sizes : InputStream → Checked × InputStream
unfolding run_stream check_locals
check_sizes s =
    after_part
      (λ stack_size t.
        if ltb max_valid_int stack_size then (corrupt, t) else check_locals stack_size t)
      (run_stream (uint done) s)

unfoldable pub check_init : InputStream → Checked × InputStream
unfolding run_stream check_sizes
check_init s =
    after_part (λ tag t. check_sizes t)
      (run_stream (byte (λ tag. if tag == 0 then done tag else finish tag)) s)

unfoldable pub check_minor : InputStream → Checked × InputStream
unfolding run_stream check_init
check_minor s =
    after_part (λ minor t. if leb minor minor_version then check_init t else (corrupt, t))
      (run_stream (uint done) s)

unfoldable pub check_major : InputStream → Checked × InputStream
unfolding run_stream check_minor
check_major s =
    after_part (λ major t. if major == major_version then check_minor t else (corrupt, t))
      (run_stream (uint done) s)

-- `PickleCheckWorker::Run` on a string.
unfoldable pub check_string : InputStream → Checked × InputStream
unfolding run_stream check_major
check_string s =
    after_part (λ bytes t. check_major t)
      (run_stream (chunk 4 (λ bytes. if same_bytes bytes magic then done bytes else finish bytes))
        s)

-- `UnpickleFrame::SIZE` without DEBUG_CHECK, and `StackFrame::GetBaseSize`.
abbrev pub frame_size : ℕ
frame_size = 2

abbrev pub base_size : ℕ
base_size = 1

-- The frames of the `PickleLoadWorker` and of the `UnpickleWorker`, on the task stack without the
-- frame of the `PickleCheckWorker`. The fuel is that of each `PushFrame`.
abbrev pub enter_unpickle : ℕ → Word → (stack_size locals : ℕ) → Push → Option Push
enter_unpickle rounds empty_task stack_size locals (pushed s) =
    push_frame rounds empty_task s (frame_size + stack_size + locals + base_size)
enter_unpickle rounds empty_task stack_size locals TaskStack.overflow = some TaskStack.overflow

unfoldable pub enter : ℕ → Word → Frames → (stack_size locals : ℕ) → Option Push
unfolding push_frame
enter rounds empty_task s stack_size locals = do
  p ← push_frame rounds empty_task s base_size
  enter_unpickle rounds empty_task stack_size locals p

-- How `Unpack` ends: as its workers end, or with the overflow of the task stack.
pub data Unpacked : Type 0 where
  unpacked : Ending → Unpacked
  overflow : Unpacked

abbrev pub entered : Option Ending → Push → Option Unpacked
entered r (pushed s) = do e ← r; some (unpacked e)
entered r TaskStack.overflow = some overflow

-- `Unpack`: the header, then the instructions with a frame of the sizes in the header. `s` is the
-- task stack without the frame of the caller.
module _ (tuple_label closure_label transform_label : ℕ) (broker_load : List ℕ → Machine → Machine)
    (rounds : ℕ) (empty_task : Word) (s : Frames) where
  abbrev pub after_check : ℕ → Machine → Checked × InputStream → Option Unpacked
  after_check fuel m (header stack_size locals, t) = do
    p ← enter rounds empty_task (pop_frame s base_size) stack_size locals
    entered
        (run tuple_label closure_label transform_label broker_load
          (λ u. some (fetch_string instr_format u)) fuel
          (record m { frame = Frame.new stack_size locals }) t)
        p
  after_check fuel m (corrupt, t) = some (unpacked Run.corrupt)
  after_check fuel m (broken, t) = some (unpacked Run.broken)

module _ (tuple_label closure_label transform_label : ℕ) (broker_load : List ℕ → Machine → Machine)
    (rounds : ℕ) (empty_task : Word) where
  abbrev pub check_on : ℕ → Machine → (bytes : ℕ → ℕ) → (n : ℕ) → Push → Option Unpacked
  check_on fuel m bytes n (pushed s) =
      after_check tuple_label closure_label transform_label broker_load rounds empty_task s fuel m
        (check_string (new_from_string bytes n))
  check_on fuel m bytes n TaskStack.overflow = some overflow

  unfoldable pub unpack : Frames → ℕ → Machine → (bytes : ℕ → ℕ) → (n : ℕ) → Option Unpacked
  unfolding check_string new_from_string run Frame.new enter push_frame pop_frame
  unpack s fuel m bytes n = do
    p ← push_frame rounds empty_task s base_size
    check_on fuel m bytes n p

-- ===== src/Pickle/Run.antt =====
-- generic/Unpickler.cc: the loop of `UnpickleWorker::Run`.
pub mod Whole
pub mod Ends
use aliceml_seam.Base.{ℕ, zero, suc, List, Option, none, some}
use aliceml_seam.Pickle.Stream.{Fetched, fetched, finished}
use aliceml_seam.Pickle.Stream as Stream
use aliceml_seam.Pickle.Instr.{Instr}
use aliceml_seam.Pickle.Heap.{Value}
use aliceml_seam.Pickle.Machine.{Machine, Step, next, run_instr}
use aliceml_seam.Pickle.Machine

-- What the result of the unpickling is, or which exception is raised.
pub data Ending : Type 0 where
  loaded : Value → Machine → Ending
  corrupt io_error broken : Ending

-- After an instruction that was committed, and after one that was not. Those end the loop: for
-- none of them there is a `next`.
abbrev pub after_step : (Machine → Option Ending) → Step → Option Ending
after_step rest (next m) = rest m
after_step rest (Machine.loaded v m) = some (loaded v m)
after_step rest Machine.corrupt = some corrupt
after_step rest Machine.broken = some broken

abbrev pub last_step : Step → Option Ending
last_step (next m) = some broken
last_step (Machine.loaded v m) = some (loaded v m)
last_step Machine.corrupt = some corrupt
last_step Machine.broken = some broken

-- The stream may be a string or a file.
module _ (tuple_label closure_label transform_label : ℕ) (broker_load : List ℕ → Machine → Machine)
    {S : Type 0} where
  abbrev pub after_fetch :
      (Machine → S → Option Ending) → Machine → Option (Fetched Instr × S) → Option Ending
  after_fetch rest m none = none
  after_fetch rest m (some (fetched i, t)) =
      after_step (λ k. rest k t)
        (run_instr tuple_label closure_label transform_label broker_load i m)
  after_fetch rest m (some (finished i, t)) =
      last_step (run_instr tuple_label closure_label transform_label broker_load i m)
  after_fetch rest m (some (Stream.corrupt, t)) = some corrupt
  after_fetch rest m (some (Stream.io_error, t)) = some io_error
  after_fetch rest m (some (Stream.broken, t)) = some broken

  -- The fuel bounds the instructions; `none` is one too many.
  unfoldable pub run : (S → Option (Fetched Instr × S)) → ℕ → Machine → S → Option Ending
  unfolding run_instr
  run fetch zero m s = none
  run fetch (suc n) m s = after_fetch (λ k t. run fetch n k t) m (fetch s)

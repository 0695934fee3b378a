-- ===== src/Pickle/Run/Whole.antt =====
-- generic/Unpickler.cc: the loop on a file and on the whole content of it.
use aliceml_seam.Base.{ℕ, zero, suc, ◌≡◌, refl, ap, fun_ext, arith, List, Option, none, some}
use aliceml_seam.Pickle.{InputStream}
use aliceml_seam.Pickle.Stream.{
  File, FileStream, Fetched, fetched, finished, corrupt, io_error, broken, fetch_string, fetch_file,
  new_from_file, new_from_string,
}
use aliceml_seam.Pickle.Stream.Follows.{Delivers, Ready, new_from_file-Ready}
use aliceml_seam.Pickle.Stream.Whole.{Same, fetch_file-Same}
use aliceml_seam.Pickle.Instr.{Instr, instr_format}
use aliceml_seam.Pickle.Machine.{Machine, run_instr}
use aliceml_seam.Pickle.Run.{Ending, run, after_fetch, after_step}

module _ (tuple_label closure_label transform_label : ℕ) (broker_load : List ℕ → Machine → Machine)
    (file : File) where
  module _ (on_file : Machine → FileStream → Option Ending)
      (on_string : Machine → InputStream → Option Ending) where
    after_fetch-Same :
        ((k : Machine) (s : FileStream) (w : InputStream)
          → Ready file s w
          → on_file k s ≡ on_string k w)
        → (m : Machine) (x : Option (Fetched Instr × FileStream)) (y : Fetched Instr × InputStream)
        → Same file x y
        → after_fetch tuple_label closure_label transform_label broker_load on_file m x
          ≡ after_fetch tuple_label closure_label transform_label broker_load on_string m (some y)
    unfolding Same
    after_fetch-Same h m none y e = elim e [ ]
    after_fetch-Same h m (some (fetched i, s)) (q, w) (e, r) = rw e (
        ap (λ f. after_step f (run_instr tuple_label closure_label transform_label broker_load i m))
          (fun_ext (λ k. h k s w r)))
    after_fetch-Same h m (some (finished i, s)) (q, w) e = rw e refl
    after_fetch-Same h m (some (corrupt, s)) (q, w) e = rw e refl
    after_fetch-Same h m (some (io_error, s)) (q, w) e = elim e [ ]
    after_fetch-Same h m (some (broken, s)) (q, w) e = rw e refl

  run_file-as_string :
      (n : ℕ) (m : Machine) (s : FileStream) (w : InputStream)
      → Delivers file
      → Ready file s w
      → run tuple_label closure_label transform_label broker_load
          (fetch_file (suc file.length) file instr_format)
          n
          m
          s
        ≡ run tuple_label closure_label transform_label broker_load
            (λ t. some (fetch_string instr_format t))
            n
            m
            w
  unfolding run
  run_file-as_string zero m s w good r = refl
  run_file-as_string (suc n) m s w good r =
      after_fetch-Same _ _ (λ k t u ready. run_file-as_string n k t u good ready) m
        (fetch_file (suc file.length) file instr_format s) (fetch_string instr_format w)
        (fetch_file-Same file good (suc file.length) instr_format s w r (omega arith))

  -- If gzread keeps to its documentation, the loop of the UnpickleWorker ends in the same way,
  -- with the same value and machine, on a file that is read in pieces from its start as on a
  -- string with the whole content of the file.
  pub run_file_whole :
      (n : ℕ) (m : Machine)
      → Delivers file
      → run tuple_label closure_label transform_label broker_load
          (fetch_file (suc file.length) file instr_format)
          n
          m
          new_from_file
        ≡ run tuple_label closure_label transform_label broker_load
            (λ t. some (fetch_string instr_format t))
            n
            m
            (new_from_string file.bytes file.length)
  run_file_whole n m good =
      run_file-as_string n m new_from_file (new_from_string file.bytes file.length) good
        (new_from_file-Ready file)

-- ===== src/Sched/ThreadQueue.antt =====
-- generic/ThreadQueue.hh: the scheduler's queue of runnable threads, as a client of adt/Queue.hh.
-- A thread is known by its word.
use aliceml_seam.Base.{
  ℕ, ◌≡◌, refl, List, [], ◌∷◌, ◌++◌, Option, none, some, Bool-cases, if◌then◌else◌, inl, inr, arith,
}
use aliceml_seam.Store.Block.{Word}
use aliceml_seam.Adt.Queue
use aliceml_seam.Adt.Queue.{Queue}
use aliceml_seam.Adt.Queue.Contents.{contents, IsValid}
use aliceml_seam.Adt.Queue.Ends.{new-IsValid, enqueue_refines, dequeue_refines, is_empty_iff}
use aliceml_seam.Adt.Queue.Erase.{erase}
use aliceml_seam.Adt.Queue.Remove.{remove_refines}

abbrev pub threshold : ℕ
threshold = 8

unfoldable pub new : Queue
new = Queue.new threshold

-- `none` is `INVALID_POINTER`.
unfoldable pub dequeue : Queue → Option Word × Queue
dequeue q = if Queue.is_empty q then (none, q) else (let (w, r) = Queue.dequeue q in (some w, r))

unfoldable pub enqueue : Queue → Word → Queue
enqueue q t = Queue.enqueue q t

unfoldable pub remove : Queue → Word → Queue
remove q t = Queue.remove q t

pub data Call : Type 0 where
  enqueues removes : Word → Call
  dequeues : Call

-- The calls in order, with what each dequeue returns.
unfoldable pub run : Queue → List Call → List (Option Word)
run q [] = []
run q (enqueues t ∷ cs) = run (enqueue q t) cs
run q (removes t ∷ cs) = run (remove q t) cs
run q (dequeues ∷ cs) = let (t, r) = dequeue q in t ∷ run r cs

-- The specification: a list, taken from at the front.
pub take_first : List Word → Option Word × List Word
take_first [] = (none, [])
take_first (t ∷ ts) = (some t, ts)

unfoldable pub run_list : List Word → List Call → List (Option Word)
run_list ts [] = []
run_list ts (enqueues t ∷ cs) = run_list (ts ++ (t ∷ [])) cs
run_list ts (removes t ∷ cs) = run_list (erase t ts) cs
run_list ts (dequeues ∷ cs) = let (t, r) = take_first ts in t ∷ run_list r cs

dequeue-take_first :
    (q : Queue)
    → IsValid q
    → let (t, r) = dequeue q in ((t, contents r) ≡ take_first (contents q)) × IsValid r
unfolding dequeue take_first
dequeue-take_first q v = elim (Bool-cases (Queue.is_empty q)) [
  | inl e ↦ rw e (rw ((is_empty_iff q v).0 e), v)
  | inr ne ↦ let (same, valid) = dequeue_refines q v ne in rw ne (rw same, valid)
]

-- No sequence of calls tells the circular array from the list of its items.
pub run_refines : (cs : List Call) (q : Queue) → IsValid q → run q cs ≡ run_list (contents q) cs
unfolding run run_list enqueue remove
run_refines [] q v = refl
run_refines (enqueues t ∷ cs) q v =
    let (same, valid) = enqueue_refines q t v in rw (run_refines cs (Queue.enqueue q t) valid, same)
run_refines (removes t ∷ cs) q v =
    let (same, valid) = remove_refines q t v in rw (run_refines cs (Queue.remove q t) valid, same)
run_refines (dequeues ∷ cs) q v =
    let (same, valid) = dequeue-take_first q v in rw (run_refines cs (dequeue q).1 valid, ← same)

-- On the queue that the scheduler starts with, every sequence of Enqueue, Remove and Dequeue calls
-- returns what the same sequence returns on a list, taken from at the front and appended to at the
-- end.
pub run-new : (cs : List Call) → run new cs ≡ run_list [] cs
unfolding new
run-new cs =
    let (valid, empty) = new-IsValid threshold (omega arith) in
    rw (run_refines cs (Queue.new threshold) valid, empty)

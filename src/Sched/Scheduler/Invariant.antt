-- ===== src/Sched/Scheduler/Invariant.antt =====
-- generic/Scheduler.cc: which threads stand in which queue.
use aliceml_seam.Base.{
  ℕ, ◌+◌, ◌-◌, ◌≤◌, ◌≡◌, ◌≢◌, arith, List, [], ◌∷◌, ◌++◌, Option, none, some, Bool, true, false,
  not, ◌&&◌, ◌==◌, if◌then◌else◌,
}
use aliceml_seam.Adt.Queue.Erase.{erase}
use aliceml_seam.Sched.Thread.{Thread, runnable, blocked, terminated}
use aliceml_seam.Sched.Transients.{waiters_of}
use aliceml_seam.Sched.Scheduler.{Scheduler, is_runnable, is_blocked}

abbrev pub to_nat : Bool → ℕ
to_nat true = 1
to_nat false = 0

-- How often a thread stands in a queue.
abbrev pub count : ℕ → List ℕ → ℕ
count t [] = 0
count t (u ∷ us) = to_nat (u == t) + count t us

pub count-append : (t : ℕ) (us vs : List ℕ) → count t (us ++ vs) ≡ count t us + count t vs
count-append t [] vs = omega arith
count-append t (u ∷ us) vs = omega (arith, count-append t us vs)

pub count-erase :
    (t u : ℕ) (us : List ℕ) → count t (erase u us) ≡ (if u == t then count t us - 1 else count t us)
unfolding erase
count-erase t u [] = ground arith
count-erase t u (v ∷ us) = ground (arith, count-erase t u us)

abbrev pub names : Option ℕ → ℕ → Bool
names none t = false
names (some u) t = u == t

-- A thread that only waits for its turn.
abbrev pub is_ready : Scheduler → ℕ → Bool
is_ready s t =
    is_runnable (s.threads t).state && not (s.threads t).is_suspended && not (names s.current t)

abbrev pub waits_on : Thread → ℕ → Bool
waits_on th f = is_blocked th.state && names th.future f

-- A thread stands in the thread queue once if it is ready, and else not; it stands in the wait
-- queue of the future that it blocks on once, and in no other. The current thread is runnable and
-- not suspended, a blocked one has a future, and a number that is not given out yet is no thread.
pub record Inv (s : Scheduler) : Type 0 where
  pub queued : (t : ℕ) → count t s.queue ≡ to_nat (is_ready s t)
  pub waiting : (f t : ℕ) → count t (waiters_of (s.cells f)) ≡ to_nat (waits_on (s.threads t) f)
  pub current_runs :
      (t : ℕ)
      → names s.current t ≡ true
      → ((s.threads t).state ≡ runnable) × ((s.threads t).is_suspended ≡ false)
  pub has_future : (t : ℕ) → (s.threads t).state ≡ blocked → (s.threads t).future ≢ none
  pub unborn : (t : ℕ) → s.next_thread ≤ t → (s.threads t).state ≡ terminated

-- ===== src/Sched/Thread.antt =====
-- generic/Thread.hh: the fields of a thread that the scheduler works with, and the argument
-- registers that are saved in it. The debugger's hooks are left out (`DEBUGGER` is not defined).
use aliceml_seam.Base.{
  ℕ, zero, suc, ◌<◌, ◌≡◌, refl, ap, arith, List, tabulate, get_elem?, get_elem?-tabulate, Option,
  none, some, Bool, true, false, ltb, if◌then◌else◌,
}
use aliceml_seam.Store.Block.{Word, zero_word}

-- `Thread::state`
pub data State : Type 0 where
  blocked runnable terminated : State

-- The word of `ARGS_POS`: a value, or a block of values.
pub data Args : Type 0 where
  value : Word → Args
  block : List Word → Args

-- `future` is `FUTURE_POS`: the future that a blocked thread waits for, or the integer 0.
pub record Thread : Type 0 where
  pub state : State
  pub is_suspended : Bool
  pub nargs : ℕ
  pub args : Args
  pub future : Option ℕ

unfoldable pub new : ℕ → Args → Thread
new nargs args = record {
  state = runnable;
  is_suspended = false;
  nargs = nargs;
  args = args;
  future = none;
}

unfoldable pub set_state : Thread → State → Thread
set_state t st = record t { state = st; future = none }

unfoldable pub suspend : Thread → Thread
suspend t = record t { is_suspended = true }

unfoldable pub resume : Thread → Thread
resume t = record t { is_suspended = false }

unfoldable pub set_args : Thread → ℕ → Args → Thread
set_args t n a = record t { nargs = n; args = a }

unfoldable pub set_terminated : Thread → Thread
unfolding set_args set_state
set_terminated t = set_state (set_args t 0 (value zero_word)) terminated

unfoldable pub block_on : Thread → ℕ → Thread
unfolding set_state
block_on t f = let b = set_state t blocked in record b { future = some f }

unfoldable pub wakeup : Thread → Thread
unfolding set_state
wakeup t = set_state (record t { future = none }) runnable

-- `Scheduler::FlushThread`: the argument registers go into the thread.
unfoldable pub flush_args : ℕ → (ℕ → Word) → Args
flush_args zero regs = value zero_word
flush_args (suc zero) regs = value (regs 0)
flush_args (suc (suc n)) regs = block (tabulate (suc (suc n)) regs)

abbrev get_or_zero : Option Word → Word
get_or_zero none = zero_word
get_or_zero (some w) = w

-- The words that an argument block is read as. Of a value, only the single one.
unfoldable pub arg_word : Args → ℕ → Word
arg_word (value w) i = w
arg_word (block ws) i = get_or_zero (get_elem? ws i)

-- `Scheduler::SwitchToThread`: the first `n` registers are loaded, the others keep what they held.
unfoldable pub load_args : ℕ → Args → (ℕ → Word) → ℕ → Word
load_args n a regs i = if ltb i n then arg_word a i else regs i

-- The argument registers in use that FlushThread saves in a thread are those that SwitchToThread
-- loads again, whatever the registers held in between.
pub load_args-flush_args :
    (n : ℕ) (regs other : ℕ → Word) (i : ℕ)
    → i < n
    → load_args n (flush_args n regs) other i ≡ regs i
unfolding load_args flush_args arg_word
load_args-flush_args zero regs other i h = elim h [ ]
load_args-flush_args (suc zero) regs other zero h = refl
load_args-flush_args (suc zero) regs other (suc i) h = absurd (omega arith)
load_args-flush_args (suc (suc n)) regs other i h =
    ground (arith, ap get_or_zero (get_elem?-tabulate (suc (suc n)) i regs h))

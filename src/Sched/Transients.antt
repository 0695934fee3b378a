-- ===== src/Sched/Transients.antt =====
-- generic/Transients.hh and `Transient` of store/Value.hh: cells that are bound later, and
-- `PointerOp::Deref`, which follows the bound ones.
pub mod Deref
use aliceml_seam.Base.{ℕ, List, [], Option}
use aliceml_seam.Store.Block.{Word}

-- A word of the store, as far as it refers to transients.
pub data Value : Type 0 where
  transient : ℕ → Value
  determined : Word → Value

-- The label of a transient with its argument. An empty wait queue that is not created yet (the
-- integer 0) is the empty list.
pub data Cell : Type 0 where
  hole : Option ℕ → Cell
  future : List ℕ → Cell
  cancelled : Word → Cell
  byneed : Word → Cell
  reference : Value → Cell

abbrev pub waiters_of : Cell → List ℕ
waiters_of (hole f) = []
waiters_of (future ts) = ts
waiters_of _ = []

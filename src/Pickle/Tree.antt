-- ===== src/Pickle/Tree.antt =====
-- generic/Unpickler.cc: values without sharing, the instructions that make them, and what is made.
pub mod Words
pub mod Builds
pub mod Loads
pub mod Pickled
pub mod Fulfill
use aliceml_seam.Base.{
  ℕ, zero, suc, ◌+◌, ◌≤◌, ◌<◌, ◌≡◌, ◌≢◌, List, [], ◌∷◌, ◌++◌, Option, none, some, Bool, max, length,
  if◌then◌else◌, ◌==◌, not, ◌&&◌, ltb, true,
}
use aliceml_seam.Pickle.Instr.{Instr}
use aliceml_seam.Pickle.Heap.{Value, Cell, Heap, pointer}
use aliceml_seam.Pickle.Heap as Cells
use aliceml_seam.Pickle.Machine.{max_valid_int, in_block}

mutual
  pub data Tree : Type 0 where
    posint negint : ℕ → Tree
    chunk : (is_mutable : Bool) → (bytes : List ℕ) → Tree
    node : (is_mutable : Bool) → (label : ℕ) → (args : Trees) → Tree

  pub data Trees : Type 0 where
    empty : Trees
    more : Tree → Trees → Trees

abbrev pub count : Trees → ℕ
count empty = 0
count (more t ts) = suc (count ts)

abbrev pub chunk_instr : Bool → List ℕ → Instr
chunk_instr is_mutable bs = if is_mutable then Instr.mchunk bs else Instr.chunk bs

module _ (tuple_label closure_label : ℕ) where
  -- Tuples and closures have instructions of their own, which do not tell whether they are mutable.
  abbrev pub block_instr : Bool → ℕ → ℕ → Instr
  block_instr is_mutable label size =
      if label == tuple_label
      then Instr.tuple size
      else if label == closure_label
      then Instr.closure size
      else if is_mutable
      then Instr.mblock label size
      else Instr.block label size

  unfoldable mutual
    -- The last argument is made first, so that the first is popped first.
    pub code : Tree → List Instr
    code (posint y) = Instr.posint y ∷ []
    code (negint y) = Instr.negint y ∷ []
    code (chunk is_mutable bs) = chunk_instr is_mutable bs ∷ []
    code (node is_mutable label ts) = codes ts ++ (block_instr is_mutable label (count ts) ∷ [])

    pub codes : Trees → List Instr
    codes empty = []
    codes (more t ts) = codes ts ++ code t

unfoldable mutual
  -- The height of the stack that the instructions need.
  pub need : Tree → ℕ
  need (node is_mutable label ts) = max 1 (needs ts)
  need _ = 1

  pub needs : Trees → ℕ
  needs empty = 0
  needs (more t ts) = max (needs ts) (count ts + need t)

-- A tuple is not mutable; a closure is, and has a place for its code.
abbrev pub fits_label : (tuple_label closure_label : ℕ) → Bool → ℕ → ℕ → Bool
fits_label tuple_label closure_label is_mutable label size =
    if label == tuple_label
    then not is_mutable
    else if label == closure_label
    then is_mutable && ltb 0 size
    else true

-- Integers that the unpickler takes, and labels that it makes the same block of.
module _ (tuple_label closure_label transform_label : ℕ) where
  unfoldable mutual
    pub Plain : Tree → Type 0
    Plain (posint y) = y ≤ max_valid_int
    Plain (negint y) = y ≤ max_valid_int
    Plain (chunk is_mutable bs) = Unit
    Plain (node is_mutable label ts) =
        (label ≢ transform_label)
        × (fits_label tuple_label closure_label is_mutable label (count ts) ≡ true)
        × AllPlain ts

    pub AllPlain : Trees → Type 0
    AllPlain empty = Unit
    AllPlain (more t ts) = Plain t × AllPlain ts

unfoldable mutual
  -- A word stands for a value, with new blocks for all of its parts. A block whose size was rounded
  -- up has more words behind those for the parts.
  pub Represents : Heap → Value → Tree → Type 0
  Represents h v (posint y) = v ≡ Cells.posint y
  Represents h v (negint y) = v ≡ Cells.negint y
  Represents h v (chunk is_mutable bs) =
      (a : ℕ) × (v ≡ pointer a) × (a < h.next) × (h.cells a ≡ Cells.chunk is_mutable bs)
  Represents h v (node is_mutable label ts) =
      (a : ℕ) × (vs : List Value) × (v ≡ pointer a)
      × (a < h.next)
      × (h.cells a ≡ Cells.block is_mutable label (in_block vs))
      × RepresentsAll h vs ts

  pub RepresentsAll : Heap → List Value → Trees → Type 0
  RepresentsAll h [] empty = Unit
  RepresentsAll h (v ∷ vs) (more t ts) = Represents h v t × RepresentsAll h vs ts
  RepresentsAll h _ _ = ⊥

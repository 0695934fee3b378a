-- ===== src/Pickle/Instr.antt =====
-- generic/Pickle.hh and generic/Unpickler.cc: the instructions of a pickle, as `UnpickleWorker::Run`
-- reads them.
use aliceml_seam.Base.{ℕ, List, [], ◌∷◌, Option, none, some, get_elem?}
use aliceml_seam.Pickle.Format.{Format, done, finish, byte, uint}

-- In the order of the enumeration.
pub data Tag : Type 0 where
  init store load posint negint chunk mchunk unique block mblock tuple closure transform : Tag
  a_block a_mblock a_tuple a_closure a_transform fulfill end_of_stream : Tag

abbrev pub tags : List Tag
tags =
    init ∷ store ∷ load ∷ posint ∷ negint ∷ chunk ∷ mchunk ∷ unique ∷ block ∷ mblock ∷ tuple
    ∷ closure ∷ transform ∷ a_block ∷ a_mblock ∷ a_tuple ∷ a_closure ∷ a_transform ∷ fulfill
    ∷ end_of_stream ∷ []

-- An instruction with what it reads. What the worker does not know is `unknown`.
pub data Instr : Type 0 where
  init end_of_stream unknown unique transform : Instr
  store load posint negint fulfill : (addr : ℕ) → Instr
  chunk mchunk : (bytes : List ℕ) → Instr
  block mblock : (label size : ℕ) → Instr
  tuple closure : (size : ℕ) → Instr
  a_block a_mblock : (label size addr : ℕ) → Instr
  a_tuple a_closure : (size addr : ℕ) → Instr
  a_transform : (addr : ℕ) → Instr

-- The reads after the tag, and `Commit`, which the first and the last instruction do without.
unfoldable pub operands : Option Tag → Format Instr
operands (some Tag.init) = finish Instr.init
operands (some Tag.store) = uint (λ addr. done (Instr.store addr))
operands (some Tag.load) = uint (λ addr. done (Instr.load addr))
operands (some Tag.posint) = uint (λ y. done (Instr.posint y))
operands (some Tag.negint) = uint (λ y. done (Instr.negint y))
operands (some Tag.chunk) = uint (λ size. Format.chunk size (λ bytes. done (Instr.chunk bytes)))
operands (some Tag.mchunk) = uint (λ size. Format.chunk size (λ bytes. done (Instr.mchunk bytes)))
operands (some Tag.unique) = done Instr.unique
operands (some Tag.block) = uint (λ label. uint (λ size. done (Instr.block label size)))
operands (some Tag.mblock) = uint (λ label. uint (λ size. done (Instr.mblock label size)))
operands (some Tag.tuple) = uint (λ size. done (Instr.tuple size))
operands (some Tag.closure) = uint (λ size. done (Instr.closure size))
operands (some Tag.transform) = done Instr.transform
operands (some Tag.a_block) =
    uint (λ label. uint (λ size. uint (λ addr. done (Instr.a_block label size addr))))
operands (some Tag.a_mblock) =
    uint (λ label. uint (λ size. uint (λ addr. done (Instr.a_mblock label size addr))))
operands (some Tag.a_tuple) = uint (λ size. uint (λ addr. done (Instr.a_tuple size addr)))
operands (some Tag.a_closure) = uint (λ size. uint (λ addr. done (Instr.a_closure size addr)))
operands (some Tag.a_transform) = uint (λ addr. done (Instr.a_transform addr))
operands (some Tag.fulfill) = uint (λ addr. done (Instr.fulfill addr))
operands (some Tag.end_of_stream) = finish Instr.end_of_stream
operands none = finish Instr.unknown

unfoldable pub instr_format : Format Instr
unfolding operands
instr_format = byte (λ tag. operands (get_elem? tags tag))

-- ===== src/Pickle/Write.antt =====
-- generic/Pickler.cc: the instructions as `PickleWorker::Run` and `WriteToStream` write them.
pub mod Reads
pub mod Round
use aliceml_seam.Base.{ℕ, List, [], ◌∷◌, Option, none, some, length}
use aliceml_seam.Pickle.Output.{OutputBuffer, put_byte, put_bytes, put_number}
use aliceml_seam.Pickle.Instr.{
  Tag, Instr, init, end_of_stream, unknown, unique, transform, store, load, posint, negint, fulfill,
  chunk, mchunk, block, mblock, tuple, closure, a_block, a_mblock, a_tuple, a_closure, a_transform,
}

-- A call of `PutByte`, `PutUInt` or `PutBytes`.
pub data Part : Type 0 where
  byte uint : ℕ → Part
  bytes : List ℕ → Part

-- The value of an enumerator.
unfoldable pub tag_number : Tag → ℕ
tag_number Tag.init = 0
tag_number Tag.store = 1
tag_number Tag.load = 2
tag_number Tag.posint = 3
tag_number Tag.negint = 4
tag_number Tag.chunk = 5
tag_number Tag.mchunk = 6
tag_number Tag.unique = 7
tag_number Tag.block = 8
tag_number Tag.mblock = 9
tag_number Tag.tuple = 10
tag_number Tag.closure = 11
tag_number Tag.transform = 12
tag_number Tag.a_block = 13
tag_number Tag.a_mblock = 14
tag_number Tag.a_tuple = 15
tag_number Tag.a_closure = 16
tag_number Tag.a_transform = 17
tag_number Tag.fulfill = 18
tag_number Tag.end_of_stream = 19

abbrev tagged : Tag → List Part → List Part
tagged t ps = byte (tag_number t) ∷ ps

-- The calls that write an instruction. The first and the last stand in the header and at the end of
-- the pickle; what the unpickler does not know is not written.
unfoldable pub parts : Instr → List Part
unfolding tag_number
parts init = tagged Tag.init []
parts (store addr) = tagged Tag.store (uint addr ∷ [])
parts (load addr) = tagged Tag.load (uint addr ∷ [])
parts (posint y) = tagged Tag.posint (uint y ∷ [])
parts (negint y) = tagged Tag.negint (uint y ∷ [])
parts (chunk bs) = tagged Tag.chunk (uint (length bs) ∷ bytes bs ∷ [])
parts (mchunk bs) = tagged Tag.mchunk (uint (length bs) ∷ bytes bs ∷ [])
parts unique = tagged Tag.unique []
parts (block label size) = tagged Tag.block (uint label ∷ uint size ∷ [])
parts (mblock label size) = tagged Tag.mblock (uint label ∷ uint size ∷ [])
parts (tuple size) = tagged Tag.tuple (uint size ∷ [])
parts (closure size) = tagged Tag.closure (uint size ∷ [])
parts transform = tagged Tag.transform []
parts (a_block label size addr) = tagged Tag.a_block (uint label ∷ uint size ∷ uint addr ∷ [])
parts (a_mblock label size addr) = tagged Tag.a_mblock (uint label ∷ uint size ∷ uint addr ∷ [])
parts (a_tuple size addr) = tagged Tag.a_tuple (uint size ∷ uint addr ∷ [])
parts (a_closure size addr) = tagged Tag.a_closure (uint size ∷ uint addr ∷ [])
parts (a_transform addr) = tagged Tag.a_transform (uint addr ∷ [])
parts (fulfill addr) = tagged Tag.fulfill (uint addr ∷ [])
parts end_of_stream = tagged Tag.end_of_stream []
parts unknown = []

unfoldable pub write_parts : List Part → OutputBuffer → Option OutputBuffer
unfolding put_byte put_number put_bytes
write_parts [] b = some b
write_parts (byte x ∷ ps) b = write_parts ps (put_byte x b)
write_parts (uint i ∷ ps) b = elim (put_number i b) [ none ↦ none | some c ↦ write_parts ps c ]
write_parts (bytes bs ∷ ps) b = elim (put_bytes bs b) [ none ↦ none | some c ↦ write_parts ps c ]

unfoldable pub write_instr : Instr → OutputBuffer → Option OutputBuffer
unfolding parts write_parts
write_instr i b = write_parts (parts i) b

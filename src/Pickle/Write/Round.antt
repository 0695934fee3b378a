-- ===== src/Pickle/Write/Round.antt =====
-- generic/Pickler.cc and generic/Unpickler.cc: each instruction, written and read.
use aliceml_seam.Base.{ℕ, ◌+◌, suc, arith, ◌≡◌, ◌≢◌, refl, some}
use aliceml_seam.Pickle.Format.{Got, got, ended, run_stream}
use aliceml_seam.Pickle.Output.{OutputBuffer}
use aliceml_seam.Pickle.Output.Writes.{IsValid}
use aliceml_seam.Pickle.Instr.{
  Instr, instr_format, operands, init, end_of_stream, unknown, unique, transform, store, load,
  posint, negint, fulfill, chunk, mchunk, block, mblock, tuple, closure, a_block, a_mblock, a_tuple,
  a_closure, a_transform,
}
use aliceml_seam.Pickle.Write.{parts, write_instr, tag_number}
use aliceml_seam.Pickle.Write.Reads.{
  Fits, Parses, write_parts-Written, run_stream-Parses, at, after,
}

-- The first and the last instruction are not committed.
abbrev pub ending : Instr → Got Instr
ending init = ended init
ending end_of_stream = ended end_of_stream
ending unknown = ended unknown
ending i = got i

pub parts-Parses : (i : Instr) → i ≢ unknown → Parses instr_format (parts i) (ending i)
unfolding Parses instr_format operands parts tag_number
parts-Parses init ne = refl
parts-Parses end_of_stream ne = refl
parts-Parses unknown ne = elim (ne refl) [ ]
parts-Parses unique ne = refl
parts-Parses transform ne = refl
parts-Parses (store addr) ne = refl
parts-Parses (load addr) ne = refl
parts-Parses (posint y) ne = refl
parts-Parses (negint y) ne = refl
parts-Parses (fulfill addr) ne = refl
parts-Parses (chunk bs) ne = (refl, refl)
parts-Parses (mchunk bs) ne = (refl, refl)
parts-Parses (block label size) ne = refl
parts-Parses (mblock label size) ne = refl
parts-Parses (tuple size) ne = refl
parts-Parses (closure size) ne = refl
parts-Parses (a_block label size addr) ne = refl
parts-Parses (a_mblock label size addr) ne = refl
parts-Parses (a_tuple size addr) ne = refl
parts-Parses (a_closure size addr) ne = refl
parts-Parses (a_transform addr) ne = refl

-- Every instruction whose numbers are below 2 ^ 31 can be written to a valid output buffer, which
-- stays valid, and reading at the place where it was written returns the instruction and ends
-- behind it, if the stream goes on for at least a byte; the read is committed unless the
-- instruction is INIT or ENDOFSTREAM.
pub instr_format-write_instr :
    (i : Instr) (b : OutputBuffer) (hd left : ℕ)
    → i ≢ unknown
    → IsValid b
    → Fits (parts i)
    → (c : OutputBuffer) × (write_instr i b ≡ some c)
      × IsValid c
      × (run_stream instr_format (at c.buffer hd (c.pos + suc left) b.pos)
          ≡ (ending i, after c.buffer hd (c.pos + suc left) (ending i) c.pos))
unfolding write_instr
instr_format-write_instr i b hd left ne v fits =
    let (c, e, valid, w, kept) = write_parts-Written (parts i) b v fits in
    (
      c,
      e,
      valid,
      run_stream-Parses c.buffer hd (c.pos + suc left) instr_format (parts i) (ending i) b.pos c.pos
          (parts-Parses i ne) fits w (omega arith),
    )

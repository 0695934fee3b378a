-- ===== src/Pickle.antt =====
-- generic/Pickler.cc and generic/Unpickler.cc: the numbers of a pickle, as bytes of seven bits.
pub mod Numbers
pub mod Format
pub mod Refine
pub mod Stream
pub mod Output
pub mod Instr
pub mod Write
pub mod Heap
pub mod Frame
pub mod Machine
pub mod Seen
pub mod Worker
pub mod Save
pub mod Check
pub mod Gzip
pub mod Tree
pub mod Run
use aliceml_seam.Base.{
  ℕ, zero, suc, ◌+◌, ◌-◌, ◌*◌, ◌/◌, ◌%◌, ◌^◌, List, [], ◌∷◌, Option, none, some, Bool, true, false,
  ltb, leb, if◌then◌else◌,
}

-- The range of `CanPickle`: `INT_PRECISION` bits.
abbrev pub int_precision : ℕ
int_precision = 31

-- The loop of `PutUInt`: the bytes that it puts, the last of them without the top bit. The masks
-- are written as remainders. The fuel bounds the rounds; `none` is one round too many.
unfoldable pub put_bytes : ℕ → ℕ → Option (List ℕ)
put_bytes zero i = none
put_bytes (suc fuel) i =
    let rest = put_bytes fuel (i / 2 ^ 7) in
    if leb 0x80 i
    then elim rest [ none ↦ none | some bs ↦ some ((i % 2 ^ 7 + 0x80) ∷ bs) ]
    else some ((i % 2 ^ 8) ∷ [])

-- A `u_int` of 32 bits has five groups of seven bits.
unfoldable pub put_uint : ℕ → Option (List ℕ)
unfolding put_bytes
put_uint i = put_bytes 5 i

-- The part of the `InputStream` that reading uses: `RD_POS`, `HD_POS`, `TL_POS` and `EOB_POS`.
pub record InputStream : Type 0 where
  pub buffer : ℕ → ℕ
  pub hd : ℕ
  pub rd : ℕ
  pub tl : ℕ
  pub eob : Bool

unfoldable pub get_byte : InputStream → ℕ × InputStream
get_byte s =
    if leb s.tl s.rd
    then (0, record s { eob = true })
    else (s.buffer s.rd, record s { rd = s.rd + 1 })

-- The bytes from `rd` on; the caller reads them when no end is reported.
unfoldable pub get_bytes : ℕ → InputStream → InputStream
get_bytes n s = if leb s.tl (s.rd + n) then record s { eob = true } else record s { rd = s.rd + n }

unfoldable pub commit : InputStream → InputStream
commit s = record s { hd = s.rd }

-- How `GetUInt` ends: a number, the end of the buffer (the returned 0 is not used), `Error`, or the
-- shift by a negative `freeBits`, which C++ leaves undefined.
pub data Read : Type 0 where
  number : ℕ → Read
  end_of_buffer : Read
  out_of_range : Read
  bad_shift : Read

-- The loop of `GetUInt`. `rounds` is 5 less the bytes already read, `free_bits` is written from
-- `shift`. No bit of `value` is at `shift` or above, so the `|=` is a sum.
unfoldable pub get_loop : ℕ → ℕ → ℕ → InputStream → Read × InputStream
unfolding get_byte
get_loop zero shift value s =
    let (b, s) = get_byte s in if s.eob then (end_of_buffer, s) else (bad_shift, s)
get_loop (suc rounds) shift value s =
    let (b, s) = get_byte s in
    let c = b % 2 ^ 7 in
    let value = value + c * 2 ^ shift in
    let rest = get_loop rounds (shift + 7) value s in
    if s.eob
    then (end_of_buffer, s)
    else if leb (2 ^ (int_precision - shift)) c
    then (out_of_range, s)
    else if leb 0x80 b
    then rest
    else (number value, s)

unfoldable pub get_uint : InputStream → Read × InputStream
unfolding get_loop
get_uint s = get_loop 5 0 0 s

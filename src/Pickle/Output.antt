-- ===== src/Pickle/Output.antt =====
-- generic/Pickler.cc: `OutputBuffer`, the instructions of a pickle and the locals that it uses.
pub mod Writes
use aliceml_seam.Base.{
  ℕ, zero, suc, ◌+◌, ◌*◌, ◌/◌, List, [], ◌∷◌, Option, none, some, ltb, leb, ◌==◌, if◌then◌else◌,
  length,
}
use aliceml_seam.Pickle.{put_uint}

-- `buffer` and `locals` are what is written; `size` and `loc_size` are what is allocated for them.
pub record OutputBuffer : Type 0 where
  pub buffer : ℕ → ℕ
  pub pos : ℕ
  pub size : ℕ
  pub locals : ℕ → ℕ
  pub loc_count : ℕ
  pub loc_size : ℕ

abbrev pub initial_size : ℕ
initial_size = 8192

abbrev pub loc_initial_size : ℕ
loc_initial_size = 64

unfoldable pub new : OutputBuffer
new = record {
  buffer = λ i. 0;
  pos = 0;
  size = initial_size;
  locals = λ i. 0;
  loc_count = 0;
  loc_size = loc_initial_size * 2;
}

unfoldable pub reset : OutputBuffer → OutputBuffer
reset b = record b { locals = λ i. if ltb i 2 then 0 else b.locals i; pos = 0; loc_count = 0 }

-- What is written stays; the rest of the new chunk is what the store finds there.
unfoldable pub resize_buffer : OutputBuffer → OutputBuffer
resize_buffer b = record b { size = b.size * 3 / 2 }

unfoldable pub resize_locals : OutputBuffer → OutputBuffer
resize_locals b = record b { loc_size = b.loc_size * 3 * 2 / 2 }

-- The assignments to `c[pos]`, one byte after the other.
abbrev pub write : (ℕ → ℕ) → ℕ → List ℕ → (ℕ → ℕ)
write c i [] = c
write c i (x ∷ xs) = write (λ j. if j == i then x else c j) (i + 1) xs

abbrev pub append : List ℕ → OutputBuffer → OutputBuffer
append bs b = record b { buffer = write b.buffer b.pos bs; pos = b.pos + length bs }

unfoldable pub put_byte : ℕ → OutputBuffer → OutputBuffer
unfolding resize_buffer
put_byte x b = append (x ∷ []) (if leb b.size b.pos then resize_buffer b else b)

-- The loop of `PutBytes` for a chunk of `n` bytes. The fuel bounds the rounds; `none` is one too many.
unfoldable pub make_room : ℕ → ℕ → OutputBuffer → Option OutputBuffer
unfolding resize_buffer
make_room zero n b = none
make_room (suc fuel) n b =
    let rest = make_room fuel n (resize_buffer b) in if leb b.size (b.pos + n) then rest else some b

unfoldable pub put_bytes : List ℕ → OutputBuffer → Option OutputBuffer
unfolding make_room
put_bytes bs b = elim (make_room (suc (b.pos + length bs)) (length bs) b) [
  | none ↦ none
  | some c ↦ some (append bs c)
]

-- `PutUInt`; the loop is the one of `FileOutputStream::PutUInt`. `none` is a number of more than
-- five groups.
unfoldable pub put_number : ℕ → OutputBuffer → Option OutputBuffer
unfolding resize_buffer put_uint
put_number i b =
    let c = if leb b.size (b.pos + 5) then resize_buffer b else b in
    elim (put_uint i) [ none ↦ none | some bs ↦ some (append bs c) ]

-- The number of the new local, which is written, too.
unfoldable pub put_local : ℕ → OutputBuffer → Option OutputBuffer
unfolding resize_locals put_number
put_local ref b =
    let n = b.loc_count + 1 in
    let c = if leb b.loc_size (n * 2 + 1) then resize_locals b else b in
    elim (put_number n (record c {
      locals = λ i. if i == n * 2 then ref else if i == n * 2 + 1 then n else c.locals i;
    })) [ none ↦ none | some d ↦ some (record d { loc_count = n }) ]

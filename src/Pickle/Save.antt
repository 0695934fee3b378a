-- ===== src/Pickle/Save.antt =====
-- generic/Pickler.cc: `StringOutputStream`, and `WriteToStream` with the sorting of the locals.
pub mod Writes
pub mod Parts
pub mod Moved
pub mod Permuted
pub mod Partition
pub mod Sorted
pub mod Empty
pub mod Whole
pub mod Closes
use aliceml_seam.Base.{
  ℕ, zero, suc, ◌+◌, ◌-◌, ◌*◌, ◌/◌, List, [], ◌∷◌, Option, none, some, true, false, ltb, leb, ◌==◌,
  if◌then◌else◌, length, tabulate, ◌>>=◌,
}
use aliceml_seam.Store.Block.{alloc_block, encode_size}
use aliceml_seam.Pickle.{put_uint}
use aliceml_seam.Pickle.Output.{OutputBuffer, write}
use aliceml_seam.Pickle.Instr.{Tag}
use aliceml_seam.Pickle.Write.{tag_number}

pub record StringStream : Type 0 where
  pub string : ℕ → ℕ
  pub pos : ℕ
  pub size : ℕ

abbrev pub initial_size : ℕ
initial_size = 256

unfoldable pub new : StringStream
new = record { string = λ i. 0; pos = 0; size = initial_size }

unfoldable pub enlarge : StringStream → StringStream
enlarge s = record s { size = s.size * 3 / 2 }

abbrev pub append : List ℕ → StringStream → StringStream
append bs s = record s { string = write s.string s.pos bs; pos = s.pos + length bs }

unfoldable pub put_byte : ℕ → StringStream → StringStream
unfolding enlarge
put_byte x s = let t = append (x ∷ []) s in if t.pos == t.size then enlarge t else t

-- The loop of `PutBytes` for `n` bytes. The fuel bounds the rounds; `none` is one too many.
unfoldable pub make_room : ℕ → ℕ → StringStream → Option StringStream
unfolding enlarge
make_room zero n s = none
make_room (suc fuel) n s =
    let rest = make_room fuel n (enlarge s) in if leb s.size (s.pos + n) then rest else some s

unfoldable pub put_bytes : List ℕ → StringStream → Option StringStream
unfolding make_room
put_bytes bs s = do t ← make_room (suc (s.pos + length bs)) (length bs) s; some (append bs t)

abbrev pub put_each : List ℕ → StringStream → StringStream
put_each [] s = s
put_each (x ∷ xs) s = put_each xs (put_byte x s)

-- `none` is a number of more than five groups.
unfoldable pub put_number : ℕ → StringStream → Option StringStream
unfolding put_uint put_byte
put_number i s = do bs ← put_uint i; some (put_each bs s)

-- The words of a string: one for its byte size, and four bytes to a word.
abbrev pub words_of : ℕ → ℕ
words_of size = 1 + (size + 4 - 1) / 4

-- The string that `Close` returns: its bytes, the byte size that `GetSize` reads, and the number of
-- words in the header of its block.
pub record Closed : Type 0 where
  pub value : ℕ → ℕ
  pub size : ℕ
  pub words : ℕ

-- `Close` writes the position in bytes over the number of words and leaves the byte size.
unfoldable pub close : StringStream → Closed
unfolding encode_size alloc_block
close s = record {
  value = s.string;
  size = s.size;
  words = (encode_size (alloc_block (words_of s.size)) s.pos).size;
}

-- The vector of the locals: at `2 * i` the position behind the block of a local, at `2 * i + 1` its
-- number.
abbrev pub ref_of : (ℕ → ℕ) → ℕ → ℕ
ref_of b i = b (i * 2)

unfoldable pub swap : (ℕ → ℕ) → ℕ → ℕ → (ℕ → ℕ)
swap b i j = λ k.
    if k == i * 2
    then b (j * 2)
    else if k == i * 2 + 1
    then b (j * 2 + 1)
    else if k == j * 2
    then b (i * 2)
    else if k == j * 2 + 1
    then b (i * 2 + 1)
    else b k

-- `while (... b->GetArg((++i)*2) < v);` with the index to look at. The fuel bounds the rounds.
unfoldable pub scan_up : ℕ → (ℕ → ℕ) → ℕ → ℕ → Option ℕ
scan_up zero b v i = none
scan_up (suc fuel) b v i =
    let rest = scan_up fuel b v (i + 1) in if ltb (ref_of b i) v then rest else some i

-- `while (v < ... b->GetArg((--j)*2)) if (j==l) break;` with the index to look at.
unfoldable pub scan_down : ℕ → (ℕ → ℕ) → ℕ → ℕ → ℕ → Option ℕ
scan_down zero b v l j = none
scan_down (suc fuel) b v l j =
    let rest = scan_down fuel b v l (j - 1) in
    if ltb v (ref_of b j) then (if j == l then some j else rest) else some j

-- The loop of `Partition`, with the first index that is not looked at from below and the last that
-- was from above.
unfoldable pub partition_loop : ℕ → (ℕ → ℕ) → ℕ → ℕ → ℕ → ℕ → ℕ → Option (ℕ × (ℕ → ℕ))
unfolding scan_up scan_down swap
partition_loop zero b v l r i j = none
partition_loop (suc fuel) b v l r i j = do
  m ← scan_up (suc (r - i)) b v i
  n ← scan_down (suc j) b v l (j - 1)
  if leb n m then some (m, swap b m r) else partition_loop fuel (swap b m n) v l r (m + 1) n

unfoldable pub partition : (ℕ → ℕ) → ℕ → ℕ → Option (ℕ × (ℕ → ℕ))
unfolding partition_loop
partition b l r = partition_loop (suc r) b (ref_of b r) l r l r

-- `Sort`, with indices raised by one, as `i - 1` may be -1.
unfoldable pub sort : ℕ → (ℕ → ℕ) → ℕ → ℕ → Option (ℕ → ℕ)
unfolding partition
sort zero b l r = none
sort (suc fuel) b l r =
    if leb r (l + 1)
    then some b
    else do p ← partition b l (r - 1); c ← sort fuel p.1 l p.0; sort fuel c (p.0 + 1) r

unfoldable pub get_locals : OutputBuffer → Option (ℕ → ℕ)
unfolding sort
get_locals b =
    if ltb 0 b.loc_count
    then sort (suc (b.loc_count + 1)) b.locals 0 (b.loc_count + 1)
    else some b.locals

-- The loop of `WriteToStream` over `k` locals from `i` on, with the bytes from `cur` on to write.
unfoldable pub write_locals :
    ℕ → (vars : ℕ → ℕ) → (buffer : ℕ → ℕ) → (i cur : ℕ) → StringStream → Option (ℕ × StringStream)
unfolding put_bytes put_byte put_number tag_number
write_locals zero vars buffer i cur s = some (cur, s)
write_locals (suc k) vars buffer i cur s =
    let loc = vars (i * 2) in
    elim (ltb 0 loc) [
      | true ↦ do
        t ← put_bytes (tabulate (loc - cur) (λ j. buffer (cur + j))) s
        u ← put_number (vars (i * 2 + 1)) (put_byte (tag_number Tag.store) t)
        write_locals k vars buffer (i + 1) loc u
      | false ↦ write_locals k vars buffer (i + 1) cur s
    ]

abbrev pub magic : List ℕ
magic = 115 ∷ 101 ∷ 97 ∷ 109 ∷ []

abbrev pub major_version : ℕ
major_version = 5

abbrev pub minor_version : ℕ
minor_version = 0

unfoldable pub write_header : (max_height no_of_locals : ℕ) → StringStream → Option StringStream
unfolding put_bytes put_byte put_number tag_number
write_header max_height no_of_locals s = do
  t ← put_bytes magic s
  u ← put_number major_version t
  v ← put_number minor_version u
  w ← put_number max_height (put_byte (tag_number Tag.init) v)
  x ← put_number (no_of_locals + 1) w
  some x

unfoldable pub write_to_stream :
    OutputBuffer → (max_height : ℕ) → StringStream → Option StringStream
unfolding get_locals write_header write_locals put_bytes put_byte put_number tag_number
write_to_stream b max_height s = do
  vars ← get_locals b
  t ← write_header max_height b.loc_count s
  p ← write_locals b.loc_count vars b.buffer 1 0 t
  u ← put_bytes (tabulate (b.pos - p.0) (λ j. b.buffer (p.0 + j))) p.1
  v ← put_number 0 (put_byte (tag_number Tag.store) u)
  some (put_byte (tag_number Tag.end_of_stream) v)

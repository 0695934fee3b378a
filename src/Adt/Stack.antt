-- ===== src/Adt/Stack.antt =====
-- adt/Stack.hh: a stack of words in a block that grows. The methods for a word and for an integer
-- differ only in the write barrier of the store, and are one function here.
pub mod Items
pub mod Frames
pub mod Blank
use aliceml_seam.Base.{
  ℕ, ◌+◌, ◌*◌, ◌/◌, ◌==◌, Bool, ltb, leb, if◌then◌else◌, sub_word, add_word, mul_word,
}
use aliceml_seam.Store.Block.{Word, Block, zero_word, alloc_block, write, memcpy, fill, encode_size}

pub record Stack : Type 0 where
  pub top : ℕ
  pub array : Block

unfoldable pub new : ℕ → Stack
new s = record { top = 0; array = alloc_block s }

-- The copy goes into a block that no one has written yet.
unfoldable pub enlarge : Stack → ℕ → ℕ → Stack
enlarge s old_size new_size =
    let fresh = alloc_block new_size in
    record s {
      array = record fresh { word_at = memcpy 0 s.array.word_at 0 old_size fresh.word_at };
    }

-- One word of the array is written.
unfoldable pub put : Stack → ℕ → Word → Stack
put s i v = record s { array = record (s.array) { word_at = write s.array.word_at i v } }

unfoldable pub alloc_arg_frame : Stack → ℕ → Stack
alloc_arg_frame s fsize =
    let size = add_word s.top fsize in
    let moved : Stack = record s { top = size } in
    if leb s.array.size size then enlarge moved s.array.size (mul_word size 3 / 2) else moved

unfoldable pub clear_arg_frame : Stack → ℕ → Stack
clear_arg_frame s fsize =
    let newtop = sub_word s.top fsize in
    put (record s { top = newtop }) (sub_word newtop 1) (s.array.word_at (sub_word s.top 1))

unfoldable pub clear_arg_frame_zero : Stack → ℕ → Stack
clear_arg_frame_zero s fsize = record s { top = sub_word s.top fsize }

unfoldable pub alloc_frame : Stack → ℕ → Stack
alloc_frame s fsize =
    let size = add_word s.top fsize in
    if leb s.array.size size then enlarge s s.array.size (mul_word size 3 / 2) else s

unfoldable pub clear_frame : Stack → ℕ → Stack
clear_frame s fsize = record s { top = sub_word s.top fsize }

-- The caller has seen to it that there is room.
unfoldable pub push : Stack → Word → Stack
push s v = put (record s { top = add_word s.top 1 }) s.top v

unfoldable pub slow_push : Stack → Word → Stack
slow_push s v =
    let moved : Stack = record s { top = add_word s.top 1 } in
    if ltb s.top s.array.size
    then put moved s.top v
    else put (enlarge moved s.array.size (mul_word s.array.size 3 / 2)) s.top v

unfoldable pub top_word : Stack → Word
top_word s = s.array.word_at (sub_word s.top 1)

unfoldable pub get_frame_arg : Stack → ℕ → Word
get_frame_arg s f = s.array.word_at (sub_word (sub_word s.top 1) f)

unfoldable pub get_absolute_arg : Stack → ℕ → Word
get_absolute_arg s f = s.array.word_at f

unfoldable pub put_frame_arg : Stack → ℕ → Word → Stack
put_frame_arg s f v = put s (sub_word (sub_word s.top 1) f) v

unfoldable pub pop : Stack → Word × Stack
pop s = let top = sub_word s.top 1 in (s.array.word_at top, record s { top = top })

unfoldable pub slow_pop : Stack → Word × Stack
slow_pop s =
    let top = sub_word s.top 1 in (s.array.word_at top, put (record s { top = top }) top zero_word)

unfoldable pub is_empty : Stack → Bool
is_empty s = s.top == 0

unfoldable pub blank : Stack → ℕ → Stack
blank s threshold =
    let wanted = add_word s.top threshold in
    let newmax = if leb wanted s.array.size then wanted else s.array.size in
    let cleared : Block = record (s.array) {
      word_at = fill s.top newmax zero_word s.array.word_at;
    } in
    record s { array = encode_size cleared newmax }

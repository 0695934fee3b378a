-- ===== src/Adt/DynamicArray.antt =====
-- adt/DynamicArray.cc: an array that grows when it is written behind its end. `INVALID_ARRAY_ELEM`,
-- the word of a block that `Init` allocates once, is the argument `invalid_elem`.
pub mod Reads
use aliceml_seam.Base.{ℕ, ◌+◌, add_word, mul_word, ltb, leb, if◌then◌else◌}
use aliceml_seam.Store.Block.{Word, Block, alloc_block, write, memcpy, fill}

pub record DynamicArray : Type 0 where
  pub size : ℕ
  pub array : Block
  pub init_elem : Word

-- The cells are left as the store gives them.
unfoldable pub new : Word → ℕ → DynamicArray
new invalid_elem initial_size = record {
  size = initial_size;
  array = alloc_block initial_size;
  init_elem = invalid_elem;
}

unfoldable pub new_init : ℕ → Word → DynamicArray
new_init initial_size elem =
    let a = alloc_block initial_size in
    record {
      size = initial_size;
      array = record a { word_at = fill 0 initial_size elem a.word_at };
      init_elem = elem;
    }

unfoldable pub get_length : DynamicArray → ℕ
get_length d = d.size

-- The length after `EnlargeArray`, as a `u_int`.
unfoldable pub enlarged_length : ℕ → ℕ → ℕ
enlarged_length length up_to =
    if leb (mul_word length 2) up_to then add_word up_to 1 else mul_word length 2

unfoldable pub enlarge_array : DynamicArray → ℕ → DynamicArray
enlarge_array d up_to =
    let new_length = enlarged_length d.size up_to in
    let a = alloc_block new_length in
    record {
      size = new_length;
      array = record a {
        word_at = fill d.size new_length d.init_elem (memcpy 0 d.array.word_at 0 d.size a.word_at);
      };
      init_elem = d.init_elem;
    }

-- One word of the array is written.
unfoldable pub put : DynamicArray → ℕ → Word → DynamicArray
put d i v = record d { array = record (d.array) { word_at = write d.array.word_at i v } }

-- The index is not handed on to `EnlargeArray`, whose default is 0.
unfoldable pub init : DynamicArray → ℕ → Word → DynamicArray
init d index value = put (if leb d.size index then enlarge_array d 0 else d) index value

unfoldable pub update : DynamicArray → ℕ → Word → DynamicArray
update d index value = put (if leb d.size index then enlarge_array d index else d) index value

unfoldable pub sub : Word → DynamicArray → ℕ → Word
sub invalid_elem d index = if leb d.size index then invalid_elem else d.array.word_at index

unfoldable pub clear : DynamicArray → DynamicArray
clear d = record d {
  array = record (d.array) { word_at = fill 0 d.size d.init_elem d.array.word_at };
}

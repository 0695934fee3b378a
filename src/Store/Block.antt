-- ===== src/Store/Block.antt =====
-- Blocks of store/Value.hh as the data structures of adt/ use them, and their allocation by
-- store/Store.hh. A block is a header and a run of words. Of the header this file keeps the size
-- field with its shift flag.
use aliceml_seam.Base.{ℕ, ◌+◌, ◌-◌, ◌*◌, ◌/◌, ◌%◌, ◌^◌, Bool, ◌&&◌, ltb, leb, if◌then◌else◌, ◌==◌}

-- A machine word is its bit pattern. `Store::IntToWord(0)` is the pattern 1.
abbrev pub Word : Type 0
Word = ℕ

abbrev pub max_blocksize : ℕ
max_blocksize = 2 ^ 20 - 1

abbrev pub max_bigblocksize : ℕ
max_bigblocksize = (2 ^ 20 - 1) * 2 ^ 4

-- `HeaderOp::TranslateSize`: a big size is rounded up to a multiple of 16.
unfoldable pub translate_size : ℕ → ℕ
translate_size size = if leb size max_blocksize then size else (size + 2 ^ 4 - 1) / 2 ^ 4 * 2 ^ 4

-- `word_at` is memory: a function of the index, as C does not check it.
pub record Block : Type 0 where
  pub big : Bool
  pub size : ℕ
  pub word_at : ℕ → Word

-- The word that `memset(base, 1, size)` leaves in memory that no one has written.
abbrev pub fresh_word : Word
fresh_word = 0x01010101

abbrev pub zero_word : Word
zero_word = 1

-- `Store::AllocMutableBlock`, for sizes up to `max_bigblocksize`, which `InternalAlloc` asserts. What a
-- larger size does to the header is not modelled.
unfoldable pub alloc_block : ℕ → Block
alloc_block s = record {
  big = ltb max_blocksize (translate_size s);
  size = translate_size s;
  word_at = λ _. fresh_word;
}

-- `Block::InitArg`, and `Block::ReplaceArg` as far as the block itself goes.
unfoldable pub write : (ℕ → Word) → ℕ → Word → ℕ → Word
write mem i v j = if i == j then v else mem j

-- `std::memmove(base + dst, base + src, n * sizeof(word))`
unfoldable pub memmove : ℕ → ℕ → ℕ → (ℕ → Word) → ℕ → Word
memmove dst src n mem j = if leb dst j && ltb j (dst + n) then mem (src + (j - dst)) else mem j

-- `std::memcpy` from another block.
unfoldable pub memcpy : ℕ → (ℕ → Word) → ℕ → ℕ → (ℕ → Word) → ℕ → Word
memcpy dst from src n mem j = if leb dst j && ltb j (dst + n) then from (src + (j - dst)) else mem j

-- `for (i = from; i < to; i++) InitArg(i, v)`
unfoldable pub fill : ℕ → ℕ → Word → (ℕ → Word) → ℕ → Word
fill from to v mem j = if leb from j && ltb j to then v else mem j

-- `HeaderOp::EncodeSize`: the size field is overwritten, the shift flag stays.
unfoldable pub encode_size : Block → ℕ → Block
encode_size b s = record b { size = s % 2 ^ 20 * (if b.big then 2 ^ 4 else 1) }

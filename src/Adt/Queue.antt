-- ===== src/Adt/Queue.antt =====
-- adt/Queue.hh: a queue in a circular array. One cell always stays free, so that equal indices
-- mean an empty queue. A method that changes the block returns the new queue.
pub mod Contents
pub mod Ends
pub mod Cut
pub mod Erase
pub mod Remove
pub mod Blank
use aliceml_seam.Base.{
  ℕ, zero, suc, ◌+◌, ◌-◌, ◌*◌, ◌/◌, ◌%◌, Bool, ltb, leb, ◌==◌, if◌then◌else◌, Option, none, some,
}
use aliceml_seam.Store.Block.{
  Word, Block, zero_word, alloc_block, write, memmove, memcpy, fill, encode_size,
}

pub record Queue : Type 0 where
  pub read_index : ℕ
  pub write_index : ℕ
  pub array : Block

-- The array with other words in it.
abbrev pub with_words : Block → (ℕ → Word) → Block
with_words b mem = record b { word_at = mem }

unfoldable pub new : ℕ → Queue
unfolding alloc_block
new initial_size = record { read_index = 0; write_index = 0; array = alloc_block initial_size }

-- The two halves are copied so that the oldest item comes first.
unfoldable pub enlarge : ℕ → Queue → Queue
unfolding alloc_block memcpy
enlarge threshold q = record {
  read_index = 0;
  write_index = old_size;
  array = with_words new_array (
      memcpy (old_size - index) q.array.word_at 0 index
        (memcpy 0 q.array.word_at index (old_size - index) new_array.word_at));
}
  where
    old_size : ℕ
    old_size = q.array.size

    index : ℕ
    index = q.read_index

    new_array : Block
    new_array = alloc_block (old_size + threshold)

unfoldable pub number_of_elements : Queue → ℕ
number_of_elements q =
    let nentries = q.write_index + q.array.size - q.read_index in
    if leb q.array.size nentries then nentries - q.array.size else nentries

-- The cell of the item `n` places behind the oldest.
abbrev pub slot : ℕ → ℕ → ℕ → ℕ
slot size read n = if leb size (read + n) then read + n - size else read + n

unfoldable pub nth_element : Queue → ℕ → Word
nth_element q n = q.array.word_at (slot q.array.size q.read_index n)

unfoldable pub remove_nth_element : Queue → ℕ → Queue
unfolding memmove
remove_nth_element q n =
    let index = q.read_index + n in
    if leb q.array.size index
    then (let i = index - q.array.size in
        record {
          read_index = q.read_index;
          write_index = q.write_index - 1;
          array = with_words q.array (memmove i (i + 1) (q.write_index - i - 1) q.array.word_at);
        })
    else record {
      read_index = if q.read_index + 1 == q.array.size then 0 else q.read_index + 1;
      write_index = q.write_index;
      array =
          with_words q.array
            (memmove (q.read_index + 1) q.read_index (index - q.read_index) q.array.word_at);
    }

unfoldable pub enqueue : Queue → Word → Queue
unfolding enlarge write
enqueue q w =
    let next = if q.write_index + 1 == q.array.size then 0 else q.write_index + 1 in
    let stored : Queue = record q {
      write_index = next;
      array = with_words q.array (write q.array.word_at q.write_index w);
    } in
    if next == q.read_index then enlarge (q.array.size / 2) stored else stored

unfoldable pub is_empty : Queue → Bool
is_empty q = q.write_index == q.read_index

-- The precondition, a queue that is not empty, is the caller's.
unfoldable pub dequeue : Queue → Word × Queue
dequeue q = (
  q.array.word_at q.read_index,
  record q { read_index = if q.read_index + 1 == q.array.size then 0 else q.read_index + 1 },
)

-- The loops of `Remove`: the first of the `n` cells from `i` on that holds `w`.
unfoldable pub scan : (ℕ → Word) → Word → ℕ → ℕ → Option ℕ
scan mem w i zero = none
scan mem w i (suc n) = let rest = scan mem w (i + 1) n in if mem i == w then some i else rest

-- The second loop, which shortens the queue at its end.
unfoldable pub remove_up : Queue → Word → ℕ → Queue
unfolding scan memmove
remove_up q w from = elim (scan q.array.word_at w from (q.write_index - from)) [
  | none ↦ q
  | some i ↦ record q {
    write_index = q.write_index - 1;
    array = with_words q.array (memmove i (i + 1) (q.write_index - i) q.array.word_at);
  }
]

unfoldable pub remove : Queue → Word → Queue
remove q w =
    if q.read_index == q.write_index
    then q
    else if ltb q.write_index q.read_index
    then elim (scan q.array.word_at w q.read_index (q.array.size - q.read_index)) [
      | none ↦ remove_up q w 0
      | some i ↦ record q {
        read_index = (q.read_index + 1) % q.array.size;
        array =
            with_words q.array
              (memmove (q.read_index + 1) q.read_index (i - q.read_index) q.array.word_at);
      }
    ]
    else remove_up q w q.read_index

-- The array size that `Blank` aims at.
unfoldable pub blank_size : Queue → ℕ
blank_size q =
    let old = q.array.size in
    let n = q.write_index + old - q.read_index in
    let nentries = if ltb old n then n - old else n in
    let wanted = (nentries * 3 / 2 + 1 + old) / 2 in if ltb wanted 2 then 2 else wanted

-- `Blank` moves the items into the part of the array that stays, and cuts the array to `size`.
unfoldable pub shrink : ℕ → Queue → Queue
unfolding memmove encode_size
shrink size q =
    let mem = q.array.word_at in
    let count = q.write_index - q.read_index in
    let length = q.array.size - q.read_index in
    if leb q.array.size size
    then q
    else if ltb q.read_index q.write_index
    then (if leb size q.write_index
        then record {
          read_index = 0;
          write_index = count;
          array = encode_size (with_words q.array (memmove 0 q.read_index count mem)) size;
        }
        else record q { array = encode_size q.array size })
    else record q {
      read_index = size - length;
      array =
          encode_size (with_words q.array (memmove (size - length) q.read_index length mem)) size;
    }

-- `Blank` writes zero into the cells that hold no item. `size` is the new size as it was computed.
unfoldable pub clear_unused : ℕ → Queue → Queue
unfolding fill
clear_unused size q =
    let mem = q.array.word_at in
    if ltb q.read_index q.write_index
    then record q {
      array =
          with_words q.array
            (fill q.write_index size zero_word (fill 0 q.read_index zero_word mem));
    }
    else record q { array = with_words q.array (fill q.write_index q.read_index zero_word mem) }

unfoldable pub blank : Queue → Queue
blank q =
    let size = blank_size q in
    clear_unused (if leb q.array.size size then q.array.size else size) (shrink size q)

unfoldable pub clone : Queue → Queue
unfolding new memcpy
clone q =
    let fresh = new q.array.size in
    record {
      read_index = q.read_index;
      write_index = q.write_index;
      array = with_words fresh.array (memcpy 0 q.array.word_at 0 q.array.size fresh.array.word_at);
    }

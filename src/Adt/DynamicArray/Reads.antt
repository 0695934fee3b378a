-- ===== src/Adt/DynamicArray/Reads.antt =====
-- adt/DynamicArray.cc: what is read after each write.
use aliceml_seam.Base.{ℕ, ◌*◌, ◌≤◌, ◌<◌, ◌≡◌, ◌==◌, arith, ltb, if◌then◌else◌, max, word_mod, ◌+◌}
use aliceml_seam.Store.Block.{Word, max_bigblocksize, fresh_word, alloc_block, write, memcpy, fill}
use aliceml_seam.Store.Sizes.{translate_size-ge}
use aliceml_seam.Adt.DynamicArray.{
  DynamicArray, new, new_init, get_length, enlarged_length, enlarge_array, put, init, update, sub,
  clear,
}

-- The cells that the length counts are cells of the array.
pub record IsValid (d : DynamicArray) : Type 0 where
  pub fits : d.size ≤ d.array.size

-- Every constructor and every write keeps the length within the array.
pub update-IsValid :
    (d : DynamicArray) (i : ℕ) (v : Word)
    → IsValid d
    → 2 * get_length d < word_mod
    → i + 1 < word_mod
    → IsValid (update d i v) × (i < get_length (update d i v))
unfolding update put enlarge_array enlarged_length get_length alloc_block
update-IsValid d i v ok small few =
    let bigger = translate_size-ge (enlarged_length d.size i) in ground (arith, bigger)

-- After Update at an index that leaves the new length within the size of a block, an array whose
-- initial element is the invalid one reads as the new value at the index and as before at every
-- other index, within and outside its old length.
pub sub-update :
    (invalid_elem : Word) (d : DynamicArray) (i j : ℕ) (v : Word)
    → d.init_elem ≡ invalid_elem
    → max (2 * get_length d) (i + 1) ≤ max_bigblocksize
    → sub invalid_elem (update d i v) j ≡ (if i == j then v else sub invalid_elem d j)
unfolding sub update put enlarge_array enlarged_length write memcpy fill get_length
sub-update invalid_elem d i j v e small = ground arith

-- `Init` within the bounds of the array does the same.
pub sub-init :
    (invalid_elem : Word) (d : DynamicArray) (i j : ℕ) (v : Word)
    → d.init_elem ≡ invalid_elem
    → 2 * get_length d < word_mod
    → i < max 1 (2 * get_length d)
    → sub invalid_elem (init d i v) j ≡ (if i == j then v else sub invalid_elem d j)
unfolding sub init put enlarge_array enlarged_length write memcpy fill get_length
sub-init invalid_elem d i j v e small h = ground arith

-- Init at an index that is at least 1 and at least twice the length leaves the length at or below
-- the index, and the array reads as the invalid element there.
pub init_overruns :
    (invalid_elem : Word) (d : DynamicArray) (i : ℕ) (v : Word)
    → max 1 (2 * get_length d) ≤ i
    → (get_length (init d i v) ≤ i) × (sub invalid_elem (init d i v) i ≡ invalid_elem)
unfolding sub init put enlarge_array enlarged_length get_length
init_overruns invalid_elem d i v h = (ground arith, ground arith)

-- A cleared array has its length, and reads as its initial element there.
pub sub-clear :
    (invalid_elem : Word) (d : DynamicArray) (j : ℕ)
    → sub invalid_elem (clear d) j ≡ (if ltb j (get_length d) then d.init_elem else invalid_elem)
unfolding sub clear fill get_length
sub-clear invalid_elem d j = ground arith

-- `NewInit` sets every cell; `New` names an initial element and sets none.
pub sub_fresh :
    (invalid_elem elem : Word) (n j : ℕ)
    → (sub invalid_elem (new_init n elem) j ≡ (if ltb j n then elem else invalid_elem))
      × (sub invalid_elem (new invalid_elem n) j ≡ (if ltb j n then fresh_word else invalid_elem))
unfolding sub new new_init fill alloc_block
sub_fresh invalid_elem elem n j = (ground arith, ground arith)

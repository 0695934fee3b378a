-- ===== src/Adt/Stack/Blank.antt =====
-- adt/Stack.hh: `Blank`, which cuts the array behind the top.
use aliceml_seam.Base.{ℕ, ◌+◌, ◌≤◌, ◌<◌, ◌≡◌, arith, min, tabulate_congr, false, word_mod}
use aliceml_seam.Store.Block.{zero_word, fill, encode_size, max_blocksize}
use aliceml_seam.Adt.Stack.{Stack, blank}
use aliceml_seam.Adt.Stack.Items.{items, IsValid}

-- Blank on a valid stack whose array has a header without the shift flag keeps the items and the
-- stack valid, leaves at most the threshold of cells behind the top, and these are zero.
pub blank_threshold_refines :
    (s : Stack) (threshold : ℕ)
    → IsValid s
    → s.array.big ≡ false
    → s.array.size ≤ max_blocksize
    → s.top + threshold < word_mod
    → let t = blank s threshold in
      (items t ≡ items s)
      × IsValid t
      × (t.array.size ≡ min (s.top + threshold) s.array.size)
      × ((i : ℕ) → t.top ≤ i → i < t.array.size → t.array.word_at i ≡ zero_word)
unfolding blank fill encode_size
blank_threshold_refines s threshold ok flag small word =
    (tabulate_congr _ _ _ (λ i p. ground arith), ground arith, ground arith, λ i p q. ground arith)

-- ===== src/Store/Sizes.antt =====
-- store/HeaderOp.hh: what `TranslateSize` does to a size.
use aliceml_seam.Base.{ℕ, ◌≤◌, ◌≡◌, arith}
use aliceml_seam.Store.Block.{translate_size, max_blocksize, max_bigblocksize}

pub translate_size-ge : (s : ℕ) → s ≤ translate_size s
unfolding translate_size
translate_size-ge s = ground arith

pub translate_size_idem : (s : ℕ) → translate_size (translate_size s) ≡ translate_size s
unfolding translate_size
translate_size_idem s = ground arith

-- A size that is not big stays as it is.
pub translate_size_small : (s : ℕ) → s ≤ max_blocksize → translate_size s ≡ s
unfolding translate_size
translate_size_small s h = ground arith

-- The largest size is not rounded beyond itself.
pub translate_size-le : (s : ℕ) → s ≤ max_bigblocksize → translate_size s ≤ max_bigblocksize
unfolding translate_size
translate_size-le s h = ground arith

-- ===== src/Store/Pointer.antt =====
-- store/PointerOp.hh: words and their tags, on a 32-bit machine. The tags of store/Types.hh are 0 for
-- a block, 2 for a transient and the bit 0 for an integer. A pointer is its address.
pub mod Tags
use aliceml_seam.Base.{
  ℕ, ◌+◌, ◌-◌, ◌*◌, ◌/◌, ◌%◌, ◌^◌, Bool, true, false, Option, none, some, ltb, ◌==◌, if◌then◌else◌,
}
use aliceml_seam.Store.Block.{Word}

unfoldable pub decode_tag : Word → ℕ
decode_tag p = p % 2 ^ 2

unfoldable pub remove_tag : Word → ℕ
remove_tag p = p / 2 ^ 2 * 2 ^ 2

-- `EncodeBlock`: a block is aligned, and its tag is 0.
unfoldable pub encode_block : ℕ → Word
encode_block p = p

-- `none` is `INVALID_POINTER`.
unfoldable pub decode_block : Word → Option ℕ
unfolding decode_tag
decode_block p = if decode_tag p == 0 then some p else none

-- `EncodeTransient`: the bit 1 of an aligned address is set.
unfoldable pub encode_transient : ℕ → Word
encode_transient p = p / 2 ^ 2 * 2 ^ 2 + 2 + p % 2

unfoldable pub decode_transient : Word → Option ℕ
unfolding decode_tag
decode_transient p = if decode_tag p == 2 then some (p - 2) else none

unfoldable pub is_int : Word → Bool
is_int v = v % 2 == 1

unfoldable pub is_transient : Word → Bool
is_transient v = v % 2 ^ 2 == 2

-- `EncodeInt` on the pattern of a signed integer: the top bit is lost.
unfoldable pub encode_int : Word → Word
encode_int v = v * 2 % 2 ^ 32 + 1

-- `DirectDecodeInt`: the top bit is copied.
unfoldable pub direct_decode_int : Word → Word
direct_decode_int v = if v / 2 ^ 31 % 2 == 1 then 2 ^ 31 + v / 2 else v / 2

-- `INVALID_INT` is the pattern of the least integer.
unfoldable pub decode_int : Word → Word
unfolding direct_decode_int
decode_int v = if v % 2 == 1 then direct_decode_int v else 2 ^ 31

-- `EncodeUnmanagedPointer` and `DirectDecodeUnmanagedPointer`: bit 0 is set, and flipped.
unfoldable pub encode_unmanaged_pointer : ℕ → Word
encode_unmanaged_pointer v = v / 2 * 2 + 1

unfoldable pub decode_unmanaged_pointer : Word → ℕ
decode_unmanaged_pointer v = if v % 2 == 1 then v - 1 else v + 1

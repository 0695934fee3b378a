-- ===== src/Store/Header.antt =====
-- store/HeaderOp.hh and the header operations of store/GCHelper.hh, with the widths of
-- store/Parameter.hh on a 32-bit machine: generation 2, size shift 1, size 20, label 7, mutable 1,
-- childish 1, from bit 0. A mask and a shift are written as a quotient and a remainder, and `|` of
-- separate fields as a sum.
pub mod Fields
use aliceml_seam.Base.{ℕ, ◌+◌, ◌-◌, ◌*◌, ◌/◌, ◌%◌, ◌^◌, Bool, true, false, ltb, ◌==◌, if◌then◌else◌}
use aliceml_seam.Store.Block.{Word, max_blocksize}

-- `header & ~MASK | v << shift`, where the field has the width `w` and stands at the bit `at`.
abbrev pub set_field : ℕ → ℕ → ℕ → Word → Word
set_field at w v h = h % 2 ^ at + v * 2 ^ at + h / 2 ^ (at + w) * 2 ^ (at + w)

unfoldable pub encode_header : ℕ → ℕ → ℕ → ℕ → Word
encode_header l s gen mutable_flag =
    if ltb max_blocksize s
    then gen + 1 + 2 ^ 2 + s / 2 ^ 4 * 2 ^ 3 + (l * 2 ^ 23 + mutable_flag * 2 ^ 30)
    else gen + 1 + s * 2 ^ 3 + (l * 2 ^ 23 + mutable_flag * 2 ^ 30)

unfoldable pub encode_label : ℕ → Word → Word
encode_label l h = set_field 23 7 l h

unfoldable pub decode_label : Word → ℕ
decode_label h = h / 2 ^ 23 % 2 ^ 7

unfoldable pub decode_mutable_flag : Word → ℕ
decode_mutable_flag h = h / 2 ^ 30 % 2

unfoldable pub encode_mutable_flag : ℕ → Word → Word
encode_mutable_flag f h = set_field 30 1 f h

unfoldable pub encode_size : ℕ → Word → Word
encode_size s h = set_field 3 20 s h

-- `SIZESHIFT_MASK` is 4: the bit itself is the distance of the shift.
unfoldable pub decode_size : Word → ℕ
decode_size h = h / 2 ^ 3 % 2 ^ 20 * (if h / 2 ^ 2 % 2 == 1 then 2 ^ 4 else 1)

-- The subtraction wraps on a block that has moved.
unfoldable pub decode_generation : Word → ℕ
decode_generation h = (h % 2 ^ 2 + 2 ^ 32 - 1) % 2 ^ 32

unfoldable pub set_childish_flag : Word → Word
set_childish_flag h = set_field 31 1 1 h

unfoldable pub clear_childish_flag : Word → Word
clear_childish_flag h = set_field 31 1 0 h

unfoldable pub is_childish : Word → Bool
is_childish h = h / 2 ^ 31 % 2 == 1

-- `GCHelper::AlreadyMoved`
unfoldable pub already_moved : Word → Bool
already_moved h = h % 2 ^ 2 == 0

-- `GCHelper::EncodeGen`
unfoldable pub encode_gen : ℕ → Word → Word
encode_gen gen h = set_field 0 2 (gen + 1) h

-- `GCHelper::DecodeGen`
unfoldable pub decode_gen : Word → ℕ
decode_gen h = h % 2 ^ 2

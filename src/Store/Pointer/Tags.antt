-- ===== src/Store/Pointer/Tags.antt =====
-- store/PointerOp.hh: what the decoders make of an encoded word.
use aliceml_seam.Base.{
  ℕ, ◌-◌, ◌%◌, ◌^◌, ◌<◌, ◌≤◌, ◌≡◌, ◌⊎◌, inl, inr, arith, Bool, true, false, Option, none, some,
}
use aliceml_seam.Store.Block.{Word}
use aliceml_seam.Store.Pointer.{
  decode_tag, encode_block, decode_block, encode_transient, decode_transient, is_int, is_transient,
  encode_int, direct_decode_int, decode_int, encode_unmanaged_pointer, decode_unmanaged_pointer,
}

-- The patterns from `MIN_VALID_INT` to `MAX_VALID_INT`: 31 bits and their sign.
unfoldable pub IsValidInt : Word → Type 0
IsValidInt v = (v < 2 ^ 30) ⊎ ((2 ^ 32 - 2 ^ 30 ≤ v) × (v < 2 ^ 32))

-- What the tests and decoders say of a word.
pub record View : Type 0 where
  pub block : Option ℕ
  pub transient : Option ℕ
  pub int : Word
  pub is_int : Bool
  pub is_transient : Bool

unfoldable pub view : Word → View
unfolding decode_block decode_transient decode_int is_int is_transient
view w = record {
  block = decode_block w;
  transient = decode_transient w;
  int = decode_int w;
  is_int = is_int w;
  is_transient = is_transient w;
}

-- An integer of 31 bits and sign is encoded as a word that decodes to it, and that is no block and
-- no transient.
pub view-encode_int :
    (v : Word)
    → IsValidInt v
    → view (encode_int v)
      ≡ record { block = none; transient = none; int = v; is_int = true; is_transient = false }
unfolding view IsValidInt encode_int decode_block decode_transient decode_int direct_decode_int
    decode_tag is_int is_transient
view-encode_int v (inl h) = ground arith
view-encode_int v (inr h) = ground arith

-- The address of a block is read back, and is no transient and no integer.
pub view-encode_block :
    (p : ℕ)
    → p % 2 ^ 2 ≡ 0
    → view (encode_block p) ≡ record {
      block = some p;
      transient = none;
      int = 2 ^ 31;
      is_int = false;
      is_transient = false;
    }
unfolding view encode_block decode_block decode_transient decode_int direct_decode_int decode_tag
    is_int is_transient
view-encode_block p h = ground arith

-- The aligned address of a transient is encoded as a word that decodes to it, and that is no block
-- and no integer.
pub view-encode_transient :
    (p : ℕ)
    → p % 2 ^ 2 ≡ 0
    → view (encode_transient p) ≡ record {
      block = none;
      transient = some p;
      int = 2 ^ 31;
      is_int = false;
      is_transient = true;
    }
unfolding view encode_transient decode_block decode_transient decode_int direct_decode_int
    decode_tag is_int is_transient
view-encode_transient p h = ground arith

pub decode_unmanaged_pointer-encode :
    (p : ℕ) → p % 2 ≡ 0 → decode_unmanaged_pointer (encode_unmanaged_pointer p) ≡ p
unfolding encode_unmanaged_pointer decode_unmanaged_pointer
decode_unmanaged_pointer-encode p h = ground arith

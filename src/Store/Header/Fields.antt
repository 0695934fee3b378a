-- ===== src/Store/Header/Fields.antt =====
-- store/HeaderOp.hh: what the fields of a header read as after they were written.
use aliceml_seam.Base.{
  ℕ, ◌*◌, ◌/◌, ◌%◌, ◌^◌, ◌≤◌, ◌<◌, ◌≡◌, arith, Bool, true, false, ◌==◌, if◌then◌else◌,
}
use aliceml_seam.Store.Block.{Word, max_blocksize, max_bigblocksize, translate_size}
use aliceml_seam.Store.Header.{
  encode_header, encode_label, decode_label, decode_mutable_flag, encode_mutable_flag, encode_size,
  decode_size, decode_generation, set_childish_flag, is_childish, encode_gen,
}

-- A header as its fields, as the decoders read them.
pub record Fields : Type 0 where
  pub label : ℕ
  pub size : ℕ
  pub generation : ℕ
  pub mutable_flag : ℕ
  pub childish : Bool

unfoldable pub fields : Word → Fields
unfolding decode_label decode_size decode_generation decode_mutable_flag is_childish
fields h = record {
  label = decode_label h;
  size = decode_size h;
  generation = decode_generation h;
  mutable_flag = decode_mutable_flag h;
  childish = is_childish h;
}

-- The header that EncodeHeader makes of a label below 2 ^ 7, the translation of a size up to
-- MAX_BIGBLOCKSIZE, a generation below 3 and a mutable flag of at most 1 decodes to these four
-- values and is not childish.
pub fields-encode_header :
    (l s gen f : ℕ)
    → l < 2 ^ 7
    → s ≤ max_bigblocksize
    → gen < 3
    → f ≤ 1
    → fields (encode_header l (translate_size s) gen f) ≡ record {
      label = l;
      size = translate_size s;
      generation = gen;
      mutable_flag = f;
      childish = false;
    }
unfolding fields encode_header translate_size decode_label decode_size decode_generation
    decode_mutable_flag is_childish
fields-encode_header l s gen f hl hs hg hf = ground arith

pub fields-encode_label :
    (l h : ℕ) → l < 2 ^ 7 → h < 2 ^ 32 → fields (encode_label l h) ≡ record (fields h) { label = l }
unfolding fields encode_label decode_label decode_size decode_generation decode_mutable_flag
    is_childish
fields-encode_label l h hl hh = ground arith

pub fields-encode_mutable_flag :
    (f h : ℕ)
    → f ≤ 1
    → h < 2 ^ 32
    → fields (encode_mutable_flag f h) ≡ record (fields h) { mutable_flag = f }
unfolding fields encode_mutable_flag decode_label decode_size decode_generation decode_mutable_flag
    is_childish
fields-encode_mutable_flag f h hf hh = ground arith

pub fields-set_childish_flag :
    (h : ℕ) → h < 2 ^ 32 → fields (set_childish_flag h) ≡ record (fields h) { childish = true }
unfolding fields set_childish_flag decode_label decode_size decode_generation decode_mutable_flag
    is_childish
fields-set_childish_flag h hh = ground arith

-- EncodeSize of a size up to MAX_BLOCKSIZE in a 32-bit header changes no other field; the size
-- that is read back is the one written without the shift flag, and sixteen times that with it.
pub fields-encode_size :
    (s h : ℕ)
    → s ≤ max_blocksize
    → h < 2 ^ 32
    → fields (encode_size s h)
      ≡ record (fields h) { size = if h / 2 ^ 2 % 2 == 1 then s * 16 else s }
unfolding fields encode_size decode_label decode_size decode_generation decode_mutable_flag
    is_childish
fields-encode_size s h hs hh = ground arith

-- `EncodeGen` on a block that has not moved leaves the other fields and the block unmoved.
pub fields-encode_gen :
    (gen h : ℕ)
    → gen < 3
    → h < 2 ^ 32
    → fields (encode_gen gen h) ≡ record (fields h) { generation = gen }
unfolding fields encode_gen decode_label decode_size decode_generation decode_mutable_flag
    is_childish
fields-encode_gen gen h hg hh = ground arith

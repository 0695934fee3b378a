-- ===== src/Store/MapKey.antt =====
-- The template parameter of store/BaseMap.hh and what it is instantiated with: `WordKey` of
-- store/Map.hh and `ChunkKey` of adt/ChunkMap.cc.
use Prim.Native.Nat.{bit_and, bit_xor}
use aliceml_seam.Base.{
  ℕ, ◌+◌, ◌-◌, ◌*◌, ◌/◌, ◌%◌, ◌^◌, ◌<◌, ◌≡◌, ◌↔◌, refl, ap, arith, List, [], ◌∷◌, Bool, true, false,
  ◌&&◌, ltb, ◌==◌, ==_iff, if◌then◌else◌, length,
}
use aliceml_seam.Store.Block.{Word}

-- `T::Hash` and `T::Equals`. Keys are compared by their values; a hash lies in the table.
pub record MapKey {ℓ} (K : Type ℓ) : Type ℓ where
  pub hash : K → ℕ → ℕ
  pub equals : K → K → Bool
  pub equals_iff : (a b : K) → (equals a b ≡ true) ↔ (a ≡ b)
  pub hash-lt : (k : K) (size : ℕ) → 0 < size → hash k size < size

pub mod-lt_size : (a n : ℕ) → 0 < n → a % n < n
mod-lt_size a n h = omega arith

-- `WordKey`: the pattern of the word, modulo the size.
abbrev word_hash : Word → ℕ → ℕ
word_hash key size = key % size

instance abbrev pub word_key : MapKey Word
word_key = record {
  hash = word_hash;
  equals = λ a b. a == b;
  equals_iff = ==_iff;
  hash-lt = mod-lt_size;
}

-- A `char` as the `unsigned` that it is promoted to.
abbrev char_word : ℕ → ℕ
char_word c = if ltb c 128 then c else 2 ^ 32 - 256 + c

-- One round of `HashString`, on 32 bits.
unfoldable pub hash_round : ℕ → ℕ → ℕ
hash_round h c =
    let h = (h * 2 ^ 4 + char_word c) % 2 ^ 32 in
    let g = bit_and h 0xf0000000 in if g == 0 then h else bit_xor (bit_xor h (g / 2 ^ 24)) g

unfoldable pub hash_bytes : ℕ → List ℕ → ℕ
unfolding hash_round
hash_bytes h [] = h
hash_bytes h (c ∷ cs) = hash_bytes (hash_round h c) cs

unfoldable pub hash_string : List ℕ → ℕ → ℕ
unfolding hash_bytes
hash_string s size = hash_bytes 0 s % size

-- `memcmp` on chunks of one size.
same_bytes : List ℕ → List ℕ → Bool
same_bytes [] _ = true
same_bytes (a ∷ xs) [] = true
same_bytes (a ∷ xs) (b ∷ ys) = a == b && same_bytes xs ys

unfoldable pub chunk_equals : List ℕ → List ℕ → Bool
unfolding same_bytes
chunk_equals a b = if length a == length b then same_bytes a b else false

same_bytes_iff : (a b : List ℕ) → length a ≡ length b → (same_bytes a b ≡ true) ↔ (a ≡ b)
unfolding same_bytes
same_bytes_iff [] [] e = (λ _. refl, λ _. refl)
same_bytes_iff [] (b ∷ ys) e = absurd (omega arith)
same_bytes_iff (a ∷ xs) [] e = absurd (omega arith)
same_bytes_iff (a ∷ xs) (b ∷ ys) e =
    let rest = same_bytes_iff xs ys (omega arith) in
    (λ h. ground (arith, rest.0), λ h. ground (arith, rest.1))

pub chunk_equals_iff : (a b : List ℕ) → (chunk_equals a b ≡ true) ↔ (a ≡ b)
unfolding chunk_equals
chunk_equals_iff a b = (
  λ h. ground (arith, (same_bytes_iff a b (ground arith)).0),
  λ h. ground (arith, ap length h, (same_bytes_iff a b (ap length h)).1 h),
)

pub hash_string-lt : (s : List ℕ) (size : ℕ) → 0 < size → hash_string s size < size
unfolding hash_string
hash_string-lt s size h = omega arith

-- `ChunkKey`: the bytes of a chunk.
instance abbrev pub chunk_key : MapKey (List ℕ)
chunk_key = record {
  hash = hash_string;
  equals = chunk_equals;
  equals_iff = chunk_equals_iff;
  hash-lt = hash_string-lt;
}

-- ===== src/Pickle/Gzip.antt =====
-- generic/Unpickler.cc: the namespace `gzip`, which finds the compressed data in a string.
pub mod Member
use aliceml_seam.Base.{
  ℕ, zero, suc, ◌+◌, ◌-◌, ◌*◌, ◌/◌, ◌%◌, ◌^◌, Bool, true, false, ltb, ◌==◌, ◌&&◌, if◌then◌else◌,
}

-- `false` is `rejected`; `endless` is more rounds than the fuel.
pub data Parsed (A : Type 0) : Type 0 where
  found : A → Parsed A
  rejected endless : Parsed A

infixl 5 ◌>>=◌
abbrev pub ◌>>=◌ : {A B : Type 0} → Parsed A → (A → Parsed B) → Parsed B
found a >>= f = f a
rejected >>= f = rejected
endless >>= f = endless

-- `-=` on an `unsigned long` of 64 bits.
unfoldable pub minus : ℕ → ℕ → ℕ
minus n k = (n + 2 ^ 64 - k) % 2 ^ 64

unfoldable pub number2 : (ℕ → ℕ) → ℕ → ℕ
number2 src i = src i + src (i + 1) * 256

unfoldable pub number4 : (ℕ → ℕ) → ℕ → ℕ
number4 src i = src i + src (i + 1) * 256 + src (i + 2) * 256 * 256 + src (i + 3) * 256 * 256

unfoldable pub is_set : ℕ → ℕ → Bool
is_set b flag = (b / 2 ^ flag) % 2 == 1

-- From the position `s`, with `n` for `srclen`.
unfoldable pub skip_cstr : ℕ → (ℕ → ℕ) → (s n : ℕ) → Parsed (ℕ × ℕ)
unfolding minus
skip_cstr zero src s n = endless
skip_cstr (suc fuel) src s n =
    let m = minus n 1 in
    let rest = skip_cstr fuel src (s + 1) m in
    if m == 0 then rejected else if src s == 0 then found (s + 1, m) else rest

unfoldable pub skip_extra : Bool → (ℕ → ℕ) → ℕ × ℕ → Parsed (ℕ × ℕ)
unfolding minus number2
skip_extra false src (s, n) = found (s, n)
skip_extra true src (s, n) =
    let xlen = number2 src s in
    let m = minus n (2 + xlen) in if m == 0 then rejected else found (s + (2 + xlen), m)

unfoldable pub skip_string : ℕ → Bool → (ℕ → ℕ) → ℕ × ℕ → Parsed (ℕ × ℕ)
unfolding skip_cstr
skip_string fuel false src (s, n) = found (s, n)
skip_string fuel true src (s, n) = skip_cstr fuel src s n

unfoldable pub skip_hcrc : Bool → ℕ × ℕ → Parsed (ℕ × ℕ)
unfolding minus
skip_hcrc false (s, n) = found (s, n)
skip_hcrc true (s, n) = let m = minus n 2 in if m == 0 then rejected else found (s + 2, m)

pub record MetaData : Type 0 where
  pub compressed_start : ℕ
  pub compressed_len : ℕ
  pub uncompressed_len : ℕ

-- The header has 10 bytes and the trailer 8. The numbers of the flags are those of `gzip::flags`.
unfoldable pub parse_meta_data : ℕ → (src : ℕ → ℕ) → (srclen : ℕ) → Parsed MetaData
unfolding minus is_set skip_extra skip_string skip_hcrc number4
parse_meta_data fuel src srclen =
    if ltb srclen 18
    then rejected
    else if (src 0 == 31) && (src 1 == 139)
    then if src 2 == 8
      then (do
        p ← skip_extra (is_set (src 3) 2) src (10, minus srclen 18)
        q ← skip_string fuel (is_set (src 3) 3) src p
        r ← skip_string fuel (is_set (src 3) 4) src q
        t ← skip_hcrc (is_set (src 3) 1) r
        found (record {
          compressed_start = t.0;
          compressed_len = t.1;
          uncompressed_len = number4 src (t.0 + t.1 + 4);
        }))
      else rejected
    else rejected

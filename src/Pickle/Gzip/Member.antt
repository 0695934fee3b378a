-- ===== src/Pickle/Gzip/Member.antt =====
-- generic/Unpickler.cc: `gzip::parse_meta_data` on the layout of a gzip member.
use aliceml_seam.Base.{
  ℕ, zero, suc, ◌+◌, ◌-◌, ◌*◌, ◌%◌, ◌^◌, ◌<◌, ◌≤◌, ◌≡◌, ◌≢◌, ◌∙◌, refl, sym, ap, ap₂, arith, Bool,
  true, false, ==_of_ne, le→ltb, ◌↔◌,
}
use aliceml_seam.Pickle.Gzip.{
  Parsed, found, minus, number2, number4, is_set, skip_cstr, skip_extra, skip_string, skip_hcrc,
  parse_meta_data,
}

-- The sizes of the optional parts: a part with its size in front, a string that ends with a zero,
-- and a checksum.
unfoldable pub Extra : Bool → (ℕ → ℕ) → (s size : ℕ) → Type 0
unfolding number2
Extra false src s size = size ≡ 0
Extra true src s size = size ≡ 2 + number2 src s

unfoldable pub Ended : Bool → (ℕ → ℕ) → (s size : ℕ) → Type 0
Ended false src s size = size ≡ 0
Ended true src s size =
    (k : ℕ) × (size ≡ k + 1) × (src (s + k) ≡ 0) × ((i : ℕ) → i < k → src (s + i) ≢ 0)

unfoldable pub Sum : Bool → ℕ → Type 0
Sum false size = size ≡ 0
Sum true size = size ≡ 2

minus_small : (n k : ℕ) → k ≤ n → n < 2 ^ 64 → minus n k ≡ n - k
unfolding minus
minus_small n k le lt = omega arith

found_same : (s t n m : ℕ) → s ≡ t → n ≡ m → ◌≡◌ {A = Parsed (ℕ × ℕ)} (found (s, n)) (found (t, m))
found_same s t n m e f = ap₂ (λ a b. found (a, b)) e f

nothing :
    (s n size : ℕ) → size ≡ 0 → ◌≡◌ {A = Parsed (ℕ × ℕ)} (found (s, n)) (found (s + size, n - size))
nothing s n size e = found_same s (s + size) n (n - size) (omega (arith, e)) (omega (arith, e))

skip_cstr_ends :
    (fuel : ℕ) (src : ℕ → ℕ) (s n k : ℕ)
    → src (s + k) ≡ 0
    → ((i : ℕ) → i < k → src (s + i) ≢ 0)
    → k + 1 < n
    → n < 2 ^ 64
    → k < fuel
    → skip_cstr fuel src s n ≡ found (s + (k + 1), n - (k + 1))
unfolding skip_cstr
skip_cstr_ends zero src s n k at before room small lt = absurd (omega arith)
skip_cstr_ends (suc fuel) src s n zero at before room small lt =
    let here = ap src {x = s} {y = s + 0} (omega arith) ∙ at in
    rw (minus_small n 1 (omega arith) small, ==_of_ne (n - 1) 0 (λ e. omega (arith, e)), here) refl
skip_cstr_ends (suc fuel) src s n (suc k) at before room small lt =
    let differs = before 0 (omega arith) in
    let here = ==_of_ne (src s) 0 (λ e. differs (ap src {x = s + 0} {y = s} (omega arith) ∙ e)) in
    let rest =
      skip_cstr_ends fuel src (s + 1) (n - 1) k
        (ap src {x = s + 1 + k} {y = s + suc k} (omega arith) ∙ at)
        (λ i less e.
          before (suc i) (omega arith) (ap src {x = s + suc i} {y = s + 1 + i} (omega arith) ∙ e))
        (omega arith) (omega arith) (omega arith) in
    rw (minus_small n 1 (omega arith) small, ==_of_ne (n - 1) 0 (λ e. omega (arith, e)), here)
      (rest
        ∙ found_same (s + 1 + (k + 1)) (s + (suc k + 1)) (n - 1 - (k + 1)) (n - (suc k + 1))
            (omega arith) (omega arith))

skip_extra_ends :
    (set : Bool) (src : ℕ → ℕ) (s n size : ℕ)
    → Extra set src s size
    → size < n
    → n < 2 ^ 64
    → skip_extra set src (s, n) ≡ found (s + size, n - size)
unfolding skip_extra Extra
skip_extra_ends false src s n size e room small = nothing s n size e
skip_extra_ends true src s n size e room small =
    rw (← e, minus_small n size (omega arith) small, ==_of_ne (n - size) 0 (λ x. omega (arith, x)))
      refl

skip_string_ends :
    (fuel : ℕ) (set : Bool) (src : ℕ → ℕ) (s n size : ℕ)
    → Ended set src s size
    → size < n
    → n < 2 ^ 64
    → size ≤ fuel
    → skip_string fuel set src (s, n) ≡ found (s + size, n - size)
unfolding skip_string Ended
skip_string_ends fuel false src s n size e room small enough = nothing s n size e
skip_string_ends fuel true src s n size (k, e, at, before) room small enough =
    skip_cstr_ends fuel src s n k at before (omega arith) small (omega arith)
    ∙ ap (λ d. found (s + d, n - d)) (sym e)

skip_hcrc_ends :
    (set : Bool) (s n size : ℕ)
    → Sum set size
    → size < n
    → n < 2 ^ 64
    → skip_hcrc set (s, n) ≡ found (s + size, n - size)
unfolding skip_hcrc Sum
skip_hcrc_ends false s n size e room small = nothing s n size e
skip_hcrc_ends true s n size e room small =
    rw (e, minus_small n 2 (omega arith) small, ==_of_ne (n - 2) 0 (λ x. omega (arith, x))) refl

-- If a string begins with the numbers of a gzip member and of the deflate method, and has 10
-- bytes, the optional parts that its flags tell, at least one byte of data and 8 more bytes, less
-- than 2 ^ 64 in all, and the fuel is at least its size: parse_meta_data finds the start of the
-- data behind the optional parts, its length, and what number4 makes of the last four bytes.
pub parse_meta_data-member :
    (fuel : ℕ) (src : ℕ → ℕ) (a b c d n : ℕ)
    → src 0 ≡ 31
    → src 1 ≡ 139
    → src 2 ≡ 8
    → Extra (is_set (src 3) 2) src 10 a
    → Ended (is_set (src 3) 3) src (10 + a) b
    → Ended (is_set (src 3) 4) src (10 + a + b) c
    → Sum (is_set (src 3) 1) d
    → 0 < n
    → 18 + a + b + c + d + n < 2 ^ 64
    → 18 + a + b + c + d + n ≤ fuel
    → parse_meta_data fuel src (18 + a + b + c + d + n)
      ≡ found (record {
        compressed_start = 10 + a + b + c + d;
        compressed_len = n;
        uncompressed_len = number4 src (10 + a + b + c + d + n + 4);
      })
unfolding parse_meta_data
parse_meta_data-member fuel src a b c d n id1 id2 cm extra name comment sum room small enough =
    let size = 18 + a + b + c + d + n in
    rw
      (
        le→ltb size 18 (omega arith),
        id1,
        id2,
        cm,
        minus_small size 18 (omega arith) small,
        skip_extra_ends (is_set (src 3) 2) src 10 (size - 18) a extra (omega arith) (omega arith),
        skip_string_ends fuel (is_set (src 3) 3) src (10 + a) (size - 18 - a) b name (omega arith)
            (omega arith) (omega arith),
        skip_string_ends fuel (is_set (src 3) 4) src (10 + a + b) (size - 18 - a - b) c comment
            (omega arith) (omega arith) (omega arith),
        skip_hcrc_ends (is_set (src 3) 1) (10 + a + b + c) (size - 18 - a - b - c) d sum
            (omega arith) (omega arith),
      )
      (ap
        (λ m. found (record {
          compressed_start = 10 + a + b + c + d;
          compressed_len = m;
          uncompressed_len = number4 src (10 + a + b + c + d + m + 4);
        }))
        {x = size - 18 - a - b - c - d} {y = n} (omega arith))

-- number4 of four bytes is the number that they stand for, the least first, exactly if the last of
-- them is 0.
pub number4_little :
    (src : ℕ → ℕ) (i : ℕ)
    → (number4 src i ≡ src i + src (i + 1) * 2 ^ 8 + src (i + 2) * 2 ^ 16 + src (i + 3) * 2 ^ 24)
      ↔ (src (i + 3) ≡ 0)
unfolding number4
number4_little src i = ground arith

-- If the optional part of a gzip member that tells its size is larger than what is left of the
-- string, parse_meta_data goes on behind this part, with a rest of the string that is larger than
-- before.
pub skip_extra_overruns :
    (src : ℕ → ℕ) (s n : ℕ)
    → n < 2 + number2 src s
    → 2 + number2 src s < 2 ^ 64
    → (m : ℕ) × (skip_extra true src (s, n) ≡ found (s + (2 + number2 src s), m)) × (n < m)
unfolding skip_extra minus
skip_extra_overruns src s n more small =
    let large : (n + 2 ^ 64 - (2 + number2 src s)) % 2 ^ 64 ≡ n + 2 ^ 64 - (2 + number2 src s) =
      omega arith in
    (
      n + 2 ^ 64 - (2 + number2 src s),
      rw (large, ==_of_ne (n + 2 ^ 64 - (2 + number2 src s)) 0 (λ x. omega (arith, x))) refl,
      omega arith,
    )

-- ===== src/Pickle/Numbers.antt =====
-- generic/Pickler.cc and generic/Unpickler.cc: what `GetUInt` reads of what `PutUInt` wrote.
use aliceml_seam.Base.{
  ℕ, zero, suc, ◌+◌, ◌-◌, ◌*◌, ◌/◌, ◌%◌, ◌^◌, ◌≤◌, ◌<◌, ◌≡◌, ◌∙◌, refl, ap, arith, List, [], ◌∷◌,
  some, false, leb, length, Bool-cases, Option-cases, inl, inr,
}
use native.Mathlib.Nat.{pow-suc}
use aliceml_seam.Pickle.{
  put_bytes, put_uint, InputStream, get_byte, get_loop, get_uint, number, end_of_buffer,
}

-- The bytes stand in the buffer from a position on.
unfoldable pub Holds : (ℕ → ℕ) → ℕ → List ℕ → Type 0
Holds buffer i [] = Unit
Holds buffer i (b ∷ bs) = (buffer i ≡ b) × Holds buffer (i + 1) bs

split_group : (q r p : ℕ) → (q * 128 + r) * p ≡ r * p + q * (p * 128)
split_group q r p = omega arith

pow_seven : (k : ℕ) → 2 ^ (k + 7) ≡ 2 ^ k * 128
pow_seven zero = refl
pow_seven (suc k) = grind (arith, pow-suc 2 k, pow-suc 2 (k + 7), pow_seven k)

-- What is left of a number fits what is left of its bits.
next_fits :
    (n shift i : ℕ) (bs : List ℕ)
    → put_bytes n (i / 2 ^ 7) ≡ some bs
    → shift + 7 * suc n ≡ 35
    → i < 2 ^ (31 - shift)
    → i / 2 ^ 7 < 2 ^ (31 - (shift + 7))
unfolding put_bytes
next_fits zero shift i bs e sh lt = absurd (cc)
next_fits (suc n) shift i bs e sh lt =
    let left : 31 - shift ≡ 31 - (shift + 7) + 7 = omega arith in
    let power : 2 ^ (31 - shift) ≡ 2 ^ (31 - (shift + 7)) * 128 =
      ap (λ k. 2 ^ k) left ∙ pow_seven (31 - (shift + 7)) in
    omega (arith, power)

put_bytes_total :
    (n i : ℕ)
    → i < 128 * 128 ^ n
    → (bs : List ℕ) × (put_bytes (suc n) i ≡ some bs) × (length bs ≤ suc n)
unfolding put_bytes
put_bytes_total zero i lt = ((i % 2 ^ 8) ∷ [], ground arith, omega arith)
put_bytes_total (suc n) i lt =
    let power : 128 ^ suc n ≡ 128 ^ n * 128 = pow-suc 128 n in
    let (bs, ok, len) = put_bytes_total n (i / 2 ^ 7) (omega (arith, power)) in
    elim (Bool-cases (leb 0x80 i)) [
      | inl more ↦ ((i % 2 ^ 7 + 0x80) ∷ bs, ground arith, omega arith)
      | inr small ↦ ((i % 2 ^ 8) ∷ [], ground arith, omega arith)
    ]

-- The loop of PutUInt ends on every number of 32 bits, with at most five bytes.
pub put_uint_total : (i : ℕ) → i < 2 ^ 32 → (bs : List ℕ) × (put_uint i ≡ some bs) × (length bs ≤ 5)
unfolding put_uint
put_uint_total i lt = put_bytes_total 4 i (omega arith)

module _ (buffer : ℕ → ℕ) (hd tl : ℕ) where
  abbrev at : ℕ → InputStream
  at i = record { buffer = buffer; hd = hd; rd = i; tl = tl; eob = false }

  get_loop-put_bytes :
      (n shift value i rd : ℕ) (bs : List ℕ)
      → put_bytes n i ≡ some bs
      → i < 2 ^ (31 - shift)
      → shift + 7 * n ≡ 35
      → Holds buffer rd bs
      → rd + length bs ≤ tl
      → get_loop n shift value (at rd) ≡ (number (value + i * 2 ^ shift), at (rd + length bs))
  unfolding put_bytes get_loop get_byte Holds
  get_loop-put_bytes zero shift value i rd bs e lt sh h room = absurd (cc)
  get_loop-put_bytes (suc n) shift value i rd [] e lt sh h room = ground arith
  get_loop-put_bytes (suc n) shift value i rd (b ∷ bs) e lt sh h room =
      elim (Bool-cases (leb 0x80 i)) [
        | inr small ↦ ground (arith)
        | inl more ↦ elim (Option-cases (put_bytes n (i / 2 ^ 7))) [
          | inl bad ↦ ground arith
          | inr (rest, ok) ↦ ground (
            arith,
            next_fits n shift i rest ok sh lt,
            get_loop-put_bytes n (shift + 7) (value + i % 2 ^ 7 * 2 ^ shift) (i / 2 ^ 7) (rd + 1)
                rest ok,
            split_group (i / 2 ^ 7) (i % 2 ^ 7) (2 ^ shift),
            pow_seven shift,
          )
        ]
      ]

-- If the bytes that PutUInt writes for a number below 2 ^ 31 stand in the buffer from the read
-- position on and before its end, GetUInt returns the number and leaves the read position behind
-- the bytes.
pub get_uint-put_uint :
    (buffer : ℕ → ℕ) (hd rd tl i : ℕ) (bs : List ℕ)
    → i < 2 ^ 31
    → put_uint i ≡ some bs
    → Holds buffer rd bs
    → rd + length bs ≤ tl
    → get_uint (record { buffer = buffer; hd = hd; rd = rd; tl = tl; eob = false })
      ≡ (number i, record { buffer = buffer; hd = hd; rd = rd + length bs; tl = tl; eob = false })
unfolding put_uint get_uint
get_uint-put_uint buffer hd rd tl i bs lt e h room =
    get_loop-put_bytes buffer hd tl 5 0 0 i rd bs e lt refl h room
    ∙ ap (λ v. (number v, at buffer hd tl (rd + length bs))) (omega arith)

module _ (buffer : ℕ → ℕ) (hd tl : ℕ) where
  get_loop-cut :
      (n shift value i rd : ℕ) (bs : List ℕ)
      → put_bytes n i ≡ some bs
      → i < 2 ^ (31 - shift)
      → shift + 7 * n ≡ 35
      → Holds buffer rd bs
      → rd ≤ tl
      → tl < rd + length bs
      → (get_loop n shift value (at buffer hd tl rd)).0 ≡ end_of_buffer
  unfolding put_bytes get_loop get_byte Holds
  get_loop-cut zero shift value i rd bs e lt sh h start cut = absurd (cc)
  get_loop-cut (suc n) shift value i rd [] e lt sh h start cut = ground arith
  get_loop-cut (suc n) shift value i rd (b ∷ bs) e lt sh h start cut =
      elim (Bool-cases (leb 0x80 i)) [
        | inr small ↦ ground (arith)
        | inl more ↦ elim (Option-cases (put_bytes n (i / 2 ^ 7))) [
          | inl bad ↦ ground arith
          | inr (rest, ok) ↦ ground (
            arith,
            next_fits n shift i rest ok sh lt,
            get_loop-cut n (shift + 7) (value + i % 2 ^ 7 * 2 ^ shift) (i / 2 ^ 7) (rd + 1) rest ok,
          )
        ]
      ]

-- If the buffer ends within the bytes that PutUInt writes for a number below 2 ^ 31, GetUInt
-- reports the end of the buffer.
pub get_uint_cut :
    (buffer : ℕ → ℕ) (hd rd tl i : ℕ) (bs : List ℕ)
    → i < 2 ^ 31
    → put_uint i ≡ some bs
    → Holds buffer rd bs
    → rd ≤ tl
    → tl < rd + length bs
    → (get_uint (record { buffer = buffer; hd = hd; rd = rd; tl = tl; eob = false })).0
      ≡ end_of_buffer
unfolding put_uint get_uint
get_uint_cut buffer hd rd tl i bs lt e h start cut =
    get_loop-cut buffer hd tl 5 0 0 i rd bs e lt refl h start cut

-- ===== src/Pickle/Save/Permuted.antt =====
-- generic/Pickler.cc: vectors of locals with the same entries in another order, and `Swap`.
use aliceml_seam.Base.{
  ℕ, ◌+◌, ◌*◌, ◌<◌, ◌≤◌, ◌≡◌, ◌≢◌, ◌∙◌, refl, ap, arith, ltb, ◌==◌, ==_of_ne, ==_refl, ==→≡, ==_ne,
  ltb→lt, ltb→le, if◌then◌else◌, Bool-cases, inl, inr,
}
use aliceml_seam.Pickle.Save.{swap, ref_of}

-- The entries of `c` are those of `b`, with another order from `l` on and before `r`.
pub record Permuted (l r : ℕ) (b c : ℕ → ℕ) : Type 0 where
  pub to : ℕ → ℕ
  pub from : ℕ → ℕ
  pub from_to : (k : ℕ) → from (to k) ≡ k
  pub to_from : (k : ℕ) → to (from k) ≡ k
  pub within : (k : ℕ) → l ≤ k → k < r → (l ≤ to k) × (to k < r)
  pub below : (k : ℕ) → k < l → to k ≡ k
  pub beyond : (k : ℕ) → r ≤ k → to k ≡ k
  pub refs : (k : ℕ) → ref_of c k ≡ ref_of b (to k)
  pub numbers : (k : ℕ) → c (k * 2 + 1) ≡ b (to k * 2 + 1)

pub Permuted-refl : (l r : ℕ) (b : ℕ → ℕ) → Permuted l r b b
Permuted-refl l r b = record {
  to = λ k. k;
  from = λ k. k;
  from_to = λ k. refl;
  to_from = λ k. refl;
  within = λ k le lt. (le, lt);
  below = λ k lt. refl;
  beyond = λ k le. refl;
  refs = λ k. refl;
  numbers = λ k. refl;
}

pub Permuted-trans :
    (l r : ℕ) (b c d : ℕ → ℕ) → Permuted l r b c → Permuted l r c d → Permuted l r b d
Permuted-trans l r b c d p q = record {
  to = λ k. p.to (q.to k);
  from = λ k. q.from (p.from k);
  from_to = λ k. ap q.from (p.from_to (q.to k)) ∙ q.from_to k;
  to_from = λ k. ap p.to (q.to_from (p.from k)) ∙ p.to_from k;
  within = λ k le lt. (let (x, y) = q.within k le lt in p.within (q.to k) x y);
  below = λ k lt. ap p.to (q.below k lt) ∙ p.below k lt;
  beyond = λ k le. ap p.to (q.beyond k le) ∙ p.beyond k le;
  refs = λ k. q.refs k ∙ p.refs (q.to k);
  numbers = λ k. q.numbers k ∙ p.numbers (q.to k);
}

-- An order of a part is one of the whole.
pub Permuted-wider :
    (l r i j : ℕ) (b c : ℕ → ℕ) → l ≤ i → j ≤ r → Permuted i j b c → Permuted l r b c
Permuted-wider l r i j b c left right p = record {
  to = p.to;
  from = p.from;
  from_to = p.from_to;
  to_from = p.to_from;
  within = λ k le lt. elim (Bool-cases (ltb k i)) [
    | inl before ↦
        let same = p.below k (ltb→lt k i before) in (omega (arith, same), omega (arith, same))
    | inr other ↦ elim (Bool-cases (ltb k j)) [
      | inl inside ↦
          let (x, y) = p.within k (ltb→le k i other) (ltb→lt k j inside) in
          (omega arith, omega arith)
      | inr behind ↦
          let same = p.beyond k (ltb→le k j behind) in (omega (arith, same), omega (arith, same))
    ]
  ];
  below = λ k lt. p.below k (omega arith);
  beyond = λ k le. p.beyond k (omega arith);
  refs = p.refs;
  numbers = p.numbers;
}

abbrev pub other : ℕ → ℕ → ℕ → ℕ
other i j k = if k == i then j else if k == j then i else k

other-other : (i j k : ℕ) → other i j (other i j k) ≡ k
other-other i j k = ground arith

other_within :
    (l r i j k : ℕ)
    → l ≤ i
    → i < r
    → l ≤ j
    → j < r
    → l ≤ k
    → k < r
    → (l ≤ other i j k) × (other i j k < r)
other_within l r i j k a b c d e f = ground arith

other_not : (i j k : ℕ) → k ≢ i → k ≢ j → other i j k ≡ k
other_not i j k ne ne' = ground arith

pub swap_ref : (b : ℕ → ℕ) (i j k : ℕ) → ref_of (swap b i j) k ≡ ref_of b (other i j k)
unfolding swap
swap_ref b i j k = elim (Bool-cases (k == i)) [
  | inl first ↦ let same = ==→≡ k i first in rw (same, ==_refl i, ==_refl (i * 2)) refl
  | inr ne ↦ elim (Bool-cases (k == j)) [
    | inl second ↦
        let same = ==→≡ k j second in
        let differ = ==_ne k i ne in
        rw
          (
            ne,
            second,
            ==_of_ne (k * 2) (i * 2) (λ e. differ (omega (arith, e))),
            ==_of_ne (k * 2) (i * 2 + 1) (λ e. omega (arith, e)),
            same,
            ==_refl (j * 2),
          )
          refl
    | inr ne' ↦
        let differ = ==_ne k i ne in
        let differ' = ==_ne k j ne' in
        rw
          (
            ne,
            ne',
            ==_of_ne (k * 2) (i * 2) (λ e. differ (omega (arith, e))),
            ==_of_ne (k * 2) (i * 2 + 1) (λ e. omega (arith, e)),
            ==_of_ne (k * 2) (j * 2) (λ e. differ' (omega (arith, e))),
            ==_of_ne (k * 2) (j * 2 + 1) (λ e. omega (arith, e)),
          )
          refl
  ]
]

swap_number : (b : ℕ → ℕ) (i j k : ℕ) → swap b i j (k * 2 + 1) ≡ b (other i j k * 2 + 1)
unfolding swap
swap_number b i j k = elim (Bool-cases (k == i)) [
  | inl first ↦
      let same = ==→≡ k i first in
      rw
        (same, ==_refl i, ==_of_ne (i * 2 + 1) (i * 2) (λ e. omega (arith, e)), ==_refl (i * 2 + 1))
        refl
  | inr ne ↦
      let differ = ==_ne k i ne in
      elim (Bool-cases (k == j)) [
        | inl second ↦
            let same = ==→≡ k j second in
            rw
              (
                ne,
                second,
                ==_of_ne (k * 2 + 1) (i * 2) (λ e. omega (arith, e)),
                ==_of_ne (k * 2 + 1) (i * 2 + 1) (λ e. differ (omega (arith, e))),
                ==_of_ne (k * 2 + 1) (j * 2) (λ e. omega (arith, e)),
                same,
                ==_refl (j * 2 + 1),
              )
              refl
        | inr ne' ↦
            let differ' = ==_ne k j ne' in
            rw
              (
                ne,
                ne',
                ==_of_ne (k * 2 + 1) (i * 2) (λ e. omega (arith, e)),
                ==_of_ne (k * 2 + 1) (i * 2 + 1) (λ e. differ (omega (arith, e))),
                ==_of_ne (k * 2 + 1) (j * 2) (λ e. omega (arith, e)),
                ==_of_ne (k * 2 + 1) (j * 2 + 1) (λ e. differ' (omega (arith, e))),
              )
              refl
      ]
]

pub swap-Permuted :
    (b : ℕ → ℕ) (l r i j : ℕ) → l ≤ i → i < r → l ≤ j → j < r → Permuted l r b (swap b i j)
swap-Permuted b l r i j a c d e = record {
  to = other i j;
  from = other i j;
  from_to = other-other i j;
  to_from = other-other i j;
  within = λ k le lt. other_within l r i j k a c d e le lt;
  below = λ k lt. other_not i j k (λ x. omega (arith, x)) (λ x. omega (arith, x));
  beyond = λ k le. other_not i j k (λ x. omega (arith, x)) (λ x. omega (arith, x));
  refs = swap_ref b i j;
  numbers = swap_number b i j;
}

other_first : (i j : ℕ) → other i j i ≡ j
other_first i j = ground arith

other_second : (i j : ℕ) → other i j j ≡ i
other_second i j = ground arith

-- The positions after a swap.
pub swap_first : (b : ℕ → ℕ) (i j : ℕ) → ref_of (swap b i j) i ≡ ref_of b j
swap_first b i j = swap_ref b i j i ∙ ap (ref_of b) (other_first i j)

pub swap_second : (b : ℕ → ℕ) (i j : ℕ) → ref_of (swap b i j) j ≡ ref_of b i
swap_second b i j = swap_ref b i j j ∙ ap (ref_of b) (other_second i j)

pub swap_elsewhere : (b : ℕ → ℕ) (i j k : ℕ) → k ≢ i → k ≢ j → ref_of (swap b i j) k ≡ ref_of b k
swap_elsewhere b i j k ne ne' = swap_ref b i j k ∙ ap (ref_of b) (other_not i j k ne ne')

-- ===== src/Pickle/Save/Partition.antt =====
-- generic/Pickler.cc: `Partition` of the vector of the locals.
use aliceml_seam.Base.{
  ℕ, zero, suc, ◌+◌, ◌-◌, ◌<◌, ◌≤◌, ◌≡◌, ◌≢◌, ◌∙◌, refl, sym, ap, subst, arith, some, ltb, leb,
  ◌==◌, ==→≡, ==_ne, ltb→lt, ltb→le, leb→lt, leb→le, Bool-cases, inl, inr,
}
use aliceml_seam.Pickle.Save.{ref_of, swap, scan_up, scan_down, partition_loop, partition}
use aliceml_seam.Pickle.Save.Permuted.{
  Permuted, Permuted-trans, swap-Permuted, swap_first, swap_second, swap_elsewhere,
}

next_le : (i k : ℕ) → i ≤ k → k ≢ i → i + 1 ≤ k
next_le i k le ne = ground arith

last_le : (k j : ℕ) → k ≤ j → k ≢ j → k ≤ j - 1
last_le k j le ne = ground arith

before_end : (b : ℕ → ℕ) (v i r : ℕ) → i ≤ r → v ≤ ref_of b r → ref_of b i < v → i + 1 ≤ r
before_end b v i r le at less = elim (Bool-cases (r == i)) [
  | inl same ↦ absurd (let e = ap (ref_of b) (==→≡ r i same) in omega (arith, e))
  | inr ne ↦ next_le i r le (==_ne r i ne)
]

-- The scans end at the first entry that is not smaller, and at the last that is not larger or at
-- the left end.
scan_up_ends :
    (fuel : ℕ) (b : ℕ → ℕ) (v i r : ℕ)
    → i ≤ r
    → v ≤ ref_of b r
    → r - i < fuel
    → (m : ℕ) × (scan_up fuel b v i ≡ some m)
      × (i ≤ m)
      × (m ≤ r)
      × (v ≤ ref_of b m)
      × ((k : ℕ) → i ≤ k → k < m → ref_of b k < v)
unfolding scan_up
scan_up_ends zero b v i r le at lt = absurd (omega arith)
scan_up_ends (suc fuel) b v i r le at lt = elim (Bool-cases (ltb (ref_of b i) v)) [
  | inl small ↦
      let less = ltb→lt (ref_of b i) v small in
      let before = before_end b v i r le at less in
      let (m, e, x, y, z, all) = scan_up_ends fuel b v (i + 1) r before at (omega arith) in
      (
        m,
        rw (small, scan_up) e,
        omega arith,
        y,
        z,
        λ k low high. elim (Bool-cases (k == i)) [
          | inl same ↦ subst (λ n. ref_of b n < v) (sym (==→≡ k i same)) less
          | inr ne ↦ all k (let differ = ==_ne k i ne in next_le i k low differ) high
        ],
      )
  | inr large ↦ (
    i,
    rw (large, scan_up) refl,
    omega arith,
    le,
    ltb→le (ref_of b i) v large,
    λ k low high. absurd (omega arith),
  )
]

scan_down_ends :
    (fuel : ℕ) (b : ℕ → ℕ) (v l j : ℕ)
    → l ≤ j
    → j - l < fuel
    → (n : ℕ) × (scan_down fuel b v l j ≡ some n)
      × (l ≤ n)
      × (n ≤ j)
      × ((l < n) → ref_of b n ≤ v)
      × ((k : ℕ) → n < k → k ≤ j → v < ref_of b k)
unfolding scan_down
scan_down_ends zero b v l j le lt = absurd (omega arith)
scan_down_ends (suc fuel) b v l j le lt = elim (Bool-cases (ltb v (ref_of b j))) [
  | inl large ↦
      let more = ltb→lt v (ref_of b j) large in
      elim (Bool-cases (j == l)) [
        | inl same ↦ (
          j,
          rw (large, same, scan_down) refl,
          le,
          omega arith,
          λ high. absurd (let e = ==→≡ j l same in omega (arith, e)),
          λ k low high. absurd (omega arith),
        )
        | inr ne ↦
            let after = next_le l j le (==_ne j l ne) in
            let (n, e, x, y, z, all) =
              scan_down_ends fuel b v l (j - 1) (omega arith) (omega arith) in
            (
              n,
              rw (large, ne, scan_down) e,
              x,
              omega arith,
              z,
              λ k low high. elim (Bool-cases (k == j)) [
                | inl same ↦ subst (λ i. v < ref_of b i) (sym (==→≡ k j same)) more
                | inr other ↦ all k low (let differ = ==_ne k j other in last_le k j high differ)
              ],
            )
      ]
  | inr small ↦ (
    j,
    rw (small, scan_down) refl,
    le,
    omega arith,
    λ high. ltb→le v (ref_of b j) small,
    λ k low high. absurd (omega arith),
  )
]

-- The entries on the two sides of one.
pub record Parted (l r m : ℕ) (b c : ℕ → ℕ) : Type 0 where
  pub order : Permuted l (r + 1) b c
  pub low : l ≤ m
  pub high : m ≤ r
  pub smaller : (k : ℕ) → l ≤ k → k < m → ref_of c k ≤ ref_of c m
  pub larger : (k : ℕ) → m < k → k ≤ r → ref_of c m ≤ ref_of c k

-- Entries before `i` are not larger than the one at `r`, and those from `j` on not smaller.
record Between (b : ℕ → ℕ) (v l r i j : ℕ) : Type 0 where
  at : v ≡ ref_of b r
  small : (k : ℕ) → l ≤ k → k < i → ref_of b k ≤ v
  large : (k : ℕ) → j ≤ k → k ≤ r → v ≤ ref_of b k
  from_left : l ≤ i
  ordered : i ≤ j
  from_right : j ≤ r
  room : l < j

loop_end :
    (b : ℕ → ℕ) (v l r i j m n : ℕ)
    → Between b v l r i j
    → i ≤ m
    → m ≤ r
    → v ≤ ref_of b m
    → ((k : ℕ) → i ≤ k → k < m → ref_of b k < v)
    → ((k : ℕ) → n < k → k ≤ j - 1 → v < ref_of b k)
    → n ≤ m
    → Parted l r m b (swap b m r)
loop_end b v l r i j m n s low high at_m below beyond met = record {
  order =
      swap-Permuted b l (r + 1) m r (omega (arith, s.from_left)) (omega arith)
        (omega (arith, s.from_left)) (omega arith);
  low = omega (arith, s.from_left);
  high = high;
  smaller = λ k left right.
      let here = swap_elsewhere b m r k (λ e. omega (arith, e)) (λ e. omega (arith, e)) in
      let there = swap_first b m r in
      elim (Bool-cases (ltb k i)) [
        | inl before ↦ (let le = s.small k left (ltb→lt k i before) in omega (arith, s.at))
        | inr behind ↦ (let lt = below k (ltb→le k i behind) right in omega (arith, s.at))
      ];
  larger = λ k left right.
      let there = swap_first b m r in
      elim (Bool-cases (k == r)) [
        | inl last ↦
            let e = ap (ref_of (swap b m r)) (==→≡ k r last) ∙ swap_second b m r in
            omega (arith, s.at)
        | inr ne ↦
            let here = swap_elsewhere b m r k (λ e. omega (arith, e)) (==_ne k r ne) in
            elim (Bool-cases (ltb k j)) [
              | inl before ↦
                  let lt = ltb→lt k j before in
                  let more = beyond k (omega arith) (omega arith) in omega (arith, s.at)
              | inr behind ↦ (let le = s.large k (ltb→le k j behind) right in omega (arith, s.at))
            ]
      ];
}

loop_next :
    (b : ℕ → ℕ) (v l r i j m n : ℕ)
    → Between b v l r i j
    → i ≤ m
    → v ≤ ref_of b m
    → ((k : ℕ) → i ≤ k → k < m → ref_of b k < v)
    → n ≤ j - 1
    → ref_of b n ≤ v
    → ((k : ℕ) → n < k → k ≤ j - 1 → v < ref_of b k)
    → m < n
    → Between (swap b m n) v l r (m + 1) n
loop_next b v l r i j m n s low at_m below high at_n beyond apart = record {
  at =
      s.at
      ∙ sym (
          swap_elsewhere b m n r (λ e. omega (arith, e, s.from_right, s.room))
            (λ e. omega (arith, e, s.from_right, s.room)));
  small = λ k left right. elim (Bool-cases (k == m)) [
    | inl same ↦ let e = ap (ref_of (swap b m n)) (==→≡ k m same) ∙ swap_first b m n in omega arith
    | inr ne ↦
        let here = swap_elsewhere b m n k (==_ne k m ne) (λ e. omega (arith, e)) in
        let before = next_le k m (omega arith) (λ e. ==_ne k m ne (sym e)) in
        elim (Bool-cases (ltb k i)) [
          | inl first ↦ (let le = s.small k left (ltb→lt k i first) in omega arith)
          | inr later ↦ (let lt = below k (ltb→le k i later) (omega arith) in omega arith)
        ]
  ];
  large = λ k left right. elim (Bool-cases (k == n)) [
    | inl same ↦ let e = ap (ref_of (swap b m n)) (==→≡ k n same) ∙ swap_second b m n in omega arith
    | inr ne ↦
        let here = swap_elsewhere b m n k (λ e. omega (arith, e)) (==_ne k n ne) in
        let after = next_le n k left (==_ne k n ne) in
        elim (Bool-cases (ltb k j)) [
          | inl before ↦
              let lt = ltb→lt k j before in
              let more = beyond k (omega arith) (omega arith) in omega arith
          | inr behind ↦ (let le = s.large k (ltb→le k j behind) right in omega arith)
        ]
  ];
  from_left = omega (arith, s.from_left);
  ordered = omega arith;
  from_right = omega (arith, s.from_right);
  room = omega (arith, s.from_left);
}

Parted-after :
    (l r m : ℕ) (b c d : ℕ → ℕ) → Permuted l (r + 1) b c → Parted l r m c d → Parted l r m b d
Parted-after l r m b c d p q = record {
  order = Permuted-trans l (r + 1) b c d p q.order;
  low = q.low;
  high = q.high;
  smaller = q.smaller;
  larger = q.larger;
}

partition_loop_parts :
    (fuel : ℕ) (b : ℕ → ℕ) (v l r i j : ℕ)
    → Between b v l r i j
    → j < fuel
    → (m : ℕ) × (c : ℕ → ℕ) × (partition_loop fuel b v l r i j ≡ some (m, c)) × Parted l r m b c
unfolding partition_loop
partition_loop_parts zero b v l r i j s lt = absurd (omega arith)
partition_loop_parts (suc fuel) b v l r i j s lt =
    let (m, e, low, high, at_m, below) =
      scan_up_ends (suc (r - i)) b v i r (omega (arith, s.ordered, s.from_right))
        (omega (arith, s.at)) (omega arith) in
    let (n, f, left, right, at_n, beyond) =
      scan_down_ends (suc j) b v l (j - 1) (omega (arith, s.room)) (omega arith) in
    elim (Bool-cases (leb n m)) [
      | inl met ↦ (
        m,
        swap b m r,
        rw (e, f, met, partition_loop) refl,
        loop_end b v l r i j m n s low high at_m below beyond (leb→le n m met),
      )
      | inr apart ↦
          let lt' = leb→lt n m apart in
          let next =
            loop_next b v l r i j m n s low at_m below right (at_n (omega (arith, s.from_left)))
              beyond lt' in
          let (k, c, g, p) =
            partition_loop_parts fuel (swap b m n) v l r (m + 1) n next (omega (arith, s.room)) in
          (
            k,
            c,
            rw (e, f, apart, partition_loop) g,
            Parted-after l r k b (swap b m n) c
                (swap-Permuted b l (r + 1) m n (omega (arith, s.from_left))
                  (omega (arith, s.from_right, s.room)) left (omega (arith, s.from_right, s.room)))
                p,
          )
    ]

pub partition_parts :
    (b : ℕ → ℕ) (l r : ℕ)
    → l < r
    → (m : ℕ) × (c : ℕ → ℕ) × (partition b l r ≡ some (m, c)) × Parted l r m b c
unfolding partition
partition_parts b l r lt =
    partition_loop_parts (suc r) b (ref_of b r) l r l r
      (record {
        at = refl;
        small = λ k left right. absurd (omega arith);
        large = λ k left right.
            subst (λ n. ref_of b r ≤ ref_of b n) {x = r} {y = k} (omega arith) (omega arith);
        from_left = omega arith;
        ordered = omega arith;
        from_right = omega arith;
        room = lt;
      })
      (omega arith)

-- ===== src/Pickle/Save/Sorted.antt =====
-- generic/Pickler.cc: `Sort` of the vector of the locals.
use aliceml_seam.Base.{
  ℕ, zero, suc, ◌+◌, ◌-◌, ◌<◌, ◌≤◌, ◌≡◌, ◌∙◌, refl, ap, subst, arith, some, ltb, leb, ltb→lt,
  ltb→le, leb→lt, leb→le, Bool-cases, inl, inr,
}
use aliceml_seam.Pickle.Output.{OutputBuffer}
use aliceml_seam.Pickle.Save.{ref_of, sort, get_locals}
use aliceml_seam.Pickle.Save.Permuted.{Permuted, Permuted-refl, Permuted-trans, Permuted-wider}
use aliceml_seam.Pickle.Save.Partition.{Parted, partition_parts}

-- From `l` on and before `r`, the positions do not fall.
unfoldable pub Sorted : ℕ → ℕ → (ℕ → ℕ) → Type 0
Sorted l r b = (i j : ℕ) → l ≤ i → i ≤ j → j < r → ref_of b i ≤ ref_of b j

-- The entry of a partition, and the two sides of it, each ordered anew.
module _ (l r m : ℕ) (b c d e : ℕ → ℕ) (p : Parted l (r - 1) m b c) (q : Permuted l m c d)
    (s : Permuted (m + 1) r d e) where
  first_side : (k : ℕ) → k ≤ m → ref_of e k ≡ ref_of d k
  first_side k le = s.refs k ∙ ap (ref_of d) (s.below k (omega arith))

  entry : ref_of d m ≡ ref_of c m
  entry = q.refs m ∙ ap (ref_of c) (q.beyond m (omega arith))

  not_above : (k : ℕ) → l ≤ k → k ≤ m → ref_of e k ≤ ref_of c m
  not_above k low le = elim (Bool-cases (ltb k m)) [
    | inl before ↦
        let (left, right) = q.within k low (ltb→lt k m before) in
        let small = p.smaller (q.to k) left right in omega (arith, first_side k le, q.refs k)
    | inr last ↦
        let same = ap (ref_of d) {x = k} {y = m} (let ge = ltb→le k m last in omega arith) in
        omega (arith, first_side k le, entry)
  ]

  not_below : (k : ℕ) → m ≤ k → k < r → ref_of c m ≤ ref_of e k
  not_below k le lt = elim (Bool-cases (ltb m k)) [
    | inl behind ↦
        let (left, right) = s.within k (let more = ltb→lt m k behind in omega arith) lt in
        let large = p.larger (s.to k) (omega arith) (omega arith) in
        let here = q.refs (s.to k) ∙ ap (ref_of c) (q.beyond (s.to k) (omega arith)) in
        omega (arith, s.refs k)
    | inr first ↦
        let same = ap (ref_of e) {x = k} {y = m} (let ge = ltb→le m k first in omega arith) in
        omega (arith, first_side m (omega arith), entry)
  ]

  joined : Sorted l m d → Sorted (m + 1) r e → Sorted l r e
  unfolding Sorted
  joined left right i j low le high = elim (Bool-cases (ltb j m)) [
    | inl both ↦
        let lt = ltb→lt j m both in
        let ordered = left i j low le lt in
        omega (arith, first_side i (omega arith), first_side j (omega arith))
    | inr later ↦ elim (Bool-cases (ltb m i)) [
      | inl behind ↦ right i j (let lt = ltb→lt m i behind in omega arith) le high
      | inr apart ↦
          let small = not_above i low (ltb→le m i apart) in
          let large = not_below j (ltb→le j m later) high in omega arith
    ]
  ]

-- With more fuel than there are entries, `Sort` of the vector
-- of the locals ends with the same pairs of a position and a number, in another order from `l` on
-- and before `r`, where the positions do not fall.
pub sort-Sorted :
    (fuel : ℕ) (b : ℕ → ℕ) (l r : ℕ)
    → r - l < fuel
    → (c : ℕ → ℕ) × (sort fuel b l r ≡ some c) × Permuted l r b c × Sorted l r c
unfolding sort Sorted
sort-Sorted zero b l r lt = absurd (omega arith)
sort-Sorted (suc fuel) b l r lt = elim (Bool-cases (leb r (l + 1))) [
  | inl few ↦
      let le = leb→le r (l + 1) few in
      (
        b,
        rw (few, sort) refl,
        Permuted-refl l r b,
        λ i j low ord high.
            subst (λ n. ref_of b i ≤ ref_of b n) {x = i} {y = j} (omega arith) (omega arith),
      )
  | inr many ↦
      let more = leb→lt r (l + 1) many in
      let (m, c, e, p) = partition_parts b l (r - 1) (omega arith) in
      let (d, f, left, sorted_left) = sort-Sorted fuel c l m (omega (arith, p.low, p.high)) in
      let (z, g, right, sorted_right) =
        sort-Sorted fuel d (m + 1) r (omega (arith, p.low, p.high)) in
      (
        z,
        rw (many, e, f, sort) g,
        Permuted-trans l r b d z
            (Permuted-trans l r b c d
              (Permuted-wider l r l (r - 1 + 1) b c (omega arith) (omega arith) p.order)
              (Permuted-wider l r l m c d (omega arith) (omega (arith, p.high)) left))
            (Permuted-wider l r (m + 1) r d z (omega (arith, p.low)) (omega arith) right),
        joined l r m b c d z p left right sorted_left sorted_right,
      )
]

from_within : (l r : ℕ) (b c : ℕ → ℕ) (p : Permuted l r b c) (k : ℕ) → k < r → p.from k < r
from_within l r b c p k lt = elim (Bool-cases (ltb (p.from k) r)) [
  | inl inside ↦ ltb→lt (p.from k) r inside
  | inr behind ↦
      let le = ltb→le (p.from k) r behind in
      absurd (omega (arith, p.beyond (p.from k) le, p.to_from k))
]

-- If the entry 0 of the vector of the locals has the position 0, as in a new buffer: GetLocals
-- ends with the same pairs of a position and a number, in an order where the positions do not
-- fall, and the entry 0, which WriteToStream leaves out, again has the position 0.
pub get_locals-Sorted :
    (b : OutputBuffer)
    → ref_of b.locals 0 ≡ 0
    → (c : ℕ → ℕ) × (get_locals b ≡ some c)
      × Permuted 0 (b.loc_count + 1) b.locals c
      × Sorted 0 (b.loc_count + 1) c
      × (ref_of c 0 ≡ 0)
unfolding get_locals Sorted
get_locals-Sorted b zero_at = elim (Bool-cases (ltb 0 b.loc_count)) [
  | inl some_ ↦
      let (c, e, p, s) =
        sort-Sorted (suc (b.loc_count + 1)) b.locals 0 (b.loc_count + 1) (omega arith) in
      let at = p.refs (p.from 0) ∙ ap (ref_of b.locals) (p.to_from 0) ∙ zero_at in
      let inside = from_within 0 (b.loc_count + 1) b.locals c p 0 (omega arith) in
      let least = s 0 (p.from 0) (omega arith) (omega arith) inside in
      (c, rw (some_, get_locals) e, p, s, omega (arith, at))
  | inr none_ ↦
      let le = ltb→le 0 b.loc_count none_ in
      (
        b.locals,
        rw (none_, get_locals) refl,
        Permuted-refl 0 (b.loc_count + 1) b.locals,
        λ i j low ord high.
            subst (λ n. ref_of b.locals i ≤ ref_of b.locals n) {x = i} {y = j} (omega arith)
              (omega arith),
        zero_at,
      )
]

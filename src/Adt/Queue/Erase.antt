-- ===== src/Adt/Queue/Erase.antt =====
-- adt/Queue.hh: the loops of `Remove` and what they look for.
use aliceml_seam.Base.{
  ℕ, zero, suc, ◌+◌, ◌≤◌, ◌<◌, ◌≡◌, ◌≢◌, refl, arith, List, [], ◌∷◌, tabulate, remove_at, ◌==◌,
  if◌then◌else◌, Bool-cases, inl, inr, none, some,
}
use aliceml_seam.Store.Block.{Word}
use aliceml_seam.Adt.Queue.{scan}

-- The list without the first item that is `w`.
unfoldable pub erase : Word → List Word → List Word
erase w [] = []
erase w (x ∷ xs) = if x == w then xs else x ∷ erase w xs

pub erase_hit :
    (w : Word) (n k : ℕ) (f : ℕ → Word)
    → k < n
    → f k ≡ w
    → ((i : ℕ) → i < k → f i ≢ w)
    → erase w (tabulate n f) ≡ remove_at k (tabulate n f)
unfolding erase
erase_hit w zero k f h e miss = elim h [ ]
erase_hit w (suc n) zero f h e miss = ground arith
erase_hit w (suc n) (suc k) f h e miss = ground (
  arith,
  miss 0,
  erase_hit w n k (λ i. f (suc i)) (omega arith) e (λ i p. miss (suc i) (omega arith)),
)

pub erase_miss :
    (w : Word) (n : ℕ) (f : ℕ → Word)
    → ((i : ℕ) → i < n → f i ≢ w)
    → erase w (tabulate n f) ≡ tabulate n f
unfolding erase
erase_miss w zero f miss = refl
erase_miss w (suc n) f miss = ground (
  arith,
  miss 0 (omega arith),
  erase_miss w n (λ i. f (suc i)) (λ i p. miss (suc i) (omega arith)),
)

module _ (mem : ℕ → Word) (w : Word) where
  -- What the loop has found: the first of the cells that holds the word.
  pub record Found (i n s : ℕ) : Type 0 where
    pub above : i ≤ s
    pub below : s < i + n
    pub holds : mem s ≡ w
    pub first : (j : ℕ) → i ≤ j → j < s → mem j ≢ w

  pub scan-Found : (i n : ℕ) {s : ℕ} → scan mem w i n ≡ some s → Found i n s
  unfolding scan
  scan-Found i zero e = absurd (cc)
  scan-Found i (suc n) {s} e = elim (Bool-cases (mem i == w)) [
    | inl hit ↦
        let at : i ≡ s = ground arith in
        record {
          above = omega arith;
          below = omega arith;
          holds = ground arith;
          first = λ j p q. absurd (omega arith);
        }
    | inr miss ↦
        let ih = scan-Found (i + 1) n {s = s} (ground arith) in
        record {
          above = omega (arith, ih.above);
          below = omega (arith, ih.below);
          holds = ih.holds;
          first = λ j p q. ground (arith, ih.first j);
        }
  ]

  pub scan-none : (i n : ℕ) → scan mem w i n ≡ none → (j : ℕ) → i ≤ j → j < i + n → mem j ≢ w
  unfolding scan
  scan-none i zero e j p q = absurd (omega arith)
  scan-none i (suc n) e j p q = elim (Bool-cases (mem i == w)) [
    | inl hit ↦ ground arith
    | inr miss ↦ ground (arith, scan-none (i + 1) n (ground arith) j)
  ]

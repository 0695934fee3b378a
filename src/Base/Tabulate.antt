-- ===== src/Base/Tabulate.antt =====
-- The list of the first `n` values of a function: how a stretch of memory reads as a list.
use Prim.Native.Nat.{ℕ, zero, suc, ◌<◌, ◌≤◌}
use mathlib.Core.Path.{◌≡◌, refl, ap, ap₂, ◌∙◌}
use mathlib.Core.List.{List, [], ◌∷◌, ◌++◌}
use mathlib.Core.Option.{some}
use native.Mathlib.Omega.{arith}
use aliceml_seam.Base.Tests.{ltb, if◌then◌else◌}
use aliceml_seam.Base.Lists.{length, get_elem?, remove_at}

module _ {ℓ} {A : Type ℓ} where
  abbrev pub tabulate : ℕ → (ℕ → A) → List A
  tabulate zero f = []
  tabulate (suc n) f = f 0 ∷ tabulate n (λ i. f (suc i))

  pub length-tabulate : (n : ℕ) (f : ℕ → A) → length (tabulate n f) ≡ n
  length-tabulate zero f = refl
  length-tabulate (suc n) f = ap suc (length-tabulate n (λ i. f (suc i)))

  pub tabulate_congr :
      (n : ℕ) (f g : ℕ → A) → ((i : ℕ) → i < n → f i ≡ g i) → tabulate n f ≡ tabulate n g
  tabulate_congr zero f g h = refl
  tabulate_congr (suc n) f g h =
      ap₂ ◌∷◌ (h 0 (omega arith))
        (tabulate_congr n (λ i. f (suc i)) (λ i. g (suc i)) (λ i p. h (suc i) (omega arith)))

  pub tabulate_nil : (n : ℕ) (f : ℕ → A) → tabulate n f ≡ [] → n ≡ 0
  tabulate_nil zero f e = refl
  tabulate_nil (suc n) f e = cc

  pub tabulate-snoc : (n : ℕ) (f : ℕ → A) → tabulate (suc n) f ≡ tabulate n f ++ (f n ∷ [])
  tabulate-snoc zero f = refl
  tabulate-snoc (suc n) f = ap (λ r. f 0 ∷ r) (tabulate-snoc n (λ i. f (suc i)))

  pub get_elem?-tabulate : (n i : ℕ) (f : ℕ → A) → i < n → get_elem? (tabulate n f) i ≡ some (f i)
  get_elem?-tabulate zero i f h = elim h [ ]
  get_elem?-tabulate (suc n) zero f h = refl
  get_elem?-tabulate (suc n) (suc i) f h = get_elem?-tabulate n i (λ j. f (suc j)) (omega arith)

  pub remove_at-tabulate :
      (n k : ℕ) (f : ℕ → A)
      → k ≤ n
      → remove_at k (tabulate (suc n) f) ≡ tabulate n (λ i. f (if ltb i k then i else suc i))
  remove_at-tabulate n zero f h = tabulate_congr n _ _ (λ i p. ap f (ground arith))
  remove_at-tabulate zero (suc k) f h = absurd (omega arith)
  remove_at-tabulate (suc n) (suc k) f h = ap₂ ◌∷◌ (ap f (ground arith)) (
      remove_at-tabulate n k (λ i. f (suc i)) (omega arith)
      ∙ tabulate_congr n _ _ (λ i p. ap f (ground arith)))

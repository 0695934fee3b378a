-- ===== src/Adt/Stack/Items.antt =====
-- adt/Stack.hh: pushing and popping against the list of the items, the bottom first.
use aliceml_seam.Base.{
  ℕ, suc, ◌+◌, ◌*◌, ◌/◌, ◌≤◌, ◌<◌, ◌≡◌, refl, ◌∙◌, ap, ap₂, arith, List, [], ◌∷◌, ◌++◌, tabulate,
  tabulate_congr, tabulate-snoc, word_mod, false,
}
use aliceml_seam.Store.Block.{Word, zero_word, write, memcpy, alloc_block, max_bigblocksize}
use aliceml_seam.Store.Sizes.{translate_size-ge, translate_size-le, translate_size_small}
use aliceml_seam.Adt.Stack.{Stack, new, put, enlarge, push, slow_push, pop, slow_pop, is_empty}

abbrev pub items : Stack → List Word
items s = tabulate s.top s.array.word_at

-- Every item lies in the array, and the top is a machine word.
pub record IsValid (s : Stack) : Type 0 where
  pub fits : s.top ≤ s.array.size
  pub small : s.array.size < word_mod

items_snoc :
    (s t : Stack) (v : Word)
    → t.top ≡ s.top + 1
    → ((i : ℕ) → i < s.top → t.array.word_at i ≡ s.array.word_at i)
    → t.array.word_at s.top ≡ v
    → items t ≡ items s ++ (v ∷ [])
items_snoc s t v e same last =
    ap (λ n. tabulate n t.array.word_at) {y = suc s.top} (omega arith)
    ∙ tabulate-snoc s.top t.array.word_at
    ∙ ap₂ (λ xs x. xs ++ (x ∷ [])) (tabulate_congr _ _ _ same) last

-- A new stack is empty.
pub items-new : (n : ℕ) → items (new n) ≡ []
unfolding new
items-new n = refl

-- `Push` on a stack with room appends its item.
pub push_refines :
    (s : Stack) (v : Word)
    → IsValid s
    → s.top < s.array.size
    → (items (push s v) ≡ items s ++ (v ∷ [])) × IsValid (push s v)
unfolding push put write
push_refines s v ok room =
    (items_snoc s (push s v) v (ground arith) (λ i p. ground arith) (ground arith), ground arith)

-- SlowPush on a valid stack of at least two cells, half as many again of which the store can
-- allocate as one block, appends its word to the items and keeps the stack valid, whether or not
-- the array has to grow.
pub slow_push_refines :
    (s : Stack) (v : Word)
    → IsValid s
    → 2 ≤ s.array.size
    → s.array.size * 3 / 2 ≤ max_bigblocksize
    → (items (slow_push s v) ≡ items s ++ (v ∷ [])) × IsValid (slow_push s v)
unfolding slow_push put write enlarge memcpy alloc_block
slow_push_refines s v ok two small =
    let bigger = translate_size-ge (s.array.size * 3 / 2) in
    let least = translate_size-le (s.array.size * 3 / 2) small in
    (
      items_snoc s (slow_push s v) v (ground arith) (λ i p. ground arith) (ground arith),
      ground (arith, bigger, least),
    )

-- SlowPush on a valid full stack of at most one cell leaves an array that ends at or before the
-- index that it writes to.
pub slow_push_overruns :
    (s : Stack) (v : Word)
    → IsValid s
    → s.top ≡ s.array.size
    → s.array.size ≤ 1
    → (slow_push s v).array.size ≤ s.top
unfolding slow_push put enlarge alloc_block
slow_push_overruns s v ok full one = ground (arith, translate_size_small (s.array.size * 3 / 2))

-- `Pop` on a stack with items gives the last one, and leaves the others.
pub pop_refines :
    (s : Stack)
    → IsValid s
    → is_empty s ≡ false
    → let (v, t) = pop s in (items s ≡ items t ++ (v ∷ [])) × IsValid t
unfolding pop is_empty
pop_refines s ok ne =
    (items_snoc (pop s).1 s (pop s).0 (ground arith) (λ i p. refl) refl, ground arith)

-- `SlowPop` does the same, and zeroes the cell that it leaves.
pub slow_pop_refines :
    (s : Stack)
    → IsValid s
    → is_empty s ≡ false
    → let (v, t) = slow_pop s in
      (items s ≡ items t ++ (v ∷ [])) × (t.array.word_at t.top ≡ zero_word) × IsValid t
unfolding slow_pop is_empty put write
slow_pop_refines s ok ne = (
  items_snoc (slow_pop s).1 s (slow_pop s).0 (ground arith) (λ i p. ground arith) refl,
  ground arith,
  ground arith,
)

-- ===== src/Adt/Queue/Contents.antt =====
-- adt/Queue.hh: what a queue holds, oldest first, and when its indices are in order.
use aliceml_seam.Base.{
  ℕ, suc, ◌≤◌, ◌<◌, ◌≡◌, arith, sym, ap, ap₂, ◌∙◌, List, [], ◌∷◌, ◌++◌, tabulate, tabulate_congr,
  tabulate-snoc, remove_at, remove_at-tabulate, ltb, if◌then◌else◌,
}
use aliceml_seam.Store.Block.{Word, translate_size}
use aliceml_seam.Adt.Queue.{Queue, number_of_elements, nth_element}

abbrev pub contents : Queue → List Word
contents q = tabulate (number_of_elements q) (nth_element q)

-- The size may not be 1, and is one that a block can have.
pub record IsValid (q : Queue) : Type 0 where
  pub two_cells : 2 ≤ q.array.size
  pub read_in : q.read_index < q.array.size
  pub write_in : q.write_index < q.array.size
  pub sized : translate_size q.array.size ≡ q.array.size

-- One cell stays free.
pub number_of_elements-lt-size : (q : Queue) → IsValid q → number_of_elements q < q.array.size
unfolding number_of_elements
number_of_elements-lt-size q v = ground arith

-- Two queues compared item by item.
module _ (q r : Queue) where
  pub contents_same :
      number_of_elements r ≡ number_of_elements q
      → ((i : ℕ) → i < number_of_elements q → nth_element r i ≡ nth_element q i)
      → contents r ≡ contents q
  contents_same e h = ap (λ n. tabulate n (nth_element r)) e ∙ tabulate_congr _ _ _ h

  pub contents_snoc :
      (w : Word)
      → number_of_elements r ≡ suc (number_of_elements q)
      → ((i : ℕ) → i < number_of_elements q → nth_element r i ≡ nth_element q i)
      → nth_element r (number_of_elements q) ≡ w
      → contents r ≡ contents q ++ (w ∷ [])
  contents_snoc w e h last =
      ap (λ n. tabulate n (nth_element r)) e
      ∙ tabulate-snoc (number_of_elements q) (nth_element r)
      ∙ ap₂ (λ xs x. xs ++ (x ∷ [])) (tabulate_congr _ _ _ h) last

  pub contents_cons :
      (w : Word)
      → number_of_elements q ≡ suc (number_of_elements r)
      → nth_element q 0 ≡ w
      → ((i : ℕ) → i < number_of_elements r → nth_element q (suc i) ≡ nth_element r i)
      → contents q ≡ w ∷ contents r
  contents_cons w e first h =
      ap (λ n. tabulate n (nth_element q)) e ∙ ap₂ ◌∷◌ first (tabulate_congr _ _ _ h)

  pub contents_removed :
      (k : ℕ)
      → number_of_elements q ≡ suc (number_of_elements r)
      → k ≤ number_of_elements r
      → ((i : ℕ)
          → i < number_of_elements r
          → nth_element r i ≡ nth_element q (if ltb i k then i else suc i))
      → contents r ≡ remove_at k (contents q)
  contents_removed k e p h =
      tabulate_congr _ _ _ h
      ∙ sym (remove_at-tabulate (number_of_elements r) k (nth_element q) p)
      ∙ ap (λ n. remove_at k (tabulate n (nth_element q))) (sym e)

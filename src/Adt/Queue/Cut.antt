-- ===== src/Adt/Queue/Cut.antt =====
-- adt/Queue.hh: how a gap in the array is closed, and `RemoveNthElement` against a list.
use aliceml_seam.Base.{
  ℕ, ◌+◌, ◌-◌, ◌%◌, ◌≤◌, ◌<◌, ◌≡◌, arith, remove_at, leb, ltb, Bool-cases, inl, inr, ◌⊎◌,
}
use native.Mathlib.Nat.{mod-eq_of_lt, mod_self}
use aliceml_seam.Store.Block.{memmove}
use aliceml_seam.Adt.Queue.{Queue, number_of_elements, nth_element, remove_nth_element, slot}
use aliceml_seam.Adt.Queue.Contents.{contents, IsValid, contents_removed}

pub next_mod :
    (r n : ℕ) → r < n → (r + 1 < n) × ((r + 1) % n ≡ r + 1) ⊎ (r + 1 ≡ n) × ((r + 1) % n ≡ 0)
next_mod r n h = elim (Bool-cases (ltb (r + 1) n)) [
  | inl p ↦ inl (ground arith, mod-eq_of_lt (ground arith))
  | inr p ↦ let e : r + 1 ≡ n = ground arith in inr (e, rw e (mod_self n))
]

-- The two ways to close a gap: move the items behind it down, or those before it up.
abbrev pub cut_end : Queue → ℕ → ℕ → Queue
cut_end q i count = record q {
  write_index = q.write_index - 1;
  array = record (q.array) { word_at = memmove i (i + 1) count q.array.word_at };
}

abbrev pub cut_front : Queue → ℕ → ℕ → Queue
cut_front q k read = record q {
  read_index = read;
  array = record (q.array) { word_at = memmove (q.read_index + 1) q.read_index k q.array.word_at };
}

module _ (q : Queue) (v : IsValid q) (k : ℕ) (h : k < number_of_elements q) where
  pub cut_end_removed :
      (i count : ℕ)
      → slot q.array.size q.read_index k ≡ i
      → i < q.write_index
      → q.write_index ≤ i + 1 + count
      → i + count ≤ q.write_index
      → (contents (cut_end q i count) ≡ remove_at k (contents q)) × IsValid (cut_end q i count)
  unfolding number_of_elements nth_element memmove
  cut_end_removed i count at inside enough bound = (
    contents_removed q (cut_end q i count) k (ground arith) (ground arith) (λ j p. ground arith),
    ground arith,
  )

  pub cut_front_removed :
      (read len : ℕ)
      → len ≡ k
      → q.read_index + k < q.array.size
      → (q.read_index + 1 < q.array.size) × (read ≡ q.read_index + 1)
        ⊎ (q.read_index + 1 ≡ q.array.size) × (read ≡ 0)
      → (contents (cut_front q len read) ≡ remove_at k (contents q))
        × IsValid (cut_front q len read)
  unfolding number_of_elements nth_element memmove
  cut_front_removed read len e inside next = (
    contents_removed q (cut_front q len read) k (ground arith) (ground arith) (λ j p. ground arith),
    ground arith,
  )

-- RemoveNthElement, on a queue with its indices in order and for a place below the number of
-- elements, takes the element at that place out of the contents and keeps the indices in order.
pub remove_nth_element_refines :
    (q : Queue) (n : ℕ)
    → IsValid q
    → n < number_of_elements q
    → (contents (remove_nth_element q n) ≡ remove_at n (contents q))
      × IsValid (remove_nth_element q n)
unfolding remove_nth_element number_of_elements nth_element
remove_nth_element_refines q n v h = elim (Bool-cases (leb q.array.size (q.read_index + n))) [
  | inl wraps ↦ rw wraps (
      cut_end_removed q v n h (q.read_index + n - q.array.size) _ (ground arith) (ground arith)
        (ground arith) (ground arith))
  | inr straight ↦
      rw straight (cut_front_removed q v n h _ _ (omega arith) (ground arith) (ground arith))
]

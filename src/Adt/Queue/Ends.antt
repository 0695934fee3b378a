-- ===== src/Adt/Queue/Ends.antt =====
-- adt/Queue.hh: `New`, `Enqueue`, `Enlarge` and `Dequeue` against a list.
use aliceml_seam.Base.{
  ℕ, tabulate_nil, ◌↔◌, ◌+◌, ◌/◌, ◌≤◌, ◌≡◌, ◌≢◌, ap, arith, [], ◌∷◌, ◌++◌, tabulate, true, false,
  ◌==◌, if◌then◌else◌, Bool-cases, inl, inr,
}
use aliceml_seam.Store.Sizes.{translate_size-ge, translate_size_idem}
use aliceml_seam.Store.Block.{Word, write}
use aliceml_seam.Adt.Queue.{
  Queue, new, enlarge, enqueue, dequeue, number_of_elements, nth_element, is_empty,
}
use aliceml_seam.Adt.Queue.Contents.{contents, IsValid, contents_snoc, contents_cons}

-- A new queue of two cells or more is in order and empty.
pub new-IsValid : (n : ℕ) → 2 ≤ n → IsValid (new n) × (contents (new n) ≡ [])
unfolding new number_of_elements
new-IsValid n h = (
  record {
    two_cells = omega (arith, translate_size-ge n);
    read_in = omega (arith, translate_size-ge n);
    write_in = omega (arith, translate_size-ge n);
    sized = translate_size_idem n;
  },
  ap (λ k. tabulate k (nth_element (new n))) {y = 0} (ground (arith, translate_size-ge n)),
)

-- What `Enqueue` has stored before it looks whether the queue is full.
abbrev stored : Queue → Word → Queue
stored q w = record q {
  write_index = if q.write_index + 1 == q.array.size then 0 else q.write_index + 1;
  array = record (q.array) { word_at = write q.array.word_at q.write_index w };
}

module _ (q : Queue) (w : Word) (v : IsValid q) where
  enqueue_roomy :
      (stored q w).write_index ≢ q.read_index → contents (stored q w) ≡ contents q ++ (w ∷ [])
  unfolding number_of_elements nth_element write
  enqueue_roomy ne =
      contents_snoc q (stored q w) w (ground arith) (λ i p. ground arith) (ground arith)

  enqueue_full :
      (stored q w).write_index ≡ q.read_index
      → contents (enlarge (q.array.size / 2) (stored q w)) ≡ contents q ++ (w ∷ [])
  unfolding number_of_elements nth_element write enlarge
  enqueue_full e =
      let bigger = translate_size-ge (q.array.size + q.array.size / 2) in
      contents_snoc q (enlarge (q.array.size / 2) (stored q w)) w (ground (arith, bigger))
        (λ i p. ground (arith, bigger)) (ground (arith, bigger))

stored-IsValid : (q : Queue) (w : Word) → IsValid q → IsValid (stored q w)
stored-IsValid q w v = ground arith

enlarge-IsValid :
    (q : Queue) (w : Word) → IsValid q → IsValid (enlarge (q.array.size / 2) (stored q w))
unfolding enlarge
enlarge-IsValid q w v =
    let bigger = translate_size-ge (q.array.size + q.array.size / 2) in
    record {
      two_cells = omega arith;
      read_in = omega arith;
      write_in = omega arith;
      sized = translate_size_idem (q.array.size + q.array.size / 2);
    }

empty_number : (q : Queue) → IsValid q → q.write_index ≡ q.read_index → number_of_elements q ≡ 0
unfolding number_of_elements
empty_number q v e = ground arith

nonempty_number : (q : Queue) → IsValid q → number_of_elements q ≡ 0 → q.write_index ≡ q.read_index
unfolding number_of_elements
nonempty_number q v e = ground arith

-- Enqueue on a queue with its indices in order appends the word to the contents and keeps the
-- indices in order, whether or not the array has to grow.
pub enqueue_refines :
    (q : Queue) (w : Word)
    → IsValid q
    → (contents (enqueue q w) ≡ contents q ++ (w ∷ [])) × IsValid (enqueue q w)
unfolding enqueue
enqueue_refines q w v = elim (Bool-cases ((stored q w).write_index == q.read_index)) [
  | inl e ↦ rw e (enqueue_full q w v (ground arith), enlarge-IsValid q w v)
  | inr e ↦ rw e (enqueue_roomy q w v (ground arith), stored-IsValid q w v)
]

-- Dequeue on a queue with its indices in order that is not empty returns the first of the
-- contents, leaves the others in their order, and keeps the indices in order.
pub dequeue_refines :
    (q : Queue)
    → IsValid q
    → is_empty q ≡ false
    → let (w, r) = dequeue q in (contents q ≡ w ∷ contents r) × IsValid r
unfolding dequeue is_empty number_of_elements nth_element
dequeue_refines q v h = (
  contents_cons q (dequeue q).1 (dequeue q).0 (ground arith) (ground arith) (λ i p. ground arith),
  ground arith,
)

-- `IsEmpty` says whether the list is empty.
pub is_empty_iff : (q : Queue) → IsValid q → (is_empty q ≡ true) ↔ (contents q ≡ [])
unfolding is_empty
is_empty_iff q v = (
  (λ e. ap (λ k. tabulate k (nth_element q)) {y = 0} (empty_number q v (ground arith))),
  (λ e. ground (arith, nonempty_number q v, tabulate_nil (number_of_elements q) (nth_element q) e)),
)

-- ===== src/Adt/Queue/Blank.antt =====
-- adt/Queue.hh: `Blank` and `Clone`.
use aliceml_seam.Base.{
  ℕ, ◌+◌, ◌-◌, ◌≤◌, ◌<◌, ◌≡◌, ◌≢◌, refl, ◌∙◌, arith, true, false, leb, ltb, if◌then◌else◌,
  Bool-cases, inl, inr,
}
use aliceml_seam.Store.Sizes.{translate_size_small}
use aliceml_seam.Store.Block.{zero_word, max_blocksize}
use aliceml_seam.Adt.Queue.{
  Queue, number_of_elements, nth_element, slot, clone, blank, blank_size, shrink, clear_unused,
  is_empty,
}
use aliceml_seam.Adt.Queue.Contents.{contents, IsValid, contents_same}

-- `Clone` copies a queue that is in order.
pub clone_refines : (q : Queue) → IsValid q → (contents (clone q) ≡ contents q) × IsValid (clone q)
unfolding clone number_of_elements nth_element
clone_refines q v = (contents_same q (clone q) (ground arith) (λ i p. ground arith), ground arith)

-- A header without the shift flag.
abbrev pub IsSmall : Queue → Type 0
IsSmall q = (q.array.big ≡ false) × (q.array.size ≤ max_blocksize)

-- The target leaves room for the items and one free cell, and is at least 2.
blank_size_roomy :
    (q : Queue)
    → IsValid q
    → is_empty q ≡ false
    → (number_of_elements q < blank_size q) × (2 ≤ blank_size q)
unfolding blank_size number_of_elements is_empty
blank_size_roomy q v h = ground arith

-- An empty queue is never cut: the code counts every cell of it as an item.
blank_size_empty : (q : Queue) → IsValid q → is_empty q ≡ true → q.array.size ≤ blank_size q
unfolding blank_size is_empty
blank_size_empty q v h = ground arith

-- What cutting the array has to achieve.
record Shrunk (q : Queue) (size : ℕ) (r : Queue) : Type 0 where
  same : contents r ≡ contents q
  valid : IsValid r
  small : IsSmall r
  filled : is_empty r ≡ false
  cells : r.array.size ≡ (if leb q.array.size size then q.array.size else size)

module _ (q : Queue) (size : ℕ) (v : IsValid q) (little : IsSmall q)
    (roomy : number_of_elements q < size) (two : 2 ≤ size) (occupied : is_empty q ≡ false) where
  shrink_straight :
      size < q.array.size → q.read_index < q.write_index → Shrunk q size (shrink size q)
  unfolding shrink number_of_elements nth_element is_empty
  shrink_straight cut p = record {
    same = contents_same q (shrink size q) (ground arith) (λ i h. ground arith);
    valid = ground (arith, translate_size_small size);
    small = ground arith;
    filled = ground arith;
    cells = ground arith;
  }

  shrink_wrapped :
      size < q.array.size → q.write_index < q.read_index → Shrunk q size (shrink size q)
  unfolding shrink number_of_elements nth_element is_empty
  shrink_wrapped cut p = record {
    same = contents_same q (shrink size q) (ground arith) (λ i h. ground arith);
    valid = ground (arith, translate_size_small size);
    small = ground arith;
    filled = ground arith;
    cells = ground arith;
  }

  shrink_kept : q.array.size ≤ size → Shrunk q size (shrink size q)
  unfolding shrink
  shrink_kept keep =
      let e : leb q.array.size size ≡ true = ground arith in
      rw e (record { same = refl; valid = v; small = little; filled = occupied; cells = rw e })

  shrink-Shrunk : Shrunk q size (shrink size q)
  unfolding is_empty
  shrink-Shrunk = elim (Bool-cases (leb q.array.size size)) [
    | inl keep ↦ shrink_kept (ground arith)
    | inr cut ↦ elim (Bool-cases (ltb q.read_index q.write_index)) [
      | inl p ↦ shrink_straight (ground arith) (ground arith)
      | inr p ↦ shrink_wrapped (ground arith) (ground arith)
    ]
  ]

-- Every cell that holds no item holds zero.
abbrev pub UnusedZero : Queue → Type 0
UnusedZero q =
    (i : ℕ)
    → i < q.array.size
    → ((k : ℕ) → k < number_of_elements q → slot q.array.size q.read_index k ≢ i)
    → q.array.word_at i ≡ zero_word

module _ (q : Queue) (v : IsValid q) (occupied : is_empty q ≡ false) where
  clear_same : contents (clear_unused q.array.size q) ≡ contents q
  unfolding clear_unused number_of_elements nth_element is_empty
  clear_same = contents_same q (clear_unused q.array.size q) (ground arith) (λ i h. ground arith)

  clear-IsValid : IsValid (clear_unused q.array.size q)
  unfolding clear_unused
  clear-IsValid = ground arith

  clear-UnusedZero : UnusedZero (clear_unused q.array.size q)
  unfolding clear_unused number_of_elements is_empty
  clear-UnusedZero i h unused =
      ground (arith, unused (i - q.read_index), unused (q.array.size - q.read_index + i))

-- Blank, on a queue with its indices in order that is not empty and whose array has a header
-- without the shift flag, keeps the contents and the order of the indices, and every cell that
-- holds no element is zero afterwards.
pub blank_refines :
    (q : Queue)
    → IsValid q
    → IsSmall q
    → is_empty q ≡ false
    → (contents (blank q) ≡ contents q) × IsValid (blank q) × UnusedZero (blank q)
unfolding blank
blank_refines q v small filled =
    let room = blank_size_roomy q v filled in
    let s = shrink-Shrunk q (blank_size q) v small room.0 room.1 filled in
    let r = shrink (blank_size q) q in
    rw (← s.cells) (
      clear_same r s.valid s.filled ∙ s.same,
      clear-IsValid r s.valid s.filled,
      clear-UnusedZero r s.valid s.filled,
    )

-- Blank on an empty queue with its indices in order changes neither the size nor any word of the
-- array.
pub blank_empty :
    (q : Queue)
    → IsValid q
    → is_empty q ≡ true
    → ((blank q).array.size ≡ q.array.size)
      × ((i : ℕ) → (blank q).array.word_at i ≡ q.array.word_at i)
unfolding blank shrink clear_unused is_empty
blank_empty q v h =
    let big = blank_size_empty q v in (ground (arith, big), λ i. ground (arith, big))

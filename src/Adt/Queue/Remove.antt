-- ===== src/Adt/Queue/Remove.antt =====
-- adt/Queue.hh: `Remove` against a list.
use aliceml_seam.Base.{
  ℕ, ◌+◌, ◌-◌, ◌%◌, ◌≤◌, ◌<◌, ◌≡◌, ◌≢◌, refl, sym, ◌∙◌, ap, arith, ◌==◌, ltb, Bool-cases, inl, inr,
  none, some, Option-cases,
}
use aliceml_seam.Store.Block.{Word}
use aliceml_seam.Adt.Queue.{Queue, number_of_elements, nth_element, slot, scan, remove, remove_up}
use aliceml_seam.Adt.Queue.Contents.{contents, IsValid}
use aliceml_seam.Adt.Queue.Cut.{next_mod, cut_front, cut_end_removed, cut_front_removed}
use aliceml_seam.Adt.Queue.Erase.{erase, erase_hit, erase_miss, Found, scan-Found, scan-none}

abbrev pub Erases : Queue → Word → Queue → Type 0
Erases q w r = (contents r ≡ erase w (contents q)) × IsValid r

module _ (q : Queue) (w : Word) (from base : ℕ) (v : IsValid q)
    (total : base + (q.write_index - from) ≡ number_of_elements q) (low : from ≤ q.write_index)
    (at : (j : ℕ) → j < q.write_index - from → slot q.array.size q.read_index (base + j) ≡ from + j)
    (before : (k : ℕ) → k < base → nth_element q k ≢ w) where
  -- The items behind `base` stand in the cells from `from` on.
  nth_element_behind :
      (k : ℕ)
      → base ≤ k
      → k < number_of_elements q
      → nth_element q k ≡ q.array.word_at (from + (k - base))
  unfolding nth_element
  nth_element_behind k p h =
      let e : base + (k - base) ≡ k = omega arith in
      ap q.array.word_at (ap (slot q.array.size q.read_index) (sym e) ∙ at (k - base) (omega arith))

  remove_up-missing :
      scan q.array.word_at w from (q.write_index - from) ≡ none → Erases q w (remove_up q w from)
  unfolding remove_up
  remove_up-missing missing =
      rw (missing, remove_up) (sym (erase_miss w (number_of_elements q) (nth_element q) misses), v)
    where
      misses : (k : ℕ) → k < number_of_elements q → nth_element q k ≢ w
      misses k h = elim (Bool-cases (ltb k base)) [
        | inl p ↦ before k (ground arith)
        | inr p ↦ rw (nth_element_behind k (ground arith) h) (
            scan-none q.array.word_at w from (q.write_index - from) missing (from + (k - base))
              (omega arith) (ground arith))
      ]

  remove_up-found :
      (s : ℕ)
      → scan q.array.word_at w from (q.write_index - from) ≡ some s
      → Erases q w (remove_up q w from)
  unfolding remove_up nth_element
  remove_up-found s found =
      let f = scan-Found q.array.word_at w from (q.write_index - from) found in
      let k = base + (s - from) in
      let below = f.below in
      let above = f.above in
      let here : slot q.array.size q.read_index k ≡ s = at (s - from) (omega arith) ∙ omega arith in
      let cut =
        cut_end_removed q v k (omega arith) s (q.write_index - s) here (omega arith) (omega arith)
          (omega arith) in
      rw (found, remove_up)
        (
          cut.0
              ∙ sym (
                  erase_hit w (number_of_elements q) k (nth_element q) (omega arith)
                    (ap q.array.word_at here ∙ f.holds) (misses f)),
          cut.1,
        )
    where
      misses :
          Found q.array.word_at w from (q.write_index - from) s
          → (i : ℕ) → i < base + (s - from)
          → nth_element q i ≢ w
      misses f i p = elim (Bool-cases (ltb i base)) [
        | inl l ↦ before i (ground arith)
        | inr l ↦
            let below = f.below in
            rw (nth_element_behind i (ground arith) (omega arith))
              (f.first (from + (i - base)) (omega arith) (ground arith))
      ]

  remove_up-Erases : Erases q w (remove_up q w from)
  remove_up-Erases = elim (Option-cases (scan q.array.word_at w from (q.write_index - from))) [
    | inl missing ↦ remove_up-missing missing
    | inr (s, found) ↦ remove_up-found s found
  ]

empty-Erases : (q : Queue) (w : Word) → IsValid q → q.read_index ≡ q.write_index → Erases q w q
unfolding number_of_elements
empty-Erases q w v e =
    (sym (erase_miss w (number_of_elements q) (nth_element q) (λ i p. absurd (ground arith))), v)

module _ (q : Queue) (w : Word) (v : IsValid q) (ne : q.read_index ≢ q.write_index) where
  straight-Erases : q.read_index < q.write_index → Erases q w (remove_up q w q.read_index)
  unfolding number_of_elements
  straight-Erases h =
      remove_up-Erases q w q.read_index 0 v (ground arith) (omega arith) (λ j p. ground arith)
        (λ k p. absurd (omega arith))

  wrapped_missing :
      q.write_index < q.read_index
      → scan q.array.word_at w q.read_index (q.array.size - q.read_index) ≡ none
      → Erases q w (remove_up q w 0)
  unfolding number_of_elements nth_element
  wrapped_missing h missing =
      remove_up-Erases q w 0 (q.array.size - q.read_index) v (ground arith) (omega arith)
        (λ j p. ground arith)
        (λ k p. ground (
          arith,
          scan-none q.array.word_at w q.read_index (q.array.size - q.read_index) missing
              (q.read_index + k) (omega arith) (omega arith),
        ))

  wrapped_found :
      q.write_index < q.read_index
      → (s : ℕ) → scan q.array.word_at w q.read_index (q.array.size - q.read_index) ≡ some s
      → Erases q w (cut_front q (s - q.read_index) ((q.read_index + 1) % q.array.size))
  unfolding number_of_elements nth_element
  wrapped_found h s found =
      let f = scan-Found q.array.word_at w q.read_index (q.array.size - q.read_index) found in
      let above = f.above in
      let below = f.below in
      let k = s - q.read_index in
      let cut =
        cut_front_removed q v k (ground arith) ((q.read_index + 1) % q.array.size) k refl
          (omega arith) (next_mod q.read_index q.array.size v.read_in) in
      (
        cut.0
            ∙ sym (
                erase_hit w (number_of_elements q) k (nth_element q) (ground arith)
                  (ground (arith, f.holds))
                  (λ i p. ground (arith, f.first (q.read_index + i) (omega arith) (omega arith)))),
        cut.1,
      )

-- Remove on a queue with its indices in order takes the first occurrence of the word out of the
-- contents, if there is one, and keeps the order of the others and of the indices, in the straight
-- and in the wrap-around layout.
pub remove_refines : (q : Queue) (w : Word) → IsValid q → Erases q w (remove q w)
unfolding remove
remove_refines q w v = elim (Bool-cases (q.read_index == q.write_index)) [
  | inl e ↦ rw e (empty-Erases q w v (ground arith))
  | inr ne ↦ elim (Bool-cases (ltb q.write_index q.read_index)) [
    | inr p ↦ rw (ne, p) (straight-Erases q w v (ground arith) (ground arith))
    | inl p ↦
        elim (Option-cases (scan q.array.word_at w q.read_index (q.array.size - q.read_index))) [
          | inl missing ↦
              rw (ne, p, missing) (wrapped_missing q w v (ground arith) (ground arith) missing)
          | inr (s, found) ↦
              rw (ne, p, found) (wrapped_found q w v (ground arith) (ground arith) s found)
        ]
  ]
]

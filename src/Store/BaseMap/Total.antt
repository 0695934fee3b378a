-- ===== src/Store/BaseMap/Total.antt =====
-- store/BaseMap.cc: the counter is the number of entries.
use aliceml_seam.Base.{
  ℕ, zero, suc, ◌+◌, ◌*◌, ◌/◌, ◌≤◌, ◌<◌, ◌≡◌, ◌∙◌, refl, arith, [], ◌∷◌, some, ltb, Bool-cases,
  Option-cases, inl, inr, length,
}
use aliceml_seam.Store.Block.{translate_size}
use aliceml_seam.Store.Sizes.{translate_size-ge}
use aliceml_seam.Store.MapKey.{MapKey}
use aliceml_seam.Store.BaseMap.{
  BaseMap, Entries, set_entry, find_key, fill_node, remove_node, reinsert_chain, reinsert,
  put_entry, put, remove, resize,
}

module _ {K V : Type 0} where
  -- The number of entries in the first `n` chains.
  unfoldable pub total : ℕ → (ℕ → Entries K V) → ℕ
  total zero table = 0
  total (suc n) table = total n table + length (table n)

  -- The chains past the end do not count.
  total_past :
      (n i : ℕ) (c : Entries K V) (table : ℕ → Entries K V)
      → n ≤ i
      → total n (set_entry table i c) ≡ total n table
  unfolding total
  total_past zero i c table h = refl
  total_past (suc n) i c table h = ground (arith, total_past n i c table)

  total-set_entry :
      (n i : ℕ) (c : Entries K V) (table : ℕ → Entries K V)
      → i < n
      → total n (set_entry table i c) + length (table i) ≡ total n table + length c
  unfolding total
  total-set_entry zero i c table h = absurd (omega arith)
  total-set_entry (suc n) i c table h =
      ground (arith, total-set_entry n i c table, total_past n n c table)

  unfoldable pub IsCounted : BaseMap K V → Type 0
  unfolding total
  IsCounted m = m.counter ≡ total m.size m.table

module _ (K V : Type 0) where
  total_empty : (n : ℕ) → total {K = K} {V = V} n (λ _. []) ≡ 0
  unfolding total
  total_empty zero = refl
  total_empty (suc n) = ground (arith, total_empty n)

module _ {K V : Type 0} ⦃key : MapKey K⦄ where
  length-fill_node : (k : K) (v : V) (c : Entries K V) → length (fill_node k v c) ≡ length c
  unfolding fill_node
  length-fill_node k v [] = refl
  length-fill_node k v ((j, w) ∷ c) = ground (arith, length-fill_node k v c)

  length-remove_node :
      (k : K) (old : V) (c : Entries K V)
      → find_key k c ≡ some old
      → length (remove_node k c) + 1 ≡ length c
  unfolding remove_node find_key
  length-remove_node k old [] h = absurd (cc)
  length-remove_node k old ((j, w) ∷ c) h = ground (arith, length-remove_node k old c)

  pub put_entry-IsCounted :
      (m : BaseMap K V) (k : K) (v : V) → 0 < m.size → IsCounted m → IsCounted (put_entry m k v)
  unfolding IsCounted put_entry
  put_entry-IsCounted m k v pos h =
      let i = key.hash k m.size in
      let lt = key.hash-lt k m.size pos in
      elim (Option-cases (find_key k (m.table i))) [
        | inl e ↦ ground (arith, total-set_entry m.size i ((k, v) ∷ m.table i) m.table)
        | inr (old, e) ↦ ground (
          arith,
          total-set_entry m.size i (fill_node k v (m.table i)) m.table,
          length-fill_node k v (m.table i),
        )
      ]

  pub remove-IsCounted :
      (m : BaseMap K V) (k : K) → 0 < m.size → IsCounted m → IsCounted (remove m k)
  unfolding IsCounted remove
  remove-IsCounted m k pos h =
      let i = key.hash k m.size in
      let lt = key.hash-lt k m.size pos in
      elim (Option-cases (find_key k (m.table i))) [
        | inl e ↦ ground (arith)
        | inr (old, e) ↦ ground (
          arith,
          total-set_entry m.size i (remove_node k (m.table i)) m.table,
          length-remove_node k old (m.table i) e,
        )
      ]

  module _ (size : ℕ) (pos : 0 < size) where
    total-reinsert_chain :
        (c : Entries K V) (table : ℕ → Entries K V)
        → total size (reinsert_chain size c table) ≡ total size table + length c
    unfolding reinsert_chain
    total-reinsert_chain [] table = ground arith
    total-reinsert_chain ((k, v) ∷ c) table =
        let i = key.hash k size in
        let next = (k, v) ∷ table i in
        ground (
          arith,
          total-reinsert_chain c (set_entry table i next),
          total-set_entry size i next table (key.hash-lt k size pos),
        )

    total-reinsert :
        (n : ℕ) (old table : ℕ → Entries K V)
        → total size (reinsert size n old table) ≡ total size table + total n old
    unfolding reinsert total
    total-reinsert zero old table = ground arith
    total-reinsert (suc n) old table = ground (
      arith,
      total-reinsert n old (reinsert_chain size (old n) table),
      total-reinsert_chain (old n) table,
    )

  pub resize-IsCounted : (m : BaseMap K V) → 2 ≤ m.size → IsCounted m → IsCounted (resize m)
  unfolding IsCounted resize
  resize-IsCounted m h counted =
      let new_size = translate_size (3 * m.size / 2) in
      let pos : 0 < new_size = ground (arith, translate_size-ge (3 * m.size / 2)) in
      counted
      ∙ ground
          (arith, total-reinsert new_size pos m.size m.table (λ _. []), total_empty K V new_size)

  resize-size : (m : BaseMap K V) → 2 ≤ m.size → 0 < (resize m).size
  unfolding resize
  resize-size m h = ground (arith, translate_size-ge (3 * m.size / 2))

  -- Put on a table of at least two chains keeps the counter equal to the number of entries in the
  -- chains.
  pub put-IsCounted :
      (m : BaseMap K V) (k : K) (v : V) → 2 ≤ m.size → IsCounted m → IsCounted (put m k v)
  unfolding put
  put-IsCounted m k v h counted = elim (Bool-cases (ltb m.percent m.counter)) [
    | inl e ↦
        ground (
          arith,
          put_entry-IsCounted (resize m) k v (resize-size m h) (resize-IsCounted m h counted),
        )
    | inr e ↦ ground (arith, put_entry-IsCounted m k v (omega arith) counted)
  ]

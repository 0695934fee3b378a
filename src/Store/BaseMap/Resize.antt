-- ===== src/Store/BaseMap/Resize.antt =====
-- store/BaseMap.cc: `Resize` and the invariant of the table.
use aliceml_seam.Base.{
  ℕ, zero, suc, ◌+◌, ◌*◌, ◌/◌, ◌≤◌, ◌≡◌, ◌≢◌, refl, arith, [], ◌∷◌, Option, none, ltb, ◌==◌,
  if◌then◌else◌,
}
use aliceml_seam.Store.Block.{translate_size}
use aliceml_seam.Store.Sizes.{translate_size-ge}
use aliceml_seam.Store.MapKey.{MapKey}
use aliceml_seam.Store.BaseMap.{
  BaseMap, Entries, set_entry, find_key, reinsert_chain, reinsert, get, resize,
}
use aliceml_seam.Store.BaseMap.Chain.{to_nat, or_else, count, equals-hash, find_key-none}

-- The invariant is on a table of keys and values of the first universe, as words and chunks are.
module _ {K V : Type 0} ⦃key : MapKey K⦄ where
  -- Every key stands at most once, and in the chain that its hash names.
  unfoldable pub IsPlaced : ℕ → (ℕ → Entries K V) → Type 0
  IsPlaced size table = (q : K) (i : ℕ) → count q (table i) ≤ to_nat (key.hash q size == i)

  unfoldable pub IsValid : BaseMap K V → Type 0
  unfolding IsPlaced
  IsValid m = (2 ≤ m.size) × IsPlaced m.size m.table

  module _ (q : K) (size : ℕ) where
    pub count-reinsert_chain :
        (c : Entries K V) (table : ℕ → Entries K V) (i : ℕ)
        → count q (reinsert_chain size c table i)
          ≡ count q (table i) + (if key.hash q size == i then count q c else 0)
    unfolding reinsert_chain count
    count-reinsert_chain [] table i = ground arith
    count-reinsert_chain ((k, v) ∷ c) table i = ground (
      arith,
      count-reinsert_chain c (set_entry table (key.hash k size) ((k, v) ∷ table (key.hash k size)))
          i,
      equals-hash q k size,
    )

    pub find_key-reinsert_chain :
        (c : Entries K V) (table : ℕ → Entries K V)
        → count q c + count q (table (key.hash q size)) ≤ 1
        → find_key q (reinsert_chain size c table (key.hash q size))
          ≡ or_else (find_key q c) (find_key q (table (key.hash q size)))
    unfolding reinsert_chain count find_key
    find_key-reinsert_chain [] table h = refl
    find_key-reinsert_chain ((k, v) ∷ c) table h = ground (
      arith,
      find_key-reinsert_chain c
          (set_entry table (key.hash k size) ((k, v) ∷ table (key.hash k size))),
      equals-hash q k size,
      find_key-none q c,
    )

    module _ (old_size : ℕ) (old : ℕ → Entries K V) (placed : IsPlaced old_size old) where
      -- The entries of the key among the first `n` chains.
      count_below : ℕ → ℕ
      count_below n = if ltb (key.hash q old_size) n then count q (old (key.hash q old_size)) else 0

      find_below : ℕ → Option V
      find_below n =
          if ltb (key.hash q old_size) n then find_key q (old (key.hash q old_size)) else none

      other_chain : (i : ℕ) → key.hash q old_size ≢ i → count q (old i) ≡ 0
      unfolding IsPlaced
      other_chain i ne = ground (arith, placed q i)

      count-reinsert :
          (n : ℕ) (table : ℕ → Entries K V) (i : ℕ)
          → count q (reinsert size n old table i)
            ≡ count q (table i) + (if key.hash q size == i then count_below n else 0)
      unfolding reinsert count_below
      count-reinsert zero table i = ground arith
      count-reinsert (suc n) table i = ground (
        arith,
        count-reinsert n (reinsert_chain size (old n) table) i,
        count-reinsert_chain (old n) table i,
        other_chain n,
      )

      find_key-reinsert :
          (n : ℕ) (table : ℕ → Entries K V)
          → count_below n + count q (table (key.hash q size)) ≤ 1
          → find_key q (reinsert size n old table (key.hash q size))
            ≡ or_else (find_below n) (find_key q (table (key.hash q size)))
      unfolding reinsert find_below count_below
      find_key-reinsert zero table h = ground arith
      find_key-reinsert (suc n) table h = ground (
        arith,
        find_key-reinsert n (reinsert_chain size (old n) table),
        find_key-reinsert_chain (old n) table,
        count-reinsert_chain (old n) table (key.hash q size),
        other_chain n,
        find_key-none q (old n),
      )

  -- Resize of a valid table changes no lookup.
  pub get-resize : (m : BaseMap K V) (q : K) → IsValid m → get (resize m) q ≡ get m q
  unfolding IsValid get resize count find_key count_below find_below
  get-resize m q h =
      let new_size = translate_size (3 * m.size / 2) in
      let lt = key.hash-lt q m.size (omega arith) in
      ground (
        arith,
        find_key-reinsert q new_size m.size m.table h.1 m.size (λ _. []),
        h.1 q (key.hash q m.size),
      )

  pub resize-IsValid : (m : BaseMap K V) → IsValid m → IsValid (resize m)
  unfolding IsValid IsPlaced resize count count_below
  resize-IsValid m h =
      let new_size = translate_size (3 * m.size / 2) in
      (
        ground (arith, translate_size-ge (3 * m.size / 2)),
        λ q i. ground (
          arith,
          count-reinsert q new_size m.size m.table h.1 m.size (λ _. []) i,
          h.1 q (key.hash q m.size),
        ),
      )

-- ===== src/Store/BaseMap/Methods.antt =====
-- store/BaseMap.cc: what the methods of the table do to its lookups.
use aliceml_seam.Base.{
  ℕ, ◌≤◌, ◌≡◌, refl, arith, ◌∷◌, none, some, ltb, if◌then◌else◌, Bool-cases, Option-cases, inl, inr,
}
use aliceml_seam.Store.MapKey.{MapKey}
use aliceml_seam.Store.Sizes.{translate_size-ge}
use aliceml_seam.Store.BaseMap.{
  BaseMap, Entries, new, find_key, put_entry, put, remove, get, resize,
}
use aliceml_seam.Store.BaseMap.Resize.{IsPlaced, IsValid, get-resize, resize-IsValid}
use aliceml_seam.Store.BaseMap.Chain.{
  count, equals-hash, count-zero, find_key-fill_node, count-fill_node, find_key-remove_node,
  count-remove_node,
}

module _ {K V : Type 0} ⦃key : MapKey K⦄ where
  chain_at_most_one : (m : BaseMap K V) (q : K) (i : ℕ) → IsValid m → count q (m.table i) ≤ 1
  unfolding IsValid IsPlaced
  chain_at_most_one m q i h = ground (arith, h.1 q i)

  pub find_key_cons :
      (k q : K) (v : V) (c : Entries K V)
      → find_key q ((k, v) ∷ c) ≡ (if key.equals q k then some v else find_key q c)
  unfolding find_key
  find_key_cons k q v c = refl

  pub get-put_entry :
      (m : BaseMap K V) (k q : K) (v : V)
      → get (put_entry m k v) q ≡ (if key.equals q k then some v else get m q)
  unfolding get put_entry
  get-put_entry m k q v = elim (Option-cases (find_key k (m.table (key.hash k m.size)))) [
    | inl e ↦
        ground (arith, equals-hash q k m.size, find_key_cons k q v (m.table (key.hash k m.size)))
    | inr (old, e) ↦ ground (
      arith,
      equals-hash q k m.size,
      find_key-fill_node k q v (m.table (key.hash k m.size)) old e,
    )
  ]

  pub put_entry-IsValid : (m : BaseMap K V) (k : K) (v : V) → IsValid m → IsValid (put_entry m k v)
  unfolding put_entry IsValid IsPlaced count
  put_entry-IsValid m k v h = elim (Option-cases (find_key k (m.table (key.hash k m.size)))) [
    | inl e ↦ (
      ground (arith),
      λ q i. ground (
        arith,
        h.1 q i,
        equals-hash q k m.size,
        key.equals_iff q k,
        count-zero k (m.table (key.hash k m.size)) e,
      ),
    )
    | inr (old, e) ↦ (
      ground (arith),
      λ q i. ground (arith, h.1 q i, count-fill_node k q v (m.table (key.hash k m.size))),
    )
  ]

  -- After Remove on a valid table, a lookup finds nothing under the key and what it found before
  -- under every other key.
  pub get-remove :
      (m : BaseMap K V) (k q : K)
      → IsValid m
      → get (remove m k) q ≡ (if key.equals q k then none else get m q)
  unfolding get remove
  get-remove m k q h = elim (Option-cases (find_key k (m.table (key.hash k m.size)))) [
    | inl e ↦ ground (arith, (key.equals_iff q k).0)
    | inr (old, e) ↦ ground (
      arith,
      equals-hash q k m.size,
      find_key-remove_node k q (m.table (key.hash k m.size)) (chain_at_most_one m q _ h),
    )
  ]

  pub remove-IsValid : (m : BaseMap K V) (k : K) → IsValid m → IsValid (remove m k)
  unfolding remove IsValid IsPlaced
  remove-IsValid m k h = elim (Option-cases (find_key k (m.table (key.hash k m.size)))) [
    | inl e ↦ (ground (arith), λ q i. ground (arith, h.1 q i))
    | inr (old, e) ↦ (
      ground (arith),
      λ q i. ground (arith, h.1 q i, count-remove_node k q (m.table (key.hash k m.size)) old e),
    )
  ]

  -- After Put on a valid table, a lookup finds the value under the key and what it found before
  -- under every other key, whether or not the table was resized.
  pub get-put :
      (m : BaseMap K V) (k q : K) (v : V)
      → IsValid m
      → get (put m k v) q ≡ (if key.equals q k then some v else get m q)
  unfolding put
  get-put m k q v h = elim (Bool-cases (ltb m.percent m.counter)) [
    | inl e ↦ ground (arith, get-put_entry (resize m) k q v, get-resize m q h)
    | inr e ↦ ground (arith, get-put_entry m k q v)
  ]

  -- Put keeps a table valid: its size is at least 2, and every key stands at most once and in the
  -- chain that its hash names.
  pub put-IsValid : (m : BaseMap K V) (k : K) (v : V) → IsValid m → IsValid (put m k v)
  unfolding put
  put-IsValid m k v h = elim (Bool-cases (ltb m.percent m.counter)) [
    | inl e ↦ ground (arith, put_entry-IsValid (resize m) k v (resize-IsValid m h))
    | inr e ↦ ground (arith, put_entry-IsValid m k v h)
  ]

module _ (K V : Type 0) ⦃key : MapKey K⦄ where
  pub new-IsValid : (size : ℕ) → IsValid {K = K} {V = V} (new size)
  unfolding IsValid IsPlaced new count
  new-IsValid size =
      (ground (arith, translate_size-ge (if ltb size 2 then 2 else size)), λ q i. omega arith)

  pub get-new : (size : ℕ) (q : K) → get {V = V} (new size) q ≡ none
  unfolding get new find_key
  get-new size q = refl

-- ===== src/Store/BaseMap/Chain.antt =====
-- store/BaseMap.cc: one chain of the table.
use aliceml_seam.Base.{
  ℕ, ◌+◌, ◌≤◌, ◌≡◌, refl, ap, arith, [], ◌∷◌, Option, none, some, Bool, true, false, if◌then◌else◌,
}
use aliceml_seam.Store.MapKey.{MapKey}
use aliceml_seam.Store.BaseMap.{Entries, find_key, fill_node, remove_node}

abbrev pub to_nat : Bool → ℕ
to_nat true = 1
to_nat false = 0

abbrev pub or_else {ℓ} : {A : Type ℓ} → Option A → Option A → Option A
or_else none b = b
or_else (some a) b = some a

module _ {ℓ} {K : Type ℓ} ⦃key : MapKey K⦄ where
  pub equals_refl : (k : K) → key.equals k k ≡ true
  equals_refl k = (key.equals_iff k k).1 refl

  -- Keys that compare equal have the same hash.
  pub equals-hash : (q k : K) (n : ℕ) → key.equals q k ≡ true → key.hash q n ≡ key.hash k n
  equals-hash q k n e = ap (λ x. key.hash x n) ((key.equals_iff q k).0 e)

module _ {ℓ} {K V : Type ℓ} ⦃key : MapKey K⦄ where
  -- How many entries of a chain have the key.
  unfoldable pub count : K → Entries K V → ℕ
  count q [] = 0
  count q ((j, v) ∷ c) = to_nat (key.equals q j) + count q c

  pub find_key-none : (q : K) (c : Entries K V) → count q c ≡ 0 → find_key q c ≡ none
  unfolding count find_key
  find_key-none q [] h = refl
  find_key-none q ((j, v) ∷ c) h = ground (arith, find_key-none q c)

  pub count-zero : (q : K) (c : Entries K V) → find_key q c ≡ none → count q c ≡ 0
  unfolding count find_key
  count-zero q [] h = refl
  count-zero q ((j, v) ∷ c) h = ground (arith, count-zero q c)

  module _ (k q : K) (v : V) where
    pub find_key-fill_node :
        (c : Entries K V) (old : V)
        → find_key k c ≡ some old
        → find_key q (fill_node k v c) ≡ (if key.equals q k then some v else find_key q c)
    unfolding find_key fill_node
    find_key-fill_node [] old h = absurd (cc)
    find_key-fill_node ((j, w) ∷ c) old h = ground (
      arith,
      find_key-fill_node c old,
      key.equals_iff k j,
      key.equals_iff q j,
      key.equals_iff q k,
    )

    pub count-fill_node : (c : Entries K V) → count q (fill_node k v c) ≡ count q c
    unfolding count fill_node
    count-fill_node [] = refl
    count-fill_node ((j, w) ∷ c) =
        ground
          (arith, count-fill_node c, key.equals_iff k j, key.equals_iff q j, key.equals_iff q k)

  module _ (k q : K) where
    pub find_key-remove_node :
        (c : Entries K V)
        → count q c ≤ 1
        → find_key q (remove_node k c) ≡ (if key.equals q k then none else find_key q c)
    unfolding find_key remove_node count
    find_key-remove_node [] h = ground arith
    find_key-remove_node ((j, w) ∷ c) h = ground (
      arith,
      find_key-remove_node c,
      find_key-none q c,
      key.equals_iff k j,
      key.equals_iff q j,
      key.equals_iff q k,
    )

    pub count-remove_node :
        (c : Entries K V) (old : V)
        → find_key k c ≡ some old
        → count q (remove_node k c) + to_nat (key.equals q k) ≡ count q c
    unfolding find_key remove_node count
    count-remove_node [] old h = absurd (cc)
    count-remove_node ((j, w) ∷ c) old h =
        ground (
          arith,
          count-remove_node c old,
          key.equals_iff k j,
          key.equals_iff q j,
          key.equals_iff q k,
        )

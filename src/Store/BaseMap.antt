-- ===== src/Store/BaseMap.antt =====
-- store/BaseMap.cc and BaseMap.hh: the hash table, over any key. A chain of `MapNode` blocks, which
-- no other table shares, is the list of its entries; the integer 0 that ends it is the empty list.
pub mod Chain
pub mod Total
pub mod Resize
pub mod Methods
use aliceml_seam.Base.{
  ℕ, zero, suc, ◌+◌, ◌-◌, ◌*◌, ◌/◌, List, [], ◌∷◌, Option, none, some, Bool, true, false, ltb, ◌==◌,
  if◌then◌else◌,
}
use aliceml_seam.Store.Block.{translate_size}
use aliceml_seam.Store.MapKey.{MapKey}

abbrev pub Entries {ℓ} : Type ℓ → Type ℓ → Type ℓ
Entries K V = List (K × V)

-- `table` is the array of chains, `size` its length.
pub record BaseMap {ℓ} (K V : Type ℓ) : Type ℓ where
  pub counter : ℕ
  pub percent : ℕ
  pub size : ℕ
  pub table : ℕ → Entries K V

abbrev pub set_entry {ℓ} : {A : Type ℓ} → (ℕ → A) → ℕ → A → ℕ → A
set_entry table i c j = if i == j then c else table j

module _ {ℓ} {K V : Type ℓ} where
  -- `New`: the size is at least 2. `MAP_FILL_RATIO` is 3/4; the product is truncated. This is a size
  -- up to `MAX_BLOCKSIZE`: the code does not set the cells that rounding a bigger one adds.
  unfoldable pub new : ℕ → BaseMap K V
  new size =
      let wanted = if ltb size 2 then 2 else size in
      record {
        counter = 0;
        percent = wanted * 3 / 4;
        size = translate_size wanted;
        table = λ _. [];
      }

  unfoldable pub get_size : BaseMap K V → ℕ
  get_size m = m.counter

  unfoldable pub is_empty : BaseMap K V → Bool
  is_empty m = m.counter == 0

  unfoldable pub clear : BaseMap K V → BaseMap K V
  clear m = record m { counter = 0; table = λ _. [] }

  -- `Fold` and, with an effect for `func`, `Apply`: from the last chain to the first.
  unfoldable pub fold_chain {κ} : {A : Type κ} → (K → V → A → A) → Entries K V → A → A
  fold_chain func [] accum = accum
  fold_chain func ((k, v) ∷ c) accum = fold_chain func c (func k v accum)

  unfoldable pub fold_from {κ} : {A : Type κ} → (K → V → A → A) → ℕ → (ℕ → Entries K V) → A → A
  fold_from func zero table accum = accum
  fold_from func (suc i) table accum = fold_from func i table (fold_chain func (table i) accum)

  unfoldable pub fold {κ} : {A : Type κ} → (K → V → A → A) → BaseMap K V → A → A
  fold func m accum = fold_from func m.size m.table accum

  -- The loop of `PartialMap` over a chain: `none` is `INVALID_POINTER`. The number is that of the
  -- entries that were removed.
  unfoldable pub partial_map_chain : (K → V → Option V) → Entries K V → ℕ × Entries K V
  partial_map_chain func [] = (0, [])
  partial_map_chain func ((k, v) ∷ c) =
      let (n, rest) = partial_map_chain func c in
      elim (func k v) [ none ↦ (suc n, rest) | some w ↦ (n, (k, w) ∷ rest) ]

  unfoldable pub partial_map_from : (K → V → Option V) → ℕ → BaseMap K V → BaseMap K V
  partial_map_from func zero m = m
  partial_map_from func (suc i) m =
      let (n, c) = partial_map_chain func (m.table i) in
      partial_map_from func i (record m { counter = m.counter - n; table = set_entry m.table i c })

  unfoldable pub partial_map : (K → V → Option V) → BaseMap K V → BaseMap K V
  partial_map func m = partial_map_from func m.size m

module _ {ℓ} {K V : Type ℓ} ⦃key : MapKey K⦄ where
  -- `FindKey`, as far as the value of the node.
  unfoldable pub find_key : K → Entries K V → Option V
  find_key k [] = none
  find_key k ((j, v) ∷ c) = if key.equals k j then some v else find_key k c

  -- `MapNode::Fill` on the node that `FindKey` finds.
  unfoldable pub fill_node : K → V → Entries K V → Entries K V
  fill_node k v [] = []
  fill_node k v ((j, w) ∷ c) = if key.equals k j then (k, v) ∷ c else (j, w) ∷ fill_node k v c

  -- `RemoveEntry` on the node that `FindKey` finds.
  unfoldable pub remove_node : K → Entries K V → Entries K V
  remove_node k [] = []
  remove_node k ((j, w) ∷ c) = if key.equals k j then c else (j, w) ∷ remove_node k c

  -- `Resize` puts the entries of a chain at the front of their new chains.
  unfoldable pub reinsert_chain : ℕ → Entries K V → (ℕ → Entries K V) → ℕ → Entries K V
  reinsert_chain size [] table = table
  reinsert_chain size ((k, v) ∷ c) table =
      reinsert_chain size c (set_entry table (key.hash k size) ((k, v) ∷ table (key.hash k size)))

  -- From the last chain of the old table to the first.
  unfoldable pub reinsert : ℕ → ℕ → (ℕ → Entries K V) → (ℕ → Entries K V) → ℕ → Entries K V
  reinsert size zero old table = table
  reinsert size (suc i) old table = reinsert size i old (reinsert_chain size (old i) table)

  unfoldable pub resize : BaseMap K V → BaseMap K V
  resize m =
      let new_size = translate_size (3 * m.size / 2) in
      record {
        counter = m.counter;
        percent = (4 + new_size * 3) / 4;
        size = new_size;
        table = reinsert new_size m.size m.table (λ _. []);
      }

  -- The write of `Put`, once there is room.
  unfoldable pub put_entry : BaseMap K V → K → V → BaseMap K V
  put_entry m k v =
      let i = key.hash k m.size in
      elim (find_key k (m.table i)) [
        | some old ↦ record m { table = set_entry m.table i (fill_node k v (m.table i)) }
        | none ↦ record m {
          counter = m.counter + 1;
          table = set_entry m.table i ((k, v) ∷ m.table i);
        }
      ]

  unfoldable pub put : BaseMap K V → K → V → BaseMap K V
  put m k v = put_entry (if ltb m.percent m.counter then resize m else m) k v

  unfoldable pub remove : BaseMap K V → K → BaseMap K V
  remove m k =
      let i = key.hash k m.size in
      elim (find_key k (m.table i)) [
        | none ↦ m
        | some old ↦ record m {
          counter = m.counter - 1;
          table = set_entry m.table i (remove_node k (m.table i));
        }
      ]

  -- The entry that `Get`, `CondGet` and `IsMember` find.
  unfoldable pub get : BaseMap K V → K → Option V
  get m k = find_key k (m.table (key.hash k m.size))

  unfoldable pub is_member : BaseMap K V → K → Bool
  unfolding get
  is_member m k = elim (get m k) [ none ↦ false | some v ↦ true ]

  unfoldable pub cond_get : BaseMap K V → K → V → V
  unfolding get
  cond_get m k alternative = elim (get m k) [ none ↦ alternative | some v ↦ v ]

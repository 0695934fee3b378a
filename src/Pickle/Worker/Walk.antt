-- ===== src/Pickle/Worker/Walk.antt =====
-- generic/Pickler.cc: a value without sharing in the heap, and the rounds of the worker on it.
use aliceml_seam.Base.{
  ℕ, suc, ◌+◌, ◌≤◌, ◌≡◌, ◌≢◌, ◌∙◌, refl, sym, ap, arith, List, [], ◌∷◌, ◌++◌, none, Bool, false,
  max, length, ◌==◌, if◌then◌else◌,
}
use aliceml_seam.Pickle.Heap.{Value, Cell, Heap, pointer}
use aliceml_seam.Pickle.Heap as Cells
use aliceml_seam.Pickle.Seen.{Seen}
use aliceml_seam.Pickle.Worker.{deref}
use aliceml_seam.Pickle.Tree.{
  Tree, Trees, posint, negint, chunk, node, empty, more, count, need, needs,
}
use aliceml_seam.Pickle.Tree.Pickled.{need_pos}

unfoldable mutual
  unfolding deref

  -- Behind the futures that are bound, a word is a value, whose blocks are at these addresses.
  pub Stands : Heap → Value → Tree → List ℕ → Type 0
  Stands h v (posint y) as_ = (deref h.next h v ≡ Cells.posint y) × (as_ ≡ [])
  Stands h v (negint y) as_ = (deref h.next h v ≡ Cells.negint y) × (as_ ≡ [])
  Stands h v (chunk is_mutable bs) as_ =
      (a : ℕ) × (deref h.next h v ≡ pointer a)
      × (h.cells a ≡ Cells.chunk is_mutable bs)
      × (as_ ≡ a ∷ [])
  Stands h v (node is_mutable label ts) as_ =
      (a : ℕ) × (vs : List Value) × (bs : List ℕ) × (deref h.next h v ≡ pointer a)
      × (h.cells a ≡ Cells.block is_mutable label vs)
      × AllStand h vs ts bs
      × (as_ ≡ a ∷ bs)

  pub AllStand : Heap → List Value → Trees → List ℕ → Type 0
  AllStand h [] empty as_ = as_ ≡ []
  AllStand h (v ∷ vs) (more t ts) as_ =
      (bs : List ℕ) × (cs : List ℕ) × Stands h v t bs × AllStand h vs ts cs × (as_ ≡ bs ++ cs)
  AllStand h _ _ as_ = ⊥

unfoldable pub NotIn : ℕ → List ℕ → Type 0
NotIn a [] = Unit
NotIn a (b ∷ bs) = (a ≢ b) × NotIn a bs

unfoldable pub Distinct : List ℕ → Type 0
Distinct [] = Unit
Distinct (a ∷ bs) = NotIn a bs × Distinct bs

-- None of the blocks is in the table.
unfoldable pub AllNew : Seen → List ℕ → Type 0
AllNew seen [] = Unit
AllNew seen (a ∷ bs) = (seen a ≡ none) × AllNew seen bs

unfoldable pub AllNotIn : List ℕ → List ℕ → Type 0
AllNotIn [] cs = Unit
AllNotIn (a ∷ bs) cs = NotIn a cs × AllNotIn bs cs

pub NotIn-append : (a : ℕ) (bs cs : List ℕ) → NotIn a (bs ++ cs) → NotIn a bs × NotIn a cs
unfolding NotIn
NotIn-append a [] cs h = (tt, h)
NotIn-append a (b ∷ bs) cs (ne, h) = let (x, y) = NotIn-append a bs cs h in ((ne, x), y)

pub Distinct-append :
    (bs cs : List ℕ) → Distinct (bs ++ cs) → Distinct bs × Distinct cs × AllNotIn bs cs
unfolding Distinct AllNotIn
Distinct-append [] cs d = (tt, d, tt)
Distinct-append (b ∷ bs) cs (n, d) =
    let (x, y) = NotIn-append b bs cs n in
    let (p, q, r) = Distinct-append bs cs d in ((x, p), q, (y, r))

pub AllNew-append :
    (seen : Seen) (bs cs : List ℕ) → AllNew seen (bs ++ cs) → AllNew seen bs × AllNew seen cs
unfolding AllNew
AllNew-append seen [] cs h = (tt, h)
AllNew-append seen (b ∷ bs) cs (e, h) = let (x, y) = AllNew-append seen bs cs h in ((e, x), y)

-- What is noted of other blocks does not matter.
pub AllNew-kept :
    (seen later : Seen) (bs cs : List ℕ)
    → AllNotIn bs cs
    → ((a : ℕ) → NotIn a cs → later a ≡ seen a)
    → AllNew seen bs
    → AllNew later bs
unfolding AllNew AllNotIn
AllNew-kept seen later [] cs n same h = tt
AllNew-kept seen later (b ∷ bs) cs (n, ns) same (e, h) =
    (same b n ∙ e, AllNew-kept seen later bs cs ns same h)

pub NotIn-AllNotIn : (a : ℕ) (bs : List ℕ) → NotIn a bs → AllNotIn bs (a ∷ [])
unfolding NotIn AllNotIn
NotIn-AllNotIn a [] n = tt
NotIn-AllNotIn a (b ∷ bs) (ne, n) = (((λ e. ne (sym e)), tt), NotIn-AllNotIn a bs n)

-- The height `m` above `n`, where 0 is no height at all.
unfoldable pub above : ℕ → ℕ → ℕ
above n m = if m == 0 then 0 else n + m

-- What the worker finds of the height of the stack that the instructions need.
unfoldable mutual
  pub measured : Tree → ℕ
  measured (node is_mutable label ts) = all_measured ts
  measured _ = 1

  pub all_measured : Trees → ℕ
  all_measured empty = 0
  all_measured (more t ts) = max (all_measured ts) (above (count ts) (measured t))

unfoldable mutual
  -- The rounds that the worker takes.
  pub turns : Tree → ℕ
  turns (node is_mutable label ts) = all_turns ts + 2
  turns _ = 1

  pub all_turns : Trees → ℕ
  all_turns empty = 0
  all_turns (more t ts) = all_turns ts + turns t

-- Labels that the worker writes as they are.
module _ (concrete_label transform_label : ℕ) (is_sited : ℕ → Bool) where
  unfoldable mutual
    pub Known : Tree → Type 0
    Known (node is_mutable label ts) =
        (is_sited label ≡ false)
        × (label ≢ concrete_label)
        × (label ≢ transform_label)
        × AllKnown ts
    Known _ = Unit

    pub AllKnown : Trees → Type 0
    AllKnown empty = Unit
    AllKnown (more t ts) = Known t × AllKnown ts

pub AllStand-length :
    (h : Heap) (vs : List Value) (ts : Trees) (as_ : List ℕ)
    → AllStand h vs ts as_
    → length vs ≡ count ts
unfolding AllStand
AllStand-length h [] empty as_ x = refl
AllStand-length h (v ∷ vs) (more t ts) as_ (bs, cs, x, y, e) = ap suc (AllStand-length h vs ts cs y)
AllStand-length h [] (more t ts) as_ x = absurd x
AllStand-length h (v ∷ vs) empty as_ x = absurd x

pub count_le_needs : (ts : Trees) → count ts ≤ needs ts
unfolding needs need
count_le_needs empty = omega arith
count_le_needs (more t ts) = omega (arith, need_pos t)

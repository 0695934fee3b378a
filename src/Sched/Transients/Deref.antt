-- ===== src/Sched/Transients/Deref.antt =====
-- store/PointerOp.hh: `Deref` ends, because binding never closes a cycle of references.
use aliceml_seam.Base.{
  ℕ, zero, suc, ◌<◌, ◌≡◌, ◌≢◌, refl, arith, Option, none, some, ◌==◌, if◌then◌else◌, Bool-cases,
  inl, inr, ◌⊎◌, ap, subst, ◌∙◌,
}
use aliceml_seam.Sched.Transients.{
  Value, transient, determined, Cell, hole, future, cancelled, byneed, reference,
}

-- The loop, with fuel for its rounds.
unfoldable pub deref : ℕ → (ℕ → Cell) → Value → Option Value
deref zero cells v = none
deref (suc fuel) cells (determined w) = some (determined w)
deref (suc fuel) cells (transient i) = elim (cells i) [
  | reference v ↦ deref fuel cells v
  | _ ↦ some (transient i)
]

-- A value that `Deref` returns as it is.
abbrev pub IsUnbound : Cell → Type 0
IsUnbound c = (v : Value) → c ≢ reference v

abbrev pub IsDereferenced : (ℕ → Cell) → Value → Type 0
IsDereferenced cells v = (i : ℕ) → v ≡ transient i → IsUnbound (cells i)

-- Along a reference the rank falls.
abbrev pub Ranked : (ℕ → ℕ) → (ℕ → Cell) → Type 0
Ranked rank cells = (i j : ℕ) → cells i ≡ reference (transient j) → rank j < rank i

abbrev pub rank_of : (ℕ → ℕ) → Value → ℕ
rank_of rank (transient i) = suc (rank i)
rank_of rank (determined w) = 0

abbrev pub IsAcyclic : (ℕ → Cell) → Type 0
IsAcyclic cells = (rank : ℕ → ℕ) × Ranked rank cells

Cell-cases : (c : Cell) → ((v : Value) × (c ≡ reference v)) ⊎ IsUnbound c
Cell-cases (reference v) = inl (v, refl)
Cell-cases (hole f) = inr (λ v e. cc)
Cell-cases (future ts) = inr (λ v e. cc)
Cell-cases (cancelled w) = inr (λ v e. cc)
Cell-cases (byneed w) = inr (λ v e. cc)

deref_unbound :
    (fuel : ℕ) (cells : ℕ → Cell) (i : ℕ) (c : Cell)
    → cells i ≡ c
    → IsUnbound c
    → deref (suc fuel) cells (transient i) ≡ some (transient i)
unfolding deref
deref_unbound fuel cells i (reference v) e h = absurd (h v refl)
deref_unbound fuel cells i (hole f) e h = rw (e, deref)
deref_unbound fuel cells i (future ts) e h = rw (e, deref)
deref_unbound fuel cells i (cancelled w) e h = rw (e, deref)
deref_unbound fuel cells i (byneed w) e h = rw (e, deref)

rank_falls :
    (rank : ℕ → ℕ) (cells : ℕ → Cell) (i : ℕ) (v : Value)
    → Ranked rank cells
    → cells i ≡ reference v
    → rank_of rank v < suc (rank i)
rank_falls rank cells i (transient j) ranked e = omega (arith, ranked i j e)
rank_falls rank cells i (determined w) ranked e = omega arith

-- In cells without cycles of references, given by a rank that falls along each reference, Deref
-- ends within one more round than the rank of the value, at a value that is not a bound transient.
pub deref_total :
    (fuel : ℕ) (cells : ℕ → Cell) (rank : ℕ → ℕ) (v : Value)
    → Ranked rank cells
    → rank_of rank v < fuel
    → (r : Value) × (deref fuel cells v ≡ some r) × IsDereferenced cells r
unfolding deref
deref_total zero cells rank v ranked h = elim h [ ]
deref_total (suc fuel) cells rank (determined w) ranked h = (determined w, refl, λ i e. cc)
deref_total (suc fuel) cells rank (transient i) ranked h = elim (Cell-cases (cells i)) [
  | inl (v, e) ↦
      let falls = rank_falls rank cells i v ranked e in
      let (r, run, done) = deref_total fuel cells rank v ranked (omega arith) in
      (r, rw (e, deref) run, done)
  | inr unbound ↦ (
    transient i,
    deref_unbound fuel cells i (cells i) refl unbound,
    λ j e. subst (λ k. IsUnbound (cells k)) (cc) unbound,
  )
]

-- `Transient::Become(REF_LABEL, w)`, with `w` already dereferenced.
abbrev pub bind : (ℕ → Cell) → ℕ → Value → ℕ → Cell
bind cells i v j = if i == j then reference v else cells j

abbrev raised : (ℕ → ℕ) → Value → ℕ → ℕ
raised rank (transient t) j = if t == j then 0 else suc (rank j)
raised rank (determined w) j = rank j

-- Binding a transient to a dereferenced value other than itself leaves the cells without cycles of
-- references.
pub bind-IsAcyclic :
    (cells : ℕ → Cell) (i : ℕ) (v : Value)
    → IsAcyclic cells
    → IsDereferenced cells v
    → v ≢ transient i
    → IsAcyclic (bind cells i v)
bind-IsAcyclic cells i (determined w) (rank, ranked) done ne = (
  rank,
  λ a b e. elim (Bool-cases (i == a)) [
    | inl hit ↦ absurd (cc (rw hit at e))
    | inr miss ↦ ranked a b (rw miss at e)
  ],
)
bind-IsAcyclic cells i (transient t) (rank, ranked) done ne = (
  raised rank (transient t),
  λ a b e. elim (Bool-cases (i == a)) [
    | inl hit ↦
        let other : t ≢ i = λ q. ne (ap transient q) in
        let same : t ≡ b = cc (rw hit at e) in ground arith
    | inr miss ↦
        let old = rw miss at e in
        let other : t ≢ a = λ q. done t refl (transient b) (ap cells q ∙ old) in
        ground (arith, ranked a b old)
  ],
)

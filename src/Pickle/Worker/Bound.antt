-- ===== src/Pickle/Worker/Bound.antt =====
-- generic/Pickler.cc: a bound for the rounds of the `PickleWorker`, and what its calls keep.
use aliceml_seam.Base.{
  ℕ, zero, suc, ◌+◌, ◌*◌, ◌<◌, ◌≤◌, ◌≡◌, ◌≢◌, refl, sym, ap, subst, arith, List, [], ◌∷◌, Option,
  none, some, Bool, true, false, length, ◌==◌, ==→≡, ==_ne, if◌then◌else◌, Bool-cases, Option-cases,
  inl, inr, ==_refl,
}
use aliceml_seam.Pickle.Instr.{Instr}
use aliceml_seam.Pickle.Output.{put_local}
use aliceml_seam.Pickle.Write.{Part, write_instr, write_parts}
use aliceml_seam.Pickle.Heap.{Value, Cell, Heap, pointer, unset}
use aliceml_seam.Pickle.Heap as Cells
use aliceml_seam.Pickle.Seen.{Index, Entry, Seen, put, set_index, set_var_no, written, Pickling}
use aliceml_seam.Pickle.Worker.{Round, goes, emit, emit_local, set_written, push_words}

abbrev pub is_known : Option Entry → Bool
is_known none = false
is_known (some e) = true

-- Each word on the stack takes a round, and one more when it is back from its parts.
abbrev pub weight : List (Value × Bool) → ℕ
weight [] = 0
weight ((v, true) ∷ rest) = 1 + weight rest
weight ((v, false) ∷ rest) = 2 + weight rest

abbrev pub parts_of : Cell → ℕ
parts_of (Cells.block is_mutable label args) = 2 + length args
parts_of (Cells.unique_string string) = 1
parts_of _ = 0

-- What the blocks before `n` that are not in the table can still push.
unfoldable pub left : Heap → Seen → ℕ → ℕ
left h seen zero = 0
left h seen (suc n) = left h seen n + (if is_known (seen n) then 0 else 2 * parts_of (h.cells n))

-- An upper bound for the rounds.
unfoldable pub measure : Heap → Pickling → ℕ
unfolding left
measure h s = weight s.stack + left h s.seen h.next

pub weight-push_words :
    (vs : List Value) (rest : List (Value × Bool))
    → weight (push_words vs rest) ≡ 2 * length vs + weight rest
weight-push_words [] rest = omega arith
weight-push_words (v ∷ vs) rest = omega (arith, weight-push_words vs ((v, false) ∷ rest))

pub left_kept :
    (h : Heap) (seen later : Seen) (n : ℕ)
    → ((a : ℕ) → is_known (seen a) ≡ true → is_known (later a) ≡ true)
    → left h later n ≤ left h seen n
unfolding left
left_kept h seen later zero kept = omega arith
left_kept h seen later (suc n) kept =
    let rest = left_kept h seen later n kept in
    elim (Bool-cases (is_known (seen n))) [
      | inl known ↦ rw (known, kept n known) (omega arith)
      | inr new ↦ elim (Bool-cases (is_known (later n))) [
        | inl found ↦ rw (new, found) (omega arith)
        | inr still ↦ rw (new, still) (omega arith)
      ]
    ]

pub put_kept :
    (a b : ℕ) (e : Entry) (seen : Seen)
    → is_known (seen b) ≡ true
    → is_known (put a e seen b) ≡ true
unfolding put
put_kept a b e seen known = elim (Bool-cases (b == a)) [
  | inl same ↦ rw same refl
  | inr ne ↦ rw ne known
]

before : (a n : ℕ) → a < suc n → n ≢ a → a < n
before a n lt ne = ground arith

pub left-put :
    (h : Heap) (seen : Seen) (a n : ℕ) (e : Entry)
    → seen a ≡ none
    → a < n
    → left h (put a e seen) n + 2 * parts_of (h.cells a) ≤ left h seen n
unfolding left put
left-put h seen a zero e new lt = absurd (omega arith)
left-put h seen a (suc n) e new lt = elim (Bool-cases (n == a)) [
  | inl same ↦
      let at = ==→≡ n a same in
      let rest = left_kept h seen (put a e seen) a (λ b known. put_kept a b e seen known) in
      rw (at, ==_refl a, new) (omega arith)
  | inr ne ↦
      let differ = ==_ne n a ne in
      let rest = left-put h seen a n e new (before a n lt differ) in rw ne (omega arith)
]

-- What the calls of the output buffer and the table keep.
emit-seen : (i : Instr) (s t : Pickling) → emit i s ≡ some t → t.seen ≡ s.seen
unfolding emit
emit-seen i s t e = elim (Option-cases (write_instr i s.buffer)) [
  | inl bad ↦ absurd (cc (rw (bad, emit) at e))
  | inr (c, ok) ↦
      let same : record s { buffer = c } ≡ t = cc (rw (ok, emit) at e) in
      ap (λ x. x.seen) (sym same)
]

set_index_kept :
    (a : ℕ) (p : Index) (seen later : Seen)
    → set_index a p seen ≡ some later
    → (b : ℕ) → is_known (seen b) ≡ true
    → is_known (later b) ≡ true
unfolding set_index
set_index_kept a p seen later e b known = elim (Option-cases (seen a)) [
  | inl bad ↦ absurd (cc (rw (bad, set_index) at e))
  | inr (x, ok) ↦
      let same : put a (record x { index = p }) seen ≡ later = cc (rw (ok, set_index) at e) in
      subst (λ q. is_known (q b) ≡ true) same (put_kept a b (record x { index = p }) seen known)
]

set_var_no_kept :
    (a n : ℕ) (seen later : Seen)
    → set_var_no a n seen ≡ some later
    → (b : ℕ) → is_known (seen b) ≡ true
    → is_known (later b) ≡ true
unfolding set_var_no
set_var_no_kept a n seen later e b known = elim (Option-cases (seen a)) [
  | inl bad ↦ absurd (cc (rw (bad, set_var_no) at e))
  | inr (x, ok) ↦
      let same : put a (record x { var_no = n }) seen ≡ later = cc (rw (ok, set_var_no) at e) in
      subst (λ q. is_known (q b) ≡ true) same (put_kept a b (record x { var_no = n }) seen known)
]

-- The table of `t` knows what the one of `s` knows.
abbrev pub Knows : Pickling → Pickling → Type 0
Knows s t = (b : ℕ) → is_known (s.seen b) ≡ true → is_known (t.seen b) ≡ true

pub set_written-Knows : (a : ℕ) (s t : Pickling) → set_written a s ≡ some t → Knows s t
unfolding set_written
set_written-Knows a s t e = elim (Option-cases (set_index a (written s.buffer.pos) s.seen)) [
  | inl bad ↦ absurd (cc (rw (bad, set_written) at e))
  | inr (later, ok) ↦
      let same : record s { seen = later } ≡ t = cc (rw (ok, set_written) at e) in
      subst (λ x. Knows s x) same (set_index_kept a (written s.buffer.pos) s.seen later ok)
]

pub emit-Knows : (i : Instr) (s t : Pickling) → emit i s ≡ some t → Knows s t
emit-Knows i s t e b known = subst (λ q. is_known (q b) ≡ true) (sym (emit-seen i s t e)) known

pub emit_local-Knows :
    (ps : List Part) (ref a : ℕ) (s t : Pickling) → emit_local ps ref a s ≡ some t → Knows s t
unfolding emit_local
emit_local-Knows ps ref a s t e = elim (Option-cases (write_parts ps s.buffer)) [
  | inl bad ↦ absurd (cc (rw (bad, emit_local) at e))
  | inr (b, ok) ↦ elim (Option-cases (put_local ref b)) [
    | inl bad ↦ absurd (cc (rw (ok, bad, emit_local) at e))
    | inr (c, ok') ↦ elim (Option-cases (set_var_no a c.loc_count s.seen)) [
      | inl bad ↦ absurd (cc (rw (ok, ok', bad, emit_local) at e))
      | inr (later, ok'') ↦
          let same : record s { buffer = c; seen = later } ≡ t =
            cc (rw (ok, ok', ok'', emit_local) at e) in
          subst (λ x. Knows s x) same (set_var_no_kept a c.loc_count s.seen later ok'')
    ]
  ]
]

-- A round ends below a measure.
abbrev pub Lower : Heap → ℕ → Round → Type 0
Lower h m (goes t) = measure h t < m
Lower h m _ = Unit

weight_less :
    (v : Value) (back_ : Bool) (rest : List (Value × Bool))
    → weight rest < weight ((v, back_) ∷ rest)
weight_less v true rest = omega arith
weight_less v false rest = omega arith

-- A frame that is popped.
pub popped :
    (h : Heap) (s t : Pickling) (v : Value) (back_ : Bool) (rest : List (Value × Bool))
    → s.stack ≡ (v, back_) ∷ rest
    → Knows s t
    → t.stack ≡ rest
    → measure h t < measure h s
unfolding measure
popped h s t v back_ rest at knows at' =
    let le = left_kept h s.seen t.seen h.next knows in
    let less = weight_less v back_ rest in
    let here = ap weight at in let there = ap weight at' in omega arith

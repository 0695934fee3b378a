-- ===== src/Pickle/Worker/Knows.antt =====
-- generic/Pickler.cc: each call of the `PickleWorker` keeps what its table knows.
use aliceml_seam.Base.{
  ℕ, ◌<◌, ◌≤◌, ◌≡◌, ◌∙◌, refl, ap, subst, arith, List, [], ◌∷◌, Option, none, some, Bool, true,
  false, length, ◌==◌, if◌then◌else◌, Bool-cases, inl, inr, ◌>>=◌,
}
use aliceml_seam.Pickle.Instr.{Instr, Tag}
use aliceml_seam.Pickle.Write.{byte, tag_number}
use aliceml_seam.Pickle.Heap.{Value, Cell, Heap, pointer, unset}
use aliceml_seam.Pickle.Heap as Cells
use aliceml_seam.Pickle.Seen.{
  Index, Entry, put, not_written, written, Pickling, simulate_push, simulate_pop,
}
use aliceml_seam.Pickle.Worker.{
  less_one, new_local, goes_if, emit, emit_local, set_written, push_words, pushed, back,
  finish_block, fulfill_block, visit_seen, size_of, block_instr, announcement,
}
use aliceml_seam.Pickle.Worker.Bound.{
  is_known, weight, parts_of, left, measure, weight-push_words, left-put, Knows, set_written-Knows,
  emit-Knows, emit_local-Knows, Lower, popped,
}

pub bind_Lower :
    (h : Heap) (m : ℕ) (x : Option Pickling) (f : Pickling → Option Pickling)
    → ((t : Pickling) → x ≡ some t → Lower h m (goes_if (f t)))
    → Lower h m (goes_if (x >>= f))
bind_Lower h m none f low = tt
bind_Lower h m (some t) f low = low t refl

bind_some :
    {A B : Type 0}
    → (x : Option A) (f : A → Option B) (b : B) → (x >>= f) ≡ some b
    → (a : A) × (x ≡ some a) × (f a ≡ some b)
bind_some none f b e = absurd (cc)
bind_some (some a) f b e = (a, refl, e)

module _ (tuple_label closure_label concrete_label transform_label : ℕ) (is_sited : ℕ → Bool)
    (abstract_of : ℕ → Option (Value × Value × ℕ)) (h : Heap) (s : Pickling) (v : Value)
    (back_ : Bool) (rest : List (Value × Bool)) (at : s.stack ≡ (v, back_) ∷ rest) where
  pub goes_if-Lower :
      (x : Option Pickling)
      → ((t : Pickling) → x ≡ some t → Knows s t)
      → Lower h (measure h s) (goes_if (do t ← x; some (record t { stack = rest })))
  goes_if-Lower none knows = tt
  goes_if-Lower (some t) knows =
      popped h s (record t { stack = rest }) v back_ rest at (knows t refl) refl

  pub pushed-Lower :
      (x : Option Pickling)
      → ((t : Pickling) → x ≡ some t → Knows s t)
      → Lower h (measure h s) (
          pushed tuple_label closure_label concrete_label transform_label is_sited abstract_of rest
            x)
  unfolding simulate_push
  pushed-Lower none knows = tt
  pushed-Lower (some t) knows =
      popped h s (simulate_push (record t { stack = rest })) v back_ rest at (knows t refl) refl

  -- The parts of a block that is new.
  pub descends :
      (a : ℕ) (e : Entry) (parts : List Value) (t : Pickling)
      → back_ ≡ false
      → s.seen a ≡ none
      → a < h.next
      → length parts ≤ parts_of (h.cells a)
      → left h t.seen h.next ≤ left h (put a e s.seen) h.next
      → t.stack ≡ push_words parts ((v, true) ∷ rest)
      → measure h t < measure h s
  unfolding measure
  descends a e parts t first new lt few le at' =
      let less = left-put h s.seen a h.next e new lt in
      let here = ap weight at ∙ ap (λ b. weight ((v, b) ∷ rest)) first in
      let there = ap weight at' ∙ weight-push_words parts ((v, true) ∷ rest) in omega arith

module _ (tuple_label closure_label concrete_label transform_label : ℕ) (is_sited : ℕ → Bool)
    (abstract_of : ℕ → Option (Value × Value × ℕ)) where
  finish_block-Knows :
      (a : ℕ) (c : Cell) (s t : Pickling)
      → finish_block tuple_label closure_label concrete_label transform_label is_sited abstract_of a
          c s
        ≡ some t
      → Knows s t
  unfolding finish_block emit simulate_pop set_written
  finish_block-Knows a (Cells.unique_string string) s t e b known =
      let (u, ok, e') = bind_some (emit Instr.unique s) (λ u. set_written a u) t e in
      set_written-Knows a u t e' b (emit-Knows Instr.unique s u ok b known)
  finish_block-Knows a (Cells.block is_mutable label args) s t e b known =
      let p =
        block_instr tuple_label closure_label concrete_label transform_label is_sited abstract_of
          is_mutable label (length args) in
      let (u, ok, e') = bind_some (emit p.0 s) (λ u. set_written a (simulate_pop p.1 u)) t e in
      set_written-Knows a (simulate_pop p.1 u) t e' b (emit-Knows p.0 s u ok b known)
  finish_block-Knows a (Cells.chunk is_mutable bytes) s t e b known = absurd (cc)
  finish_block-Knows a Cells.future s t e b known = absurd (cc)
  finish_block-Knows a (Cells.bound v) s t e b known = absurd (cc)

  fulfill_block-Knows :
      (n : ℕ) (c : Cell) (s t : Pickling)
      → fulfill_block tuple_label closure_label concrete_label transform_label is_sited abstract_of
          n c s
        ≡ some t
      → Knows s t
  unfolding fulfill_block emit simulate_pop
  fulfill_block-Knows n c s t e b known =
      let (size, _, e') =
        bind_some
          (size_of tuple_label closure_label concrete_label transform_label is_sited abstract_of c)
          (λ size. do u ← emit (Instr.fulfill n) s; some (simulate_pop (less_one size) u)) t e in
      let (u, ok, e'') =
        bind_some (emit (Instr.fulfill n) s) (λ u. some (simulate_pop (less_one size) u)) t e' in
      let same : simulate_pop (less_one size) u ≡ t = cc in
      subst (λ x. is_known (x.seen b) ≡ true) same (emit-Knows (Instr.fulfill n) s u ok b known)

  pub back-Knows :
      (a : ℕ) (c : Cell) (s t : Pickling)
      → back tuple_label closure_label concrete_label transform_label is_sited abstract_of a c s
        ≡ some t
      → Knows s t
  unfolding back
  back-Knows a c s t e =
      let (x, _, e') =
        bind_some (s.seen a)
          (λ x.
            if x.var_no == 0
            then finish_block tuple_label closure_label concrete_label transform_label is_sited
                abstract_of a c s
            else fulfill_block tuple_label closure_label concrete_label transform_label is_sited
                abstract_of x.var_no c s)
          t e in
      elim (Bool-cases (x.var_no == 0)) [
        | inl first ↦ finish_block-Knows a c s t (rw first at e')
        | inr again_ ↦ fulfill_block-Knows x.var_no c s t (rw again_ at e')
      ]

  new_local-Knows :
      (a : ℕ) (c : Cell) (i : Index) (s t : Pickling)
      → new_local tuple_label closure_label concrete_label transform_label is_sited abstract_of a c
          i s
        ≡ some t
      → Knows s t
  unfolding new_local
  new_local-Knows a c not_written s t e =
      let (ps, _, e') =
        bind_some
          (announcement tuple_label closure_label concrete_label transform_label is_sited
            abstract_of c)
          (λ ps. emit_local ps 0 a s) t e in
      emit_local-Knows ps 0 a s t e'
  new_local-Knows a c (written ref) s t e =
      emit_local-Knows (byte (tag_number Tag.load) ∷ []) ref a s t e

  pub visit_seen-Knows :
      (a : ℕ) (c : Cell) (x : Entry) (s t : Pickling)
      → visit_seen tuple_label closure_label concrete_label transform_label is_sited abstract_of a c
          x s
        ≡ some t
      → Knows s t
  unfolding visit_seen
  visit_seen-Knows a c x s t e = elim (Bool-cases (x.var_no == 0)) [
    | inl first ↦ new_local-Knows a c x.index s t (rw (first, visit_seen) at e)
    | inr again_ ↦ emit-Knows (Instr.load x.var_no) s t (rw (again_, visit_seen) at e)
  ]

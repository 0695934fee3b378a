-- ===== src/Pickle/Worker/Turns.antt =====
-- generic/Pickler.cc: what a stretch of rounds of the `PickleWorker` writes and notes.
use aliceml_seam.Base.{
  ℕ, suc, ◌+◌, ◌^◌, ◌<◌, ◌≡◌, ◌∙◌, refl, ap, ap₂, arith, List, [], ◌∷◌, ◌++◌, Option, some, Bool,
  max, inl, inr, Option-cases,
}
use aliceml_seam.Pickle.Instr.{Instr}
use aliceml_seam.Pickle.Write.{write_instr, parts}
use aliceml_seam.Pickle.Write.Reads.{Fits, write_parts-Written}
use aliceml_seam.Pickle.Output.{OutputBuffer}
use aliceml_seam.Pickle.Output.Writes.{IsValid}
use aliceml_seam.Pickle.Heap.{Value, Heap}
use aliceml_seam.Pickle.Seen.{Pickling, simulate_pop}
use aliceml_seam.Pickle.Worker.{Round, goes, less_one, again, round, run}
use aliceml_seam.Pickle.Worker.Walk.{NotIn, above}
use aliceml_seam.Pickle.Tree.Loads.{write_instrs}

-- From `s` to `u`, these instructions are written, the height grows by `n`, at most `m` above the
-- one of `s`, where 0 is none, and nothing is noted of other blocks than these.
pub record Walked (xs : List Instr) (blocks : List ℕ) (n m : ℕ) (s u : Pickling) : Type 0 where
  pub wrote : write_instrs xs s.buffer ≡ some u.buffer
  pub valid : IsValid u.buffer
  pub others : (a : ℕ) → NotIn a blocks → u.seen a ≡ s.seen a
  pub height : u.height ≡ s.height + n
  pub max_height : u.max_height ≡ max s.max_height (above s.height m)

pub write_instrs-append :
    (xs ys : List Instr) (b c : OutputBuffer)
    → write_instrs xs b ≡ some c
    → write_instrs (xs ++ ys) b ≡ write_instrs ys c
unfolding write_instrs
write_instrs-append [] ys b c e = ap (write_instrs ys) cc
write_instrs-append (x ∷ xs) ys b c e = elim (Option-cases (write_instr x b)) [
  | inl bad ↦ absurd (cc (rw (bad, write_instrs) at e))
  | inr (d, ok) ↦ rw (ok, write_instrs) (write_instrs-append xs ys d c (rw (ok, write_instrs) at e))
]

above_above :
    (i h n m l : ℕ)
    → max (max i (above h m)) (above (h + n) l) ≡ max i (above h (max m (above n l)))
unfolding above
above_above i h n m l = ground arith

pub Walked-trans :
    (xs ys : List Instr) (as_ bs cs : List ℕ) (n m k l : ℕ) (s t u : Pickling)
    → ((a : ℕ) → NotIn a cs → NotIn a as_ × NotIn a bs)
    → Walked xs as_ n m s t
    → Walked ys bs k l t u
    → Walked (xs ++ ys) cs (n + k) (max m (above n l)) s u
Walked-trans xs ys as_ bs cs n m k l s t u parts_of w x = record {
  wrote = write_instrs-append xs ys s.buffer t.buffer w.wrote ∙ x.wrote;
  valid = x.valid;
  others = λ a ni. x.others a (parts_of a ni).1 ∙ w.others a (parts_of a ni).0;
  height = omega (arith, w.height, x.height);
  max_height =
      x.max_height
      ∙ ap₂ (λ i j. max i (above j l)) w.max_height w.height
      ∙ above_above s.max_height s.height n m l;
}

-- An instruction can be written.
pub emit_written :
    (i : Instr) (s : Pickling)
    → IsValid s.buffer
    → Fits (parts i)
    → (c : OutputBuffer) × (write_instr i s.buffer ≡ some c)
      × (write_instrs (i ∷ []) s.buffer ≡ some c)
      × IsValid c
unfolding write_instrs write_instr
emit_written i s valid fits =
    let (c, e, v, w, kept) = write_parts-Written (parts i) s.buffer valid fits in
    (c, rw (e, write_instr) refl, rw (e, write_instrs, write_instr) refl, v)

-- The block of a word is replaced by the block itself.
pub less_one_popped :
    (height size : ℕ) (s : Pickling)
    → s.height ≡ height + size
    → height + max 1 size < 2 ^ 32
    → (simulate_pop (less_one size) s).height ≡ height + 1
unfolding simulate_pop
less_one_popped height size s e room = omega (arith, e, room)

module _ (tuple_label closure_label concrete_label transform_label : ℕ) (is_sited : ℕ → Bool)
    (abstract_of : ℕ → Option (Value × Value × ℕ)) (h : Heap) where
  abbrev pub turn : Pickling → Round
  turn = round tuple_label closure_label concrete_label transform_label is_sited abstract_of h

  abbrev pub runs : ℕ → Pickling → Option Round
  runs n = run tuple_label closure_label concrete_label transform_label is_sited abstract_of n h

  -- After `k` rounds, the loop is at `u`.
  abbrev pub Reaches : ℕ → Pickling → Pickling → Type 0
  Reaches k s u = (n : ℕ) → runs (k + n) s ≡ runs n u

  pub turn-Reaches : (s t : Pickling) → turn s ≡ goes t → Reaches 1 s t
  unfolding run
  turn-Reaches s t e n =
      ap (λ q. runs q s) {x = 1 + n} {y = suc n} (omega arith)
      ∙ ap
          (again tuple_label closure_label concrete_label transform_label is_sited abstract_of
            (λ u. runs n u))
          e

  pub Reaches-trans :
      (i j : ℕ) (s t u : Pickling) → Reaches i s t → Reaches j t u → Reaches (i + j) s u
  Reaches-trans i j s t u f g n =
      ap (λ q. runs q s) {x = i + j + n} {y = i + (j + n)} (omega arith) ∙ f (j + n) ∙ g n

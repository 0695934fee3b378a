-- ===== src/Pickle/Worker/Writes.antt =====
-- generic/Pickler.cc: the `PickleWorker` writes the instructions of a value without sharing.
use aliceml_seam.Base.{
  ℕ, ◌+◌, ◌^◌, ◌<◌, ◌≡◌, ◌≢◌, ◌∙◌, refl, sym, ap, subst, ap₂, arith, List, [], ◌∷◌, ◌++◌, Option,
  some, Bool, true, false, max, ltb, if◌then◌else◌,
}
use aliceml_seam.Pickle.Instr.{Instr}
use aliceml_seam.Pickle.Output.{OutputBuffer}
use aliceml_seam.Pickle.Output.Writes.{IsValid}
use aliceml_seam.Pickle.Heap.{Value, Heap}
use aliceml_seam.Pickle.Seen.{
  Seen, not_written, written, add, Pickling, simulate_push, simulate_pop,
}
use aliceml_seam.Pickle.Worker.{Round, goes, push_words}
use aliceml_seam.Pickle.Worker.Walk.{
  NotIn, Distinct, AllNew, NotIn-append, Distinct-append, AllNew-append, AllNew-kept,
  NotIn-AllNotIn, Stands, AllStand, AllStand-length, count_le_needs, Known, AllKnown, turns,
  all_turns, measured, all_measured, above,
}
use aliceml_seam.Pickle.Worker.Turns.{
  Walked, Walked-trans, emit_written, less_one_popped, turn, runs, Reaches, turn-Reaches,
  Reaches-trans, write_instrs-append,
}
use aliceml_seam.Pickle.Tree.{
  Tree, Trees, posint, negint, chunk, node, empty, more, count, code, codes, chunk_instr,
  block_instr, need, needs,
}
use aliceml_seam.Pickle.Tree.Loads.{AllFit, write_instrs}
use aliceml_seam.Pickle.Worker.Rounds.{
  put_other, add_same, add_others, finished, turn_posint, turn_negint, turn_chunk, turn_node,
  turn_back,
}

AllFit-split : (xs ys : List Instr) → AllFit (xs ++ ys) → AllFit xs × AllFit ys
unfolding AllFit
AllFit-split [] ys f = (tt, f)
AllFit-split (x ∷ xs) ys (ne, f, fs) = let (p, q) = AllFit-split xs ys fs in ((ne, f, p), q)

push_above : (m n : ℕ) → (if ltb m (n + 1) then n + 1 else m) ≡ max m (above n 1)
unfolding above
push_above m n = ground arith

-- A word without parts.
pushed_Walked :
    (i : Instr) (blocks : List ℕ) (seen : Seen) (s : Pickling) (c : OutputBuffer)
    (rest : List (Value × Bool))
    → write_instrs (i ∷ []) s.buffer ≡ some c
    → IsValid c
    → ((a : ℕ) → NotIn a blocks → seen a ≡ s.seen a)
    → Walked
        (i ∷ [])
        blocks
        1
        1
        s
        (simulate_push (record s { buffer = c; seen = seen; stack = rest }))
unfolding simulate_push
pushed_Walked i blocks seen s c rest e valid same = record {
  wrote = e;
  valid = valid;
  others = same;
  height = refl;
  max_height = push_above s.max_height s.height;
}

max_zero : (n : ℕ) → n ≡ max n 0
max_zero n = omega arith

none_Walked : (s : Pickling) (blocks : List ℕ) → IsValid s.buffer → Walked [] blocks 0 0 s s
unfolding write_instrs above
none_Walked s blocks valid = record {
  wrote = refl;
  valid = valid;
  others = λ a ni. refl;
  height = omega arith;
  max_height = max_zero s.max_height;
}

module _ (tuple_label closure_label concrete_label transform_label : ℕ) (is_sited : ℕ → Bool)
    (abstract_of : ℕ → Option (Value × Value × ℕ)) (h : Heap) where
  abbrev one_turn : Pickling → Round
  one_turn = turn tuple_label closure_label concrete_label transform_label is_sited abstract_of h

  abbrev Gets : ℕ → Pickling → Pickling → Type 0
  Gets = Reaches tuple_label closure_label concrete_label transform_label is_sited abstract_of h

  abbrev instr_of : Bool → ℕ → ℕ → Instr
  instr_of = block_instr tuple_label closure_label

  -- What the last two rounds of a block add to the walk through its parts.
  node_Walked :
      (is : List Instr) (i : Instr) (a : ℕ) (bs : List ℕ) (n m : ℕ) (s t : Pickling)
      (stack rest : List (Value × Bool)) (c : OutputBuffer)
      → Walked is bs n m (record s { seen = add a not_written s.seen; stack = stack }) t
      → s.height + max 1 n < 2 ^ 32
      → write_instrs (i ∷ []) t.buffer ≡ some c
      → IsValid c
      → Walked (is ++ (i ∷ [])) (a ∷ bs) 1 m s (finished a n c rest t)
  unfolding simulate_pop add NotIn
  node_Walked is i a bs n m s t stack rest c w room e valid = record {
    wrote = write_instrs-append is (i ∷ []) s.buffer t.buffer w.wrote ∙ e;
    valid = valid;
    others = λ b (ne, ni).
        put_other a b (record { index = written c.pos; var_no = 0 }) t.seen ne
        ∙ w.others b ni
        ∙ put_other a b (record { index = not_written; var_no = 0 }) s.seen ne;
    height = less_one_popped s.height n (record t { buffer = c }) w.height room;
    max_height = w.max_height;
  }

  turn-Gets : (s t : Pickling) → one_turn s ≡ goes t → Gets 1 s t
  turn-Gets =
      turn-Reaches tuple_label closure_label concrete_label transform_label is_sited abstract_of h

  Gets-trans : (i j : ℕ) (s t u : Pickling) → Gets i s t → Gets j t u → Gets (i + j) s u
  Gets-trans =
      Reaches-trans tuple_label closure_label concrete_label transform_label is_sited abstract_of h

  abbrev Ended : ℕ → List Instr → List ℕ → ℕ → ℕ → List (Value × Bool) → Pickling → Type 0
  Ended k is bs n m rest s = (u : Pickling) × Gets k s u × (u.stack ≡ rest) × Walked is bs n m s u

  leaf-Ended :
      (i : Instr) (blocks : List ℕ) (rest : List (Value × Bool)) (s u : Pickling)
      → one_turn s ≡ goes u
      → u.stack ≡ rest
      → Walked (i ∷ []) blocks 1 1 s u
      → Ended 1 (i ∷ []) blocks 1 1 rest s
  leaf-Ended i blocks rest s u e at w = (
    u,
    turn-Reaches tuple_label closure_label concrete_label transform_label is_sited abstract_of h s u
        e,
    at,
    w,
  )

  -- The round that notes a block, those of its parts, and the one that writes it.
  turns_of_node :
      (k : ℕ) (s t u z : Pickling)
      → one_turn s ≡ goes t
      → Gets k t u
      → one_turn u ≡ goes z
      → Gets (k + 2) s z
  turns_of_node k s t u z first parts_done last =
      subst (λ n. Gets n s z) {x = 1 + (k + 1)} (omega arith)
        (Gets-trans 1 (k + 1) s t z (turn-Gets s t first)
          (Gets-trans k 1 t u z parts_done (turn-Gets u z last)))

  mutual
    unfolding code need Stands Known Distinct AllNew AllFit turns measured simulate_push

    pub walk :
        (t : Tree) (v : Value) (as_ : List ℕ) (rest : List (Value × Bool)) (s : Pickling)
        → closure_label ≢ tuple_label
        → Stands h v t as_
        → Distinct as_
        → AllNew s.seen as_
        → Known concrete_label transform_label is_sited t
        → AllFit (code tuple_label closure_label t)
        → IsValid s.buffer
        → s.height + need t < 2 ^ 32
        → s.stack ≡ (v, false) ∷ rest
        → Ended (turns t) (code tuple_label closure_label t) as_ 1 (measured t) rest s
    walk (posint y) v as_ rest s ne (is_posint, no_blocks) d new known (_, fit, _) valid room at =
        let (c, e, w, ok) = emit_written (Instr.posint y) s valid fit in
        leaf-Ended (Instr.posint y) as_ rest s
          (simulate_push (record s { buffer = c; stack = rest }))
          (turn_posint tuple_label closure_label concrete_label transform_label is_sited abstract_of
            h v y rest s c at is_posint e)
          refl (pushed_Walked (Instr.posint y) as_ s.seen s c rest w ok (λ a ni. refl))
    walk (negint y) v as_ rest s ne (is_negint, no_blocks) d new known (_, fit, _) valid room at =
        let (c, e, w, ok) = emit_written (Instr.negint y) s valid fit in
        leaf-Ended (Instr.negint y) as_ rest s
          (simulate_push (record s { buffer = c; stack = rest }))
          (turn_negint tuple_label closure_label concrete_label transform_label is_sited abstract_of
            h v y rest s c at is_negint e)
          refl (pushed_Walked (Instr.negint y) as_ s.seen s c rest w ok (λ a ni. refl))
    walk (chunk is_mutable bs) v as_ rest s ne (a, is_pointer, cell, blocks) d new known (_, fit, _)
          valid room at =
        let (c, e, w, ok) = emit_written (chunk_instr is_mutable bs) s valid fit in
        let u =
          simulate_push
            (record s { buffer = c; seen = add a (written c.pos) s.seen; stack = rest }) in
        let new_a = subst (AllNew s.seen) blocks new in
        leaf-Ended (chunk_instr is_mutable bs) as_ rest s u
          (turn_chunk tuple_label closure_label concrete_label transform_label is_sited abstract_of
            h v a is_mutable bs rest s c at is_pointer cell new_a.0 e)
          refl
          (pushed_Walked (chunk_instr is_mutable bs) as_ (add a (written c.pos) s.seen) s c rest w
            ok (λ b ni. add_others a [] (written c.pos) s.seen b (subst (NotIn b) blocks ni)))
    walk (node is_mutable label ts) v as_ rest s ne
          (a, vs, bs, is_pointer, cell, parts_stand, blocks) d new (known, nc, nt, all_known) fit
          valid room at =
        let news = subst (AllNew s.seen) blocks new in
        let ds = subst Distinct blocks d in
        let (fits, (_, fit_block, _)) =
          AllFit-split (codes tuple_label closure_label ts)
            (instr_of is_mutable label (count ts) ∷ []) fit in
        let few = count_le_needs ts in
        let stack = push_words vs ((v, true) ∷ rest) in
        let begun = record s { seen = add a not_written s.seen; stack = stack } in
        let (u, parts_done, u_at, w) =
          walks ts vs bs ((v, true) ∷ rest) begun ne parts_stand ds.1
            (AllNew-kept s.seen begun.seen bs (a ∷ []) (NotIn-AllNotIn a bs ds.0)
              (add_others a [] not_written s.seen) news.1)
            all_known fits valid (omega arith) refl in
        let len = AllStand-length h vs ts bs parts_stand in
        let (c, e, last, ok) =
          emit_written (instr_of is_mutable label (count ts)) u w.valid fit_block in
        let noted = w.others a ds.0 ∙ add_same a not_written s.seen in
        let back_at =
          turn_back tuple_label closure_label concrete_label transform_label is_sited abstract_of h
            v a is_mutable label vs rest u c ne nc u_at is_pointer cell noted (rw len e) in
        (
          finished a (count ts) c rest u,
          turns_of_node (all_turns ts) s begun u (finished a (count ts) c rest u)
              (turn_node tuple_label closure_label concrete_label transform_label is_sited
                abstract_of h v a is_mutable label vs rest s at is_pointer cell news.0 known nc nt)
              parts_done (subst (λ n. one_turn u ≡ goes (finished a n c rest u)) len back_at),
          refl,
          subst
              (λ blocks.
                Walked (code tuple_label closure_label (node is_mutable label ts)) blocks 1
                  (all_measured ts) s (finished a (count ts) c rest u))
              (sym blocks)
              (node_Walked (codes tuple_label closure_label ts)
                (instr_of is_mutable label (count ts)) a bs (count ts) (all_measured ts) s u stack
                rest c w (omega arith) last ok),
        )

    walks :
        (ts : Trees) (vs : List Value) (as_ : List ℕ) (rest : List (Value × Bool)) (s : Pickling)
        → closure_label ≢ tuple_label
        → AllStand h vs ts as_
        → Distinct as_
        → AllNew s.seen as_
        → AllKnown concrete_label transform_label is_sited ts
        → AllFit (codes tuple_label closure_label ts)
        → IsValid s.buffer
        → s.height + needs ts < 2 ^ 32
        → s.stack ≡ push_words vs rest
        → Ended
            (all_turns ts)
            (codes tuple_label closure_label ts)
            as_
            (count ts)
            (all_measured ts)
            rest
            s
    walks empty [] as_ rest s ne e d new known fit valid room at = (
      s,
      (λ n.
          ap
            (λ q.
              runs tuple_label closure_label concrete_label transform_label is_sited abstract_of h q
                s)
            {x = 0 + n} {y = n} (omega arith)),
      at,
      none_Walked s as_ valid,
    )
    walks empty (v ∷ vs) as_ rest s ne e d new known fit valid room at = absurd e
    walks (more t ts) [] as_ rest s ne e d new known fit valid room at = absurd e
    walks (more t ts) (v ∷ vs) as_ rest s ne (bs, cs, x, y, e) d new (known, all_known) fit valid
          room at =
        let (dbs, dcs, apart) = Distinct-append bs cs (subst Distinct e d) in
        let (new_bs, new_cs) = AllNew-append s.seen bs cs (subst (AllNew s.seen) e new) in
        let (fits, fit_last) =
          AllFit-split (codes tuple_label closure_label ts) (code tuple_label closure_label t)
            fit in
        let (u, first_done, u_at, w) =
          walks ts vs cs ((v, false) ∷ rest) s ne y dcs new_cs all_known fits valid (omega arith)
            at in
        let (z, last_done, z_at, w') =
          walk t v bs rest u ne x dbs (AllNew-kept s.seen u.seen bs cs apart w.others new_bs) known
            fit_last w.valid (omega (arith, w.height)) u_at in
        (
          z,
          Gets-trans (all_turns ts) (turns t) s u z first_done last_done,
          z_at,
          subst
              (λ (p : List ℕ × ℕ).
                Walked (codes tuple_label closure_label (more t ts)) p.0 p.1
                  (all_measured (more t ts)) s z)
              {x = (bs ++ cs, count ts + 1)} (ap₂ (λ a n. (a, n)) (sym e) (omega arith))
              (Walked-trans (codes tuple_label closure_label ts) (code tuple_label closure_label t)
                cs bs (bs ++ cs) (count ts) (all_measured ts) 1 (measured t) s u z
                (λ b ni. let (p, q) = NotIn-append b bs cs ni in (q, p)) w w'),
        )

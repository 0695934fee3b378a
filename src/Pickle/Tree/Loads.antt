-- ===== src/Pickle/Tree/Loads.antt =====
-- generic/Pickler.cc and generic/Unpickler.cc: instructions that are written, and run by the loop.
use aliceml_seam.Base.{
  ℕ, suc, ◌+◌, ◌≤◌, ◌<◌, ◌≡◌, ◌≢◌, ◌∙◌, refl, ap, arith, List, [], ◌∷◌, Option, none, some, length,
  Option-cases, inl, inr,
}
use aliceml_seam.Pickle.{InputStream, commit}
use aliceml_seam.Pickle.Format.{got, run_stream}
use aliceml_seam.Pickle.Stream.{outcome, fetch_string}
use aliceml_seam.Pickle.Output.{OutputBuffer}
use aliceml_seam.Pickle.Output.Writes.{IsValid, Holds-kept}
use aliceml_seam.Pickle.Instr.{Instr, instr_format, operands, unknown}
use aliceml_seam.Pickle.Write.{Part, byte, uint, bytes, parts, write_instr}
use aliceml_seam.Pickle.Write.Reads.{
  Fits, Written, Written-le, write_parts-Written, run_stream-Parses, at, after, get_byte-at,
}
use aliceml_seam.Pickle.Write.Round.{ending, parts-Parses}
use aliceml_seam.Pickle.Heap.{Value}
use aliceml_seam.Pickle.Frame
use aliceml_seam.Pickle.Machine.{Machine, Step, next, run_instr}
use aliceml_seam.Pickle.Machine
use aliceml_seam.Pickle.Run.{Ending, loaded, run, after_fetch, after_step}
use aliceml_seam.Pickle.Tree.Builds.{and_then, run_instrs}

unfoldable pub write_instrs : List Instr → OutputBuffer → Option OutputBuffer
unfolding write_instr
write_instrs [] b = some b
write_instrs (x ∷ xs) b = elim (write_instr x b) [ none ↦ none | some c ↦ write_instrs xs c ]

unfoldable pub AllFit : List Instr → Type 0
AllFit [] = Unit
AllFit (x ∷ xs) = (x ≢ unknown) × Fits (parts x) × AllFit xs

-- The instructions stand in the buffer between two positions.
unfoldable pub AllWritten : List Instr → (ℕ → ℕ) → ℕ → ℕ → Type 0
AllWritten [] buffer i j = i ≡ j
AllWritten (x ∷ xs) buffer i j = (n : ℕ) × Written (parts x) buffer i n × AllWritten xs buffer n j

pub AllWritten-le : (xs : List Instr) (buffer : ℕ → ℕ) (i j : ℕ) → AllWritten xs buffer i j → i ≤ j
unfolding AllWritten
AllWritten-le [] buffer i j e = omega (arith, e)
AllWritten-le (x ∷ xs) buffer i j (n, w, ws) =
    let le = Written-le (parts x) buffer i n w in
    let le' = AllWritten-le xs buffer n j ws in omega arith

pub Written-kept :
    (ps : List Part) (f g : ℕ → ℕ) (i j : ℕ)
    → Written ps f i j
    → ((n : ℕ) → n < j → g n ≡ f n)
    → Written ps g i j
unfolding Written
Written-kept [] f g i j e same = e
Written-kept (byte x ∷ ps) f g i j (e, w) same =
    let le = Written-le ps f (i + 1) j w in
    (same i (omega arith) ∙ e, Written-kept ps f g (i + 1) j w same)
Written-kept (uint v ∷ ps) f g i j (bs, e, h, w) same =
    let le = Written-le ps f (i + length bs) j w in
    (
      bs,
      e,
      Holds-kept bs f g i h (λ n lt. same n (omega arith)),
      Written-kept ps f g (i + length bs) j w same,
    )
Written-kept (bytes bs ∷ ps) f g i j (h, w) same =
    let le = Written-le ps f (i + length bs) j w in
    (
      Holds-kept bs f g i h (λ n lt. same n (omega arith)),
      Written-kept ps f g (i + length bs) j w same,
    )

pub write_instrs-AllWritten :
    (xs : List Instr) (b : OutputBuffer)
    → IsValid b
    → AllFit xs
    → (c : OutputBuffer) × (write_instrs xs b ≡ some c)
      × AllWritten xs c.buffer b.pos c.pos
      × ((j : ℕ) → j < b.pos → c.buffer j ≡ b.buffer j)
unfolding write_instrs AllWritten AllFit
write_instrs-AllWritten [] b v fits = (b, refl, refl, λ j lt. refl)
write_instrs-AllWritten (x ∷ xs) b v (ne, fit, fits) =
    let (d, e, valid, w, kept) = write_parts-Written (parts x) b v fit in
    let (c, f, ws, kept') = write_instrs-AllWritten xs d valid fits in
    let le = Written-le (parts x) d.buffer b.pos d.pos w in
    (
      c,
      rw (e, write_instrs, write_instr) f,
      (d.pos, Written-kept (parts x) d.buffer c.buffer b.pos d.pos w kept', ws),
      λ j lt. kept' j (omega arith) ∙ kept j lt,
    )

abbrev pub rounds : List Instr → ℕ → ℕ
rounds [] n = n
rounds (x ∷ xs) n = suc (rounds xs n)

pub rounds_length : (xs : List Instr) (n : ℕ) → rounds xs n ≡ length xs + n
rounds_length [] n = omega arith
rounds_length (x ∷ xs) n = omega (arith, rounds_length xs n)

and_then_next :
    (f : Machine → Option Machine) (x : Step) (k : Machine)
    → and_then f x ≡ some k
    → (l : Machine) × (x ≡ next l) × (f l ≡ some k)
and_then_next f (next l) k e = (l, refl, e)
and_then_next f (Machine.loaded v l) k e = absurd (cc)
and_then_next f Machine.corrupt k e = absurd (cc)
and_then_next f Machine.broken k e = absurd (cc)

module _ (tuple_label closure_label transform_label : ℕ)
    (broker_load : List ℕ → Machine → Machine) where
  abbrev pub step : Instr → Machine → Step
  step = run_instr tuple_label closure_label transform_label broker_load

  abbrev pub run_string : ℕ → Machine → InputStream → Option Ending
  run_string =
      run tuple_label closure_label transform_label broker_load
        (λ t. some (fetch_string instr_format t))

  -- An instruction that goes on is one that is committed.
  next-committed : (i : Instr) (m l : Machine) → step i m ≡ next l → ending i ≡ got i
  unfolding run_instr
  next-committed Instr.init m l e = absurd (cc)
  next-committed Instr.end_of_stream m l e = elim (Option-cases (Frame.load 0 m.frame)) [
    | inl bad ↦ absurd (cc (rw bad at e))
    | inr (v, ok) ↦ absurd (cc (rw ok at e))
  ]
  next-committed Instr.unknown m l e = absurd (cc)
  next-committed Instr.unique m l e = refl
  next-committed Instr.transform m l e = refl
  next-committed (Instr.store x) m l e = refl
  next-committed (Instr.load x) m l e = refl
  next-committed (Instr.posint x) m l e = refl
  next-committed (Instr.negint x) m l e = refl
  next-committed (Instr.fulfill x) m l e = refl
  next-committed (Instr.chunk x) m l e = refl
  next-committed (Instr.mchunk x) m l e = refl
  next-committed (Instr.block x y) m l e = refl
  next-committed (Instr.mblock x y) m l e = refl
  next-committed (Instr.tuple x) m l e = refl
  next-committed (Instr.closure x) m l e = refl
  next-committed (Instr.a_block x y z) m l e = refl
  next-committed (Instr.a_mblock x y z) m l e = refl
  next-committed (Instr.a_tuple x y) m l e = refl
  next-committed (Instr.a_closure x y) m l e = refl
  next-committed (Instr.a_transform x) m l e = refl

  run_step :
      (i : Instr) (n : ℕ) (m l : Machine) (s t : InputStream)
      → run_stream instr_format s ≡ (got i, t)
      → step i m ≡ next l
      → run_string (suc n) m s ≡ run_string n l t
  unfolding run fetch_string
  run_step i n m l s t e f =
      ap
        (λ p.
          after_fetch tuple_label closure_label transform_label broker_load
            (λ k u. run_string n k u) m (some (outcome p.0, p.1)))
        e
      ∙ ap (after_step (λ k. run_string n k t)) f

  pub run_written :
      (xs : List Instr) (n : ℕ) (m k : Machine) (buffer : ℕ → ℕ) (i j tl : ℕ)
      → AllWritten xs buffer i j
      → AllFit xs
      → j < tl
      → run_instrs tuple_label closure_label transform_label broker_load xs m ≡ some k
      → run_string (rounds xs n) m (at buffer i tl i) ≡ run_string n k (at buffer j tl j)
  unfolding AllWritten AllFit run_instrs commit
  run_written [] n m k buffer i j tl w fits lt e = let same : m ≡ k = cc in rw (w, same) refl
  run_written (x ∷ xs) n m k buffer i j tl (a, w, ws) (ne, fit, fits) lt e =
      let (l, f, g) = and_then_next _ (step x m) k e in
      let le = AllWritten-le xs buffer a j ws in
      let committed = next-committed x m l f in
      let read : run_stream instr_format (at buffer i tl i) ≡ (got x, at buffer a tl a) =
        run_stream-Parses buffer i tl instr_format (parts x) (ending x) i a (parts-Parses x ne) fit
          w (omega arith)
        ∙ ap (λ r. (r, after buffer i tl r a)) committed in
      run_step x (rounds xs n) m l (at buffer i tl i) (at buffer a tl a) read f
      ∙ run_written xs n l k buffer a j tl ws fits lt g

  -- The end of the pickle.
  pub run_end :
      (n : ℕ) (m : Machine) (buffer : ℕ → ℕ) (i tl : ℕ) (v : Value)
      → buffer i ≡ 19
      → i < tl
      → Frame.load 0 m.frame ≡ some v
      → run_string (suc n) m (at buffer i tl i) ≡ some (loaded v m)
  unfolding run fetch_string run_stream instr_format operands run_instr
  run_end n m buffer i tl v e lt ok = rw (get_byte-at buffer i tl i lt, e, ok) refl

-- ===== src/Pickle/Run/Ends.antt =====
-- generic/Unpickler.cc: each instruction that is committed reads a byte, so the loop ends.
use aliceml_seam.Base.{
  ℕ, zero, suc, ◌+◌, ◌-◌, ◌≤◌, ◌<◌, ◌≡◌, refl, arith, List, Option, some, Bool-cases, inl, inr,
  subst, get_elem?, false, tabulate, ◌∙◌, leb, ◌^◌, ◌%◌, ◌*◌,
}
use aliceml_seam.Pickle.{
  InputStream, Read, number, end_of_buffer, out_of_range, bad_shift, get_byte, get_bytes, get_loop,
  get_uint, commit, int_precision,
}
use aliceml_seam.Pickle.Format.{
  Format, done, finish, byte, uint, chunk, Got, got, ended, starved, failed, run_stream, after_uint,
}
use aliceml_seam.Pickle.Stream.{outcome, fetch_string}
use aliceml_seam.Pickle.Instr.{Instr, operands, tags, instr_format}
use aliceml_seam.Pickle.Machine.{Machine, Step, next, run_instr}
use aliceml_seam.Pickle.Machine
use aliceml_seam.Pickle.Run.{
  Ending, loaded, corrupt, broken, run, after_step, last_step, after_fetch,
}

-- What is read up to lies between where it was and the end of the buffer.
record Further (s t : InputStream) : Type 0 where
  pub further : s.rd ≤ t.rd
  pub inside : t.rd ≤ t.tl
  pub same_tl : t.tl ≡ s.tl

Further-trans : (s t u : InputStream) → Further s t → Further t u → Further s u
Further-trans s t u a b = record {
  further = omega (arith, a.further, b.further);
  inside = b.inside;
  same_tl = b.same_tl ∙ a.same_tl;
}

get_byte-Further : (s : InputStream) → s.rd ≤ s.tl → Further s (get_byte s).1
unfolding get_byte
get_byte-Further s le = elim (Bool-cases (leb s.tl s.rd)) [
  | inl out ↦ rw out (record { further = omega arith; inside = le; same_tl = refl })
  | inr room ↦ rw room (record { further = omega arith; inside = ground arith; same_tl = refl })
]

get_byte_advances : (s : InputStream) → (get_byte s).1.eob ≡ false → s.rd < (get_byte s).1.rd
unfolding get_byte
get_byte_advances s e = ground arith

get_bytes-Further : (n : ℕ) (s : InputStream) → s.rd ≤ s.tl → Further s (get_bytes n s)
unfolding get_bytes
get_bytes-Further n s le = elim (Bool-cases (leb s.tl (s.rd + n))) [
  | inl out ↦ rw out (record { further = omega arith; inside = le; same_tl = refl })
  | inr room ↦ rw room (record { further = omega arith; inside = ground arith; same_tl = refl })
]

get_loop-Further :
    (n shift value : ℕ) (s : InputStream) → s.rd ≤ s.tl → Further s (get_loop n shift value s).1
unfolding get_loop
get_loop-Further zero shift value s le = elim (Bool-cases (get_byte s).1.eob) [
  | inl out ↦ rw out (get_byte-Further s le)
  | inr room ↦ rw room (get_byte-Further s le)
]
get_loop-Further (suc n) shift value s le =
    let b = (get_byte s).0 in
    let step = get_byte-Further s le in
    elim (Bool-cases (get_byte s).1.eob) [
      | inl out ↦ rw out step
      | inr room ↦ elim (Bool-cases (leb (2 ^ (int_precision - shift)) (b % 2 ^ 7))) [
        | inl big ↦ rw (room, big) step
        | inr fits ↦ elim (Bool-cases (leb 0x80 b)) [
          | inl more ↦
              rw (room, fits, more)
                (Further-trans _ _ _ step (
                  get_loop-Further n (shift + 7) (value + b % 2 ^ 7 * 2 ^ shift) (get_byte s).1
                    step.inside))
          | inr last ↦ rw (room, fits, last) step
        ]
      ]
    ]

module _ {A : Type 0} where
  unfoldable FurtherIf : InputStream → Got A × InputStream → Type 0
  FurtherIf s (got a, t) = Further s t
  FurtherIf s x = Unit

  FurtherIf-trans :
      (s t : InputStream) → Further s t → (x : Got A × InputStream) → FurtherIf t x → FurtherIf s x
  unfolding FurtherIf
  FurtherIf-trans s t a (got v, u) b = Further-trans s t u a b
  FurtherIf-trans s t a (ended v, u) b = tt
  FurtherIf-trans s t a (starved, u) b = tt
  FurtherIf-trans s t a (failed, u) b = tt

  after_uint-Further :
      (f : ℕ → InputStream → Got A × InputStream)
      → ((x : ℕ) (t : InputStream) → t.rd ≤ t.tl → FurtherIf t (f x t))
      → (s : InputStream) (x : Read × InputStream) → Further s x.1
      → FurtherIf s (after_uint f x)
  unfolding FurtherIf
  after_uint-Further f rec s (number v, t) a = FurtherIf-trans s t a (f v t) (rec v t a.inside)
  after_uint-Further f rec s (end_of_buffer, t) a = tt
  after_uint-Further f rec s (out_of_range, t) a = tt
  after_uint-Further f rec s (bad_shift, t) a = tt

  run_stream-Further : (f : Format A) (s : InputStream) → s.rd ≤ s.tl → FurtherIf s (run_stream f s)
  unfolding run_stream get_uint FurtherIf commit
  run_stream-Further (done a) s le = record { further = omega arith; inside = le; same_tl = refl }
  run_stream-Further (finish a) s le = tt
  run_stream-Further (byte f) s le = elim (Bool-cases (get_byte s).1.eob) [
    | inl out ↦ rw out tt
    | inr room ↦ rw room (
        let step = get_byte-Further s le in
        FurtherIf-trans s _ step _
          (run_stream-Further (f (get_byte s).0) (get_byte s).1 step.inside))
  ]
  run_stream-Further (uint f) s le =
      after_uint-Further (λ x t. run_stream (f x) t) (λ x t h. run_stream-Further (f x) t h) s
        (get_uint s) (get_loop-Further 5 0 0 s le)
  run_stream-Further (chunk n f) s le = elim (Bool-cases (get_bytes n s).eob) [
    | inl out ↦ rw out tt
    | inr room ↦ rw room (
        let step = get_bytes-Further n s le in
        FurtherIf-trans s _ step _ (
          run_stream-Further (f (tabulate n (λ i. s.buffer (s.rd + i)))) (get_bytes n s)
            step.inside))
  ]

  byte-advances :
      (f : ℕ → Format A) (s t : InputStream) (a : A)
      → s.rd ≤ s.tl
      → run_stream (byte f) s ≡ (got a, t)
      → (s.rd < t.rd) × (t.rd ≤ t.tl) × (t.tl ≡ s.tl)
  unfolding run_stream FurtherIf
  byte-advances f s t a le e = elim (Bool-cases (get_byte s).1.eob) [
    | inl out ↦ absurd (cc (rw out at e))
    | inr room ↦
        let one = get_byte_advances s room in
        let step = get_byte-Further s le in
        let more = run_stream-Further (f (get_byte s).0) (get_byte s).1 step.inside in
        let rest : Further (get_byte s).1 t =
          subst (FurtherIf (get_byte s).1) (rw room at e) more in
        (omega (arith, rest.further), rest.inside, rest.same_tl ∙ step.same_tl)
  ]

module _ (tuple_label closure_label transform_label : ℕ)
    (broker_load : List ℕ → Machine → Machine) where
  after_step-some :
      (rest : Machine → Option Ending)
      → ((k : Machine) → (e : Ending) × (rest k ≡ some e))
      → (x : Step) → (e : Ending) × (after_step rest x ≡ some e)
  after_step-some rest h (next k) = h k
  after_step-some rest h (Machine.loaded v k) = (loaded v k, refl)
  after_step-some rest h Machine.corrupt = (corrupt, refl)
  after_step-some rest h Machine.broken = (broken, refl)

  last_step-some : (x : Step) → (e : Ending) × (last_step x ≡ some e)
  last_step-some (next k) = (broken, refl)
  last_step-some (Machine.loaded v k) = (loaded v k, refl)
  last_step-some Machine.corrupt = (corrupt, refl)
  last_step-some Machine.broken = (broken, refl)

  after_fetch-some :
      (rest : Machine → InputStream → Option Ending) (m : Machine) (x : Got Instr × InputStream)
      → ((k : Machine) (i : Instr) (t : InputStream)
          → x ≡ (got i, t)
          → (e : Ending) × (rest k t ≡ some e))
      → (e : Ending) × (after_fetch tuple_label closure_label transform_label broker_load rest m
            (some (outcome x.0, x.1))
          ≡ some e)
  after_fetch-some rest m (got i, t) h =
      after_step-some (λ k. rest k t) (λ k. h k i t refl)
        (run_instr tuple_label closure_label transform_label broker_load i m)
  after_fetch-some rest m (ended i, t) h =
      last_step-some (run_instr tuple_label closure_label transform_label broker_load i m)
  after_fetch-some rest m (starved, t) h = (corrupt, refl)
  after_fetch-some rest m (failed, t) h = (broken, refl)

  -- On a string that is read up to a place within it, the loop of the UnpickleWorker ends within
  -- one more round than there are bytes left, whatever the bytes are.
  pub run_string_ends :
      (n : ℕ) (m : Machine) (w : InputStream)
      → w.rd ≤ w.tl
      → w.tl - w.rd < n
      → (e : Ending) × (run tuple_label closure_label transform_label broker_load
            (λ t. some (fetch_string instr_format t))
            n
            m
            w
          ≡ some e)
  unfolding run fetch_string instr_format
  run_string_ends zero m w le lt = absurd (omega arith)
  run_string_ends (suc n) m w le lt = after_fetch-some _ m (run_stream instr_format w) (λ k i t e.
      let (one, inside, same) = byte-advances (λ tag. operands (get_elem? tags tag)) w t i le e in
      run_string_ends n k t inside (omega arith))

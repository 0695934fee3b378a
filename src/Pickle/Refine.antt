-- ===== src/Pickle/Refine.antt =====
-- generic/Unpickler.cc: what is read does not depend on how much of the file the buffer holds.
pub mod Buffer
use aliceml_seam.Base.{
  ℕ, zero, suc, ◌+◌, ◌-◌, ◌*◌, ◌^◌, ◌%◌, ◌≤◌, ◌<◌, ◌≡◌, ◌≢◌, ◌∙◌, refl, sym, ap, arith, List, Bool,
  true, false, ltb, leb, tabulate, tabulate_congr, if◌then◌else◌, Bool-cases, inl, inr, ◌==◌,
}
use aliceml_seam.Pickle.{
  InputStream, Read, number, end_of_buffer, out_of_range, bad_shift, get_byte, get_bytes, get_loop,
  get_uint, commit, int_precision,
}
use aliceml_seam.Pickle.Format.{
  Format, done, finish, byte, uint, chunk, Got, got, ended, starved, failed, run_stream, after_uint,
}
use aliceml_seam.Pickle.Refine.Buffer.{
  Sees, Keeps, Keeps-trans, get_byte-Keeps, get_bytes-Keeps, get_loop-Keeps, get_byte_lt,
  get_bytes_lt, same_byte, get_byte-Sees, get_bytes-Sees, get_byte_end, get_bytes_end, commit-Sees,
  LoopSees, get_loop-Sees, get_loop_end,
}

module _ (k : ℕ) {A : Type 0} where
  unfoldable pub FormatSees : Got A × InputStream → Got A × InputStream → Type 0
  FormatSees (got a, t) (q, u) = (q ≡ got a) × Sees k t u
  FormatSees (ended a, t) (q, u) = q ≡ ended a
  FormatSees (starved, t) (q, u) = Unit
  FormatSees (failed, t) (q, u) = q ≡ failed

  after_uint-Sees :
      (f : ℕ → InputStream → Got A × InputStream)
      → ((x : ℕ) (t u : InputStream) → Sees k t u → FormatSees (f x t) (f x u))
      → (x y : Read × InputStream) → LoopSees k x y
      → FormatSees (after_uint f x) (after_uint f y)
  unfolding LoopSees FormatSees
  after_uint-Sees f rec (number v, t) (q, u) (e, later) = rw e (rec v t u later)
  after_uint-Sees f rec (end_of_buffer, t) (q, u) h = tt
  after_uint-Sees f rec (out_of_range, t) (q, u) e = rw e refl
  after_uint-Sees f rec (bad_shift, t) (q, u) e = rw e refl

  pub run_stream-Sees :
      (f : Format A) (s w : InputStream) → Sees k s w → FormatSees (run_stream f s) (run_stream f w)
  unfolding run_stream FormatSees get_uint
  run_stream-Sees (done a) s w v = (refl, commit-Sees k s w v)
  run_stream-Sees (finish a) s w v = refl
  run_stream-Sees (byte f) s w v = elim (Bool-cases (get_byte s).1.eob) [
    | inl out ↦ rw out tt
    | inr room ↦
        let (same, later) = get_byte-Sees k s w v room in
        rw (room, later.more_w, same) (run_stream-Sees (f (get_byte s).0) _ _ later)
  ]
  run_stream-Sees (uint f) s w v =
      after_uint-Sees (λ x t. run_stream (f x) t) (λ x t u later. run_stream-Sees (f x) t u later)
        (get_uint s) (get_uint w) (get_loop-Sees k 5 0 0 s w v)
  run_stream-Sees (chunk n f) s w v = elim (Bool-cases (get_bytes n s).eob) [
    | inl out ↦ rw out tt
    | inr room ↦
        let lt = get_bytes_lt n s room in
        let same : tabulate n (λ i. w.buffer (w.rd + i)) ≡ tabulate n (λ i. s.buffer (s.rd + i)) =
          tabulate_congr n _ _ (λ i p. same_byte k s w i v (omega arith)) in
        let later = get_bytes-Sees k n s w v room in
        rw (room, later.more_w, same)
          (run_stream-Sees (f (tabulate n (λ i. s.buffer (s.rd + i)))) _ _ later)
  ]

  after_uint_end :
      (f : ℕ → InputStream → Got A × InputStream)
      → ((x : ℕ) (t u : InputStream)
          → Sees k t u
          → t.tl + k ≡ u.tl
          → (f x t).0 ≡ starved
          → (f x u).0 ≡ starved)
      → (x y : Read × InputStream) → LoopSees k x y
      → (x.0 ≡ end_of_buffer → y.0 ≡ end_of_buffer)
      → x.1.tl + k ≡ y.1.tl
      → (after_uint f x).0 ≡ starved
      → (after_uint f y).0 ≡ starved
  unfolding LoopSees
  after_uint_end f rec (number v, t) (q, u) (e, later) ends full h = rw e (rec v t u later full h)
  after_uint_end f rec (end_of_buffer, t) (q, u) l ends full h = rw (ends refl) refl
  after_uint_end f rec (out_of_range, t) (q, u) e ends full h = absurd (cc)
  after_uint_end f rec (bad_shift, t) (q, u) e ends full h = absurd (cc)

  -- At the end of the file both have the same bytes left.
  pub run_stream_end :
      (f : Format A) (s w : InputStream)
      → Sees k s w
      → s.tl + k ≡ w.tl
      → (run_stream f s).0 ≡ starved
      → (run_stream f w).0 ≡ starved
  unfolding run_stream get_uint
  run_stream_end (done a) s w v full e = absurd (cc)
  run_stream_end (finish a) s w v full e = absurd (cc)
  run_stream_end (byte f) s w v full e = elim (Bool-cases (get_byte s).1.eob) [
    | inl out ↦ rw (get_byte_end k s w v full out) refl
    | inr room ↦
        let (same, later) = get_byte-Sees k s w v room in
        rw (later.more_w, same)
          (run_stream_end (f (get_byte s).0) _ _ later
            (ap (λ t. t + k) (get_byte-Keeps s).same_tl ∙ full ∙ sym (get_byte-Keeps w).same_tl)
            (rw room at e))
  ]
  run_stream_end (uint f) s w v full e =
      after_uint_end (λ x t. run_stream (f x) t)
        (λ x t u later fl h. run_stream_end (f x) t u later fl h) (get_uint s) (get_uint w)
        (get_loop-Sees k 5 0 0 s w v) (get_loop_end k 5 0 0 s w v full)
        (ap (λ t. t + k) (get_loop-Keeps 5 0 0 s).same_tl
          ∙ full
          ∙ sym (get_loop-Keeps 5 0 0 w).same_tl)
        e
  run_stream_end (chunk n f) s w v full e = elim (Bool-cases (get_bytes n s).eob) [
    | inl out ↦ rw (get_bytes_end k n s w v full out) refl
    | inr room ↦
        let lt = get_bytes_lt n s room in
        let same : tabulate n (λ i. w.buffer (w.rd + i)) ≡ tabulate n (λ i. s.buffer (s.rd + i)) =
          tabulate_congr n _ _ (λ i p. same_byte k s w i v (omega arith)) in
        let later = get_bytes-Sees k n s w v room in
        rw (later.more_w, same)
          (run_stream_end (f (tabulate n (λ i. s.buffer (s.rd + i)))) _ _ later
            (ap (λ t. t + k) (get_bytes-Keeps n s).same_tl
              ∙ full
              ∙ sym (get_bytes-Keeps n w).same_tl)
            (rw room at e))
  ]

-- What a read does to the stream besides its result: what is committed ends where it is read up to,
-- and a read that found the end of the buffer committed nothing.
pub record Commits (s t : InputStream) : Type 0 where
  pub same_buffer : t.buffer ≡ s.buffer
  pub same_tl : t.tl ≡ s.tl
  pub at_rd : t.rd ≡ t.hd

module _ {A : Type 0} where
  unfoldable pub After : InputStream → Got A × InputStream → Type 0
  After s (got a, t) = Commits s t
  After s (ended a, t) = Unit
  After s (starved, t) = Keeps s t
  After s (failed, t) = Unit

  After-trans : (s t : InputStream) → Keeps s t → (x : Got A × InputStream) → After t x → After s x
  unfolding After
  After-trans s t kept (got a, u) h = record {
    same_buffer = h.same_buffer ∙ kept.same_buffer;
    same_tl = h.same_tl ∙ kept.same_tl;
    at_rd = h.at_rd;
  }
  After-trans s t kept (ended a, u) h = tt
  After-trans s t kept (starved, u) h = Keeps-trans s t u kept h
  After-trans s t kept (failed, u) h = tt

  after_uint-After :
      (f : ℕ → InputStream → Got A × InputStream)
      → ((x : ℕ) (t : InputStream) → After t (f x t))
      → (s : InputStream) (x : Read × InputStream) → Keeps s x.1
      → After s (after_uint f x)
  unfolding After
  after_uint-After f rec s (number v, t) kept = After-trans s t kept (f v t) (rec v t)
  after_uint-After f rec s (end_of_buffer, t) kept = kept
  after_uint-After f rec s (out_of_range, t) kept = tt
  after_uint-After f rec s (bad_shift, t) kept = tt

  pub run_stream-After : (f : Format A) (s : InputStream) → After s (run_stream f s)
  unfolding run_stream get_uint After commit
  run_stream-After (done a) s = record { same_buffer = refl; same_tl = refl; at_rd = refl }
  run_stream-After (finish a) s = tt
  run_stream-After (byte f) s = elim (Bool-cases (get_byte s).1.eob) [
    | inl out ↦ rw out (get_byte-Keeps s)
    | inr room ↦
        rw room (
          After-trans s _ (get_byte-Keeps s) _ (run_stream-After (f (get_byte s).0) (get_byte s).1))
  ]
  run_stream-After (uint f) s =
      after_uint-After (λ x t. run_stream (f x) t) (λ x t. run_stream-After (f x) t) s (get_uint s)
        (get_loop-Keeps 5 0 0 s)
  run_stream-After (chunk n f) s = elim (Bool-cases (get_bytes n s).eob) [
    | inl out ↦ rw out (get_bytes-Keeps n s)
    | inr room ↦ rw room (
        After-trans s _ (get_bytes-Keeps n s) _
          (run_stream-After (f (tabulate n (λ i. s.buffer (s.rd + i)))) (get_bytes n s)))
  ]

-- ===== src/Pickle/Stream/Whole.antt =====
-- generic/Unpickler.cc: loading a file in pieces reads what unpacking the whole of it reads.
use aliceml_seam.Base.{
  ℕ, zero, suc, ◌-◌, ◌<◌, ◌≡◌, refl, ap, subst, arith, ◌==◌, Bool-cases, inl, inr, ==→≡, ==_ne,
  Option, none, some,
}
use aliceml_seam.Pickle.{InputStream}
use aliceml_seam.Pickle.Format.{Format, Got, got, ended, starved, failed, run_stream}
use aliceml_seam.Pickle.Refine.Buffer.{Keeps}
use aliceml_seam.Pickle.Refine.{
  After, run_stream-After, FormatSees, run_stream-Sees, run_stream_end,
}
use aliceml_seam.Pickle.Stream.{
  File, FileStream, make_room, receive, free_space, Fetched, fetched, finished, corrupt, broken,
  io_error, outcome, after_round, fetch_string, fetch_file,
}
use aliceml_seam.Pickle.Stream.Follows.{
  Delivers, Ready, make_room-Follows, make_room_free, make_room_offset, make_room_starts,
  make_room_more, receive-Follows, Ready-Sees, fetched-Ready, starved_Follows, no_bytes_at_end,
}

module _ {A : Type 0} (file : File) where
  -- The reads end in the same way and with the same value, and after a value that is committed the
  -- streams are at the same place again.
  unfoldable pub Same : Option (Fetched A × FileStream) → Fetched A × InputStream → Type 0
  Same none y = ⊥
  Same (some (fetched a, s)) (q, w) = (q ≡ fetched a) × Ready file s w
  Same (some (finished a, s)) (q, w) = q ≡ finished a
  Same (some (corrupt, s)) (q, w) = q ≡ corrupt
  Same (some (io_error, s)) (q, w) = ⊥
  Same (some (broken, s)) (q, w) = q ≡ broken

  after_round-Same :
      (s : FileStream) (w : InputStream) (r : Ready file s w)
      (fill : Option (Fetched A × FileStream)) (x y : Got A × InputStream)
      → FormatSees r.follows.base x y
      → After s.input x
      → After w y
      → (Keeps s.input x.1 → x.0 ≡ starved → Same fill (outcome y.0, y.1))
      → Same (after_round fill s x) (outcome y.0, y.1)
  unfolding Same FormatSees After
  after_round-Same s w r fill (got a, t) (q, u) (e, seen) c d h =
      (ap outcome e, fetched-Ready file s w r t u c (subst (λ g. After w (g, u)) e d) seen)
  after_round-Same s w r fill (ended a, t) (q, u) e c d h = ap outcome e
  after_round-Same s w r fill (starved, t) y e c d h = h c refl
  after_round-Same s w r fill (failed, t) (q, u) e c d h = ap outcome e

  module _ (good : Delivers file) where
    -- If gzread keeps to its documentation and a file stream holds a part of a string, any
    -- sequence of reads on the file, filling the buffer and starting again at the committed
    -- position, ends within one more fill than there are bytes left in the file, in the way and
    -- with the value of the reads on the string; after a value that is committed the file stream
    -- holds a part of what is left of the string.
    pub fetch_file-Same :
        (fuel : ℕ) (f : Format A) (s : FileStream) (w : InputStream)
        → Ready file s w
        → file.length - s.offset < fuel
        → Same (fetch_file fuel file f s) (fetch_string f w)
    unfolding fetch_file fetch_string Same receive
    fetch_file-Same zero f s w r lt = absurd (omega (arith))
    fetch_file-Same (suc fuel) f s w r lt =
        after_round-Same s w r _ (run_stream f s.input) (run_stream f w)
          (run_stream-Sees r.follows.base f s.input w (Ready-Sees file s w r))
          (run_stream-After f s.input) (run_stream-After f w)
          (λ kept e.
            let t = (run_stream f s.input).1 in
            let old = starved_Follows file s w r t kept in
            let ready = make_room (record s { input = t }) in
            let v = make_room-Follows file (record s { input = t }) w old in
            let free = make_room_free file (record s { input = t }) w old in
            let n = good.count ready.offset (free_space ready) in
            rw (good.no_error ready.offset (free_space ready)) (elim (Bool-cases (n == 0)) [
              | inl none_left ↦ rw none_left (
                  let at_end =
                    no_bytes_at_end file good ready (==→≡ n 0 none_left) free
                      (omega (arith, v.within, v.whole)) in
                  let same_offset = make_room_offset file (record s { input = t }) w old in
                  ap outcome (
                    run_stream_end r.follows.base f s.input w (Ready-Sees file s w r)
                      (omega (arith, r.follows.read_to, r.follows.whole)) e))
              | inr more ↦ rw more (
                  let left =
                    good.no_more ready.offset (free_space ready)
                      (omega (arith, v.within, v.whole)) in
                  let same_offset = make_room_offset file (record s { input = t }) w old in
                  let some_read = ==_ne n 0 more in
                  fetch_file-Same fuel f (receive file n ready) w
                    (record {
                      follows =
                          receive-Follows file ready w v n left
                            (good.wanted ready.offset (free_space ready));
                      starts = make_room_starts file (record s { input = t }) w old;
                      more = make_room_more file (record s { input = t }) w old;
                    })
                    (omega arith))
            ]))

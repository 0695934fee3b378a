-- ===== src/Pickle/Format.antt =====
-- generic/Unpickler.cc: reading with the checks for the end of the buffer. What an instruction reads
-- is described once, as a tree of reads, and run on the input stream or on a list of bytes.
use aliceml_seam.Base.{ℕ, ◌+◌, List, tabulate, if◌then◌else◌}
use aliceml_seam.Pickle.{
  InputStream, Read, number, end_of_buffer, out_of_range, bad_shift, get_byte, get_bytes, get_uint,
  commit,
}

-- `done` commits what was read, `finish` does not.
pub data Format (A : Type 0) : Type 0 where
  done finish : A → Format A
  byte uint : (ℕ → Format A) → Format A
  chunk : ℕ → (List ℕ → Format A) → Format A

-- What becomes of a read: a result with its bytes committed or not, the end of the buffer, or
-- `Error`.
pub data Got (A : Type 0) : Type 0 where
  got ended : A → Got A
  starved failed : Got A

module _ {A : Type 0} where
  -- What follows a number, and what a number that is not there comes to.
  abbrev pub after_uint :
      (ℕ → InputStream → Got A × InputStream) → Read × InputStream → Got A × InputStream
  after_uint k (number v, t) = k v t
  after_uint k (end_of_buffer, t) = (starved, t)
  after_uint k (out_of_range, t) = (failed, t)
  after_uint k (bad_shift, t) = (failed, t)

  -- The reads in their order; each is followed by `NCHECK_EOB`.
  unfoldable pub run_stream : Format A → InputStream → Got A × InputStream
  unfolding get_byte get_uint get_bytes commit
  run_stream (done a) s = (got a, commit s)
  run_stream (finish a) s = (ended a, s)
  run_stream (byte k) s =
      let (b, t) = get_byte s in
      let rest = run_stream (k b) t in if t.eob then (starved, t) else rest
  run_stream (uint k) s = after_uint (λ v t. run_stream (k v) t) (get_uint s)
  run_stream (chunk n k) s =
      let t = get_bytes n s in
      let rest = run_stream (k (tabulate n (λ i. s.buffer (s.rd + i)))) t in
      if t.eob then (starved, t) else rest

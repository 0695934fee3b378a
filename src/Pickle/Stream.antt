-- ===== src/Pickle/Stream.antt =====
-- generic/Unpickler.cc: the buffer of an input stream, filled from a file or complete from the start,
-- and a read that is repeated after the buffer was filled.
pub mod Follows
pub mod Whole
use aliceml_seam.Base.{
  ℕ, zero, suc, ◌+◌, ◌-◌, ◌*◌, Bool, true, false, ltb, leb, ◌==◌, if◌then◌else◌, Option, none, some,
}
use aliceml_seam.Pickle.{InputStream}
use aliceml_seam.Pickle.Format.{Format, Got, got, ended, starved, failed, run_stream}

-- The content of the file, uncompressed, and `gzread`, which the library defines: at an offset of the
-- file and for a number of bytes that are wanted, the number of bytes that it delivers, or `none`
-- for a negative result.
pub record File : Type 0 where
  pub bytes : ℕ → ℕ
  pub length : ℕ
  pub gzread : ℕ → ℕ → Option ℕ

-- `input` with the size of its buffer, and the offset up to which the file is read.
pub record FileStream : Type 0 where
  pub input : InputStream
  pub size : ℕ
  pub offset : ℕ

abbrev pub read_buffer_size : ℕ
read_buffer_size = 8192

abbrev read_buffer_overshoot : ℕ
read_buffer_overshoot = 20

-- `NewFromFile` on a file that is open.
unfoldable pub new_from_file : FileStream
new_from_file = record {
  input = record { buffer = λ _. 0; hd = 0; rd = 0; tl = 0; eob = false };
  size = read_buffer_size + read_buffer_overshoot;
  offset = 0;
}

-- `NewFromString`
unfoldable pub new_from_string : (ℕ → ℕ) → ℕ → InputStream
new_from_string bytes n = record { buffer = bytes; hd = 0; rd = 0; tl = n; eob = false }

-- The first part of `FillBuffer`: the bytes that are not committed are moved to the front, or the
-- buffer grows, or the end of it is free. Reads that are not committed are undone.
unfoldable pub make_room : FileStream → FileStream
make_room s =
    let i = s.input in
    if ltb 0 i.hd
    then record s {
      input = record {
        buffer = λ j. if ltb j (i.tl - i.hd) then i.buffer (i.hd + j) else i.buffer j;
        hd = 0;
        rd = 0;
        tl = i.tl - i.hd;
        eob = false;
      };
    }
    else record s {
      input = record i { rd = i.hd; eob = false };
      size = if i.tl == s.size then s.size + read_buffer_size else s.size;
    }

-- The second part, with the number of bytes that `gzread` delivers.
unfoldable pub receive : File → ℕ → FileStream → FileStream
receive file n s =
    let i = s.input in
    record s {
      input = record i {
        buffer = λ j.
            if leb i.tl j
            then (if ltb j (i.tl + n) then file.bytes (s.offset + (j - i.tl)) else i.buffer j)
            else i.buffer j;
        tl = i.tl + n;
      };
      offset = s.offset + n;
    }

-- The bytes that `gzread` is asked for.
unfoldable pub free_space : FileStream → ℕ
free_space s = s.size - s.input.tl

-- What a read comes to: with its bytes committed or not, `Unpickler::Corrupt`, `Pickler::IOError`, or
-- `Error`.
pub data Fetched (A : Type 0) : Type 0 where
  fetched finished : A → Fetched A
  corrupt io_error broken : Fetched A

module _ {A : Type 0} where
  abbrev pub outcome : Got A → Fetched A
  outcome (got a) = fetched a
  outcome (ended a) = finished a
  outcome starved = corrupt
  outcome failed = broken

  -- A read from a string: at its end, `FillBuffer` raises `Corrupt`.
  unfoldable pub fetch_string : Format A → InputStream → Fetched A × InputStream
  unfolding run_stream
  fetch_string f w = let (r, t) = run_stream f w in (outcome r, t)

  -- The end of `FillBuffer`: `rest` is what comes after a fill of some bytes.
  abbrev pub filled :
      (ℕ → Option (Fetched A × FileStream))
      → FileStream
      → Option ℕ
      → Option (Fetched A × FileStream)
  filled rest ready none = some (io_error, ready)
  filled rest ready (some n) = if n == 0 then some (corrupt, ready) else rest n

  -- What becomes of a round: `fill` is what comes after filling the buffer.
  abbrev pub after_round :
      Option (Fetched A × FileStream)
      → FileStream
      → Got A × InputStream
      → Option (Fetched A × FileStream)
  after_round fill s (got a, t) = some (fetched a, record s { input = t })
  after_round fill s (ended a, t) = some (finished a, record s { input = t })
  after_round fill s (starved, t) = fill
  after_round fill s (failed, t) = some (broken, record s { input = t })

  -- A read from a file: at the end of the buffer the `InputWorker` fills it, and the reading worker
  -- starts again at the committed position. The fuel bounds the fills; `none` is one too many.
  unfoldable pub fetch_file : ℕ → File → Format A → FileStream → Option (Fetched A × FileStream)
  unfolding run_stream make_room receive free_space
  fetch_file zero file f s = none
  fetch_file (suc fuel) file f s =
      let ready = make_room (record s { input = (run_stream f s.input).1 }) in
      let fill =
        filled (λ n. fetch_file fuel file f (receive file n ready)) ready
          (file.gzread ready.offset (free_space ready)) in
      after_round fill s (run_stream f s.input)

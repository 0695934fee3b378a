-- ===== src/Pickle/Write/Reads.antt =====
-- generic/Pickler.cc and generic/Unpickler.cc: an instruction that is written is read.
use aliceml_seam.Base.{
  ℕ, suc, ◌+◌, ◌^◌, ◌≤◌, ◌<◌, ◌≡◌, ◌∙◌, subst, refl, ap, ap₂, tabulate_congr, arith, List, [], ◌∷◌,
  some, length, tabulate, lt→leb, false,
}
use aliceml_seam.Pickle.{InputStream, get_byte, get_bytes, commit, put_uint}
use aliceml_seam.Pickle.Numbers.{Holds, get_uint-put_uint}
use aliceml_seam.Pickle.Format.{Format, done, finish, Got, got, ended, run_stream}
use aliceml_seam.Pickle.Format
use aliceml_seam.Pickle.Output.{OutputBuffer, put_byte}
use aliceml_seam.Pickle.Output.Writes.{
  IsValid, Wrote, Holds-kept, put_byte-Wrote, put_bytes-Wrote, put_number-Wrote,
}
use aliceml_seam.Pickle.Write.{Part, byte, uint, bytes, write_parts}

-- Numbers fit 31 bits.
unfoldable pub Fits : List Part → Type 0
Fits [] = Unit
Fits (byte x ∷ ps) = Fits ps
Fits (uint i ∷ ps) = (i < 2 ^ 31) × Fits ps
Fits (bytes bs ∷ ps) = Fits ps

module _ {A : Type 0} where
  -- The reads are those of the calls, and end with a value.
  unfoldable pub Parses : Format A → List Part → Got A → Type 0
  Parses (done a) [] r = r ≡ got a
  Parses (finish a) [] r = r ≡ ended a
  Parses (Format.byte f) (byte x ∷ ps) r = Parses (f x) ps r
  Parses (Format.uint f) (uint i ∷ ps) r = Parses (f i) ps r
  Parses (Format.chunk n f) (bytes bs ∷ ps) r = (n ≡ length bs) × Parses (f bs) ps r
  Parses _ _ r = ⊥

-- The bytes of the calls stand in the buffer between two positions.
unfoldable pub Written : List Part → (ℕ → ℕ) → ℕ → ℕ → Type 0
Written [] buffer i j = i ≡ j
Written (byte x ∷ ps) buffer i j = (buffer i ≡ x) × Written ps buffer (i + 1) j
Written (uint v ∷ ps) buffer i j =
    (bs : List ℕ) × (put_uint v ≡ some bs) × Holds buffer i bs × Written ps buffer (i + length bs) j
Written (bytes bs ∷ ps) buffer i j = Holds buffer i bs × Written ps buffer (i + length bs) j

pub Written-le : (ps : List Part) (buffer : ℕ → ℕ) (i j : ℕ) → Written ps buffer i j → i ≤ j
unfolding Written
Written-le [] buffer i j e = omega (arith, e)
Written-le (byte x ∷ ps) buffer i j (e, w) =
    let le = Written-le ps buffer (i + 1) j w in omega arith
Written-le (uint v ∷ ps) buffer i j (bs, e, h, w) =
    let le = Written-le ps buffer (i + length bs) j w in omega arith
Written-le (bytes bs ∷ ps) buffer i j (h, w) =
    let le = Written-le ps buffer (i + length bs) j w in omega arith

-- What is written first stays while the rest is written.
first_part :
    (bs : List ℕ) (ps : List Part) (b d c : OutputBuffer)
    → Wrote bs b d
    → ((j : ℕ) → j < d.pos → c.buffer j ≡ d.buffer j)
    → Written ps c.buffer d.pos c.pos
    → Holds c.buffer b.pos bs × Written ps c.buffer (b.pos + length bs) c.pos
first_part bs ps b d c w kept rest = (
  Holds-kept bs d.buffer c.buffer b.pos w.holds (λ j lt. kept j (omega (arith, w.moved))),
  subst (λ i. Written ps c.buffer i c.pos) w.moved rest,
)

-- All of the calls end, and what they write is in the buffer.
pub write_parts-Written :
    (ps : List Part) (b : OutputBuffer)
    → IsValid b
    → Fits ps
    → (c : OutputBuffer) × (write_parts ps b ≡ some c)
      × IsValid c
      × Written ps c.buffer b.pos c.pos
      × ((j : ℕ) → j < b.pos → c.buffer j ≡ b.buffer j)
unfolding write_parts Written Fits Holds
write_parts-Written [] b v fits = (b, refl, v, refl, λ j lt. refl)
write_parts-Written (byte x ∷ ps) b v fits =
    let w = put_byte-Wrote x b v in
    let (c, e, valid, written, kept) = write_parts-Written ps (put_byte x b) w.valid fits in
    (
      c,
      e,
      valid,
      (let (h, rest) = first_part (x ∷ []) ps b (put_byte x b) c w kept written in (h.0, rest)),
      λ j lt. kept j (omega (arith, w.moved)) ∙ w.kept j lt,
    )
write_parts-Written (uint i ∷ ps) b v (lt, fits) =
    let (bs, d, ok, put, w) = put_number-Wrote i b v (omega arith) in
    let (c, e, valid, written, kept) = write_parts-Written ps d w.valid fits in
    (
      c,
      rw (put, write_parts) e,
      valid,
      (let (h, rest) = first_part bs ps b d c w kept written in (bs, ok, h, rest)),
      λ j lt. kept j (omega (arith, w.moved)) ∙ w.kept j lt,
    )
write_parts-Written (bytes bs ∷ ps) b v fits =
    let (d, put, w) = put_bytes-Wrote bs b v in
    let (c, e, valid, written, kept) = write_parts-Written ps d w.valid fits in
    (
      c,
      rw (put, write_parts) e,
      valid,
      first_part bs ps b d c w kept written,
      λ j lt. kept j (omega (arith, w.moved)) ∙ w.kept j lt,
    )

tabulate-Holds :
    (bs : List ℕ) (buffer : ℕ → ℕ) (i : ℕ)
    → Holds buffer i bs
    → tabulate (length bs) (λ j. buffer (i + j)) ≡ bs
unfolding Holds
tabulate-Holds [] buffer i h = refl
tabulate-Holds (b ∷ bs) buffer i (e, h) =
    ap₂ (λ x xs. x ∷ xs) (ap buffer (omega arith) ∙ e)
      (tabulate_congr (length bs) (λ j. buffer (i + suc j)) (λ j. buffer (i + 1 + j))
          (λ j lt. ap buffer (omega arith))
        ∙ tabulate-Holds bs buffer (i + 1) h)

module _ (buffer : ℕ → ℕ) (hd tl : ℕ) where
  abbrev pub at : ℕ → InputStream
  at i = record { buffer = buffer; hd = hd; rd = i; tl = tl; eob = false }

  pub get_byte-at : (i : ℕ) → i < tl → get_byte (at i) ≡ (buffer i, at (i + 1))
  unfolding get_byte
  get_byte-at i lt = rw (lt→leb tl i lt) refl

  get_bytes-at : (n i : ℕ) → i + n < tl → get_bytes n (at i) ≡ at (i + n)
  unfolding get_bytes
  get_bytes-at n i lt = rw (lt→leb tl (i + n) lt) refl

  module _ {A : Type 0} where
    -- A value that is committed moves the start of what is left.
    abbrev pub after : Got A → ℕ → InputStream
    after (got a) i = commit (at i)
    after _ i = at i

    pub run_stream-Parses :
        (f : Format A) (ps : List Part) (r : Got A) (i j : ℕ)
        → Parses f ps r
        → Fits ps
        → Written ps buffer i j
        → j < tl
        → run_stream f (at i) ≡ (r, after r j)
    unfolding run_stream Parses Fits Written get_byte get_bytes
    run_stream-Parses (done a) [] r i j p fits w lt = rw (p, w) refl
    run_stream-Parses (finish a) [] r i j p fits w lt = rw (p, w) refl
    run_stream-Parses (Format.byte f) (byte x ∷ ps) r i j p fits (e, w) lt =
        let le = Written-le ps buffer (i + 1) j w in
        rw (get_byte-at i (omega arith), e) (run_stream-Parses (f x) ps r (i + 1) j p fits w lt)
    run_stream-Parses (Format.uint f) (uint v ∷ ps) r i j p (small, fits) (bs, e, h, w) lt =
        let le = Written-le ps buffer (i + length bs) j w in
        ap (Format.after_uint (λ x t. run_stream (f x) t))
          (get_uint-put_uint buffer hd i tl v bs small e h (omega arith))
        ∙ run_stream-Parses (f v) ps r (i + length bs) j p fits w lt
    run_stream-Parses (Format.chunk n f) (bytes bs ∷ ps) r i j (e, p) fits (h, w) lt =
        let le = Written-le ps buffer (i + length bs) j w in
        rw e (
          rw (get_bytes-at (length bs) i (omega arith), tabulate-Holds bs buffer i h)
            (run_stream-Parses (f bs) ps r (i + length bs) j p fits w lt))
    run_stream-Parses (done a) (byte x ∷ ps) r i j p fits w lt = elim p [ ]
    run_stream-Parses (done a) (uint v ∷ ps) r i j p fits w lt = elim p [ ]
    run_stream-Parses (done a) (bytes bs ∷ ps) r i j p fits w lt = elim p [ ]
    run_stream-Parses (finish a) (byte x ∷ ps) r i j p fits w lt = elim p [ ]
    run_stream-Parses (finish a) (uint v ∷ ps) r i j p fits w lt = elim p [ ]
    run_stream-Parses (finish a) (bytes bs ∷ ps) r i j p fits w lt = elim p [ ]
    run_stream-Parses (Format.byte f) [] r i j p fits w lt = elim p [ ]
    run_stream-Parses (Format.byte f) (uint v ∷ ps) r i j p fits w lt = elim p [ ]
    run_stream-Parses (Format.byte f) (bytes bs ∷ ps) r i j p fits w lt = elim p [ ]
    run_stream-Parses (Format.uint f) [] r i j p fits w lt = elim p [ ]
    run_stream-Parses (Format.uint f) (byte x ∷ ps) r i j p fits w lt = elim p [ ]
    run_stream-Parses (Format.uint f) (bytes bs ∷ ps) r i j p fits w lt = elim p [ ]
    run_stream-Parses (Format.chunk n f) [] r i j p fits w lt = elim p [ ]
    run_stream-Parses (Format.chunk n f) (byte x ∷ ps) r i j p fits w lt = elim p [ ]
    run_stream-Parses (Format.chunk n f) (uint v ∷ ps) r i j p fits w lt = elim p [ ]

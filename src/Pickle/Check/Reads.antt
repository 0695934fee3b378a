-- ===== src/Pickle/Check/Reads.antt =====
-- generic/Unpickler.cc and generic/Pickler.cc: the header that is written is accepted.
use aliceml_seam.Base.{
  ℕ, ◌+◌, ◌≤◌, ◌<◌, ◌≡◌, ◌∙◌, refl, ap, arith, List, [], ◌∷◌, length, le→ltb, lt→leb, if◌then◌else◌,
  ◌==◌,
}
use aliceml_seam.Pickle.{commit}
use aliceml_seam.Pickle.Format.{Format, done, finish, byte, uint, chunk, got, run_stream}
use aliceml_seam.Pickle.Write.{Part}
use aliceml_seam.Pickle.Write as Write
use aliceml_seam.Pickle.Write.Reads.{Fits, Written, Written-le, Parses, run_stream-Parses, at}
use aliceml_seam.Pickle.Machine.{max_valid_int, same_bytes}
use aliceml_seam.Pickle.Save.{magic, major_version, minor_version}
use aliceml_seam.Pickle.Save.Parts.{header_parts}
use aliceml_seam.Pickle.Check.{
  Checked, header, after_part, accept_locals, check_locals, check_sizes, check_init, check_minor,
  check_major, check_string,
}
use aliceml_seam.Pickle.Check

Written-first :
    (p : Part) (ps : List Part) (buffer : ℕ → ℕ) (i j : ℕ)
    → Written (p ∷ ps) buffer i j
    → (k : ℕ) × Written (p ∷ []) buffer i k × Written ps buffer k j
unfolding Written
Written-first (Write.byte x) ps buffer i j (e, w) = (i + 1, (e, refl), w)
Written-first (Write.uint v) ps buffer i j (bs, ok, h, w) = (i + length bs, (bs, ok, h, refl), w)
Written-first (Write.bytes bs) ps buffer i j (h, w) = (i + length bs, (h, refl), w)

module _ (buffer : ℕ → ℕ) (tl : ℕ) where
  part :
      {A : Type 0}
      → (f : Format A) (p : Part) (a : A) (i k : ℕ) → Parses f (p ∷ []) (got a)
      → Fits (p ∷ [])
      → Written (p ∷ []) buffer i k
      → k < tl
      → run_stream f (at buffer i tl i) ≡ (got a, at buffer k tl k)
  unfolding commit
  part f p a i k parses fits w lt =
      run_stream-Parses buffer i tl f (p ∷ []) (got a) i k parses fits w lt

  locals_read :
      (stack_size locals i j : ℕ)
      → locals ≤ max_valid_int
      → Written (Write.uint locals ∷ []) buffer i j
      → j < tl
      → check_locals stack_size (at buffer i tl i) ≡ (header stack_size locals, at buffer j tl j)
  unfolding check_locals Parses Fits
  locals_read stack_size locals i j few w lt =
      let le = Written-le (Write.uint locals ∷ []) buffer i j w in
      let s = at buffer i tl i in
      ap
        (λ b.
          if b
          then (Check.corrupt, s)
          else after_part (accept_locals stack_size) (run_stream (uint done) s))
        (lt→leb tl i (omega arith))
      ∙ ap (after_part (accept_locals stack_size))
          (part (uint done) (Write.uint locals) locals i j refl (omega arith, tt) w lt)
      ∙ rw (le→ltb max_valid_int locals few) refl

  sizes_read :
      (stack_size locals i j : ℕ)
      → stack_size ≤ max_valid_int
      → locals ≤ max_valid_int
      → Written (Write.uint stack_size ∷ Write.uint locals ∷ []) buffer i j
      → j < tl
      → check_sizes (at buffer i tl i) ≡ (header stack_size locals, at buffer j tl j)
  unfolding check_sizes Parses Fits
  sizes_read stack_size locals i j small few w lt =
      let (k, first, rest) =
        Written-first (Write.uint stack_size) (Write.uint locals ∷ []) buffer i j w in
      let le = Written-le (Write.uint locals ∷ []) buffer k j rest in
      rw
        (
          part (uint done) (Write.uint stack_size) stack_size i k refl (omega arith, tt) first
              (omega arith),
          le→ltb max_valid_int stack_size small,
        )
        (locals_read stack_size locals k j few rest lt)

  -- From the tag of INIT on, from the minor version on, and from the major version on.
  init_read :
      (stack_size locals i j : ℕ)
      → stack_size ≤ max_valid_int
      → locals ≤ max_valid_int
      → Written (Write.byte 0 ∷ Write.uint stack_size ∷ Write.uint locals ∷ []) buffer i j
      → j < tl
      → check_init (at buffer i tl i) ≡ (header stack_size locals, at buffer j tl j)
  unfolding check_init Parses Fits
  init_read stack_size locals i j small few w lt =
      let ps = Write.uint stack_size ∷ Write.uint locals ∷ [] in
      let (k, first, rest) = Written-first (Write.byte 0) ps buffer i j w in
      let le = Written-le ps buffer k j rest in
      rw
        (part (byte (λ tag. if tag == 0 then done tag else finish tag)) (Write.byte 0) 0 i k refl tt
          first (omega arith))
        (sizes_read stack_size locals k j small few rest lt)

  minor_read :
      (stack_size locals i j : ℕ)
      → stack_size ≤ max_valid_int
      → locals ≤ max_valid_int
      → Written
          (Write.uint minor_version ∷ Write.byte 0 ∷ Write.uint stack_size ∷ Write.uint locals ∷ [])
          buffer
          i
          j
      → j < tl
      → check_minor (at buffer i tl i) ≡ (header stack_size locals, at buffer j tl j)
  unfolding check_minor Parses Fits
  minor_read stack_size locals i j small few w lt =
      let ps = Write.byte 0 ∷ Write.uint stack_size ∷ Write.uint locals ∷ [] in
      let (k, first, rest) = Written-first (Write.uint minor_version) ps buffer i j w in
      let le = Written-le ps buffer k j rest in
      rw
        (part (uint done) (Write.uint minor_version) minor_version i k refl (omega arith, tt) first
          (omega arith))
        (init_read stack_size locals k j small few rest lt)

  major_read :
      (stack_size locals i j : ℕ)
      → stack_size ≤ max_valid_int
      → locals ≤ max_valid_int
      → Written
          (Write.uint major_version
            ∷ Write.uint minor_version
            ∷ Write.byte 0
            ∷ Write.uint stack_size
            ∷ Write.uint locals
            ∷ [])
          buffer
          i
          j
      → j < tl
      → check_major (at buffer i tl i) ≡ (header stack_size locals, at buffer j tl j)
  unfolding check_major Parses Fits
  major_read stack_size locals i j small few w lt =
      let ps =
        Write.uint minor_version ∷ Write.byte 0 ∷ Write.uint stack_size ∷ Write.uint locals ∷ [] in
      let (k, first, rest) = Written-first (Write.uint major_version) ps buffer i j w in
      let le = Written-le ps buffer k j rest in
      rw
        (part (uint done) (Write.uint major_version) major_version i k refl (omega arith, tt) first
          (omega arith))
        (minor_read stack_size locals k j small few rest lt)

  pub check_string-header :
      (max_height no_of_locals i j : ℕ)
      → max_height ≤ max_valid_int
      → no_of_locals + 1 ≤ max_valid_int
      → Written (header_parts max_height no_of_locals) buffer i j
      → j < tl
      → check_string (at buffer i tl i) ≡ (header max_height (no_of_locals + 1), at buffer j tl j)
  unfolding check_string Parses Fits
  check_string-header max_height no_of_locals i j small few w lt =
      let ps =
        Write.uint major_version
        ∷ Write.uint minor_version
        ∷ Write.byte 0
        ∷ Write.uint max_height
        ∷ Write.uint (no_of_locals + 1)
        ∷ [] in
      let (k, first, rest) = Written-first (Write.bytes magic) ps buffer i j w in
      let le = Written-le ps buffer k j rest in
      rw
        (part (chunk 4 (λ bytes. if same_bytes bytes magic then done bytes else finish bytes))
          (Write.bytes magic) magic i k (refl, refl) tt first (omega arith))
        (major_read max_height (no_of_locals + 1) k j small few rest lt)

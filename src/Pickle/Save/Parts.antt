-- ===== src/Pickle/Save/Parts.antt =====
-- generic/Pickler.cc: the calls of `WriteToStream`, and where in the string they write.
use aliceml_seam.Base.{
  ℕ, ◌+◌, ◌-◌, ◌<◌, ◌≡◌, ◌∙◌, subst, refl, ap, arith, List, [], ◌∷◌, Option, some, length, tabulate,
  tabulate_congr, ◌>>=◌,
}
use aliceml_seam.Pickle.Numbers.{Holds}
use aliceml_seam.Pickle.Output.{OutputBuffer}
use aliceml_seam.Pickle.Output.Writes.{Holds-kept}
use aliceml_seam.Pickle.Write.{Part, byte, uint, bytes, tag_number}
use aliceml_seam.Pickle.Write.Reads.{Fits, Written}
use aliceml_seam.Pickle.Save.{
  StringStream, put_byte, put_bytes, put_number, get_locals, write_locals, write_header,
  write_to_stream, magic, major_version, minor_version,
}
use aliceml_seam.Pickle.Save.Writes.{
  IsValid, Saved, put_byte-Saved, put_number-Saved, put_bytes-Saved,
}

-- The calls one after the other.
unfoldable pub save_parts : List Part → StringStream → Option StringStream
save_parts [] s = some s
save_parts (byte x ∷ ps) s = save_parts ps (put_byte x s)
save_parts (uint i ∷ ps) s = do t ← put_number i s; save_parts ps t
save_parts (bytes bs ∷ ps) s = do t ← put_bytes bs s; save_parts ps t

first_part :
    (bs : List ℕ) (ps : List Part) (s t u : StringStream)
    → Saved bs s t
    → ((j : ℕ) → j < t.pos → u.string j ≡ t.string j)
    → Written ps u.string t.pos u.pos
    → Holds u.string s.pos bs × Written ps u.string (s.pos + length bs) u.pos
first_part bs ps s t u w kept rest = (
  Holds-kept bs t.string u.string s.pos w.holds (λ j lt. kept j (omega (arith, w.moved))),
  subst (λ i. Written ps u.string i u.pos) w.moved rest,
)

-- All of the calls end, and what they write is in the string.
pub save_parts-Written :
    (ps : List Part) (s : StringStream)
    → IsValid s
    → Fits ps
    → (u : StringStream) × (save_parts ps s ≡ some u)
      × IsValid u
      × Written ps u.string s.pos u.pos
      × ((j : ℕ) → j < s.pos → u.string j ≡ s.string j)
unfolding save_parts Written Fits Holds
save_parts-Written [] s v fits = (s, refl, v, refl, λ j lt. refl)
save_parts-Written (byte x ∷ ps) s v fits =
    let w = put_byte-Saved x s v in
    let (u, e, valid, written, kept) = save_parts-Written ps (put_byte x s) w.valid fits in
    (
      u,
      e,
      valid,
      (let (h, rest) = first_part (x ∷ []) ps s (put_byte x s) u w kept written in (h.0, rest)),
      λ j lt. kept j (omega (arith, w.moved)) ∙ w.kept j lt,
    )
save_parts-Written (uint i ∷ ps) s v (lt, fits) =
    let (bs, t, ok, put, w) = put_number-Saved i s v (omega arith) in
    let (u, e, valid, written, kept) = save_parts-Written ps t w.valid fits in
    (
      u,
      rw (put, save_parts) e,
      valid,
      (let (h, rest) = first_part bs ps s t u w kept written in (bs, ok, h, rest)),
      λ j lt. kept j (omega (arith, w.moved)) ∙ w.kept j lt,
    )
save_parts-Written (bytes bs ∷ ps) s v fits =
    let (t, put, w) = put_bytes-Saved bs s v in
    let (u, e, valid, written, kept) = save_parts-Written ps t w.valid fits in
    (
      u,
      rw (put, save_parts) e,
      valid,
      first_part bs ps s t u w kept written,
      λ j lt. kept j (omega (arith, w.moved)) ∙ w.kept j lt,
    )

abbrev pub header_parts : (max_height no_of_locals : ℕ) → List Part
header_parts max_height no_of_locals =
    bytes magic
    ∷ uint major_version
    ∷ uint minor_version
    ∷ byte 0
    ∷ uint max_height
    ∷ uint (no_of_locals + 1)
    ∷ []

header_same :
    (max_height no_of_locals : ℕ) (s : StringStream)
    → write_header max_height no_of_locals s ≡ save_parts (header_parts max_height no_of_locals) s
unfolding write_header save_parts tag_number
header_same max_height no_of_locals s = refl

abbrev pub body_parts : OutputBuffer → List Part
body_parts b = bytes (tabulate b.pos b.buffer) ∷ byte 1 ∷ uint 0 ∷ byte 19 ∷ []

whole_buffer :
    (b : OutputBuffer) → tabulate (b.pos - 0) (λ j. b.buffer (0 + j)) ≡ tabulate b.pos b.buffer
whole_buffer b =
    ap (λ n. tabulate n (λ j. b.buffer (0 + j))) {x = b.pos - 0} {y = b.pos} (omega arith)
    ∙ tabulate_congr b.pos (λ j. b.buffer (0 + j)) b.buffer (λ j lt. ap b.buffer (omega arith))

-- Without locals, `WriteToStream` writes the header, the buffer, STORE 0 and ENDOFSTREAM.
pub write_to_stream-plain :
    (b : OutputBuffer) (max_height : ℕ) (s t : StringStream)
    → b.loc_count ≡ 0
    → save_parts (header_parts max_height 0) s ≡ some t
    → write_to_stream b max_height s ≡ save_parts (body_parts b) t
unfolding write_to_stream get_locals write_locals save_parts tag_number
write_to_stream-plain b max_height s t no_locals e =
    rw (no_locals, header_same max_height 0 s, e) (rw (whole_buffer b) refl)

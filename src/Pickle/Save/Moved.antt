-- ===== src/Pickle/Save/Moved.antt =====
-- generic/Pickler.cc: the instructions in the `OutputBuffer`, and copied to a string.
use aliceml_seam.Base.{
  ℕ, zero, suc, ◌+◌, ◌<◌, ◌≡◌, ◌∙◌, refl, sym, ap, subst, arith, List, [], ◌∷◌, ◌++◌, some, length,
  tabulate, leb, Option-cases, inl, inr, Bool-cases,
}
use aliceml_seam.Pickle.{put_uint}
use aliceml_seam.Pickle.Numbers.{Holds}
use aliceml_seam.Pickle.Output.{
  OutputBuffer, resize_buffer, append, put_byte, make_room, put_bytes, put_number,
}
use aliceml_seam.Pickle.Instr.{Instr}
use aliceml_seam.Pickle.Write.{Part, byte, uint, bytes, parts, write_parts, write_instr}
use aliceml_seam.Pickle.Write.Reads.{Written, Written-le}
use aliceml_seam.Pickle.Tree.Loads.{AllWritten, AllWritten-le, write_instrs}

make_room-loc_count :
    (fuel n : ℕ) (b c : OutputBuffer) → make_room fuel n b ≡ some c → c.loc_count ≡ b.loc_count
unfolding make_room resize_buffer
make_room-loc_count zero n b c e = absurd (cc)
make_room-loc_count (suc fuel) n b c e = elim (Bool-cases (leb b.size (b.pos + n))) [
  | inl small ↦ make_room-loc_count fuel n (resize_buffer b) c (rw small at e)
  | inr room ↦ (let same : b ≡ c = cc (rw room at e) in ap (λ d. d.loc_count) (sym same))
]

put_bytes-loc_count :
    (bs : List ℕ) (b c : OutputBuffer) → put_bytes bs b ≡ some c → c.loc_count ≡ b.loc_count
unfolding put_bytes
put_bytes-loc_count bs b c e =
    elim (Option-cases (make_room (suc (b.pos + length bs)) (length bs) b)) [
      | inl bad ↦ absurd (cc (rw (bad, put_bytes) at e))
      | inr (d, ok) ↦
          let same : append bs d ≡ c = cc (rw (ok, put_bytes) at e) in
          ap (λ x. x.loc_count) (sym same)
          ∙ make_room-loc_count (suc (b.pos + length bs)) (length bs) b d ok
    ]

put_number-loc_count :
    (i : ℕ) (b c : OutputBuffer) → put_number i b ≡ some c → c.loc_count ≡ b.loc_count
unfolding put_number resize_buffer
put_number-loc_count i b c e = elim (Option-cases (put_uint i)) [
  | inl bad ↦ absurd (cc (rw (bad, put_number) at e))
  | inr (bs, ok) ↦ elim (Bool-cases (leb b.size (b.pos + 5))) [
    | inl full ↦
        let same : append bs (resize_buffer b) ≡ c = cc (rw (ok, full, put_number) at e) in
        ap (λ x. x.loc_count) (sym same)
    | inr room ↦
        let same : append bs b ≡ c = cc (rw (ok, room, put_number) at e) in
        ap (λ x. x.loc_count) (sym same)
  ]
]

put_byte-loc_count : (x : ℕ) (b : OutputBuffer) → (put_byte x b).loc_count ≡ b.loc_count
unfolding put_byte resize_buffer
put_byte-loc_count x b = elim (Bool-cases (leb b.size b.pos)) [
  | inl full ↦ rw full refl
  | inr room ↦ rw room refl
]

write_parts-loc_count :
    (ps : List Part) (b c : OutputBuffer) → write_parts ps b ≡ some c → c.loc_count ≡ b.loc_count
unfolding write_parts
write_parts-loc_count [] b c e = (let same : b ≡ c = cc in ap (λ d. d.loc_count) (sym same))
write_parts-loc_count (byte x ∷ ps) b c e =
    write_parts-loc_count ps (put_byte x b) c e ∙ put_byte-loc_count x b
write_parts-loc_count (uint i ∷ ps) b c e = elim (Option-cases (put_number i b)) [
  | inl bad ↦ absurd (cc (rw (bad, write_parts) at e))
  | inr (d, ok) ↦
      write_parts-loc_count ps d c (rw (ok, write_parts) at e) ∙ put_number-loc_count i b d ok
]
write_parts-loc_count (bytes bs ∷ ps) b c e = elim (Option-cases (put_bytes bs b)) [
  | inl bad ↦ absurd (cc (rw (bad, write_parts) at e))
  | inr (d, ok) ↦
      write_parts-loc_count ps d c (rw (ok, write_parts) at e) ∙ put_bytes-loc_count bs b d ok
]

pub write_instrs-loc_count :
    (xs : List Instr) (b c : OutputBuffer) → write_instrs xs b ≡ some c → c.loc_count ≡ b.loc_count
unfolding write_instrs write_instr
write_instrs-loc_count [] b c e = (let same : b ≡ c = cc in ap (λ d. d.loc_count) (sym same))
write_instrs-loc_count (x ∷ xs) b c e = elim (Option-cases (write_parts (parts x) b)) [
  | inl bad ↦ absurd (cc (rw (bad, write_instrs, write_instr) at e))
  | inr (d, ok) ↦
      write_instrs-loc_count xs d c (rw (ok, write_instrs, write_instr) at e)
      ∙ write_parts-loc_count (parts x) b d ok
]

Holds-moved :
    (bs : List ℕ) (f g : ℕ → ℕ) (d i : ℕ)
    → Holds f i bs
    → ((n : ℕ) → n < i + length bs → g (d + n) ≡ f n)
    → Holds g (d + i) bs
unfolding Holds
Holds-moved [] f g d i h same = tt
Holds-moved (b ∷ bs) f g d i (e, h) same = (
  same i (omega arith) ∙ e,
  subst (λ n. Holds g n bs) (omega arith)
      (Holds-moved bs f g d (i + 1) h (λ n lt. same n (omega arith))),
)

Written-moved :
    (ps : List Part) (f g : ℕ → ℕ) (d i j : ℕ)
    → Written ps f i j
    → ((n : ℕ) → n < j → g (d + n) ≡ f n)
    → Written ps g (d + i) (d + j)
unfolding Written
Written-moved [] f g d i j e same = ap (λ n. d + n) e
Written-moved (byte x ∷ ps) f g d i j (e, w) same =
    let le = Written-le ps f (i + 1) j w in
    (
      same i (omega arith) ∙ e,
      subst (λ n. Written ps g n (d + j)) (omega arith) (Written-moved ps f g d (i + 1) j w same),
    )
Written-moved (uint v ∷ ps) f g d i j (bs, ok, h, w) same =
    let le = Written-le ps f (i + length bs) j w in
    (
      bs,
      ok,
      Holds-moved bs f g d i h (λ n lt. same n (omega arith)),
      subst (λ n. Written ps g n (d + j)) (omega arith)
          (Written-moved ps f g d (i + length bs) j w same),
    )
Written-moved (bytes bs ∷ ps) f g d i j (h, w) same =
    let le = Written-le ps f (i + length bs) j w in
    (
      Holds-moved bs f g d i h (λ n lt. same n (omega arith)),
      subst (λ n. Written ps g n (d + j)) (omega arith)
          (Written-moved ps f g d (i + length bs) j w same),
    )

pub AllWritten-moved :
    (xs : List Instr) (f g : ℕ → ℕ) (d i j : ℕ)
    → AllWritten xs f i j
    → ((n : ℕ) → n < j → g (d + n) ≡ f n)
    → AllWritten xs g (d + i) (d + j)
unfolding AllWritten
AllWritten-moved [] f g d i j e same = ap (λ n. d + n) e
AllWritten-moved (x ∷ xs) f g d i j (k, w, ws) same =
    let le = AllWritten-le xs f k j ws in
    (
      d + k,
      Written-moved (parts x) f g d i k w (λ n lt. same n (omega arith)),
      AllWritten-moved xs f g d k j ws same,
    )

pub AllWritten-join :
    (xs ys : List Instr) (buffer : ℕ → ℕ) (i n j : ℕ)
    → AllWritten xs buffer i n
    → AllWritten ys buffer n j
    → AllWritten (xs ++ ys) buffer i j
unfolding AllWritten
AllWritten-join [] ys buffer i n j e w = subst (λ k. AllWritten ys buffer k j) (sym e) w
AllWritten-join (x ∷ xs) ys buffer i n j (k, w, ws) v =
    (k, w, AllWritten-join xs ys buffer k n j ws v)

pub Holds-tabulate :
    (n : ℕ) (f g : ℕ → ℕ) (i j : ℕ) → Holds g i (tabulate n f) → j < n → g (i + j) ≡ f j
unfolding Holds
Holds-tabulate zero f g i j h lt = absurd (omega arith)
Holds-tabulate (suc n) f g i zero (e, h) lt = ap g (omega arith) ∙ e
Holds-tabulate (suc n) f g i (suc j) (e, h) lt =
    ap g (omega arith) ∙ Holds-tabulate n (λ k. f (suc k)) g (i + 1) j h (omega arith)

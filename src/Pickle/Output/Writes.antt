-- ===== src/Pickle/Output/Writes.antt =====
-- generic/Pickler.cc: what is written to an `OutputBuffer`, and that it is within what is allocated.
use aliceml_seam.Base.{
  ℕ, zero, suc, ◌+◌, ◌-◌, ◌*◌, ◌^◌, ◌≤◌, ◌<◌, ◌≡◌, ◌∙◌, subst, leb→lt, leb→le, refl, ap, arith,
  List, [], ◌∷◌, ◌++◌, some, length, length-append, leb, ◌==◌, if◌then◌else◌, Bool-cases, inl, inr,
  ==_refl, ==_of_ne,
}
use aliceml_seam.Pickle.{put_uint}
use aliceml_seam.Pickle.Numbers.{Holds, put_uint_total}
use aliceml_seam.Pickle.Output.{
  OutputBuffer, new, resize_buffer, write, append, put_byte, make_room, put_bytes, put_number,
  resize_locals,
}

-- All that is written is within what is allocated.
pub record IsValid (b : OutputBuffer) : Type 0 where
  pub fits : b.pos ≤ b.size
  pub grown : 8192 ≤ b.size
  pub loc_fits : b.loc_count * 2 + 1 < b.loc_size
  pub loc_grown : 128 ≤ b.loc_size

-- From `b` to `c`, bytes are appended and nothing before them is changed.
pub record Wrote (bs : List ℕ) (b c : OutputBuffer) : Type 0 where
  pub valid : IsValid c
  pub moved : c.pos ≡ b.pos + length bs
  pub holds : Holds c.buffer b.pos bs
  pub kept : (j : ℕ) → j < b.pos → c.buffer j ≡ b.buffer j

pub write_kept : (bs : List ℕ) (c : ℕ → ℕ) (i j : ℕ) → j < i → write c i bs j ≡ c j
write_kept [] c i j lt = refl
write_kept (x ∷ bs) c i j lt =
    write_kept bs (λ k. if k == i then x else c k) (i + 1) j (omega arith)
    ∙ ap (λ t. if t then x else c j) (==_of_ne j i (omega arith))

pub write-Holds : (bs : List ℕ) (c : ℕ → ℕ) (i : ℕ) → Holds (write c i bs) i bs
unfolding Holds
write-Holds [] c i = tt
write-Holds (x ∷ bs) c i = (
  write_kept bs (λ k. if k == i then x else c k) (i + 1) i (omega arith)
      ∙ ap (λ t. if t then x else c i) (==_refl i),
  write-Holds bs (λ k. if k == i then x else c k) (i + 1),
)

pub Holds-kept :
    (bs : List ℕ) (c d : ℕ → ℕ) (i : ℕ)
    → Holds c i bs
    → ((j : ℕ) → j < i + length bs → d j ≡ c j)
    → Holds d i bs
unfolding Holds
Holds-kept [] c d i h same = tt
Holds-kept (x ∷ bs) c d i (e, h) same =
    (same i (omega arith) ∙ e, Holds-kept bs c d (i + 1) h (λ j lt. same j (omega arith)))

pub Holds-append :
    (xs ys : List ℕ) (c : ℕ → ℕ) (i : ℕ)
    → Holds c i xs
    → Holds c (i + length xs) ys
    → Holds c i (xs ++ ys)
unfolding Holds
Holds-append [] ys c i h k = subst (λ n. Holds c n ys) (omega arith) k
Holds-append (x ∷ xs) ys c i (e, h) k =
    (e, Holds-append xs ys c (i + 1) h (subst (λ n. Holds c n ys) (omega arith) k))

pub Wrote-trans :
    (xs ys : List ℕ) (b c d : OutputBuffer) → Wrote xs b c → Wrote ys c d → Wrote (xs ++ ys) b d
Wrote-trans xs ys b c d u v = record {
  valid = v.valid;
  moved = omega (arith, u.moved, v.moved, length-append xs ys);
  holds =
      Holds-append xs ys d.buffer b.pos
        (Holds-kept xs c.buffer d.buffer b.pos u.holds (λ j lt. v.kept j (omega (arith, u.moved))))
        (subst (λ n. Holds d.buffer n ys) u.moved v.holds);
  kept = λ j lt. v.kept j (omega (arith, u.moved)) ∙ u.kept j lt;
}

-- Room was made before the bytes are appended.
append-Wrote :
    (bs : List ℕ) (b c : OutputBuffer)
    → IsValid c
    → c.buffer ≡ b.buffer
    → c.pos ≡ b.pos
    → c.pos + length bs ≤ c.size
    → Wrote bs b (append bs c)
append-Wrote bs b c v same at room = record {
  valid = record { fits = room; grown = v.grown; loc_fits = v.loc_fits; loc_grown = v.loc_grown };
  moved = omega (arith, at);
  holds = subst (λ n. Holds (write c.buffer c.pos bs) n bs) at (write-Holds bs c.buffer c.pos);
  kept = λ j lt. write_kept bs c.buffer c.pos j (omega (arith, at)) ∙ ap (λ g. g j) same;
}

resize_buffer-IsValid : (b : OutputBuffer) → IsValid b → IsValid (resize_buffer b)
unfolding resize_buffer
resize_buffer-IsValid b v = record {
  fits = omega (arith, v.fits);
  grown = omega (arith, v.grown);
  loc_fits = v.loc_fits;
  loc_grown = v.loc_grown;
}

pub put_byte-Wrote : (x : ℕ) (b : OutputBuffer) → IsValid b → Wrote (x ∷ []) b (put_byte x b)
unfolding put_byte resize_buffer
put_byte-Wrote x b v = elim (Bool-cases (leb b.size b.pos)) [
  | inl full ↦ rw full (
      append-Wrote (x ∷ []) b (resize_buffer b) (resize_buffer-IsValid b v) refl refl
        (omega (arith, v.fits, v.grown)))
  | inr room ↦ rw room (append-Wrote (x ∷ []) b b v refl refl (ground arith))
]

pub put_number-Wrote :
    (i : ℕ) (b : OutputBuffer)
    → IsValid b
    → i < 2 ^ 32
    → (bs : List ℕ) × (c : OutputBuffer) × (put_uint i ≡ some bs)
      × (put_number i b ≡ some c)
      × Wrote bs b c
unfolding put_number resize_buffer
put_number-Wrote i b v lt =
    let (bs, ok, few) = put_uint_total i lt in
    elim (Bool-cases (leb b.size (b.pos + 5))) [
      | inl full ↦ (
        bs,
        append bs (resize_buffer b),
        ok,
        rw (ok, full, put_number) refl,
        append-Wrote bs b (resize_buffer b) (resize_buffer-IsValid b v) refl refl
            (omega (arith, v.fits, v.grown)),
      )
      | inr room ↦ (
        bs,
        append bs b,
        ok,
        rw (ok, room, put_number) refl,
        append-Wrote bs b b v refl refl (let le = leb→lt b.size (b.pos + 5) room in omega arith),
      )
    ]

-- Each round makes the buffer half as large again.
make_room_total :
    (fuel n : ℕ) (b : OutputBuffer)
    → IsValid b
    → b.pos + n + 1 - b.size < fuel
    → (c : OutputBuffer) × (make_room fuel n b ≡ some c)
      × IsValid c
      × (c.buffer ≡ b.buffer)
      × (c.pos ≡ b.pos)
      × (c.pos + n ≤ c.size)
unfolding make_room resize_buffer
make_room_total zero n b v lt = absurd (omega arith)
make_room_total (suc fuel) n b v lt = elim (Bool-cases (leb b.size (b.pos + n))) [
  | inl small ↦
      let (c, e, w, same, at, room) =
        make_room_total fuel n (resize_buffer b) (resize_buffer-IsValid b v)
          (let le = leb→le b.size (b.pos + n) small in omega (arith, v.grown)) in
      (c, rw small e, w, same, at, room)
  | inr room ↦
      let le = leb→lt b.size (b.pos + n) room in (b, rw room refl, v, refl, refl, omega arith)
]

pub put_bytes-Wrote :
    (bs : List ℕ) (b : OutputBuffer)
    → IsValid b
    → (c : OutputBuffer) × (put_bytes bs b ≡ some c) × Wrote bs b c
unfolding put_bytes
put_bytes-Wrote bs b v =
    let (c, e, w, same, at, room) =
      make_room_total (suc (b.pos + length bs)) (length bs) b v (omega (arith, v.grown)) in
    (append bs c, rw (e, put_bytes) refl, append-Wrote bs b c w same at room)

resize_locals-IsValid : (b : OutputBuffer) → IsValid b → IsValid (resize_locals b)
unfolding resize_locals
resize_locals-IsValid b v = record {
  fits = v.fits;
  grown = v.grown;
  loc_fits = omega (arith, v.loc_fits);
  loc_grown = omega (arith, v.loc_grown);
}

pub new-IsValid : IsValid new
unfolding new
new-IsValid = record {
  fits = omega arith;
  grown = omega arith;
  loc_fits = omega arith;
  loc_grown = omega arith;
}

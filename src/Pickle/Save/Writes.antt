-- ===== src/Pickle/Save/Writes.antt =====
-- generic/Pickler.cc: what is written to a `StringOutputStream`, within what is allocated.
use aliceml_seam.Base.{
  ℕ, zero, suc, ◌+◌, ◌-◌, ◌^◌, ◌≤◌, ◌<◌, ◌≡◌, ◌∙◌, subst, refl, ap, arith, List, [], ◌∷◌, ◌++◌,
  some, length, length-append, leb, leb→lt, leb→le, ◌==◌, Bool-cases, inl, inr, ==→≡, false,
}
use aliceml_seam.Pickle.{put_uint}
use aliceml_seam.Pickle.Numbers.{Holds, put_uint_total}
use aliceml_seam.Pickle.Output.{write}
use aliceml_seam.Pickle.Output.Writes.{write_kept, write-Holds, Holds-kept, Holds-append}
use aliceml_seam.Pickle.Save.{
  StringStream, new, enlarge, append, put_byte, make_room, put_bytes, put_each, put_number,
}

-- There is always room for a byte.
pub record IsValid (s : StringStream) : Type 0 where
  pub fits : s.pos < s.size
  pub grown : 256 ≤ s.size

-- From `s` to `t`, bytes are appended and nothing before them is changed.
pub record Saved (bs : List ℕ) (s t : StringStream) : Type 0 where
  pub valid : IsValid t
  pub moved : t.pos ≡ s.pos + length bs
  pub holds : Holds t.string s.pos bs
  pub kept : (j : ℕ) → j < s.pos → t.string j ≡ s.string j

pub new-IsValid : IsValid new
unfolding new
new-IsValid = record { fits = omega arith; grown = omega arith }

Saved-none : (s : StringStream) → IsValid s → Saved [] s s
unfolding Holds
Saved-none s v = record { valid = v; moved = omega arith; holds = tt; kept = λ j lt. refl }

Saved-trans :
    (xs ys : List ℕ) (s t u : StringStream) → Saved xs s t → Saved ys t u → Saved (xs ++ ys) s u
Saved-trans xs ys s t u v w = record {
  valid = w.valid;
  moved = omega (arith, v.moved, w.moved, length-append xs ys);
  holds =
      Holds-append xs ys u.string s.pos
        (Holds-kept xs t.string u.string s.pos v.holds (λ j lt. w.kept j (omega (arith, v.moved))))
        (subst (λ n. Holds u.string n ys) v.moved w.holds);
  kept = λ j lt. w.kept j (omega (arith, v.moved)) ∙ v.kept j lt;
}

below_end : (i n : ℕ) → i < n → (i + 1 == n) ≡ false → i + 1 < n
below_end i n lt ne = ground arith

pub put_byte-Saved : (x : ℕ) (s : StringStream) → IsValid s → Saved (x ∷ []) s (put_byte x s)
unfolding put_byte enlarge
put_byte-Saved x s v = elim (Bool-cases (s.pos + 1 == s.size)) [
  | inl full ↦ rw full (record {
    valid = record {
      fits = omega (arith, ==→≡ (s.pos + 1) s.size full, v.grown);
      grown = omega (arith, v.grown);
    };
    moved = refl;
    holds = write-Holds (x ∷ []) s.string s.pos;
    kept = write_kept (x ∷ []) s.string s.pos;
  })
  | inr room ↦ rw room (record {
    valid = record { fits = below_end s.pos s.size v.fits room; grown = v.grown };
    moved = refl;
    holds = write-Holds (x ∷ []) s.string s.pos;
    kept = write_kept (x ∷ []) s.string s.pos;
  })
]

put_each-Saved : (bs : List ℕ) (s : StringStream) → IsValid s → Saved bs s (put_each bs s)
put_each-Saved [] s v = Saved-none s v
put_each-Saved (x ∷ bs) s v =
    let w = put_byte-Saved x s v in
    Saved-trans (x ∷ []) bs s (put_byte x s) (put_each bs (put_byte x s)) w
      (put_each-Saved bs (put_byte x s) w.valid)

pub put_number-Saved :
    (i : ℕ) (s : StringStream)
    → IsValid s
    → i < 2 ^ 32
    → (bs : List ℕ) × (t : StringStream) × (put_uint i ≡ some bs)
      × (put_number i s ≡ some t)
      × Saved bs s t
unfolding put_number
put_number-Saved i s v lt =
    let (bs, ok, few) = put_uint_total i lt in
    (bs, put_each bs s, ok, rw (ok, put_number) refl, put_each-Saved bs s v)

-- Each round makes the string half as large again.
make_room_total :
    (fuel n : ℕ) (s : StringStream)
    → IsValid s
    → s.pos + n + 1 - s.size < fuel
    → (t : StringStream) × (make_room fuel n s ≡ some t)
      × IsValid t
      × (t.string ≡ s.string)
      × (t.pos ≡ s.pos)
      × (t.pos + n < t.size)
unfolding make_room enlarge
make_room_total zero n s v lt = absurd (omega arith)
make_room_total (suc fuel) n s v lt = elim (Bool-cases (leb s.size (s.pos + n))) [
  | inl small ↦
      let (t, e, w, same, at, room) =
        make_room_total fuel n (enlarge s)
          (record { fits = omega (arith, v.fits); grown = omega (arith, v.grown) })
          (let le = leb→le s.size (s.pos + n) small in omega (arith, v.grown)) in
      (t, rw small e, w, same, at, room)
  | inr room ↦ (s, rw room refl, v, refl, refl, leb→lt s.size (s.pos + n) room)
]

pub put_bytes-Saved :
    (bs : List ℕ) (s : StringStream)
    → IsValid s
    → (t : StringStream) × (put_bytes bs s ≡ some t) × Saved bs s t
unfolding put_bytes
put_bytes-Saved bs s v =
    let (t, e, w, same, at, room) =
      make_room_total (suc (s.pos + length bs)) (length bs) s v (omega (arith, v.grown)) in
    (
      append bs t,
      rw (e, put_bytes) refl,
      record {
        valid = record { fits = room; grown = w.grown };
        moved = omega (arith, at);
        holds =
            subst (λ n. Holds (write t.string t.pos bs) n bs) at (write-Holds bs t.string t.pos);
        kept = λ j lt. write_kept bs t.string t.pos j (omega (arith, at)) ∙ ap (λ g. g j) same;
      },
    )

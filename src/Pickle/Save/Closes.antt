-- ===== src/Pickle/Save/Closes.antt =====
-- generic/Pickler.cc: the sizes of the string that `StringOutputStream::Close` returns.
use aliceml_seam.Base.{
  ℕ, zero, suc, ◌+◌, ◌*◌, ◌/◌, ◌^◌, ◌<◌, ◌≤◌, ◌≡◌, subst, arith, List, some, length, leb, leb→le,
  max, Bool-cases, Option-cases, inl, inr,
}
use aliceml_seam.Store.Block.{alloc_block, encode_size, translate_size}
use aliceml_seam.Pickle.Numbers.{Holds}
use aliceml_seam.Pickle.Save.{
  StringStream, new, enlarge, make_room, put_bytes, append, close, words_of,
}
use aliceml_seam.Pickle.Save.Writes.{new-IsValid, put_bytes-Saved}

-- The loop of PutBytes enlarges no further than needed.
make_room-le :
    (fuel n most : ℕ) (s t : StringStream)
    → s.size ≤ most
    → (s.pos + n) * 3 / 2 ≤ most
    → make_room fuel n s ≡ some t
    → t.size ≤ most
unfolding make_room enlarge
make_room-le zero n most s t small le e = absurd (cc)
make_room-le (suc fuel) n most s t small le e = elim (Bool-cases (leb s.size (s.pos + n))) [
  | inl full ↦
      let end = leb→le s.size (s.pos + n) full in
      make_room-le fuel n most (enlarge s) t (omega arith) le (rw full at e)
  | inr room ↦
      let same : some s ≡ some t = rw room at e in
      let sizes : s ≡ t = cc in subst (λ u. u.size ≤ most) sizes small
]

put_bytes-le :
    (bs : List ℕ) (most : ℕ) (s t : StringStream)
    → s.size ≤ most
    → (s.pos + length bs) * 3 / 2 ≤ most
    → put_bytes bs s ≡ some t
    → t.size ≤ most
unfolding put_bytes
put_bytes-le bs most s t small le e =
    elim (Option-cases (make_room (suc (s.pos + length bs)) (length bs) s)) [
      | inl over ↦ absurd (cc (rw over at e))
      | inr (u, made) ↦
          let bound = make_room-le (suc (s.pos + length bs)) (length bs) most s u small le made in
          let done : some (append bs u) ≡ some t = rw made at e in
          let same : append bs u ≡ t = cc in subst (λ w. w.size ≤ most) same bound
    ]

words_kept : (s : StringStream) → s.size ≤ 2 ^ 21 → s.pos < 2 ^ 20 → (close s).words ≡ s.pos
unfolding close encode_size alloc_block translate_size
words_kept s small few = ground arith

-- After at least 66 and less than 2 ^ 20 bytes are written to a new string, Close returns these
-- bytes in a string whose byte size is larger than their number, and whose header says that the
-- block has as many words as bytes were written, which are more words than it has.
pub close_overruns :
    (bs : List ℕ)
    → 66 ≤ length bs
    → length bs < 2 ^ 20
    → (s : StringStream) × (put_bytes bs new ≡ some s)
      × Holds (close s).value 0 bs
      × (length bs < (close s).size)
      × ((close s).words ≡ length bs)
      × (words_of (close s).size < (close s).words)
unfolding close new
close_overruns bs least few =
    let (s, e, w) = put_bytes-Saved bs new new-IsValid in
    let small = put_bytes-le bs (max 256 (length bs * 3 / 2)) new s (omega arith) (omega arith) e in
    let at = w.moved in
    let words = words_kept s (omega arith) (omega (arith, at)) in
    let fit = w.valid.fits in
    (s, e, w.holds, omega (arith, at), omega (arith, words, at), omega (arith, at, words))

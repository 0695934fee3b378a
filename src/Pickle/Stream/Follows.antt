-- ===== src/Pickle/Stream/Follows.antt =====
-- generic/Unpickler.cc: a buffer that holds a part of the file, while it is filled.
use aliceml_seam.Base.{
  ℕ, ◌+◌, ◌-◌, ◌≤◌, ◌<◌, ◌≡◌, ◌∙◌, refl, sym, ap, arith, false, ltb, ◌==◌, Bool-cases, inl, inr,
  lt→ltb, ltb→lt, ltb→le, le→leb, lt→leb, some,
}
use aliceml_seam.Pickle.{InputStream}
use aliceml_seam.Pickle.Refine.Buffer.{Sees, Keeps}
use aliceml_seam.Pickle.Refine.{Commits}
use aliceml_seam.Pickle.Stream.{
  File, FileStream, make_room, receive, free_space, new_from_file, new_from_string,
}

-- What the documentation says of `gzread` on a file without errors: before the end of the file it
-- delivers at least one byte and no more than are wanted or left, and at the end of it none.
pub record Delivers (file : File) : Type 0 where
  pub count : ℕ → ℕ → ℕ
  pub no_error : (at n : ℕ) → file.gzread at n ≡ some (count at n)
  pub some_bytes : (at n : ℕ) → at < file.length → 0 < n → 0 < count at n
  pub no_more : (at n : ℕ) → at ≤ file.length → count at n + at ≤ file.length
  pub wanted : (at n : ℕ) → count at n ≤ n

-- The buffer ends where the file is read up to, and holds bytes of the whole content `w`; reads
-- that are not committed count for nothing.
pub record Follows (file : File) (s : FileStream) (w : InputStream) : Type 0 where
  pub base : ℕ
  pub at_hd : w.hd ≡ s.input.hd + base
  pub w_starts : w.rd ≡ w.hd
  pub w_more : w.eob ≡ false
  pub same : (j : ℕ) → j < s.input.tl → w.buffer (j + base) ≡ s.input.buffer j
  pub inside : s.input.hd ≤ s.input.tl
  pub read_to : s.input.tl + base ≡ s.offset
  pub within : s.offset ≤ w.tl
  pub whole : w.tl ≡ file.length
  pub content : (j : ℕ) → j < file.length → w.buffer j ≡ file.bytes j
  pub fits : s.input.tl ≤ s.size

module _ (file : File) (s : FileStream) (w : InputStream) (v : Follows file s w) where
  pub make_room-Follows : Follows file (make_room s) w
  unfolding make_room
  make_room-Follows = elim (Bool-cases (ltb 0 s.input.hd)) [
    | inl moved ↦ rw moved (record {
      base = s.input.hd + v.base;
      at_hd = omega (arith, v.at_hd);
      w_starts = v.w_starts;
      w_more = v.w_more;
      same = λ j lt. rw (lt→ltb j (s.input.tl - s.input.hd) lt) (
          ap w.buffer {y = s.input.hd + j + v.base} (omega arith)
          ∙ v.same (s.input.hd + j) (omega (arith, v.inside)));
      inside = omega (arith);
      read_to = omega (arith, v.read_to, v.inside);
      within = v.within;
      whole = v.whole;
      content = v.content;
      fits = omega (arith, v.fits);
    })
    | inr front ↦ rw front (record {
      base = v.base;
      at_hd = v.at_hd;
      w_starts = v.w_starts;
      w_more = v.w_more;
      same = v.same;
      inside = v.inside;
      read_to = v.read_to;
      within = v.within;
      whole = v.whole;
      content = v.content;
      fits = elim (Bool-cases (s.input.tl == s.size)) [
        | inl full ↦ rw full (omega (arith, v.fits))
        | inr r ↦ rw r v.fits
      ];
    })
  ]

  pub make_room_free : 0 < free_space (make_room s)
  unfolding make_room free_space
  make_room_free = let fits = v.fits in ground (arith, v.inside)

  pub make_room_offset : (make_room s).offset ≡ s.offset
  unfolding make_room
  make_room_offset = ground arith

  pub make_room_starts : (make_room s).input.rd ≡ (make_room s).input.hd
  unfolding make_room
  make_room_starts = ground arith

  pub make_room_more : (make_room s).input.eob ≡ false
  unfolding make_room
  make_room_more = ground arith

  received :
      (n : ℕ)
      → n + s.offset ≤ file.length
      → (j : ℕ) → j < s.input.tl + n
      → w.buffer (j + v.base) ≡ (receive file n s).input.buffer j
  unfolding receive
  received n left j lt = elim (Bool-cases (ltb j s.input.tl)) [
    | inl old ↦
        rw (lt→leb s.input.tl j (ltb→lt j s.input.tl old)) (v.same j (ltb→lt j s.input.tl old))
    | inr new ↦
        rw (le→leb s.input.tl j (ltb→le j s.input.tl new), lt→ltb j (s.input.tl + n) lt)
          (let le = ltb→le j s.input.tl new in
            v.content (j + v.base) (omega (arith, v.read_to))
            ∙ ap file.bytes (omega (arith, v.read_to)))
  ]

  pub receive-Follows :
      (n : ℕ) → n + s.offset ≤ file.length → n ≤ free_space s → Follows file (receive file n s) w
  unfolding receive free_space
  receive-Follows n left room = record {
    base = v.base;
    at_hd = v.at_hd;
    w_starts = v.w_starts;
    w_more = v.w_more;
    same = λ j lt. received n left j lt;
    inside = omega (arith, v.inside);
    read_to = omega (arith, v.read_to);
    within = omega (arith, v.whole);
    whole = v.whole;
    content = v.content;
    fits = omega (arith, v.fits);
  }

pub record Ready (file : File) (s : FileStream) (w : InputStream) : Type 0 where
  pub follows : Follows file s w
  pub starts : s.input.rd ≡ s.input.hd
  pub more : s.input.eob ≡ false

module _ (file : File) (s : FileStream) (w : InputStream) (r : Ready file s w) where
  pub Ready-Sees : Sees r.follows.base s.input w
  Ready-Sees =
      let v = r.follows in
      record {
        at_hd = v.at_hd;
        at_rd = omega (arith, v.at_hd, v.w_starts, r.starts);
        within = omega (arith, v.read_to, v.within);
        same = v.same;
        inside = omega (arith, v.inside, r.starts);
        more_s = r.more;
        more_w = v.w_more;
      }

  pub fetched-Ready :
      (t u : InputStream)
      → Commits s.input t
      → Commits w u
      → Sees r.follows.base t u
      → Ready file (record s { input = t }) u
  fetched-Ready t u c d seen =
      let v = r.follows in
      record {
        follows = record {
          base = v.base;
          at_hd = seen.at_hd;
          w_starts = d.at_rd;
          w_more = seen.more_w;
          same = seen.same;
          inside = omega (arith, seen.inside, c.at_rd);
          read_to = omega (arith, v.read_to, c.same_tl);
          within = omega (arith, v.within, d.same_tl);
          whole = d.same_tl ∙ v.whole;
          content = λ j lt. ap (λ g. g j) d.same_buffer ∙ v.content j lt;
          fits = omega (arith, v.fits, c.same_tl);
        };
        starts = c.at_rd;
        more = seen.more_s;
      }

  pub starved_Follows :
      (t : InputStream) → Keeps s.input t → Follows file (record s { input = t }) w
  starved_Follows t kept =
      let v = r.follows in
      record {
        base = v.base;
        at_hd = omega (arith, v.at_hd, kept.same_hd);
        w_starts = v.w_starts;
        w_more = v.w_more;
        same =
            λ j lt. v.same j (omega (arith, kept.same_tl)) ∙ sym (ap (λ g. g j) kept.same_buffer);
        inside = omega (arith, v.inside, kept.same_hd, kept.same_tl);
        read_to = omega (arith, v.read_to, kept.same_tl);
        within = v.within;
        whole = v.whole;
        content = v.content;
        fits = omega (arith, v.fits, kept.same_tl);
      }

module _ (file : File) (good : Delivers file) where
  pub no_bytes_at_end :
      (s : FileStream)
      → good.count s.offset (free_space s) ≡ 0
      → 0 < free_space s
      → s.offset ≤ file.length
      → s.offset ≡ file.length
  no_bytes_at_end s none_left free le = elim (Bool-cases (ltb s.offset file.length)) [
    | inl lt ↦
        let some_bytes = good.some_bytes s.offset (free_space s) (ltb→lt _ _ lt) free in
        absurd (omega arith)
    | inr ge ↦ let le' = ltb→le _ _ ge in omega arith
  ]

-- Nothing is read yet.
pub new_from_file-Ready :
    (file : File) → Ready file new_from_file (new_from_string file.bytes file.length)
unfolding new_from_file new_from_string
new_from_file-Ready file = record {
  follows = record {
    base = 0;
    at_hd = refl;
    w_starts = refl;
    w_more = refl;
    same = λ j lt. absurd (omega arith);
    inside = omega arith;
    read_to = refl;
    within = omega arith;
    whole = refl;
    content = λ j lt. refl;
    fits = omega arith;
  };
  starts = refl;
  more = refl;
}

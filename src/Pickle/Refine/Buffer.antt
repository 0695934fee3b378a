-- ===== src/Pickle/Refine/Buffer.antt =====
-- generic/Unpickler.cc: a buffer that holds a part of the stream, and the reads of bytes and numbers.
use aliceml_seam.Base.{
  ℕ, zero, suc, ◌+◌, ◌-◌, ◌*◌, ◌^◌, ◌%◌, ◌≤◌, ◌<◌, ◌≡◌, ◌∙◌, refl, sym, ap, arith, true, false, leb,
  Bool-cases, inl, inr,
}
use aliceml_seam.Pickle.{
  InputStream, Read, number, end_of_buffer, out_of_range, bad_shift, get_byte, get_bytes, get_loop,
  commit, int_precision,
}

-- The buffer of `s` holds the bytes of `w` from `k` on, as far as it is filled; both are read up to
-- the same byte.
pub record Sees (k : ℕ) (s w : InputStream) : Type 0 where
  pub at_hd : w.hd ≡ s.hd + k
  pub at_rd : w.rd ≡ s.rd + k
  pub within : s.tl + k ≤ w.tl
  pub same : (j : ℕ) → j < s.tl → w.buffer (j + k) ≡ s.buffer j
  pub inside : s.rd ≤ s.tl
  pub more_s : s.eob ≡ false
  pub more_w : w.eob ≡ false

abbrev advance : ℕ → InputStream → InputStream
advance n s = record s { rd = s.rd + n }

get_byte_room : (s : InputStream) → s.rd < s.tl → get_byte s ≡ (s.buffer s.rd, advance 1 s)
unfolding get_byte
get_byte_room s lt = ground (arith)

pub get_byte_lt : (s : InputStream) → (get_byte s).1.eob ≡ false → s.rd < s.tl
unfolding get_byte
get_byte_lt s e = ground (arith)

get_bytes_room : (n : ℕ) (s : InputStream) → s.rd + n < s.tl → get_bytes n s ≡ advance n s
unfolding get_bytes
get_bytes_room n s lt = ground (arith)

pub get_bytes_lt : (n : ℕ) (s : InputStream) → (get_bytes n s).eob ≡ false → s.rd + n < s.tl
unfolding get_bytes
get_bytes_lt n s e = ground (arith)

-- Reading moves nothing but the read position, and notes the end of the buffer.
pub record Keeps (s t : InputStream) : Type 0 where
  pub same_buffer : t.buffer ≡ s.buffer
  pub same_hd : t.hd ≡ s.hd
  pub same_tl : t.tl ≡ s.tl

pub Keeps-trans : (s t u : InputStream) → Keeps s t → Keeps t u → Keeps s u
Keeps-trans s t u a b = record {
  same_buffer = b.same_buffer ∙ a.same_buffer;
  same_hd = b.same_hd ∙ a.same_hd;
  same_tl = b.same_tl ∙ a.same_tl;
}

pub get_byte-Keeps : (s : InputStream) → Keeps s (get_byte s).1
unfolding get_byte
get_byte-Keeps s = elim (Bool-cases (leb s.tl s.rd)) [
  | inl out ↦ rw out (record { same_buffer = refl; same_hd = refl; same_tl = refl })
  | inr room ↦ rw room (record { same_buffer = refl; same_hd = refl; same_tl = refl })
]

pub get_bytes-Keeps : (n : ℕ) (s : InputStream) → Keeps s (get_bytes n s)
unfolding get_bytes
get_bytes-Keeps n s = elim (Bool-cases (leb s.tl (s.rd + n))) [
  | inl out ↦ rw out (record { same_buffer = refl; same_hd = refl; same_tl = refl })
  | inr room ↦ rw room (record { same_buffer = refl; same_hd = refl; same_tl = refl })
]

pub get_loop-Keeps : (n shift value : ℕ) (s : InputStream) → Keeps s (get_loop n shift value s).1
unfolding get_loop
get_loop-Keeps zero shift value s = elim (Bool-cases (get_byte s).1.eob) [
  | inl out ↦ rw out (get_byte-Keeps s)
  | inr room ↦ rw room (get_byte-Keeps s)
]
get_loop-Keeps (suc n) shift value s =
    let b = (get_byte s).0 in
    elim (Bool-cases (get_byte s).1.eob) [
      | inl out ↦ rw out (get_byte-Keeps s)
      | inr room ↦ elim (Bool-cases (leb (2 ^ (int_precision - shift)) (b % 2 ^ 7))) [
        | inl big ↦ rw (room, big) (get_byte-Keeps s)
        | inr fits ↦ elim (Bool-cases (leb 0x80 b)) [
          | inl more ↦
              rw (room, fits, more)
                (Keeps-trans _ _ _ (get_byte-Keeps s)
                  (get_loop-Keeps n (shift + 7) (value + b % 2 ^ 7 * 2 ^ shift) (get_byte s).1))
          | inr last ↦ rw (room, fits, last) (get_byte-Keeps s)
        ]
      ]
    ]

module _ (k : ℕ) where
  advance-Sees :
      (n : ℕ) (s w : InputStream)
      → Sees k s w
      → s.rd + n ≤ s.tl
      → Sees k (advance n s) (advance n w)
  advance-Sees n s w v fits = record {
    at_hd = v.at_hd;
    at_rd = omega (arith, v.at_rd);
    within = v.within;
    same = v.same;
    inside = fits;
    more_s = v.more_s;
    more_w = v.more_w;
  }

  rd-lt : (s w : InputStream) (n : ℕ) → Sees k s w → s.rd + n < s.tl → w.rd + n < w.tl
  rd-lt s w n v lt = omega (arith, v.at_rd, v.within)

  pub same_byte :
      (s w : InputStream) (i : ℕ)
      → Sees k s w
      → s.rd + i < s.tl
      → w.buffer (w.rd + i) ≡ s.buffer (s.rd + i)
  same_byte s w i v lt =
      ap w.buffer {y = s.rd + i + k} (omega (arith, v.at_rd)) ∙ v.same (s.rd + i) lt

  pub get_byte-Sees :
      (s w : InputStream)
      → Sees k s w
      → (get_byte s).1.eob ≡ false
      → ((get_byte w).0 ≡ (get_byte s).0) × Sees k (get_byte s).1 (get_byte w).1
  get_byte-Sees s w v e =
      let lt = get_byte_lt s e in
      let room : w.rd < w.tl = omega (arith, v.at_rd, v.within) in
      let byte_at : w.buffer w.rd ≡ s.buffer s.rd =
        ap w.buffer {y = s.rd + k} v.at_rd ∙ v.same s.rd lt in
      rw (get_byte_room s lt, get_byte_room w room) (byte_at, advance-Sees 1 s w v (omega arith))

  pub get_bytes-Sees :
      (n : ℕ) (s w : InputStream)
      → Sees k s w
      → (get_bytes n s).eob ≡ false
      → Sees k (get_bytes n s) (get_bytes n w)
  get_bytes-Sees n s w v e =
      let lt = get_bytes_lt n s e in
      rw (get_bytes_room n s lt, get_bytes_room n w (rd-lt s w n v lt))
        (advance-Sees n s w v (omega arith))

  pub get_bytes_end :
      (n : ℕ) (s w : InputStream)
      → Sees k s w
      → s.tl + k ≡ w.tl
      → (get_bytes n s).eob ≡ true
      → (get_bytes n w).eob ≡ true
  unfolding get_bytes
  get_bytes_end n s w v full e = ground (arith, v.at_rd, v.more_s)

  pub get_byte_end :
      (s w : InputStream)
      → Sees k s w
      → s.tl + k ≡ w.tl
      → (get_byte s).1.eob ≡ true
      → (get_byte w).1.eob ≡ true
  unfolding get_byte
  get_byte_end s w v full e = ground (arith, v.at_rd, v.more_s)

  pub commit-Sees : (s w : InputStream) → Sees k s w → Sees k (commit s) (commit w)
  unfolding commit
  commit-Sees s w v = record {
    at_hd = v.at_rd;
    at_rd = v.at_rd;
    within = v.within;
    same = v.same;
    inside = v.inside;
    more_s = v.more_s;
    more_w = v.more_w;
  }

  unfoldable pub LoopSees : Read × InputStream → Read × InputStream → Type 0
  LoopSees (number v, t) (q, u) = (q ≡ number v) × Sees k t u
  LoopSees (end_of_buffer, t) (q, u) = Unit
  LoopSees (out_of_range, t) (q, u) = q ≡ out_of_range
  LoopSees (bad_shift, t) (q, u) = q ≡ bad_shift

  pub get_loop-Sees :
      (n shift value : ℕ) (s w : InputStream)
      → Sees k s w
      → LoopSees (get_loop n shift value s) (get_loop n shift value w)
  unfolding get_loop LoopSees
  get_loop-Sees zero shift value s w v = elim (Bool-cases (get_byte s).1.eob) [
    | inl out ↦ rw out tt
    | inr room ↦ let (same, later) = get_byte-Sees s w v room in rw (room, later.more_w) refl
  ]
  get_loop-Sees (suc n) shift value s w v = elim (Bool-cases (get_byte s).1.eob) [
    | inl out ↦ rw out tt
    | inr room ↦
        let (same, later) = get_byte-Sees s w v room in
        let b = (get_byte s).0 in
        rw (room, later.more_w, same)
          (elim (Bool-cases (leb (2 ^ (int_precision - shift)) (b % 2 ^ 7))) [
            | inl big ↦ rw big refl
            | inr fits ↦ elim (Bool-cases (leb 0x80 b)) [
              | inl more ↦
                  rw (fits, more)
                    (get_loop-Sees n (shift + 7) (value + b % 2 ^ 7 * 2 ^ shift) _ _ later)
              | inr last ↦ rw (fits, last) (refl, later)
            ]
          ])
  ]

  pub get_loop_end :
      (n shift value : ℕ) (s w : InputStream)
      → Sees k s w
      → s.tl + k ≡ w.tl
      → (get_loop n shift value s).0 ≡ end_of_buffer
      → (get_loop n shift value w).0 ≡ end_of_buffer
  unfolding get_loop
  get_loop_end zero shift value s w v full e = elim (Bool-cases (get_byte s).1.eob) [
    | inl out ↦ rw (get_byte_end s w v full out) refl
    | inr room ↦ absurd (cc (rw room at e))
  ]
  get_loop_end (suc n) shift value s w v full e = elim (Bool-cases (get_byte s).1.eob) [
    | inl out ↦ rw (get_byte_end s w v full out) refl
    | inr room ↦
        let (same, later) = get_byte-Sees s w v room in
        let b = (get_byte s).0 in
        rw (later.more_w, same)
          (elim (Bool-cases (leb (2 ^ (int_precision - shift)) (b % 2 ^ 7))) [
            | inl big ↦ absurd (cc (rw (room, big) at e))
            | inr fits ↦ elim (Bool-cases (leb 0x80 b)) [
              | inl more ↦
                  rw (fits, more)
                    (get_loop_end n (shift + 7) (value + b % 2 ^ 7 * 2 ^ shift) _ _ later
                      (ap (λ t. t + k) (get_byte-Keeps s).same_tl
                        ∙ full
                        ∙ sym (get_byte-Keeps w).same_tl)
                      (rw (room, fits, more) at e))
              | inr last ↦ absurd (cc (rw (room, fits, last) at e))
            ]
          ])
  ]

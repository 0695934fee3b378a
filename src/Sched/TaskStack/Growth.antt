-- ===== src/Sched/TaskStack/Growth.antt =====
-- generic/TaskStack.cc: the growth of a task stack ends.
use aliceml_seam.Base.{
  ℕ, zero, suc, ◌+◌, ◌<◌, ◌≤◌, ◌≡◌, refl, arith, none, some, Option, ◌∙◌, ap, ltb, ltb→lt, ltb→le,
  Bool-cases, Option-cases, inl, inr,
}
use aliceml_seam.Store.Block.{Word, memcpy}
use aliceml_seam.Store.Sizes.{translate_size-ge, translate_size-le}
use aliceml_seam.Sched.TaskStack.{
  TaskStack, Frames, Push, pushed, overflow, max_dynblocksize, new, enlarged_size, enlarge,
  push_frame,
}

enlarged_size-lt :
    (size bigger : ℕ)
    → 4 ≤ size
    → enlarged_size size ≡ some bigger
    → (size < bigger) × (bigger ≤ max_dynblocksize)
unfolding enlarged_size
enlarged_size-lt size bigger least e = ground arith

enlarged_size-none : (size : ℕ) → enlarged_size size ≡ none → max_dynblocksize ≤ size
unfolding enlarged_size
enlarged_size-none size e = ground arith

enlarged_size-le : (size bigger : ℕ) → enlarged_size size ≡ some bigger → bigger ≤ max_dynblocksize
unfolding enlarged_size
enlarged_size-le size bigger e = ground arith

abbrev size_or : ℕ → Option TaskStack → ℕ
size_or n none = n
size_or n (some t) = t.size

-- `Enlarge` keeps every word of the stack, and the stack grows.
pub enlarge_keeps :
    (empty_task : Word) (t r : TaskStack)
    → 4 ≤ t.size
    → enlarge empty_task t ≡ some r
    → (t.size < r.size) × ((i : ℕ) → i < t.size → r.words i ≡ t.words i)
unfolding enlarge new memcpy
enlarge_keeps empty_task t r least e = elim (Option-cases (enlarged_size t.size)) [
  | inl over ↦ absurd (cc (rw (over, enlarge) at e))
  | inr (bigger, found) ↦
      let (lt, bound) = enlarged_size-lt t.size bigger least found in
      let made = rw (found, enlarge) at e in
      (ground (arith, translate_size-ge (bigger + 1), made), λ i below. ground (arith, made))
]

-- The stack does not grow beyond the largest block, and only there it does not grow.
enlarge_bounded :
    (empty_task : Word) (t r : TaskStack)
    → enlarge empty_task t ≡ some r
    → r.size ≤ max_dynblocksize
unfolding enlarge new
enlarge_bounded empty_task t r e = elim (Option-cases (enlarged_size t.size)) [
  | inl over ↦ absurd (cc (rw (over, enlarge) at e))
  | inr (bigger, found) ↦
      let made = rw (found, enlarge) at e in
      let small = enlarged_size-le t.size bigger found in
      let rounded = translate_size-le (bigger + 1) (omega arith) in
      let sizes = ap (size_or 0) made in omega arith
]

enlarge_limit :
    (empty_task : Word) (t : TaskStack) → enlarge empty_task t ≡ none → max_dynblocksize ≤ t.size
unfolding enlarge enlarged_size
enlarge_limit empty_task t e = elim (Option-cases (enlarged_size t.size)) [
  | inl over ↦ enlarged_size-none t.size over
  | inr (bigger, found) ↦ absurd (cc (rw (found, enlarge) at e))
]

-- What PushFrame comes to: room for the frame on a stack with the same words, or a frame that ends
-- at or behind the limit of the task stacks.
abbrev pub Comes : Frames → ℕ → Push → Type 0
Comes s size (pushed r) =
    (r.top ≡ s.top + size)
    × (r.top < r.stack.size)
    × (s.stack.size ≤ r.stack.size)
    × (r.stack.size ≤ max_dynblocksize)
    × ((i : ℕ) → i < s.stack.size → r.stack.words i ≡ s.stack.words i)
Comes s size overflow = max_dynblocksize ≤ s.top + size

kept_longer :
    (s : Frames) (bigger : TaskStack) (size : ℕ) (p : Push)
    → s.stack.size < bigger.size
    → ((i : ℕ) → i < s.stack.size → bigger.words i ≡ s.stack.words i)
    → Comes (record s { stack = bigger }) size p
    → Comes s size p
kept_longer s bigger size (pushed r) lt kept (at, room, longer, bound, same) =
    (at, room, omega arith, bound, λ i below. same i (omega arith) ∙ kept i below)
kept_longer s bigger size overflow lt kept over = over

pub push_frame_total :
    (fuel : ℕ) (empty_task : Word) (s : Frames) (size : ℕ)
    → 4 ≤ s.stack.size
    → s.stack.size ≤ max_dynblocksize
    → max_dynblocksize ≤ fuel + s.stack.size
    → (p : Push) × (push_frame (suc fuel) empty_task s size ≡ some p) × Comes s size p
unfolding push_frame
push_frame_total zero empty_task s size least bound enough =
    elim (Bool-cases (ltb (s.top + size) s.stack.size)) [
      | inl room ↦ (
        pushed (record s { top = s.top + size }),
        rw room refl,
        (refl, ltb→lt (s.top + size) s.stack.size room, omega arith, bound, λ i below. refl),
      )
      | inr full ↦ elim (Option-cases (enlarge empty_task s.stack)) [
        | inl over ↦
            let limit = enlarge_limit empty_task s.stack over in
            let end = ltb→le (s.top + size) s.stack.size full in
            (overflow, rw (full, over) refl, omega arith)
        | inr (bigger, grown) ↦
            let (lt, kept) = enlarge_keeps empty_task s.stack bigger least grown in
            let small = enlarge_bounded empty_task s.stack bigger grown in absurd (omega arith)
      ]
    ]
push_frame_total (suc fuel) empty_task s size least bound enough =
    elim (Bool-cases (ltb (s.top + size) s.stack.size)) [
      | inl room ↦ (
        pushed (record s { top = s.top + size }),
        rw room refl,
        (refl, ltb→lt (s.top + size) s.stack.size room, omega arith, bound, λ i below. refl),
      )
      | inr full ↦ elim (Option-cases (enlarge empty_task s.stack)) [
        | inl over ↦
            let limit = enlarge_limit empty_task s.stack over in
            let end = ltb→le (s.top + size) s.stack.size full in
            (overflow, rw (full, over) refl, omega arith)
        | inr (bigger, grown) ↦
            let (lt, kept) = enlarge_keeps empty_task s.stack bigger least grown in
            let small = enlarge_bounded empty_task s.stack bigger grown in
            let (p, run, comes) =
              push_frame_total fuel empty_task (record s { stack = bigger }) size (omega arith)
                small (omega arith) in
            (p, rw (full, grown) run, kept_longer s bigger size p lt kept comes)
      ]
    ]

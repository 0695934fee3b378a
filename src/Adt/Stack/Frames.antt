-- ===== src/Adt/Stack/Frames.antt =====
-- adt/Stack.hh: frames of arguments on the stack, and the cells that a frame argument names.
use aliceml_seam.Base.{
  if◌then◌else◌, ◌==◌, ℕ, suc, ◌+◌, ◌*◌, ◌/◌, ◌≤◌, ◌<◌, ◌≡◌, ◌∙◌, ap, ap₂, arith, [], ◌∷◌, ◌++◌,
  tabulate, tabulate_congr, tabulate-snoc,
}
use aliceml_seam.Store.Block.{Word, write, memcpy, alloc_block, max_bigblocksize}
use aliceml_seam.Store.Sizes.{translate_size-ge, translate_size-le}
use aliceml_seam.Adt.Stack.{
  Stack, put, enlarge, alloc_arg_frame, alloc_frame, clear_arg_frame, clear_arg_frame_zero,
  slow_push, top_word, get_frame_arg, get_absolute_arg, put_frame_arg,
}
use aliceml_seam.Adt.Stack.Items.{items, IsValid}

-- The size that a frame of `fsize` words may make the array grow to is one of a block.
abbrev pub Fits : Stack → ℕ → Type 0
Fits s fsize = (s.top + fsize) * 3 / 2 ≤ max_bigblocksize

-- AllocArgFrame on a valid stack, whose grown array is not larger than a block, raises the top by the
-- size of the frame, keeps the stack valid and keeps every item below the frame.
pub alloc_arg_frame_refines :
    (s : Stack) (fsize : ℕ)
    → IsValid s
    → Fits s fsize
    → let t = alloc_arg_frame s fsize in
      (t.top ≡ s.top + fsize)
      × IsValid t
      × ((i : ℕ) → i < s.top → get_absolute_arg t i ≡ get_absolute_arg s i)
unfolding alloc_arg_frame enlarge memcpy alloc_block get_absolute_arg
alloc_arg_frame_refines s fsize ok small =
    let bigger = translate_size-ge ((s.top + fsize) * 3 / 2) in
    let least = translate_size-le ((s.top + fsize) * 3 / 2) small in
    (ground arith, ground (arith, bigger, least), λ i p. ground arith)

-- `AllocFrame` makes room for the frame and changes neither the top nor the items.
pub alloc_frame_refines :
    (s : Stack) (fsize : ℕ)
    → IsValid s
    → Fits s fsize
    → let t = alloc_frame s fsize in
      (items t ≡ items s) × IsValid t × (t.top + fsize ≤ t.array.size)
unfolding alloc_frame enlarge memcpy alloc_block
alloc_frame_refines s fsize ok small =
    let bigger = translate_size-ge ((s.top + fsize) * 3 / 2) in
    let least = translate_size-le ((s.top + fsize) * 3 / 2) small in
    (
      ap (λ n. tabulate n (alloc_frame s fsize).array.word_at) {y = s.top} (ground arith)
          ∙ tabulate_congr _ _ _ (λ i p. ground arith),
      ground (arith, bigger, least),
      ground (arith, bigger, least),
    )

-- A frame that is allocated and cleared again leaves the items as they were.
pub clear_arg_frame_zero-alloc_arg_frame :
    (s : Stack) (fsize : ℕ)
    → IsValid s
    → Fits s fsize
    → items (clear_arg_frame_zero (alloc_arg_frame s fsize) fsize) ≡ items s
unfolding clear_arg_frame_zero get_absolute_arg
clear_arg_frame_zero-alloc_arg_frame s fsize ok small =
    let (top, valid, same) = alloc_arg_frame_refines s fsize ok small in
    let fits = valid.fits in
    let word = valid.small in
    ap (λ n. tabulate n (alloc_arg_frame s fsize).array.word_at) {y = s.top} (omega arith)
    ∙ tabulate_congr _ _ _ same

-- `ClearArgFrame` drops the frame below the last item and keeps that item on top.
pub clear_arg_frame_refines :
    (s : Stack) (n fsize : ℕ)
    → IsValid s
    → s.top ≡ suc (n + fsize)
    → let t = clear_arg_frame s fsize in
      (items t ≡ tabulate n s.array.word_at ++ (top_word s ∷ [])) × IsValid t
unfolding clear_arg_frame top_word put write
clear_arg_frame_refines s n fsize ok e = (
  ap (λ k. tabulate k (clear_arg_frame s fsize).array.word_at) {y = suc n} (omega arith)
      ∙ tabulate-snoc n (clear_arg_frame s fsize).array.word_at
      ∙ ap₂ (λ xs x. xs ++ (x ∷ [])) (tabulate_congr _ _ _ (λ i p. ground arith)) (ground arith),
  ground arith,
)

-- Frame arguments count from the top: argument 0 is the item just pushed.
pub get_frame_arg-slow_push :
    (s : Stack) (v : Word) (f : ℕ)
    → IsValid s
    → 2 ≤ s.array.size
    → s.array.size * 3 / 2 ≤ max_bigblocksize
    → f < s.top
    → (get_frame_arg (slow_push s v) 0 ≡ v)
      × (get_frame_arg (slow_push s v) (suc f) ≡ get_frame_arg s f)
unfolding slow_push put write enlarge memcpy alloc_block get_frame_arg
get_frame_arg-slow_push s v f ok two small h = (ground arith, ground arith)

-- `PutFrameArg` writes the argument that `GetFrameArg` reads, and no other.
pub get_frame_arg-put_frame_arg :
    (s : Stack) (f g : ℕ) (v : Word)
    → IsValid s
    → f < s.top
    → g < s.top
    → get_frame_arg (put_frame_arg s f v) g ≡ (if f == g then v else get_frame_arg s g)
unfolding get_frame_arg put_frame_arg put write
get_frame_arg-put_frame_arg s f g v ok hf hg = ground arith

-- ===== src/Pickle/Tree/Words.antt =====
-- generic/Unpickler.cc: the words that the instructions of a value leave on the stack.
use aliceml_seam.Base.{
  ℕ, suc, ◌+◌, ◌-◌, ◌≤◌, ◌<◌, ◌≡◌, ◌∙◌, refl, ap, arith, List, [], ◌∷◌, some, true, length,
  ==_of_ne, ==_refl, lt→ltb, ◌==◌, if◌then◌else◌,
}
use aliceml_seam.Pickle.Heap.{Value, Cell, Heap, alloc}
use aliceml_seam.Pickle.Frame.{Frame, push, pop, pop_args, put}
use aliceml_seam.Pickle.Machine.{Machine, next, push_new}
use aliceml_seam.Pickle.Tree.{
  Tree, Trees, posint, negint, chunk, node, empty, more, Represents, RepresentsAll,
}

-- The words of a stack above a base, the top first.
unfoldable pub OnStack : (ℕ → Value) → ℕ → List Value → Type 0
OnStack slots base [] = Unit
OnStack slots base (v ∷ vs) = (slots (base + length vs) ≡ v) × OnStack slots base vs

pub OnStack-kept :
    (vs : List Value) (f g : ℕ → Value) (base : ℕ)
    → OnStack f base vs
    → ((j : ℕ) → j < base + length vs → g j ≡ f j)
    → OnStack g base vs
unfolding OnStack
OnStack-kept [] f g base h same = tt
OnStack-kept (v ∷ vs) f g base (e, h) same = (
  same (base + length vs) (omega arith) ∙ e,
  OnStack-kept vs f g base h (λ j lt. same j (omega arith)),
)

pub pop_args-OnStack :
    (vs : List Value) (f : Frame) (base : ℕ)
    → OnStack f.slots base vs
    → f.top ≡ base + length vs
    → pop_args (length vs) f ≡ some (vs, record f { top = base })
unfolding pop_args pop OnStack
pop_args-OnStack [] f base h at =
    ap (λ n. some ([], record f { top = n })) {x = f.top} {y = base} (omega (arith, at))
pop_args-OnStack (v ∷ vs) f base (e, h) at =
    rw (lt→ltb 0 f.top (omega (arith, at)), pop_args, pop)
      (rw (pop_args-OnStack vs (record f { top = f.top - 1 }) base h (omega (arith, at))) (
        ap (λ x. some (x ∷ vs, record f { top = base }))
          (ap f.slots {y = base + length vs} (omega (arith, at)) ∙ e)))

pub record Extends (h k : Heap) : Type 0 where
  pub next_le : h.next ≤ k.next
  pub kept : (a : ℕ) → a < h.next → k.cells a ≡ h.cells a

mutual
  unfolding Represents

  pub Represents-kept :
      (t : Tree) (h k : Heap) (v : Value) → Extends h k → Represents h v t → Represents k v t
  Represents-kept (posint y) h k v x r = r
  Represents-kept (negint y) h k v x r = r
  Represents-kept (chunk m bs) h k v x (a, e, lt, c) =
      (a, e, omega (arith, x.next_le), x.kept a lt ∙ c)
  Represents-kept (node m label ts) h k v x (a, vs, e, lt, c, r) =
      (a, vs, e, omega (arith, x.next_le), x.kept a lt ∙ c, RepresentsAll-kept ts h k vs x r)

  pub RepresentsAll-kept :
      (ts : Trees) (h k : Heap) (vs : List Value)
      → Extends h k
      → RepresentsAll h vs ts
      → RepresentsAll k vs ts
  RepresentsAll-kept empty h k [] x r = tt
  RepresentsAll-kept (more t ts) h k (v ∷ vs) x (r, rs) =
      (Represents-kept t h k v x r, RepresentsAll-kept ts h k vs x rs)
  RepresentsAll-kept empty h k (v ∷ vs) x r = elim r [ ]
  RepresentsAll-kept (more t ts) h k [] x r = elim r [ ]

-- From `m` to `k`, words are pushed and blocks are made; nothing else is changed.
pub record Built (m k : Machine) (vs : List Value) : Type 0 where
  pub size_same : k.frame.size ≡ m.frame.size
  pub top_at : k.frame.top ≡ m.frame.top + length vs
  pub on_stack : OnStack k.frame.slots m.frame.top vs
  pub kept : (j : ℕ) → j < m.frame.top → k.frame.slots j ≡ m.frame.slots j
  pub extends : Extends m.heap k.heap

pub Extends-trans : (h k l : Heap) → Extends h k → Extends k l → Extends h l
Extends-trans h k l x y = record {
  next_le = omega (arith, x.next_le, y.next_le);
  kept = λ a lt. y.kept a (omega (arith, x.next_le)) ∙ x.kept a lt;
}

pub Built-more :
    (m k l : Machine) (v : Value) (vs : List Value)
    → Built m k vs
    → Built k l (v ∷ [])
    → Built m l (v ∷ vs)
unfolding OnStack
Built-more m k l v vs x y = record {
  size_same = y.size_same ∙ x.size_same;
  top_at = omega (arith, x.top_at, y.top_at);
  on_stack = (
    ap l.frame.slots (omega (arith, x.top_at)) ∙ y.on_stack.0,
    OnStack-kept vs k.frame.slots l.frame.slots m.frame.top x.on_stack
        (λ j lt. y.kept j (omega (arith, x.top_at))),
  );
  kept = λ j lt. y.kept j (omega (arith, x.top_at)) ∙ x.kept j lt;
  extends = Extends-trans m.heap k.heap l.heap x.extends y.extends;
}

-- A word that is pushed over what was popped.
pub push-Built :
    (m k : Machine) (h : Heap) (v : Value) (vs : List Value)
    → Built m k vs
    → Extends k.heap h
    → m.frame.top < m.frame.size
    → (l : Machine) × (push_new (record k { frame = record k.frame { top = m.frame.top } }) (v, h)
        ≡ next l)
      × Built m l (v ∷ [])
      × (l.heap ≡ h)
unfolding push put OnStack
push-Built m k h v vs x y lt = (
  record k {
    frame = record k.frame {
      slots = λ j. if j == m.frame.top then v else k.frame.slots j;
      top = m.frame.top + 1;
    };
    heap = h;
  },
  rw (lt→ltb m.frame.top k.frame.size (omega (arith, x.size_same))) refl,
  record {
    size_same = x.size_same;
    top_at = refl;
    on_stack = (
      let e : (m.frame.top + 0 == m.frame.top) ≡ true = ground arith in
          ap (λ t. if t then v else k.frame.slots (m.frame.top + 0)) e,
      tt,
    );
    kept = λ j jt.
        ap (λ t. if t then v else k.frame.slots j) (==_of_ne j m.frame.top (omega arith))
        ∙ x.kept j jt;
    extends = Extends-trans m.heap k.heap h x.extends y;
  },
  refl,
)

pub alloc-Extends : (c : Cell) (h : Heap) → Extends h (alloc c h).1
unfolding alloc
alloc-Extends c h = record {
  next_le = omega arith;
  kept = λ a lt. ap (λ t. if t then c else h.cells a) (==_of_ne a h.next (omega arith));
}

pub alloc_at : (c : Cell) (h : Heap) → (alloc c h).1.cells h.next ≡ c
unfolding alloc
alloc_at c h = ap (λ t. if t then c else h.cells h.next) (==_refl h.next)

pub new_cell :
    (c : Cell) (h l : Heap) → l ≡ (alloc c h).1 → (h.next < l.next) × (l.cells h.next ≡ c)
unfolding alloc
new_cell c h l e = (
  (let e' : l.next ≡ suc h.next = ap (λ x. x.next) e in omega arith),
  ap (λ x. x.cells h.next) e ∙ alloc_at c h,
)

pub Built-none : (m : Machine) → Built m m []
unfolding OnStack
Built-none m = record {
  size_same = refl;
  top_at = omega arith;
  on_stack = tt;
  kept = λ j lt. refl;
  extends = record { next_le = omega arith; kept = λ a lt. refl };
}

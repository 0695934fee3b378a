-- ===== src/Sched/Handlers/Entries.antt =====
-- generic/Thread.hh: the exception handlers as a list, the newest first.
use aliceml_seam.Base.{
  ℕ, zero, suc, ◌+◌, ◌-◌, ◌*◌, ◌/◌, ◌<◌, ◌≤◌, ◌≡◌, ◌∙◌, ap, refl, arith, List, [], ◌∷◌, Option,
  none, some, leb, ◌==◌, if◌then◌else◌, Bool-cases, inl, inr,
}
use aliceml_seam.Store.Block.{Word, translate_size, write, memcpy}
use aliceml_seam.Store.Sizes.{translate_size-ge}
use aliceml_seam.Sched.Handlers.{
  trying, handling, HandlerStack, new, enlarge, push_handler, put_handler, activate_next,
  activate_next_handler, package_below, get_current_package, pop_handler,
}

pub record Handler : Type 0 where
  pub frame : ℕ
  pub state : ℕ
  pub payload : Word

-- The `n` handlers at the bottom of the words.
unfoldable pub entries : ℕ → (ℕ → Word) → List Handler
entries zero words = []
entries (suc n) words =
    record { frame = words (3 * n); state = words (3 * n + 1); payload = words (3 * n + 2) }
    ∷ entries n words

unfoldable pub handlers : HandlerStack → List Handler
unfolding entries
handlers h = entries (h.active / 3) h.words

unfoldable pub IsValid : HandlerStack → Type 0
IsValid h = (h.active ≡ 3 * (h.active / 3)) × (h.active < h.size) × (10 ≤ h.size)

entries_congr :
    (n : ℕ) (v w : ℕ → Word) → ((j : ℕ) → j < 3 * n → v j ≡ w j) → entries n v ≡ entries n w
unfolding entries
entries_congr zero v w same = refl
entries_congr (suc n) v w same = ground (
  arith,
  same (3 * n) (omega arith),
  same (3 * n + 1) (omega arith),
  same (3 * n + 2) (omega arith),
  entries_congr n v w (λ j lt. same j (omega arith)),
)

-- What `ActivateNextHandler` means: the handlers that are being handled are dropped down to the
-- newest one that is not, which is from now on handled with the package.
unfoldable pub activate_list : Word → List Handler → Option ((ℕ × Word) × List Handler)
activate_list exn [] = none
activate_list exn (e ∷ es) =
    let rest = activate_list exn es in
    if e.state == trying
    then some
        ((e.frame, e.payload), record { frame = e.frame; state = handling; payload = exn } ∷ es)
    else rest

unfoldable pub package_list : List Handler → Option Word
package_list [] = none
package_list (e ∷ es) =
    let rest = package_list es in if e.state == handling then some e.payload else rest

abbrev pub listed : Option ((ℕ × Word) × HandlerStack) → Option ((ℕ × Word) × List Handler)
unfolding handlers
listed none = none
listed (some (found, h)) = some (found, handlers h)

new-IsValid : IsValid new
unfolding IsValid new translate_size
new-IsValid = (refl, ground arith, ground arith)

abbrev stored : (ℕ → Word) → ℕ → ℕ → Word → ℕ → Word
stored words top frame payload =
    write (write (write words top frame) (top + 1) trying) (top + 2) payload

abbrev marked : (ℕ → Word) → ℕ → Word → ℕ → Word
marked words top exn = write (write words (top - 1) exn) (top - 2) handling

entries-stored :
    (n : ℕ) (words old : ℕ → Word) (frame : ℕ) (payload : Word)
    → ((j : ℕ) → j < 3 * n → words j ≡ old j)
    → entries (suc n) (stored words (3 * n) frame payload)
      ≡ record { frame = frame; state = trying; payload = payload } ∷ entries n old
unfolding entries write
entries-stored n words old frame payload same = ground (
  arith,
  entries_congr n (stored words (3 * n) frame payload) old (λ j lt. ground (arith, same j lt)),
)

entries-marked :
    (n : ℕ) (words : ℕ → Word) (exn : Word)
    → entries (suc n) (marked words (3 * suc n) exn)
      ≡ record { frame = words (3 * n); state = handling; payload = exn } ∷ entries n words
unfolding entries write
entries-marked n words exn =
    ground (arith, entries_congr n (marked words (3 * suc n) exn) words (λ j lt. ground arith))

enlarge-words : (h : HandlerStack) (j : ℕ) → j + 1 < h.size → (enlarge h).words j ≡ h.words j
unfolding enlarge memcpy
enlarge-words h j lt = ground arith

handlers-put_handler :
    (h old : HandlerStack) (frame : ℕ) (payload : Word)
    → h.active ≡ old.active
    → old.active ≡ 3 * (old.active / 3)
    → ((j : ℕ) → j < old.active → h.words j ≡ old.words j)
    → handlers (put_handler h frame payload)
      ≡ record { frame = frame; state = trying; payload = payload } ∷ handlers old
unfolding handlers put_handler
handlers-put_handler h old frame payload same whole kept =
    let n = old.active / 3 in
    let top : h.active ≡ 3 * n = same ∙ whole in
    let number : (h.active + 3) / 3 ≡ suc n = omega (arith, top) in
    (λ i. entries (number i) (stored h.words (top i) frame payload))
    ∙ entries-stored n h.words old.words frame payload (λ j lt. kept j (omega arith))

put_handler-IsValid :
    (h : HandlerStack) (frame : ℕ) (payload : Word)
    → h.active ≡ 3 * (h.active / 3)
    → h.active + 3 < h.size
    → 10 ≤ h.size
    → IsValid (put_handler h frame payload)
unfolding IsValid put_handler
put_handler-IsValid h frame payload whole room least = ground arith

enlarge_room :
    (h : HandlerStack) → h.active < h.size → 10 ≤ h.size → h.active + 3 < (enlarge h).size
unfolding enlarge
enlarge_room h lt least = omega (arith, translate_size-ge (h.size * 3 / 2 + 1))

-- PushHandler on a valid stack of handlers puts a handler that is tried in front of the others and
-- keeps the stack valid, whether or not the block has to grow.
pub push_handler_refines :
    (h : HandlerStack) (frame : ℕ) (payload : Word)
    → IsValid h
    → IsValid (push_handler h frame payload)
      × (handlers (push_handler h frame payload)
          ≡ record { frame = frame; state = trying; payload = payload } ∷ handlers h)
unfolding IsValid push_handler enlarge
push_handler_refines h frame payload (whole, lt, least) =
    elim (Bool-cases (leb h.size (h.active + 3))) [
      | inl full ↦ (
        rw full (
            put_handler-IsValid (enlarge h) frame payload whole (enlarge_room h lt least)
              (omega (arith, translate_size-ge (h.size * 3 / 2 + 1)))),
        rw full (
            handlers-put_handler (enlarge h) h frame payload refl whole
              (λ j below. enlarge-words h j (ground arith))),
      )
      | inr room ↦ (
        rw room (put_handler-IsValid h frame payload whole (ground arith) least),
        rw room (handlers-put_handler h h frame payload refl whole (λ j below. refl)),
      )
    ]

activate_next_refines :
    (n : ℕ) (h : HandlerStack) (exn : Word)
    → h.active ≡ 3 * n
    → listed (activate_next n h exn) ≡ activate_list exn (entries n h.words)
unfolding activate_next activate_list entries handlers
activate_next_refines zero h exn e = refl
activate_next_refines (suc n) h exn e = elim (Bool-cases (h.words (h.active - 2) == trying)) [
  | inl found ↦ ground (arith, entries-marked n h.words exn)
  | inr handled ↦
      ground (arith, activate_next_refines n (record h { active = h.active - 3 }) exn (omega arith))
]

package_below_refines :
    (n : ℕ) (words : ℕ → Word) → package_below n (3 * n) words ≡ package_list (entries n words)
unfolding package_below package_list entries
package_below_refines zero words = refl
package_below_refines (suc n) words = ground (arith, package_below_refines n words)

-- ActivateNextHandler on a stack of whole handlers drops the handlers that are being handled down
-- to the newest one that is tried, returns its frame and data, and stores the exception in it as
-- being handled; with no such handler it finds none.
pub activate_next_handler_refines :
    (h : HandlerStack) (exn : Word)
    → h.active ≡ 3 * (h.active / 3)
    → listed (activate_next_handler h exn) ≡ activate_list exn (handlers h)
unfolding activate_next_handler handlers
activate_next_handler_refines h exn whole = activate_next_refines (h.active / 3) h exn whole

-- GetCurrentPackage on a stack of whole handlers returns the data of the newest handler that is
-- being handled, or nothing if there is none.
pub get_current_package_refines :
    (h : HandlerStack)
    → h.active ≡ 3 * (h.active / 3)
    → get_current_package h ≡ package_list (handlers h)
unfolding get_current_package handlers
get_current_package_refines h whole =
    ap (λ cur. package_below (h.active / 3) cur h.words) whole
    ∙ package_below_refines (h.active / 3) h.words

entries-tail :
    (n top : ℕ) (words : ℕ → Word) (e : Handler) (es : List Handler)
    → top ≡ 3 * n
    → entries n words ≡ e ∷ es
    → entries ((top - 3) / 3) words ≡ es
unfolding entries
entries-tail zero top words e es whole h = absurd (cc)
entries-tail (suc n) top words e es whole h =
    let number : (top - 3) / 3 ≡ n = omega arith in
    ap (λ k. entries k words) number ∙ ground (arith)

-- `PopHandler` drops the newest handler.
pub pop_handler_refines :
    (h : HandlerStack) (e : Handler) (es : List Handler)
    → h.active ≡ 3 * (h.active / 3)
    → handlers h ≡ e ∷ es
    → handlers (pop_handler h) ≡ es
unfolding pop_handler handlers
pop_handler_refines h e es whole found =
    entries-tail (h.active / 3) h.active h.words e es whole found

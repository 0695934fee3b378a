-- ===== src/Sched/Handlers.antt =====
-- generic/Thread.hh: the stack of exception handlers that a thread keeps in a `DynamicBlock`. A
-- handler takes three words. The integers that the program stores stand here as numbers, without
-- their tag.
pub mod Entries
use aliceml_seam.Base.{
  ℕ, zero, suc, ◌+◌, ◌-◌, ◌*◌, ◌/◌, Bool, Option, none, some, leb, ◌==◌, if◌then◌else◌,
}
use aliceml_seam.Store.Block.{Word, fresh_word, translate_size, write, memcpy}

-- `enum handler_state`
abbrev pub trying : ℕ
trying = 0

abbrev pub handling : ℕ
handling = 1

abbrev pub handler_frame_size : ℕ
handler_frame_size = 3

-- The `DynamicBlock`: `GetActiveSize`, `GetSize` and the words past the active size.
pub record HandlerStack : Type 0 where
  pub active : ℕ
  pub size : ℕ
  pub words : ℕ → Word

-- Made by `Thread::New`: one handler, of no frame and no data.
unfoldable pub new : HandlerStack
new = record {
  active = 3;
  size = translate_size (10 + 1) - 1;
  words = write (write (write (λ _. fresh_word) 0 0) 1 trying) 2 0;
}

-- The growth in `PushHandler`. The copy starts at the active size, so that the last of the `size`
-- words of the old block is not copied.
unfoldable pub enlarge : HandlerStack → HandlerStack
enlarge h = record {
  active = h.active;
  size = translate_size (h.size * 3 / 2 + 1) - 1;
  words = memcpy 0 h.words 0 (h.size - 1) (λ _. fresh_word);
}

-- The writes of `PushHandler`, once there is room.
unfoldable pub put_handler : HandlerStack → ℕ → Word → HandlerStack
put_handler h frame payload = record h {
  active = h.active + handler_frame_size;
  words = write (write (write h.words h.active frame) (h.active + 1) trying) (h.active + 2) payload;
}

unfoldable pub push_handler : HandlerStack → ℕ → Word → HandlerStack
push_handler h frame payload =
    put_handler (if leb h.size (h.active + handler_frame_size) then enlarge h else h) frame payload

-- The loop of `ActivateNextHandler`: the frame and the data of the handler, and the stack after.
-- `none` is a stack with no handler left, where the code reads in front of the block.
unfoldable pub activate_next : ℕ → HandlerStack → Word → Option ((ℕ × Word) × HandlerStack)
activate_next zero h exn = none
activate_next (suc fuel) h exn =
    let top = h.active in
    let found : (ℕ × Word) × HandlerStack = (
      (h.words (top - 3), h.words (top - 1)),
      record h { words = write (write h.words (top - 1) exn) (top - 2) handling },
    ) in
    let rest = activate_next fuel (record h { active = top - handler_frame_size }) exn in
    if h.words (top - 2) == trying then some found else rest

unfoldable pub activate_next_handler : HandlerStack → Word → Option ((ℕ × Word) × HandlerStack)
activate_next_handler h exn = activate_next (h.active / handler_frame_size) h exn

-- The loop of `GetCurrentPackage`; `none` is `INVALID_POINTER`.
unfoldable pub package_below : ℕ → ℕ → (ℕ → Word) → Option Word
package_below zero cur words = none
package_below (suc fuel) cur words =
    let rest = package_below fuel (cur - 3) words in
    if cur == 0 then none else if words (cur - 2) == handling then some (words (cur - 1)) else rest

unfoldable pub get_current_package : HandlerStack → Option Word
get_current_package h = package_below (h.active / handler_frame_size) h.active h.words

unfoldable pub pop_handler : HandlerStack → HandlerStack
pop_handler h = record h { active = h.active - handler_frame_size }

-- ===== src/Adt.antt =====
-- adt/: the data structures that live in blocks of the store.
pub mod Queue
pub mod Stack
pub mod DynamicArray

-- ===== src/Tests.antt =====
-- The theorems at concrete inputs.
mod Adt
mod Pickle
mod Unpickle
mod Pickler
mod Sched
mod Store

-- ===== src/Store.antt =====
-- store/: machine words and blocks.
pub mod Block
pub mod Header
pub mod Pointer
pub mod Sizes
pub mod MapKey
pub mod BaseMap

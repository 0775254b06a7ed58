-- ===== src/Memory.antt =====
-- code/kernel/src/memory.c: page pools, page tables, and the block heap.
pub mod Pool
pub mod PageTable
pub mod Pages
pub mod Init
pub mod Blocks
mod Tests

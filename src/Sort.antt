-- ===== src/Sort.antt =====
-- The sorting functions of Sort/.
pub mod Array
pub mod Samples
pub mod Insertion
pub mod Quick
pub mod Heap
pub mod Exchange
pub mod Merge
pub mod Counting
pub mod Radix
pub mod Agreement
pub mod Driver

-- ===== src/Algorithms.antt =====
-- The parallel algorithms of Concurrent/day21-ParallenAlgorithm and day19-parallensort.
pub mod Blocks
pub mod Turns
pub mod PartialSum
pub mod ForEach
pub mod Find
pub mod QuickSort

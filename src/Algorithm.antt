-- ===== src/Algorithm.antt =====
-- The files of algorithm/.
pub mod Sorted
pub mod InsertSort
pub mod BinFind
pub mod HeapSort

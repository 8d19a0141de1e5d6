-- ===== src/Algorithm.antt =====
-- algorithm.h and algorithm.c: sorting and searching in arrays. An int is its value plus 2 ^ 31, which
-- keeps its order; the code only compares.
pub mod Arrays
pub mod Sorts
pub mod Insert
pub mod Binary
pub mod Select
pub mod Sorted
pub mod Search
pub mod HeapSort
pub mod Heap
pub mod HeapRounds
pub mod MergeSort
pub mod Counting
pub mod Merge
pub mod MergeBack
pub mod MergeRounds
pub mod ShellSort
pub mod Shell
mod Tests

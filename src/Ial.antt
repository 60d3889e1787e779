-- ===== src/Ial.antt =====
-- 2/IAL: the data structures of the algorithms course.
pub mod HashTable
pub mod DoubleList
pub mod Stack
pub mod Tree
pub mod TreeIter
pub mod TreeWalk

-- ===== src/Chained.antt =====
-- Chains of items under text keys and arrays of such chains: what 2/IAL/2/hashtable.c and
-- 2/IFJ/symtable.c share. `holds k a` says that the item `a` carries the key `k`; a C string is
-- the only key of an item.
pub mod Chain
pub mod Buckets
pub mod Writes
pub mod Move
pub mod Empty

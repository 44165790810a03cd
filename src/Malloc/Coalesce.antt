-- ===== src/Malloc/Coalesce.antt =====
-- What `coalesce` of mm.c works on: a heap in which one block has just been marked free and is not
-- yet in the free list. Its parts: the blocks around it (Around), joining (Merge), and the cases
-- (Next, Prev, Both).
pub mod Around
pub mod Merge
pub mod Next
pub mod Prev
pub mod Both
pub mod Main

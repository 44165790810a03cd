-- ===== src/Memtrace.antt =====
-- The memory tracer of Lab/lab1/linklab/handout: utils/memlist.c and the memtrace.c of the three parts.
pub mod Memlist
pub mod Tracer

-- ===== src/Driver.antt =====
-- The driver of the allocator, Lab/lab3/malloclab-handout/src/mdriver.c: it replays a trace of
-- requests, and keeps the payload ranges of the allocated blocks to check the answers.
pub mod Ranges
pub mod Replay
pub mod Tracefile

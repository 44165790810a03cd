-- ===== src/Tests.antt =====
-- The memory system of memlib.c at concrete bounds.
use s_system_programmin.Common.{arith}
use s_system_programmin.Memlib.{Memlib, InBounds, Sbrk, mem_sbrk, mem_sbrk-Sbrk}

abbrev bounds : Memlib
bounds = record { start_brk = 4096; brk = 8192; max_addr = 16384 }

bounds-InBounds : InBounds bounds
bounds-InBounds = record { above = ground arith; below = ground arith }

mem_sbrk-Sbrk_example : Sbrk 4096 bounds (mem_sbrk 4096 bounds)
mem_sbrk-Sbrk_example = mem_sbrk-Sbrk 4096 bounds bounds-InBounds (ground arith)

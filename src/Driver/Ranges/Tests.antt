-- ===== src/Driver/Ranges/Tests.antt =====
-- Runs of the range check of mdriver.c.
use s_system_programmin.Common.{◌+◌, ◌≡◌, refl, true, List, [], ◌∷◌, arith}
use s_system_programmin.Memlib.{Memlib, mem_heap_lo, mem_heap_hi, max_heap}
use s_system_programmin.Driver.Ranges.{Range, passes, add_range}
use s_system_programmin.Driver.Ranges.Overlap.{accepts, add_range-acceptable}

abbrev ready : Memlib
ready = record { start_brk = 4096; brk = 8216; max_addr = 4096 + max_heap }

abbrev one_range : List Range
one_range = record { lo = 4120; hi = 4219 } ∷ []

add_range-acceptable_example : accepts (add_range 4232 50 ready one_range) ≡ true
unfolding mem_heap_lo mem_heap_hi
add_range-acceptable_example =
    add_range-acceptable 4232 50 ready one_range (ground arith) (ground arith, tt) refl

-- A payload that has an older one strictly inside it is accepted.
enclosing_accepted :
    add_range 4112 200 ready one_range ≡ passes (record { lo = 4112; hi = 4311 } ∷ one_range)
unfolding add_range mem_heap_lo mem_heap_hi
enclosing_accepted = refl

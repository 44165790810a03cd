-- ===== src/Memtrace/Tracer/Tests.antt =====
-- The tracer on concrete calls.
use s_system_programmin.Common.{
  ℕ, ◌≡◌, refl, none, some, List, [], ◌∷◌, pos, ◌==◌, if◌then◌else◌, arith,
}
use s_system_programmin.Memtrace.Memlist.{Item, alloc, dealloc, find, item_at}
use s_system_programmin.Memtrace.Memlist.Sorted.{
  Sorted, allocated_item, deallocated_item, alloc-Sorted, dealloc-Sorted, find-item_at,
}
use s_system_programmin.Memtrace.Tracer.{
  Trace, init, malloc, realloc, add_freed, free, double_free, fini,
}
use s_system_programmin.Memtrace.Tracer
use s_system_programmin.Memtrace.Tracer.Part1
use s_system_programmin.Memtrace.Tracer.Part1.{
  Call, malloc_call, calloc_call, free_call, count_calls, trace_calls, fini-Part3,
}
use s_system_programmin.Memtrace.Tracer.Part2
use s_system_programmin.Memtrace.Tracer.Part2.{Matches, free-Matches}

abbrev block_at : (ptr : ℕ) → Item
block_at ptr = record { ptr = ptr; size = 8; cnt = pos 1 }

abbrev two_blocks : List Item
two_blocks = block_at 16 ∷ block_at 48 ∷ []

two_blocks-Sorted : Sorted 0 two_blocks
two_blocks-Sorted = ground arith

alloc-Sorted_example :
    Sorted 0 (alloc two_blocks 32 100)
    × ((p : ℕ)
        → item_at (alloc two_blocks 32 100) p ≡ (
            if p == 32
            then some (allocated_item 32 100 (item_at two_blocks 32))
            else item_at two_blocks p))
alloc-Sorted_example = alloc-Sorted 0 two_blocks 32 100 (ground arith) two_blocks-Sorted

dealloc-Sorted_example :
    Sorted 0 (dealloc two_blocks 48).0
    × ((p : ℕ)
        → item_at (dealloc two_blocks 48).0 p
          ≡ (if p == 48 then deallocated_item (item_at two_blocks p) else item_at two_blocks p))
    × ((dealloc two_blocks 48).1 ≡ some 48)
dealloc-Sorted_example = dealloc-Sorted 0 two_blocks 48 two_blocks-Sorted

find_listed : find two_blocks 48 ≡ some 48
find_listed = find-item_at 0 two_blocks 48 two_blocks-Sorted

abbrev traced : Trace
traced = (free 64 (malloc 64 8 (malloc 32 100 init))).0

-- A block of 100 bytes that libc extends in place to 200 counts as 200 bytes freed.
grown_in_place :
    realloc 32 200 32 (malloc 32 100 init)
    ≡ some (record {
      items = record { ptr = 32; size = 200; cnt = pos 1 } ∷ [];
      n_malloc = 1;
      n_calloc = 0;
      n_realloc = 1;
      n_allocb = 300;
      n_freeb = 200;
    })
unfolding realloc malloc init alloc dealloc add_freed
grown_in_place = refl

-- A `realloc` of NULL reads through NULL, and a `free` of NULL is reported as a double free.
realloc_null : realloc 0 8 32 init ≡ none
unfolding realloc init alloc dealloc add_freed
realloc_null = refl

free_null : (free 0 init).1 ≡ double_free
unfolding free
free_null = refl

abbrev calls : List Call
calls = malloc_call 48 16 ∷ calloc_call 96 4 8 ∷ free_call 48 ∷ free_call 48 ∷ []

abbrev called : Trace
called = record {
  items =
      record { ptr = 48; size = 16; cnt = pos 0 }
      ∷ record { ptr = 96; size = 32; cnt = pos 1 }
      ∷ [];
  n_malloc = 1;
  n_calloc = 1;
  n_realloc = 0;
  n_allocb = 48;
  n_freeb = 16;
}

called_lem : trace_calls calls (some init) ≡ some called
unfolding init malloc alloc Tracer.calloc free Tracer.free_item dealloc
called_lem = refl

part1_totals : Part1.fini (count_calls calls Part1.init) ≡ (48, 24, 0)
unfolding fini
part1_totals = fini-Part3 calls called called_lem

part2_free : Matches (Part2.free 96 called) (free 96 called)
part2_free = free-Matches 96 called

-- ===== src/Malloc/Tests.antt =====
-- Runs of mm.c: from a fresh memory, and on a small heap of three blocks.
use s_system_programmin.Common.{
  ℕ, ◌+◌, ◌≤◌, ◌<◌, ◌%◌, leb, ◌||◌, ◌≡◌, refl, true, Option, none, some, arith,
}
use s_system_programmin.Memlib.{mem_sbrk, max_heap}
use s_system_programmin.Malloc.Words.{Heap}
use s_system_programmin.Malloc.{
  insert_free_block, remove_free_block, join, coalesce, find_fit_from, find_fit, split_block,
  place_sized, place, extend_block, extend_heap, init_words, init_result, init_block, mm_init,
  malloc_found, mm_malloc, mm_free, copy_words, realloc_new, mm_realloc,
}
use s_system_programmin.Malloc.Session.{
  Allocations, allocated, reallocated, Session, init, malloc, realloc, Implements,
  Session-Implements, Session-apart,
}
use s_system_programmin.Malloc.Init.{Fresh, Initialised, mm_init-Initialised}

abbrev cold : Heap
cold = record {
  word = λ _. 0;
  mem = record { start_brk = 4096; brk = 4096; max_addr = 4096 + max_heap };
  heap_listp = 0;
  freelist_head = 0;
}

Fresh-cold : Fresh cold.mem
Fresh-cold = record { empty = refl; aligned = refl; not_null = ground arith; small = ground arith }

abbrev ready : Heap
ready = (mm_init cold).0

abbrev served : Option (Heap × ℕ) → Heap × ℕ
served none = (cold, 0)
served (some r) = r

ready_lem : mm_init cold ≡ (ready, true)
unfolding mm_init init_block init_result init_words extend_heap extend_block mem_sbrk
ready_lem = refl

abbrev first : Heap
first = (served (mm_malloc 100 ready)).0

first_lem : mm_malloc 100 ready ≡ some (first, 4120)
unfolding mm_init init_block init_result init_words extend_heap extend_block mem_sbrk coalesce join
    insert_free_block mm_malloc malloc_found find_fit find_fit_from
first_lem = refl

abbrev second : Heap
second = (served (mm_malloc 50 first)).0

second_lem : mm_malloc 50 first ≡ some (second, 4232)
unfolding mm_init init_block init_result init_words extend_heap extend_block mem_sbrk coalesce join
    insert_free_block mm_malloc malloc_found find_fit find_fit_from place place_sized split_block
    remove_free_block
second_lem = refl

abbrev third : Heap
third = (served (mm_realloc 4120 200 second)).0

third_lem : mm_realloc 4120 200 second ≡ some (third, 4296)
unfolding mm_init init_block init_result init_words extend_heap extend_block mem_sbrk coalesce join
    insert_free_block mm_malloc malloc_found find_fit find_fit_from place place_sized split_block
    remove_free_block mm_realloc realloc_new
third_lem = refl

-- The session of these calls.
abbrev session_live : Allocations
session_live =
    reallocated (allocated (allocated (λ q. none) first 4120) second 4232) third 4120 4296

session : Session third session_live
unfolding mm_init init_block init_result init_words extend_heap extend_block mem_sbrk coalesce join
    insert_free_block mm_malloc malloc_found find_fit find_fit_from place place_sized split_block
    remove_free_block mm_realloc realloc_new
session =
    realloc second 4120 112 200 4296
      (malloc first 50 4232
        (malloc ready 100 4120 (init cold Fresh-cold ready_lem) (ground arith) (ground arith)
          first_lem)
        (ground arith) (ground arith) second_lem)
      refl (ground arith) (ground arith) third_lem

Session-apart_example :
    ((leb (4232 + 64) 4296 || leb (4296 + 208) 4232) ≡ true)
    × (third.start_brk < 4232)
    × (4232 + 64 ≤ third.brk)
    × (4232 % 8 ≡ 0)
unfolding mm_init init_block init_result init_words extend_heap extend_block mem_sbrk coalesce join
    insert_free_block mm_malloc malloc_found find_fit find_fit_from place place_sized split_block
    remove_free_block mm_realloc realloc_new mm_free copy_words
Session-apart_example = Session-apart 4232 64 4296 208 session refl refl refl

Session-Implements_example : Implements third session_live
Session-Implements_example = Session-Implements session

init_run : Initialised cold (mm_init cold)
init_run = mm_init-Initialised cold Fresh-cold

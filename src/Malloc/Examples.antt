-- ===== src/Malloc/Examples.antt =====
-- The operations of mm.c on a small heap: an allocation, a free block, an allocation.
use s_system_programmin.Common.{
  ℕ, ◌+◌, ◌-◌, ◌^◌, ◌≤◌, ◌≡◌, refl, true, false, some, List, [], ◌∷◌, arith,
}
use s_system_programmin.Memlib.{max_heap}
use s_system_programmin.Malloc.Words.{Heap, write}
use s_system_programmin.Malloc.{
  insert_free_block, remove_free_block, coalesce, find_fit, place, extend_heap, mm_malloc, mm_free,
  mm_realloc,
}
use s_system_programmin.Malloc.Links.{erase}
use s_system_programmin.Malloc.FreeList.{FreeList, insert-FreeList, remove-FreeList}
use s_system_programmin.Malloc.Layout.{Block, block}
use s_system_programmin.Malloc.Invariant.{Inv}
use s_system_programmin.Malloc.Place.{Placed, place-Placed}
use s_system_programmin.Malloc.Coalesce.Merge.{Pending}
use s_system_programmin.Malloc.Coalesce.Main.{Coalesced, coalesce-Coalesced}
use s_system_programmin.Malloc.Free.{Freed, mm_free-Freed}
use s_system_programmin.Malloc.Extend.{Extends, extend_heap-Extends}
use s_system_programmin.Malloc.Fit.{first_fit, find_fit-first_fit}
use s_system_programmin.Malloc.Alloc.{Allocates, block_size, mm_malloc-Allocates, block_size-wraps}
use s_system_programmin.Malloc.Realloc.{Reallocates, mm_realloc-Reallocates}

-- The word `first_tag` is the header and the footer of the first block.
abbrev sample_words : (first_tag : ℕ) → ℕ → ℕ
sample_words tag =
    write
      (write
        (write
          (write
            (write
              (write
                (write
                  (write
                    (write
                      (write (write (write (write (λ x. 0) 4100 17) 4112 17) 4116 tag) 4136 tag)
                      4140 32)
                    4168 32)
                  4172 17)
                4184 17)
              4188 1)
            4144 4104)
          4148 0)
        4108 4144)
      4104 0

abbrev sample_at : (first_tag : ℕ) → Heap
sample_at tag = record {
  word = sample_words tag;
  mem = record { start_brk = 4096; brk = 4192; max_addr = 4096 + max_heap };
  heap_listp = 4104;
  freelist_head = 4144;
}

abbrev sample : Heap
sample = sample_at 25

abbrev sample_blocks : List Block
sample_blocks = block 24 true ∷ block 32 false ∷ block 16 true ∷ []

sample-Inv : Inv sample sample_blocks (4144 ∷ [])
sample-Inv = record {
  laid = record {
    tags = (refl, refl, (refl, refl, (refl, refl, (refl, refl, tt))));
    sized = ground arith;
    ends = refl;
    epilogue = refl;
    start = refl;
    aligned = refl;
    not_null = ground arith;
    below = ground arith;
    small = ground arith;
  };
  list = record { linked = (refl, refl, (refl, refl, refl)); nodes = ground arith };
  listed = λ q. ground arith;
  spaced = ground arith;
}

mm_malloc-Allocates_example : Allocates sample sample_blocks (4144 ∷ []) 20 (mm_malloc 20 sample)
mm_malloc-Allocates_example = mm_malloc-Allocates 20 sample-Inv (ground arith) (ground arith)

mm_free-Freed_example : Freed sample sample_blocks 4120 (mm_free 4120 sample)
mm_free-Freed_example = mm_free-Freed 4120 24 sample-Inv refl

mm_realloc-Reallocates_example :
    Reallocates sample sample_blocks (4144 ∷ []) 4120 24 20 (mm_realloc 4120 20 sample)
mm_realloc-Reallocates_example =
    mm_realloc-Reallocates 4120 24 20 sample-Inv refl (ground arith) (ground arith)

place_run : Placed sample sample_blocks 4144 16 (place 4144 16 sample)
place_run =
    place-Placed (block 24 true ∷ []) (block 16 true ∷ []) 32 4144 16 sample-Inv refl (ground arith)
      refl (ground arith)

extend_run : Extends sample sample_blocks 1024 (extend_heap 255 sample)
extend_run = extend_heap-Extends 255 sample-Inv (ground arith)

find_fit-first_fit_example : find_fit 24 sample ≡ some (first_fit sample.word 24 (4144 ∷ []))
find_fit-first_fit_example = find_fit-first_fit 24 sample-Inv

insert_listed : FreeList (insert_free_block 4120 sample) 4104 (4120 ∷ 4144 ∷ [])
insert_listed = insert-FreeList 4120 sample-Inv.list refl (ground arith) refl

remove_listed : FreeList (remove_free_block 4144 sample) 4104 (erase 4144 (4144 ∷ []))
remove_listed = remove-FreeList 4144 sample-Inv.list refl

block_size-wraps_example : block_size (2 ^ 32 - 8) ≤ 8
block_size-wraps_example = block_size-wraps (2 ^ 32 - 8) (ground arith) (ground arith)

-- The first block has been marked free, and is not in the free list.
sample-Pending : Pending (sample_at 24) [] 24 (block 32 false ∷ block 16 true ∷ []) (4144 ∷ []) 4120
sample-Pending = record {
  laid = record {
    tags = (refl, refl, (refl, refl, (refl, refl, (refl, refl, tt))));
    sized = ground arith;
    ends = refl;
    epilogue = refl;
    start = refl;
    aligned = refl;
    not_null = ground arith;
    below = ground arith;
    small = ground arith;
  };
  list = record { linked = (refl, refl, (refl, refl, refl)); nodes = ground arith };
  listed = λ q. ground arith;
  spaced = ground arith;
  here = refl;
}

coalesce_run :
    Coalesced
      (sample_at 24)
      (block 24 false ∷ block 32 false ∷ block 16 true ∷ [])
      24
      (coalesce 4120 (sample_at 24)).0
      (coalesce 4120 (sample_at 24)).1
coalesce_run = coalesce-Coalesced [] 24 (block 32 false ∷ block 16 true ∷ []) 4120 sample-Pending

-- ===== src/Malloc/Init.antt =====
-- `mm_init` of mm.c on the memory that `mem_init` or `mem_reset_brk` leaves.
use s_system_programmin.Common.{
  ℕ, ◌+◌, ◌/◌, ◌%◌, ◌^◌, ◌≤◌, ◌<◌, ◌≡◌, refl, Bool, true, false, Bool-cases, inl, inr, Option, none,
  some, List, [], arith, ltb,
}
use s_system_programmin.Memlib.{Memlib, mem_sbrk}
use s_system_programmin.Malloc.Words.{Heap, chunksize, wsize}
use s_system_programmin.Malloc.{mm_init, init_block, init_result, init_words, extend_heap}
use s_system_programmin.Malloc.Layout.{Block}
use s_system_programmin.Malloc.Invariant.{Inv, live}
use s_system_programmin.Malloc.Extend.{Extends, exhausted, extends, extend_heap-Extends}

-- The memory at the start: an empty heap at an aligned place of the address space.
pub record Fresh (m : Memlib) : Type 0 where
  pub empty : m.brk ≡ m.start_brk
  pub aligned : m.start_brk % 8 ≡ 0
  pub not_null : 0 < m.start_brk
  pub small : m.max_addr < 2 ^ 32

-- What `mm_init` returns: 0 (here `true`) with a well-formed heap that has no allocation, or -1
-- because the memory has no room for the first chunk.
pub data Initialised (h : Heap) : Heap × Bool → Type 0 where
  initialised :
      {g : Heap} {bs : List Block} {fs : List ℕ}
      → h.brk + 24 + chunksize ≤ h.max_addr
      → Inv g bs fs
      → ((q : ℕ) → live g bs q ≡ none)
      → Initialised h (g, true)
  no_room : {g : Heap} → h.max_addr < h.brk + 24 + chunksize → Initialised h (g, false)

module _ (h : Heap) (fresh : Fresh h.mem) (room : h.brk + 24 ≤ h.max_addr) where
  first : Heap
  first =
      let p = h.brk in
      let m = record h { mem = record h.mem { brk = p + 24 } } in
      record (init_words p m) { heap_listp = p + 8; freelist_head = p + 8 }

  first-Inv : Inv first [] []
  unfolding first init_words
  first-Inv =
      let f = fresh in
      record {
        laid = record {
          tags = (ground arith, ground arith, tt);
          sized = (ground arith, ground arith, tt);
          ends = omega arith;
          epilogue = ground arith;
          start = omega (arith, f.empty);
          aligned = f.aligned;
          not_null = f.not_null;
          below = room;
          small = f.small;
        };
        list = record {
          linked = (refl, ground arith, ground arith);
          nodes = (omega (arith, f.empty, f.aligned), omega arith);
        };
        listed = λ q. ground arith;
        spaced = tt;
      }

  first-Initialised :
      (o : Option (Heap × ℕ)) → Extends first [] 4096 o → Initialised h (init_result first o)
  unfolding first init_result init_words
  first-Initialised none (exhausted e) = no_room (ground arith)
  first-Initialised (some (g, p)) (extends e c) =
      initialised (ground arith) c.inv (λ q. c.live_lem q)

-- `mm_init` on a fresh memory sets up a well-formed heap without allocations exactly if the memory
-- has room for the 24 bytes of the frame and a chunk, and reports failure otherwise.
pub mm_init-Initialised : (h : Heap) → Fresh h.mem → Initialised h (mm_init h)
unfolding mm_init init_block mem_sbrk first
mm_init-Initialised h fresh = elim (Bool-cases (ltb h.max_addr (h.brk + 24))) [
  | inl e ↦ rw e (no_room (ground arith))
  | inr e ↦
      let room : h.brk + 24 ≤ h.max_addr = ground arith in
      rw e (
        first-Initialised h fresh room (extend_heap (chunksize / wsize) (first h fresh room))
          (extend_heap-Extends (chunksize / wsize) (first-Inv h fresh room) (ground arith)))
]

-- ===== src/Memlib.antt =====
-- Lab/lab3/malloclab-handout/src/memlib.c: the simulated memory system under the allocator. The
-- storage that libc's `malloc` hands to `mem_init` enters as its start address. Addresses are
-- numbers; the pointer sum in `mem_sbrk` is taken without wrap-around, as C leaves that undefined.
use s_system_programmin.Common.{
  ℕ, ◌+◌, ◌-◌, ◌*◌, ◌^◌, ◌≤◌, ◌<◌, ◌≡◌, ◌⊎◌, refl, inl, inr, Bool-cases, arith, ◌||◌, Option, none,
  some, ltb, if◌then◌else◌,
}

abbrev pub max_heap : ℕ
max_heap = 20 * 2 ^ 20

-- `mem_start_brk`, `mem_brk` (the first byte past the heap) and `mem_max_addr`.
pub record Memlib : Type 0 where
  pub start_brk : ℕ
  pub brk : ℕ
  pub max_addr : ℕ

-- `storage` is what `malloc(MAX_HEAP)` returned; on NULL the program exits.
pub mem_init : (storage : ℕ) → Option Memlib
mem_init storage =
    if ltb 0 storage
    then some (record { start_brk = storage; brk = storage; max_addr = storage + max_heap })
    else none

unfoldable pub mem_reset_brk : Memlib → Memlib
mem_reset_brk m = record m { brk = m.start_brk }

-- The parameter is a C `int` of 32 bits, given by its bit pattern: from 2 ^ 31 on it is negative.
-- `none` is the return of `(void *)-1`, which leaves the break as it was.
unfoldable pub mem_sbrk : (incr : ℕ) → Memlib → Option (ℕ × Memlib)
mem_sbrk incr m =
    if ltb (2 ^ 31 - 1) incr || ltb m.max_addr (m.brk + incr)
    then none
    else some (m.brk, record m { brk = m.brk + incr })

unfoldable pub mem_heap_lo : Memlib → ℕ
mem_heap_lo m = m.start_brk

unfoldable pub mem_heap_hi : Memlib → ℕ
mem_heap_hi m = m.brk - 1

pub mem_heapsize : Memlib → ℕ
mem_heapsize m = m.brk - m.start_brk

pub mem_heapsize_lem : (m : Memlib) → mem_heapsize m ≡ m.brk - m.start_brk
unfolding mem_heapsize
mem_heapsize_lem m = refl

-- The break lies between the start and the largest legal address.
pub record InBounds (m : Memlib) : Type 0 where
  pub above : m.start_brk ≤ m.brk
  pub below : m.brk ≤ m.max_addr

-- What `mem_sbrk` returns: failure, or the old break, from which on there are `incr` new bytes.
pub data Sbrk (incr : ℕ) (m : Memlib) : Option (ℕ × Memlib) → Type 0 where
  out_of_memory : (2 ^ 31 ≤ incr) ⊎ (m.max_addr < m.brk + incr) → Sbrk incr m none
  moved :
      {p : ℕ} {m' : Memlib}
      → incr < 2 ^ 31
      → InBounds m'
      → p ≡ m.brk
      → m'.start_brk ≡ m.start_brk
      → m'.max_addr ≡ m.max_addr
      → mem_heapsize m' ≡ mem_heapsize m + incr
      → mem_heap_hi m' + 1 ≡ p + incr
      → Sbrk incr m (some (p, m'))

-- `mem_sbrk` on a heap within its bounds, which does not start at address 0, either fails, for a
-- negative increment or one past the largest address, or grows the heap by `incr` bytes within its
-- bounds.
pub mem_sbrk-Sbrk :
    (incr : ℕ) (m : Memlib) → InBounds m → 0 < m.start_brk → Sbrk incr m (mem_sbrk incr m)
unfolding mem_sbrk mem_heapsize mem_heap_hi
mem_sbrk-Sbrk incr m i p =
    elim (Bool-cases (ltb (2 ^ 31 - 1) incr || ltb m.max_addr (m.brk + incr))) [
      | inl e ↦ rw e (out_of_memory (ground arith))
      | inr e ↦
          let a = i.above in
          rw e (
            moved (ground arith) (record { above = omega (arith, a); below = ground arith }) refl
              refl refl (omega (arith, a)) (omega (arith, a)))
    ]

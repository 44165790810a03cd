-- ===== src/Malloc/Words.antt =====
-- The macros of Lab/lab3/malloclab-handout/src/mm.c, and the state that its functions share. The
-- program is compiled with -m32, so a pointer, a size_t and a header are words of 4 bytes; every
-- access of mm.c is to a word at a multiple of 4, and the memory is a function from such addresses
-- to words. NULL is 0.
use s_system_programmin.Common.{
  ℕ, ◌+◌, ◌-◌, ◌*◌, ◌/◌, ◌%◌, ◌^◌, Bool, true, false, ◌==◌, if◌then◌else◌,
}
use s_system_programmin.Memlib.{Memlib}

abbrev pub wsize : ℕ
wsize = 4

abbrev pub dsize : ℕ
dsize = 8

abbrev pub chunksize : ℕ
chunksize = 2 ^ 12

-- `PACK(size, alloc)` for the allocation bits 0 and 1: `size | 1` sets the lowest bit.
abbrev pub pack : ℕ → Bool → ℕ
pack size false = size
pack size true = size / 2 * 2 + 1

-- `w & ~0x7` and `w & 0x1`
abbrev pub size_of : ℕ → ℕ
size_of w = w - w % 8

abbrev pub alloc_of : ℕ → Bool
alloc_of w = w % 2 == 1

-- `ALIGN(size)` in the 32-bit arithmetic of size_t
abbrev pub align : ℕ → ℕ
align size = let s = (size + 7) % 2 ^ 32 in s - s % 8

-- The memory, the simulated break and the two globals of mm.c.
pub record Heap : Type 0 where
  pub word : ℕ → ℕ
  pub mem : Memlib
  pub open mem use *
  pub heap_listp : ℕ
  pub freelist_head : ℕ

-- `*(unsigned int *)p = v`
abbrev pub write : (ℕ → ℕ) → ℕ → ℕ → ℕ → ℕ
write w p v q = if q == p then v else w q

abbrev pub put : ℕ → ℕ → Heap → Heap
put p v h = record h { word = write h.word p v }

-- The macros that read the heap, over its words: `GET_SIZE(HDRP(bp))` and so on.
abbrev pub hdrp : ℕ → ℕ
hdrp bp = bp - wsize

abbrev pub size_at : (ℕ → ℕ) → ℕ → ℕ
size_at w bp = size_of (w (hdrp bp))

abbrev pub alloc_at : (ℕ → ℕ) → ℕ → Bool
alloc_at w bp = alloc_of (w (hdrp bp))

abbrev pub ftrp : (ℕ → ℕ) → ℕ → ℕ
ftrp w bp = bp + size_at w bp - dsize

abbrev pub next_blkp : (ℕ → ℕ) → ℕ → ℕ
next_blkp w bp = bp + size_at w bp

abbrev pub prev_blkp : (ℕ → ℕ) → ℕ → ℕ
prev_blkp w bp = bp - size_of (w (bp - dsize))

-- `PUT(HDRP(bp), v); PUT(FTRP(bp), v)`, where the footer is found through the new header.
abbrev pub put_tags : ℕ → ℕ → Heap → Heap
put_tags bp v h = let g = put (hdrp bp) v h in put (ftrp g.word bp) v g

-- The links of a free block: the next pointer at bp, the previous one a word above.
abbrev pub set_next : ℕ → ℕ → Heap → Heap
set_next bp next = put bp next

abbrev pub set_prev : ℕ → ℕ → Heap → Heap
set_prev bp prev = put (bp + wsize) prev

-- ===== src/Malloc.antt =====
-- Lab/lab3/malloclab-handout/src/mm.c (and its copy in the submission folder): an explicit free
-- list with boundary tags and first fit. A sum of sizes is a size_t, so it wraps at 2 ^ 32.
pub mod Words
pub mod Links
pub mod Layout
pub mod Invariant
pub mod Region
pub mod Stands
pub mod Place
pub mod Coalesce
pub mod Free
pub mod Extend
pub mod Fit
pub mod Alloc
pub mod Payload
pub mod Init
pub mod Realloc
pub mod Growth
pub mod Session
pub mod FreeList
mod Tests
mod Examples
use s_system_programmin.Common.{
  ℕ, zero, suc, ◌+◌, ◌-◌, ◌*◌, ◌/◌, ◌%◌, ◌^◌, Bool, true, false, ◌||◌, Option, none, some, ltb, leb,
  ◌==◌, if◌then◌else◌,
}
use s_system_programmin.Memlib.{Memlib, mem_sbrk}
use Words.{
  Heap, pack, align, wsize, dsize, chunksize, hdrp, ftrp, size_of, size_at, alloc_of, alloc_at,
  next_blkp, prev_blkp, put, put_tags, set_next, set_prev,
}

pub insert_free_block : ℕ → Heap → Heap
insert_free_block bp h =
    let g = set_next bp h.freelist_head (set_prev bp 0 h) in
    let g' = if g.freelist_head == 0 then g else set_prev g.freelist_head bp g in
    record g' { freelist_head = bp }

pub remove_free_block : ℕ → Heap → Heap
remove_free_block bp h =
    let prev = h.word (bp + wsize) in
    let g =
      if prev == 0 then record h { freelist_head = h.word bp } else set_next prev (h.word bp) h in
    let next = g.word bp in if next == 0 then g else set_prev next (g.word (bp + wsize)) g

-- The three cases of `coalesce` that join blocks; each returns the heap and the block pointer.
pub join_next : ℕ → Heap → Heap × ℕ
join_next bp h =
    let size = (size_at h.word bp + size_at h.word (next_blkp h.word bp)) % 2 ^ 32 in
    (put_tags bp (pack size false) (remove_free_block (next_blkp h.word bp) h), bp)

pub join_prev : ℕ → Heap → Heap × ℕ
join_prev bp h =
    let size = (size_at h.word bp + size_at h.word (prev_blkp h.word bp)) % 2 ^ 32 in
    let g = remove_free_block (prev_blkp h.word bp) h in
    let g' = put (ftrp g.word bp) (pack size false) g in
    let g'' = put (hdrp (prev_blkp g'.word bp)) (pack size false) g' in (g'', prev_blkp g''.word bp)

pub join_both : ℕ → Heap → Heap × ℕ
join_both bp h =
    let w = h.word in
    let others = size_at w (prev_blkp w bp) + size_of (w (ftrp w (next_blkp w bp))) in
    let size = (size_at w bp + others) % 2 ^ 32 in
    let g = remove_free_block (prev_blkp w bp) h in
    let g' = remove_free_block (next_blkp g.word bp) g in
    let g'' = put (hdrp (prev_blkp g'.word bp)) (pack size false) g' in
    let k = put (ftrp g''.word (next_blkp g''.word bp)) (pack size false) g'' in
    (k, prev_blkp k.word bp)

abbrev pub by_neighbours {ℓ} : {A : Type ℓ} → (prev_alloc next_alloc : Bool) → A → A → A → A → A
by_neighbours true true none_free next_free prev_free both_free = none_free
by_neighbours true false none_free next_free prev_free both_free = next_free
by_neighbours false true none_free next_free prev_free both_free = prev_free
by_neighbours false false none_free next_free prev_free both_free = both_free

-- The joined block, not yet in the free list.
pub join : ℕ → Heap → Heap × ℕ
join bp h =
    by_neighbours (alloc_of (h.word (ftrp h.word (prev_blkp h.word bp))))
      (alloc_at h.word (next_blkp h.word bp)) (h, bp) (join_next bp h) (join_prev bp h)
      (join_both bp h)

pub coalesce : ℕ → Heap → Heap × ℕ
coalesce bp h = let (g, p) = join bp h in (insert_free_block p g, p)

-- The loop of `find_fit` from `bp` on, with fuel: `none` is out of fuel, and `some 0` is NULL.
find_fit_from : (fuel : ℕ) → (ℕ → ℕ) → (size bp : ℕ) → Option ℕ
find_fit_from zero w size bp = none
find_fit_from (suc fuel) w size bp =
    let rest = find_fit_from fuel w size (w bp) in
    if alloc_at w bp then some 0 else if leb size (size_at w bp) then some bp else rest

-- A free block takes 16 bytes at least, so a heap of n bytes has fewer than n of them.
pub find_fit : ℕ → Heap → Option ℕ
find_fit size h = find_fit_from (h.brk - h.start_brk) h.word size h.freelist_head

-- The two branches of `place` behind the removal from the free list.
split_block : (bp asize rest : ℕ) → Heap → Heap
split_block bp asize rest h =
    let g = put_tags bp (pack asize true) h in
    let bp' = next_blkp g.word bp in insert_free_block bp' (put_tags bp' (pack rest false) g)

place_sized : (bp asize csize : ℕ) → Heap → Heap
place_sized bp asize csize h =
    let rest = (csize + 2 ^ 32 - asize) % 2 ^ 32 in
    if leb (2 * dsize) rest then split_block bp asize rest h else put_tags bp (pack csize true) h

pub place : (bp asize : ℕ) → Heap → Heap
place bp asize h = place_sized bp asize (size_at h.word bp) (remove_free_block bp h)

-- The part of `extend_heap` behind `mem_sbrk`. `none` is the return of NULL.
extend_block : (size : ℕ) → Heap → Option (ℕ × Memlib) → Option (Heap × ℕ)
extend_block size h none = none
extend_block size h (some (bp, mem)) =
    let g = put_tags bp (pack size false) (record h { mem = mem }) in
    some (coalesce bp (put (hdrp (next_blkp g.word bp)) (pack 0 true) g))

pub extend_heap : (words : ℕ) → Heap → Option (Heap × ℕ)
extend_heap words h =
    let size = (if words % 2 == 1 then (words + 1) * wsize else words * wsize) % 2 ^ 32 in
    extend_block size h (mem_sbrk size h.mem)

init_words : ℕ → Heap → Heap
init_words p h = put (p + 5 * wsize) (pack 0 true) (
    put (p + 4 * wsize) (pack (2 * dsize) true) (
      put (p + 3 * wsize) 0
        (put (p + 2 * wsize) 0 (put (p + 1 * wsize) (pack (2 * dsize) true) (put p 0 h)))))

-- The end of `mm_init`: 0 or -1 for the outcome of `extend_heap` (here `true` and `false`).
init_result : Heap → Option (Heap × ℕ) → Heap × Bool
init_result h none = (h, false)
init_result h (some (g, _)) = (g, true)

-- The part of `mm_init` behind `mem_sbrk`, which has stored (void *)-1 in `heap_listp` if it failed.
init_block : Heap → Option (ℕ × Memlib) → Heap × Bool
init_block h none = (record h { heap_listp = 2 ^ 32 - 1 }, false)
init_block h (some (p, mem)) =
    let listp = p + 2 * wsize in
    let g = record (init_words p (record h { mem = mem })) {
      heap_listp = listp;
      freelist_head = listp;
    } in
    init_result g (extend_heap (chunksize / wsize) g)

pub mm_init : Heap → Heap × Bool
mm_init h = init_block h (mem_sbrk (6 * wsize) h.mem)

abbrev max_of : ℕ → ℕ → ℕ
max_of x y = if ltb y x then x else y

-- The end of `mm_malloc`: the new heap and the pointer, 0 for NULL.
place_extended : (asize : ℕ) → Heap → Option (Heap × ℕ) → Heap × ℕ
place_extended asize h none = (h, 0)
place_extended asize h (some (g, bp)) = (place bp asize g, bp)

-- The part of `mm_malloc` behind the search, whose result is `found`; `none` is out of fuel.
malloc_found : (asize : ℕ) → Heap → (found : Option ℕ) → Option (Heap × ℕ)
malloc_found asize h none = none
malloc_found asize h (some bp) = some (
    if bp == 0
    then place_extended asize h (extend_heap (max_of asize chunksize / wsize) h)
    else (place bp asize h, bp))

pub mm_malloc : ℕ → Heap → Option (Heap × ℕ)
mm_malloc size h =
    let asize = align ((size + align 4) % 2 ^ 32) in
    if size == 0 then some (h, 0) else malloc_found asize h (find_fit asize h)

pub mm_free : ℕ → Heap → Heap
mm_free ptr h = let size = size_at h.word ptr in (coalesce ptr (put_tags ptr (pack size false) h)).0

-- `memcpy` of `n` bytes between word-aligned places that do not overlap. The last word is merged
-- from `n % 4` low bytes of the source and the rest of the target (little-endian).
copy_words : (n dst src : ℕ) → (ℕ → ℕ) → ℕ → ℕ
copy_words n dst src w q =
    if ltb q dst || ltb (dst + n - 1) q
    then w q
    else if leb (q + 4 - dst) n
    then w (src + (q - dst))
    else let k = 2 ^ (8 * (n % 4)) in w (src + (q - dst)) % k + w q / k * k

-- The part of `mm_realloc` behind `mm_malloc`.
realloc_new : (ptr size : ℕ) → Option (Heap × ℕ) → Option (Heap × ℕ)
realloc_new ptr size none = none
realloc_new ptr size (some (g, new)) = some (
    if new == 0
    then (g, 0)
    else (let old = size_at g.word ptr in
        let n = if ltb size old then size else old in
        (mm_free ptr (record g { word = copy_words n new ptr g.word }), new)))

pub mm_realloc : (ptr size : ℕ) → Heap → Option (Heap × ℕ)
mm_realloc ptr size h =
    if ptr == 0
    then mm_malloc size h
    else if size == 0
    then some (mm_free ptr h, 0)
    else realloc_new ptr size (mm_malloc size h)

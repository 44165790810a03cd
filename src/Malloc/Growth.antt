-- ===== src/Malloc/Growth.antt =====
-- Which functions of mm.c move the break, and where to: only `extend_heap` does, upwards.
use s_system_programmin.Common.{
  ℕ, ◌+◌, ◌-◌, ◌*◌, ◌/◌, ◌%◌, ◌^◌, ◌≤◌, ◌≡◌, refl, sym, ap, subst, ◌∙◌, Bool, true, false, ◌||◌,
  Bool-cases, inl, inr, Option, none, some, ltb, leb, ◌==◌, if◌then◌else◌, arith,
}
use s_system_programmin.Memlib.{Memlib, mem_sbrk}
use s_system_programmin.Malloc.Words.{
  Heap, put, put_tags, wsize, dsize, hdrp, ftrp, pack, size_at, next_blkp, prev_blkp, alloc_of,
  alloc_at, chunksize, align,
}
use s_system_programmin.Malloc.{
  insert_free_block, remove_free_block, join_next, join_prev, join_both, by_neighbours, join,
  coalesce, find_fit, split_block, place_sized, place, extend_block, extend_heap, malloc_found,
  place_extended, mm_malloc, mm_free, copy_words, realloc_new, mm_realloc, max_of,
}

insert_mem : (bp : ℕ) (h : Heap) → (insert_free_block bp h).mem ≡ h.mem
unfolding insert_free_block
insert_mem bp h = elim (Bool-cases (h.freelist_head == 0)) [ inl e ↦ rw e refl | inr e ↦ rw e refl ]

remove_mem : (bp : ℕ) (h : Heap) → (remove_free_block bp h).mem ≡ h.mem
unfolding remove_free_block
remove_mem bp h = ground arith

join_next_mem : (bp : ℕ) (h : Heap) → (join_next bp h).0.mem ≡ h.mem
unfolding join_next
join_next_mem bp h = remove_mem (next_blkp h.word bp) h

join_prev_mem : (bp : ℕ) (h : Heap) → (join_prev bp h).0.mem ≡ h.mem
unfolding join_prev
join_prev_mem bp h = remove_mem (prev_blkp h.word bp) h

join_both_mem : (bp : ℕ) (h : Heap) → (join_both bp h).0.mem ≡ h.mem
unfolding join_both
join_both_mem bp h =
    let g : Heap = remove_free_block (prev_blkp h.word bp) h in
    remove_mem (next_blkp g.word bp) g ∙ remove_mem (prev_blkp h.word bp) h

by_neighbours_mem :
    (a b : Bool) (v w x y : Heap × ℕ) {m : Memlib}
    → v.0.mem ≡ m
    → w.0.mem ≡ m
    → x.0.mem ≡ m
    → y.0.mem ≡ m
    → (by_neighbours a b v w x y).0.mem ≡ m
by_neighbours_mem true true v w x y p q r s = p
by_neighbours_mem true false v w x y p q r s = q
by_neighbours_mem false true v w x y p q r s = r
by_neighbours_mem false false v w x y p q r s = s

join_mem : (bp : ℕ) (h : Heap) → (join bp h).0.mem ≡ h.mem
unfolding join
join_mem bp h =
    by_neighbours_mem (alloc_of (h.word (ftrp h.word (prev_blkp h.word bp))))
      (alloc_at h.word (next_blkp h.word bp)) (h, bp) (join_next bp h) (join_prev bp h)
      (join_both bp h) refl (join_next_mem bp h) (join_prev_mem bp h) (join_both_mem bp h)

coalesce_mem : (bp : ℕ) (h : Heap) → (coalesce bp h).0.mem ≡ h.mem
unfolding coalesce
coalesce_mem bp h = insert_mem (join bp h).1 (join bp h).0 ∙ join_mem bp h

place_sized_mem : (bp asize csize : ℕ) (h : Heap) → (place_sized bp asize csize h).mem ≡ h.mem
unfolding place_sized split_block
place_sized_mem bp asize csize h =
    let g : Heap = put_tags bp (pack asize true) h in
    let rest = (csize + 2 ^ 32 - asize) % 2 ^ 32 in
    let bp' = next_blkp g.word bp in
    let split = insert_mem bp' (put_tags bp' (pack rest false) g) in
    elim (Bool-cases (leb (2 * dsize) rest)) [ inl e ↦ rw e split | inr e ↦ rw e refl ]

place_mem : (bp asize : ℕ) (h : Heap) → (place bp asize h).mem ≡ h.mem
unfolding place
place_mem bp asize h =
    place_sized_mem bp asize (size_at h.word bp) (remove_free_block bp h) ∙ remove_mem bp h

pub mm_free_mem : (ptr : ℕ) (h : Heap) → (mm_free ptr h).mem ≡ h.mem
unfolding mm_free
mm_free_mem ptr h = coalesce_mem ptr (put_tags ptr (pack (size_at h.word ptr) false) h)

-- The heap begins where it did, and has not lost its end.
pub record Grows (h g : Heap) : Type 0 where
  pub start : g.start_brk ≡ h.start_brk
  pub up : h.brk ≤ g.brk

-- A result that is NULL or a heap that has grown
abbrev pub GrowsTo : Heap → Option (Heap × ℕ) → Type 0
GrowsTo h none = Unit {0}
GrowsTo h (some (g, p)) = Grows h g

same_mem : {h k g : Heap} → g.mem ≡ k.mem → Grows h k → Grows h g
same_mem {h} e r = record {
  start = ap (λ m. m.start_brk) e ∙ r.start;
  up = subst (λ b. h.brk ≤ b) (sym (ap (λ m. m.brk) e)) r.up;
}

extend_block-Grows :
    (size : ℕ) (h : Heap) (bp : ℕ) (mem : Memlib)
    → mem.start_brk ≡ h.start_brk
    → h.brk ≤ mem.brk
    → GrowsTo h (extend_block size h (some (bp, mem)))
unfolding extend_block
extend_block-Grows size h bp mem e l =
    let g : Heap = put_tags bp (pack size false) (record h { mem = mem }) in
    let k : Heap = put (hdrp (next_blkp g.word bp)) (pack 0 true) g in
    same_mem {h = h} {k = k} (coalesce_mem bp k) (record { start = e; up = l })

extend-Grows : (words : ℕ) (h : Heap) → GrowsTo h (extend_heap words h)
unfolding extend_heap extend_block mem_sbrk
extend-Grows words h =
    let size = (if words % 2 == 1 then (words + 1) * wsize else words * wsize) % 2 ^ 32 in
    elim (Bool-cases (ltb (2 ^ 31 - 1) size || ltb h.max_addr (h.brk + size))) [
      | inl e ↦ rw e tt
      | inr e ↦
          rw e (
            extend_block-Grows size h h.brk (record h.mem { brk = h.brk + size }) refl
              (omega arith))
    ]

-- The functions behind `mm_malloc` and `mm_realloc`, for any heap
place_extended-Grows :
    (asize : ℕ) (h : Heap) (o : Option (Heap × ℕ))
    → GrowsTo h o
    → Grows h (place_extended asize h o).0
unfolding place_extended
place_extended-Grows asize h none r = record { start = refl; up = omega arith }
place_extended-Grows asize h (some (g, bp)) r = same_mem {h = h} {k = g} (place_mem bp asize g) r

malloc_found-Grows :
    (asize : ℕ) (h : Heap) (found : Option ℕ) → GrowsTo h (malloc_found asize h found)
unfolding malloc_found
malloc_found-Grows asize h none = tt
malloc_found-Grows asize h (some bp) =
    let words = max_of asize chunksize / wsize in
    elim (Bool-cases (bp == 0)) [
      | inl e ↦ rw e (place_extended-Grows asize h (extend_heap words h) (extend-Grows words h))
      | inr e ↦ rw e (
          same_mem {h = h} {k = h} (place_mem bp asize h)
            (record { start = refl; up = omega arith }))
    ]

pub mm_malloc-Grows : (size : ℕ) (h : Heap) → GrowsTo h (mm_malloc size h)
unfolding mm_malloc
mm_malloc-Grows size h =
    let asize = align ((size + align 4) % 2 ^ 32) in
    elim (Bool-cases (size == 0)) [
      | inl e ↦ rw e (record { start = refl; up = omega arith })
      | inr e ↦ rw e (malloc_found-Grows asize h (find_fit asize h))
    ]

realloc_new-Grows :
    (ptr size : ℕ) (h : Heap) (o : Option (Heap × ℕ))
    → GrowsTo h o
    → GrowsTo h (realloc_new ptr size o)
unfolding realloc_new
realloc_new-Grows ptr size h none r = tt
realloc_new-Grows ptr size h (some (g, new)) r =
    let old = size_at g.word ptr in
    let n = if ltb size old then size else old in
    let k : Heap = record g { word = copy_words n new ptr g.word } in
    elim (Bool-cases (new == 0)) [
      | inl e ↦ rw e r
      | inr e ↦ rw e (same_mem {h = h} {k = g} (mm_free_mem ptr k) r)
    ]

pub mm_realloc-Grows : (ptr size : ℕ) (h : Heap) → GrowsTo h (mm_realloc ptr size h)
unfolding mm_realloc
mm_realloc-Grows ptr size h =
    let new = mm_malloc-Grows size h in
    elim (Bool-cases (ptr == 0)) [
      | inl e ↦ rw e new
      | inr e ↦ elim (Bool-cases (size == 0)) [
        | inl z ↦
            rw (e, z)
              (same_mem {h = h} {k = h} (mm_free_mem ptr h)
                (record { start = refl; up = omega arith }))
        | inr z ↦ rw (e, z) (realloc_new-Grows ptr size h (mm_malloc size h) new)
      ]
    ]

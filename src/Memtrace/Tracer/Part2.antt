-- ===== src/Memtrace/Tracer/Part2.antt =====
-- Lab/lab1/linklab/handout/part2/memtrace.c: its wrappers are those of part 3, but for `free`.
use s_system_programmin.Common.{
  ℕ, ◌≡◌, refl, Bool-cases, inl, inr, Option, none, some, List, [], ◌∷◌, ◌==◌, arith,
}
use s_system_programmin.Memtrace.Memlist.{Item, dealloc, item_at, decrement}
use s_system_programmin.Memtrace.Tracer
use s_system_programmin.Memtrace.Tracer.{
  Trace, add_long, item_of, add_freed, free_item, Outcome, freed, ill_free, double_free, Report,
  is_zero,
}

-- The end of `free` in part 2; `none` is a read through NULL.
abbrev pub count_freed : Trace → List Item → Option Item → Option Trace
count_freed t items none = none
count_freed t items (some i) =
    some (record t { items = items; n_freeb = add_long t.n_freeb i.size })

pub free : (ptr : ℕ) → Trace → Option Trace
free ptr t =
    let (items, deallocated) = dealloc t.items ptr in
    count_freed t items (item_of items deallocated)

dealloc_found :
    (cs : List Item) (ptr : ℕ) (i : Item)
    → item_at cs ptr ≡ some i
    → ((dealloc cs ptr).1 ≡ some ptr)
      × (item_at (dealloc cs ptr).0 ptr ≡ some (record i { cnt = decrement i.cnt }))
unfolding dealloc
dealloc_found [] ptr i e = cc
dealloc_found (c ∷ cs) ptr i e = elim (Bool-cases (c.ptr == ptr)) [
  | inl a ↦ rw a (refl, ground (arith, (rw a at e)))
  | inr a ↦ rw a (ground (arith, dealloc_found cs ptr i (rw a at e)))
]

dealloc_absent : (cs : List Item) (ptr : ℕ) → item_at cs ptr ≡ none → (dealloc cs ptr).1 ≡ none
unfolding dealloc
dealloc_absent [] ptr e = refl
dealloc_absent (c ∷ cs) ptr e = elim (Bool-cases (c.ptr == ptr)) [
  | inl a ↦ absurd (ground (arith, e))
  | inr a ↦ rw a (dealloc_absent cs ptr (rw a at e))
]

-- A result of `free` in part 2 and the result and outcome of `free` in part 3: both have released the
-- block; or part 2 has read through NULL where part 3 reports an illegal free; or part 3 reports a
-- double free.
pub data Matches : Option Trace → Trace × Outcome → Type 0 where
  both_free : {t : Trace} → Matches (some t) (t, freed)
  null_read : {t : Trace} → Matches none (t, ill_free)
  freed_again : {t : Trace} {o : Option Trace} → Matches o (t, double_free)

free_item-Matches :
    (ptr : ℕ) (t : Trace) (o : Option Item)
    → item_at t.items ptr ≡ o
    → Matches (free ptr t) (free_item ptr t o)
unfolding free free_item
free_item-Matches ptr t none e = rw (dealloc_absent t.items ptr e) null_read
free_item-Matches ptr t (some i) e =
    let (found, kept) = dealloc_found t.items ptr i e in
    elim (Bool-cases (is_zero i.cnt)) [
      | inl z ↦ rw z freed_again
      | inr z ↦ rw (z, found, kept) both_free
    ]

-- `free` of part 2 has the same effect as `free` of part 3 for every block that part 3 releases, and
-- it reads through NULL for every pointer that part 3 reports as an illegal free.
pub free-Matches : (ptr : ℕ) (t : Trace) → Matches (free ptr t) (Tracer.free ptr t)
unfolding Tracer.free
free-Matches ptr t = elim (Bool-cases (ptr == 0)) [
  | inl e ↦ rw e freed_again
  | inr e ↦ rw e (free_item-Matches ptr t (item_at t.items ptr) refl)
]

-- ===== src/Malloc/Session.antt =====
-- A caller's session with mm.c: any sequence of successful and refused requests, releases, moves and
-- writes to allocated memory, next to the abstract view of it: which pointers are allocated, and the
-- size of their blocks.
use s_system_programmin.Common.{
  ℕ, ◌+◌, ◌%◌, ◌^◌, ◌≤◌, ◌<◌, ◌≡◌, ap, subst, ◌∙◌, Bool, true, false, ◌||◌, Option, none, some,
  List, arith, leb, ◌==◌, if◌then◌else◌,
}
use s_system_programmin.Malloc.Words.{Heap, size_at}
use s_system_programmin.Malloc.{mm_init, mm_malloc, mm_free, mm_realloc}
use s_system_programmin.Malloc.Layout.{Block, used_range}
use s_system_programmin.Malloc.Invariant.{Inv, live}
use s_system_programmin.Malloc.Init.{Fresh, Initialised, initialised, no_room, mm_init-Initialised}
use s_system_programmin.Malloc.Alloc.{Allocates, refuses, allocates, mm_malloc-Allocates}
use s_system_programmin.Malloc.Free.{mm_free-Freed}
use s_system_programmin.Malloc.Payload.{used_apart, Writes, write-Inv}
use s_system_programmin.Malloc.Realloc.{
  Reallocates, stays, moves, used-Stands, used-size_at, mm_realloc-Reallocates,
}

-- The abstract view: the size of the allocated block at a pointer.
abbrev pub Allocations : Type 0
Allocations = ℕ → Option ℕ

-- A request that returned `p`: NULL allocates nothing.
abbrev pub allocated : Allocations → Heap → ℕ → Allocations
allocated live_at g p q =
    if p == 0 then live_at q else if q == p then some (size_at g.word p) else live_at q

abbrev pub released : Allocations → ℕ → Allocations
released live_at ptr q = if q == ptr then none else live_at q

abbrev pub reallocated : Allocations → Heap → (ptr p : ℕ) → Allocations
reallocated live_at g ptr p q = if p == 0 then live_at q else released (allocated live_at g p) ptr q

pub data Session : Heap → Allocations → Type 0 where
  init : (h : Heap) {g : Heap} → Fresh h.mem → mm_init h ≡ (g, true) → Session g (λ q. none)
  malloc :
      (h : Heap) {g : Heap} {live_at : Allocations} (size p : ℕ)
      → Session h live_at
      → 0 < size
      → size + 15 < 2 ^ 32
      → mm_malloc size h ≡ some (g, p)
      → Session g (allocated live_at g p)
  free :
      {h : Heap} {live_at : Allocations} (ptr n : ℕ)
      → Session h live_at
      → live_at ptr ≡ some n
      → Session (mm_free ptr h) (released live_at ptr)
  realloc :
      (h : Heap) {g : Heap} {live_at : Allocations} (ptr n size p : ℕ)
      → Session h live_at
      → live_at ptr ≡ some n
      → 0 < size
      → size + 15 < 2 ^ 32
      → mm_realloc ptr size h ≡ some (g, p)
      → Session g (reallocated live_at g ptr p)
  writes :
      {h : Heap} {live_at : Allocations} (ptr n : ℕ) (w : ℕ → ℕ)
      → Session h live_at
      → live_at ptr ≡ some n
      → Writes h ptr n w
      → Session (record h { word = w }) live_at

-- The heap implements the abstract view.
pub record Implements (h : Heap) (live_at : Allocations) : Type 0 where
  pub blocks : List Block
  pub frees : List ℕ
  pub inv : Inv h blocks frees
  pub same : (q : ℕ) → live h blocks q ≡ live_at q

init-Implements :
    {h : Heap} {r : Heap × Bool} → Initialised h r → r.1 ≡ true → Implements r.0 (λ q. none)
init-Implements (initialised {bs = bs} {fs = fs} _ inv empty) e = record {
  blocks = bs;
  frees = fs;
  inv = inv;
  same = empty;
}
init-Implements (no_room _) e = cc

result_at : Option (Heap × ℕ) → Heap → Heap × ℕ
result_at none h = (h, 0)
result_at (some r) h = r

malloc-Implements :
    {h : Heap} {live_at : Allocations} {size : ℕ} (i : Implements h live_at) (o : Option (Heap × ℕ))
    → Allocates h i.blocks i.frees size o
    → Implements (result_at o h).0 (allocated live_at (result_at o h).0 (result_at o h).1)
unfolding result_at
malloc-Implements i none a = elim a [ ]
malloc-Implements i (some (g, p)) (refuses _) = i
malloc-Implements {h} {live_at} i (some (g, p)) (allocates a) =
    let r = a.placed in
    let header = used-size_at p a.bytes r.inv (r.live_lem p ∙ ground arith) in
    record {
      blocks = r.blocks;
      frees = r.frees;
      inv = r.inv;
      same = λ q. rw header (ground (arith, r.live_lem q, i.same q, a.not_null));
    }

realloc-Implements :
    {h : Heap} {live_at : Allocations} {size : ℕ} (ptr n : ℕ) (i : Implements h live_at)
    (o : Option (Heap × ℕ))
    → Reallocates h i.blocks i.frees ptr n size o
    → live_at ptr ≡ some n
    → Implements (result_at o h).0 (reallocated live_at (result_at o h).0 ptr (result_at o h).1)
unfolding result_at
realloc-Implements ptr n i none a u = elim a [ ]
realloc-Implements ptr n i (some (g, p)) (stays _) u = i
realloc-Implements {h} {live_at} ptr n i (some (g, p)) (moves a) u =
    let other : (p == ptr) ≡ false = ground (arith, a.fresh, i.same ptr) in
    let header = used-size_at p a.bytes a.inv (a.live_lem p ∙ rw other (ground arith)) in
    record {
      blocks = a.blocks;
      frees = a.frees;
      inv = a.inv;
      same = λ q. rw header (ground (arith, a.live_lem q, i.same q, a.not_null));
    }

-- Whatever a caller does that requests a positive number of bytes, at least 16 below 2 ^ 32, and
-- only releases, moves and writes what it has been given, the heap stays well-formed, and its
-- allocated blocks are those of the abstract view.
pub Session-Implements :
    {h : Heap} {live_at : Allocations} → Session h live_at → Implements h live_at
unfolding result_at
Session-Implements (init h f e) =
    subst (λ r. Implements r.0 (λ q. none)) e
      (init-Implements (mm_init-Initialised h f) (ap (λ r. r.1) e))
Session-Implements (malloc h {g} {live_at} size p s l b e) =
    let i = Session-Implements s in
    subst
      (λ o. Implements (result_at o h).0 (allocated live_at (result_at o h).0 (result_at o h).1)) e
      (malloc-Implements i (mm_malloc size h) (mm_malloc-Allocates size i.inv l b))
Session-Implements (free {h} {live_at} ptr n s u) =
    let i = Session-Implements s in
    let f = mm_free-Freed ptr n i.inv (i.same ptr ∙ u) in
    record {
      blocks = f.blocks;
      frees = f.frees;
      inv = f.inv;
      same = λ q. f.live_lem q ∙ ap (λ o. if q == ptr then none else o) (i.same q);
    }
Session-Implements (realloc h {g} {live_at} ptr n size p s u l b e) =
    let i = Session-Implements s in
    subst
      (λ o.
        Implements (result_at o h).0 (reallocated live_at (result_at o h).0 ptr (result_at o h).1))
      e
      (realloc-Implements ptr n i (mm_realloc ptr size h)
        (mm_realloc-Reallocates ptr n size i.inv (i.same ptr ∙ u) l b) u)
Session-Implements (writes {h} {live_at} ptr n w s u c) =
    let i = Session-Implements s in
    record {
      blocks = i.blocks;
      frees = i.frees;
      inv = write-Inv ptr n w i.inv (i.same ptr ∙ u) c;
      same = i.same;
    }

-- In every session in which requests are for a positive number of bytes, at least 16 below 2 ^ 32,
-- two allocations with different pointers do not overlap, and lie in the heap at multiples of 8.
pub Session-apart :
    {h : Heap} {live_at : Allocations} (q n r m : ℕ)
    → Session h live_at
    → live_at q ≡ some n
    → live_at r ≡ some m
    → (q == r) ≡ false
    → ((leb (q + n) r || leb (r + m) q) ≡ true) × (h.start_brk < q) × (q + n ≤ h.brk) × (q % 8 ≡ 0)
Session-apart {h} q n r m s u v e =
    let i = Session-Implements s in
    let l = i.inv.laid in
    let range = used_range (h.heap_listp + 16) i.blocks q n l.sized.2 (i.same q ∙ u) in
    (
      used_apart (h.heap_listp + 16) i.blocks q n r m l.sized.2 (i.same q ∙ u) (i.same r ∙ v) e,
      omega (arith, range, l.start),
      omega (arith, range, l.ends),
      (used-Stands q n i.inv (i.same q ∙ u)).bp_mod,
    )

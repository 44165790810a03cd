-- ===== src/Driver/Replay/Counted.antt =====
-- The loop of `eval_mm_util` of mdriver.c: each operation counts the payload that is held.
use s_system_programmin.Common.{
  ℕ, ◌+◌, ◌-◌, ◌≤◌, ◌<◌, ◌≡◌, refl, sym, ap, subst, ◌∙◌, true, false, some, none, Option, List, ◌∷◌,
  has, erase, erase-has, ◌==◌, arith,
}
use s_system_programmin.Memlib.{mem_heapsize, mem_heapsize_lem}
use s_system_programmin.Malloc.Words.{Heap}
use s_system_programmin.Malloc.{mm_malloc, mm_realloc}
use s_system_programmin.Malloc.Layout.{Block}
use s_system_programmin.Malloc.Invariant.{Inv, live}
use s_system_programmin.Malloc.Alloc.{Allocates, refuses, allocates, mm_malloc-Allocates}
use s_system_programmin.Malloc.Free.{mm_free-Freed}
use s_system_programmin.Malloc.Realloc.{Reallocates, moves, stays, mm_realloc-Reallocates}
use s_system_programmin.Malloc.Growth.{
  Grows, GrowsTo, mm_malloc-Grows, mm_realloc-Grows, mm_free_mem,
}
use s_system_programmin.Driver.Ranges.{
  Reason, Check, passes, fails, ◌>>=◌, malloc_failed, realloc_failed,
}
use s_system_programmin.Driver.Replay.{
  TraceOp, alloc, realloc, free, Usage, set, not_null, util_step, util_alloc, util_realloc,
  util_free, greater, counted_as,
}
use s_system_programmin.Driver.Replay.Traces.{WellFormed, held_after, sizes_after, payload}
use s_system_programmin.Driver.Replay.Tracked.{
  Tracked, Allocated-Tracked, Freed-Tracked, Moved-Tracked, hold-Tracked,
}
use s_system_programmin.Driver.Replay.Full.{UtilStops, at_malloc, at_realloc}
use s_system_programmin.Driver.Replay.Fits.{payload-erase, set-payload, payload_bound}

-- In the middle of the run: the payload is counted, and the largest one so far had room in the heap.
pub record Counted (u : Usage) (ids : List ℕ) : Type 0 where
  pub row : List Block
  pub frees : List ℕ
  pub inv : Inv u.heap row frees
  pub tracked : Tracked false u.heap row u.blocks u.block_sizes ids
  pub now : u.total_size ≡ payload u.block_sizes ids
  pub so_far : u.total_size ≤ u.max_total_size
  pub fits : u.max_total_size ≤ mem_heapsize u.heap.mem

-- The outcome of one operation
pub data Counts (s : Usage) (ops : List TraceOp) (sizes : ℕ → ℕ) (ids : List ℕ)
    : Check Usage → Type 0 where
  counted :
      {u : Usage}
      → Counted u ids
      → u.max_total_size ≡ greater (payload sizes ids) s.max_total_size
      → u.block_sizes ≡ sizes
      → Counts s ops sizes ids (passes u)
  stops : {r : Reason} → UtilStops s ops r → Counts s ops sizes ids (fails r)

heapsize-Grows : {h g : Heap} → Grows h g → mem_heapsize h.mem ≤ mem_heapsize g.mem
heapsize-Grows {h} {g} r =
    omega (arith, r.start, r.up, mem_heapsize_lem h.mem, mem_heapsize_lem g.mem)

-- A block that is new to the ids is counted.
count_new :
    {g : Heap} {bs : List Block} {fs : List ℕ} {ids : List ℕ} (i n size p total : ℕ) (u : Usage)
    → Inv g bs fs
    → Tracked false g bs u.blocks u.block_sizes ids
    → has i ids ≡ false
    → ((j : ℕ) → has j ids ≡ true → (u.blocks j == p) ≡ false)
    → live g bs p ≡ some n
    → size + 8 ≤ n
    → 0 < size
    → total ≡ size + payload u.block_sizes ids
    → u.max_total_size ≤ mem_heapsize g.mem
    → (ops : List TraceOp)
    → Counts u ops (set i size u.block_sizes) (i ∷ ids) (passes (counted_as i size total (g, p) u))
count_new {g} {bs} {fs} {ids} i n size p total u inv t new other used room l sum fits ops =
    let t' = hold-Tracked i n size p t new other used room l in
    let self : (i == i) ≡ true = ground arith in
    let same : payload (set i size u.block_sizes) (i ∷ ids) ≡ total =
      rw self (ap (λ x. size + x) (set-payload i size u.block_sizes ids new) ∙ sym sum) in
    let bound = payload_bound inv t' in
    counted
      (record {
        row = bs;
        frees = fs;
        inv = inv;
        tracked = t';
        now = sym same;
        so_far = ground arith;
        fits = ground (arith, bound, same, fits);
      })
      (ap (λ x. greater x u.max_total_size) (sym same)) refl

allocated-Counts :
    (i size : ℕ) (u : Usage) (ids : List ℕ) (c : Counted u ids) (o : Option (Heap × ℕ))
    → Allocates u.heap c.row c.frees size o
    → GrowsTo u.heap o
    → has i ids ≡ false
    → 0 < size
    → (ops : List TraceOp)
    → Counts u
        (alloc i size ∷ ops)
        (set i size u.block_sizes)
        (i ∷ ids)
        (not_null malloc_failed o >>= λ r. passes (counted_as i size (u.total_size + size) r u))
allocated-Counts i size u ids c none a grows new l ops = elim a [ ]
allocated-Counts i size u ids c (some (g, p)) (refuses x) grows new l ops =
    stops
      (at_malloc i size ops (record { row = c.row; frees = c.frees; inv = c.inv; exhausted = x }))
allocated-Counts i size u ids c (some (g, p)) (allocates a) grows new l ops =
    let (t, other) = Allocated-Tracked a c.tracked in
    let positive : (p == 0) ≡ false = ground (arith, a.not_null) in
    let r = a.placed in
    rw positive (
      count_new i a.bytes size p (u.total_size + size) u r.inv t new other
        (r.live_lem p ∙ ground arith) a.enough l (omega (arith, c.now))
        (omega (arith, c.fits, heapsize-Grows grows)) (alloc i size ∷ ops))

reallocated-Counts :
    (i size : ℕ) (u : Usage) (ids : List ℕ) (c : Counted u ids) (m : has i ids ≡ true)
    (o : Option (Heap × ℕ))
    → Reallocates u.heap c.row c.frees (u.blocks i) (c.tracked.owned i m).bytes size o
    → GrowsTo u.heap o
    → 0 < size
    → (ops : List TraceOp)
    → Counts u (realloc i size ∷ ops) (set i size u.block_sizes) (i ∷ erase i ids) (
        not_null realloc_failed o >>= λ r.
        passes (counted_as i size (u.total_size + size - u.block_sizes i) r u))
reallocated-Counts i size u ids c m none a grows l ops = elim a [ ]
reallocated-Counts i size u ids c m (some (g, p)) (stays x) grows l ops =
    stops
      (at_realloc i size ops (record { row = c.row; frees = c.frees; inv = c.inv; exhausted = x }))
reallocated-Counts i size u ids c m (some (g, p)) (moves a) grows l ops =
    let owned = c.tracked.owned i m in
    let (t, other) = Moved-Tracked i a c.tracked m in
    let positive : (p == 0) ≡ false = ground (arith, a.not_null) in
    let moved : (p == u.blocks i) ≡ false = ground (arith, a.fresh, owned.used) in
    let new : has i (erase i ids) ≡ false = ground (arith, erase-has i i ids c.tracked.distinct) in
    let sum = payload-erase u.block_sizes i ids m in
    rw positive (
      count_new i a.bytes size p (u.total_size + size - u.block_sizes i) u a.inv t new other
        (a.live_lem p ∙ rw moved (ground arith)) a.enough l (omega (arith, c.now, sum))
        (omega (arith, c.fits, heapsize-Grows grows)) (realloc i size ∷ ops))

free-Counts :
    (i : ℕ) (u : Usage) (ids : List ℕ) (ops : List TraceOp)
    → Counted u ids
    → has i ids ≡ true
    → Counts u (free i ∷ ops) u.block_sizes (erase i ids) (util_free i u)
unfolding util_free
free-Counts i u ids ops c m =
    let owned = c.tracked.owned i m in
    let f = mm_free-Freed (u.blocks i) owned.bytes c.inv owned.used in
    let sum = payload-erase u.block_sizes i ids m in
    let mem = mm_free_mem (u.blocks i) u.heap in
    counted
      (record {
        row = f.blocks;
        frees = f.frees;
        inv = f.inv;
        tracked = Freed-Tracked i c.inv c.tracked f m;
        now = omega (arith, c.now, sum);
        so_far = omega (arith, c.so_far);
        fits = subst (λ m'. u.max_total_size ≤ mem_heapsize m') (sym mem) c.fits;
      })
      (ground (arith, c.now, c.so_far, sum)) refl

pub step-Counts :
    (ids : List ℕ) (op : TraceOp) (ops : List TraceOp) (u : Usage)
    → WellFormed ids (op ∷ ops)
    → Counted u ids
    → Counts u (op ∷ ops) (sizes_after u.block_sizes op) (held_after ids op) (util_step op u)
      × WellFormed (held_after ids op) ops
unfolding util_step util_alloc util_realloc
step-Counts ids (alloc i size) ops u (new, (l, b), rest) c = (
  allocated-Counts i size u ids c (mm_malloc size u.heap) (mm_malloc-Allocates size c.inv l b)
      (mm_malloc-Grows size u.heap) new l ops,
  rest,
)
step-Counts ids (realloc i size) ops u (m, (l, b), rest) c =
    let owned = c.tracked.owned i m in
    (
      reallocated-Counts i size u ids c m (mm_realloc (u.blocks i) size u.heap)
          (mm_realloc-Reallocates (u.blocks i) owned.bytes size c.inv owned.used l b)
          (mm_realloc-Grows (u.blocks i) size u.heap) l ops,
      rest,
    )
step-Counts ids (free i) ops u (m, rest) c = (free-Counts i u ids ops c m, rest)

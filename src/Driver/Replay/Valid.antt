-- ===== src/Driver/Replay/Valid.antt =====
-- What `eval_mm_valid` of mdriver.c comes to over the allocator mm.c.
use s_system_programmin.Common.{
  ℕ, zero, suc, ◌+◌, ◌%◌, ◌^◌, ◌≤◌, ◌<◌, ◌≡◌, refl, ap, ◌∙◌, Bool, true, false, some, none, Option,
  List, [], ◌∷◌, has, erase, erase-has, ltb, ◌==◌, if◌then◌else◌, arith,
}
use s_system_programmin.Memlib.{mem_reset_brk}
use s_system_programmin.Malloc.Words.{Heap, chunksize}
use s_system_programmin.Malloc.{mm_free, mm_malloc, mm_realloc, mm_init}
use s_system_programmin.Malloc.Invariant.{live}
use s_system_programmin.Malloc.Init.{Fresh, Initialised, initialised, no_room, mm_init-Initialised}
use s_system_programmin.Malloc.Alloc.{Allocates, refuses, allocates, mm_malloc-Allocates}
use s_system_programmin.Malloc.Free.{mm_free-Freed}
use s_system_programmin.Malloc.Realloc.{Reallocates, moves, stays, mm_realloc-Reallocates}
use s_system_programmin.Driver.Ranges.{
  Reason, Check, passes, fails, ◌>>=◌, add_range, remove_range, clear_ranges, malloc_failed,
  realloc_failed,
}
use s_system_programmin.Driver.Ranges.Held.{remove_range-ranges_of, clear_ranges_lem}
use s_system_programmin.Driver.Replay.{
  TraceOp, alloc, realloc, free, Replay, byte_at, kept, eval_mm_valid, valid_steps, valid_step,
  init_heap, not_null, valid_alloc, valid_realloc, valid_free, valid_moved, remember,
}
use s_system_programmin.Driver.Replay.Traces.{WellFormed, LowMoves, held, held_after}
use s_system_programmin.Driver.Replay.Consistent.{Consistent, new_range, remember-Consistent}
use s_system_programmin.Driver.Replay.Full.{ValidStops, at_malloc, at_realloc, later, valid_start}
use s_system_programmin.Driver.Replay.Bytes.{moved_byte}
use s_system_programmin.Driver.Replay.Tracked.{Allocated-Tracked, Freed-Tracked, Moved-Tracked}

-- The outcome of a replay of `ops` from `s` that finds no fault with the allocator: it goes through,
-- or gets to a request that the memory has no room for.
pub data Faultless (s : Replay) (ops : List TraceOp) (ids : List ℕ) : Check Replay → Type 0 where
  good : {t : Replay} → Consistent t ids → Faultless s ops ids (passes t)
  stops : {r : Reason} → ValidStops s ops r → Faultless s ops ids (fails r)

allocated-Faultless :
    (i size : ℕ) (s : Replay) (ids : List ℕ) (c : Consistent s ids) (o : Option (Heap × ℕ))
    → Allocates s.heap c.row c.frees size o
    → 0 < size
    → has i ids ≡ false
    → (ops : List TraceOp)
    → Faultless s (alloc i size ∷ ops) (i ∷ ids) (
        not_null malloc_failed o >>= λ r.
        add_range r.1 size r.0.mem s.ranges >>= λ ranges. passes (remember i size r.1 r.0 ranges s))
unfolding remember
allocated-Faultless i size s ids c none a l new ops = elim a [ ]
allocated-Faultless i size s ids c (some (g, p)) (refuses x) l new ops =
    stops
      (at_malloc i size ops (record { row = c.row; frees = c.frees; inv = c.inv; exhausted = x }))
allocated-Faultless i size s ids c (some (g, p)) (allocates a) l new ops =
    let (t, other) = Allocated-Tracked a c.tracked in
    let positive : (p == 0) ≡ false = ground (arith, a.not_null) in
    let r = a.placed in
    let u : live g r.blocks p ≡ some a.bytes = r.live_lem p ∙ ground arith in
    let accepted = new_range a.bytes size p r.inv t other u a.enough l in
    rw (positive, c.listed, accepted)
      (good (remember-Consistent i a.bytes size p s r.inv t new other u a.enough l))

-- The old contents that the driver looks for
kept_bytes :
    (w : ℕ → ℕ) (p i n : ℕ)
    → i % 2 ^ 8 < 128
    → ((j : ℕ) → j < n → byte_at w p j ≡ i % 2 ^ 8)
    → kept w p i n ≡ true
unfolding kept
kept_bytes w p i zero b f = refl
kept_bytes w p i (suc j) b f =
    let rest = kept_bytes w p i j b (λ k l. f k (omega arith)) in
    let here = f j (omega arith) in rw (rest, here) (ground arith)

reallocated-Faultless :
    (i size : ℕ) (s : Replay) (ids : List ℕ) (c : Consistent s ids) (m : has i ids ≡ true)
    (o : Option (Heap × ℕ))
    → Reallocates s.heap c.row c.frees (s.blocks i) (c.tracked.owned i m).bytes size o
    → 0 < size
    → i % 2 ^ 8 < 128
    → (ops : List TraceOp)
    → Faultless s (realloc i size ∷ ops) (i ∷ erase i ids) (
        not_null realloc_failed o >>= λ r.
        add_range r.1 size r.0.mem (remove_range (s.blocks i) s.ranges) >>= λ ranges.
        valid_moved i size r.1 r.0 ranges s)
unfolding remember valid_moved
reallocated-Faultless i size s ids c m none a l b ops = elim a [ ]
reallocated-Faultless i size s ids c m (some (g, p)) (stays x) l b ops =
    stops
      (at_realloc i size ops (record { row = c.row; frees = c.frees; inv = c.inv; exhausted = x }))
reallocated-Faultless i size s ids c m (some (g, p)) (moves a) l b ops =
    let owned = c.tracked.owned i m in
    let (t, other) = Moved-Tracked i a c.tracked m in
    let positive : (p == 0) ≡ false = ground (arith, a.not_null) in
    let moved : (p == s.blocks i) ≡ false = ground (arith, a.fresh, owned.used) in
    let u : live g a.blocks p ≡ some a.bytes = a.live_lem p ∙ rw moved (ground arith) in
    let new : has i (erase i ids) ≡ false = ground (arith, erase-has i i ids c.tracked.distinct) in
    let rest =
      remove_range-ranges_of i s.blocks s.block_sizes ids m (λ j k e. c.tracked.apart j i k m e) in
    let accepted = new_range a.bytes size p a.inv t other u a.enough l in
    let oldsize = s.block_sizes i in
    let contents : kept g.word p i (if ltb size oldsize then size else oldsize) ≡ true =
      kept_bytes g.word p i (if ltb size oldsize then size else oldsize) b λ j k.
        moved_byte (s.blocks i) owned.bytes size p j a (ground arith) (ground (arith, owned.room))
        ∙ owned.filled refl j (ground arith) in
    rw (positive, c.listed, rest, accepted, contents)
      (good (remember-Consistent i a.bytes size p s a.inv t new other u a.enough l))

freed-Consistent :
    (i : ℕ) (s : Replay) (ids : List ℕ)
    → Consistent s ids
    → has i ids ≡ true
    → Consistent
        (record s {
          ranges = remove_range (s.blocks i) s.ranges;
          heap = mm_free (s.blocks i) s.heap;
        })
        (erase i ids)
freed-Consistent i s ids c m =
    let owned = c.tracked.owned i m in
    let f = mm_free-Freed (s.blocks i) owned.bytes c.inv owned.used in
    record {
      row = f.blocks;
      frees = f.frees;
      inv = f.inv;
      tracked = Freed-Tracked i c.inv c.tracked f m;
      listed =
          ap (remove_range (s.blocks i)) c.listed
          ∙ remove_range-ranges_of i s.blocks s.block_sizes ids m
              (λ j k e. c.tracked.apart j i k m e);
    }

step-Faultless :
    (ids : List ℕ) (op : TraceOp) (ops : List TraceOp) (s : Replay)
    → WellFormed ids (op ∷ ops)
    → LowMoves (op ∷ ops)
    → Consistent s ids
    → Faultless s (op ∷ ops) (held_after ids op) (valid_step op s)
      × WellFormed (held_after ids op) ops
      × LowMoves ops
unfolding valid_step valid_alloc valid_realloc valid_free
step-Faultless ids (alloc i size) ops s (new, (l, b), rest) low c = (
  allocated-Faultless i size s ids c (mm_malloc size s.heap) (mm_malloc-Allocates size c.inv l b) l
      new ops,
  rest,
  low,
)
step-Faultless ids (realloc i size) ops s (m, (l, b), rest) (char, low) c =
    let owned = c.tracked.owned i m in
    (
      reallocated-Faultless i size s ids c m (mm_realloc (s.blocks i) size s.heap)
          (mm_realloc-Reallocates (s.blocks i) owned.bytes size c.inv owned.used l b) l char ops,
      rest,
      low,
    )
step-Faultless ids (free i) ops s (m, rest) low c = (good (freed-Consistent i s ids c m), rest, low)

later-Faultless :
    {s t : Replay} {ids : List ℕ} {k : Check Replay} (op : TraceOp) (ops : List TraceOp)
    → valid_step op s ≡ passes t
    → Faultless t ops ids k
    → Faultless s (op ∷ ops) ids k
later-Faultless op ops e (good c) = good c
later-Faultless op ops e (stops x) = stops (later op ops e x)

bind-Faultless :
    {ids ids' : List ℕ} {k : Check Replay} (s : Replay) (op : TraceOp) (ops : List TraceOp)
    (f : Replay → Check Replay)
    → valid_step op s ≡ k
    → Faultless s (op ∷ ops) ids k
    → ((t : Replay) → Consistent t ids → Faultless t ops ids' (f t))
    → Faultless s (op ∷ ops) ids' (k >>= f)
bind-Faultless s op ops f e (good {t = t} c) next = later-Faultless op ops e (next t c)
bind-Faultless s op ops f e (stops x) next = stops x

pub steps-Faultless :
    (ids : List ℕ) (ops : List TraceOp) (s : Replay)
    → WellFormed ids ops
    → LowMoves ops
    → Consistent s ids
    → Faultless s ops (held ids ops) (valid_steps ops s)
unfolding valid_steps
steps-Faultless ids [] s w low c = good c
steps-Faultless ids (op ∷ ops) s w low c =
    let (f, w', low') = step-Faultless ids op ops s w low c in
    bind-Faultless s op ops (valid_steps ops) refl f
      (λ s' c'. steps-Faultless (held_after ids op) ops s' w' low' c')

pub mm_init-Consistent :
    {h : Heap} {r : Heap × Bool} (s : Replay)
    → Initialised h r
    → h.brk + 24 + chunksize ≤ h.max_addr
    → (r.1 ≡ true) × Consistent (record s { heap = r.0; ranges = clear_ranges s.ranges }) []
mm_init-Consistent s (initialised {bs = bs} {fs = fs} _ inv _) room = (
  refl,
  record {
    row = bs;
    frees = fs;
    inv = inv;
    tracked = record { owned = λ i m. cc; apart = λ i j m k e. cc; distinct = tt };
    listed = clear_ranges_lem s.ranges;
  },
)
mm_init-Consistent s (no_room l) room = absurd (omega arith)

-- `eval_mm_valid` on the allocator of mm.c, with a memory that has room for its first chunk, ends on
-- every trace of positive sizes, at least 16 below 2 ^ 32, that requests ids it does not hold, and
-- only moves and releases ids that it holds, and moves only ids with a low byte below 128: it finds no block
-- that is misaligned, outside the heap or over another one, and no lost contents after a move. It
-- stops only for a request for which no free block is large enough and the memory has no room, in a
-- well-formed heap behind operations that pass, and behind the last operation just the
-- ids that the trace still holds have a block, each filled with its low byte.
pub eval_mm_valid-Faultless :
    (ops : List TraceOp) (s : Replay)
    → Fresh (mem_reset_brk s.heap.mem)
    → (mem_reset_brk s.heap.mem).brk + 24 + chunksize ≤ (mem_reset_brk s.heap.mem).max_addr
    → WellFormed [] ops
    → LowMoves ops
    → Faultless (valid_start s) ops (held [] ops) (eval_mm_valid ops s)
unfolding eval_mm_valid init_heap
eval_mm_valid-Faultless ops s fresh room w low =
    let start : Heap = record s.heap { mem = mem_reset_brk s.heap.mem } in
    let (ok, c) = mm_init-Consistent s (mm_init-Initialised start fresh) room in
    rw ok (
      steps-Faultless [] ops (record s { heap = (mm_init start).0; ranges = clear_ranges s.ranges })
        w low c)

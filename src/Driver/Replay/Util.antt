-- ===== src/Driver/Replay/Util.antt =====
-- What `eval_mm_util` of mdriver.c measures over the allocator mm.c.
use s_system_programmin.Common.{
  ℕ, ◌+◌, ◌≤◌, ◌≡◌, refl, ap, subst, ◌∙◌, Bool, true, List, [], ◌∷◌, arith,
}
use s_system_programmin.Memlib.{mem_heapsize, mem_reset_brk}
use s_system_programmin.Malloc.Words.{Heap, chunksize}
use s_system_programmin.Malloc.{mm_init}
use s_system_programmin.Malloc.Init.{Fresh, Initialised, initialised, no_room, mm_init-Initialised}
use s_system_programmin.Driver.Ranges.{Reason, Check, passes, fails, ◌>>=◌}
use s_system_programmin.Driver.Replay.{
  TraceOp, Replay, Usage, init_heap, util_step, eval_mm_util, util_steps, greater,
}
use s_system_programmin.Driver.Replay.Full.{UtilStops, later, util_start}
use s_system_programmin.Driver.Replay.Traces.{WellFormed, held_after, sizes_after, payload, peak}
use s_system_programmin.Driver.Replay.Counted.{Counted, Counts, counted, stops, step-Counts}

payload-le_peak :
    (sizes : ℕ → ℕ) (ids : List ℕ) (ops : List TraceOp) → payload sizes ids ≤ peak sizes ids ops
payload-le_peak sizes ids [] = omega arith
payload-le_peak sizes ids (op ∷ ops) = ground arith

-- The outcome of the rest `ops` of a trace, from `s`
data Ends (s : Usage) (ops : List TraceOp) (most : ℕ) : Check Usage → Type 0 where
  ends :
      {u : Usage}
      → u.max_total_size ≡ most
      → most ≤ mem_heapsize u.heap.mem
      → Ends s ops most (passes u)
  stops_there : {r : Reason} → UtilStops s ops r → Ends s ops most (fails r)

later-Ends :
    {s t : Usage} {most : ℕ} {k : Check Usage} (op : TraceOp) (ops : List TraceOp)
    → util_step op s ≡ passes t
    → Ends t ops most k
    → Ends s (op ∷ ops) most k
later-Ends op ops e (ends a b) = ends a b
later-Ends op ops e (stops_there x) = stops_there (later op ops e x)

bind-Ends :
    {most : ℕ} {sizes : ℕ → ℕ} {ids : List ℕ} {k : Check Usage} (s : Usage) (op : TraceOp)
    (ops : List TraceOp) (f : Usage → Check Usage)
    → util_step op s ≡ k
    → Counts s (op ∷ ops) sizes ids k
    → ((u : Usage)
        → Counted u ids
        → u.max_total_size ≡ greater (payload sizes ids) s.max_total_size
        → u.block_sizes ≡ sizes
        → Ends u ops most (f u))
    → Ends s (op ∷ ops) most (k >>= f)
bind-Ends s op ops f e (counted {u = u} c m z) next = later-Ends op ops e (next u c m z)
bind-Ends s op ops f e (stops x) next = stops_there x

steps-Ends :
    (ids : List ℕ) (ops : List TraceOp) (u : Usage)
    → WellFormed ids ops
    → Counted u ids
    → Ends u ops (greater (peak u.block_sizes ids ops) u.max_total_size) (util_steps ops u)
unfolding util_steps
steps-Ends ids [] u w c =
    ends (ground (arith, c.now, c.so_far)) (ground (arith, c.now, c.so_far, c.fits))
steps-Ends ids (op ∷ ops) u w c =
    let (k, w') = step-Counts ids op ops u w c in
    bind-Ends u op ops (util_steps ops) refl k λ v d m e.
      let later = peak (sizes_after u.block_sizes op) (held_after ids op) ops in
      let low = payload-le_peak (sizes_after u.block_sizes op) (held_after ids op) ops in
      let same : greater (peak v.block_sizes (held_after ids op) ops) v.max_total_size
          ≡ greater (peak u.block_sizes ids (op ∷ ops)) u.max_total_size =
        ap (λ z. greater (peak z (held_after ids op) ops) v.max_total_size) e
        ∙ ground (arith, m, low, c.now, c.so_far) in
      subst (λ n. Ends v ops n (util_steps ops v)) same (steps-Ends (held_after ids op) ops v w' d)

-- What `eval_mm_util` returns: two numbers, the first of which is given and at most the second; or it
-- gets to a request that the memory has no room for.
pub data Measures (s : Usage) (ops : List TraceOp) (most : ℕ) : Check (ℕ × ℕ) → Type 0 where
  measures : (size : ℕ) → most ≤ size → Measures s ops most (passes (most, size))
  full : {r : Reason} → UtilStops s ops r → Measures s ops most (fails r)

ratio-Measures :
    {s : Usage} {ops : List TraceOp} {most : ℕ} {k : Check Usage}
    → Ends s ops most k
    → Measures s ops most (k >>= λ u. passes (u.max_total_size, mem_heapsize u.heap.mem))
ratio-Measures {s} {ops} (ends {u = u} e l) =
    subst (λ n. Measures s ops n (passes (u.max_total_size, mem_heapsize u.heap.mem))) e
      (measures (mem_heapsize u.heap.mem) (rw e l))
ratio-Measures (stops_there x) = full x

mm_init-Counted :
    {h : Heap} {r : Heap × Bool} (s : Replay)
    → Initialised h r
    → h.brk + 24 + chunksize ≤ h.max_addr
    → (r.1 ≡ true)
      × Counted (record { run = record s { heap = r.0 }; total_size = 0; max_total_size = 0 }) []
mm_init-Counted s (initialised {bs = bs} {fs = fs} _ inv _) room = (
  refl,
  record {
    row = bs;
    frees = fs;
    inv = inv;
    tracked = record { owned = λ i m. cc; apart = λ i j m k e. cc; distinct = tt };
    now = refl;
    so_far = omega arith;
    fits = omega arith;
  },
)
mm_init-Counted s (no_room l) room = absurd (omega arith)

-- `eval_mm_util` on the allocator of mm.c, with a memory that has room for its first chunk, ends on
-- every trace of positive sizes, at least 16 below 2 ^ 32, that requests ids it does not hold, and
-- only moves and releases ids that it holds: unless it gets, in a well-formed heap, to a request for
-- which no free block is large enough and the memory has no room, it returns as the ratio's upper number the largest payload that the trace holds at any
-- time, and this is at most the lower number, the size of the heap.
pub eval_mm_util-Measures :
    (ops : List TraceOp) (s : Replay)
    → Fresh (mem_reset_brk s.heap.mem)
    → (mem_reset_brk s.heap.mem).brk + 24 + chunksize ≤ (mem_reset_brk s.heap.mem).max_addr
    → WellFormed [] ops
    → Measures (util_start s) ops (peak s.block_sizes [] ops) (eval_mm_util ops s)
unfolding eval_mm_util init_heap
eval_mm_util-Measures ops s fresh room w =
    let start : Heap = record s.heap { mem = mem_reset_brk s.heap.mem } in
    let (ok, c) = mm_init-Counted s (mm_init-Initialised start fresh) room in
    let u : Usage = record {
      run = record s { heap = (mm_init start).0 };
      total_size = 0;
      max_total_size = 0;
    } in
    let all : greater (peak s.block_sizes [] ops) 0 ≡ peak s.block_sizes [] ops = ground arith in
    rw ok
      (ratio-Measures (subst (λ n. Ends u ops n (util_steps ops u)) all (steps-Ends [] ops u w c)))

-- ===== src/Driver/Replay.antt =====
-- The replay of a trace by mdriver.c. A trace's operations are a list; the arrays `blocks` and
-- `block_sizes` are functions of the id, as read_trace asserts that all ids are below `num_ids`. A
-- size is not negative, and the sums of sizes do not overflow an int.
pub mod Full
pub mod Bytes
pub mod Traces
pub mod Tracked
pub mod Consistent
pub mod Valid
pub mod Fits
pub mod Counted
pub mod Util
pub mod Speed
pub mod Libc
pub mod HighIds
mod Tests
use s_system_programmin.Common.{
  ℕ, zero, suc, ◌+◌, ◌-◌, ◌*◌, ◌/◌, ◌%◌, ◌^◌, Bool, true, false, ◌&&◌, ◌||◌, Option, none, some,
  List, [], ◌∷◌, ℤ, pos, negsuc, ltb, leb, ◌==◌, if◌then◌else◌,
}
use s_system_programmin.Memlib.{mem_reset_brk, mem_heapsize}
use s_system_programmin.Malloc.Words.{Heap}
use s_system_programmin.Malloc.{mm_init, mm_malloc, mm_free, mm_realloc}
use s_system_programmin.Driver.Ranges.{
  Range, Reason, init_failed, malloc_failed, realloc_failed, data_lost, Check, passes, fails,
  out_of_fuel, ◌>>=◌, add_range, remove_range, clear_ranges,
}

pub data TraceOp : Type 0 where
  alloc : (index size : ℕ) → TraceOp
  realloc : (index size : ℕ) → TraceOp
  free : (index : ℕ) → TraceOp

-- `memset(p, c, n)` at a multiple of 4: whole words, and the low bytes of the last one.
pub memset : (p c n : ℕ) → (ℕ → ℕ) → ℕ → ℕ
memset p c n w q =
    if ltb q p || ltb (p + n - 1) q
    then w q
    else if leb (q + 4 - p) n
    then c * 16843009
    else let k = 2 ^ (8 * (n % 4)) in c * 16843009 % k + w q / k * k

-- The byte `p[j]` for a pointer at a multiple of 4 (little-endian)
abbrev pub byte_at : (ℕ → ℕ) → (p j : ℕ) → ℕ
byte_at w p j = w (p + j / 4 * 4) / 2 ^ (8 * (j % 4)) % 2 ^ 8

-- The value of a byte as a `char`, which is signed
abbrev pub char_value : ℕ → ℤ
char_value b = if ltb b 128 then pos b else negsuc (255 - b)

abbrev pub is_low_byte : (index : ℕ) → ℤ → Bool
is_low_byte index (pos n) = n == index % 2 ^ 8
is_low_byte index (negsuc n) = false

-- The loop that looks at the old contents: the first `oldsize` bytes hold the low byte of the id.
pub kept : (w : ℕ → ℕ) → (newp index oldsize : ℕ) → Bool
kept w newp index zero = true
kept w newp index (suc j) = kept w newp index j && is_low_byte index (char_value (byte_at w newp j))

-- The allocator's heap, the driver's range list, and the arrays of the trace
pub record Replay : Type 0 where
  pub heap : Heap
  pub ranges : List Range
  pub blocks : ℕ → ℕ
  pub block_sizes : ℕ → ℕ

abbrev pub set : (index v : ℕ) → (ℕ → ℕ) → ℕ → ℕ
set index v f i = if i == index then v else f i

-- What a call of the allocator returned; NULL ends the run with the reason.
abbrev pub not_null : Reason → Option (Heap × ℕ) → Check (Heap × ℕ)
not_null r none = out_of_fuel
not_null r (some (h, p)) = if p == 0 then fails r else passes (h, p)

-- The block at `p` belongs to the id now, and is filled with the low byte of the id.
pub remember : (index size p : ℕ) → Heap → List Range → Replay → Replay
remember index size p h ranges s = record {
  heap = record h { word = memset p (index % 2 ^ 8) size h.word };
  ranges = ranges;
  blocks = set index p s.blocks;
  block_sizes = set index size s.block_sizes;
}

-- The cases of the switch in `eval_mm_valid`
valid_alloc : (index size : ℕ) → Replay → Check Replay
valid_alloc index size s = not_null malloc_failed (mm_malloc size s.heap) >>= λ r.
    add_range r.1 size r.0.mem s.ranges >>= λ ranges. passes (remember index size r.1 r.0 ranges s)

-- The part of the case REALLOC behind the range check
valid_moved : (index size newp : ℕ) → Heap → List Range → Replay → Check Replay
valid_moved index size newp h ranges s =
    let oldsize = s.block_sizes index in
    let n = if ltb size oldsize then size else oldsize in
    if kept h.word newp index n
    then passes (remember index size newp h ranges s)
    else fails data_lost

valid_realloc : (index size : ℕ) → Replay → Check Replay
valid_realloc index size s =
    let oldp = s.blocks index in
    not_null realloc_failed (mm_realloc oldp size s.heap) >>= λ r.
    add_range r.1 size r.0.mem (remove_range oldp s.ranges) >>= λ ranges.
    valid_moved index size r.1 r.0 ranges s

valid_free : (index : ℕ) → Replay → Check Replay
valid_free index s =
    let p = s.blocks index in
    passes (record s { ranges = remove_range p s.ranges; heap = mm_free p s.heap })

pub valid_step : TraceOp → Replay → Check Replay
valid_step (alloc index size) s = valid_alloc index size s
valid_step (realloc index size) s = valid_realloc index size s
valid_step (free index) s = valid_free index s

pub valid_steps : List TraceOp → Replay → Check Replay
valid_steps [] s = passes s
valid_steps (op ∷ ops) s = valid_step op s >>= valid_steps ops

-- `mem_reset_brk` and `mm_init`
pub init_heap : Heap → Check Heap
init_heap h =
    let (g, ok) = mm_init (record h { mem = mem_reset_brk h.mem }) in
    if ok then passes g else fails init_failed

pub eval_mm_valid : List TraceOp → Replay → Check Replay
eval_mm_valid ops s = init_heap s.heap >>= λ h.
    valid_steps ops (record s { heap = h; ranges = clear_ranges s.ranges })

-- The run of `eval_mm_util`, whose failures end the program
pub record Usage : Type 0 where
  pub run : Replay
  pub open run use *
  pub total_size : ℕ
  pub max_total_size : ℕ

abbrev pub greater : ℕ → ℕ → ℕ
greater total m = if ltb m total then total else m

-- The block at `r.1` belongs to the id now, and the total and its maximum are updated.
abbrev pub counted_as : (index size total : ℕ) → (Heap × ℕ) → Usage → Usage
counted_as index size total r u = record {
  run = record u.run {
    heap = r.0;
    blocks = set index r.1 u.blocks;
    block_sizes = set index size u.block_sizes;
  };
  total_size = total;
  max_total_size = greater total u.max_total_size;
}

pub util_alloc : (index size : ℕ) → Usage → Check Usage
util_alloc index size u = not_null malloc_failed (mm_malloc size u.heap) >>= λ r.
    passes (counted_as index size (u.total_size + size) r u)

pub util_realloc : (index newsize : ℕ) → Usage → Check Usage
util_realloc index newsize u =
    let oldsize = u.block_sizes index in
    not_null realloc_failed (mm_realloc (u.blocks index) newsize u.heap) >>= λ r.
    passes (counted_as index newsize (u.total_size + newsize - oldsize) r u)

pub util_free : (index : ℕ) → Usage → Check Usage
util_free index u = passes (record u {
  run = record u.run { heap = mm_free (u.blocks index) u.heap };
  total_size = u.total_size - u.block_sizes index;
})

pub util_step : TraceOp → Usage → Check Usage
util_step (alloc index size) u = util_alloc index size u
util_step (realloc index size) u = util_realloc index size u
util_step (free index) u = util_free index u

pub util_steps : List TraceOp → Usage → Check Usage
util_steps [] u = passes u
util_steps (op ∷ ops) u = util_step op u >>= util_steps ops

-- The two numbers whose ratio `eval_mm_util` returns
pub eval_mm_util : List TraceOp → Replay → Check (ℕ × ℕ)
eval_mm_util ops s = init_heap s.heap >>= λ h.
    util_steps ops (record { run = record s { heap = h }; total_size = 0; max_total_size = 0 })
    >>= λ u. passes (u.max_total_size, mem_heapsize u.heap.mem)

-- `eval_mm_speed` leaves out all checks and sizes.
pub speed_alloc : (index size : ℕ) → Replay → Check Replay
speed_alloc index size s = not_null malloc_failed (mm_malloc size s.heap) >>= λ r.
    passes (record s { heap = r.0; blocks = set index r.1 s.blocks })

pub speed_realloc : (index newsize : ℕ) → Replay → Check Replay
speed_realloc index newsize s =
    not_null realloc_failed (mm_realloc (s.blocks index) newsize s.heap) >>= λ r.
    passes (record s { heap = r.0; blocks = set index r.1 s.blocks })

pub speed_step : TraceOp → Replay → Check Replay
speed_step (alloc index size) s = speed_alloc index size s
speed_step (realloc index size) s = speed_realloc index size s
speed_step (free index) s = passes (record s { heap = mm_free (s.blocks index) s.heap })

pub speed_steps : List TraceOp → Replay → Check Replay
speed_steps [] s = passes s
speed_steps (op ∷ ops) s = speed_step op s >>= speed_steps ops

pub eval_mm_speed : List TraceOp → Replay → Check Replay
eval_mm_speed ops s = init_heap s.heap >>= λ h. speed_steps ops (record s { heap = h })

-- ===== src/Driver/Replay/Full.antt =====
-- Where a replay of mdriver.c stops for a request that the memory has no room for.
use s_system_programmin.Common.{ℕ, ◌≡◌, refl, sym, ap, subst, List, [], ◌∷◌, ◌++◌}
use s_system_programmin.Memlib.{mem_reset_brk}
use s_system_programmin.Malloc.Words.{Heap}
use s_system_programmin.Malloc.{mm_init}
use s_system_programmin.Malloc.Layout.{Block}
use s_system_programmin.Malloc.Invariant.{Inv}
use s_system_programmin.Malloc.Alloc.{Exhausted}
use s_system_programmin.Driver.Ranges.{
  Reason, malloc_failed, realloc_failed, Check, passes, fails, aborts, out_of_fuel, ◌>>=◌,
  clear_ranges,
}
use s_system_programmin.Driver.Replay.{
  TraceOp, alloc, realloc, Replay, Usage, valid_step, valid_steps, util_step,
}

-- A well-formed heap without a free block that is large enough, in a memory that has no room for
-- another one
pub record Full (h : Heap) (size : ℕ) : Type 0 where
  pub row : List Block
  pub frees : List ℕ
  pub inv : Inv h row frees
  pub exhausted : Exhausted h frees size

-- The operations of a trace pass up to a request that the heap is full for.
pub data Stops {S : Type 0} (step : TraceOp → S → Check S) (heap_of : S → Heap)
    : S → List TraceOp → Reason → Type 0 where
  at_malloc :
      {s : S} (i size : ℕ) (ops : List TraceOp)
      → Full (heap_of s) size
      → Stops step heap_of s (alloc i size ∷ ops) malloc_failed
  at_realloc :
      {s : S} (i size : ℕ) (ops : List TraceOp)
      → Full (heap_of s) size
      → Stops step heap_of s (realloc i size ∷ ops) realloc_failed
  later :
      {s t : S} {r : Reason} (op : TraceOp) (ops : List TraceOp)
      → step op s ≡ passes t
      → Stops step heap_of t ops r
      → Stops step heap_of s (op ∷ ops) r

abbrev pub ValidStops : Replay → List TraceOp → Reason → Type 0
ValidStops s ops r = Stops valid_step (λ t. t.heap) s ops r

abbrev pub UtilStops : Usage → List TraceOp → Reason → Type 0
UtilStops u ops r = Stops util_step (λ v. v.heap) u ops r

-- The states behind the initialisation of the runs
abbrev pub initialised_heap : Heap → Heap
initialised_heap h = (mm_init (record h { mem = mem_reset_brk h.mem })).0

abbrev pub valid_start : Replay → Replay
valid_start s = record s { heap = initialised_heap s.heap; ranges = clear_ranges s.ranges }

abbrev pub util_start : Replay → Usage
util_start s = record {
  run = record s { heap = initialised_heap s.heap };
  total_size = 0;
  max_total_size = 0;
}

pub Stops-append :
    {s : Replay} {xs : List TraceOp} {r : Reason} (ys : List TraceOp)
    → ValidStops s xs r
    → ValidStops s (xs ++ ys) r
Stops-append ys (at_malloc i size ops f) = at_malloc i size (ops ++ ys) f
Stops-append ys (at_realloc i size ops f) = at_realloc i size (ops ++ ys) f
Stops-append ys (later op ops e x) = later op (ops ++ ys) e (Stops-append ys x)

bind-inverse :
    (k : Check Replay) (f : Replay → Check Replay) (t : Replay)
    → (k >>= f) ≡ passes t
    → (s : Replay) × (k ≡ passes s) × (f s ≡ passes t)
bind-inverse (passes s) f t e = (s, refl, e)
bind-inverse (fails r) f t e = cc
bind-inverse aborts f t e = cc
bind-inverse out_of_fuel f t e = cc

passed : Replay → Check Replay → Replay
passed s (passes t) = t
passed s (fails r) = s
passed s aborts = s
passed s out_of_fuel = s

pub Stops-behind :
    (xs : List TraceOp) {ys : List TraceOp} {s t : Replay} {r : Reason}
    → valid_steps xs s ≡ passes t
    → ValidStops t ys r
    → ValidStops s (xs ++ ys) r
unfolding valid_steps passed
Stops-behind [] {ys} {s} {t} {r} e x = subst (λ v. ValidStops v ys r) (sym (ap (passed s) e)) x
Stops-behind (op ∷ xs) {ys} {s} {t} {r} e x =
    let (s', a, b) = bind-inverse (valid_step op s) (valid_steps xs) t e in
    later op (xs ++ ys) a (Stops-behind xs b x)

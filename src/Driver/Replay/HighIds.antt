-- ===== src/Driver/Replay/HighIds.antt =====
-- The driver's test of the contents of a moved block, for ids whose low byte is no positive `char`.
use s_system_programmin.Common.{
  ℕ, zero, suc, ◌+◌, ◌%◌, ◌^◌, ◌≤◌, ◌<◌, ◌≡◌, refl, sym, ap, ◌∙◌, true, false, some, none, Option,
  List, [], ◌∷◌, ◌++◌, fun_ext, has, ltb, ◌==◌, if◌then◌else◌, arith,
}
use s_system_programmin.Memlib.{mem_reset_brk}
use s_system_programmin.Malloc.Words.{Heap, chunksize}
use s_system_programmin.Malloc.{mm_realloc}
use s_system_programmin.Malloc.Invariant.{live}
use s_system_programmin.Malloc.Init.{Fresh, mm_init-Initialised}
use s_system_programmin.Malloc.Realloc.{Reallocates, moves, stays, mm_realloc-Reallocates}
use s_system_programmin.Driver.Ranges.{
  Reason, Check, passes, fails, aborts, out_of_fuel, ◌>>=◌, add_range, remove_range, realloc_failed,
  data_lost,
}
use s_system_programmin.Driver.Ranges.Held.{remove_range-ranges_of}
use s_system_programmin.Driver.Replay.{
  TraceOp, realloc, Replay, byte_at, kept, eval_mm_valid, valid_steps, valid_step, init_heap,
  not_null, valid_realloc, valid_moved,
}
use s_system_programmin.Driver.Replay.Full.{
  ValidStops, at_realloc, valid_start, Stops-append, Stops-behind,
}
use s_system_programmin.Driver.Replay.Traces.{WellFormed, LowMoves, held}
use s_system_programmin.Driver.Replay.Valid.{
  Faultless, good, stops, steps-Faultless, mm_init-Consistent,
}
use s_system_programmin.Driver.Replay.Consistent.{Consistent, new_range}
use s_system_programmin.Driver.Replay.Bytes.{moved_byte}
use s_system_programmin.Driver.Replay.Tracked.{Moved-Tracked}

-- The old bytes that the new size keeps are in the block that `mm_realloc` returns.
pub record Moves (t : Replay) (i size : ℕ) : Type 0 where
  pub heap : Heap
  pub new_place : ℕ
  pub moved : mm_realloc (t.blocks i) size t.heap ≡ some (heap, new_place)
  pub not_null : 0 < new_place
  pub bytes :
      (j : ℕ)
      → j < size
      → j < t.block_sizes i
      → byte_at heap.word new_place j ≡ byte_at t.heap.word (t.blocks i) j

-- The outcome of `more` from `t`, which begins with the move of `i`
data Blames (t : Replay) (i size : ℕ) (more : List TraceOp) : Check Replay → Type 0 where
  blames : Moves t i size → Blames t i size more (fails data_lost)
  stops_there : {r : Reason} → ValidStops t more r → Blames t i size more (fails r)

-- The outcome of `ops` and of `more` behind it: the allocator is blamed for lost contents in spite of
-- a correct move, or the run gets to a request that the memory has no room for.
pub data Blamed (s : Replay) (ops : List TraceOp) (i size : ℕ) (more : List TraceOp)
    : Check Replay → Type 0 where
  lost :
      {t : Replay}
      → valid_steps ops s ≡ passes t
      → Moves t i size
      → Blamed s ops i size more (fails data_lost)
  full : {r : Reason} → ValidStops s (ops ++ more) r → Blamed s ops i size more (fails r)

-- The first byte is read as a negative number, which is not the low byte of the id.
kept_high :
    (w : ℕ → ℕ) (p i n : ℕ)
    → 128 ≤ i % 2 ^ 8
    → 0 < n
    → byte_at w p 0 ≡ i % 2 ^ 8
    → kept w p i n ≡ false
unfolding kept
kept_high w p i zero b l e = absurd (omega arith)
kept_high w p i (suc zero) b l e = rw e (ground arith)
kept_high w p i (suc (suc j)) b l e = rw (kept_high w p i (suc j) b (omega arith) e) refl

moved-Blamed :
    (i size : ℕ) (s : Replay) (ids : List ℕ) (c : Consistent s ids) (m : has i ids ≡ true)
    (o : Option (Heap × ℕ))
    → Reallocates s.heap c.row c.frees (s.blocks i) (c.tracked.owned i m).bytes size o
    → 0 < size
    → 128 ≤ i % 2 ^ 8
    → mm_realloc (s.blocks i) size s.heap ≡ o
    → (rest : List TraceOp)
    → Blames s i size (realloc i size ∷ rest) (
        not_null realloc_failed o >>= λ r.
        add_range r.1 size r.0.mem (remove_range (s.blocks i) s.ranges) >>= λ ranges.
        valid_moved i size r.1 r.0 ranges s)
unfolding valid_moved
moved-Blamed i size s ids c m none a l b q rest = elim a [ ]
moved-Blamed i size s ids c m (some (g, p)) (stays x) l b q more =
    stops_there
      (at_realloc i size more (record { row = c.row; frees = c.frees; inv = c.inv; exhausted = x }))
moved-Blamed i size s ids c m (some (g, p)) (moves a) l b q more =
    let owned = c.tracked.owned i m in
    let (t, other) = Moved-Tracked i a c.tracked m in
    let positive : (p == 0) ≡ false = ground (arith, a.not_null) in
    let moved : (p == s.blocks i) ≡ false = ground (arith, a.fresh, owned.used) in
    let u : live g a.blocks p ≡ some a.bytes = a.live_lem p ∙ rw moved (ground arith) in
    let rest =
      remove_range-ranges_of i s.blocks s.block_sizes ids m (λ j k e. c.tracked.apart j i k m e) in
    let accepted = new_range a.bytes size p a.inv t other u a.enough l in
    let oldsize = s.block_sizes i in
    let n = if ltb size oldsize then size else oldsize in
    let first =
      moved_byte (s.blocks i) owned.bytes size p 0 a l (ground (arith, owned.room, owned.positive))
      ∙ owned.filled refl 0 owned.positive in
    let contents : kept g.word p i n ≡ false =
      kept_high g.word p i n b (ground (arith, owned.positive)) first in
    rw (positive, c.listed, rest, accepted, contents)
      (blames (record {
        heap = g;
        new_place = p;
        moved = q;
        not_null = a.not_null;
        bytes =
            λ j k k'. moved_byte (s.blocks i) owned.bytes size p j a k (ground (arith, owned.room));
      }))

step-Blamed :
    (i size : ℕ) (s : Replay) (ids : List ℕ)
    → Consistent s ids
    → has i ids ≡ true
    → 0 < size
    → size + 15 < 2 ^ 32
    → 128 ≤ i % 2 ^ 8
    → (rest : List TraceOp)
    → Blames s i size (realloc i size ∷ rest) (valid_step (realloc i size) s)
unfolding valid_step valid_realloc
step-Blamed i size s ids c m l b high rest =
    let owned = c.tracked.owned i m in
    moved-Blamed i size s ids c m (mm_realloc (s.blocks i) size s.heap)
      (mm_realloc-Reallocates (s.blocks i) owned.bytes size c.inv owned.used l b) l high refl rest

then-Blamed :
    {s t : Replay} {i size : ℕ} {more : List TraceOp} {k : Check Replay} (ops : List TraceOp)
    (f : Replay → Check Replay)
    → valid_steps ops s ≡ passes t
    → Blames t i size more k
    → Blamed s ops i size more (k >>= f)
then-Blamed ops f e (blames m) = lost e m
then-Blamed ops f e (stops_there x) = full (Stops-behind ops e x)

after-Blamed :
    {s : Replay} {ids : List ℕ} {k : Check Replay} (ops : List TraceOp) (i size : ℕ)
    (more : List TraceOp) (f : Replay → Check Replay)
    → valid_steps ops s ≡ k
    → Faultless s ops ids k
    → ((t : Replay)
        → Consistent t ids
        → valid_steps ops s ≡ passes t
        → Blamed s ops i size more (f t))
    → Blamed s ops i size more (k >>= f)
after-Blamed ops i size more f e (good {t = t} c) next = next t c e
after-Blamed ops i size more f e (stops x) next = full (Stops-append more x)

bind_assoc :
    (k : Check Replay) (f g : Replay → Check Replay) → ((k >>= f) >>= g) ≡ (k >>= λ s. f s >>= g)
bind_assoc (passes s) f g = refl
bind_assoc (fails r) f g = refl
bind_assoc aborts f g = refl
bind_assoc out_of_fuel f g = refl

valid_steps-append :
    (xs ys : List TraceOp) (s : Replay)
    → valid_steps (xs ++ ys) s ≡ (valid_steps xs s >>= valid_steps ys)
unfolding valid_steps
valid_steps-append [] ys s = refl
valid_steps-append (x ∷ xs) ys s =
    ap (λ f. valid_step x s >>= f) (fun_ext (valid_steps-append xs ys))
    ∙ sym (bind_assoc (valid_step x s) (valid_steps xs) (valid_steps ys))

-- On every trace in which a part that finds no fault (positive sizes, at least 16 below 2 ^ 32, new ids
-- requested, held ids moved and released, only ids with a low byte below 128 moved) is followed by the
-- move of a held id whose low byte is 128 or more, `eval_mm_valid` blames the allocator of mm.c for
-- lost contents, although `mm_realloc` has kept every byte that lies in both sizes; or it gets, in a
-- well-formed heap, to a request for which no free block is large enough and the memory has no room.
pub eval_mm_valid-Blamed :
    (ops : List TraceOp) (i size : ℕ) (rest : List TraceOp) (s : Replay)
    → Fresh (mem_reset_brk s.heap.mem)
    → (mem_reset_brk s.heap.mem).brk + 24 + chunksize ≤ (mem_reset_brk s.heap.mem).max_addr
    → WellFormed [] ops
    → LowMoves ops
    → has i (held [] ops) ≡ true
    → 0 < size
    → size + 15 < 2 ^ 32
    → 128 ≤ i % 2 ^ 8
    → Blamed
        (valid_start s)
        ops
        i
        size
        (realloc i size ∷ rest)
        (eval_mm_valid (ops ++ (realloc i size ∷ rest)) s)
unfolding eval_mm_valid init_heap valid_steps
eval_mm_valid-Blamed ops i size rest s fresh room w low m l b high =
    let start : Heap = record s.heap { mem = mem_reset_brk s.heap.mem } in
    let (ok, c) = mm_init-Consistent s (mm_init-Initialised start fresh) room in
    let t = valid_start s in
    let tail =
      after-Blamed ops i size (realloc i size ∷ rest) (valid_steps (realloc i size ∷ rest)) refl
        (steps-Faultless [] ops t w low c)
        (λ s' c' e.
          then-Blamed ops (valid_steps rest) e
            (step-Blamed i size s' (held [] ops) c' m l b high rest)) in
    rw (ok, valid_steps-append ops (realloc i size ∷ rest) t) tail

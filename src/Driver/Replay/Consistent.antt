-- ===== src/Driver/Replay/Consistent.antt =====
-- The state of `eval_mm_valid` of mdriver.c: its range list has just the blocks that the ids own.
use s_system_programmin.Common.{
  ℕ, ◌+◌, ◌-◌, ◌≤◌, ◌<◌, ◌≡◌, refl, sym, ap, Bool, true, false, some, List, [], ◌∷◌, has, ◌==◌,
  arith,
}
use s_system_programmin.Memlib.{mem_heap_lo, mem_heap_hi}
use s_system_programmin.Malloc.Words.{Heap}
use s_system_programmin.Malloc.Layout.{Block, used_range}
use s_system_programmin.Malloc.Invariant.{Inv, live}
use s_system_programmin.Malloc.Payload.{used_apart}
use s_system_programmin.Malloc.Realloc.{used-Stands}
use s_system_programmin.Driver.Ranges.{passes, add_range, meets_any, outside}
use s_system_programmin.Driver.Ranges.Held.{ranges_of, none_meets, add_range_apart}
use s_system_programmin.Driver.Replay.{Replay, set, remember}
use s_system_programmin.Driver.Replay.Tracked.{Tracked, remember-Tracked}

set-ranges_of :
    (i p size : ℕ) (b z : ℕ → ℕ) (ids : List ℕ)
    → has i ids ≡ false
    → ranges_of (set i p b) (set i size z) ids ≡ ranges_of b z ids
set-ranges_of i p size b z [] m = refl
set-ranges_of i p size b z (j ∷ ids) m =
    let other : (j == i) ≡ false = ground arith in
    rw other (
      ap (λ rs. record { lo = b j; hi = b j + z j - 1 } ∷ rs)
        (set-ranges_of i p size b z ids (ground arith)))

-- The range check accepts a new block of the allocator.
pub new_range :
    {fills : Bool} {g : Heap} {bs : List Block} {fs : List ℕ} {blocks sizes : ℕ → ℕ} {ids : List ℕ}
    (n size p : ℕ)
    → Inv g bs fs
    → Tracked fills g bs blocks sizes ids
    → ((j : ℕ) → has j ids ≡ true → (blocks j == p) ≡ false)
    → live g bs p ≡ some n
    → size + 8 ≤ n
    → 0 < size
    → add_range p size g.mem (ranges_of blocks sizes ids)
      ≡ passes (record { lo = p; hi = p + size - 1 } ∷ ranges_of blocks sizes ids)
unfolding mem_heap_lo mem_heap_hi
new_range {g = g} {bs = bs} {blocks = blocks} {sizes = sizes} {ids = ids} n size p inv t other u
      room l =
    let s = g.heap_listp + 16 in
    let laid = inv.laid in
    let range = used_range s bs p n laid.sized.2 u in
    let inside : outside p (p + size - 1) g.mem ≡ false =
      ground (arith, range, laid.start, laid.ends) in
    let free : meets_any p (p + size - 1) (ranges_of blocks sizes ids) ≡ false =
      none_meets p (p + size - 1) blocks sizes ids λ i m.
        let o = t.owned i m in
        ground (
          arith,
          o.room,
          o.positive,
          used_apart s bs (blocks i) o.bytes p n laid.sized.2 o.used u (other i m),
        ) in
    add_range_apart p size g.mem (ranges_of blocks sizes ids) l (used-Stands p n inv u).bp_mod
      inside free

-- The heap is well-formed, each id owns a block with its payload, and the range list has just their
-- ranges.
pub record Consistent (s : Replay) (ids : List ℕ) : Type 0 where
  pub row : List Block
  pub frees : List ℕ
  pub inv : Inv s.heap row frees
  pub tracked : Tracked true s.heap row s.blocks s.block_sizes ids
  pub listed : s.ranges ≡ ranges_of s.blocks s.block_sizes ids

-- A new block that passes the range check is remembered.
pub remember-Consistent :
    {g : Heap} {bs : List Block} {fs : List ℕ} {ids : List ℕ} (i n size p : ℕ) (s : Replay)
    → Inv g bs fs
    → Tracked true g bs s.blocks s.block_sizes ids
    → has i ids ≡ false
    → ((j : ℕ) → has j ids ≡ true → (s.blocks j == p) ≡ false)
    → live g bs p ≡ some n
    → size + 8 ≤ n
    → 0 < size
    → Consistent
        (remember i size p g
          (record { lo = p; hi = p + size - 1 } ∷ ranges_of s.blocks s.block_sizes ids)
          s)
        (i ∷ ids)
unfolding remember
remember-Consistent {bs = bs} {fs = fs} {ids = ids} i n size p s inv t new other u room l =
    let (t', inv') = remember-Tracked i n size p inv t new other u room l in
    let self : (i == i) ≡ true = ground arith in
    record {
      row = bs;
      frees = fs;
      inv = inv';
      tracked = t';
      listed = rw self (
          ap (λ rs. record { lo = p; hi = p + size - 1 } ∷ rs)
            (sym (set-ranges_of i p size s.blocks s.block_sizes ids new)));
    }

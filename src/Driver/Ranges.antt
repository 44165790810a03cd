-- ===== src/Driver/Ranges.antt =====
-- The range list of mdriver.c. A payload's bounds are addresses, whose sums do not wrap; the messages
-- of `malloc_error` are values.
pub mod Overlap
pub mod Held
mod Tests
use s_system_programmin.Common.{
  ℕ, ◌+◌, ◌-◌, ◌%◌, Bool, true, false, not, ◌&&◌, ◌||◌, List, [], ◌∷◌, ltb, leb, ◌==◌,
  if◌then◌else◌,
}
use s_system_programmin.Memlib.{Memlib, mem_heap_lo, mem_heap_hi}

pub record Range : Type 0 where
  pub lo : ℕ
  pub hi : ℕ

-- Why a check of the driver failed
pub data Reason : Type 0 where
  not_aligned outside_heap overlaps init_failed malloc_failed realloc_failed data_lost : Reason

-- What the driver's functions come to: they go on, they return 0 after a message, an assertion
-- fails, or the allocator is out of fuel.
pub data Check (A : Type 0) : Type 0 where
  passes : A → Check A
  fails : Reason → Check A
  aborts : Check A
  out_of_fuel : Check A

infixl 5 ◌>>=◌
abbrev pub ◌>>=◌ : {A B : Type 0} → Check A → (A → Check B) → Check B
passes a >>= f = f a
fails r >>= f = fails r
aborts >>= f = aborts
out_of_fuel >>= f = out_of_fuel

-- The test of the loop in `add_range`
abbrev pub meets : (lo hi : ℕ) → Range → Bool
meets lo hi p = (leb p.lo lo && leb lo p.hi) || (leb p.lo hi && leb hi p.hi)

abbrev pub meets_any : (lo hi : ℕ) → List Range → Bool
meets_any lo hi [] = false
meets_any lo hi (p ∷ ps) = meets lo hi p || meets_any lo hi ps

abbrev pub outside : (lo hi : ℕ) → Memlib → Bool
outside lo hi m =
    ltb lo (mem_heap_lo m)
    || ltb (mem_heap_hi m) lo
    || ltb hi (mem_heap_lo m)
    || ltb (mem_heap_hi m) hi

pub add_range : (lo size : ℕ) → Memlib → List Range → Check (List Range)
add_range lo size m ranges =
    let hi = lo + size - 1 in
    if size == 0
    then aborts
    else if not (lo % 8 == 0)
    then fails not_aligned
    else if outside lo hi m
    then fails outside_heap
    else if meets_any lo hi ranges
    then fails overlaps
    else passes (record { lo = lo; hi = hi } ∷ ranges)

pub remove_range : (lo : ℕ) → List Range → List Range
remove_range lo [] = []
remove_range lo (p ∷ ps) = let rest = remove_range lo ps in if p.lo == lo then ps else p ∷ rest

pub clear_ranges : List Range → List Range
clear_ranges ranges = []

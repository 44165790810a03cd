-- ===== src/Driver/Ranges/Overlap.antt =====
-- What the range list of mdriver.c detects.
use s_system_programmin.Common.{
  ℕ, ◌+◌, ◌-◌, ◌%◌, ◌≤◌, ◌<◌, ◌≡◌, refl, Bool, true, false, not, ◌&&◌, ◌||◌, List, [], ◌∷◌, ltb,
  ◌==◌, arith,
}
use s_system_programmin.Memlib.{Memlib}
use s_system_programmin.Driver.Ranges.{
  Range, Check, passes, fails, aborts, out_of_fuel, add_range, meets_any, outside,
}

-- No address is in both ranges.
abbrev pub disjoint : Range → Range → Bool
disjoint a b = ltb a.hi b.lo || ltb b.hi a.lo

abbrev pub disjoint_all : Range → List Range → Bool
disjoint_all a [] = true
disjoint_all a (b ∷ bs) = disjoint a b && disjoint_all a bs

-- The new range has an old one strictly inside.
abbrev pub encloses_any : Range → List Range → Bool
encloses_any a [] = false
encloses_any a (b ∷ bs) = (ltb a.lo b.lo && ltb b.hi a.hi) || encloses_any a bs

abbrev pub Proper : List Range → Type 0
Proper [] = Unit {0}
Proper (b ∷ bs) = (b.lo ≤ b.hi) × Proper bs

-- What the driver ought to ask of a payload.
abbrev pub acceptable : Range → Memlib → List Range → Bool
acceptable a m ranges = (a.lo % 8 == 0) && not (outside a.lo a.hi m) && disjoint_all a ranges

meets_any_iff :
    (a : Range) (ranges : List Range)
    → a.lo ≤ a.hi
    → Proper ranges
    → disjoint_all a ranges ≡ (not (meets_any a.lo a.hi ranges) && not (encloses_any a ranges))
meets_any_iff a [] l p = refl
meets_any_iff a (b ∷ bs) l p = ground (arith, meets_any_iff a bs l p.1)

abbrev pub accepts : {A : Type 0} → Check A → Bool
accepts (passes a) = true
accepts (fails r) = false
accepts aborts = false
accepts out_of_fuel = false

-- `add_range` of a payload of at least one byte that has no range of the list strictly inside it
-- accepts the payload exactly if it is aligned, lies in the heap, and shares no address with a range
-- of the list.
pub add_range-acceptable :
    (lo size : ℕ) (m : Memlib) (ranges : List Range)
    → 0 < size
    → Proper ranges
    → encloses_any (record { lo = lo; hi = lo + size - 1 }) ranges ≡ false
    → accepts (add_range lo size m ranges)
      ≡ acceptable (record { lo = lo; hi = lo + size - 1 }) m ranges
unfolding add_range
add_range-acceptable lo size m ranges l p e =
    ground (arith, meets_any_iff (record { lo = lo; hi = lo + size - 1 }) ranges (omega arith) p)

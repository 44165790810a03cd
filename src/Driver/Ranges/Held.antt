-- ===== src/Driver/Ranges/Held.antt =====
-- The range list of mdriver.c for the blocks of some ids: what the range check accepts, and what is
-- left of the list when an id's range is removed.
use s_system_programmin.Common.{
  ℕ, ◌+◌, ◌-◌, ◌%◌, ◌<◌, ◌≡◌, refl, ap, ◌∙◌, true, false, List, [], ◌∷◌, has, erase, ◌==◌,
  Bool-cases, inl, inr, arith,
}
use s_system_programmin.Memlib.{Memlib}
use s_system_programmin.Driver.Ranges.{
  Range, passes, add_range, remove_range, clear_ranges, meets_any, meets, outside,
}

-- The ranges of the ids, in the order of the list
abbrev pub ranges_of : (blocks sizes : ℕ → ℕ) → List ℕ → List Range
ranges_of b z [] = []
ranges_of b z (i ∷ ids) = record { lo = b i; hi = b i + z i - 1 } ∷ ranges_of b z ids

pub none_meets :
    (lo hi : ℕ) (b z : ℕ → ℕ) (ids : List ℕ)
    → ((i : ℕ) → has i ids ≡ true → meets lo hi (record { lo = b i; hi = b i + z i - 1 }) ≡ false)
    → meets_any lo hi (ranges_of b z ids) ≡ false
none_meets lo hi b z [] f = refl
none_meets lo hi b z (i ∷ ids) f =
    let here = f i (ground arith) in rw here (none_meets lo hi b z ids (λ j m. f j (ground arith)))

pub remove_range-ranges_of :
    (i : ℕ) (b z : ℕ → ℕ) (ids : List ℕ)
    → has i ids ≡ true
    → ((j : ℕ) → has j ids ≡ true → (b j == b i) ≡ true → (j == i) ≡ true)
    → remove_range (b i) (ranges_of b z ids) ≡ ranges_of b z (erase i ids)
unfolding remove_range
remove_range-ranges_of i b z [] m f = cc
remove_range-ranges_of i b z (j ∷ ids) m f = elim (Bool-cases (j == i)) [
  | inl e ↦
      let same_id : j ≡ i = ground arith in
      let same : (b j == b i) ≡ true = ap (λ k. b k == b i) same_id ∙ ground arith in
      rw (e, same) refl
  | inr e ↦
      let other : (b j == b i) ≡ false = elim (Bool-cases (b j == b i)) [
        | inl c ↦ absurd (ground (arith, f j (ground arith) c))
        | inr c ↦ c
      ] in
      rw (e, other)
        (ap (λ rs. record { lo = b j; hi = b j + z j - 1 } ∷ rs)
          (remove_range-ranges_of i b z ids (ground arith) (λ k a. f k (ground arith))))
]

pub add_range_apart :
    (lo size : ℕ) (m : Memlib) (ranges : List Range)
    → 0 < size
    → lo % 8 ≡ 0
    → outside lo (lo + size - 1) m ≡ false
    → meets_any lo (lo + size - 1) ranges ≡ false
    → add_range lo size m ranges ≡ passes (record { lo = lo; hi = lo + size - 1 } ∷ ranges)
unfolding add_range
add_range_apart lo size m ranges l a inside free =
    let positive : (size == 0) ≡ false = ground arith in
    let aligned : (lo % 8 == 0) ≡ true = ground arith in rw (positive, aligned, inside, free) refl

pub clear_ranges_lem : (ranges : List Range) → clear_ranges ranges ≡ []
unfolding clear_ranges
clear_ranges_lem ranges = refl

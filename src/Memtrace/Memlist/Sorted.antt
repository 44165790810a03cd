-- ===== src/Memtrace/Memlist/Sorted.antt =====
-- The list of memlist.c as a finite map from block addresses to items.
use s_system_programmin.Common.{
  ℕ, ◌+◌, ◌≤◌, ◌<◌, ◌≡◌, refl, true, false, Bool-cases, inl, inr, Option, none, some, List, [], ◌∷◌,
  ltb, ◌==◌, if◌then◌else◌, arith,
}
use s_system_programmin.Memtrace.Memlist.{
  Item, alloc, dealloc, find, item_at, new_item, updated, decrement,
}

-- The block addresses ascend, from `low` on.
abbrev pub Sorted : (low : ℕ) → List Item → Type 0
Sorted low [] = Unit {0}
Sorted low (c ∷ cs) = (low ≤ c.ptr) × Sorted (c.ptr + 1) cs

Sorted-weaken : (m n : ℕ) (cs : List Item) → m ≤ n → Sorted n cs → Sorted m cs
Sorted-weaken m n [] l s = tt
Sorted-weaken m n (c ∷ cs) l s = (omega (arith, s.0), s.1)

pub item_at-below :
    (low : ℕ) (cs : List Item) (p : ℕ) → Sorted low cs → p < low → item_at cs p ≡ none
item_at-below low [] p s l = refl
item_at-below low (c ∷ cs) p s l = ground (arith, item_at-below (c.ptr + 1) cs p)

-- What `alloc` stores: a block that is known gets the new size and is counted once more.
abbrev pub allocated_item : (ptr size : ℕ) → Option Item → Item
allocated_item ptr size none = new_item ptr size
allocated_item ptr size (some i) = updated size i

alloc-item_at_low :
    (low : ℕ) (cs : List Item) (ptr size p : ℕ)
    → Sorted low cs
    → item_at (alloc cs ptr size) p
      ≡ (if p == ptr then some (allocated_item ptr size (item_at cs ptr)) else item_at cs p)
unfolding alloc
alloc-item_at_low low [] ptr size p s = ground arith
alloc-item_at_low low (c ∷ cs) ptr size p s =
    let rest = alloc-item_at_low (c.ptr + 1) cs ptr size p s.1 in
    let absent = item_at-below (c.ptr + 1) cs ptr s.1 in
    elim (Bool-cases (ltb c.ptr ptr)) [
      | inl e ↦
          let other : (c.ptr == ptr) ≡ false = ground arith in rw (e, other) (ground (arith, rest))
      | inr e ↦ elim (Bool-cases (c.ptr == ptr)) [
        | inl e' ↦ rw (e, e') (ground arith)
        | inr e' ↦
            let none_there : item_at cs ptr ≡ none = absent (ground arith) in
            rw (e, e', none_there) (ground arith)
      ]
    ]

alloc-Sorted_low :
    (low : ℕ) (cs : List Item) (ptr size : ℕ)
    → low ≤ ptr
    → Sorted low cs
    → Sorted low (alloc cs ptr size)
unfolding alloc
alloc-Sorted_low low [] ptr size l s = (l, tt)
alloc-Sorted_low low (c ∷ cs) ptr size l s = elim (Bool-cases (ltb c.ptr ptr)) [
  | inl e ↦ rw e (s.0, alloc-Sorted_low (c.ptr + 1) cs ptr size (ground arith) s.1)
  | inr e ↦ elim (Bool-cases (c.ptr == ptr)) [
    | inl e' ↦ rw (e, e') s
    | inr e' ↦ rw (e, e') (l, (ground arith, s.1))
  ]
]

-- What `dealloc` stores: the block is counted once less.
abbrev pub deallocated_item : Option Item → Option Item
deallocated_item none = none
deallocated_item (some i) = some (record i { cnt = decrement i.cnt })

dealloc-item_at_low :
    (low : ℕ) (cs : List Item) (ptr p : ℕ)
    → Sorted low cs
    → item_at (dealloc cs ptr).0 p
      ≡ (if p == ptr then deallocated_item (item_at cs p) else item_at cs p)
unfolding dealloc
dealloc-item_at_low low [] ptr p s = ground arith
dealloc-item_at_low low (c ∷ cs) ptr p s =
    let rest = dealloc-item_at_low (c.ptr + 1) cs ptr p s.1 in
    elim (Bool-cases (c.ptr == ptr)) [
      | inl e ↦ rw e (elim (Bool-cases (c.ptr == p)) [
        | inl e' ↦ let same : (p == ptr) ≡ true = ground arith in rw (e', same) refl
        | inr e' ↦ let other : (p == ptr) ≡ false = ground arith in rw (e', other) refl
      ])
      | inr e ↦ rw e (elim (Bool-cases (c.ptr == p)) [
        | inl e' ↦ let other : (p == ptr) ≡ false = ground arith in rw (e', other) refl
        | inr e' ↦ rw e' rest
      ])
    ]

dealloc-Sorted_low :
    (low : ℕ) (cs : List Item) (ptr : ℕ) → Sorted low cs → Sorted low (dealloc cs ptr).0
unfolding dealloc
dealloc-Sorted_low low [] ptr s = tt
dealloc-Sorted_low low (c ∷ cs) ptr s = elim (Bool-cases (c.ptr == ptr)) [
  | inl e ↦ rw e s
  | inr e ↦ rw e (s.0, dealloc-Sorted_low (c.ptr + 1) cs ptr s.1)
]

find-item_at_low :
    (low : ℕ) (cs : List Item) (p : ℕ)
    → Sorted low cs
    → find cs p ≡ (elim (item_at cs p) [ none ↦ none | some _ ↦ some p ])
unfolding find
find-item_at_low low [] p s = refl
find-item_at_low low (c ∷ cs) p s = elim (Bool-cases (ltb c.ptr p)) [
  | inl e ↦
      let other : (c.ptr == p) ≡ false = ground arith in
      rw (e, other) (find-item_at_low (c.ptr + 1) cs p s.1)
  | inr e ↦ elim (Bool-cases (c.ptr == p)) [
    | inl e' ↦ rw (e, e') refl
    | inr e' ↦
        let absent : item_at cs p ≡ none = item_at-below (c.ptr + 1) cs p s.1 (ground arith) in
        rw (e, e', absent) refl
  ]
]

dealloc-found_low :
    (cs : List Item) (p : ℕ)
    → (dealloc cs p).1 ≡ (elim (item_at cs p) [ none ↦ none | some _ ↦ some p ])
unfolding dealloc
dealloc-found_low [] p = refl
dealloc-found_low (c ∷ cs) p = elim (Bool-cases (c.ptr == p)) [
  | inl e ↦ rw e refl
  | inr e ↦ rw e (dealloc-found_low cs p)
]

-- `alloc` on a sorted list of blocks keeps it sorted, and stores the item of the block: a new one
-- that is counted once, or the one that was there with the new size and counted once more. All
-- other items stay.
pub alloc-Sorted :
    (low : ℕ) (cs : List Item) (ptr size : ℕ)
    → low ≤ ptr
    → Sorted low cs
    → Sorted low (alloc cs ptr size)
      × ((p : ℕ)
          → item_at (alloc cs ptr size) p
            ≡ (if p == ptr then some (allocated_item ptr size (item_at cs ptr)) else item_at cs p))
alloc-Sorted low cs ptr size l s =
    (alloc-Sorted_low low cs ptr size l s, λ p. alloc-item_at_low low cs ptr size p s)

-- `dealloc` on a sorted list keeps it sorted, counts the item of the block once less if there is
-- one, which is what it returns, and leaves all other items alone.
pub dealloc-Sorted :
    (low : ℕ) (cs : List Item) (ptr : ℕ)
    → Sorted low cs
    → Sorted low (dealloc cs ptr).0
      × ((p : ℕ)
          → item_at (dealloc cs ptr).0 p
            ≡ (if p == ptr then deallocated_item (item_at cs p) else item_at cs p))
      × ((dealloc cs ptr).1 ≡ (elim (item_at cs ptr) [ none ↦ none | some _ ↦ some ptr ]))
dealloc-Sorted low cs ptr s = (
  dealloc-Sorted_low low cs ptr s,
  (λ p. dealloc-item_at_low low cs ptr p s),
  dealloc-found_low cs ptr,
)

-- On a sorted list, `find`, which stops at the first larger address, finds every block of the list.
pub find-item_at :
    (low : ℕ) (cs : List Item) (p : ℕ)
    → Sorted low cs
    → find cs p ≡ (elim (item_at cs p) [ none ↦ none | some _ ↦ some p ])
find-item_at low cs p s = find-item_at_low low cs p s

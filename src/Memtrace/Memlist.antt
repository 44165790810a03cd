-- ===== src/Memtrace/Memlist.antt =====
-- Lab/lab1/linklab/handout/utils/memlist.c: the blocks that a program has allocated, in a linked list
-- with a dummy head, which is left out here. A pointer to an item is given by the block address in
-- the item, as the code never changes it; NULL is `none`. `cnt` is an int, without overflow.
pub mod Sorted
use s_system_programmin.Common.{
  ℕ, zero, suc, ◌+◌, Bool, true, false, Option, none, some, List, [], ◌∷◌, ℤ, pos, negsuc, ltb,
  ◌==◌, if◌then◌else◌,
}

pub record Item : Type 0 where
  pub ptr : ℕ
  pub size : ℕ
  pub cnt : ℤ

abbrev pub increment : ℤ → ℤ
increment (pos n) = pos (n + 1)
increment (negsuc zero) = pos 0
increment (negsuc (suc n)) = negsuc n

abbrev pub decrement : ℤ → ℤ
decrement (pos zero) = negsuc 0
decrement (pos (suc n)) = pos n
decrement (negsuc n) = negsuc (n + 1)

abbrev pub updated : (size : ℕ) → Item → Item
updated size i = record i { size = size; cnt = increment i.cnt }

abbrev pub new_item : (ptr size : ℕ) → Item
new_item ptr size = record { ptr = ptr; size = size; cnt = pos 1 }

-- The list after `alloc`, whose result is a pointer to the item of `ptr`.
unfoldable pub alloc : List Item → (ptr size : ℕ) → List Item
alloc [] ptr size = new_item ptr size ∷ []
alloc (c ∷ cs) ptr size =
    let rest = alloc cs ptr size in
    if ltb c.ptr ptr
    then c ∷ rest
    else if c.ptr == ptr
    then updated size c ∷ cs
    else new_item ptr size ∷ c ∷ cs

unfoldable pub dealloc : List Item → (ptr : ℕ) → List Item × Option ℕ
dealloc [] ptr = ([], none)
dealloc (c ∷ cs) ptr =
    let (rest, found) = dealloc cs ptr in
    if c.ptr == ptr then (record c { cnt = decrement c.cnt } ∷ cs, some ptr) else (c ∷ rest, found)

-- The loop of `find` and the test behind it.
pub find : List Item → (ptr : ℕ) → Option ℕ
find [] ptr = none
find (c ∷ cs) ptr = if ltb c.ptr ptr then find cs ptr else if c.ptr == ptr then some ptr else none

-- The item that a pointer to an item of the list stands for.
abbrev pub item_at : List Item → (ptr : ℕ) → Option Item
item_at [] ptr = none
item_at (c ∷ cs) ptr = if c.ptr == ptr then some c else item_at cs ptr

-- ===== src/Memtrace/Tracer.antt =====
-- Lab/lab1/linklab/handout/part3/memtrace.c: the wrappers of libc's allocation functions, on a 64-bit
-- machine. The pointers that libc returns are arguments of the wrappers; looking up libc's functions
-- and writing the log are left out.
pub mod Balance
pub mod Part1
pub mod Part2
mod Tests
use s_system_programmin.Common.{
  ℕ, zero, suc, ◌+◌, ◌*◌, ◌/◌, ◌%◌, ◌^◌, Bool, true, false, Option, none, some, List, [], ◌∷◌, ℤ,
  pos, negsuc, ltb, ◌==◌, if◌then◌else◌,
}
use s_system_programmin.Memtrace.Memlist.{Item, alloc, dealloc, item_at}

-- The statistics and the list.
pub record Trace : Type 0 where
  pub items : List Item
  pub n_malloc : ℕ
  pub n_calloc : ℕ
  pub n_realloc : ℕ
  pub n_allocb : ℕ
  pub n_freeb : ℕ

-- A sum of unsigned longs
abbrev pub add_long : ℕ → ℕ → ℕ
add_long a b = (a + b) % 2 ^ 64

pub init : Trace
init = record { items = []; n_malloc = 0; n_calloc = 0; n_realloc = 0; n_allocb = 0; n_freeb = 0 }

pub malloc : (ptr size : ℕ) → Trace → Trace
malloc ptr size t = record t {
  items = alloc t.items ptr size;
  n_malloc = add_long t.n_malloc 1;
  n_allocb = add_long t.n_allocb size;
}

pub calloc : (ptr nmemb size : ℕ) → Trace → Trace
calloc ptr nmemb size t =
    let bytes = (nmemb * size) % 2 ^ 64 in
    record t {
      items = alloc t.items ptr bytes;
      n_calloc = add_long t.n_calloc 1;
      n_allocb = add_long t.n_allocb bytes;
    }

-- The end of `realloc`: the size is read after `alloc` may have changed it. `none` is a read
-- through NULL.
add_freed : (size : ℕ) → Trace → List Item → Option Item → Option Trace
add_freed size t items none = none
add_freed size t items (some i) = some (record t {
  items = items;
  n_realloc = add_long t.n_realloc 1;
  n_allocb = add_long t.n_allocb size;
  n_freeb = add_long t.n_freeb i.size;
})

abbrev pub item_of : List Item → Option ℕ → Option Item
item_of items none = none
item_of items (some p) = item_at items p

pub realloc : (ptr size new_ptr : ℕ) → Trace → Option Trace
realloc ptr size new_ptr t =
    let (items, deallocated) = dealloc t.items ptr in
    let items' = alloc items new_ptr size in add_freed size t items' (item_of items' deallocated)

pub data Outcome : Type 0 where
  freed ill_free double_free : Outcome

-- A count that is not zero is released even if it is negative.
abbrev pub is_zero : ℤ → Bool
is_zero (pos zero) = true
is_zero (pos (suc _)) = false
is_zero (negsuc _) = false

free_item : (ptr : ℕ) → Trace → Option Item → Trace × Outcome
free_item ptr t none = (t, ill_free)
free_item ptr t (some i) =
    if is_zero i.cnt
    then (t, double_free)
    else (record t { items = (dealloc t.items ptr).0; n_freeb = add_long t.n_freeb i.size }, freed)

-- The search starts at the dummy head of the list, whose pointer is NULL and whose count is 0.
pub free : (ptr : ℕ) → Trace → Trace × Outcome
free ptr t = if ptr == 0 then (t, double_free) else free_item ptr t (item_at t.items ptr)

abbrev pub is_positive : ℤ → Bool
is_positive (pos zero) = false
is_positive (pos (suc _)) = true
is_positive (negsuc _) = false

-- The blocks that `fini` reports as not freed.
abbrev pub nonfreed : List Item → List Item
nonfreed [] = []
nonfreed (c ∷ cs) = let rest = nonfreed cs in if is_positive c.cnt then c ∷ rest else rest

-- What `fini` reports: the bytes allocated, their average, the bytes freed, and the blocks.
pub record Report : Type 0 where
  pub allocated : ℕ
  pub average : ℕ
  pub freed_bytes : ℕ
  pub blocks : List Item

pub fini : Trace → Report
fini t =
    let n_alloc = add_long (add_long t.n_malloc t.n_calloc) t.n_realloc in
    record {
      allocated = t.n_allocb;
      average = if ltb 0 n_alloc then t.n_allocb / n_alloc else 0;
      freed_bytes = t.n_freeb;
      blocks = nonfreed t.items;
    }

-- ===== src/Memtrace/Tracer/Balance.antt =====
-- The statistics of the tracer against the blocks in use.
use s_system_programmin.Common.{
  ℕ, ◌+◌, ◌%◌, ◌^◌, ◌≡◌, Bool, false, ◌⊎◌, Option, none, some, List, [], ◌∷◌, pos,
}
use s_system_programmin.Memtrace.Memlist.{Item, item_at}
use s_system_programmin.Memtrace.Tracer.{Trace, nonfreed, init, malloc, calloc, free, is_positive}

abbrev pub sizes : List Item → ℕ
sizes [] = 0
sizes (c ∷ cs) = c.size + sizes cs

-- Every block is in use once or not at all.
abbrev pub Once : List Item → Type 0
Once [] = Unit {0}
Once (c ∷ cs) = ((c.cnt ≡ pos 0) ⊎ (c.cnt ≡ pos 1)) × Once cs

abbrev pub in_use : Option Item → Bool
in_use none = false
in_use (some i) = is_positive i.cnt

-- A run of a program under the tracer: libc returns pointers that are not in use, and the program
-- releases whatever it wants to.
pub data Run : Trace → Type 0 where
  start : Run init
  mallocs :
      {t : Trace} (ptr size : ℕ)
      → Run t
      → in_use (item_at t.items ptr) ≡ false
      → Run (malloc ptr size t)
  callocs :
      {t : Trace} (ptr nmemb size : ℕ)
      → Run t
      → in_use (item_at t.items ptr) ≡ false
      → Run (calloc ptr nmemb size t)
  frees : {t : Trace} (ptr : ℕ) → Run t → Run (free ptr t).0

record Balanced (t : Trace) : Type 0 where
  pub once : Once t.items
  pub balance : t.n_allocb ≡ (t.n_freeb + sizes (nonfreed t.items)) % 2 ^ 64

-- ===== src/Memtrace/Tracer/Part1.antt =====
-- Lab/lab1/linklab/handout/part1/memtrace.c: the wrappers that count calls and bytes, without the list
-- of blocks. What libc's functions return does not matter for the counts.
use s_system_programmin.Common.{
  ℕ, ◌*◌, ◌/◌, ◌%◌, ◌^◌, ◌≡◌, refl, ap, subst, Option, none, some, Bool-cases, ◌==◌, inl, inr, List,
  [], ◌∷◌, ltb, if◌then◌else◌,
}
use s_system_programmin.Memtrace.Memlist.{Item, alloc, dealloc, item_at}
use s_system_programmin.Memtrace.Tracer
use s_system_programmin.Memtrace.Tracer.{
  Trace, add_long, item_of, add_freed, free_item, Outcome, freed, ill_free, double_free, Report,
  is_zero,
}

pub record Counts : Type 0 where
  pub n_malloc : ℕ
  pub n_calloc : ℕ
  pub n_realloc : ℕ
  pub n_allocb : ℕ
  pub n_freeb : ℕ

pub init : Counts
init = record { n_malloc = 0; n_calloc = 0; n_realloc = 0; n_allocb = 0; n_freeb = 0 }

pub malloc : (size : ℕ) → Counts → Counts
malloc size c = record c { n_malloc = add_long c.n_malloc 1; n_allocb = add_long c.n_allocb size }

pub calloc : (nmemb size : ℕ) → Counts → Counts
calloc nmemb size c = record c {
  n_calloc = add_long c.n_calloc 1;
  n_allocb = add_long c.n_allocb ((nmemb * size) % 2 ^ 64);
}

pub realloc : (size : ℕ) → Counts → Counts
realloc size c = record c {
  n_realloc = add_long c.n_realloc 1;
  n_allocb = add_long c.n_allocb size;
}

pub free : Counts → Counts
free c = c

-- What `fini` reports: the bytes allocated, their average, and the bytes freed.
pub fini : Counts → ℕ × ℕ × ℕ
fini c =
    let n_alloc = add_long (add_long c.n_malloc c.n_calloc) c.n_realloc in
    (c.n_allocb, if ltb 0 n_alloc then c.n_allocb / n_alloc else 0, c.n_freeb)

-- The calls of a program, with the pointers that libc returns
pub data Call : Type 0 where
  malloc_call : (ptr size : ℕ) → Call
  calloc_call : (ptr nmemb size : ℕ) → Call
  realloc_call : (ptr size new_ptr : ℕ) → Call
  free_call : (ptr : ℕ) → Call

abbrev pub count_call : Call → Counts → Counts
count_call (malloc_call ptr size) c = malloc size c
count_call (calloc_call ptr nmemb size) c = calloc nmemb size c
count_call (realloc_call ptr size new_ptr) c = realloc size c
count_call (free_call ptr) c = free c

abbrev pub trace_call : Call → Trace → Option Trace
trace_call (malloc_call ptr size) t = some (Tracer.malloc ptr size t)
trace_call (calloc_call ptr nmemb size) t = some (Tracer.calloc ptr nmemb size t)
trace_call (realloc_call ptr size new_ptr) t = Tracer.realloc ptr size new_ptr t
trace_call (free_call ptr) t = some (Tracer.free ptr t).0

abbrev pub count_calls : List Call → Counts → Counts
count_calls [] c = c
count_calls (k ∷ ks) c = count_calls ks (count_call k c)

abbrev pub trace_calls : List Call → Option Trace → Option Trace
trace_calls ks none = none
trace_calls [] (some t) = some t
trace_calls (k ∷ ks) (some t) = trace_calls ks (trace_call k t)

-- The counts of both parts
record Agrees (c : Counts) (t : Trace) : Type 0 where
  pub mallocs : c.n_malloc ≡ t.n_malloc
  pub callocs : c.n_calloc ≡ t.n_calloc
  pub reallocs : c.n_realloc ≡ t.n_realloc
  pub bytes : c.n_allocb ≡ t.n_allocb
  pub none_freed : c.n_freeb ≡ 0

abbrev AgreesSome : Counts → Option Trace → Type 0
AgreesSome c none = Unit {0}
AgreesSome c (some t) = Agrees c t

realloc-Agrees :
    (size : ℕ) (c : Counts) (t : Trace) (items : List Item) (o : Option Item)
    → Agrees c t
    → AgreesSome (realloc size c) (add_freed size t items o)
unfolding realloc add_freed
realloc-Agrees size c t items none a = tt
realloc-Agrees size c t items (some i) a = record {
  mallocs = a.mallocs;
  callocs = a.callocs;
  reallocs = ap (λ n. add_long n 1) a.reallocs;
  bytes = ap (λ n. add_long n size) a.bytes;
  none_freed = a.none_freed;
}

init-Agrees : Agrees init Tracer.init
unfolding init Tracer.init
init-Agrees = record {
  mallocs = refl;
  callocs = refl;
  reallocs = refl;
  bytes = refl;
  none_freed = refl;
}

free_item-Agrees :
    (ptr : ℕ) (c : Counts) (t : Trace) (o : Option Item)
    → Agrees c t
    → Agrees c (free_item ptr t o).0
unfolding free_item
free_item-Agrees ptr c t none a = a
free_item-Agrees ptr c t (some i) a = elim (Bool-cases (is_zero i.cnt)) [
  | inl e ↦ rw e a
  | inr e ↦ rw e (record {
    mallocs = a.mallocs;
    callocs = a.callocs;
    reallocs = a.reallocs;
    bytes = a.bytes;
    none_freed = a.none_freed;
  })
]

free-Agrees :
    (ptr : ℕ) (c : Counts) (t : Trace) → Agrees c t → Agrees (free c) (Tracer.free ptr t).0
unfolding free Tracer.free
free-Agrees ptr c t a = elim (Bool-cases (ptr == 0)) [
  | inl e ↦ rw e a
  | inr e ↦ rw e (free_item-Agrees ptr c t (item_at t.items ptr) a)
]

call-Agrees :
    (k : Call) (c : Counts) (t : Trace) → Agrees c t → AgreesSome (count_call k c) (trace_call k t)
unfolding malloc calloc Tracer.malloc Tracer.calloc Tracer.realloc
call-Agrees (malloc_call ptr size) c t a = record {
  mallocs = ap (λ n. add_long n 1) a.mallocs;
  callocs = a.callocs;
  reallocs = a.reallocs;
  bytes = ap (λ n. add_long n size) a.bytes;
  none_freed = a.none_freed;
}
call-Agrees (calloc_call ptr nmemb size) c t a = record {
  mallocs = a.mallocs;
  callocs = ap (λ n. add_long n 1) a.callocs;
  reallocs = a.reallocs;
  bytes = ap (λ n. add_long n ((nmemb * size) % 2 ^ 64)) a.bytes;
  none_freed = a.none_freed;
}
call-Agrees (realloc_call ptr size new_ptr) c t a =
    let (items, deallocated) = dealloc t.items ptr in
    let items' = alloc items new_ptr size in
    realloc-Agrees size c t items' (item_of items' deallocated) a
call-Agrees (free_call ptr) c t a = free-Agrees ptr c t a

calls-Agrees :
    (ks : List Call) (c : Counts) (o : Option Trace)
    → AgreesSome c o
    → AgreesSome (count_calls ks c) (trace_calls ks o)
calls-Agrees [] c none a = tt
calls-Agrees (k ∷ ks) c none a = tt
calls-Agrees [] c (some t) a = a
calls-Agrees (k ∷ ks) c (some t) a =
    calls-Agrees ks (count_call k c) (trace_call k t) (call-Agrees k c t a)

-- For every sequence of calls for which the tracer of part 3 ends, the tracer of part 1 reports the
-- same bytes allocated and the same average, and no bytes freed.
pub fini-Part3 :
    (ks : List Call) (t : Trace)
    → trace_calls ks (some Tracer.init) ≡ some t
    → fini (count_calls ks init) ≡ ((Tracer.fini t).allocated, (Tracer.fini t).average, 0)
unfolding fini Tracer.fini
fini-Part3 ks t e =
    let a : Agrees (count_calls ks init) t =
      subst (λ o. AgreesSome (count_calls ks init) o) e
        (calls-Agrees ks init (some Tracer.init) init-Agrees) in
    rw (a.mallocs, a.callocs, a.reallocs, a.bytes, a.none_freed) refl

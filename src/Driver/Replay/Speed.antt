-- ===== src/Driver/Replay/Speed.antt =====
-- The timed run of mdriver.c, next to the run that measures the utilisation.
use s_system_programmin.Common.{
  ℕ, ◌+◌, ◌-◌, ◌≡◌, refl, ap, ◌∙◌, Bool-cases, inl, inr, Option, none, some, List, [], ◌∷◌, ◌==◌,
}
use s_system_programmin.Malloc.Words.{Heap}
use s_system_programmin.Malloc.{mm_malloc, mm_free, mm_realloc}
use s_system_programmin.Driver.Ranges.{
  Check, passes, fails, aborts, out_of_fuel, ◌>>=◌, Reason, malloc_failed, realloc_failed,
}
use s_system_programmin.Driver.Replay.{
  TraceOp, alloc, realloc, free, Replay, Usage, set, not_null, util_steps, util_step, util_alloc,
  util_realloc, util_free, counted_as, speed_steps, speed_step, speed_alloc, speed_realloc,
}

-- Two outcomes that differ in what the timed run does not keep.
pub data Same : Check Usage → Check Replay → Type 0 where
  same_run :
      {u : Usage} {s : Replay} → u.heap ≡ s.heap → u.blocks ≡ s.blocks → Same (passes u) (passes s)
  same_reason : {r : Reason} → Same (fails r) (fails r)
  both_abort : Same aborts aborts
  both_out_of_fuel : Same out_of_fuel out_of_fuel

call-Same :
    (r : Reason) (o : Option (Heap × ℕ)) (f : Heap × ℕ → Usage) (g : Heap × ℕ → Replay)
    → ((q : Heap × ℕ) → (f q).heap ≡ (g q).heap)
    → ((q : Heap × ℕ) → (f q).blocks ≡ (g q).blocks)
    → Same (not_null r o >>= λ q. passes (f q)) (not_null r o >>= λ q. passes (g q))
call-Same r none f g e d = both_out_of_fuel
call-Same r (some (h, p)) f g e d = elim (Bool-cases (p == 0)) [
  | inl z ↦ rw z same_reason
  | inr z ↦ rw z (same_run (e (h, p)) (d (h, p)))
]

step-Same :
    (op : TraceOp) (u : Usage) (s : Replay)
    → u.heap ≡ s.heap
    → u.blocks ≡ s.blocks
    → Same (util_step op u) (speed_step op s)
unfolding util_step util_alloc util_realloc util_free speed_step speed_alloc speed_realloc
step-Same (alloc i size) u s e d = rw⁻¹ e (
    call-Same malloc_failed (mm_malloc size u.heap)
      (λ q. counted_as i size (u.total_size + size) q u)
      (λ q. record s { heap = q.0; blocks = set i q.1 s.blocks }) (λ q. refl)
      (λ q. ap (set i q.1) d))
step-Same (realloc i size) u s e d =
    rw⁻¹ (e, d)
      (call-Same realloc_failed (mm_realloc (u.blocks i) size u.heap)
        (λ q. counted_as i size (u.total_size + size - u.block_sizes i) q u)
        (λ q. record s { heap = q.0; blocks = set i q.1 u.blocks }) (λ q. refl) (λ q. refl))
step-Same (free i) u s e d =
    same_run (ap (mm_free (u.blocks i)) e ∙ ap (λ b. mm_free (b i) s.heap) d) d

bind-Same :
    {k : Check Usage} {l : Check Replay} (f : Usage → Check Usage) (g : Replay → Check Replay)
    → Same k l
    → ((u : Usage) (s : Replay) → u.heap ≡ s.heap → u.blocks ≡ s.blocks → Same (f u) (g s))
    → Same (k >>= f) (l >>= g)
bind-Same f g (same_run {u = u} {s = s} e d) next = next u s e d
bind-Same f g same_reason next = same_reason
bind-Same f g both_abort next = both_abort
bind-Same f g both_out_of_fuel next = both_out_of_fuel

-- The timed run makes the same calls of the allocator as the run that measures the utilisation: on
-- every trace, from the same heap and pointers, both come to the same heap and pointers, or stop for
-- the same reason.
pub util_steps-Same :
    (ops : List TraceOp) (u : Usage) (s : Replay)
    → u.heap ≡ s.heap
    → u.blocks ≡ s.blocks
    → Same (util_steps ops u) (speed_steps ops s)
unfolding speed_steps util_steps
util_steps-Same [] u s e d = same_run e d
util_steps-Same (op ∷ ops) u s e d =
    bind-Same (util_steps ops) (speed_steps ops) (step-Same op u s e d)
      (λ v t f g. util_steps-Same ops v t f g)

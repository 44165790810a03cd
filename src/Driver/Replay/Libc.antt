-- ===== src/Driver/Replay/Libc.antt =====
-- The replay of a trace on libc's allocator, `eval_libc_valid` and `eval_libc_speed` of mdriver.c. The
-- allocator is a parameter: what it keeps, and what its calls return.
use s_system_programmin.Common.{ℕ, ◌≡◌, refl, ap, ◌∙◌, List, [], ◌∷◌, ◌==◌, if◌then◌else◌}
use s_system_programmin.Driver.Ranges.{
  Reason, Check, passes, fails, aborts, out_of_fuel, ◌>>=◌, malloc_failed, realloc_failed,
}
use s_system_programmin.Driver.Replay.{TraceOp, set}

pub record Libc {ℓ} (S : Type ℓ) : Type ℓ where
  pub malloc : (size : ℕ) → S → S × ℕ
  pub realloc : (ptr size : ℕ) → S → S × ℕ
  pub free : (ptr : ℕ) → S → S

module _ (S : Type 0) (libc : Libc S) where
  -- What libc keeps, and the array `blocks`
  abbrev pub Run : Type 0
  Run = S × (ℕ → ℕ)

  -- `unix_error` ends the program.
  abbrev pub or_exit : Reason → S × ℕ → (S × ℕ → Check Run) → Check Run
  or_exit r (s, p) next = if p == 0 then fails r else next (s, p)

  pub libc_step : TraceOp → Run → Check Run
  libc_step (TraceOp.alloc i size) (s, blocks) =
      or_exit malloc_failed (libc.malloc size s) (λ q. passes (q.0, set i q.1 blocks))
  libc_step (TraceOp.realloc i newsize) (s, blocks) =
      or_exit realloc_failed (libc.realloc (blocks i) newsize s)
        (λ q. passes (q.0, set i q.1 blocks))
  libc_step (TraceOp.free i) (s, blocks) = passes (libc.free (blocks i) s, blocks)

  pub eval_libc_valid : List TraceOp → Run → Check Run
  eval_libc_valid [] r = passes r
  eval_libc_valid (op ∷ ops) r = libc_step op r >>= eval_libc_valid ops

  pub speed_libc_step : TraceOp → Run → Check Run
  speed_libc_step (TraceOp.alloc index size) (s, blocks) =
      let (s', p) = libc.malloc size s in
      if p == 0 then fails malloc_failed else passes (s', set index p blocks)
  speed_libc_step (TraceOp.realloc index newsize) (s, blocks) =
      let oldp = blocks index in
      let (s', newp) = libc.realloc oldp newsize s in
      if newp == 0 then fails realloc_failed else passes (s', set index newp blocks)
  speed_libc_step (TraceOp.free index) (s, blocks) =
      let block = blocks index in passes (libc.free block s, blocks)

  pub eval_libc_speed : List TraceOp → Run → Check Run
  eval_libc_speed [] r = passes r
  eval_libc_speed (op ∷ ops) r = speed_libc_step op r >>= eval_libc_speed ops

  step_same : (op : TraceOp) (r : Run) → speed_libc_step op r ≡ libc_step op r
  unfolding speed_libc_step libc_step
  step_same (TraceOp.alloc i size) (s, blocks) = refl
  step_same (TraceOp.realloc i size) (s, blocks) = refl
  step_same (TraceOp.free i) (s, blocks) = refl

  bind_same :
      (k : Check Run) (f g : Run → Check Run) → ((r : Run) → f r ≡ g r) → (k >>= f) ≡ (k >>= g)
  bind_same (passes r) f g e = e r
  bind_same (fails r) f g e = refl
  bind_same aborts f g e = refl
  bind_same out_of_fuel f g e = refl

  -- Whatever libc's allocator does, the run that is timed comes to the same as the run that checks
  -- whether libc can serve the trace: the same state and pointers, or the same failure.
  pub eval_libc_speed-valid :
      (ops : List TraceOp) (r : Run) → eval_libc_speed ops r ≡ eval_libc_valid ops r
  unfolding eval_libc_speed eval_libc_valid
  eval_libc_speed-valid [] r = refl
  eval_libc_speed-valid (op ∷ ops) r =
      ap (λ k. k >>= eval_libc_speed ops) (step_same op r)
      ∙ bind_same (libc_step op r) (eval_libc_speed ops) (eval_libc_valid ops)
          (eval_libc_speed-valid ops)

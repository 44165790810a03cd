-- ===== src/Timing.antt =====
-- Lab/lab3/malloclab-handout/src/fcyc.c: the K-best sampling of a running time. The measured cycles are
-- an argument and natural numbers, and the test for convergence is in exact arithmetic. The
-- branch for `compensate` has the same loop and only measures in another way. Timing/Tuning.antt has
-- the settings and the clearing of the cache, which each round begins with if it is set.
pub mod Best
pub mod Tuning
mod Tests
use s_system_programmin.Common.{
  ℕ, zero, suc, ◌+◌, ◌-◌, ◌*◌, Bool, true, false, ◌&&◌, ◌||◌, not, Option, none, some, ltb, leb,
  ◌==◌, if◌then◌else◌,
}
use s_system_programmin.Timing.Tuning.{Settings, prepared}

-- The array `values` and the number of samples
pub record Sampler : Type 0 where
  pub values : ℕ → ℕ
  pub samplecount : ℕ

pub init_sampler : Sampler
init_sampler = record { values = λ i. 0; samplecount = 0 }

abbrev pub store : (i v : ℕ) → (ℕ → ℕ) → ℕ → ℕ
store i v f j = if j == i then v else f j

-- The exchange of `values[pos-1]` and `values[pos]` for pos = p + 1
abbrev pub swap : (p : ℕ) → (ℕ → ℕ) → ℕ → ℕ
swap p v = store (suc p) (v p) (store p (v (suc p)) v)

-- The insertion sort from `pos` down
pub sift : (pos : ℕ) → (ℕ → ℕ) → ℕ → ℕ
sift zero v = v
sift (suc p) v = let rest = sift p (swap p v) in if ltb (v (suc p)) (v p) then rest else v

pub add_sample : (kbest val : ℕ) → Sampler → Sampler
add_sample kbest val s =
    let n = s.samplecount in
    let last = kbest - 1 in
    record {
      values =
          if ltb n kbest
          then sift n (store n val s.values)
          else if ltb val (s.values last)
          then sift last (store last val s.values)
          else s.values;
      samplecount = n + 1;
    }

-- `epsilon` is 0.01.
pub has_converged : (kbest : ℕ) → Sampler → Bool
has_converged kbest s =
    leb kbest s.samplecount && leb (100 * s.values (kbest - 1)) (101 * s.values 0)

-- How the sampling ends: out of fuel, at a call of `clear` that does not return, or with the samples.
pub data Sampling : Type 0 where
  out_of_fuel no_return : Sampling
  sampled : Sampler → Sampling

-- One round, with the settings behind the call of `clear`, and what the next ones come to
abbrev pub round :
    (cycles : ℕ → ℕ) → Sampler → (more : Settings → Sampler → Sampling) → Option Settings → Sampling
round cycles s more none = no_return
round cycles s more (some next) =
    let t = add_sample next.kbest (cycles s.samplecount) s in
    if not (has_converged next.kbest t) && ltb t.samplecount next.maxsamples
    then more next t
    else sampled t

-- The loop of `fcyc`, whose i-th run takes `cycles i`; `got` says whether `malloc` succeeds in `clear`.
pub sample_loop : (fuel : ℕ) → (got : Bool) → Settings → (cycles : ℕ → ℕ) → Sampler → Sampling
sample_loop zero got settings cycles s = out_of_fuel
sample_loop (suc fuel) got settings cycles s =
    round cycles s (λ next t. sample_loop fuel got next cycles t) (prepared got settings)

-- The result, with the number of samples taken
abbrev pub result_of : Sampling → Option (ℕ × ℕ)
result_of out_of_fuel = none
result_of no_return = none
result_of (sampled s) = some (s.values 0, s.samplecount)

pub fcyc : (got : Bool) → Settings → (cycles : ℕ → ℕ) → Option (ℕ × ℕ)
fcyc got settings cycles =
    result_of (sample_loop (suc settings.maxsamples) got settings cycles init_sampler)

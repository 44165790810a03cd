-- ===== src/Timing/Best.antt =====
-- What the K-best sampling of fcyc.c keeps.
use s_system_programmin.Common.{ℕ, zero, suc, ◌≤◌, ◌<◌, ◌≡◌, ltb, if◌then◌else◌}
use s_system_programmin.Timing.{Sampling, sampled, Sampler}

-- The smallest of the first n + 1 samples
abbrev pub smallest : (cycles : ℕ → ℕ) → (n : ℕ) → ℕ
smallest cycles zero = cycles 0
smallest cycles (suc n) =
    let m = smallest cycles n in if ltb (cycles (suc n)) m then cycles (suc n) else m

-- The first n values do not decrease.
abbrev pub Ordered : (n : ℕ) → (ℕ → ℕ) → Type 0
Ordered n v = (i : ℕ) → suc i < n → v i ≤ v (suc i)

-- Behind n + 1 samples: the values are in order, and the first is the smallest sample.
record Best (kbest n : ℕ) (cycles : ℕ → ℕ) (s : Sampler) : Type 0 where
  pub count : s.samplecount ≡ suc n
  pub ordered : Ordered (if ltb (suc n) kbest then suc n else kbest) s.values
  pub first : s.values 0 ≡ smallest cycles n

-- The loop, whose next sample is the one with the number n
record Ends (k maxsamples : ℕ) (cycles : ℕ → ℕ) (o : Sampling) : Type 0 where
  pub taken : ℕ
  pub sampler : Sampler
  pub returns : o ≡ sampled sampler
  pub best : Best (suc k) taken cycles sampler
  pub bound : suc taken ≤ maxsamples

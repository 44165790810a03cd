-- ===== src/Counter.antt =====
-- Homework/Semaphores/goodcnt.c and badcnt.c: two threads that increment a shared counter. `cnt++` on
-- the volatile counter is a load and a store; the number of iterations is not negative, and
-- the counter is an int that wraps, kept as its value modulo 2 ^ 32. A schedule says which thread makes the next step.
pub mod Exclusion
mod Tests
use s_system_programmin.Common.{
  ℕ, zero, suc, ◌+◌, ◌-◌, ◌%◌, ◌^◌, Bool, true, false, Option, none, some, List, [], ◌∷◌, ltb, ◌==◌,
  if◌then◌else◌,
}

-- Where a thread is: at the loop's test, behind `P`, behind the load of a value, behind the store,
-- or at its end.
pub data Place : Type 0 where
  test held stored finished : Place
  loaded : ℕ → Place

pub record Thread : Type 0 where
  pub i : ℕ
  pub place : Place

-- The counter and the semaphore.
pub record Shared : Type 0 where
  pub cnt : ℕ
  pub mutex : ℕ

-- One step of `thread` in goodcnt.c; `none` if it is blocked in `P` or has returned.
pub good_step : (niters : ℕ) → Shared → (i : ℕ) → Place → Option (Shared × Thread)
good_step niters s i test =
    if ltb i niters
    then if s.mutex == 0
      then none
      else some (record s { mutex = s.mutex - 1 }, record { i = i; place = held })
    else some (s, record { i = i; place = finished })
good_step niters s i held = some (s, record { i = i; place = loaded s.cnt })
good_step niters s i (loaded v) =
    some (record s { cnt = (v + 1) % 2 ^ 32 }, record { i = i; place = stored })
good_step niters s i stored =
    some (record s { mutex = s.mutex + 1 }, record { i = i + 1; place = test })
good_step niters s i finished = none

-- One step of `thread` in badcnt.c.
pub bad_step : (niters : ℕ) → Shared → (i : ℕ) → Place → Option (Shared × Thread)
bad_step niters s i test =
    some (s, record { i = i; place = if ltb i niters then held else finished })
bad_step niters s i held = some (s, record { i = i; place = loaded s.cnt })
bad_step niters s i (loaded v) =
    some (record s { cnt = (v + 1) % 2 ^ 32 }, record { i = i; place = stored })
bad_step niters s i stored = some (s, record { i = i + 1; place = test })
bad_step niters s i finished = none

pub record System : Type 0 where
  pub shared : Shared
  pub first : Thread
  pub second : Thread

-- What `main` starts.
pub start : System
start = record {
  shared = record { cnt = 0; mutex = 1 };
  first = record { i = 0; place = test };
  second = record { i = 0; place = test };
}

abbrev pub after_first : System → Option (Shared × Thread) → System
after_first s none = s
after_first s (some (shared, t)) = record s { shared = shared; first = t }

abbrev pub after_second : System → Option (Shared × Thread) → System
after_second s none = s
after_second s (some (shared, t)) = record s { shared = shared; second = t }

-- A turn of the first or of the second thread; one that cannot move waits.
abbrev pub turn :
    (step : Shared → ℕ → Place → Option (Shared × Thread)) → (first : Bool) → System → System
turn step true s = after_first s (step s.shared s.first.i s.first.place)
turn step false s = after_second s (step s.shared s.second.i s.second.place)

abbrev pub run :
    (step : Shared → ℕ → Place → Option (Shared × Thread)) → List Bool → System → System
run step [] s = s
run step (b ∷ bs) s = run step bs (turn step b s)

-- ===== src/Counter/Tests.antt =====
-- The counters under concrete schedules.
use s_system_programmin.Common.{◌+◌, ◌*◌, ◌≤◌, ◌≡◌, refl, arith, Bool, true, false, List, [], ◌∷◌}
use s_system_programmin.Counter.{good_step, bad_step, start, run, finished}
use s_system_programmin.Counter.Exclusion.{inside, run-exclusive, run-exact, run-moves}

-- Two iterations; the second thread waits in `P` while the first is between `P` and `V`.
abbrev schedule : List Bool
schedule =
    true ∷ false ∷ true ∷ false ∷ true ∷ true ∷ false ∷ false ∷ false ∷ false ∷ true ∷ true ∷ true
    ∷ true ∷ true ∷ false ∷ false ∷ false ∷ false ∷ false ∷ []

run-exact_example : (run (good_step 2) schedule start).shared.cnt ≡ 2 * 2
unfolding good_step start
run-exact_example = run-exact 2 schedule refl refl (ground arith)

run-exclusive_example :
    inside (run (good_step 2) schedule start).first.place
      + inside (run (good_step 2) schedule start).second.place
    ≤ 1
run-exclusive_example = run-exclusive 2 schedule

run-moves_example :
    ((run (good_step 2) schedule start).first.place ≡ finished)
    × ((run (good_step 2) schedule start).second.place ≡ finished)
unfolding good_step start
run-moves_example = run-moves 2 schedule refl refl

-- badcnt.c loses an update when both threads load before one of them stores.
abbrev overlapping : List Bool
overlapping = true ∷ true ∷ false ∷ false ∷ true ∷ true ∷ true ∷ false ∷ false ∷ false ∷ []

lost_update : (run (bad_step 1) overlapping start).shared.cnt ≡ 1
unfolding bad_step start
lost_update = refl

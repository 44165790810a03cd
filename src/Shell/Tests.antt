-- ===== src/Shell/Tests.antt =====
-- A last line without a newline, which the shell does not evaluate, and a line that ends the shell.
use s_system_programmin.Common.{true, none, ◌≡◌, refl, some, [], ◌∷◌, codes, ℕ, pos}
use s_system_programmin.Shell.Parse.{parseline}
use s_system_programmin.Shell.Control.{exited, start, eval, eval_line, builtin_cmd}
use s_system_programmin.Shell.Input.{World, evaluated, commands}

-- Every child is process 100, and no foreground job ends.
abbrev quiet : ℕ → World
quiet i = record { ok = true; pid = pos 100; wait = λ c. none }

unterminated :
    commands 3 quiet (codes "jobs\nquit") start
    ≡ some (codes "jobs\n" ∷ [], some (record start { mode = exited }))
unfolding commands evaluated eval eval_line parseline builtin_cmd start
unterminated = refl

quits : commands 3 quiet (codes "quit\njobs\n") start ≡ some (codes "quit\n" ∷ [], none)
unfolding commands evaluated eval eval_line parseline builtin_cmd start
quits = refl

-- ===== src/Shell/Parse/Tests.antt =====
-- `parseline` on command lines: "ls 'a b' &" and a quote that is not closed.
use s_system_programmin.Common.{ℕ, ◌≡◌, refl, true, some, List, [], ◌∷◌, ◌++◌, arith}
use s_system_programmin.Shell.Parse.{Line, line, parseline, space}
use s_system_programmin.Shell.Parse.Grammar.{
  Spells, nothing, spaced, plain, quoted, parseline-Spells, parseline-ends,
}

abbrev sample_text : List ℕ
sample_text = 108 ∷ 115 ∷ 32 ∷ 39 ∷ 97 ∷ 32 ∷ 98 ∷ 39 ∷ 32 ∷ 38 ∷ []

abbrev sample_args : List (List ℕ)
sample_args = (108 ∷ 115 ∷ []) ∷ (97 ∷ 32 ∷ 98 ∷ []) ∷ (38 ∷ []) ∷ []

sample-Spells : Spells sample_args (sample_text ++ (space ∷ []))
sample-Spells =
    plain 108 (115 ∷ []) refl refl
      (quoted (97 ∷ 32 ∷ 98 ∷ []) refl (spaced (plain 38 [] refl refl nothing)))

parseline-Spells_example :
    parseline (sample_text ++ (10 ∷ []))
    ≡ some (line ((108 ∷ 115 ∷ []) ∷ (97 ∷ 32 ∷ 98 ∷ []) ∷ []) true)
parseline-Spells_example = parseline-Spells sample_args sample_text sample-Spells (ground arith)

parseline-ends_example : (l : Line) × (parseline (39 ∷ 97 ∷ 10 ∷ []) ≡ some l)
parseline-ends_example = parseline-ends (39 ∷ 97 ∷ 10 ∷ [])

open_quote : parseline (39 ∷ 97 ∷ 10 ∷ []) ≡ some (line [] true)
unfolding parseline
open_quote = refl

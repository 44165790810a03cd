-- ===== src/Shell/Parse/Grammar.antt =====
-- The command lines of tsh by a grammar, and `parseline` on them.
use s_system_programmin.Common.{
  ℕ, zero, suc, ◌+◌, ◌≤◌, ◌<◌, ◌≡◌, inl, inr, refl, ap, ◌∙◌, Bool, true, false, not, ◌&&◌,
  Option-cases, some, List, [], ◌∷◌, ◌++◌, ltb, ◌==◌, length, length-append, arith,
}
use s_system_programmin.Shell.Parse.{
  space, quote, cut_at, skip_spaces, next_arg, args_from, space_last, Line, line, without_ampersand,
  finish, parseline, maxargs,
}

abbrev pub free_of : ℕ → List ℕ → Bool
free_of c [] = true
free_of c (x ∷ xs) = not (x == c) && free_of c xs

-- A text and the arguments that it spells: they are separated by spaces, and one in quotes may
-- contain spaces.
pub data Spells : List (List ℕ) → List ℕ → Type 0 where
  nothing : Spells [] []
  spaced : {args : List (List ℕ)} {text : List ℕ} → Spells args text → Spells args (space ∷ text)
  plain :
      {args : List (List ℕ)} {text : List ℕ} (x : ℕ) (arg : List ℕ)
      → (x == quote) ≡ false
      → free_of space (x ∷ arg) ≡ true
      → Spells args text
      → Spells ((x ∷ arg) ∷ args) ((x ∷ arg) ++ (space ∷ text))
  quoted :
      {args : List (List ℕ)} {text : List ℕ} (arg : List ℕ)
      → free_of quote arg ≡ true
      → Spells args text
      → Spells (arg ∷ args) (quote ∷ arg ++ (quote ∷ text))

cut_at-free_of :
    (c : ℕ) (xs ys : List ℕ) → free_of c xs ≡ true → cut_at c (xs ++ (c ∷ ys)) ≡ some (xs, ys)
cut_at-free_of c [] ys f = ground arith
cut_at-free_of c (x ∷ xs) ys f =
    let miss : (x == c) ≡ false = ground arith in
    rw (miss, cut_at-free_of c xs ys (ground arith)) refl

args_from-step :
    (fuel : ℕ) (xs arg rest : List ℕ) (args : List (List ℕ))
    → next_arg xs ≡ some (arg, rest)
    → args_from fuel (skip_spaces rest) ≡ some args
    → args_from (suc fuel) xs ≡ some (arg ∷ args)
args_from-step fuel xs arg rest args e e' = rw (args_from, e, e') refl

next_arg-plain :
    (x : ℕ) (arg text : List ℕ)
    → (x == quote) ≡ false
    → free_of space (x ∷ arg) ≡ true
    → next_arg ((x ∷ arg) ++ (space ∷ text)) ≡ some (x ∷ arg, text)
next_arg-plain x arg text q f = rw q (cut_at-free_of space (x ∷ arg) text f)

args_from-Spells :
    (fuel : ℕ) (args : List (List ℕ)) (text : List ℕ)
    → Spells args text
    → length text < fuel
    → args_from fuel (skip_spaces text) ≡ some args
args_from-Spells zero args text s l = absurd (omega arith)
args_from-Spells (suc fuel) [] [] nothing l = refl
args_from-Spells (suc fuel) args (x ∷ text) (spaced s) l =
    args_from-Spells (suc fuel) args text s (omega arith)
args_from-Spells (suc fuel) (_ ∷ args) _ (plain {text = text} x arg q f s) l =
    let no_space : (x == space) ≡ false = ground arith in
    let rest =
      args_from-Spells fuel args text s (omega (arith, length-append arg (space ∷ text))) in
    rw no_space (
      args_from-step fuel ((x ∷ arg) ++ (space ∷ text)) (x ∷ arg) text args
        (next_arg-plain x arg text q f) rest)
args_from-Spells (suc fuel) (_ ∷ args) _ (quoted {text = text} arg f s) l =
    let rest =
      args_from-Spells fuel args text s (omega (arith, length-append arg (quote ∷ text))) in
    args_from-step fuel (quote ∷ arg ++ (quote ∷ text)) arg text args
      (cut_at-free_of quote arg text f) rest

space_last-append : (xs : List ℕ) (c : ℕ) → space_last (xs ++ (c ∷ [])) ≡ xs ++ (space ∷ [])
space_last-append [] c = refl
space_last-append (x ∷ []) c = refl
space_last-append (x ∷ y ∷ xs) c = ap (λ zs. x ∷ zs) (space_last-append (y ∷ xs) c)

length-skip_spaces : (xs : List ℕ) → length (skip_spaces xs) ≤ length xs
length-skip_spaces [] = omega arith
length-skip_spaces (x ∷ xs) = ground (arith, length-skip_spaces xs)

length-cut_at :
    (c : ℕ) (xs before after : List ℕ)
    → cut_at c xs ≡ some (before, after)
    → length after < length xs
length-cut_at c [] before after e = cc
length-cut_at c (x ∷ xs) before after e = elim (Option-cases (cut_at c xs)) [
  | inl n ↦ ground (arith, n)
  | inr ((before', after'), m) ↦ ground (arith, m, length-cut_at c xs before' after')
]

length-next_arg : (xs arg rest : List ℕ) → next_arg xs ≡ some (arg, rest) → length rest < length xs
length-next_arg [] arg rest e = cc
length-next_arg (x ∷ xs) arg rest e =
    ground (arith, length-cut_at quote xs arg rest, length-cut_at space (x ∷ xs) arg rest)

-- The loop does not run out of fuel.
pub args_from-ends :
    (fuel : ℕ) (xs : List ℕ)
    → length xs < fuel
    → (args : List (List ℕ)) × (args_from fuel xs ≡ some args)
args_from-ends zero xs l = absurd (omega arith)
args_from-ends (suc fuel) xs l = elim (Option-cases (next_arg xs)) [
  | inl e ↦ ([], rw (args_from, e) refl)
  | inr ((arg, rest), e) ↦
      let (args, e') =
        args_from-ends fuel (skip_spaces rest)
          (omega (arith, length-next_arg xs arg rest e, length-skip_spaces rest)) in
      (arg ∷ args, args_from-step fuel xs arg rest args e e')
]

finish-line :
    (args : List (List ℕ))
    → length args < maxargs
    → finish (some args) ≡ some (line (without_ampersand args).0 (without_ampersand args).1)
finish-line args l = let few : ltb (length args) maxargs ≡ true = ground arith in rw few refl

-- `parseline` on a line of fewer than MAXARGS arguments that follows the grammar, where a newline
-- stands for the last space, returns just these arguments. Only if there are none, or the last one
-- starts with an ampersand, the job is for the background, and that last argument is left out.
pub parseline-Spells :
    (args : List (List ℕ)) (text : List ℕ)
    → Spells args (text ++ (space ∷ []))
    → length args < maxargs
    → parseline (text ++ (10 ∷ []))
      ≡ some (line (without_ampersand args).0 (without_ampersand args).1)
unfolding parseline
parseline-Spells args [] s l =
    ap finish (args_from-Spells 2 args (space ∷ []) s (ground arith)) ∙ finish-line args l
parseline-Spells args (x ∷ text) s l =
    let buf = (x ∷ text) ++ (space ∷ []) in
    rw (space_last-append (x ∷ text) 10)
      (ap finish (args_from-Spells (length buf + 1) args buf s (omega arith)) ∙ finish-line args l)

-- `parseline` ends on every line: its loop takes at most one round for each byte.
pub parseline-ends : (cmdline : List ℕ) → (l : Line) × (parseline cmdline ≡ some l)
unfolding parseline
parseline-ends [] = (_, refl)
parseline-ends (x ∷ xs) =
    let buf = space_last (x ∷ xs) in
    let (args, e) =
      args_from-ends (length buf + 1) (skip_spaces buf) (omega (arith, length-skip_spaces buf)) in
    (_, ap finish e)

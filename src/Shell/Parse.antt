-- ===== src/Shell/Parse.antt =====
-- `parseline` of Lab/lab2/shlab/tsh.c. Lines are lists of bytes other than 0, and the arguments that
-- the code leaves in its buffer are the lists of the bytes between the places it ends them at.
pub mod Grammar
mod Tests
use s_system_programmin.Common.{
  ℕ, zero, suc, ◌+◌, Bool, true, false, Option, none, some, List, [], ◌∷◌, ltb, ◌==◌, if◌then◌else◌,
  length,
}

abbrev pub space : ℕ
space = 32

abbrev pub quote : ℕ
quote = 39

abbrev pub ampersand : ℕ
ampersand = 38

abbrev pub maxargs : ℕ
maxargs = 128

-- `strchr`: the bytes before the first `c`, and those behind it.
abbrev pub cut_at : (c : ℕ) → List ℕ → Option (List ℕ × List ℕ)
cut_at c [] = none
cut_at c (x ∷ xs) =
    if x == c
    then some ([], xs)
    else elim (cut_at c xs) [ none ↦ none | some (before, after) ↦ some (x ∷ before, after) ]

abbrev pub skip_spaces : List ℕ → List ℕ
skip_spaces [] = []
skip_spaces (x ∷ xs) = if x == space then skip_spaces xs else x ∷ xs

-- The next argument and the rest of the line; `none` where `delim` is NULL.
abbrev pub next_arg : List ℕ → Option (List ℕ × List ℕ)
next_arg [] = none
next_arg (x ∷ xs) = if x == quote then cut_at quote xs else cut_at space (x ∷ xs)

-- The loop over the arguments, with fuel; each of them takes a byte of the line at least.
abbrev pub args_from : (fuel : ℕ) → List ℕ → Option (List (List ℕ))
args_from zero xs = none
args_from (suc fuel) xs = elim (next_arg xs) [
  | none ↦ some []
  | some (arg, rest) ↦ elim (args_from fuel (skip_spaces rest)) [
    | none ↦ none
    | some args ↦ some (arg ∷ args)
  ]
]

-- `buf[strlen(buf)-1] = ' '` on a line that is not empty
abbrev pub space_last : List ℕ → List ℕ
space_last [] = []
space_last (x ∷ []) = space ∷ []
space_last (x ∷ y ∷ xs) = x ∷ space_last (y ∷ xs)

-- What the caller gets: the arguments and whether the job runs in the background; or a write out of
-- the bounds of `argv` or of the buffer.
pub data Line : Type 0 where
  out_of_bounds : Line
  line : (argv : List (List ℕ)) → (bg : Bool) → Line

abbrev pub starts_with : ℕ → List ℕ → Bool
starts_with c [] = false
starts_with c (x ∷ xs) = x == c

-- The last argument is dropped if it starts with an ampersand.
abbrev pub without_ampersand : List (List ℕ) → List (List ℕ) × Bool
without_ampersand [] = ([], true)
without_ampersand (a ∷ []) = if starts_with ampersand a then ([], true) else (a ∷ [], false)
without_ampersand (a ∷ b ∷ more) = let (rest, bg) = without_ampersand (b ∷ more) in (a ∷ rest, bg)

abbrev pub finish : Option (List (List ℕ)) → Option Line
finish none = none
finish (some args) = some (
    if ltb (length args) maxargs
    then (let (argv, bg) = without_ampersand args in line argv bg)
    else out_of_bounds)

-- `none` is out of fuel.
unfoldable pub parseline : (cmdline : List ℕ) → Option Line
parseline [] = some out_of_bounds
parseline (x ∷ xs) =
    let buf = space_last (x ∷ xs) in finish (args_from (length buf + 1) (skip_spaces buf))

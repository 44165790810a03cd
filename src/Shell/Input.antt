-- ===== src/Shell/Input.antt =====
-- The loop of `main` in Lab/lab2/shlab/tsh.c that reads the command lines from the standard input, a
-- text of bytes other than 0. An error of `fgets` is left out. `eval` is that of Shell/Control.antt; what
-- `fork` and `kill` return for a line, and what the signals do while the shell waits, is an argument.
use s_system_programmin.Common.{
  ℕ, zero, suc, ◌<◌, ◌≡◌, Bool, true, false, not, Option, none, some, ℤ, List, [], ◌∷◌, ◌++◌, ◌==◌,
  if◌then◌else◌, length, all,
}
use s_system_programmin.Shell.Control.{Mode, prompt, waiting, exited, crashed, Control, eval}

-- `fgets` into a buffer with room for so many bytes and the final 0: the bytes it stores, whether it
-- has met the end of the file, and what is left of the input
abbrev pub fgets : (room : ℕ) → List ℕ → List ℕ × Bool × List ℕ
fgets zero s = ([], false, s)
fgets (suc room) [] = ([], true, [])
fgets (suc room) (c ∷ cs) =
    let (l, eof, rest) = fgets room cs in
    if c == 10 then (c ∷ [], false, cs) else (c ∷ l, eof, rest)

-- What happens around the evaluation of a line: whether `kill` succeeds, the process that `fork`
-- makes, and the shell behind the loop of `waitfg`, or `none` if that loop does not end.
pub record World : Type 0 where
  pub ok : Bool
  pub pid : ℤ
  pub wait : Control → Option Control

-- The shell behind `eval`, if that returns
abbrev pub returned : (Control → Option Control) → Mode → Control → Option Control
returned wait prompt c = some c
returned wait (waiting _) c = wait c
returned wait exited c = none
returned wait crashed c = none

abbrev pub behind_eval : (Control → Option Control) → Option Control → Option Control
behind_eval wait none = none
behind_eval wait (some c) = returned wait c.mode c

unfoldable pub evaluated : World → (cmdline : List ℕ) → Control → Option Control
evaluated w cmdline c = behind_eval w.wait (eval w.ok w.pid cmdline c)

-- The lines that the loop hands to `eval`, and the shell at the end of the file; or `none` in its place
-- if `eval` of the last one does not return, as it exits, crashes or waits for ever.
abbrev pub Evaluated : Type 0
Evaluated = List (List ℕ) × Option Control

abbrev pub line_before : (cmdline : List ℕ) → Option Evaluated → Option Evaluated
line_before cmdline none = none
line_before cmdline (some (ls, c)) = some (cmdline ∷ ls, c)

-- How the loop goes on behind a line
abbrev pub handed :
    (cmdline : List ℕ) → Option Control → (Control → Option Evaluated) → Option Evaluated
handed cmdline none rest = some (cmdline ∷ [], none)
handed cmdline (some d) rest = line_before cmdline (rest d)

-- The loop, where `world i` is around the line that has `i` lines behind it in the fuel; `none` is out
-- of fuel.
unfoldable pub commands : (fuel : ℕ) → (world : ℕ → World) → List ℕ → Control → Option Evaluated
commands zero world s c = none
commands (suc fuel) world s c =
    let (cmdline, eof, rest) = fgets 1023 s in
    if eof
    then some ([], some (record c { mode = exited }))
    else handed cmdline (evaluated (world fuel) cmdline c) (λ d. commands fuel world rest d)

abbrev pub not_newline : ℕ → Bool
not_newline c = not (c == 10)

-- A line in a buffer for `room` bytes: it ends with its only newline, or fills the buffer.
pub data Command (room : ℕ) : List ℕ → Type 0 where
  whole : (l : List ℕ) → all not_newline l ≡ true → length l < room → Command room (l ++ (10 ∷ []))
  full : (l : List ℕ) → all not_newline l ≡ true → length l ≡ room → Command room l

-- How `fgets` divides the input
data Read (room : ℕ) (s : List ℕ) : List ℕ × Bool × List ℕ → Type 0 where
  got_command : (l rest : List ℕ) → Command room l → l ++ rest ≡ s → Read room s (l, false, rest)
  at_end :
      (l : List ℕ) → all not_newline l ≡ true → length l < room → l ≡ s → Read room s (l, true, [])

-- The lines stand one behind the other at the start of the input. At the end of the file, a tail is
-- left that is shorter than the buffer and has no newline.
pub data Splits : List ℕ → Evaluated → Type 0 where
  tail :
      (s : List ℕ) (c : Control)
      → all not_newline s ≡ true
      → length s < 1023
      → Splits s ([], some c)
  no_return : (l rest : List ℕ) → Command 1023 l → Splits (l ++ rest) (l ∷ [], none)
  command :
      {rest : List ℕ} {ls : List (List ℕ)} {c : Option Control} (l : List ℕ)
      → Command 1023 l
      → Splits rest (ls, c)
      → Splits (l ++ rest) (l ∷ ls, c)

Fetched : ℕ → (ℕ → World) → List ℕ → Control → Type 0
Fetched fuel world s c = (r : Evaluated) × (commands fuel world s c ≡ some r) × Splits s r

-- ===== src/Common/Text.antt =====
-- Texts as lists of bytes: their runs of bytes that pass a test, and the library's strings.
use Prim.Native.Nat.{ℕ, zero, suc, ◌+◌, ◌/◌, ◌%◌, ◌≤◌}
use Prim.Native.Char.{code}
use Prim.Native.String.{String}
use mathlib.Core.Path.{◌≡◌, refl}
use mathlib.Core.Bool.{Bool, true, false, not, ◌&&◌, ◌||◌}
use mathlib.Core.List.{List, [], ◌∷◌, ◌++◌}
use native.Mathlib.Omega.{arith}
use s_system_programmin.Common.Tests.{leb, ◌==◌, if◌then◌else◌}
use s_system_programmin.Common.Lists.{length}

-- The bytes of a text in ASCII
abbrev pub codes : String → List ℕ
codes String.[] = []
codes (String.◌∷◌ c s) = code c ∷ codes s

abbrev pub all : (ℕ → Bool) → List ℕ → Bool
all p [] = true
all p (x ∷ xs) = p x && all p xs

abbrev pub take_while : (ℕ → Bool) → List ℕ → List ℕ
take_while p [] = []
take_while p (x ∷ xs) = let rest = take_while p xs in if p x then x ∷ rest else []

abbrev pub drop_while : (ℕ → Bool) → List ℕ → List ℕ
drop_while p [] = []
drop_while p (x ∷ xs) = let rest = drop_while p xs in if p x then rest else x ∷ xs

module _ (p : ℕ → Bool) where
  pub all-append : (xs ys : List ℕ) → all p (xs ++ ys) ≡ (all p xs && all p ys)
  all-append [] ys = refl
  all-append (x ∷ xs) ys = ground (arith, all-append xs ys)

  pub take_while-drop_while : (xs : List ℕ) → take_while p xs ++ drop_while p xs ≡ xs
  take_while-drop_while [] = refl
  take_while-drop_while (x ∷ xs) = ground (arith, take_while-drop_while xs)

  pub all-take_while : (xs : List ℕ) → all p (take_while p xs) ≡ true
  all-take_while [] = refl
  all-take_while (x ∷ xs) = ground (arith, all-take_while xs)

  -- A run that stops before a byte, and one that goes to the end.
  pub take_while_before :
      (xs : List ℕ) (y : ℕ) (ys : List ℕ)
      → all p xs ≡ true
      → p y ≡ false
      → take_while p (xs ++ (y ∷ ys)) ≡ xs
  take_while_before [] y ys a n = rw n refl
  take_while_before (x ∷ xs) y ys a n = ground (arith, take_while_before xs y ys (ground arith) n)

  pub drop_while_before :
      (xs : List ℕ) (y : ℕ) (ys : List ℕ)
      → all p xs ≡ true
      → p y ≡ false
      → drop_while p (xs ++ (y ∷ ys)) ≡ y ∷ ys
  drop_while_before [] y ys a n = rw n refl
  drop_while_before (x ∷ xs) y ys a n = ground (arith, drop_while_before xs y ys (ground arith) n)

  pub take_while-all : (xs : List ℕ) → all p xs ≡ true → take_while p xs ≡ xs
  take_while-all [] a = refl
  take_while-all (x ∷ xs) a = ground (arith, take_while-all xs (ground arith))

  pub drop_while-all : (xs : List ℕ) → all p xs ≡ true → drop_while p xs ≡ []
  drop_while-all [] a = refl
  drop_while-all (x ∷ xs) a = ground (arith, drop_while-all xs (ground arith))

  -- What holds of every byte of a text holds of those of its runs.
  pub all-take_while_of :
      (q : ℕ → Bool) (xs : List ℕ) → all q xs ≡ true → all q (take_while p xs) ≡ true
  all-take_while_of q [] a = refl
  all-take_while_of q (x ∷ xs) a = ground (arith, all-take_while_of q xs (ground arith))

  pub all-drop_while_of :
      (q : ℕ → Bool) (xs : List ℕ) → all q xs ≡ true → all q (drop_while p xs) ≡ true
  all-drop_while_of q [] a = refl
  all-drop_while_of q (x ∷ xs) a = ground (arith, all-drop_while_of q xs (ground arith))

  pub length-take_while_le : (xs : List ℕ) → length (take_while p xs) ≤ length xs
  length-take_while_le [] = omega arith
  length-take_while_le (x ∷ xs) = ground (arith, length-take_while_le xs)

  pub length-drop_while_le : (xs : List ℕ) → length (drop_while p xs) ≤ length xs
  length-drop_while_le [] = omega arith
  length-drop_while_le (x ∷ xs) = ground (arith, length-drop_while_le xs)

-- `isdigit`
abbrev pub is_digit : ℕ → Bool
is_digit c = leb b'0' c && leb c b'9'

-- The decimal digits of `n` in front of `rest`; the fuel is above the number of digits.
unfoldable pub digits_before : (fuel n : ℕ) → (rest : List ℕ) → List ℕ
digits_before zero n rest = rest
digits_before (suc fuel) n rest =
    let digit = b'0' + n % 10 in
    let more = digits_before fuel (n / 10) (digit ∷ rest) in
    if n / 10 == 0 then digit ∷ rest else more

-- "%d" of a number that is not negative: an int has ten digits at most.
unfoldable pub decimal : ℕ → List ℕ
decimal n = digits_before 10 n []

-- `isspace`, and `%s` of `sscanf`, "" where it does not match, with the rest of the text
abbrev pub is_space : ℕ → Bool
is_space c = (leb 9 c && leb c 13) || (c == 32)

abbrev pub no_space : ℕ → Bool
no_space c = not (is_space c)

abbrev pub is_empty : List ℕ → Bool
is_empty [] = true
is_empty (x ∷ xs) = false

abbrev pub scan_word : List ℕ → List ℕ
scan_word s = take_while no_space (drop_while is_space s)

abbrev pub behind_word : List ℕ → List ℕ
behind_word s = drop_while no_space (drop_while is_space s)

module _ (w : List ℕ) (y : ℕ) (rest : List ℕ) (n : is_empty w ≡ false) (a : all no_space w ≡ true)
    (e : is_space y ≡ true) where
  drop_spaces_word : drop_while is_space (w ++ (y ∷ rest)) ≡ w ++ (y ∷ rest)
  drop_spaces_word =
      elim w
          as (λ w.
            is_empty w ≡ false
            → all no_space w ≡ true
            → drop_while is_space (w ++ (y ∷ rest)) ≡ w ++ (y ∷ rest)) [
              | [] ↦ λ n a. cc
              | x ∷ xs ↦ λ n a. let first : is_space x ≡ false = ground arith in rw first refl
            ]
        n a

  pub scan_word_before : scan_word (w ++ (y ∷ rest)) ≡ w
  scan_word_before = rw drop_spaces_word (take_while_before no_space w y rest a (ground (arith, e)))

  pub behind_word_before : behind_word (w ++ (y ∷ rest)) ≡ y ∷ rest
  behind_word_before =
      rw drop_spaces_word (drop_while_before no_space w y rest a (ground (arith, e)))

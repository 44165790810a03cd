-- ===== src/Proxy/Request/Scan.antt =====
-- The library calls of the request parser on texts of the expected form, and `trim` on every text.
use s_system_programmin.Common.{
  is_space, no_space, is_empty, scan_word, scan_word_before, behind_word_before, ℕ, ◌≡◌, refl, ap,
  ◌∙◌, Bool, true, false, ◌&&◌, some, List, [], ◌∷◌, ◌++◌, arith, all, drop_while,
  take_while_before, drop_while_before, take_while-all,
}
use s_system_programmin.Proxy.Request.{scan_uri, drop_first, strtok, trim_end, trim_rest, trim}

pub is_empty-append : (xs ys : List ℕ) → is_empty xs ≡ false → is_empty (xs ++ ys) ≡ false
is_empty-append [] ys n = cc
is_empty-append (x ∷ xs) ys n = refl

pub scan_word-all : (w : List ℕ) → all no_space w ≡ true → scan_word w ≡ w
scan_word-all [] a = refl
scan_word-all (x ∷ xs) a =
    let first : is_space x ≡ false = ground arith in rw first (take_while-all no_space (x ∷ xs) a)

pub scan_uri_second :
    (method uri rest : List ℕ)
    → is_empty method ≡ false
    → all no_space method ≡ true
    → is_empty uri ≡ false
    → all no_space uri ≡ true
    → scan_uri (method ++ (32 ∷ (uri ++ (32 ∷ rest)))) ≡ uri
unfolding scan_uri
scan_uri_second method uri rest n a n' a' =
    ap scan_word (behind_word_before method 32 (uri ++ (32 ∷ rest)) n a refl)
    ∙ scan_word_before uri 32 rest n' a' refl

-- A token up to its delimiter.
pub strtok_token :
    (p : ℕ → Bool) (t : List ℕ) (y : ℕ) (ys : List ℕ)
    → is_empty t ≡ false
    → all p t ≡ true
    → p y ≡ false
    → strtok p (t ++ (y ∷ ys)) ≡ some (t, ys)
unfolding strtok
strtok_token p [] y ys n a e = cc
strtok_token p (x ∷ xs) y ys n a e =
    let first : p x ≡ true = ground arith in
    let token = take_while_before p (x ∷ xs) y ys a e in
    let behind = drop_while_before p (x ∷ xs) y ys a e in
    rw (strtok, first)
      (ap (λ t. some (t, drop_first (drop_while p ((x ∷ xs) ++ (y ∷ ys))))) token
        ∙ ap (λ r. some (x ∷ xs, drop_first r)) behind)

-- The last byte of x ∷ xs
abbrev pub last_of : ℕ → List ℕ → ℕ
last_of x [] = x
last_of x (y ∷ ys) = last_of y ys

-- Neither the first nor the last byte is white space.
abbrev pub is_neat : List ℕ → Bool
is_neat [] = false
is_neat (x ∷ xs) = no_space x && no_space (last_of x xs)

trim_end_spaces : (xs : List ℕ) → all is_space xs ≡ true → trim_end xs ≡ []
unfolding trim_end
trim_end_spaces [] a = refl
trim_end_spaces (x ∷ xs) a = ground (arith, trim_end_spaces xs (ground arith))

trim_end_neat :
    (x : ℕ) (xs after : List ℕ)
    → no_space (last_of x xs) ≡ true
    → all is_space after ≡ true
    → trim_end (x ∷ xs ++ after) ≡ x ∷ xs
unfolding trim_end
trim_end_neat x [] after n a =
    let no : is_space x ≡ false = ground arith in rw (no, trim_end_spaces after a) refl
trim_end_neat x (y ∷ ys) after n a = rw (trim_end_neat y ys after n a) (ground arith)

trim_end_rest :
    (x : ℕ) (xs after : List ℕ)
    → no_space (last_of x xs) ≡ true
    → all is_space after ≡ true
    → trim_end (xs ++ after) ≡ xs
trim_end_rest x [] after n a = trim_end_spaces after a
trim_end_rest x (y ∷ ys) after n a = trim_end_neat y ys after n a

-- `trim` takes the white space from both ends of a text.
pub trim-neat :
    (before text after : List ℕ)
    → all is_space before ≡ true
    → is_neat text ≡ true
    → all is_space after ≡ true
    → trim (before ++ (text ++ after)) ≡ text
unfolding trim
trim-neat before [] after b n a = cc
trim-neat before (x ∷ xs) after b n a =
    let dropped = drop_while_before is_space before x (xs ++ after) b (ground arith) in
    ap trim_rest dropped ∙ ap (λ zs. x ∷ zs) (trim_end_rest x xs after (ground arith) a)

-- ===== src/Proxy/Request/Lengths.antt =====
-- How long the parts of a parsed request are.
use s_system_programmin.Common.{
  is_space, no_space, is_empty, scan_word, behind_word, ℕ, ◌+◌, ◌≤◌, ◌≡◌, refl, sym, ap, subst, ◌∙◌,
  ◌⊎◌, Bool, not, Bool-cases, Option-cases, inl, inr, Option, none, some, List, [], ◌∷◌, ◌++◌, ◌==◌,
  arith, length, length-append, same_string, codes, take_while, drop_while, length-take_while_le,
  length-drop_while_le, take_while-drop_while,
}
use s_system_programmin.Proxy.Request.{
  maxline, not_slash, not_colon, in_line, crlf, strip_prefix, scan_uri, scan_host_path, or_default,
  drop_first, strtok, trim_end, trim_rest, trim, HttpHeader, HttpRequest, header_of, add_header,
  parse_headers, request_of, first_line, other_lines, parse_request, is_ignored,
}

-- Every line is shorter than the buffer by nine bytes at least, its 0 included.
abbrev pub AreShort : List (List ℕ) → Type 0
AreShort [] = Unit
AreShort (line ∷ lines) = (length line + 9 ≤ maxline) × AreShort lines

abbrev pub ShortHeaders : List HttpHeader → Type 0
ShortHeaders [] = Unit
ShortHeaders (hdr ∷ hdrs) = (length hdr.key + length hdr.value + 9 ≤ maxline) × ShortHeaders hdrs

pub record IsShort (request : HttpRequest) : Type 0 where
  pub path : length request.path + 16 ≤ maxline
  pub host : length request.host + 16 ≤ maxline
  pub extra_hdrs : ShortHeaders request.extra_hdrs

length-trim_end : (xs : List ℕ) → length (trim_end xs) ≤ length xs
unfolding trim_end
length-trim_end [] = omega arith
length-trim_end (x ∷ xs) = ground (arith, length-trim_end xs)

length-trim_rest : (xs : List ℕ) → length (trim_rest xs) ≤ length xs
length-trim_rest [] = omega arith
length-trim_rest (x ∷ xs) = omega (arith, length-trim_end xs)

length-trim : (xs : List ℕ) → length (trim xs) ≤ length xs
unfolding trim
length-trim xs =
    omega (arith, length-trim_rest (drop_while is_space xs), length-drop_while_le is_space xs)

length-drop_first : (xs : List ℕ) → length (drop_first xs) ≤ length xs
length-drop_first [] = omega arith
length-drop_first (x ∷ xs) = omega arith

length-runs :
    (p : ℕ → Bool) (xs : List ℕ) → length (take_while p xs) + length (drop_while p xs) ≡ length xs
length-runs p xs =
    sym (length-append (take_while p xs) (drop_while p xs)) ∙ ap length (take_while-drop_while p xs)

-- A token and what is behind it
token_at : (ℕ → Bool) → List ℕ → Option (List ℕ × List ℕ)
token_at p [] = none
token_at p (x ∷ xs) = some (take_while p (x ∷ xs), drop_first (drop_while p (x ∷ xs)))

strtok-token_at :
    (p : ℕ → Bool) (s : List ℕ) → strtok p s ≡ token_at p (drop_while (λ c. not (p c)) s)
unfolding strtok token_at
strtok-token_at p s = refl

length-token_at :
    (p : ℕ → Bool) (s t rest : List ℕ)
    → token_at p s ≡ some (t, rest)
    → length t + length rest ≤ length s
unfolding token_at
length-token_at p [] t rest e = cc
length-token_at p (x ∷ xs) t rest e =
    ground (arith, e, length-runs p (x ∷ xs), length-drop_first (drop_while p (x ∷ xs)))

length-strtok :
    (p : ℕ → Bool) (s t rest : List ℕ)
    → strtok p s ≡ some (t, rest)
    → length t + length rest ≤ length s
length-strtok p s t rest e =
    let skipped = drop_while (λ c. not (p c)) s in
    let short = length-token_at p skipped t rest (sym (strtok-token_at p s) ∙ e) in
    omega (arith, short, length-drop_while_le (λ c. not (p c)) s)

length-header_of :
    (buf : List ℕ) (hdr : HttpHeader)
    → header_of buf ≡ some hdr
    → length hdr.key + length hdr.value ≤ length buf
unfolding header_of
length-header_of buf hdr e = elim (Option-cases (strtok not_colon buf)) [
  | inl n ↦ ground (arith, n, e)
  | inr ((key, rest), k) ↦ elim (Option-cases (strtok in_line rest)) [
    | inl n ↦ ground (arith, k, n, e)
    | inr ((value, more), v) ↦ ground (
      arith,
      k,
      v,
      e,
      length-strtok not_colon buf key rest k,
      length-strtok in_line rest value more v,
      length-trim key,
      length-trim value,
    )
  ]
]

ShortHeaders-add :
    (hdr : HttpHeader) (hdrs : List HttpHeader)
    → length hdr.key + length hdr.value + 9 ≤ maxline
    → ShortHeaders hdrs
    → ShortHeaders (hdrs ++ (hdr ∷ []))
ShortHeaders-add hdr [] l s = (l, tt)
ShortHeaders-add hdr (h ∷ hdrs) l (f, s) = (f, ShortHeaders-add hdr hdrs l s)

add_header-ShortHeaders :
    (hdr : HttpHeader) (hdrs : List HttpHeader)
    → length hdr.key + length hdr.value + 9 ≤ maxline
    → ShortHeaders hdrs
    → ShortHeaders (add_header hdr hdrs)
add_header-ShortHeaders hdr hdrs l s = elim (Bool-cases (is_ignored hdr.key)) [
  | inl e ↦ rw e s
  | inr e ↦ rw e (ShortHeaders-add hdr hdrs l s)
]

parse_headers-ShortHeaders :
    (lines : List (List ℕ)) (acc hdrs : List HttpHeader)
    → AreShort lines
    → ShortHeaders acc
    → parse_headers lines acc ≡ some hdrs
    → ShortHeaders hdrs
unfolding parse_headers
parse_headers-ShortHeaders [] acc hdrs l s e =
    let same : acc ≡ hdrs = cc in subst ShortHeaders same s
parse_headers-ShortHeaders (buf ∷ lines) acc hdrs (l, ls) s e =
    elim (Bool-cases (same_string buf crlf)) [
      | inl y ↦
          let e' : some acc ≡ some hdrs = rw y at e in
          let same : acc ≡ hdrs = cc in subst ShortHeaders same s
      | inr n ↦ elim (Option-cases (header_of buf)) [
        | inl o ↦ let no : none ≡ some hdrs = rw (n, o) at e in cc
        | inr (hdr, o) ↦
            let short : length hdr.key + length hdr.value + 9 ≤ maxline =
              omega (arith, l, length-header_of buf hdr o) in
            parse_headers-ShortHeaders lines (add_header hdr acc) hdrs ls
              (add_header-ShortHeaders hdr acc short s) (rw (n, o) at e)
      ]
    ]

length-scan_word : (s : List ℕ) → length (scan_word s) ≤ length s
length-scan_word s =
    omega (
      arith,
      length-take_while_le no_space (drop_while is_space s),
      length-drop_while_le is_space s,
    )

length-scan_uri : (s : List ℕ) → length (scan_uri s) ≤ length s
unfolding scan_uri
length-scan_uri s = omega (
  arith,
  length-scan_word (behind_word s),
  length-drop_while_le no_space (drop_while is_space s),
  length-drop_while_le is_space s,
)

length-strip_prefix :
    (xs ys rest : List ℕ) → strip_prefix xs ys ≡ some rest → length rest + length xs ≡ length ys
length-strip_prefix [] ys rest e = ground (arith, e)
length-strip_prefix (x ∷ xs) [] rest e = cc
length-strip_prefix (x ∷ xs) (y ∷ ys) rest e = elim (Bool-cases (x == y)) [
  | inl k ↦ omega (arith, length-strip_prefix xs ys rest (rw k at e))
  | inr n ↦ let no : none ≡ some rest = rw n at e in cc
]

-- What is read behind the seven bytes of "http://".
abbrev BehindPrefix : (uri text : List ℕ) → Type 0
BehindPrefix uri text = (length text ≡ 0) ⊎ (length text + 7 ≤ length uri)

length-scan_host_path :
    (uri : List ℕ)
    → BehindPrefix uri (scan_host_path uri).0 × BehindPrefix uri (scan_host_path uri).1
unfolding scan_host_path
length-scan_host_path uri = elim (Option-cases (strip_prefix (codes "http://") uri)) [
  | inl n ↦ rw n (inl refl, inl refl)
  | inr (rest, e) ↦
      let l = length-strip_prefix (codes "http://") uri rest e in
      let host = take_while not_slash rest in
      let runs = length-runs not_slash rest in
      let path = length-scan_word (drop_while not_slash rest) in
      elim (Bool-cases (is_empty host)) [
        | inl b ↦ rw (e, b) (inl refl, inl refl)
        | inr b ↦ rw (e, b) (inr (omega (arith, l, runs)), inr (omega (arith, l, runs, path)))
      ]
]

length-or_default :
    (xs ys : List ℕ) → (length (or_default xs ys) ≤ length ys) ⊎ (or_default xs ys ≡ xs)
length-or_default xs [] = inr refl
length-or_default xs (y ∷ ys) = inl (omega arith)

request_of-IsShort :
    (buf : List ℕ) (hdrs : List HttpHeader)
    → length buf + 9 ≤ maxline
    → ShortHeaders hdrs
    → IsShort (request_of buf hdrs)
unfolding request_of
request_of-IsShort buf hdrs l s =
    let uri = length-scan_uri buf in
    let (host, path) = length-scan_host_path (scan_uri buf) in
    record {
      path = elim (length-or_default (codes "/") (scan_host_path (scan_uri buf)).1) [
        | inl le ↦ omega (arith, uri, path, l, le)
        | inr e ↦ rw e (omega arith)
      ];
      host = omega (arith, uri, host, l);
      extra_hdrs = s;
    }

AreShort-parts :
    (lines : List (List ℕ))
    → AreShort lines
    → (length (first_line lines) + 9 ≤ maxline) × AreShort (other_lines lines)
AreShort-parts [] s = (omega arith, tt)
AreShort-parts (line ∷ lines) s = s

-- Short lines make short parts.
pub parse_request-IsShort :
    (lines : List (List ℕ)) (request : HttpRequest)
    → AreShort lines
    → parse_request lines ≡ some request
    → IsShort request
unfolding parse_request
parse_request-IsShort lines request s e =
    elim (Option-cases (parse_headers (other_lines lines) [])) [
      | inl n ↦ let no : none ≡ some request = rw (parse_request, n) at e in cc
      | inr (hdrs, h) ↦
          let (first, others) = AreShort-parts lines s in
          let e' : some (request_of (first_line lines) hdrs) ≡ some request =
            rw (parse_request, h) at e in
          let same : request_of (first_line lines) hdrs ≡ request = cc in
          subst IsShort same (
            request_of-IsShort (first_line lines) hdrs first
              (parse_headers-ShortHeaders (other_lines lines) [] hdrs others tt h))
    ]

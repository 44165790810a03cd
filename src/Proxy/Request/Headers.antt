-- ===== src/Proxy/Request/Headers.antt =====
-- Header lines by a grammar, and the loop over them.
use s_system_programmin.Common.{
  is_space, is_empty, ℕ, ◌≡◌, refl, sym, ap, ◌∙◌, Bool, true, false, ◌&&◌, ◌||◌, none, some, List,
  [], ◌∷◌, ◌++◌, inl, inr, Bool-cases, append-nil, append_assoc, if◌then◌else◌, same_string, arith,
  codes, all, all-append,
}
use s_system_programmin.Proxy.Request.{
  not_colon, in_line, strtok, trim, HttpHeader, header_of, is_ignored, crlf, add_header,
  parse_headers,
}
use s_system_programmin.Proxy.Request.Scan.{is_empty-append, strtok_token, is_neat, trim-neat}

-- A key without colons, and a value on one line, neither with space around it.
abbrev pub is_header : HttpHeader → Bool
is_header hdr =
    (is_neat hdr.key && all not_colon hdr.key) && (is_neat hdr.value && all in_line hdr.value)

abbrev pub is_blank : ℕ → Bool
is_blank c = is_space c && in_line c

abbrev pub header_line : HttpHeader → (before after : List ℕ) → List ℕ
header_line hdr before after = hdr.key ++ (b':' ∷ ((before ++ (hdr.value ++ after)) ++ crlf))

-- Lines that spell headers: one line each, with blanks around the value.
pub data Lines : List HttpHeader → List (List ℕ) → Type 0 where
  no_lines : Lines [] []
  header_of_lines :
      {hdrs : List HttpHeader} {lines : List (List ℕ)} (hdr : HttpHeader) (before after : List ℕ)
      → is_header hdr ≡ true
      → all is_blank before ≡ true
      → all is_blank after ≡ true
      → Lines hdrs lines
      → Lines (hdr ∷ hdrs) (header_line hdr before after ∷ lines)

-- The headers that the proxy sends itself, and those of the client that are left.
abbrev pub own_keys : List (List ℕ)
own_keys = codes "Host" ∷ codes "User-Agent" ∷ codes "Connection" ∷ codes "Proxy-Connection" ∷ []

abbrev pub one_of : List ℕ → List (List ℕ) → Bool
one_of key [] = false
one_of key (k ∷ keys) = same_string key k || one_of key keys

abbrev pub kept_headers : List HttpHeader → List HttpHeader
kept_headers [] = []
kept_headers (hdr ∷ hdrs) =
    let rest = kept_headers hdrs in if one_of hdr.key own_keys then rest else hdr ∷ rest

value_text : (hdr : HttpHeader) (before after : List ℕ) → List ℕ
value_text hdr before after = before ++ (hdr.value ++ after)

all-blank :
    (xs : List ℕ) → all is_blank xs ≡ true → (all is_space xs ≡ true) × (all in_line xs ≡ true)
all-blank [] a = (refl, refl)
all-blank (x ∷ xs) a = ground (arith, all-blank xs (ground arith))

header_of-parts :
    (buf key rest value more : List ℕ)
    → strtok not_colon buf ≡ some (key, rest)
    → strtok in_line rest ≡ some (value, more)
    → header_of buf ≡ some (record { key = trim key; value = trim value })
unfolding header_of
header_of-parts buf key rest value more e e' = rw (header_of, e, e') refl

is_neat_not_empty : (xs : List ℕ) → is_neat xs ≡ true → is_empty xs ≡ false
is_neat_not_empty [] n = cc
is_neat_not_empty (x ∷ xs) n = refl

value_text_not_empty :
    (before value after : List ℕ)
    → is_neat value ≡ true
    → is_empty (before ++ (value ++ after)) ≡ false
value_text_not_empty [] value after n = is_empty-append value after (is_neat_not_empty value n)
value_text_not_empty (x ∷ before) value after n = refl

trim_neat : (text : List ℕ) → is_neat text ≡ true → trim text ≡ text
trim_neat text n = ap trim (sym (append-nil text)) ∙ trim-neat [] text [] refl n refl

pub header_of_line :
    (hdr : HttpHeader) (before after : List ℕ)
    → is_header hdr ≡ true
    → all is_blank before ≡ true
    → all is_blank after ≡ true
    → header_of (header_line hdr before after) ≡ some hdr
header_of_line hdr before after i b a =
    let value = before ++ (hdr.value ++ after) in
    let key_neat : is_neat hdr.key ≡ true = ground arith in
    let value_neat : is_neat hdr.value ≡ true = ground arith in
    let line : all in_line value ≡ true = ground (
      arith,
      all-append in_line before (hdr.value ++ after),
      all-append in_line hdr.value after,
      all-blank before b,
      all-blank after a,
    ) in
    let parts =
      header_of-parts (header_line hdr before after) hdr.key (value ++ crlf) value (10 ∷ [])
        (strtok_token not_colon hdr.key b':' (value ++ crlf) (is_neat_not_empty hdr.key key_neat)
          (ground arith) refl)
        (strtok_token in_line value b'\r' (10 ∷ [])
          (value_text_not_empty before hdr.value after value_neat) line refl) in
    rw
      (
        parts,
        trim_neat hdr.key key_neat,
        trim-neat before hdr.value after (all-blank before b).0 value_neat (all-blank after a).0,
      )
      refl

not_crlf : (key rest : List ℕ) → is_neat key ≡ true → same_string (key ++ rest) crlf ≡ false
not_crlf [] rest n = cc
not_crlf (x ∷ xs) rest n = ground arith

pub parse_headers-step :
    (buf : List ℕ) (lines : List (List ℕ)) (acc : List HttpHeader) (hdr : HttpHeader)
    → same_string buf crlf ≡ false
    → header_of buf ≡ some hdr
    → parse_headers (buf ∷ lines) acc ≡ parse_headers lines (add_header hdr acc)
unfolding parse_headers
parse_headers-step buf lines acc hdr n e = rw (n, e) refl

is_ignored-one_of : (key : List ℕ) → is_ignored key ≡ one_of key own_keys
unfolding is_ignored
is_ignored-one_of key = ground arith

kept_headers_add :
    (hdr : HttpHeader) (hdrs acc : List HttpHeader)
    → add_header hdr acc ++ kept_headers hdrs ≡ acc ++ kept_headers (hdr ∷ hdrs)
kept_headers_add hdr hdrs acc = elim (Bool-cases (is_ignored hdr.key)) [
  | inl e ↦
      let own : one_of hdr.key own_keys ≡ true = sym (is_ignored-one_of hdr.key) ∙ e in
      rw (e, own) refl
  | inr e ↦
      let own : one_of hdr.key own_keys ≡ false = sym (is_ignored-one_of hdr.key) ∙ e in
      rw (e, own) (append_assoc acc (hdr ∷ []) (kept_headers hdrs))
]

-- The loop reads the headers that the lines spell.
pub parse_headers-Lines :
    (hdrs acc : List HttpHeader) (lines rest : List (List ℕ))
    → Lines hdrs lines
    → parse_headers (lines ++ rest) acc ≡ parse_headers rest (acc ++ kept_headers hdrs)
parse_headers-Lines _ acc _ rest no_lines = rw (append-nil acc) refl
parse_headers-Lines _ acc _ rest (header_of_lines {hdrs} {lines} hdr before after i b a more) =
    let text = b':' ∷ ((before ++ (hdr.value ++ after)) ++ crlf) in
    parse_headers-step (header_line hdr before after) (lines ++ rest) acc hdr
      (not_crlf hdr.key text (ground arith)) (header_of_line hdr before after i b a)
    ∙ parse_headers-Lines hdrs (add_header hdr acc) lines rest more
    ∙ ap (parse_headers rest) (kept_headers_add hdr hdrs acc)

-- The loop ends at an empty line or at the end of the file.
abbrev pub IsEnd : List (List ℕ) → Type 0
IsEnd [] = Unit
IsEnd (line ∷ unread) = line ≡ crlf

pub parse_headers-IsEnd :
    (rest : List (List ℕ)) (acc : List HttpHeader) → IsEnd rest → parse_headers rest acc ≡ some acc
unfolding parse_headers
parse_headers-IsEnd [] acc e = refl
parse_headers-IsEnd (line ∷ unread) acc e = rw e refl

strtok-crlf : strtok in_line crlf ≡ none
unfolding strtok
strtok-crlf = refl

-- A key with nothing behind its colon
pub parse_headers_no_value :
    (key : List ℕ) (more : List (List ℕ)) (acc : List HttpHeader)
    → is_neat key ≡ true
    → all not_colon key ≡ true
    → parse_headers ((key ++ (b':' ∷ crlf)) ∷ more) acc ≡ none
unfolding parse_headers header_of
parse_headers_no_value key more acc n a =
    let token = strtok_token not_colon key b':' crlf (is_neat_not_empty key n) a refl in
    let none_left : strtok in_line crlf ≡ none = strtok-crlf in
    rw (not_crlf key (b':' ∷ crlf) n, token, none_left) refl

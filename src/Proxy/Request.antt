-- ===== src/Proxy/Request.antt =====
-- `parse_request` and `trim` of Lab/lab5/proxylab-handout/proxy.c, with what they use of `sscanf`,
-- `strtok` and `isspace`. A line is the string that `Rio_readlineb` leaves in its buffer, a list of
-- bytes other than 0; the lines that a client sends, up to the end of the file, are an argument, and
-- so the errors that make the Rio functions exit are left out. The linked list of headers is a List.
pub mod Lengths
pub mod Grammar
mod Tests
pub mod Scan
pub mod Url
pub mod Headers
use s_system_programmin.Common.{
  ℕ, ◌-◌, Bool, true, false, not, ◌&&◌, ◌||◌, Option, none, some, List, [], ◌∷◌, ◌++◌, leb, ◌==◌,
  if◌then◌else◌, same_string, codes, take_while, drop_while, is_space, no_space, is_empty,
  scan_word, behind_word,
}

abbrev pub maxline : ℕ
maxline = 8192

abbrev pub newline : ℕ
newline = b'\n'

abbrev pub carriage_return : ℕ
carriage_return = b'\r'

abbrev pub not_slash : ℕ → Bool
not_slash c = not (c == b'/')

abbrev pub not_colon : ℕ → Bool
not_colon c = not (c == b':')

-- Whether a byte ends a line.
abbrev pub ends_line : ℕ → Bool
ends_line c = (c == carriage_return) || (c == newline)

abbrev pub in_line : ℕ → Bool
in_line c = not (ends_line c)

abbrev pub strip_prefix : List ℕ → List ℕ → Option (List ℕ)
strip_prefix [] ys = some ys
strip_prefix (x ∷ xs) [] = none
strip_prefix (x ∷ xs) (y ∷ ys) = let rest = strip_prefix xs ys in if x == y then rest else none

-- `sscanf(buf, "%*s %s %*s", request.uri)`
pub scan_uri : List ℕ → List ℕ
scan_uri buf = scan_word (behind_word buf)

-- `sscanf(request.uri, "http://%[^/]%s", request.host, request.path)`
pub scan_host_path : List ℕ → List ℕ × List ℕ
scan_host_path uri = elim (strip_prefix (codes "http://") uri) [
  | none ↦ ([], [])
  | some rest ↦
      let host = take_while not_slash rest in
      if is_empty host then ([], []) else (host, scan_word (drop_while not_slash rest))
]

-- The `:%s` of the next pattern
abbrev pub scan_port : List ℕ → List ℕ
scan_port [] = []
scan_port (c ∷ rest) = if c == b':' then scan_word rest else []

-- `sscanf(request.host, "%[^:]:%s", request.hostname, request.port)`
pub scan_hostname_port : List ℕ → List ℕ × List ℕ
scan_hostname_port host =
    let hostname = take_while not_colon host in
    if is_empty hostname then ([], []) else (hostname, scan_port (drop_while not_colon host))

abbrev pub or_default : (default text : List ℕ) → List ℕ
or_default default text = if is_empty text then default else text

abbrev pub drop_first : List ℕ → List ℕ
drop_first [] = []
drop_first (x ∷ xs) = xs

-- `strtok`, with the test for a byte that is not a delimiter: the token, or NULL, and the place
-- where the next call starts.
pub strtok : (ℕ → Bool) → List ℕ → Option (List ℕ × List ℕ)
strtok p s = elim (drop_while (λ c. not (p c)) s) [
  | [] ↦ none
  | x ∷ xs ↦ some (take_while p (x ∷ xs), drop_first (drop_while p (x ∷ xs)))
]

-- The loop of `trim` from the end, on the bytes behind `str`
pub trim_end : List ℕ → List ℕ
trim_end [] = []
trim_end (x ∷ xs) = let rest = trim_end xs in if is_space x && is_empty rest then [] else x ∷ rest

abbrev pub trim_rest : List ℕ → List ℕ
trim_rest [] = []
trim_rest (x ∷ xs) = x ∷ trim_end xs

pub trim : List ℕ → List ℕ
trim s = trim_rest (drop_while is_space s)

pub record HttpHeader : Type 0 where
  pub key : List ℕ
  pub value : List ℕ

pub record HttpRequest : Type 0 where
  pub uri : List ℕ
  pub path : List ℕ
  pub host : List ℕ
  pub hostname : List ℕ
  pub port : List ℕ
  pub extra_hdrs : List HttpHeader

-- The key and the value of a line; `none` is a call of `trim` with NULL, which is no address.
pub header_of : List ℕ → Option HttpHeader
header_of buf = elim (strtok not_colon buf) [
  | none ↦ none
  | some (key, rest) ↦ elim (strtok in_line rest) [
    | none ↦ none
    | some (value, _) ↦ some (record { key = trim key; value = trim value })
  ]
]

pub is_ignored : List ℕ → Bool
is_ignored key =
    same_string key (codes "Host")
    || same_string key (codes "User-Agent")
    || same_string key (codes "Connection")
    || same_string key (codes "Proxy-Connection")

abbrev pub crlf : List ℕ
crlf = carriage_return ∷ newline ∷ []

abbrev pub add_header : HttpHeader → List HttpHeader → List HttpHeader
add_header hdr hdrs = if is_ignored hdr.key then hdrs else hdrs ++ (hdr ∷ [])

-- The loop over the lines behind the first one; `none` is the access to NULL.
pub parse_headers : (lines : List (List ℕ)) → List HttpHeader → Option (List HttpHeader)
parse_headers [] hdrs = some hdrs
parse_headers (buf ∷ lines) hdrs =
    let rest : Option (List HttpHeader) = elim (header_of buf) [
      | none ↦ none
      | some hdr ↦ parse_headers lines (add_header hdr hdrs)
    ] in
    if same_string buf crlf then some hdrs else rest

-- The request without headers that the first line makes
pub request_of : List ℕ → List HttpHeader → HttpRequest
request_of buf hdrs =
    let uri = scan_uri buf in
    let (host, path) = scan_host_path uri in
    let (hostname, port) = scan_hostname_port host in
    record {
      uri = uri;
      path = or_default (codes "/") path;
      host = host;
      hostname = hostname;
      port = or_default (codes "80") port;
      extra_hdrs = hdrs;
    }

abbrev pub first_line : List (List ℕ) → List ℕ
first_line [] = []
first_line (buf ∷ lines) = buf

abbrev pub other_lines : List (List ℕ) → List (List ℕ)
other_lines [] = []
other_lines (buf ∷ lines) = lines

pub parse_request : (lines : List (List ℕ)) → Option HttpRequest
parse_request lines = elim (parse_headers (other_lines lines) []) [
  | none ↦ none
  | some hdrs ↦ some (request_of (first_line lines) hdrs)
]

-- ===== src/Proxy/Forward/Sent.antt =====
-- The bytes that a server is sent.
use s_system_programmin.Common.{
  no_space, is_empty, ℕ, ◌<◌, ◌≡◌, refl, sym, ap, subst, ◌∙◌, true, false, Bool-cases, append_assoc,
  append-nil, inl, inr, some, List, [], ◌∷◌, ◌++◌, ltb, arith, length, length-append, all, codes,
  map,
}
use s_system_programmin.Proxy.Request.{
  in_line, crlf, HttpHeader, HttpRequest, other_lines, parse_request,
}
use s_system_programmin.Proxy.Forward.{
  maxline, request_line_of, host_line_of, header_line_of, lines_of, write_lines, forward_request,
}
use s_system_programmin.Proxy.Forward.Relayed.{joined}
use s_system_programmin.Proxy.Request.Scan.{last_of, is_neat}
use s_system_programmin.Proxy.Request.Url.{
  Url, IsUrl, is_part, request_line, host_text, path_or_root, host_text-no_space,
  host_text_not_empty,
}
use s_system_programmin.Proxy.Request.Headers.{
  Lines, no_lines, header_of_lines, header_line, is_header, IsEnd, kept_headers, one_of, own_keys,
}
use s_system_programmin.Proxy.Request.Grammar.{requested, parse_request-Requested}
use s_system_programmin.Proxy.Request.Lengths.{
  AreShort, ShortHeaders, IsShort, parse_request-IsShort,
}

AllFit : List (List ℕ) → Type 0
AllFit [] = Unit
AllFit (line ∷ lines) = (length line < maxline) × AllFit lines

write_lines-AllFit :
    (lines : List (List ℕ)) → AllFit lines → write_lines lines ≡ some (joined lines ++ crlf)
unfolding write_lines AllFit
write_lines-AllFit [] f = refl
write_lines-AllFit (line ∷ lines) (f, fs) =
    let fits : ltb (length line) maxline ≡ true = ground arith in
    rw (fits, write_lines-AllFit lines fs) (ap some (sym (append_assoc line (joined lines) crlf)))

headers-AllFit : (hdrs : List HttpHeader) → ShortHeaders hdrs → AllFit (map header_line_of hdrs)
unfolding AllFit header_line_of
headers-AllFit [] s = tt
headers-AllFit (hdr ∷ hdrs) (l, s) = (
  omega (
    arith,
    length-append hdr.key (codes ": " ++ (hdr.value ++ crlf)),
    length-append hdr.value crlf,
    l,
  ),
  headers-AllFit hdrs s,
)

lines_of-AllFit : (request : HttpRequest) → IsShort request → AllFit (lines_of request)
unfolding AllFit lines_of request_line_of host_line_of
lines_of-AllFit request s = (
  omega (arith, length-append request.path (codes " HTTP/1.0" ++ crlf), s.path),
  (
    omega (arith, length-append request.host crlf, s.host),
    (ground arith, (ground arith, (ground arith, headers-AllFit request.extra_hdrs s.extra_hdrs))),
  ),
)

-- If every line of the client is shorter than MAXLINE by nine bytes at least, its 0 included, all
-- lines for the server fit into their buffer, and the server is sent them in their order and an
-- empty line.
pub forward_request-lines_of :
    (lines : List (List ℕ)) (request : HttpRequest)
    → AreShort lines
    → parse_request lines ≡ some request
    → forward_request request ≡ some (joined (lines_of request) ++ crlf)
unfolding forward_request
forward_request-lines_of lines request s e =
    write_lines-AllFit (lines_of request)
      (lines_of-AllFit request (parse_request-IsShort lines request s e))

-- The headers that the server gets
abbrev pub sent_headers : Url → List HttpHeader → List HttpHeader
sent_headers u hdrs =
    record { key = codes "Host"; value = host_text u }
    ∷ record {
      key = codes "User-Agent";
      value = codes "Mozilla/5.0 (X11; Linux x86_64; rv:10.0.3) Gecko/20120305 Firefox/10.0.3";
    }
    ∷ record { key = codes "Connection"; value = codes "close" }
    ∷ record { key = codes "Proxy-Connection"; value = codes "close" }
    ∷ kept_headers hdrs

all-no_space-in_line : (xs : List ℕ) → all no_space xs ≡ true → all in_line xs ≡ true
all-no_space-in_line [] a = refl
all-no_space-in_line (x ∷ xs) a = ground (arith, all-no_space-in_line xs (ground arith))

last_of-no_space :
    (x : ℕ) (xs : List ℕ) → all no_space (x ∷ xs) ≡ true → no_space (last_of x xs) ≡ true
last_of-no_space x [] a = ground arith
last_of-no_space x (y ∷ ys) a = last_of-no_space y ys (ground arith)

is_neat-no_space : (xs : List ℕ) → is_empty xs ≡ false → all no_space xs ≡ true → is_neat xs ≡ true
is_neat-no_space [] n a = cc
is_neat-no_space (x ∷ xs) n a = ground (arith, last_of-no_space x xs a)

sent_line-Lines :
    (hdr : HttpHeader) (hdrs : List HttpHeader) (lines : List (List ℕ))
    → is_header hdr ≡ true
    → Lines hdrs lines
    → Lines (hdr ∷ hdrs) (header_line_of hdr ∷ lines)
unfolding header_line_of
sent_line-Lines hdr hdrs lines i more =
    let same : header_line hdr (32 ∷ []) [] ≡ header_line_of hdr =
      ap (λ value. hdr.key ++ (b':' ∷ 32 ∷ (value ++ crlf))) (append-nil hdr.value) in
    subst (λ line. Lines (hdr ∷ hdrs) (line ∷ lines)) same
      (header_of_lines hdr (32 ∷ []) [] i refl refl more)

kept-Lines :
    (hdrs : List HttpHeader) (lines : List (List ℕ))
    → Lines hdrs lines
    → Lines (kept_headers hdrs) (map header_line_of (kept_headers hdrs))
unfolding header_line_of
kept-Lines _ _ no_lines = no_lines
kept-Lines _ _ (header_of_lines {hdrs} {lines} hdr before after i b a more) =
    elim (Bool-cases (one_of hdr.key own_keys)) [
      | inl e ↦ rw e (kept-Lines hdrs lines more)
      | inr e ↦ rw e (sent_line-Lines hdr (kept_headers hdrs) _ i (kept-Lines hdrs lines more))
    ]

sent-Lines :
    (u : Url) (hdrs : List HttpHeader) (lines : List (List ℕ))
    → IsUrl u
    → Lines hdrs lines
    → Lines (sent_headers u hdrs) (other_lines (lines_of (requested u hdrs)))
unfolding lines_of host_line_of header_line_of
sent-Lines u hdrs lines i l =
    let no_spaces = host_text-no_space u i in
    let value = host_text u in
    let neat = is_neat-no_space value (host_text_not_empty u i) no_spaces in
    let host : is_header (record { key = codes "Host"; value = value }) ≡ true =
      ground (arith, neat, all-no_space-in_line value no_spaces) in
    sent_line-Lines _ _ _ host (
      sent_line-Lines _ _ _ refl
        (sent_line-Lines _ _ _ refl (sent_line-Lines _ _ _ refl (kept-Lines hdrs lines l))))

-- A client's request for a URL, in lines that are shorter than MAXLINE by nine bytes at least, makes
-- the proxy send the server a GET of the path, or of "/", by HTTP/1.0, whose header lines spell the
-- host of the URL, the proxy's own User-Agent, Connection and Proxy-Connection, and behind them in
-- their order the client's headers that are none of these four; and an empty line.
pub forward_request-Lines :
    (method version : List ℕ) (u : Url) (hdrs : List HttpHeader) (lines rest : List (List ℕ))
    → is_part no_space method ≡ true
    → IsUrl u
    → Lines hdrs lines
    → IsEnd rest
    → AreShort (request_line method u version ∷ lines ++ rest)
    → (request : HttpRequest) × (sent : List (List ℕ)) × (parse_request
          (request_line method u version ∷ lines ++ rest)
        ≡ some request)
      × (forward_request request
          ≡ some (
              (codes "GET " ++ (path_or_root u.path ++ (codes " HTTP/1.0" ++ crlf)))
              ++ (joined sent ++ crlf)))
      × Lines (sent_headers u hdrs) sent
unfolding request_line_of lines_of
forward_request-Lines method version u hdrs lines rest m i l e s =
    let request = requested u hdrs in
    let parsed = parse_request-Requested method version u hdrs lines rest m i l e in
    (
      request,
      other_lines (lines_of request),
      parsed,
      forward_request-lines_of _ request s parsed
          ∙ ap some (append_assoc (request_line_of request) _ crlf),
      sent-Lines u hdrs lines i l,
    )

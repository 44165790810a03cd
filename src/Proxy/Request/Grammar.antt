-- ===== src/Proxy/Request/Grammar.antt =====
-- Whole requests by a grammar, and `parse_request` on them.
use s_system_programmin.Common.{
  no_space, ℕ, ◌≡◌, refl, ap, ◌∙◌, true, none, some, List, [], ◌∷◌, ◌++◌, all,
}
use s_system_programmin.Proxy.Request.{not_colon, HttpHeader, HttpRequest, crlf, parse_request}
use s_system_programmin.Proxy.Request.Url.{
  Url, IsUrl, is_part, request_line, url_text, host_text, port_or_80, path_or_root, request_of_url,
}
use s_system_programmin.Proxy.Request.Headers.{
  Lines, IsEnd, kept_headers, parse_headers-Lines, parse_headers-IsEnd, parse_headers_no_value,
}
use s_system_programmin.Proxy.Request.Scan.{is_neat}

-- What is asked for.
abbrev pub requested : Url → List HttpHeader → HttpRequest
requested u hdrs = record {
  uri = url_text u;
  path = path_or_root u.path;
  host = host_text u;
  hostname = u.hostname;
  port = port_or_80 u.port;
  extra_hdrs = kept_headers hdrs;
}

-- `parse_request` on the lines of a request for a URL returns that request: the URL itself, its
-- host, the host's name, the port or "80", the path or "/", and in their order the headers, without
-- spaces around their values, whose key is none of Host, User-Agent, Connection, Proxy-Connection.
pub parse_request-Requested :
    (method version : List ℕ) (u : Url) (hdrs : List HttpHeader) (lines rest : List (List ℕ))
    → is_part no_space method ≡ true
    → IsUrl u
    → Lines hdrs lines
    → IsEnd rest
    → parse_request (request_line method u version ∷ lines ++ rest) ≡ some (requested u hdrs)
unfolding parse_request
parse_request-Requested method version u hdrs lines rest m i h e =
    let read =
      parse_headers-Lines hdrs [] lines rest h ∙ parse_headers-IsEnd rest (kept_headers hdrs) e in
    rw (parse_request, read) (ap some (request_of_url method version u (kept_headers hdrs) m i))

-- A header line without a value, "Key:", behind header lines that have one makes `parse_request` call
-- `trim` with NULL, whatever follows.
pub parse_request_no_value :
    (first key : List ℕ) (hdrs : List HttpHeader) (lines more : List (List ℕ))
    → Lines hdrs lines
    → is_neat key ≡ true
    → all not_colon key ≡ true
    → parse_request (first ∷ lines ++ ((key ++ (b':' ∷ crlf)) ∷ more)) ≡ none
unfolding parse_request
parse_request_no_value first key hdrs lines more h n a =
    let rest = (key ++ (b':' ∷ crlf)) ∷ more in
    let fails =
      parse_headers-Lines hdrs [] lines rest h
      ∙ parse_headers_no_value key more (kept_headers hdrs) n a in
    rw (parse_request, fails) refl

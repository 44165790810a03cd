-- ===== src/Proxy/Request/Tests.antt =====
-- The request parser on "GET http://a.b:81/x HTTP/1.0" with two headers, and on other texts.
use s_system_programmin.Common.{ℕ, ◌≡◌, refl, none, some, List, [], ◌∷◌, ◌++◌, codes}
use s_system_programmin.Proxy.Request.{
  crlf, scan_uri, scan_host_path, scan_hostname_port, strtok, trim_end, trim, header_of, HttpHeader,
  parse_headers, request_of, parse_request,
}
use s_system_programmin.Proxy.Request.Url.{Url, IsUrl, request_line}
use s_system_programmin.Proxy.Request.Headers.{Lines, no_lines, header_of_lines}
use s_system_programmin.Proxy.Request.Grammar.{
  requested, parse_request-Requested, parse_request_no_value,
}

abbrev a_url : Url
a_url = record { hostname = codes "a.b"; port = some (codes "81"); path = codes "/x" }

a_url-IsUrl : IsUrl a_url
a_url-IsUrl = record { hostname = refl; port = refl; path = (refl, refl) }

abbrev accept_header : HttpHeader
accept_header = record { key = codes "Accept"; value = codes "text/html, */*" }

abbrev two_headers : List HttpHeader
two_headers = record { key = codes "Host"; value = codes "a.b" } ∷ accept_header ∷ []

abbrev two_lines : List (List ℕ)
two_lines = (codes "Host: a.b" ++ crlf) ∷ (codes "Accept:  text/html, */* " ++ crlf) ∷ []

two_lines-Lines : Lines two_headers two_lines
two_lines-Lines =
    header_of_lines _ (codes " ") [] refl refl refl
      (header_of_lines accept_header (codes "  ") (codes " ") refl refl refl no_lines)

parse_request-Requested_example :
    parse_request
      (request_line (codes "GET") a_url (codes "HTTP/1.0" ++ crlf) ∷ two_lines ++ (crlf ∷ []))
    ≡ some (requested a_url two_headers)
parse_request-Requested_example =
    parse_request-Requested (codes "GET") (codes "HTTP/1.0" ++ crlf) a_url two_headers two_lines
      (crlf ∷ []) refl a_url-IsUrl two_lines-Lines refl

parse_request_no_value_example :
    parse_request (codes "GET http://a.b/" ∷ two_lines ++ (codes "Accept:\r\n" ∷ crlf ∷ [])) ≡ none
parse_request_no_value_example =
    parse_request_no_value (codes "GET http://a.b/") (codes "Accept") two_headers two_lines
      (crlf ∷ []) two_lines-Lines refl refl

-- No scheme, no port, no path; and no bytes at all.
no_scheme : scan_host_path (codes "a.b/x") ≡ ([], [])
unfolding scan_host_path
no_scheme = refl

no_bytes :
    parse_request []
    ≡ some (record {
      uri = [];
      path = codes "/";
      host = [];
      hostname = [];
      port = codes "80";
      extra_hdrs = [];
    })
unfolding parse_request parse_headers request_of scan_uri scan_host_path scan_hostname_port
no_bytes = refl

trim_tabs : trim (codes " \t a b \r\n") ≡ codes "a b"
unfolding trim trim_end
trim_tabs = refl

no_colon : header_of (codes "Accept\r\n") ≡ none
unfolding header_of strtok
no_colon = refl

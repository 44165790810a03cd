-- ===== src/Proxy/Forward/Tests.antt =====
-- Threads of the proxy on an empty cache and a server that answers with the path.
use s_system_programmin.Common.{ℕ, ◌≡◌, refl, false, none, some, List, [], ◌∷◌, ◌++◌, codes, arith}
use s_system_programmin.Proxy.Cache.{Entry, Cache, cache_insert, cache_init, returns}
use s_system_programmin.Proxy.Cache.Lru.{Holds, cache_init-Holds}
use s_system_programmin.Proxy.Cache.Lru.Insert.{Inserted, cache_insert-Inserted}
use s_system_programmin.Proxy.Request.{crlf, HttpHeader, HttpRequest, parse_request}
use s_system_programmin.Proxy.Request.Url.{Url, IsUrl, request_line}
use s_system_programmin.Proxy.Request.Headers.{Lines, no_lines, header_of_lines}
use s_system_programmin.Proxy.Request.Grammar.{requested, parse_request-Requested}
use s_system_programmin.Proxy.Forward.{
  Server, Thread, ended, waiting, forward_request, proxy_thread,
}
use s_system_programmin.Proxy.Forward.Relayed.{joined}
use s_system_programmin.Proxy.Forward.Sent.{
  sent_headers, forward_request-lines_of, forward_request-Lines,
}
use s_system_programmin.Proxy.Request.Lengths.{AreShort}
use s_system_programmin.Proxy.Forward.Threads.{
  Fetches, too_many, too_large, no_end, stored, proxy_thread-Fetches,
}
use s_system_programmin.Proxy.Forward.Reach.{Bounded, initial, thread, Reaches-Bounded}
use s_system_programmin.Proxy.Forward.Again.{proxy_thread-Again}

abbrev root_url : Url
root_url = record { hostname = codes "a.b"; port = none; path = [] }

root_url-IsUrl : IsUrl root_url
root_url-IsUrl = record { hostname = refl; port = tt; path = tt }

abbrev one_header : List HttpHeader
one_header = record { key = codes "Accept"; value = codes "text/html" } ∷ []

abbrev one_line : List (List ℕ)
one_line = (codes "Accept: text/html" ++ crlf) ∷ []

one_line-Lines : Lines one_header one_line
one_line-Lines = header_of_lines _ (codes " ") [] refl refl refl no_lines

abbrev first_of : List ℕ
first_of = request_line (codes "GET") root_url (codes "HTTP/1.0" ++ crlf)

forward_request-Lines_example :
    (request : HttpRequest) × (sent : List (List ℕ)) × (parse_request
        (first_of ∷ one_line ++ (crlf ∷ []))
      ≡ some request)
    × (forward_request request
        ≡ some
            ((codes "GET " ++ (codes "/" ++ (codes " HTTP/1.0" ++ crlf))) ++ (joined sent ++ crlf)))
    × Lines (sent_headers root_url one_header) sent
forward_request-Lines_example =
    forward_request-Lines (codes "GET") (codes "HTTP/1.0" ++ crlf) root_url one_header one_line
      (crlf ∷ []) refl root_url-IsUrl one_line-Lines refl
      (ground arith, (ground arith, (ground arith, tt)))

abbrev no_entry : ℕ → Entry
no_entry q = record { key = []; value = []; size = 0; prev = 0; next = 0 }

abbrev empty_cache : Cache
empty_cache = record { entry = no_entry; head = 0; tail = 0; cache_size = 0; locked = false }

empty_cache-Holds : Holds empty_cache []
empty_cache-Holds = record { seg = (refl, refl); distinct = tt; bytes = refl }

-- Answers in two pieces.
abbrev two_pieces : Server
two_pieces hostname port request = codes "HTTP/1.0 200 OK" ∷ hostname ∷ []

abbrev get_lines : List (List ℕ)
get_lines = first_of ∷ one_line ++ (crlf ∷ [])

get_lines-parsed : parse_request get_lines ≡ some (requested root_url one_header)
get_lines-parsed =
    parse_request-Requested (codes "GET") (codes "HTTP/1.0" ++ crlf) root_url one_header one_line
      (crlf ∷ []) refl root_url-IsUrl one_line-Lines refl

get_lines-AreShort : AreShort get_lines
get_lines-AreShort = (ground arith, (ground arith, (ground arith, tt)))

sent_bytes : (bytes : List ℕ) × (forward_request (requested root_url one_header) ≡ some bytes)
sent_bytes = (_, forward_request-lines_of get_lines _ get_lines-AreShort get_lines-parsed)

proxy_thread-Fetches_example :
    Fetches empty_cache [] 1
      (codes "http://a.b")
      (codes "HTTP/1.0 200 OKa.b")
      (proxy_thread two_pieces 1 1 get_lines empty_cache)
proxy_thread-Fetches_example =
    proxy_thread-Fetches two_pieces 1 1 get_lines (requested root_url one_header) sent_bytes.0
      empty_cache [] get_lines-parsed sent_bytes.1 refl empty_cache-Holds (λ x m. refl)
      (ground arith) (ground arith) refl

abbrev page : List ℕ
page = codes "HTTP/1.0 200 OKa.b"

with_page :
    (g : Cache) × (cache_insert 1 1 (codes "http://a.b") page 18 empty_cache ≡ returns g)
    × Inserted no_entry [] 1 (codes "http://a.b") page 18 g
with_page =
    cache_insert-Inserted 1 empty_cache [] 1 (codes "http://a.b") page 18 refl empty_cache-Holds
      (ground arith) (ground arith) refl

proxy_thread-Again_example :
    (h : Cache) × (proxy_thread two_pieces 2 2 get_lines with_page.0 ≡ ended h page)
    × (proxy_thread two_pieces 2 2 get_lines h ≡ waiting)
proxy_thread-Again_example =
    proxy_thread-Again two_pieces 2 2 get_lines (requested root_url one_header) get_lines
      (requested root_url one_header) empty_cache page [] 1 with_page.0 (ground arith) (λ x m. refl)
      refl refl with_page.2 get_lines-parsed get_lines-parsed (ground arith)

-- The cache behind the first thread
first_ended :
    {t : Thread}
    → Fetches (cache_init no_entry) [] 1 (codes "http://a.b") page t
    → (g : Cache) × (client : List ℕ) × (t ≡ ended g client)
first_ended (too_many l) = absurd (ground (arith, l))
first_ended (too_large l) = absurd (ground (arith, l))
first_ended (no_end l e) = absurd (ground (arith, l))
first_ended (stored {g} l s i) = (g, page, refl)

first_thread :
    (g : Cache) × (client : List ℕ) × (proxy_thread two_pieces 1 1 get_lines (cache_init no_entry)
      ≡ ended g client)
first_thread =
    let init = cache_init-Holds no_entry in
    first_ended (
      proxy_thread-Fetches two_pieces 1 1 get_lines (requested root_url one_header) sent_bytes.0
        (cache_init no_entry) [] get_lines-parsed sent_bytes.1 init.2 init.0 (λ x m. cc)
        (ground arith) (ground arith) refl)

Reaches-Bounded_example : Bounded first_thread.0
Reaches-Bounded_example = Reaches-Bounded two_pieces first_thread.0 (
    thread 1 1 get_lines (initial no_entry) (cache_init-Holds no_entry).0 (ground arith)
      (ground arith) refl first_thread.2)

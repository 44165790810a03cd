-- ===== src/Proxy/Forward.antt =====
-- `forward_request`, `forward_response`, `forward_cached_response` and `proxy_thread` of
-- Lab/lab5/proxylab-handout/proxy.c, with the cache as the threads that ended have left it. What a
-- thread writes is the sequence of the bytes that it gives to `Rio_writen`; the pieces that
-- `Rio_readnb` returns are an argument, and the server's answer a function of what it is sent. The
-- CS:APP functions end the process on an error; that is left out.
pub mod Relayed
pub mod Sent
pub mod Threads
pub mod Again
pub mod Reach
mod Tests
use s_system_programmin.Common.{
  ℕ, zero, suc, ◌+◌, ◌-◌, ◌^◌, Bool, true, false, Option, none, some, List, [], ◌∷◌, ◌++◌, map, ltb,
  leb, if◌then◌else◌, length, codes,
}
use s_system_programmin.Proxy.Cache.{
  c_string, Entry, Cache, Outcome, waits, out_of_fuel, returns, cache_find, cache_insert,
}
use s_system_programmin.Proxy.Request.{maxline, crlf, HttpHeader, HttpRequest, parse_request}

abbrev pub max_object_size : ℕ
max_object_size = 10970

abbrev pub user_agent_hdr : List ℕ
user_agent_hdr =
    codes "User-Agent: Mozilla/5.0 (X11; Linux x86_64; rv:10.0.3) Gecko/20120305 Firefox/10.0.3"
    ++ crlf

abbrev pub connection_hdr : List ℕ
connection_hdr = codes "Connection: close" ++ crlf

abbrev pub proxy_connection_hdr : List ℕ
proxy_connection_hdr = codes "Proxy-Connection: close" ++ crlf

pub request_line_of : HttpRequest → List ℕ
request_line_of request = codes "GET " ++ (request.path ++ (codes " HTTP/1.0" ++ crlf))

pub host_line_of : HttpRequest → List ℕ
host_line_of request = codes "Host: " ++ (request.host ++ crlf)

pub header_line_of : HttpHeader → List ℕ
header_line_of hdr = hdr.key ++ (codes ": " ++ (hdr.value ++ crlf))

-- The lines that `sprintf` makes, one after the other, each in `buf`
pub lines_of : HttpRequest → List (List ℕ)
lines_of request =
    request_line_of request
    ∷ host_line_of request
    ∷ user_agent_hdr
    ∷ connection_hdr
    ∷ proxy_connection_hdr
    ∷ map header_line_of request.extra_hdrs

-- `none` is a line that does not fit into `buf` with its 0.
pub write_lines : List (List ℕ) → Option (List ℕ)
write_lines [] = some crlf
write_lines (line ∷ lines) =
    let rest : Option (List ℕ) = elim (write_lines lines) [
      | none ↦ none
      | some bytes ↦ some (line ++ bytes)
    ] in
    if ltb (length line) maxline then rest else none

-- The bytes that the server is sent
pub forward_request : HttpRequest → Option (List ℕ)
forward_request request = write_lines (lines_of request)

-- The first `n` bytes
abbrev pub take : (n : ℕ) → List ℕ → List ℕ
take zero xs = []
take (suc n) [] = []
take (suc n) (x ∷ xs) = x ∷ take n xs

-- `body` without the zeros behind what was copied into it, and the bytes sent to the client. `size` is
-- an int in the source: `overflows` says that the exact sum is more than it can hold. What the source
-- does then, which may be a copy to a place in front of `body`, is not described further.
pub record Relay : Type 0 where
  pub size : ℕ
  pub overflows : Bool
  pub body : List ℕ
  pub written : List ℕ

-- The first number that an int cannot hold
abbrev pub int_end : ℕ
int_end = 2 ^ 31

pub relay_chunk : (buf : List ℕ) → Relay → Relay
relay_chunk buf r =
    let size = r.size + length buf in
    record {
      size = size;
      overflows = leb int_end size;
      body = if leb size max_object_size then take (size - length buf) r.body ++ buf else r.body;
      written = r.written ++ buf;
    }

-- The loop; `Rio_readnb` returns 0 at the end only.
pub relay : (chunks : List (List ℕ)) → Relay → Relay
relay [] r = r
relay (buf ∷ chunks) r = relay chunks (relay_chunk buf r)

abbrev pub empty_relay : Relay
empty_relay = record { size = 0; overflows = false; body = []; written = [] }

-- What a thread comes to: one of the ways of `Outcome`; an access to NULL; a line that is longer
-- than its buffer; a size that overflows; a read past the end of a string; or its end, with the bytes for the client.
pub data Thread : Type 0 where
  waiting : Thread
  stopped : Thread
  null_pointer : Thread
  overflow : Thread
  size_overflow : Thread
  over_read : Thread
  ended : Cache → (client : List ℕ) → Thread

abbrev pub inserted : (client : List ℕ) → Outcome Cache → Thread
inserted client waits = waiting
inserted client out_of_fuel = stopped
inserted client (returns c) = ended c client

-- The insertion behind the loop. `strdup` finds a 0 in `body` or reads past its end.
pub insert_body : (fuel p : ℕ) → (uri : List ℕ) → Relay → Cache → Thread
insert_body fuel p uri r c =
    if r.overflows
    then size_overflow
    else if leb r.size max_object_size
    then if ltb (length (c_string r.body)) max_object_size
      then inserted r.written (cache_insert fuel p uri r.body r.size c)
      else over_read
    else ended c r.written

pub forward_response : (fuel p : ℕ) → (uri : List ℕ) → (chunks : List (List ℕ)) → Cache → Thread
forward_response fuel p uri chunks c = insert_body fuel p uri (relay chunks empty_relay) c

-- `size` bytes from the start of a copied string, which ends behind its 0
pub forward_cached_response : Entry → Option (List ℕ)
forward_cached_response e =
    if leb e.size (length e.value + 1) then some (take e.size (e.value ++ (0 ∷ []))) else none

abbrev pub cached_response : Cache → Option (List ℕ) → Thread
cached_response c none = over_read
cached_response c (some client) = ended c client

-- A web server: the pieces of its answer, by its name, its port and the bytes of the request.
abbrev pub Server : Type 0
Server = (hostname port request : List ℕ) → List (List ℕ)

module _ (server : Server) (fuel p : ℕ) where
  fetched : HttpRequest → Cache → Option (List ℕ) → Thread
  fetched request c none = overflow
  fetched request c (some bytes) =
      forward_response fuel p request.uri (server request.hostname request.port bytes) c

  looked_up : HttpRequest → Outcome (Cache × ℕ) → Thread
  looked_up request waits = waiting
  looked_up request out_of_fuel = stopped
  looked_up request (returns (c, zero)) = fetched request c (forward_request request)
  looked_up request (returns (c, suc cached)) =
      cached_response c (forward_cached_response (c.entry (suc cached)))

  -- The thread on a parsed request
  pub serve : HttpRequest → Cache → Thread
  serve request c = looked_up request (cache_find fuel request.uri c)

  pub proxy_thread : (lines : List (List ℕ)) → Cache → Thread
  proxy_thread lines c = elim (parse_request lines) [
    | none ↦ null_pointer
    | some request ↦ serve request c
  ]

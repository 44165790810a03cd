-- ===== src/Proxy/Forward/Threads.antt =====
-- `proxy_thread` on the cache: what a miss and a hit answer, and what they leave behind.
use s_system_programmin.Common.{
  ℕ, ◌≤◌, ◌<◌, ◌≡◌, refl, sym, ◌∙◌, true, false, Bool-cases, inl, inr, some, List, [], ◌∷◌, leb,
  ltb, if◌then◌else◌, arith, length, all, has, same_string,
}
use s_system_programmin.Proxy.Cache.{c_string, Cache, Outcome, returns, cache_find, cache_insert}
use s_system_programmin.Proxy.Cache.Lru.{Holds}
use s_system_programmin.Proxy.Cache.Lru.Find.{Finds, misses, hits, cache_find-Finds}
use s_system_programmin.Proxy.Cache.Lru.Insert.{Inserted, cache_insert-Inserted}
use s_system_programmin.Proxy.Request.{HttpRequest, parse_request}
use s_system_programmin.Proxy.Forward.{
  Server, Thread, ended, size_overflow, over_read, int_end, Relay, relay, empty_relay,
  max_object_size, forward_request, insert_body, inserted, forward_response, fetched, looked_up,
  serve, proxy_thread,
}
use s_system_programmin.Proxy.Forward.Relayed.{joined, relay-joined}

-- No entry has the key.
abbrev pub Unknown : Cache → (key : List ℕ) → List ℕ → Type 0
Unknown c key xs = (x : ℕ) → has x xs ≡ true → same_string (c.entry x).key key ≡ false

-- A thread that gets a page from the server for a request that is not in the cache.
pub data Fetches (c : Cache) (xs : List ℕ) (p : ℕ) (uri page : List ℕ) : Thread → Type 0 where
  too_many : int_end ≤ length page → Fetches c xs p uri page size_overflow
  too_large :
      (max_object_size < length page) × (length page < int_end)
      → Fetches c xs p uri page (ended (record c { locked = false }) page)
  no_end :
      length page ≡ max_object_size
      → length (c_string page) ≡ max_object_size
      → Fetches c xs p uri page over_read
  stored :
      {g : Cache}
      → length page ≤ max_object_size
      → length (c_string page) < max_object_size
      → Inserted c.entry xs p uri page (length page) g
      → Fetches c xs p uri page (ended g page)

length-c_string : (xs : List ℕ) → length (c_string xs) ≤ length xs
length-c_string [] = omega arith
length-c_string (x ∷ xs) = ground (arith, length-c_string xs)

module _ (fuel p : ℕ) (uri : List ℕ) (c : Cache) (xs : List ℕ) (hold : Holds c xs)
    (f : length xs < fuel) (live : 0 < p) (out : has p xs ≡ false) where
  abbrev free_cache : Cache
  free_cache = record c { locked = false }

  insert_small :
      (page : List ℕ)
      → length page ≤ max_object_size
      → Fetches c xs p uri page (
          if ltb (length (c_string page)) max_object_size
          then inserted page (cache_insert fuel p uri page (length page) free_cache)
          else over_read)
  insert_small page small = elim (Bool-cases (ltb (length (c_string page)) max_object_size)) [
    | inl e ↦
        let hold' : Holds free_cache xs = record {
          seg = hold.seg;
          distinct = hold.distinct;
          bytes = hold.bytes;
        } in
        let (g, e', i) =
          cache_insert-Inserted fuel free_cache xs p uri page (length page) refl hold' f live out in
        rw (e, e') (stored small (ground (arith, e)) i)
    | inr e ↦
        let l = length-c_string page in
        rw e (no_end (ground (arith, e, l, small)) (ground (arith, e, l, small)))
  ]

  insert_body-Fetches :
      (r : Relay) (page : List ℕ)
      → r.size ≡ length page
      → r.overflows ≡ leb int_end (length page)
      → r.written ≡ page
      → ((length page ≤ max_object_size) → r.body ≡ page)
      → Fetches c xs p uri page (insert_body fuel p uri r free_cache)
  unfolding insert_body
  insert_body-Fetches r page s o w b = elim (Bool-cases (leb int_end (length page))) [
    | inl e ↦ rw (o, e) (too_many (ground (arith, e)))
    | inr i ↦ elim (Bool-cases (leb (length page) max_object_size)) [
      | inl e ↦
          let body = b (ground (arith, e)) in
          rw (o, i, s, e, w, body) (insert_small page (ground (arith, e)))
      | inr e ↦ rw (o, i, s, e, w) (too_large (ground (arith, e), ground (arith, i)))
    ]
  ]

  pub forward_response-Fetches :
      (chunks : List (List ℕ))
      → Fetches c xs p uri (joined chunks) (forward_response fuel p uri chunks free_cache)
  unfolding forward_response
  forward_response-Fetches chunks =
      let (size, overflows, written, body) = relay-joined chunks in
      insert_body-Fetches (relay chunks empty_relay) (joined chunks) size overflows written body

miss_of :
    (c : Cache) (key xs : List ℕ) (o : Outcome (Cache × ℕ))
    → Unknown c key xs
    → Finds c key xs o
    → o ≡ returns (record c { locked = false }, 0)
miss_of c key xs _ u (misses all) = refl
miss_of c key xs _ u (hits {x = x} m k _ _ _) = let no : false ≡ true = sym (u x m) ∙ k in cc

-- A thread on a request that the cache does not know, behind the writing of the request. If the page
-- has 2 ^ 31 bytes or more, `size` overflows. Otherwise it goes to the client as the server sent it: if it
-- has more than MAX_OBJECT_SIZE bytes, the cache stays as it is but for the mutex, which is free; if
-- not, it is inserted, except that exactly MAX_OBJECT_SIZE bytes without a 0 are copied past the end
-- of `body`.
pub proxy_thread-Fetches :
    (server : Server) (fuel p : ℕ) (lines : List (List ℕ)) (request : HttpRequest) (bytes : List ℕ)
    (c : Cache) (xs : List ℕ)
    → parse_request lines ≡ some request
    → forward_request request ≡ some bytes
    → c.locked ≡ false
    → Holds c xs
    → Unknown c request.uri xs
    → length xs < fuel
    → 0 < p
    → has p xs ≡ false
    → Fetches c xs p request.uri
        (joined (server request.hostname request.port bytes))
        (proxy_thread server fuel p lines c)
unfolding proxy_thread serve looked_up fetched
proxy_thread-Fetches server fuel p lines request bytes c xs parsed sent l hold u f live out =
    let missed =
      miss_of c request.uri xs (cache_find fuel request.uri c) u
        (cache_find-Finds fuel request.uri c xs l hold f) in
    rw (proxy_thread, parsed, missed, sent)
      (forward_response-Fetches fuel p request.uri c xs hold f live out
        (server request.hostname request.port bytes))

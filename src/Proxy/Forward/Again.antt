-- ===== src/Proxy/Forward/Again.antt =====
-- A page that a thread has inserted, in the threads behind it.
use s_system_programmin.Common.{
  ℕ, zero, suc, ◌+◌, ◌<◌, ◌≡◌, refl, sym, ap, ◌∙◌, Bool, true, false, not, Bool-cases, inl, inr,
  some, List, [], ◌∷◌, leb, ◌==◌, arith, length, length-append, all, has, same_string,
}
use s_system_programmin.Proxy.Cache.{c_string, Entry, Cache, Outcome, returns, cache_find}
use s_system_programmin.Proxy.Cache.Links.{has-append}
use s_system_programmin.Proxy.Cache.Lru.Find.{
  Finds, misses, hits, cache_find-Finds, cache_find_locked,
}
use s_system_programmin.Proxy.Cache.Lru.Insert.{Inserted}
use s_system_programmin.Proxy.Request.{HttpRequest, parse_request}
use s_system_programmin.Proxy.Forward.{
  Server, ended, waiting, forward_cached_response, cached_response, looked_up, serve, proxy_thread,
}
use s_system_programmin.Proxy.Forward.Relayed.{take-append}
use s_system_programmin.Proxy.Forward.Threads.{Unknown}

-- A string has no 0.
abbrev pub is_string : List ℕ → Bool
is_string = all (λ c. not (c == 0))

c_string_all : (xs : List ℕ) → is_string xs ≡ true → c_string xs ≡ xs
c_string_all [] s = refl
c_string_all (x ∷ xs) s = ground (arith, c_string_all xs (ground arith))

same_string_refl : (xs : List ℕ) → same_string xs xs ≡ true
same_string_refl [] = refl
same_string_refl (x ∷ xs) = ground (arith, same_string_refl xs)

forward_cached_response-page :
    (e : Entry) (page : List ℕ)
    → e.value ≡ page
    → e.size ≡ length page
    → forward_cached_response e ≡ some page
unfolding forward_cached_response
forward_cached_response-page e page v s =
    let fits : leb (length page) (length page + 1) ≡ true = ground arith in
    rw (v, s, fits, take-append page (0 ∷ [])) refl

module _ (c : Cache) (uri page : List ℕ) (xs : List ℕ) (p : ℕ) (g : Cache) (u : Unknown c uri xs)
    (a : is_string uri ≡ true) (b : is_string page ≡ true)
    (i : Inserted c.entry xs p uri page (length page) g) where
  -- The new entry is the only one with its key.
  only_new : (x : ℕ) → has x (p ∷ i.kept) ≡ true → same_string (g.entry x).key uri ≡ true → x ≡ p
  only_new x m k = elim (Bool-cases (x == p)) [
    | inl e ↦ ground (arith, e)
    | inr e ↦
        let old : has x i.kept ≡ true = ground (arith, e, m) in
        let no : same_string (c.entry x).key uri ≡ false =
          u x (rw (i.row, has-append x i.kept i.dropped) (ground (arith, old))) in
        let same = (i.same x old).0 in
        let wrong : false ≡ true = sym no ∙ ap (λ key. same_string key uri) (sym same) ∙ k in cc
  ]

  found_new : same_string (g.entry p).key uri ≡ true
  found_new = rw (i.key_lem, c_string_all uri a) (same_string_refl uri)

  -- What a lookup of the new key returns
  hit_of :
      (o : Outcome (Cache × ℕ))
      → Finds g uri (p ∷ i.kept) o
      → (h : Cache) × (o ≡ returns (h, p))
        × (h.locked ≡ true)
        × ((h.entry p).value ≡ page)
        × ((h.entry p).size ≡ length page)
  hit_of _ (misses all) = let no : false ≡ true = sym (all p (ground arith)) ∙ found_new in cc
  hit_of _ (hits {g = h} {x} m k hold same l) =
      let (_, value, size) = same p (ground arith) in
      (
        h,
        ap (λ y. returns (h, y)) (only_new x m k),
        l,
        value ∙ i.value_lem ∙ c_string_all page b,
        size ∙ i.size_lem,
      )

looked_up-page :
    (server : Server) (fuel q p : ℕ) (request : HttpRequest) (h : Cache) (page : List ℕ)
    → 0 < p
    → (h.entry p).value ≡ page
    → (h.entry p).size ≡ length page
    → looked_up server fuel q request (returns (h, p)) ≡ ended h page
unfolding looked_up
looked_up-page server fuel q zero request h page live v s = absurd (omega (arith, live))
looked_up-page server fuel q (suc n) request h page live v s =
    ap (cached_response h) (forward_cached_response-page (h.entry (suc n)) page v s)

-- A thread has inserted a page without 0 bytes, under a URI that the cache did not know. The next
-- thread with a request for that URI sends its client the same page, whatever the server would
-- answer by now; and the thread behind it, with whatever request, waits for ever.
pub proxy_thread-Again :
    (server : Server) (fuel q : ℕ) (lines : List (List ℕ)) (request : HttpRequest)
    (later : List (List ℕ)) (next : HttpRequest) (c : Cache) (page : List ℕ) (xs : List ℕ) (p : ℕ)
    (g : Cache)
    → 0 < p
    → Unknown c request.uri xs
    → is_string request.uri ≡ true
    → is_string page ≡ true
    → Inserted c.entry xs p request.uri page (length page) g
    → parse_request lines ≡ some request
    → parse_request later ≡ some next
    → suc (length xs) < fuel
    → (h : Cache) × (proxy_thread server fuel q lines g ≡ ended h page)
      × (proxy_thread server fuel q later h ≡ waiting)
unfolding proxy_thread serve looked_up
proxy_thread-Again server fuel q lines request later next c page xs p g live u a b i e e' f =
    let few : length (p ∷ i.kept) < fuel =
      omega (arith, f, ap length i.row, length-append i.kept i.dropped) in
    let found = cache_find-Finds fuel request.uri g (p ∷ i.kept) i.unlocked i.hold few in
    let (h, returned, locked, v, s) =
      hit_of c request.uri page xs p g u a b i (cache_find fuel request.uri g) found in
    (
      h,
      rw (proxy_thread, e, returned) (looked_up-page server fuel q p request h page live v s),
      rw (proxy_thread, e', cache_find_locked fuel next.uri h locked) refl,
    )

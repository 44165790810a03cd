-- ===== src/Proxy/Forward/Reach.antt =====
-- The cache through any sequence of threads.
use s_system_programmin.Common.{
  ℕ, zero, suc, ◌≤◌, ◌<◌, ◌≡◌, ap, subst, true, false, Bool-cases, Option-cases, inl, inr, Option,
  none, some, List, [], ◌∷◌, arith, length, has, erase,
}
use s_system_programmin.Proxy.Cache.{Entry, Cache, Outcome, cache_init, cache_find, max_cache_size}
use s_system_programmin.Proxy.Cache.Links.{Seg-positive}
use s_system_programmin.Proxy.Cache.Lru.{Holds, cache_init-Holds, sizes, sizes-frame, sizes-erase}
use s_system_programmin.Proxy.Cache.Lru.Find.{
  Finds, misses, hits, cache_find-Finds, cache_find_locked,
}
use s_system_programmin.Proxy.Request.{HttpRequest, parse_request}
use s_system_programmin.Proxy.Forward.{
  Server, Thread, ended, forward_request, forward_cached_response, cached_response, fetched,
  looked_up, serve, proxy_thread,
}
use s_system_programmin.Proxy.Forward.Relayed.{joined}
use s_system_programmin.Proxy.Forward.Threads.{
  Fetches, too_many, too_large, no_end, stored, forward_response-Fetches,
}

-- A linked list of entries with at most MAX_CACHE_SIZE bytes, as counted.
pub record Bounded (c : Cache) : Type 0 where
  pub entries : List ℕ
  pub hold : Holds c entries
  pub bound : c.cache_size ≤ max_cache_size

-- The caches that threads leave behind, one after the other. `Malloc` returns an address that is not
-- NULL and no entry's, and a loop through the list has fuel for it.
pub data Reaches (server : Server) : Cache → Type 0 where
  initial : (h : ℕ → Entry) → Reaches server (cache_init h)
  thread :
      {c g : Cache} {xs client : List ℕ} (fuel p : ℕ) (lines : List (List ℕ))
      → Reaches server c
      → Holds c xs
      → length xs < fuel
      → 0 < p
      → has p xs ≡ false
      → proxy_thread server fuel p lines c ≡ ended g client
      → Reaches server g

-- What a thread leaves, if it ends
abbrev Leaves : Thread → Type 0
Leaves (ended g client) = Bounded g
Leaves _ = Unit {0}

module _ (server : Server) (fuel p : ℕ) (c : Cache) (xs : List ℕ) (hold : Holds c xs)
    (bound : c.cache_size ≤ max_cache_size) (f : length xs < fuel) (live : 0 < p)
    (out : has p xs ≡ false) where
  Fetches-Leaves : (uri page : List ℕ) (t : Thread) → Fetches c xs p uri page t → Leaves t
  Fetches-Leaves uri page _ (too_many l) = tt
  Fetches-Leaves uri page _ (too_large l) = record {
    entries = xs;
    hold = record { seg = hold.seg; distinct = hold.distinct; bytes = hold.bytes };
    bound = bound;
  }
  Fetches-Leaves uri page _ (no_end l e) = tt
  Fetches-Leaves uri page _ (stored {g} l s i) = record {
    entries = p ∷ i.kept;
    hold = i.hold;
    bound = elim i.fits [
      | inl none_kept ↦ omega (arith, i.hold.bytes, ap (sizes g.entry) none_kept, i.size_lem, l)
      | inr le ↦ le
    ];
  }

  fetched-Leaves :
      (request : HttpRequest)
      → Leaves
          (fetched server fuel p request (record c { locked = false }) (forward_request request))
  unfolding fetched
  fetched-Leaves request = elim (Option-cases (forward_request request)) [
    | inl e ↦ rw e tt
    | inr (bytes, e) ↦
        let page = server request.hostname request.port bytes in
        rw e (
          Fetches-Leaves request.uri (joined page) _
            (forward_response-Fetches fuel p request.uri c xs hold f live out page))
  ]

  cached-Leaves : (g : Cache) (o : Option (List ℕ)) → Bounded g → Leaves (cached_response g o)
  cached-Leaves g none b = tt
  cached-Leaves g (some client) b = b

  found-Leaves :
      (request : HttpRequest) (o : Outcome (Cache × ℕ))
      → Finds c request.uri xs o
      → Leaves (looked_up server fuel p request o)
  unfolding looked_up
  found-Leaves request _ (misses all) = fetched-Leaves request
  found-Leaves request _ (hits {g = g} {x = zero} m k h same l) =
      absurd (omega (arith, Seg-positive c.entry 0 c.head xs 0 c.tail 0 hold.seg m))
  found-Leaves request _ (hits {g = g} {x = suc x} m k h same l) =
      cached-Leaves g (forward_cached_response (g.entry (suc x))) (record {
        entries = suc x ∷ erase (suc x) xs;
        hold = h;
        bound = omega (
          arith,
          h.bytes,
          sizes-erase g.entry (suc x) xs m,
          sizes-frame c.entry g.entry xs same,
          hold.bytes,
          bound,
        );
      })

  thread-Leaves :
      (lines : List (List ℕ)) → c.locked ≡ false → Leaves (proxy_thread server fuel p lines c)
  unfolding proxy_thread serve
  thread-Leaves lines l = elim (Option-cases (parse_request lines)) [
    | inl e ↦ rw (proxy_thread, e) tt
    | inr (request, e) ↦
        let found = cache_find-Finds fuel request.uri c xs l hold f in
        rw (proxy_thread, e) (found-Leaves request (cache_find fuel request.uri c) found)
  ]

-- On a locked cache no thread ends.
locked-Leaves :
    (server : Server) (fuel p : ℕ) (lines : List (List ℕ)) (c : Cache)
    → c.locked ≡ true
    → Leaves (proxy_thread server fuel p lines c)
unfolding proxy_thread serve looked_up
locked-Leaves server fuel p lines c l = elim (Option-cases (parse_request lines)) [
  | inl e ↦ rw (proxy_thread, e) tt
  | inr (request, e) ↦ rw (proxy_thread, e, cache_find_locked fuel request.uri c l) tt
]

-- After any sequence of threads that have ended, one behind the other, the cache is a list that is
-- linked in both directions, its count is the sum of the sizes of its entries, and that is at most
-- MAX_CACHE_SIZE.
pub Reaches-Bounded : (server : Server) (c : Cache) → Reaches server c → Bounded c
Reaches-Bounded server _ (initial h) = record {
  entries = [];
  hold = (cache_init-Holds h).0;
  bound = omega (arith, (cache_init-Holds h).1);
}
Reaches-Bounded server g (thread {c} {xs = xs} fuel p lines before hold f live out e) =
    let b = Reaches-Bounded server c before in
    elim (Bool-cases c.locked) [
      | inl l ↦ subst Leaves e (locked-Leaves server fuel p lines c l)
      | inr l ↦ subst Leaves e (thread-Leaves server fuel p c xs hold b.bound f live out lines l)
    ]

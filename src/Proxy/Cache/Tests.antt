-- ===== src/Proxy/Cache/Tests.antt =====
-- The cache on concrete entries: two of 6000 bytes do not fit together.
use s_system_programmin.Common.{ℕ, zero, suc, ◌≡◌, refl, false, some, List, [], ◌∷◌, arith}
use s_system_programmin.Proxy.Cache.{
  Entry, Cache, cache_find, cache_insert, cache_free, drop_tail, cache_evict, evicted, add_entry,
  insert_into, Outcome, waits, returns, out_of_fuel,
}
use s_system_programmin.Proxy.Cache.Links.{Distinct}
use s_system_programmin.Proxy.Cache.Lru.{Holds}
use s_system_programmin.Proxy.Cache.Lru.Find.{
  Finds, cache_find-Finds, cache_find_hit-waits, cache_free-all,
}
use s_system_programmin.Proxy.Cache.Lru.Insert.{Inserted, cache_insert-Inserted}

abbrev entry_at : ℕ → Entry
entry_at zero = record { key = []; value = []; size = 0; prev = 0; next = 0 }
entry_at (suc zero) = record { key = 97 ∷ []; value = 1 ∷ []; size = 3000; prev = 0; next = 2 }
entry_at (suc (suc _)) = record { key = 98 ∷ []; value = 2 ∷ []; size = 6000; prev = 1; next = 0 }

abbrev two_entries : Cache
two_entries = record { entry = entry_at; head = 1; tail = 2; cache_size = 9000; locked = false }

two_entries-Holds : Holds two_entries (1 ∷ 2 ∷ [])
two_entries-Holds = record {
  seg = (refl, ground arith, refl, (refl, ground arith, refl, (refl, refl)));
  distinct = (refl, (refl, tt));
  bytes = refl;
}

cache_find-Finds_example :
    Finds two_entries (98 ∷ []) (1 ∷ 2 ∷ []) (cache_find 3 (98 ∷ []) two_entries)
cache_find-Finds_example =
    cache_find-Finds 3 (98 ∷ []) two_entries (1 ∷ 2 ∷ []) refl two_entries-Holds (ground arith)

hit_waits :
    (g : Cache) × (y : ℕ) × (cache_find 3 (98 ∷ []) two_entries ≡ returns (g, y))
    × ((fuel' : ℕ) (key' : List ℕ) → cache_find fuel' key' g ≡ waits)
    × ((fuel' p : ℕ) (key' value : List ℕ) (size : ℕ)
        → cache_insert fuel' p key' value size g ≡ waits)
hit_waits =
    cache_find_hit-waits 3 (98 ∷ []) two_entries (1 ∷ 2 ∷ []) 2 refl two_entries-Holds
      (ground arith) refl refl

free_all : (cache_free 3 two_entries ≡ some (1 ∷ 2 ∷ [])) × Distinct (1 ∷ 2 ∷ [])
free_all = cache_free-all 3 two_entries (1 ∷ 2 ∷ []) two_entries-Holds (ground arith)

cache_insert-Inserted_example :
    (g : Cache) × (cache_insert 3 3 (99 ∷ []) (3 ∷ []) 6000 two_entries ≡ returns g)
    × Inserted two_entries.entry (1 ∷ 2 ∷ []) 3 (99 ∷ []) (3 ∷ []) 6000 g
cache_insert-Inserted_example =
    cache_insert-Inserted 3 two_entries (1 ∷ 2 ∷ []) 3 (99 ∷ []) (3 ∷ []) 6000 refl
      two_entries-Holds (ground arith) (ground arith) refl

-- The insertion drops the entry at the tail.
abbrev inserted : Outcome Cache → ℕ × ℕ × ℕ
inserted waits = (0, 0, 0)
inserted out_of_fuel = (0, 0, 0)
inserted (returns c) = (c.head, c.tail, c.cache_size)

tail_dropped : inserted (cache_insert 3 3 (99 ∷ []) (3 ∷ []) 6000 two_entries) ≡ (3, 1, 9000)
unfolding cache_insert insert_into evicted cache_evict drop_tail add_entry
tail_dropped = refl

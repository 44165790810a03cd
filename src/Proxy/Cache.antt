-- ===== src/Proxy/Cache.antt =====
-- Lab/lab5/proxylab-handout/cache.c: a doubly linked list of entries, the most recent first. The
-- entries stand at addresses, NULL is 0; the address that `Malloc` returns for a new entry is an
-- argument of `cache_insert`. Keys and values are lists of bytes, sizes are not negative and their
-- sums do not overflow an int. What the functions print is left out.
pub mod Links
pub mod Lru
mod Tests
use s_system_programmin.Common.{
  ℕ, zero, suc, ◌+◌, ◌-◌, Bool, true, false, ◌&&◌, not, Option, none, some, List, [], ◌∷◌, ltb,
  ◌==◌, if◌then◌else◌, same_string,
}

abbrev pub max_cache_size : ℕ
max_cache_size = 10970

-- What `strdup` copies: the bytes before the first 0.
abbrev pub c_string : List ℕ → List ℕ
c_string [] = []
c_string (x ∷ xs) = let rest = c_string xs in if x == 0 then [] else x ∷ rest

pub record Entry : Type 0 where
  pub key : List ℕ
  pub value : List ℕ
  pub size : ℕ
  pub prev : ℕ
  pub next : ℕ

-- The entries and the globals; `locked` is the state of the mutex.
pub record Cache : Type 0 where
  pub entry : ℕ → Entry
  pub head : ℕ
  pub tail : ℕ
  pub cache_size : ℕ
  pub locked : Bool

abbrev pub write : ℕ → Entry → (ℕ → Entry) → ℕ → Entry
write p e h q = if q == p then e else h q

abbrev pub set_next : ℕ → ℕ → (ℕ → Entry) → ℕ → Entry
set_next p q h = write p (record (h p) { next = q }) h

abbrev pub set_prev : ℕ → ℕ → (ℕ → Entry) → ℕ → Entry
set_prev p q h = write p (record (h p) { prev = q }) h

pub cache_init : (ℕ → Entry) → Cache
cache_init h = record { entry = h; head = 0; tail = 0; cache_size = 0; locked = false }

-- The loop of `cache_find`, with fuel: NULL (0) or the entry with the key.
pub find_from : (fuel : ℕ) → (ℕ → Entry) → (key : List ℕ) → (curr : ℕ) → Option ℕ
find_from zero h key curr = none
find_from (suc fuel) h key curr =
    let rest = find_from fuel h key (h curr).next in
    if curr == 0 then some 0 else if same_string (h curr).key key then some curr else rest

-- The entry leaves its place in the list.
pub unlink : ℕ → Cache → Cache
unlink curr c =
    let h = set_next (c.entry curr).prev (c.entry curr).next c.entry in
    if not (curr == c.tail)
    then record c { entry = set_prev (h curr).next (h curr).prev h }
    else record c { entry = h; tail = (h curr).prev }

-- The entry becomes the head of the list.
pub link_first : ℕ → Cache → Cache
link_first curr c =
    let h = set_next curr c.head (set_prev curr 0 c.entry) in
    record c { entry = set_prev c.head curr h; head = curr }

pub move_to_front : ℕ → Cache → Cache
move_to_front curr c = if curr == c.head then c else link_first curr (unlink curr c)

-- A hit returns with the mutex locked.
after_find : Cache → Option ℕ → Option (Cache × ℕ)
after_find c none = none
after_find c (some curr) =
    some (if curr == 0 then (record c { locked = false }, 0) else (move_to_front curr c, curr))

-- What a call comes to: it waits for the mutex for ever, it runs out of fuel, or it returns.
pub data Outcome {ℓ} (A : Type ℓ) : Type ℓ where
  waits : Outcome A
  out_of_fuel : Outcome A
  returns : A → Outcome A

abbrev pub outcome {ℓ} : {A : Type ℓ} → Option A → Outcome A
outcome none = out_of_fuel
outcome (some a) = returns a

pub cache_find : (fuel : ℕ) → (key : List ℕ) → Cache → Outcome (Cache × ℕ)
cache_find fuel key c =
    let locked = record c { locked = true } in
    if c.locked then waits else outcome (after_find locked (find_from fuel c.entry key c.head))

-- The body of the loop in `cache_evict`
pub drop_tail : Cache → Cache
drop_tail c =
    let prev = (c.entry c.tail).prev in
    let rest = record c { cache_size = c.cache_size - (c.entry c.tail).size; tail = prev } in
    if prev == 0 then record rest { head = 0 } else record rest { entry = set_next prev 0 c.entry }

-- `none` is out of fuel.
pub cache_evict : (fuel size : ℕ) → Cache → Option Cache
cache_evict zero size c = none
cache_evict (suc fuel) size c =
    let rest = cache_evict fuel size (drop_tail c) in
    if ltb max_cache_size (c.cache_size + size) && not (c.tail == 0) then rest else some c

-- The part of `cache_insert` behind the eviction
add_entry : (p : ℕ) → (key value : List ℕ) → (size : ℕ) → Cache → Cache
add_entry p key value size c =
    let e : Entry = record {
      key = c_string key;
      value = c_string value;
      size = size;
      prev = 0;
      next = c.head;
    } in
    let h = write p e c.entry in
    let linked =
      if not (c.head == 0)
      then record c { entry = set_prev c.head p h }
      else record c { entry = h; tail = p } in
    record linked { head = p; cache_size = c.cache_size + size; locked = false }

evicted : (fuel size : ℕ) → Cache → Option Cache
evicted fuel size c =
    if ltb max_cache_size (c.cache_size + size) then cache_evict fuel size c else some c

insert_into : (p : ℕ) → (key value : List ℕ) → (size : ℕ) → Option Cache → Option Cache
insert_into p key value size none = none
insert_into p key value size (some c) = some (add_entry p key value size c)

pub cache_insert : (fuel p : ℕ) → (key value : List ℕ) → (size : ℕ) → Cache → Outcome Cache
cache_insert fuel p key value size c =
    if c.locked
    then waits
    else outcome (insert_into p key value size (evicted fuel size (record c { locked = true })))

-- The addresses that the loop of `cache_free` releases, in order; `none` is out of fuel.
freed_from : (fuel : ℕ) → (ℕ → Entry) → (curr : ℕ) → Option (List ℕ)
freed_from zero h curr = none
freed_from (suc fuel) h curr =
    let rest : Option (List ℕ) = elim (freed_from fuel h (h curr).next) [
      | none ↦ none
      | some ps ↦ some (curr ∷ ps)
    ] in
    if curr == 0 then some [] else rest

pub cache_free : (fuel : ℕ) → Cache → Option (List ℕ)
cache_free fuel c = freed_from fuel c.entry c.head

-- ===== src/Proxy/Cache/Lru/Find.antt =====
-- `cache_find`: a hit moves the entry to the front.
use s_system_programmin.Common.{
  same_string, ℕ, zero, suc, ◌<◌, ◌≡◌, refl, sym, ap, subst, ◌∙◌, inl, inr, true, false, Bool-cases,
  some, List, [], ◌∷◌, ◌++◌, ◌==◌, if◌then◌else◌, arith, has, erase, length,
}
use s_system_programmin.Proxy.Cache.{
  Entry, Cache, set_next, set_prev, find_from, unlink, link_first, move_to_front, after_find,
  Outcome, waits, returns, outcome, cache_find, cache_insert, freed_from, cache_free,
}
use s_system_programmin.Proxy.Cache.Links.{
  Seg, Distinct, has-append, Distinct-left, Distinct-right, Distinct-apart, Distinct-join,
  Seg-frame, Seg-split, Seg-join, Seg-last, Seg-set_next, Seg-set_prev, Seg-positive,
}
use s_system_programmin.Proxy.Cache.Lru.{Holds, SameData, sizes-frame, sizes-erase, Cut-before}

-- The first entry with the key, or NULL.
abbrev find_key : (ℕ → Entry) → (key : List ℕ) → List ℕ → ℕ
find_key h key [] = 0
find_key h key (x ∷ xs) = if same_string (h x).key key then x else find_key h key xs

find_from-find_key :
    (fuel : ℕ) (h : ℕ → Entry) (key : List ℕ) (pv p : ℕ) (xs : List ℕ) (l : ℕ)
    → Seg h pv p xs 0 l
    → length xs < fuel
    → find_from fuel h key p ≡ some (find_key h key xs)
unfolding find_from
find_from-find_key zero h key pv p xs l s e = absurd (omega arith)
find_from-find_key (suc fuel) h key pv p [] l s e = rw s.0 refl
find_from-find_key (suc fuel) h key pv p (x ∷ xs) l s e =
    let rest = find_from-find_key fuel h key x (h x).next xs l s.3 (omega arith) in
    let live : (x == 0) ≡ false = ground (arith, s.1) in
    rw (s.0, live)
      (elim (Bool-cases (same_string (h x).key key)) [ inl m ↦ rw m refl | inr m ↦ rw m rest ])

-- What is found.
data KeyAt (h : ℕ → Entry) (key : List ℕ) (xs : List ℕ) : ℕ → Type 0 where
  absent : ((x : ℕ) → has x xs ≡ true → same_string (h x).key key ≡ false) → KeyAt h key xs 0
  present : {x : ℕ} → has x xs ≡ true → same_string (h x).key key ≡ true → KeyAt h key xs x

KeyAt-later :
    (h : ℕ → Entry) (key : List ℕ) (x : ℕ) (xs : List ℕ) {y : ℕ}
    → same_string (h x).key key ≡ false
    → KeyAt h key xs y
    → KeyAt h key (x ∷ xs) y
KeyAt-later h key x xs e (absent all) = absent (λ z m. ground (arith, all z))
KeyAt-later h key x xs e (present m k) = present (ground arith) k

find_key-KeyAt : (h : ℕ → Entry) (key : List ℕ) (xs : List ℕ) → KeyAt h key xs (find_key h key xs)
find_key-KeyAt h key [] = absent (λ x m. cc)
find_key-KeyAt h key (x ∷ xs) = elim (Bool-cases (same_string (h x).key key)) [
  | inl e ↦ rw e (present (ground arith) e)
  | inr e ↦ rw e (KeyAt-later h key x xs e (find_key-KeyAt h key xs))
]

-- Only links are written.
unlink-SameData : (x : ℕ) (c : Cache) (xs : List ℕ) → SameData c.entry (unlink x c).entry xs
unfolding unlink
unlink-SameData x c xs y m = ground arith

link_first-SameData : (x : ℕ) (c : Cache) (xs : List ℕ) → SameData c.entry (link_first x c).entry xs
unfolding link_first
link_first-SameData x c xs y m = ground arith

-- The two branches of `unlink`, for an entry behind `k`.
unlink_last :
    (x k : ℕ) (c : Cache)
    → (c.entry x).prev ≡ k
    → (c.entry x).next ≡ 0
    → x ≡ c.tail
    → unlink x c ≡ record c { entry = set_next k 0 c.entry; tail = k }
unfolding unlink
unlink_last x k c e e' t =
    let last : (x == c.tail) ≡ true = ground arith in
    let h = set_next (c.entry x).prev (c.entry x).next c.entry in
    let back : (h x).prev ≡ (c.entry x).prev = ground arith in rw (last, back, e, e') refl

unlink_inner :
    (x k y : ℕ) (c : Cache)
    → (c.entry x).prev ≡ k
    → (c.entry x).next ≡ y
    → (x == k) ≡ false
    → (x == c.tail) ≡ false
    → unlink x c ≡ record c { entry = set_prev y k (set_next k y c.entry) }
unfolding unlink
unlink_inner x k y c e e' other inner =
    let h = set_next (c.entry x).prev (c.entry x).next c.entry in
    let back : (h x).prev ≡ (c.entry x).prev = ground arith in
    let forth : (h x).next ≡ (c.entry x).next = ground arith in rw (inner, back, forth, e, e') refl

-- Taking an entry behind the head out of the list.
unlink-Seg :
    (x : ℕ) (c : Cache) (a : ℕ) (xs ys : List ℕ)
    → Seg c.entry 0 c.head ((a ∷ xs) ++ (x ∷ ys)) 0 c.tail
    → Distinct ((a ∷ xs) ++ (x ∷ ys))
    → Seg (unlink x c).entry 0 c.head ((a ∷ xs) ++ ys) 0 (unlink x c).tail
unlink-Seg x c a xs [] s d =
    let h = c.entry in
    let (m, k, left, right) = Seg-split h 0 c.head (a ∷ xs) (x ∷ []) 0 c.tail s in
    let left' = Seg-set_next h 0 c.head a xs m k 0 (Distinct-left (a ∷ xs) (x ∷ []) d) left in
    subst (λ c'. Seg c'.entry 0 c.head ((a ∷ xs) ++ []) 0 c'.tail)
      (sym (unlink_last x k c right.2 right.3.0 right.3.1))
      (Seg-join (set_next k 0 h) 0 c.head (a ∷ xs) [] 0 k 0 k left' (refl, refl))
unlink-Seg x c a xs (y ∷ ys) s d =
    let h = c.entry in
    let (m, k, left, right) = Seg-split h 0 c.head (a ∷ xs) (x ∷ y ∷ ys) 0 c.tail s in
    let mine = Seg-last h 0 c.head a xs m k left in
    let out = Distinct-apart (a ∷ xs) (x ∷ y ∷ ys) k d mine in
    let behind = Distinct-right (a ∷ xs) (x ∷ y ∷ ys) d in
    let last = Seg-last h x (h x).next y ys 0 c.tail right.3 in
    let g = set_next k y h in
    let left' = Seg-set_next h 0 c.head a xs m k y (Distinct-left (a ∷ xs) (x ∷ y ∷ ys) d) left in
    let left'' =
      Seg-frame g (set_prev y k g) 0 c.head (a ∷ xs) y k left'
        (λ z i. ground (arith, Distinct-apart (a ∷ xs) (x ∷ y ∷ ys) z d i)) in
    let here : Seg h x y (y ∷ ys) 0 c.tail =
      subst (λ n. Seg h x n (y ∷ ys) 0 c.tail) right.3.0 right.3 in
    let kept = Seg-frame h g x y (y ∷ ys) 0 c.tail here (λ z i. ground (arith, out)) in
    let right' = Seg-set_prev g x y y ys 0 c.tail k behind.1 kept in
    subst (λ c'. Seg c'.entry 0 c.head ((a ∷ xs) ++ (y ∷ ys)) 0 c'.tail)
      (sym (
        unlink_inner x k y c right.2 right.3.0 (ground (arith, out))
          (ground (arith, behind.0, last))))
      (Seg-join (set_prev y k g) 0 c.head (a ∷ xs) (y ∷ ys) y k 0 c.tail left'' right')

link_first-Seg :
    (x : ℕ) (c : Cache) (a : ℕ) (xs : List ℕ)
    → 0 < x
    → has x (a ∷ xs) ≡ false
    → Distinct (a ∷ xs)
    → Seg c.entry 0 c.head (a ∷ xs) 0 c.tail
    → Seg (link_first x c).entry 0 (link_first x c).head (x ∷ a ∷ xs) 0 (link_first x c).tail
unfolding link_first
link_first-Seg x c a xs l out d s =
    let h = c.entry in
    let g = set_next x c.head (set_prev x 0 h) in
    let kept = Seg-frame h g 0 c.head (a ∷ xs) 0 c.tail s (λ z i. ground (arith, out)) in
    let rest = Seg-set_prev g 0 c.head a xs 0 c.tail x d kept in
    let other : (x == c.head) ≡ false = ground (arith, out, s.0) in
    let forth : (set_prev c.head x g x).next ≡ c.head = ground arith in
    let back : (set_prev c.head x g x).prev ≡ 0 = ground arith in
    (refl, l, back, subst (λ n. Seg (set_prev c.head x g) x n (a ∷ xs) 0 c.tail) (sym forth) rest)

-- The parts of the cache that moving an entry leaves alone.
unlink_rest :
    (x : ℕ) (c : Cache)
    → ((unlink x c).head ≡ c.head)
      × ((unlink x c).cache_size ≡ c.cache_size)
      × ((unlink x c).locked ≡ c.locked)
unfolding unlink
unlink_rest x c = ground arith

move_to_front-before :
    (x : ℕ) (c : Cache) (xs ys : List ℕ)
    → Holds c (xs ++ (x ∷ ys))
    → Seg
        (move_to_front x c).entry
        0
        (move_to_front x c).head
        (x ∷ (xs ++ ys))
        0
        (move_to_front x c).tail
unfolding move_to_front
move_to_front-before x c [] ys hold =
    let first : (x == c.head) ≡ true = ground (arith, hold.seg.0) in
    let same : move_to_front x c ≡ c = rw first refl in
    subst (λ c'. Seg c'.entry 0 c'.head (x ∷ ys) 0 c'.tail) (sym same) hold.seg
move_to_front-before x c (a ∷ xs) ys hold =
    let d = hold.distinct in
    let out : has x (a ∷ xs) ≡ false = ground (arith, Distinct-apart (a ∷ xs) (x ∷ ys) x d) in
    let (m, k, left, right) = Seg-split c.entry 0 c.head (a ∷ xs) (x ∷ ys) 0 c.tail hold.seg in
    let behind = Distinct-right (a ∷ xs) (x ∷ ys) d in
    let inner : (x == c.head) ≡ false = ground (arith, out, hold.seg.0) in
    let d' : Distinct ((a ∷ xs) ++ ys) =
      Distinct-join (a ∷ xs) ys (Distinct-left (a ∷ xs) (x ∷ ys) d) behind.1
        (λ y i. ground (arith, Distinct-apart (a ∷ xs) (x ∷ ys) y d i)) in
    let u = unlink x c in
    let s' =
      subst (λ p. Seg u.entry 0 p ((a ∷ xs) ++ ys) 0 u.tail) (sym (unlink_rest x c).0)
        (unlink-Seg x c a xs ys hold.seg d) in
    let same : move_to_front x c ≡ link_first x u = rw inner refl in
    subst (λ c'. Seg c'.entry 0 c'.head (x ∷ a ∷ (xs ++ ys)) 0 c'.tail) (sym same)
      (link_first-Seg x u a (xs ++ ys) right.1 (ground (arith, out, behind.0, has-append x xs ys))
        d' s')

move_to_front-SameData :
    (x : ℕ) (c : Cache) (xs : List ℕ) → SameData c.entry (move_to_front x c).entry xs
unfolding move_to_front
move_to_front-SameData x c xs y m =
    ground (arith, unlink-SameData x c xs y m, link_first-SameData x (unlink x c) xs y m)

move_to_front_rest :
    (x : ℕ) (c : Cache)
    → ((move_to_front x c).cache_size ≡ c.cache_size) × ((move_to_front x c).locked ≡ c.locked)
unfolding move_to_front link_first
move_to_front_rest x c = ground (arith, unlink_rest x c)

move_to_front-Holds :
    (x : ℕ) (c : Cache) (xs : List ℕ)
    → Holds c xs
    → has x xs ≡ true
    → Holds (move_to_front x c) (x ∷ erase x xs)
move_to_front-Holds x c xs hold m =
    let cut = Cut-before x xs m in
    let d = subst Distinct cut.row hold.distinct in
    let behind = Distinct-right cut.before (x ∷ cut.after) d in
    let here = subst (λ zs. Holds c zs) cut.row hold in
    let g = move_to_front x c in
    let same =
      sizes-frame c.entry g.entry (x ∷ erase x xs) (move_to_front-SameData x c (x ∷ erase x xs)) in
    record {
      seg =
          subst (λ zs. Seg g.entry 0 g.head (x ∷ zs) 0 g.tail) (sym cut.rest)
            (move_to_front-before x c cut.before cut.after here);
      distinct =
          subst (λ zs. Distinct (x ∷ zs)) (sym cut.rest)
            (
              ground (arith, cut.first, behind.0, has-append x cut.before cut.after),
              Distinct-join cut.before cut.after (Distinct-left cut.before (x ∷ cut.after) d)
                  behind.1 (λ y i. ground (arith, Distinct-apart cut.before (x ∷ cut.after) y d i)),
            );
      bytes =
          omega (arith, same, sizes-erase c.entry x xs m, (move_to_front_rest x c).0, hold.bytes);
    }

-- What `cache_find` does on a cache with the entries `xs`: on a hit the entry becomes the first, and
-- the mutex stays locked; on a miss nothing changes.
pub data Finds (c : Cache) (key xs : List ℕ) : Outcome (Cache × ℕ) → Type 0 where
  misses :
      ((x : ℕ) → has x xs ≡ true → same_string (c.entry x).key key ≡ false)
      → Finds c key xs (returns (record c { locked = false }, 0))
  hits :
      {g : Cache} {x : ℕ}
      → has x xs ≡ true
      → same_string (c.entry x).key key ≡ true
      → Holds g (x ∷ erase x xs)
      → SameData c.entry g.entry xs
      → g.locked ≡ true
      → Finds c key xs (returns (g, x))

after_find-Finds :
    (c : Cache) (key xs : List ℕ) (x : ℕ)
    → c.locked ≡ false
    → Holds c xs
    → KeyAt c.entry key xs x
    → Finds c key xs (outcome (after_find (record c { locked = true }) (some x)))
unfolding after_find
after_find-Finds c key xs _ l hold (absent all) = misses all
after_find-Finds c key xs x l hold (present m k) =
    let live : (x == 0) ≡ false =
      ground (arith, Seg-positive c.entry 0 c.head xs 0 c.tail x hold.seg m) in
    let c' = record c { locked = true } in
    let hold' : Holds c' xs = record {
      seg = hold.seg;
      distinct = hold.distinct;
      bytes = hold.bytes;
    } in
    rw live (
      hits m k (move_to_front-Holds x c' xs hold' m) (move_to_front-SameData x c' xs)
        (move_to_front_rest x c').1)

-- `cache_find` with the mutex free, on a linked list of fewer entries than the fuel, returns. If no
-- entry has the key, it returns NULL and the cache as it was. Otherwise it returns an entry with the
-- key, which is now the first in the list while the others keep their order, and the mutex is
-- still locked.
pub cache_find-Finds :
    (fuel : ℕ) (key : List ℕ) (c : Cache) (xs : List ℕ)
    → c.locked ≡ false
    → Holds c xs
    → length xs < fuel
    → Finds c key xs (cache_find fuel key c)
unfolding cache_find
cache_find-Finds fuel key c xs l hold e =
    let found = find_from-find_key fuel c.entry key 0 c.head xs c.tail hold.seg e in
    let locked = record c { locked = true } in
    let done =
      after_find-Finds c key xs (find_key c.entry key xs) l hold (find_key-KeyAt c.entry key xs) in
    subst
      (λ b.
        Finds c key xs
          (if b then waits else outcome (after_find locked (find_from fuel c.entry key c.head))))
      (sym l) (subst (λ o. Finds c key xs (outcome (after_find locked o))) (sym found) done)

hit-locked :
    (c : Cache) (key xs : List ℕ) (x : ℕ) (o : Outcome (Cache × ℕ))
    → has x xs ≡ true
    → same_string (c.entry x).key key ≡ true
    → Finds c key xs o
    → (g : Cache) × (y : ℕ) × (o ≡ returns (g, y)) × (g.locked ≡ true)
hit-locked c key xs x o m k (misses all) = let no : false ≡ true = sym (all x m) ∙ k in cc
hit-locked c key xs x o m k (hits {g} {x = y} _ _ _ _ l) = (g, y, refl, l)

pub cache_find_locked :
    (fuel : ℕ) (key : List ℕ) (c : Cache) → c.locked ≡ true → cache_find fuel key c ≡ waits
unfolding cache_find
cache_find_locked fuel key c l = rw l refl

-- After a `cache_find` that finds its key, as it returns without unlocking the mutex, every call of
-- `cache_find` and of `cache_insert` waits for ever.
pub cache_find_hit-waits :
    (fuel : ℕ) (key : List ℕ) (c : Cache) (xs : List ℕ) (x : ℕ)
    → c.locked ≡ false
    → Holds c xs
    → length xs < fuel
    → has x xs ≡ true
    → same_string (c.entry x).key key ≡ true
    → (g : Cache) × (y : ℕ) × (cache_find fuel key c ≡ returns (g, y))
      × ((fuel' : ℕ) (key' : List ℕ) → cache_find fuel' key' g ≡ waits)
      × ((fuel' p : ℕ) (key' value : List ℕ) (size : ℕ)
          → cache_insert fuel' p key' value size g ≡ waits)
unfolding cache_find cache_insert
cache_find_hit-waits fuel key c xs x l hold e m k =
    let (g, y, returned, locked) =
      hit-locked c key xs x (cache_find fuel key c) m k (cache_find-Finds fuel key c xs l hold e) in
    (
      g,
      y,
      returned,
      (λ fuel' key'. cache_find_locked fuel' key' g locked),
      (λ fuel' p key' value size. rw locked refl),
    )

freed_from-Seg :
    (fuel : ℕ) (h : ℕ → Entry) (pv p : ℕ) (xs : List ℕ) (l : ℕ)
    → Seg h pv p xs 0 l
    → length xs < fuel
    → freed_from fuel h p ≡ some xs
unfolding freed_from
freed_from-Seg zero h pv p xs l s e = absurd (omega arith)
freed_from-Seg (suc fuel) h pv p [] l s e = rw s.0 refl
freed_from-Seg (suc fuel) h pv p (x ∷ xs) l s e =
    let live : (x == 0) ≡ false = ground (arith, s.1) in
    rw (s.0, live, freed_from-Seg fuel h x (h x).next xs l s.3 (omega arith))
      (ap (λ y. some (y ∷ xs)) s.0)

-- `cache_free` on a linked list of fewer entries than the fuel releases each of its entries once.
pub cache_free-all :
    (fuel : ℕ) (c : Cache) (xs : List ℕ)
    → Holds c xs
    → length xs < fuel
    → (cache_free fuel c ≡ some xs) × Distinct xs
unfolding cache_free
cache_free-all fuel c xs hold e =
    (freed_from-Seg fuel c.entry 0 c.head xs c.tail hold.seg e, hold.distinct)

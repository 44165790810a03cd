-- ===== src/Proxy/Cache/Lru/Insert.antt =====
-- `cache_insert`: the entries that were used last and fit stay behind the new one.
use s_system_programmin.Common.{
  ℕ, zero, suc, ◌+◌, ◌-◌, ◌≤◌, ◌<◌, ◌≡◌, refl, sym, ap, subst, ◌∙◌, ◌⊎◌, inl, inr, true, false,
  Bool-cases, some, List, [], ◌∷◌, ◌++◌, ◌==◌, if◌then◌else◌, ltb, arith, has, length,
  length-append, append_assoc, append-nil,
}
use s_system_programmin.Proxy.Cache.{
  Entry, Cache, c_string, max_cache_size, set_next, set_prev, write, drop_tail, cache_evict,
  evicted, add_entry, insert_into, waits, returns, outcome, cache_insert,
}
use s_system_programmin.Proxy.Cache.Links.{
  Seg, has-append, Distinct-left, Seg-frame, Seg-split, Seg-last, Seg-set_next, Seg-set_prev,
  Seg-positive,
}
use s_system_programmin.Proxy.Cache.Lru.{Holds, SameData, sizes, sizes-frame, sizes-append}

-- The two branches of the loop's body.
drop_only :
    (c : Cache)
    → (c.entry c.tail).prev ≡ 0
    → drop_tail c
      ≡ record c { cache_size = c.cache_size - (c.entry c.tail).size; tail = 0; head = 0 }
unfolding drop_tail
drop_only c e = rw e refl

drop_last :
    (c : Cache) (k : ℕ)
    → (c.entry c.tail).prev ≡ k
    → (k == 0) ≡ false
    → drop_tail c ≡ record c {
      cache_size = c.cache_size - (c.entry c.tail).size;
      tail = k;
      entry = set_next k 0 c.entry;
    }
unfolding drop_tail
drop_last c k e p = rw (e, p) refl

-- The loop drops the last entry.
record Drops (c : Cache) (xs : List ℕ) (g : Cache) : Type 0 where
  pub hold : Holds g xs
  pub same : SameData c.entry g.entry xs
  pub more : (c.tail == 0) ≡ false
  pub locked : g.locked ≡ c.locked

drop_tail-Drops :
    (c : Cache) (xs : List ℕ) (x : ℕ) → Holds c (xs ++ (x ∷ [])) → Drops c xs (drop_tail c)
drop_tail-Drops c [] x hold =
    let s = hold.seg in
    let e : (c.entry c.tail).prev ≡ 0 = ap (λ t. (c.entry t).prev) (sym s.3.1) ∙ s.2 in
    let size : (c.entry c.tail).size ≡ (c.entry x).size = ap (λ t. (c.entry t).size) (sym s.3.1) in
    subst (Drops c []) (sym (drop_only c e)) (record {
      hold = record { seg = (refl, refl); distinct = tt; bytes = omega (arith, hold.bytes, size) };
      same = λ y m. cc;
      more = ground (arith, s.1, s.3.1);
      locked = refl;
    })
drop_tail-Drops c (a ∷ xs) x hold =
    let (m, k, left, right) = Seg-split c.entry 0 c.head (a ∷ xs) (x ∷ []) 0 c.tail hold.seg in
    let d = Distinct-left (a ∷ xs) (x ∷ []) hold.distinct in
    let e : (c.entry c.tail).prev ≡ k = ap (λ t. (c.entry t).prev) (sym right.3.1) ∙ right.2 in
    let size : (c.entry c.tail).size ≡ (c.entry x).size =
      ap (λ t. (c.entry t).size) (sym right.3.1) in
    let live =
      Seg-positive c.entry 0 c.head (a ∷ xs) m k k left (Seg-last c.entry 0 c.head a xs m k left) in
    let g = set_next k 0 c.entry in
    let same : SameData c.entry g (a ∷ xs) = λ y i. ground arith in
    subst (Drops c (a ∷ xs)) (sym (drop_last c k e (ground (arith, live)))) (record {
      hold = record {
        seg = Seg-set_next c.entry 0 c.head a xs m k 0 d left;
        distinct = d;
        bytes = omega (
          arith,
          hold.bytes,
          size,
          sizes-append c.entry (a ∷ xs) (x ∷ []),
          sizes-frame c.entry g (a ∷ xs) same,
        );
      };
      same = same;
      more = ground (arith, right.1, right.3.1);
      locked = refl;
    })

snoc_cases : (xs : List ℕ) → (xs ≡ []) ⊎ ((ys : List ℕ) × (x : ℕ) × (xs ≡ ys ++ (x ∷ [])))
snoc_cases [] = inl refl
snoc_cases (x ∷ xs) = elim (snoc_cases xs) [
  | inl e ↦ inr ([], x, ap (λ zs. x ∷ zs) e)
  | inr (ys, y, e) ↦ inr (x ∷ ys, y, ap (λ zs. x ∷ zs) e)
]

-- The last entry that was dropped did not fit beside those that are kept and `size` bytes.
abbrev pub Needed : (ℕ → Entry) → (kept dropped : List ℕ) → (size : ℕ) → Type 0
Needed h kept [] size = Unit {0}
Needed h kept (y ∷ ys) size = max_cache_size < sizes h kept + (h y).size + size

-- What is left when the loop ends: the entries from the front that fit beside `size` bytes, and no
-- fewer of them.
pub record Evicted (c : Cache) (xs : List ℕ) (size : ℕ) (g : Cache) : Type 0 where
  pub kept : List ℕ
  pub dropped : List ℕ
  pub row : xs ≡ kept ++ dropped
  pub hold : Holds g kept
  pub same : SameData c.entry g.entry kept
  pub fits : (kept ≡ []) ⊎ (g.cache_size + size ≤ max_cache_size)
  pub needed : Needed c.entry kept dropped size
  pub locked : g.locked ≡ c.locked

all_kept :
    (c : Cache) (xs : List ℕ) (size : ℕ)
    → Holds c xs
    → (xs ≡ []) ⊎ (c.cache_size + size ≤ max_cache_size)
    → Evicted c xs size c
all_kept c xs size hold fits = record {
  kept = xs;
  dropped = [];
  row = sym (append-nil xs);
  hold = hold;
  same = λ y i. (refl, refl, refl);
  fits = fits;
  needed = tt;
  locked = refl;
}

Needed-snoc :
    (h g : ℕ → Entry) (kept dropped : List ℕ) (x size : ℕ)
    → SameData h g (kept ++ dropped)
    → max_cache_size < sizes h (kept ++ dropped) + (h x).size + size
    → Needed g kept dropped size
    → Needed h kept (dropped ++ (x ∷ [])) size
Needed-snoc h g kept [] x size same l n =
    let e : sizes h (kept ++ []) ≡ sizes h kept = ap (sizes h) (append-nil kept) in omega (arith, e)
Needed-snoc h g kept (y ∷ ys) x size same l n =
    let here = same y (ground (arith, has-append y kept (y ∷ ys))) in
    let all = sizes-frame h g kept (λ z i. same z (ground (arith, has-append z kept (y ∷ ys)))) in
    omega (arith, all, here.2)

one_dropped :
    (c : Cache) (ys : List ℕ) (x size : ℕ) {g : Cache}
    → Holds c (ys ++ (x ∷ []))
    → max_cache_size < c.cache_size + size
    → Drops c ys (drop_tail c)
    → Evicted (drop_tail c) ys size g
    → Evicted c (ys ++ (x ∷ [])) size g
one_dropped c ys x size {g} hold over d r =
    let h = (drop_tail c).entry in
    let same : SameData c.entry h (r.kept ++ r.dropped) = subst (SameData c.entry h) r.row d.same in
    let total : sizes c.entry ys ≡ sizes c.entry (r.kept ++ r.dropped) = ap (sizes c.entry) r.row in
    record {
      kept = r.kept;
      dropped = r.dropped ++ (x ∷ []);
      row = ap (λ zs. zs ++ (x ∷ [])) r.row ∙ append_assoc r.kept r.dropped (x ∷ []);
      hold = r.hold;
      same = λ y i.
          let old = same y (ground (arith, has-append y r.kept r.dropped)) in
          let new = r.same y i in (new.0 ∙ old.0, new.1 ∙ old.1, new.2 ∙ old.2);
      fits = r.fits;
      needed =
          Needed-snoc c.entry h r.kept r.dropped x size same
            (omega (arith, hold.bytes, total, sizes-append c.entry ys (x ∷ []))) r.needed;
      locked = r.locked ∙ d.locked;
    }

cache_evict-Evicted :
    (fuel size : ℕ) (c : Cache) (xs : List ℕ)
    → Holds c xs
    → length xs < fuel
    → (g : Cache) × (cache_evict fuel size c ≡ some g) × Evicted c xs size g
unfolding cache_evict
cache_evict-Evicted zero size c xs hold l = absurd (omega arith)
cache_evict-Evicted (suc fuel) size c xs hold l =
    elim (Bool-cases (ltb max_cache_size (c.cache_size + size))) [
      | inr e ↦ (c, rw e refl, all_kept c xs size hold (inr (ground arith)))
      | inl e ↦ elim (snoc_cases xs) [
        | inl none_left ↦
            let s = subst (λ zs. Seg c.entry 0 c.head zs 0 c.tail) none_left hold.seg in
            let last : (c.tail == 0) ≡ true = ground (arith, s.1) in
            (c, rw (e, last) refl, all_kept c xs size hold (inl none_left))
        | inr (ys, x, row) ↦
            let here = subst (Holds c) row hold in
            let d = drop_tail-Drops c ys x here in
            let shorter : length ys < fuel =
              omega (arith, ap (length {A = ℕ}) row, length-append ys (x ∷ [])) in
            let (g, e', r) = cache_evict-Evicted fuel size (drop_tail c) ys d.hold shorter in
            (
              g,
              rw (e, d.more) e',
              subst (λ zs. Evicted c zs size g) (sym row)
                  (one_dropped c ys x size here (ground arith) d r),
            )
      ]
    ]

evicted-Evicted :
    (fuel size : ℕ) (c : Cache) (xs : List ℕ)
    → Holds c xs
    → length xs < fuel
    → (g : Cache) × (evicted fuel size c ≡ some g) × Evicted c xs size g
unfolding evicted
evicted-Evicted fuel size c xs hold l =
    elim (Bool-cases (ltb max_cache_size (c.cache_size + size))) [
      | inl e ↦ let (g, e', r) = cache_evict-Evicted fuel size c xs hold l in (g, rw e e', r)
      | inr e ↦ (c, rw e refl, all_kept c xs size hold (inr (ground arith)))
    ]

-- The outcome of an insertion into a cache with the entries `xs`.
pub record Inserted (h : ℕ → Entry) (xs : List ℕ) (p : ℕ) (key value : List ℕ) (size : ℕ)
    (g : Cache) : Type 0 where
  pub kept : List ℕ
  pub dropped : List ℕ
  pub row : xs ≡ kept ++ dropped
  pub hold : Holds g (p ∷ kept)
  pub key_lem : (g.entry p).key ≡ c_string key
  pub value_lem : (g.entry p).value ≡ c_string value
  pub size_lem : (g.entry p).size ≡ size
  pub same : SameData h g.entry kept
  pub fits : (kept ≡ []) ⊎ (g.cache_size ≤ max_cache_size)
  pub needed : Needed h kept dropped size
  pub unlocked : g.locked ≡ false

-- The two branches of `add_entry`.
new_entry : (key value : List ℕ) → (size next : ℕ) → Entry
new_entry key value size next = record {
  key = c_string key;
  value = c_string value;
  size = size;
  prev = 0;
  next = next;
}

add_only :
    (p : ℕ) (key value : List ℕ) (size : ℕ) (c : Cache)
    → c.head ≡ 0
    → add_entry p key value size c ≡ record c {
      entry = write p (new_entry key value size 0) c.entry;
      head = p;
      tail = p;
      cache_size = c.cache_size + size;
      locked = false;
    }
unfolding add_entry new_entry
add_only p key value size c e = rw e refl

add_before :
    (p : ℕ) (key value : List ℕ) (size : ℕ) (c : Cache)
    → (c.head == 0) ≡ false
    → add_entry p key value size c ≡ record c {
      entry = set_prev c.head p (write p (new_entry key value size c.head) c.entry);
      head = p;
      cache_size = c.cache_size + size;
      locked = false;
    }
unfolding add_entry new_entry
add_before p key value size c e = rw e refl

record Adds (c : Cache) (xs : List ℕ) (p : ℕ) (key value : List ℕ) (size : ℕ) (g : Cache)
    : Type 0 where
  pub hold : Holds g (p ∷ xs)
  pub key_lem : (g.entry p).key ≡ c_string key
  pub value_lem : (g.entry p).value ≡ c_string value
  pub size_lem : (g.entry p).size ≡ size
  pub same : SameData c.entry g.entry xs
  pub total : g.cache_size ≡ c.cache_size + size
  pub unlocked : g.locked ≡ false

add_entry-Adds :
    (c : Cache) (xs : List ℕ) (p : ℕ) (key value : List ℕ) (size : ℕ)
    → Holds c xs
    → 0 < p
    → has p xs ≡ false
    → Adds c xs p key value size (add_entry p key value size c)
unfolding new_entry
add_entry-Adds c [] p key value size hold l out =
    subst (Adds c [] p key value size) (sym (add_only p key value size c hold.seg.0)) (record {
      hold = record {
        seg = (refl, l, ground arith, (ground arith, refl));
        distinct = (refl, tt);
        bytes = ground (arith, hold.bytes);
      };
      key_lem = ground arith;
      value_lem = ground arith;
      size_lem = ground arith;
      same = λ y m. cc;
      total = refl;
      unlocked = refl;
    })
add_entry-Adds c (a ∷ xs) p key value size hold l out =
    let live : (c.head == 0) ≡ false = ground (arith, hold.seg) in
    let other : (p == c.head) ≡ false = ground (arith, out, hold.seg.0) in
    let h = write p (new_entry key value size c.head) c.entry in
    let g = set_prev c.head p h in
    let same : SameData c.entry g (a ∷ xs) = λ y i. ground (arith, out) in
    let kept =
      Seg-frame c.entry h 0 c.head (a ∷ xs) 0 c.tail hold.seg (λ y i. ground (arith, out)) in
    let rest = Seg-set_prev h 0 c.head a xs 0 c.tail p hold.distinct kept in
    let forth : (g p).next ≡ c.head = ground (arith, other) in
    let size_lem : (g p).size ≡ size = ground (arith, other) in
    subst (Adds c (a ∷ xs) p key value size) (sym (add_before p key value size c live)) (record {
      hold = record {
        seg = (
          refl,
          l,
          ground (arith, other),
          subst (λ n. Seg g p n (a ∷ xs) 0 c.tail) (sym forth) rest,
        );
        distinct = (out, hold.distinct);
        bytes = omega (arith, hold.bytes, size_lem, sizes-frame c.entry g (a ∷ xs) same);
      };
      key_lem = ground (arith, other);
      value_lem = ground (arith, other);
      size_lem = size_lem;
      same = same;
      total = refl;
      unlocked = refl;
    })

insert_into-Inserted :
    (c : Cache) (xs : List ℕ) (p : ℕ) (key value : List ℕ) (size : ℕ) {g : Cache}
    → has p xs ≡ false
    → 0 < p
    → Evicted c xs size g
    → Inserted c.entry xs p key value size (add_entry p key value size g)
insert_into-Inserted c xs p key value size {g} out l r =
    let fresh : has p r.kept ≡ false =
      ground (arith, ap (has p) r.row, has-append p r.kept r.dropped) in
    let a = add_entry-Adds g r.kept p key value size r.hold l fresh in
    record {
      kept = r.kept;
      dropped = r.dropped;
      row = r.row;
      hold = a.hold;
      key_lem = a.key_lem;
      value_lem = a.value_lem;
      size_lem = a.size_lem;
      same = λ y i.
          let new = a.same y i in
          let old = r.same y i in (new.0 ∙ old.0, new.1 ∙ old.1, new.2 ∙ old.2);
      fits = elim r.fits [ inl e ↦ inl e | inr e ↦ inr (omega (arith, a.total)) ];
      needed = r.needed;
      unlocked = a.unlocked;
    }

-- `cache_insert` with the mutex free, of an entry at a new address, on a linked list of fewer
-- entries than the fuel, returns with the mutex free. The new entry is the first of the list; its
-- key and value are the strings that were given, and its size the number. Behind it the older
-- entries are kept in their order, from the most recent on, as far as they fit with it into
-- MAX_CACHE_SIZE bytes, and no entry is dropped that would still fit.
pub cache_insert-Inserted :
    (fuel : ℕ) (c : Cache) (xs : List ℕ) (p : ℕ) (key value : List ℕ) (size : ℕ)
    → c.locked ≡ false
    → Holds c xs
    → length xs < fuel
    → 0 < p
    → has p xs ≡ false
    → (g : Cache) × (cache_insert fuel p key value size c ≡ returns g)
      × Inserted c.entry xs p key value size g
unfolding cache_insert insert_into
cache_insert-Inserted fuel c xs p key value size free hold l live out =
    let c' = record c { locked = true } in
    let hold' : Holds c' xs = record {
      seg = hold.seg;
      distinct = hold.distinct;
      bytes = hold.bytes;
    } in
    let (g, e, r) = evicted-Evicted fuel size c' xs hold' l in
    let i = insert_into-Inserted c' xs p key value size out live r in
    (
      add_entry p key value size g,
      subst
          (λ b.
            (if b then waits else outcome (insert_into p key value size (evicted fuel size c')))
            ≡ returns (add_entry p key value size g))
          (sym free) (ap (λ o. outcome (insert_into p key value size o)) e),
      i,
    )

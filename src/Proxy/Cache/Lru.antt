-- ===== src/Proxy/Cache/Lru.antt =====
-- The cache of the proxy as a list of entries, the most recent first.
pub mod Find
pub mod Insert
use s_system_programmin.Common.{
  ℕ, zero, suc, ◌+◌, ◌≤◌, ◌<◌, ◌≡◌, refl, sym, ap, ◌∙◌, ◌⊎◌, inl, inr, Bool, true, false,
  Bool-cases, List, [], ◌∷◌, ◌++◌, ◌==◌, if◌then◌else◌, arith, has, erase,
}
use s_system_programmin.Proxy.Cache.{Entry, Cache, cache_init}
use s_system_programmin.Proxy.Cache.Links.{Seg, Distinct, has-append, Distinct-left, Distinct-right}

abbrev pub sizes : (ℕ → Entry) → List ℕ → ℕ
sizes h [] = 0
sizes h (x ∷ xs) = (h x).size + sizes h xs

-- The cache has the entries `xs`, linked in both directions, and counts their bytes.
pub record Holds (c : Cache) (xs : List ℕ) : Type 0 where
  pub seg : Seg c.entry 0 c.head xs 0 c.tail
  pub distinct : Distinct xs
  pub bytes : c.cache_size ≡ sizes c.entry xs

pub cache_init-Holds :
    (h : ℕ → Entry)
    → Holds (cache_init h) [] × ((cache_init h).cache_size ≡ 0) × ((cache_init h).locked ≡ false)
unfolding cache_init
cache_init-Holds h = (record { seg = (refl, refl); distinct = tt; bytes = refl }, refl, refl)

-- Keys, values and sizes are as before; only links may differ.
abbrev pub SameData : (h g : ℕ → Entry) → List ℕ → Type 0
SameData h g xs =
    (x : ℕ)
    → has x xs ≡ true
    → ((g x).key ≡ (h x).key) × ((g x).value ≡ (h x).value) × ((g x).size ≡ (h x).size)

pub sizes-frame : (h g : ℕ → Entry) (xs : List ℕ) → SameData h g xs → sizes g xs ≡ sizes h xs
sizes-frame h g [] same = refl
sizes-frame h g (x ∷ xs) same =
    omega (arith, (same x (ground arith)).2, sizes-frame h g xs (λ y m. same y (ground arith)))

pub sizes-erase :
    (h : ℕ → Entry) (x : ℕ) (xs : List ℕ)
    → has x xs ≡ true
    → (h x).size + sizes h (erase x xs) ≡ sizes h xs
sizes-erase h x [] m = cc
sizes-erase h x (y ∷ xs) m = ground (arith, sizes-erase h x xs)

pub sizes-append : (h : ℕ → Entry) (xs ys : List ℕ) → sizes h (xs ++ ys) ≡ sizes h xs + sizes h ys
sizes-append h [] ys = omega arith
sizes-append h (x ∷ xs) ys = omega (arith, sizes-append h xs ys)

-- A list cut before the first occurrence of an entry.
pub record Cut (x : ℕ) (xs : List ℕ) : Type 0 where
  pub before : List ℕ
  pub after : List ℕ
  pub row : xs ≡ before ++ (x ∷ after)
  pub rest : erase x xs ≡ before ++ after
  pub first : has x before ≡ false

pub Cut-before : (x : ℕ) (xs : List ℕ) → has x xs ≡ true → Cut x xs
Cut-before x [] m = cc
Cut-before x (y ∷ xs) m = elim (Bool-cases (y == x)) [
  | inl e ↦ record { before = []; after = xs; row = ground arith; rest = rw e refl; first = refl }
  | inr e ↦
      let c = Cut-before x xs (ground arith) in
      record {
        before = y ∷ c.before;
        after = c.after;
        row = ap (λ zs. y ∷ zs) c.row;
        rest = rw e (ap (λ zs. y ∷ zs) c.rest);
        first = ground (arith, c.first);
      }
]

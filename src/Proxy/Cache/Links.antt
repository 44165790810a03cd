-- ===== src/Proxy/Cache/Links.antt =====
-- Segments of the doubly linked list of cache.c, and what a write to a link does to them.
use s_system_programmin.Common.{
  ℕ, ◌<◌, ◌≡◌, refl, sym, subst, ◌∙◌, true, false, ◌||◌, List, [], ◌∷◌, ◌++◌, ◌==◌, arith, has,
}
pub use s_system_programmin.Common.{Distinct}
use s_system_programmin.Proxy.Cache.{Entry, set_next, set_prev}

-- From `p`, whose previous entry is `pv`, the links lead over `xs` to `q`; `l` is the last entry, or
-- `pv` if there is none.
abbrev pub Seg : (ℕ → Entry) → (pv p : ℕ) → List ℕ → (q l : ℕ) → Type 0
Seg h pv p [] q l = (p ≡ q) × (pv ≡ l)
Seg h pv p (x ∷ xs) q l = (p ≡ x) × (0 < x) × ((h x).prev ≡ pv) × Seg h x (h x).next xs q l

-- A list that is cut before an entry, and the two parts around it
pub has-append : (x : ℕ) (xs ys : List ℕ) → has x (xs ++ ys) ≡ (has x xs || has x ys)
has-append x [] ys = refl
has-append x (y ∷ xs) ys = ground (arith, has-append x xs ys)

pub Distinct-left : (xs ys : List ℕ) → Distinct (xs ++ ys) → Distinct xs
Distinct-left [] ys d = tt
Distinct-left (x ∷ xs) ys d = (ground (arith, has-append x xs ys), Distinct-left xs ys d.1)

pub Distinct-right : (xs ys : List ℕ) → Distinct (xs ++ ys) → Distinct ys
Distinct-right [] ys d = d
Distinct-right (x ∷ xs) ys d = Distinct-right xs ys d.1

pub Distinct-apart :
    (xs ys : List ℕ) (y : ℕ) → Distinct (xs ++ ys) → has y xs ≡ true → has y ys ≡ false
Distinct-apart [] ys y d m = cc
Distinct-apart (x ∷ xs) ys y d m = ground (arith, has-append x xs ys, Distinct-apart xs ys y d.1)

pub Distinct-join :
    (xs ys : List ℕ)
    → Distinct xs
    → Distinct ys
    → ((y : ℕ) → has y xs ≡ true → has y ys ≡ false)
    → Distinct (xs ++ ys)
Distinct-join [] ys d e apart = e
Distinct-join (x ∷ xs) ys d e apart = (
  ground (arith, has-append x xs ys, apart x),
  Distinct-join xs ys d.1 e (λ y m. apart y (ground arith)),
)

-- Two memories with the same links at the entries of a list.
abbrev pub SameLinks : (h g : ℕ → Entry) → List ℕ → Type 0
SameLinks h g xs = (x : ℕ) → has x xs ≡ true → ((g x).prev ≡ (h x).prev) × ((g x).next ≡ (h x).next)

pub Seg-frame :
    (h g : ℕ → Entry) (pv p : ℕ) (xs : List ℕ) (q l : ℕ)
    → Seg h pv p xs q l
    → SameLinks h g xs
    → Seg g pv p xs q l
Seg-frame h g pv p [] q l s same = s
Seg-frame h g pv p (x ∷ xs) q l s same =
    let here = same x (ground arith) in
    let rest = Seg-frame h g x (h x).next xs q l s.3 (λ y m. same y (ground arith)) in
    (s.0, s.1, here.0 ∙ s.2, rw here.1 rest)

pub Seg-split :
    (h : ℕ → Entry) (pv p : ℕ) (xs ys : List ℕ) (q l : ℕ)
    → Seg h pv p (xs ++ ys) q l
    → (m : ℕ) × (k : ℕ) × Seg h pv p xs m k × Seg h k m ys q l
Seg-split h pv p [] ys q l s = (p, pv, (refl, refl), s)
Seg-split h pv p (x ∷ xs) ys q l s =
    let (m, k, left, right) = Seg-split h x (h x).next xs ys q l s.3 in
    (m, k, (s.0, s.1, s.2, left), right)

pub Seg-join :
    (h : ℕ → Entry) (pv p : ℕ) (xs ys : List ℕ) (m k q l : ℕ)
    → Seg h pv p xs m k
    → Seg h k m ys q l
    → Seg h pv p (xs ++ ys) q l
Seg-join h pv p [] ys m k q l s t = rw (s.0, s.1) t
Seg-join h pv p (x ∷ xs) ys m k q l s t =
    (s.0, s.1, s.2, Seg-join h x (h x).next xs ys m k q l s.3 t)

-- The last entry of a segment is one of it.
pub Seg-last :
    (h : ℕ → Entry) (pv p x : ℕ) (xs : List ℕ) (q l : ℕ)
    → Seg h pv p (x ∷ xs) q l
    → has l (x ∷ xs) ≡ true
Seg-last h pv p x [] q l s = ground arith
Seg-last h pv p x (y ∷ xs) q l s = ground (arith, Seg-last h x (h x).next y xs q l s.3)

-- The last entry is given another successor.
pub Seg-set_next :
    (h : ℕ → Entry) (pv p x : ℕ) (xs : List ℕ) (q l q' : ℕ)
    → Distinct (x ∷ xs)
    → Seg h pv p (x ∷ xs) q l
    → Seg (set_next l q' h) pv p (x ∷ xs) q' l
Seg-set_next h pv p x [] q l q' d s = (s.0, s.1, ground arith, ground arith)
Seg-set_next h pv p x (y ∷ xs) q l q' d s =
    let rest = Seg-set_next h x (h x).next y xs q l q' d.1 s.3 in
    let last = Seg-last h x (h x).next y xs q l s.3 in
    let other : (x == l) ≡ false = ground (arith, d.0) in (s.0, s.1, rw other s.2, rw other rest)

-- The first entry is given another predecessor.
pub Seg-set_prev :
    (h : ℕ → Entry) (pv p x : ℕ) (xs : List ℕ) (q l pv' : ℕ)
    → Distinct (x ∷ xs)
    → Seg h pv p (x ∷ xs) q l
    → Seg (set_prev p pv' h) pv' p (x ∷ xs) q l
Seg-set_prev h pv p x xs q l pv' d s =
    let g = set_prev p pv' h in
    let rest =
      Seg-frame h g x (h x).next xs q l s.3
        (λ y m. (ground (arith, d.0, s.0), ground (arith, s.0))) in
    let next : (g x).next ≡ (h x).next = ground (arith, s.0) in
    (s.0, s.1, ground (arith, s.0), subst (λ n. Seg g x n xs q l) (sym next) rest)

pub Seg-positive :
    (h : ℕ → Entry) (pv p : ℕ) (xs : List ℕ) (q l x : ℕ)
    → Seg h pv p xs q l
    → has x xs ≡ true
    → 0 < x
Seg-positive h pv p [] q l x s m = cc
Seg-positive h pv p (y ∷ xs) q l x s m =
    ground (arith, s.1, Seg-positive h y (h y).next xs q l x s.3)

-- ===== src/Malloc/Fit.antt =====
-- `find_fit` of mm.c: the search ends within its fuel, at the first block of the list that is large
-- enough, or at the prologue.
use s_system_programmin.Common.{
  ℕ, zero, suc, ◌+◌, ◌-◌, ◌*◌, ◌≤◌, ◌<◌, ◌≡◌, refl, sym, ◌∙◌, inl, inr, Bool-cases, true, false,
  some, List, [], ◌∷◌, arith, length, leb, if◌then◌else◌,
}
use s_system_programmin.Malloc.Words.{Heap, alloc_at, size_at}
use s_system_programmin.Malloc.{find_fit, find_fit_from}
use s_system_programmin.Malloc.Links.{has, erase, Nodes, Linked, has-erase, Nodes-erase}
use s_system_programmin.Malloc.Layout.{Block, total, is_free, Sized, Tags}
use s_system_programmin.Malloc.Invariant.{prologue, Inv}

-- The specification: the first block of the list with `size` bytes, or 0.
pub first_fit : (ℕ → ℕ) → ℕ → List ℕ → ℕ
first_fit w size [] = 0
first_fit w size (f ∷ fs) = if leb size (size_at w f) then f else first_fit w size fs

find_fit_from-first_fit :
    (fuel : ℕ) (w : ℕ → ℕ) (size pv p : ℕ) (fs : List ℕ) (s : ℕ)
    → Linked w pv p fs s
    → ((f : ℕ) → has f fs ≡ true → alloc_at w f ≡ false)
    → alloc_at w s ≡ true
    → length fs < fuel
    → find_fit_from fuel w size p ≡ some (first_fit w size fs)
unfolding find_fit_from first_fit
find_fit_from-first_fit zero w size pv p fs s l free end h = absurd (omega arith)
find_fit_from-first_fit (suc fuel) w size pv p [] s l free end h = rw (l.0, end)
find_fit_from-first_fit (suc fuel) w size pv p (f ∷ fs) s l free end h =
    let here : alloc_at w f ≡ false = free f (ground arith) in
    let rest =
      find_fit_from-first_fit fuel w size f (w f) fs s l.2 (λ q m. free q (ground arith)) end
        (omega arith) in
    elim (Bool-cases (leb size (size_at w f))) [
      | inl e ↦ rw (l.0, here, e) refl
      | inr e ↦ rw (l.0, here, e) rest
    ]

length-erase : (q : ℕ) (fs : List ℕ) → length fs ≤ suc (length (erase q fs))
length-erase q [] = omega arith
length-erase q (f ∷ fs) = ground (arith, length-erase q fs)

-- There are not more free blocks than blocks.
length-le-blocks :
    (s p : ℕ) (bs : List Block) (fs : List ℕ)
    → Nodes s fs
    → ((f : ℕ) → has f fs ≡ true → is_free p bs f ≡ true)
    → length fs ≤ length bs
length-le-blocks s p [] [] n l = omega arith
length-le-blocks s p [] (f ∷ fs) n l = ground (arith, l f)
length-le-blocks s p (b ∷ bs) fs n l = omega (
  arith,
  length-erase p fs,
  length-le-blocks s (p + b.size) bs (erase p fs) (Nodes-erase s p fs n)
      (λ f m. ground (arith, l f, has-erase s p f fs)),
)

length-le-total : (bs : List Block) → Sized bs → 16 * length bs ≤ total bs
length-le-total [] s = omega arith
length-le-total (b ∷ bs) s = omega (arith, length-le-total bs s.2)

-- A free block is marked so in its header.
free-alloc_at :
    (w : ℕ → ℕ) (p : ℕ) (bs : List Block) (q : ℕ)
    → Tags w p bs
    → Sized bs
    → is_free p bs q ≡ true
    → alloc_at w q ≡ false
free-alloc_at w p [] q t s f = cc
free-alloc_at w p (b ∷ bs) q t s f = ground (arith, free-alloc_at w (p + b.size) bs q)

-- What the search finds: no block of the list is large enough, or the one at `r` is.
pub data Found (w : ℕ → ℕ) (size : ℕ) (fs : List ℕ) : ℕ → Type 0 where
  no_fit : ((f : ℕ) → has f fs ≡ true → size_at w f < size) → Found w size fs 0
  fits : {r : ℕ} → has r fs ≡ true → size ≤ size_at w r → Found w size fs r

later :
    (w : ℕ → ℕ) (size f : ℕ) (fs : List ℕ) {r : ℕ}
    → leb size (size_at w f) ≡ false
    → Found w size fs r
    → Found w size (f ∷ fs) r
later w size f fs e (no_fit none_fits) = no_fit (λ q m. ground (arith, none_fits q))
later w size f fs e (fits m l) = fits (ground arith) l

pub first_fit-Found : (w : ℕ → ℕ) (size : ℕ) (fs : List ℕ) → Found w size fs (first_fit w size fs)
unfolding first_fit
first_fit-Found w size [] = no_fit (λ f m. cc)
first_fit-Found w size (f ∷ fs) = elim (Bool-cases (leb size (size_at w f))) [
  | inl e ↦ rw e (fits (ground arith) (ground arith))
  | inr e ↦ rw e (later w size f fs e (first_fit-Found w size fs))
]

-- `find_fit` on a well-formed heap ends within its fuel, with the first block of the free list
-- that is large enough, or with NULL if there is none.
pub find_fit-first_fit :
    {h : Heap} {bs : List Block} {fs : List ℕ} (size : ℕ)
    → Inv h bs fs
    → find_fit size h ≡ some (first_fit h.word size fs)
unfolding find_fit
find_fit-first_fit {h} {bs} {fs} size inv =
    let l = inv.laid in
    let s = h.heap_listp in
    let row = prologue ∷ bs in
    find_fit_from-first_fit (h.brk - h.start_brk) h.word size 0 h.freelist_head fs s inv.list.linked
      (λ f m. free-alloc_at h.word s row f l.tags l.sized (sym (inv.listed f) ∙ m))
      (ground (arith, l.tags.0))
      (omega (
        arith,
        length-le-blocks s s row fs inv.list.nodes (λ f m. sym (inv.listed f) ∙ m),
        length-le-total row l.sized,
        l.ends,
        l.start,
      ))

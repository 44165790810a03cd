-- ===== src/Malloc/Coalesce/Around.antt =====
-- The neighbours of a block, as `coalesce` reads them from the boundary tags.
use s_system_programmin.Common.{
  ℕ, ◌+◌, ◌-◌, ◌%◌, ◌≤◌, ◌<◌, ◌≡◌, refl, ap, sym, ◌⊎◌, inl, inr, ◌∙◌, subst, Bool, true, false,
  List, [], ◌∷◌, ◌++◌, arith, append_assoc,
}
use s_system_programmin.Malloc.Words.{Heap, pack, alloc_of, alloc_at, ftrp, prev_blkp, next_blkp}
use s_system_programmin.Malloc.{join, by_neighbours, join_next, join_prev, join_both}
use s_system_programmin.Malloc.Layout.{Block, block, total, last_used, total-append}
use s_system_programmin.Malloc.Invariant.{Laid}
use s_system_programmin.Malloc.Stands.{stands, next_header}

abbrev pub Snoc : List Block → Type 0
Snoc xs = (xs ≡ []) ⊎ ((ys : List Block) × (b : Block) × (xs ≡ ys ++ (b ∷ [])))

pub Snoc-cases : (xs : List Block) → Snoc xs
Snoc-cases [] = inl refl
Snoc-cases (x ∷ xs) = elim (Snoc-cases xs) [
  | inl e ↦ inr ([], x, rw e)
  | inr (ys, b, e) ↦ inr (x ∷ ys, b, rw e)
]

pub last_used-snoc :
    (prev : Bool) (xs : List Block) (b : Block) → last_used prev (xs ++ (b ∷ [])) ≡ b.used
last_used-snoc prev [] b = refl
last_used-snoc prev (x ∷ xs) b = last_used-snoc x.used xs b

-- The state of the block behind the last one is that of the epilogue.
abbrev pub first_used : List Block → Bool
first_used [] = true
first_used (b ∷ bs) = b.used

-- The block before `bp`, the prologue included.
pub record Before (h : Heap) (u : Bool) (bp : ℕ) : Type 0 where
  pub size : ℕ
  pub header : h.word (bp - size - 4) ≡ pack size u
  pub footer : h.word (bp - 8) ≡ pack size u
  pub large : 16 ≤ size
  pub even : size % 8 ≡ 0
  pub fits : 8 + size < bp

pub before :
    {h : Heap} (xs : List Block) (c : Block) (ys : List Block) (bp : ℕ)
    → Laid h (xs ++ (c ∷ ys))
    → bp ≡ h.heap_listp + 16 + total xs
    → Before h (last_used true xs) bp
before {h} xs c ys bp l e = elim (Snoc-cases xs) [
  | inl f ↦
      let s = stands xs c ys bp l e in
      let e' : bp ≡ h.heap_listp + 16 = omega (arith, ap total f, e) in
      rw f (record {
        size = 16;
        header = rw e' (ground (arith, l.tags.0, s.sentinel));
        footer = rw e' (ground (arith, l.tags.1, s.sentinel));
        large = omega arith;
        even = refl;
        fits = omega (arith, s.sentinel);
      })
  | inr (ws, b, f) ↦
      let row : (ws ++ (b ∷ [])) ++ (c ∷ ys) ≡ ws ++ (b ∷ c ∷ ys) =
        append_assoc ws (b ∷ []) (c ∷ ys) in
      let l' : Laid h (ws ++ (b ∷ c ∷ ys)) = subst (Laid h) (ap (λ zs. zs ++ (c ∷ ys)) f ∙ row) l in
      let sum : total xs ≡ total ws + b.size = rw f (omega (arith, total-append ws (b ∷ []))) in
      let s = stands ws b (c ∷ ys) (bp - b.size) l' (omega arith) in
      let back : bp - b.size + b.size - 8 ≡ bp - 8 = omega (arith, s.start) in
      rw (f, last_used-snoc true ws b)
        (record {
          size = b.size;
          header = s.header;
          footer = rw back at s.footer;
          large = s.large;
          even = s.even;
          fits = omega (arith, s.start, s.sentinel);
        })
]

-- What `GET_ALLOC(HDRP(NEXT_BLKP(bp)))` sees.
pub after :
    {h : Heap} (xs : List Block) (c : Block) (ys : List Block) (bp : ℕ)
    → Laid h (xs ++ (c ∷ ys))
    → bp ≡ h.heap_listp + 16 + total xs
    → alloc_of (h.word (bp + c.size - 4)) ≡ first_used ys
after {h} xs c [] bp l e = rw (next_header xs c bp l e)
after {h} xs c (d ∷ ys) bp l e =
    let l' : Laid h ((xs ++ (c ∷ [])) ++ (d ∷ ys)) =
      subst (Laid h) (sym (append_assoc xs (c ∷ []) (d ∷ ys))) l in
    let s =
      stands (xs ++ (c ∷ [])) d ys (bp + c.size) l' (omega (arith, total-append xs (c ∷ []))) in
    ground (arith, s.header, s.even)

-- `coalesce` tells the cases apart by the true states of the neighbours.
pub join-by_neighbours :
    {h : Heap} (xs : List Block) (n : ℕ) (ys : List Block) (bp : ℕ)
    → Laid h (xs ++ (block n false ∷ ys))
    → bp ≡ h.heap_listp + 16 + total xs
    → join bp h
      ≡ by_neighbours
          (last_used true xs)
          (first_used ys)
          (h, bp)
          (join_next bp h)
          (join_prev bp h)
          (join_both bp h)
unfolding join
join-by_neighbours {h} xs n ys bp l e =
    let b = before xs (block n false) ys bp l e in
    let s = stands xs (block n false) ys bp l e in
    let prev : alloc_of (h.word (ftrp h.word (prev_blkp h.word bp))) ≡ last_used true xs =
      ground (arith, b.header, b.footer, b.even, b.large, b.fits) in
    let next : alloc_at h.word (next_blkp h.word bp) ≡ first_used ys =
      ground (arith, after xs (block n false) ys bp l e, s.header, s.even, s.start) in
    rw (prev, next)

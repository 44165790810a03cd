-- ===== src/Malloc/Invariant.antt =====
-- Well-formed heaps of mm.c: a row of tagged blocks behind the prologue, the free ones linked.
use s_system_programmin.Common.{
  ℕ, ◌+◌, ◌-◌, ◌%◌, ◌^◌, ◌≤◌, ◌<◌, ◌≡◌, ap, subst, ◌∙◌, true, false, ◌||◌, Option, none, some, List,
  ◌∷◌, ◌++◌, arith, ltb, leb, if◌then◌else◌,
}
use s_system_programmin.Malloc.Words.{Heap, pack}
use s_system_programmin.Malloc.Links.{has, is_link}
use s_system_programmin.Malloc.FreeList.{FreeList}
use s_system_programmin.Malloc.Layout.{
  Block, block, total, Sized, Tags, is_tag, used_at, is_free, Spaced, total-append, Sized-append,
  Sized-join, Tags-append, Tags-join, Tags-frame, is_tag-left, is_tag-right, tag_range,
  tag_not_link, end_not_link, used_range, used_at-append, is_free-append, payload_not_link,
}

abbrev pub prologue : Block
prologue = block 16 true

-- The blocks `bs` behind the prologue fill the heap up to the epilogue.
pub record Laid (h : Heap) (bs : List Block) : Type 0 where
  pub tags : Tags h.word h.heap_listp (prologue ∷ bs)
  pub sized : Sized (prologue ∷ bs)
  pub ends : h.heap_listp + total (prologue ∷ bs) ≡ h.brk
  pub epilogue : h.word (h.brk - 4) ≡ pack 0 true
  pub start : h.heap_listp ≡ h.start_brk + 8
  pub aligned : h.start_brk % 8 ≡ 0
  pub not_null : 0 < h.start_brk
  pub below : h.brk ≤ h.max_addr
  pub small : h.max_addr < 2 ^ 32

-- Every heap that mm.c leaves behind: `bs` are the blocks and `fs` is the free list.
pub record Inv (h : Heap) (bs : List Block) (fs : List ℕ) : Type 0 where
  pub laid : Laid h bs
  pub list : FreeList h h.heap_listp fs
  pub listed : (q : ℕ) → has q fs ≡ is_free h.heap_listp (prologue ∷ bs) q
  pub spaced : Spaced true bs

-- The live allocations of a heap: the size of the allocated block at a pointer. The prologue is
-- none of them.
abbrev pub live : Heap → List Block → ℕ → Option ℕ
live h bs q = used_at (h.heap_listp + 16) bs q

-- The payload of every allocated block of `bs` is the same in `g` as in `h`.
abbrev pub KeepsPayload : Heap → List Block → Heap → Type 0
KeepsPayload h bs g =
    (q n x : ℕ) → live h bs q ≡ some n → q ≤ x → x + 8 < q + n → g.word x ≡ h.word x

-- Outside the range from `lo` to `hi`, tags included, only links of `fs` change.
pub record Changed (fs : List ℕ) (lo hi : ℕ) (h g : Heap) : Type 0 where
  pub words :
      (x : ℕ)
      → is_link x (h.heap_listp ∷ fs) ≡ false
      → (ltb (x + 4) lo || leb hi (x + 4)) ≡ true
      → g.word x ≡ h.word x
  pub mem : g.mem ≡ h.mem
  pub listp : g.heap_listp ≡ h.heap_listp

-- The links of free blocks are not tags.
abbrev pub Among : List ℕ → ℕ → List Block → Type 0
Among fs s bs = (q : ℕ) → has q fs ≡ true → is_free s bs q ≡ true

module _ {h g : Heap} {fs : List ℕ} {lo hi : ℕ} (xs ms ns ys : List Block)
    (l : Laid h (xs ++ (ms ++ ys))) (among : Among fs h.heap_listp (prologue ∷ xs ++ (ms ++ ys)))
    (c : Changed fs lo hi h g) (e : lo ≡ h.heap_listp + total (prologue ∷ xs))
    (e' : hi ≡ lo + total ms) where
  spared :
      (x : ℕ)
      → is_tag h.heap_listp (prologue ∷ xs ++ (ms ++ ys)) x ≡ true
      → (ltb (x + 4) lo || leb hi (x + 4)) ≡ true
      → g.word x ≡ h.word x
  spared x t o =
      let big : 8 ≤ h.heap_listp = omega (arith, l.start) in
      let apart =
        tag_not_link h.heap_listp (prologue ∷ xs ++ (ms ++ ys)) fs x big l.sized among t in
      let inner = tag_range (h.heap_listp + 16) (xs ++ (ms ++ ys)) x (omega arith) l.sized.2 in
      c.words x (ground arith) o

  -- The blocks `ms` between `lo` and `hi` are replaced by `ns`; the rest of the row stays.
  pub replace : Tags g.word lo ns → total ns ≡ total ms → Sized ns → Laid g (xs ++ (ns ++ ys))
  replace t same s =
      let big : 8 ≤ h.heap_listp = omega (arith, l.start) in
      let ps = prologue ∷ xs in
      let (sized_left, sized_right) = Sized-append ps (ms ++ ys) l.sized in
      let sized_end = (Sized-append ms ys sized_right).1 in
      let (left, right) = Tags-append h.word h.heap_listp ps (ms ++ ys) l.tags in
      let (_, end) = Tags-append h.word (h.heap_listp + total ps) ms ys right in
      let left' = Tags-frame h.word g.word h.heap_listp ps left λ x k.
        spared x (is_tag-left h.heap_listp ps (ms ++ ys) x k)
          (ground (arith, tag_range h.heap_listp ps x big sized_left k)) in
      let right' =
        Tags-frame h.word g.word hi ys (subst (λ a. Tags h.word a ys) (omega arith) end) λ x k.
          spared x
            (is_tag-right h.heap_listp ps (ms ++ ys) lo x e (is_tag-right lo ms ys hi x e' k))
            (ground (arith, tag_range hi ys x (omega arith) sized_end k)) in
      let middle =
        Tags-join g.word lo ns ys t (subst (λ a. Tags g.word a ys) (omega arith) right') in
      let brk : g.brk ≡ h.brk = ap (λ m. m.brk) c.mem in
      let spot = end_not_link h.heap_listp (ps ++ (ms ++ ys)) fs (h.brk - 4) l.sized among in
      record {
        tags = rw c.listp (
            Tags-join g.word h.heap_listp ps (ns ++ ys) left'
              (subst (λ a. Tags g.word a (ns ++ ys)) e middle));
        sized = Sized-join ps (ns ++ ys) sized_left (Sized-join ns ys s sized_end);
        ends = omega (
          arith,
          c.listp,
          brk,
          l.ends,
          total-append xs (ms ++ ys),
          total-append ms ys,
          total-append xs (ns ++ ys),
          total-append ns ys,
        );
        epilogue = rw brk (
            c.words (h.brk - 4) (ground (arith, spot, l.ends))
              (ground (arith, l.ends, total-append xs (ms ++ ys), total-append ms ys))
            ∙ l.epilogue);
        start = ground (arith, c.listp, c.mem, l.start);
        aligned = ground (arith, c.mem, l.aligned);
        not_null = ground (arith, c.mem, l.not_null);
        below = ground (arith, c.mem, l.below);
        small = ground (arith, c.mem, l.small);
      }

-- A row cut in three: the blocks up to `lo`, those up to `hi`, and the rest.
pub used_at_parts :
    (p : ℕ) (xs ms ys : List Block) (lo hi q : ℕ)
    → Sized (xs ++ (ms ++ ys))
    → lo ≡ p + total xs
    → hi ≡ lo + total ms
    → used_at p (xs ++ (ms ++ ys)) q
      ≡ (if ltb q lo then used_at p xs q else if ltb q hi then used_at lo ms q else used_at hi ys q)
used_at_parts p xs ms ys lo hi q s e e' =
    let (left, right) = Sized-append xs (ms ++ ys) s in
    rw (
      used_at-append p xs (ms ++ ys) lo q left e,
      used_at-append lo ms ys hi q (Sized-append ms ys right).0 e',
    )

pub is_free_parts :
    (p : ℕ) (xs ms ys : List Block) (lo hi q : ℕ)
    → Sized (xs ++ (ms ++ ys))
    → lo ≡ p + total xs
    → hi ≡ lo + total ms
    → is_free p (xs ++ (ms ++ ys)) q
      ≡ (if ltb q lo then is_free p xs q else if ltb q hi then is_free lo ms q else is_free hi ys q)
is_free_parts p xs ms ys lo hi q s e e' =
    let (left, right) = Sized-append xs (ms ++ ys) s in
    rw (
      is_free-append p xs (ms ++ ys) lo q left e,
      is_free-append lo ms ys hi q (Sized-append ms ys right).0 e',
    )

-- A change between `lo` and `hi`, where no block is allocated, keeps every payload.
pub Changed-KeepsPayload :
    {h g : Heap} {fs : List ℕ} {lo hi : ℕ} (xs ms ys : List Block)
    → Laid h (xs ++ (ms ++ ys))
    → Among fs h.heap_listp (prologue ∷ xs ++ (ms ++ ys))
    → Changed fs lo hi h g
    → lo ≡ h.heap_listp + total (prologue ∷ xs)
    → hi ≡ lo + total ms
    → ((q : ℕ) → used_at lo ms q ≡ none)
    → KeepsPayload h (xs ++ (ms ++ ys)) g
Changed-KeepsPayload {h} {g} {fs} {lo} {hi} xs ms ys l among c e e' quiet q n x u a b =
    let s = h.heap_listp in
    let row = xs ++ (ms ++ ys) in
    let parts = used_at_parts (s + 16) xs ms ys lo hi q l.sized.2 (omega arith) e' in
    let (left, right) = Sized-append xs (ms ++ ys) l.sized.2 in
    let range = used_range (s + 16) row q n l.sized.2 u in
    let full : used_at s (prologue ∷ row) q ≡ some n = ground arith in
    let apart = payload_not_link s (prologue ∷ row) q n x fs l.sized full a b among in
    c.words x (ground arith) (
      ground (
        arith,
        quiet q,
        used_range (s + 16) xs q n left,
        used_range hi ys q n (Sized-append ms ys right).1,
      ))

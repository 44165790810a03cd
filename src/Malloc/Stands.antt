-- ===== src/Malloc/Stands.antt =====
-- A single block of a well-formed row: what its words hold and where it lies.
use s_system_programmin.Common.{
  ℕ, ◌+◌, ◌-◌, ◌%◌, ◌^◌, ◌≤◌, ◌<◌, ◌≡◌, subst, List, ◌∷◌, ◌++◌, arith, true, false, [],
}
use s_system_programmin.Malloc.Words.{Heap, pack}
use s_system_programmin.Malloc.Links.{is_link}
use s_system_programmin.Malloc.Layout.{
  Block, total, Tags, is_tag, is_tag-right, tag_not_link, Sized-append, Tags-append, total_mod,
  total-append,
}
use s_system_programmin.Malloc.Invariant.{prologue, Laid, Among}

pub record Stands (h : Heap) (b : Block) (bp : ℕ) : Type 0 where
  pub header : h.word (bp - 4) ≡ pack b.size b.used
  pub footer : h.word (bp + b.size - 8) ≡ pack b.size b.used
  pub large : 16 ≤ b.size
  pub even : b.size % 8 ≡ 0
  pub bp_mod : bp % 8 ≡ 0
  pub sentinel : 8 < h.heap_listp
  pub start : h.heap_listp + 16 ≤ bp
  pub end : bp + b.size ≤ h.brk
  pub small : h.brk < 2 ^ 32

pub stands :
    {h : Heap} (xs : List Block) (b : Block) (ys : List Block) (bp : ℕ)
    → Laid h (xs ++ (b ∷ ys))
    → bp ≡ h.heap_listp + 16 + total xs
    → Stands h b bp
stands {h} xs b ys bp l e =
    let ps = prologue ∷ xs in
    let (left, right) = Sized-append ps (b ∷ ys) l.sized in
    let e' : h.heap_listp + total ps ≡ bp = omega arith in
    let tags =
      subst (λ a. Tags h.word a (b ∷ ys)) e'
        (Tags-append h.word h.heap_listp ps (b ∷ ys) l.tags).1 in
    record {
      header = tags.0;
      footer = tags.1;
      large = right.0;
      even = right.1;
      bp_mod = omega (arith, total_mod ps left, l.start, l.aligned);
      sentinel = omega (arith, l.start, l.not_null);
      start = omega arith;
      end = omega (arith, l.ends, total-append xs (b ∷ ys));
      small = omega (arith, l.below, l.small);
    }

-- The word that `HDRP(NEXT_BLKP(bp))` reads behind the last block is the epilogue.
pub next_header :
    {h : Heap} (xs : List Block) (b : Block) (bp : ℕ)
    → Laid h (xs ++ (b ∷ []))
    → bp ≡ h.heap_listp + 16 + total xs
    → h.word (bp + b.size - 4) ≡ pack 0 true
next_header {h} xs b bp l e =
    let here : bp + b.size ≡ h.brk = omega (arith, l.ends, total-append xs (b ∷ [])) in
    rw here l.epilogue

-- The tags of a block are not links of the free list.
pub tags_not_link :
    {h : Heap} (fs : List ℕ) (xs : List Block) (b : Block) (ys : List Block) (bp : ℕ)
    → Laid h (xs ++ (b ∷ ys))
    → bp ≡ h.heap_listp + 16 + total xs
    → Among fs h.heap_listp (prologue ∷ xs ++ (b ∷ ys))
    → (is_link (bp - 4) (h.heap_listp ∷ fs) ≡ false)
      × (is_link (bp + b.size - 8) (h.heap_listp ∷ fs) ≡ false)
tags_not_link {h} fs xs b ys bp l e among =
    let s = h.heap_listp in
    let ps = prologue ∷ xs in
    let here = stands xs b ys bp l e in
    let free = λ (x : ℕ) (t : is_tag bp (b ∷ ys) x ≡ true).
      tag_not_link s (ps ++ (b ∷ ys)) fs x (omega (arith, here.sentinel)) l.sized among
        (is_tag-right s ps (b ∷ ys) bp x (omega arith) t) in
    (
      ground (arith, free (bp - 4) (ground arith), here.start),
      ground (arith, free (bp + b.size - 8) (ground arith), here.start, here.large),
    )

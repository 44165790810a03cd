-- ===== src/Malloc/Extend.antt =====
-- `extend_heap` of mm.c: the old epilogue becomes the header of a new free block.
use s_system_programmin.Common.{
  ℕ, ◌+◌, ◌-◌, ◌*◌, ◌%◌, ◌^◌, ◌≤◌, ◌≡◌, refl, sym, subst, ◌∙◌, Bool, true, false, ◌||◌, Option,
  none, some, List, [], ◌∷◌, ◌++◌, arith, ltb, ◌==◌, if◌then◌else◌, inl, inr, Bool-cases,
  Option-cases,
}
use s_system_programmin.Memlib.{mem_sbrk}
use s_system_programmin.Malloc.Words.{Heap, pack, put, put_tags, next_blkp}
use s_system_programmin.Malloc.{coalesce, extend_heap, extend_block}
use s_system_programmin.Malloc.Links.{Linked-frame}
use s_system_programmin.Malloc.Layout.{
  Block, block, Tags, is_free-append, used_at, used_at-append, used_range, free_range, Sized,
  Sized-join, Spaced-join, Tags-frame, Tags-join, tag_range, end_not_link, total-append,
}
use s_system_programmin.Malloc.Invariant.{prologue, Laid, Inv, live, Among}
use s_system_programmin.Malloc.Region.{put_tags-Tagged}
use s_system_programmin.Malloc.Coalesce.Merge.{Pending}
use s_system_programmin.Malloc.Coalesce.Main.{Coalesced, coalesce-Coalesced}

module _ {h : Heap} {bs : List Block} {fs : List ℕ} (inv : Inv h bs fs) (m : ℕ) (large : 16 ≤ m)
    (even : m % 8 ≡ 0) (room : h.brk + m ≤ h.max_addr) where
  moved : Heap
  moved = record h { mem = record h.mem { brk = h.brk + m } }

  grown : Heap
  grown = put (h.brk + m - 4) 1 (put_tags h.brk (pack m false) moved)

  -- What is written: the new block's tags and the new epilogue.
  record Grown : Type 0 where
    header : grown.word (h.brk - 4) ≡ m
    footer : grown.word (h.brk + m - 8) ≡ m
    epilogue : grown.word (h.brk + m - 4) ≡ 1
    others : (x : ℕ) → x + 8 ≤ h.brk → grown.word x ≡ h.word x
    brk : grown.brk ≡ h.brk + m
    start : grown.start_brk ≡ h.start_brk
    max : grown.max_addr ≡ h.max_addr
    listp : grown.heap_listp ≡ h.heap_listp
    head : grown.freelist_head ≡ h.freelist_head

  big : 32 ≤ h.brk
  big = omega (arith, inv.laid.ends, inv.laid.start)

  grown_lem : Grown
  unfolding grown moved
  grown_lem =
      let t = put_tags-Tagged h.brk m false moved (omega (arith, big)) large even in
      record {
        header = ground (arith, t.header, big);
        footer = ground (arith, t.footer, big);
        epilogue = ground arith;
        others = λ x l. ground (arith, t.others x, big);
        brk = refl;
        start = refl;
        max = refl;
        listp = refl;
        head = refl;
      }

  among : Among fs h.heap_listp (prologue ∷ bs)
  among q l = sym (inv.listed q) ∙ l

  sized : Sized (prologue ∷ bs ++ (block m false ∷ []))
  sized = Sized-join (prologue ∷ bs) (block m false ∷ []) inv.laid.sized (large, even, tt)

  laid : Laid grown (bs ++ (block m false ∷ []))
  laid =
      let w = grown_lem in
      let l = inv.laid in
      let s = h.heap_listp in
      let ps = prologue ∷ bs in
      let old = Tags-frame h.word grown.word s ps l.tags λ x t.
        w.others x (omega (arith, tag_range s ps x (omega (arith, l.start)) l.sized t, l.ends)) in
      record {
        tags = rw w.listp (
            Tags-join grown.word s ps (block m false ∷ []) old (
              subst (λ a. Tags grown.word a (block m false ∷ [])) (sym l.ends)
                (w.header, w.footer, tt)));
        sized = sized;
        ends = omega (arith, w.listp, w.brk, l.ends, total-append bs (block m false ∷ []));
        epilogue = rw w.brk w.epilogue;
        start = omega (arith, w.listp, w.start, l.start);
        aligned = rw w.start l.aligned;
        not_null = rw w.start l.not_null;
        below = omega (arith, w.brk, w.max);
        small = rw w.max l.small;
      }

  pending : Pending grown bs m [] fs h.brk
  pending =
      let w = grown_lem in
      let l = inv.laid in
      let s = h.heap_listp in
      let list = Linked-frame h.word grown.word 0 h.freelist_head fs s inv.list.linked λ x k.
        w.others x (ground (arith, end_not_link s (prologue ∷ bs) fs x l.sized among, l.ends)) in
      record {
        laid = laid;
        list = record { linked = rw (w.head, w.listp) list; nodes = rw w.listp inv.list.nodes };
        listed = λ q. rw w.listp (
            ground (
              arith,
              inv.listed q,
              is_free-append (s + 16) bs (block m true ∷ []) h.brk q l.sized.2
                  (omega (arith, l.ends)),
              free_range (s + 16) bs q l.sized.2,
              l.ends,
            ));
        spaced = Spaced-join true bs (block m true ∷ []) inv.spaced (ground arith, tt);
        here = omega (arith, w.listp, l.ends);
      }

  live_grown : (q : ℕ) → live grown (bs ++ (block m false ∷ [])) q ≡ live h bs q
  live_grown q =
      let s = h.heap_listp in
      let cut =
        used_at-append (s + 16) bs (block m false ∷ []) h.brk q inv.laid.sized.2
          (omega (arith, inv.laid.ends)) in
      rw grown_lem.listp (elim (Option-cases (used_at (s + 16) bs q)) [
        | inl e ↦ ground (arith, cut)
        | inr (n, e) ↦
            ground (arith, cut, used_range (s + 16) bs q n inv.laid.sized.2 e, inv.laid.ends)
      ])

  -- The new block is joined with a free block before it, and all allocations stay.
  extended :
      (r : Heap × ℕ)
      → Coalesced grown (bs ++ (block m false ∷ [])) m r.0 r.1
      → Coalesced h bs m r.0 r.1
  extended r c = record {
    before = c.before;
    size = c.size;
    after = c.after;
    frees = c.frees;
    inv = c.inv;
    here = c.here;
    grown = c.grown;
    live_lem = λ q. c.live_lem q ∙ live_grown q;
    payload = λ q n x u a b.
        c.payload q n x (live_grown q ∙ u) a b
        ∙ grown_lem.others x (
            omega (arith, used_range (h.heap_listp + 16) bs q n inv.laid.sized.2 u, inv.laid.ends));
    first = c.first;
  }

-- The bytes that `extend_heap` asks for.
abbrev pub extend_size : ℕ → ℕ
extend_size words = (if words % 2 == 1 then (words + 1) * 4 else words * 4) % 2 ^ 32

abbrev pub refused : ℕ → Heap → Bool
refused m h = ltb (2 ^ 31 - 1) m || ltb h.max_addr (h.brk + m)

-- What `extend_heap` returns: NULL if the memory is exhausted, or the new free block.
pub data Extends (h : Heap) (bs : List Block) (m : ℕ) : Option (Heap × ℕ) → Type 0 where
  exhausted : refused m h ≡ true → Extends h bs m none
  extends :
      {g : Heap} {p : ℕ} → refused m h ≡ false → Coalesced h bs m g p → Extends h bs m (some (g, p))

extend_block-Extends :
    {h : Heap} {bs : List Block} {fs : List ℕ} (m : ℕ)
    → Inv h bs fs
    → 16 ≤ m
    → m % 8 ≡ 0
    → Extends h bs m (extend_block m h (mem_sbrk m h.mem))
unfolding extend_block mem_sbrk grown moved
extend_block-Extends {h} {bs} m inv large even = elim (Bool-cases (refused m h)) [
  | inl e ↦ rw e (exhausted e)
  | inr e ↦
      let room : h.brk + m ≤ h.max_addr = ground arith in
      let w =
        put_tags-Tagged h.brk m false (moved inv m large even room)
          (omega (arith, big inv m large even room)) large even in
      let next : next_blkp (put_tags h.brk (pack m false) (moved inv m large even room)).word h.brk
          ≡ h.brk + m =
        omega (arith, w.header, even) in
      rw (e, next)
        (extends e (
          extended inv m large even room (coalesce h.brk (grown inv m large even room))
            (coalesce-Coalesced bs m [] h.brk (pending inv m large even room))))
]

-- `extend_heap` on a well-formed heap rounds the request, of at least 16 bytes after rounding, up to
-- an even number of words. It returns NULL exactly if the memory refuses it, or else makes one free
-- block of that size at least, in a well-formed heap with all allocations as before.
pub extend_heap-Extends :
    {h : Heap} {bs : List Block} {fs : List ℕ} (words : ℕ)
    → Inv h bs fs
    → 16 ≤ extend_size words
    → Extends h bs (extend_size words) (extend_heap words h)
unfolding extend_heap
extend_heap-Extends words inv large =
    extend_block-Extends (extend_size words) inv large (ground arith)

-- ===== src/Malloc/Place.antt =====
-- `place` of mm.c on a free block of the heap: it becomes the allocated block, or is split in two.
use s_system_programmin.Common.{
  ℕ, ◌+◌, ◌-◌, ◌*◌, ◌%◌, ◌^◌, ◌≤◌, ◌<◌, ◌≡◌, refl, sym, ◌∙◌, true, false, some, List, [], ◌∷◌, ◌++◌,
  arith, leb, ◌==◌, if◌then◌else◌, subst, Bool-cases, inl, inr,
}
use s_system_programmin.Malloc.Words.{Heap, pack, put_tags, size_at, next_blkp, dsize}
use s_system_programmin.Malloc.{
  insert_free_block, remove_free_block, place, place_sized, split_block,
}
use s_system_programmin.Malloc.Links.{has, erase, has-erase, Nodes-mem}
use s_system_programmin.Malloc.FreeList.{
  FreeList, SameButLinks, insert-FreeList, insert-SameButLinks, remove-FreeList,
  remove-SameButLinks,
}
use s_system_programmin.Malloc.Layout.{
  Block, block, total, Tags, Spaced-append, Spaced-join, Spaced-true,
}
use s_system_programmin.Malloc.Invariant.{
  prologue, Laid, Inv, live, KeepsPayload, Changed, Among, replace, used_at_parts, is_free_parts,
  Changed-KeepsPayload,
}
use s_system_programmin.Malloc.Stands.{stands}
use s_system_programmin.Malloc.Region.{
  Away, Away-not_link, Away-not_mem, not_link-erase, FreeList-frame, parts-Away, Tagged,
  put_tags-Tagged,
}

-- The outcome: a well-formed heap in which `bp` holds an allocation of `m` bytes, and all else that
-- was allocated is as before.
pub record Placed (h : Heap) (bs : List Block) (bp m : ℕ) (g : Heap) : Type 0 where
  pub blocks : List Block
  pub frees : List ℕ
  pub inv : Inv g blocks frees
  pub live_lem : (q : ℕ) → live g blocks q ≡ (if q == bp then some m else live h bs q)
  pub payload : KeepsPayload h bs g

module _ {h : Heap} {fs : List ℕ} (xs ys : List Block) (n bp asize : ℕ)
    (inv : Inv h (xs ++ (block n false ∷ ys)) fs) (e : bp ≡ h.heap_listp + 16 + total xs) where
  -- The block leaves the free list; what is left of the list lies outside it.
  unlinked : Heap
  unlinked = remove_free_block bp h

  member : has bp fs ≡ true
  member =
      let b = stands xs (block n false) ys bp inv.laid e in
      let split =
        is_free_parts (h.heap_listp + 16) xs (block n false ∷ []) ys bp (bp + n) bp inv.laid.sized.2
          e (omega arith) in
      ground (arith, inv.listed bp, b.start, b.large)

  rest_list : FreeList unlinked h.heap_listp (erase bp fs)
  unfolding unlinked
  rest_list = remove-FreeList bp inv.list member

  rest_words : SameButLinks (h.heap_listp ∷ fs) h unlinked
  unfolding unlinked
  rest_words = remove-SameButLinks bp inv.list member

  rest_Away : Away (h.heap_listp ∷ erase bp fs) bp (bp + n)
  rest_Away =
      let gone = λ (q : ℕ). has-erase h.heap_listp bp q fs inv.list.nodes in
      parts-Away h.heap_listp xs (block n false ∷ []) ys bp (bp + n) (erase bp fs) inv.laid.sized.2
        e (omega arith)
        (λ q m. ground (arith, gone q, inv.listed q, Nodes-mem h.heap_listp fs q inv.list.nodes))
        (λ q m. ground (arith, gone q))

  -- The whole block is allocated.
  whole : Heap
  whole = put_tags bp (pack n true) unlinked

  whole-Tagged : Tagged bp n true unlinked whole
  unfolding whole
  whole-Tagged =
      let b = stands xs (block n false) ys bp inv.laid e in
      put_tags-Tagged bp n true unlinked (omega (arith, b.start)) b.large b.even

  whole-Changed : Changed fs bp (bp + n) h whole
  whole-Changed =
      let t = whole-Tagged in
      let b = stands xs (block n false) ys bp inv.laid e in
      record {
        words = λ x k o.
            t.others x (ground (arith, b.start, b.large)) (ground (arith, b.start, b.large))
            ∙ rest_words.words x k;
        mem = t.mem ∙ rest_words.mem;
        listp = t.listp ∙ rest_words.listp;
      }

  among : Among fs h.heap_listp (prologue ∷ xs ++ (block n false ∷ ys))
  among q m = sym (inv.listed q) ∙ m

  whole-Laid : Laid whole (xs ++ (block n true ∷ ys))
  whole-Laid =
      let t = whole-Tagged in
      let b = stands xs (block n false) ys bp inv.laid e in
      replace xs (block n false ∷ []) (block n true ∷ []) ys inv.laid among whole-Changed
        (omega (arith, e)) (omega arith) (t.header, t.footer, tt) refl (b.large, b.even, tt)

  whole-Placed : Placed h (xs ++ (block n false ∷ ys)) bp n whole
  whole-Placed =
      let t = whole-Tagged in
      let c = whole-Changed in
      let b = stands xs (block n false) ys bp inv.laid e in
      let old = block n false ∷ [] in
      let new = block n true ∷ [] in
      let free = Spaced-append true xs (block n false ∷ ys) inv.spaced in
      let s = h.heap_listp in
      record {
        blocks = xs ++ (block n true ∷ ys);
        frees = erase bp fs;
        inv = record {
          laid = whole-Laid;
          list =
              subst (λ a. FreeList whole a (erase bp fs)) (sym c.listp)
                (FreeList-frame whole bp (bp + n) rest_list rest_Away
                  (λ x o.
                    t.others x (ground (arith, b.start, b.large))
                      (ground (arith, b.start, b.large)))
                  t.head);
          listed = λ q. rw c.listp (
              ground (
                arith,
                has-erase s bp q fs inv.list.nodes,
                inv.listed q,
                b.start,
                b.large,
                is_free_parts (s + 16) xs old ys bp (bp + n) q inv.laid.sized.2 e (omega arith),
                is_free_parts (s + 16) xs new ys bp (bp + n) q whole-Laid.sized.2 e (omega arith),
              ));
          spaced =
              Spaced-join true xs (block n true ∷ ys) free.0
                (ground arith, Spaced-true false ys free.1.1);
        };
        live_lem = λ q. rw c.listp (
            ground (
              arith,
              b.start,
              b.large,
              used_at_parts (s + 16) xs old ys bp (bp + n) q inv.laid.sized.2 e (omega arith),
              used_at_parts (s + 16) xs new ys bp (bp + n) q whole-Laid.sized.2 e (omega arith),
            ));
        payload =
            Changed-KeepsPayload xs old ys inv.laid among c (omega (arith, e)) (omega arith)
              (λ q. ground arith);
      }

  -- The front of the block is allocated, and the rest is a free block of its own.
  cut : Heap
  cut = put_tags (bp + asize) (pack (n - asize) false) (put_tags bp (pack asize true) unlinked)

  module _ (large : 16 ≤ asize) (even : asize % 8 ≡ 0) (fits : asize + 16 ≤ n) where
    first_Tagged : Tagged bp asize true unlinked (put_tags bp (pack asize true) unlinked)
    first_Tagged =
        let b = stands xs (block n false) ys bp inv.laid e in
        put_tags-Tagged bp asize true unlinked (omega (arith, b.start)) large even

    second_Tagged :
        Tagged (bp + asize) (n - asize) false (put_tags bp (pack asize true) unlinked) cut
    unfolding cut
    second_Tagged =
        let b = stands xs (block n false) ys bp inv.laid e in
        put_tags-Tagged (bp + asize) (n - asize) false (put_tags bp (pack asize true) unlinked)
          (omega (arith, b.start)) (omega arith) (omega (arith, b.even))

    cut_list : FreeList cut h.heap_listp (erase bp fs)
    cut_list =
        let t = first_Tagged in
        let u = second_Tagged in
        let b = stands xs (block n false) ys bp inv.laid e in
        FreeList-frame cut bp (bp + n) rest_list rest_Away
          (λ x o.
            u.others x (ground (arith, b.start)) (ground (arith, b.start))
            ∙ t.others x (ground (arith, b.start)) (ground (arith, b.start)))
          (u.head ∙ t.head)

    split : Heap
    split = insert_free_block (bp + asize) cut

    fresh : has (bp + asize) (h.heap_listp ∷ erase bp fs) ≡ false
    fresh =
        Away-not_mem (h.heap_listp ∷ erase bp fs) bp (bp + n) (bp + asize) rest_Away (omega arith)
          (omega arith)

    split_list : FreeList split h.heap_listp ((bp + asize) ∷ erase bp fs)
    unfolding split
    split_list =
        let b = stands xs (block n false) ys bp inv.laid e in
        insert-FreeList (bp + asize) cut_list (omega (arith, b.bp_mod)) (omega (arith, b.start))
          fresh

    split_words : SameButLinks (h.heap_listp ∷ (bp + asize) ∷ erase bp fs) cut split
    unfolding split
    split_words = insert-SameButLinks (bp + asize) cut_list

    split-Changed : Changed fs bp (bp + n) h split
    split-Changed =
        let t = first_Tagged in
        let u = second_Tagged in
        let b = stands xs (block n false) ys bp inv.laid e in
        record {
          words = λ x k o.
              split_words.words x (ground (arith, not_link-erase x bp fs))
              ∙ u.others x (ground (arith, b.start)) (ground (arith, b.start))
              ∙ t.others x (ground (arith, b.start)) (ground (arith, b.start))
              ∙ rest_words.words x k;
          mem = split_words.mem ∙ u.mem ∙ t.mem ∙ rest_words.mem;
          listp = split_words.listp ∙ u.listp ∙ t.listp ∙ rest_words.listp;
        }

    split-Tags : Tags split.word bp (block asize true ∷ block (n - asize) false ∷ [])
    split-Tags =
        let t = first_Tagged in
        let u = second_Tagged in
        let b = stands xs (block n false) ys bp inv.laid e in
        let rest = λ (x : ℕ). λ (i : bp ≤ x + 4). λ (j : x + 4 < bp + n).
          Away-not_link (h.heap_listp ∷ erase bp fs) bp (bp + n) x rest_Away i j in
        let s = split_words.words in
        (
          s (bp - 4) (ground (arith, b.start, rest (bp - 4)))
              ∙ u.others (bp - 4) (omega (arith, b.start)) (omega (arith, b.start))
              ∙ t.header,
          s (bp + asize - 8) (ground (arith, b.start, rest (bp + asize - 8)))
              ∙ u.others (bp + asize - 8) (omega (arith, b.start)) (omega (arith, b.start))
              ∙ t.footer,
          (
            s (bp + asize - 4) (ground (arith, b.start, rest (bp + asize - 4))) ∙ u.header,
            s (bp + asize + (n - asize) - 8)
                  (ground (arith, b.start, rest (bp + asize + (n - asize) - 8)))
                ∙ u.footer,
            tt,
          ),
        )

    split-Laid : Laid split (xs ++ (block asize true ∷ block (n - asize) false ∷ ys))
    split-Laid =
        let b = stands xs (block n false) ys bp inv.laid e in
        replace xs (block n false ∷ []) (block asize true ∷ block (n - asize) false ∷ []) ys
          inv.laid among split-Changed (omega (arith, e)) (omega arith) split-Tags (omega arith)
          (large, even, (omega arith, omega (arith, b.even), tt))

    split-Placed : Placed h (xs ++ (block n false ∷ ys)) bp asize split
    split-Placed =
        let c = split-Changed in
        let b = stands xs (block n false) ys bp inv.laid e in
        let old = block n false ∷ [] in
        let new = block asize true ∷ block (n - asize) false ∷ [] in
        let free = Spaced-append true xs (block n false ∷ ys) inv.spaced in
        let s = h.heap_listp in
        record {
          blocks = xs ++ (block asize true ∷ block (n - asize) false ∷ ys);
          frees = (bp + asize) ∷ erase bp fs;
          inv = record {
            laid = split-Laid;
            list =
                subst (λ a. FreeList split a ((bp + asize) ∷ erase bp fs)) (sym c.listp) split_list;
            listed = λ q. rw c.listp (
                ground (
                  arith,
                  has-erase s bp q fs inv.list.nodes,
                  inv.listed q,
                  b.start,
                  b.large,
                  is_free_parts (s + 16) xs old ys bp (bp + n) q inv.laid.sized.2 e (omega arith),
                  is_free_parts (s + 16) xs new ys bp (bp + n) q split-Laid.sized.2 e (omega arith),
                ));
            spaced =
                Spaced-join true xs (block asize true ∷ block (n - asize) false ∷ ys) free.0
                  (ground arith, (refl, free.1.1));
          };
          live_lem = λ q. rw c.listp (
              ground (
                arith,
                b.start,
                b.large,
                used_at_parts (s + 16) xs old ys bp (bp + n) q inv.laid.sized.2 e (omega arith),
                used_at_parts (s + 16) xs new ys bp (bp + n) q split-Laid.sized.2 e (omega arith),
              ));
          payload =
              Changed-KeepsPayload xs old ys inv.laid among c (omega (arith, e)) (omega arith)
                (λ q. ground arith);
        }

  -- What `place` computes on such a block.
  csize : size_at h.word bp ≡ n
  csize = let b = stands xs (block n false) ys bp inv.laid e in omega (arith, b.header, b.even)

  place-whole : asize ≤ n → n < asize + 16 → place bp asize h ≡ whole
  unfolding place place_sized whole unlinked
  place-whole a o =
      let b = stands xs (block n false) ys bp inv.laid e in
      let rest : (n + 2 ^ 32 - asize) % 2 ^ 32 ≡ n - asize = omega (arith, b.end, b.small) in
      let small : leb (2 * dsize) (n - asize) ≡ false = ground arith in rw (csize, rest, small)

  place-split :
      16 ≤ asize
      → asize % 8 ≡ 0
      → asize + 16 ≤ n
      → place bp asize h ≡ insert_free_block (bp + asize) cut
  unfolding place place_sized split_block cut unlinked
  place-split a o p =
      let b = stands xs (block n false) ys bp inv.laid e in
      let rest : (n + 2 ^ 32 - asize) % 2 ^ 32 ≡ n - asize = omega (arith, b.end, b.small) in
      let large : leb (2 * dsize) (n - asize) ≡ true = ground arith in
      let next : next_blkp (put_tags bp (pack asize true) (remove_free_block bp h)).word bp
          ≡ bp + asize =
        omega (
          arith,
          (put_tags-Tagged bp asize true (remove_free_block bp h) (omega (arith, b.start)) a
              o).header,
          o,
        ) in
      rw (csize, rest, large, next)

  -- `place` with a block of at least 16 bytes, a multiple of 8, in a free block of a well-formed heap
  -- that is large enough: it allocates `asize` bytes of the block, or the whole of it if less than 16
  -- bytes would be left. The heap stays well-formed, with all other allocations and their contents.
  pub place-Placed :
      16 ≤ asize
      → asize % 8 ≡ 0
      → asize ≤ n
      → Placed h
          (xs ++ (block n false ∷ ys))
          bp
          (if leb (asize + 16) n then asize else n)
          (place bp asize h)
  place-Placed a o p = elim (Bool-cases (leb (asize + 16) n)) [
    | inl fits ↦
        let q : asize + 16 ≤ n = ground arith in
        rw (fits, place-split a o q) (unfold split in split-Placed a o q)
    | inr tight ↦ rw (tight, place-whole p (ground arith)) whole-Placed
  ]

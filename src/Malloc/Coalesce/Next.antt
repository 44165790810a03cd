-- ===== src/Malloc/Coalesce/Next.antt =====
-- Case 2 of `coalesce`: the block behind is free.
use s_system_programmin.Common.{
  ℕ, ◌+◌, ◌%◌, ◌^◌, ◌≡◌, sym, subst, ◌∙◌, true, false, List, [], ◌∷◌, ◌++◌, append_assoc, arith,
  ltb, ◌==◌, if◌then◌else◌,
}
use s_system_programmin.Malloc.Words.{Heap, pack, put_tags, size_at, next_blkp}
use s_system_programmin.Malloc.{remove_free_block, join_next}
use s_system_programmin.Malloc.Links.{has, erase, has-erase}
use s_system_programmin.Malloc.FreeList.{
  FreeList, SameButLinks, remove-FreeList, remove-SameButLinks,
}
use s_system_programmin.Malloc.Layout.{
  Block, block, total, is_free, is_free-below, free_range, last_used, Sized, Sized-append,
  Sized-join, Spaced-append, total-append,
}
use s_system_programmin.Malloc.Invariant.{Laid, Changed, is_free_parts}
use s_system_programmin.Malloc.Region.{FreeList-frame, Tagged, put_tags-Tagged, Away}
use s_system_programmin.Malloc.Stands.{Stands, stands}
use s_system_programmin.Malloc.Coalesce.Merge.{Pending, Joined, Pending-Among, merge}

module _ {h : Heap} {fs : List ℕ} (xs : List Block) (n k : ℕ) (ys : List Block) (bp : ℕ)
    (p : Pending h xs n (block k false ∷ ys) fs bp) (last : last_used true xs ≡ true) where
  abbrev pair : List Block
  pair = block n false ∷ block k false ∷ []

  abbrev sum : ℕ
  sum = total pair

  open p use {laid, here}

  b : Stands h (block n false) bp
  b = stands xs (block n false) (block k false ∷ ys) bp laid here

  c : Stands h (block k false) (bp + n)
  c =
      stands (xs ++ (block n false ∷ [])) (block k false) ys (bp + n)
        (subst (Laid h) (sym (append_assoc xs (block n false ∷ []) (block k false ∷ ys))) laid)
        (omega (arith, here, total-append xs (block n false ∷ [])))

  -- The same row with the pending block allocated, as the free list has it.
  marked :
      (f : ℕ)
      → has f fs ≡ (
          if ltb f bp
          then is_free (h.heap_listp + 16) xs f
          else if f == bp + n
          then true
          else is_free (bp + n + k) ys f)
  marked f =
      let s = h.heap_listp in
      let row = block n true ∷ block k false ∷ [] in
      let (left, right) = Sized-append xs (block n false ∷ block k false ∷ ys) laid.sized.2 in
      let sized = Sized-join xs (block n true ∷ block k false ∷ ys) left right in
      ground (
        arith,
        p.listed f,
        b.start,
        b.large,
        c.large,
        is_free_parts (s + 16) xs row ys bp (bp + n + k) f sized here (omega arith),
        is_free-below (bp + n + k) ys f,
        is_free-below (s + 16) xs f,
      )

  member : has (bp + n) fs ≡ true
  member = ground (arith, marked (bp + n), b.large)

  g : Heap
  g = remove_free_block (bp + n) h

  rest_list : FreeList g h.heap_listp (erase (bp + n) fs)
  unfolding g
  rest_list = remove-FreeList (bp + n) p.list member

  rest_words : SameButLinks (h.heap_listp ∷ fs) h g
  unfolding g
  rest_words = remove-SameButLinks (bp + n) p.list member

  rest :
      (f : ℕ)
      → has f (erase (bp + n) fs)
        ≡ (if ltb f bp then is_free (h.heap_listp + 16) xs f else is_free (bp + n + k) ys f)
  rest f = ground (
    arith,
    marked f,
    b.large,
    c.large,
    has-erase h.heap_listp (bp + n) f fs p.list.nodes,
    is_free-below (bp + n + k) ys f,
  )

  rest_Away : Away (h.heap_listp ∷ erase (bp + n) fs) bp (bp + n + k)
  rest_Away f m = ground (
    arith,
    rest f,
    is_free-below (bp + n + k) ys f,
    b.start,
    free_range (h.heap_listp + 16) xs f (Sized-append xs (pair ++ ys) laid.sized.2).0,
  )

  joined : Heap
  joined = put_tags bp (pack (n + k) false) g

  joined-Tagged : Tagged bp (n + k) false g joined
  unfolding joined
  joined-Tagged =
      put_tags-Tagged bp (n + k) false g (omega (arith, b.start)) (omega (arith, b.large))
        (omega (arith, b.even, c.even))

  joined-Changed : Changed fs bp (bp + total pair) h joined
  joined-Changed =
      let t = joined-Tagged in
      record {
        words = λ x l o.
            t.others x (ground (arith, b.start, b.large)) (ground (arith, b.start, b.large))
            ∙ rest_words.words x l;
        mem = t.mem ∙ rest_words.mem;
        listp = t.listp ∙ rest_words.listp;
      }

  joined-Joined : Joined h (xs ++ (block n false ∷ block k false ∷ ys)) n joined bp
  joined-Joined =
      let t = joined-Tagged in
      let s = h.heap_listp in
      let sum : total pair ≡ n + k = omega arith in
      let spaces = Spaced-append true xs (block n true ∷ block k false ∷ ys) p.spaced in
      let list =
        FreeList-frame joined bp (bp + n + k) rest_list rest_Away
          (λ x o. t.others x (ground (arith, b.start, b.large)) (ground (arith, b.start, b.large)))
          t.head in
      let (left, right) = Sized-append xs (pair ++ ys) laid.sized.2 in
      let sized : Sized (xs ++ (block (total pair) true ∷ ys)) =
        Sized-join xs (block (total pair) true ∷ ys) left
          (omega (arith, b.large), omega (arith, b.even, c.even), right.2.2) in
      merge xs pair ys bp (erase (bp + n) fs) n laid (Pending-Among xs n (block k false ∷ ys) bp p)
        joined-Changed here (omega (arith, b.large)) (λ q. ground arith) (t.header ∙ sym sum)
        (rw sum (t.footer)) list
        (λ f. ground (
          arith,
          rest f,
          b.start,
          b.large,
          is_free-below (bp + n + k) ys f,
          is_free-below (s + 16) xs f,
          is_free_parts (s + 16) xs (block (total pair) true ∷ []) ys bp (bp + n + k) f sized here
              (omega arith),
        ))
        spaces.0 last spaces.1.1.1 (omega arith)

  join_next-joined : join_next bp h ≡ (joined, bp)
  unfolding join_next joined g
  join_next-joined =
      let next : next_blkp h.word bp ≡ bp + n = omega (arith, b.header, b.even) in
      let size : (size_at h.word bp + size_at h.word (bp + n)) % 2 ^ 32 ≡ n + k =
        omega (arith, b.header, b.even, c.header, c.even, c.end, c.small) in
      rw (next, size)

  pub next-Joined :
      Joined h (xs ++ (block n false ∷ block k false ∷ ys)) n (join_next bp h).0 (join_next bp h).1
  next-Joined = rw join_next-joined joined-Joined

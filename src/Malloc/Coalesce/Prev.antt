-- ===== src/Malloc/Coalesce/Prev.antt =====
-- Case 3 of `coalesce`: the block before is free.
use s_system_programmin.Common.{
  ℕ, ◌+◌, ◌-◌, ◌%◌, ◌^◌, ◌≡◌, refl, sym, subst, ◌∙◌, Bool, true, false, List, [], ◌∷◌, ◌++◌,
  append_assoc, arith, ltb, ◌==◌, if◌then◌else◌,
}
use s_system_programmin.Malloc.Words.{Heap, put, ftrp, size_at, prev_blkp}
use s_system_programmin.Malloc.{remove_free_block, join_prev}
use s_system_programmin.Malloc.Links.{has, erase, has-erase}
use s_system_programmin.Malloc.FreeList.{
  FreeList, SameButLinks, remove-FreeList, remove-SameButLinks,
}
use s_system_programmin.Malloc.Layout.{
  Block, block, total, is_free, is_free-below, free_range, Sized, Sized-append, Sized-join, Spaced,
  Spaced-append,
}
use s_system_programmin.Malloc.Invariant.{prologue, Laid, Changed, Among, is_free_parts}
use s_system_programmin.Malloc.Region.{FreeList-frame, Tagged, Away}
use s_system_programmin.Malloc.Stands.{Stands, stands, tags_not_link}
use s_system_programmin.Malloc.Coalesce.Merge.{Pending, Joined, Pending-Among, merge}

module _ {h : Heap} {fs : List ℕ} (ws : List Block) (k n : ℕ) (ys : List Block) (lo : ℕ)
    (p : Pending h (ws ++ (block k false ∷ [])) n ys fs (lo + k))
    (here : lo ≡ h.heap_listp + 16 + total ws) (right_used : Spaced false ys) where
  abbrev pair : List Block
  pair = block k false ∷ block n false ∷ []

  shape :
      (u : Bool)
      → (ws ++ (block k false ∷ [])) ++ (block n u ∷ ys) ≡ ws ++ (block k false ∷ block n u ∷ ys)
  shape u = append_assoc ws (block k false ∷ []) (block n u ∷ ys)

  laid : Laid h (ws ++ (block k false ∷ block n false ∷ ys))
  laid = subst (Laid h) (shape false) p.laid

  among : Among fs h.heap_listp (prologue ∷ ws ++ (block k false ∷ block n false ∷ ys))
  among =
      subst (λ zs. Among fs h.heap_listp (prologue ∷ zs)) (shape false)
        (Pending-Among (ws ++ (block k false ∷ [])) n ys (lo + k) p)

  listed :
      (f : ℕ)
      → has f fs ≡ is_free h.heap_listp (prologue ∷ ws ++ (block k false ∷ block n true ∷ ys)) f
  listed =
      subst (λ zs. (f : ℕ) → has f fs ≡ is_free h.heap_listp (prologue ∷ zs) f) (shape true)
        p.listed

  b : Stands h (block n false) (lo + k)
  b = stands (ws ++ (block k false ∷ [])) (block n false) ys (lo + k) p.laid p.here

  c : Stands h (block k false) lo
  c = stands ws (block k false) (block n false ∷ ys) lo laid here

  -- The same row with the pending block allocated, as the free list has it.
  marked :
      (f : ℕ)
      → has f fs ≡ (
          if ltb f lo
          then is_free (h.heap_listp + 16) ws f
          else if f == lo
          then true
          else is_free (lo + k + n) ys f)
  marked f =
      let s = h.heap_listp in
      let row = block k false ∷ block n true ∷ [] in
      let (left, right) = Sized-append ws (block k false ∷ block n false ∷ ys) laid.sized.2 in
      let sized = Sized-join ws (block k false ∷ block n true ∷ ys) left right in
      ground (
        arith,
        listed f,
        b.large,
        c.start,
        c.large,
        is_free_parts (s + 16) ws row ys lo (lo + k + n) f sized here (omega arith),
        is_free-below (lo + k + n) ys f,
        is_free-below (s + 16) ws f,
      )

  member : has lo fs ≡ true
  member = ground (arith, marked lo)

  g : Heap
  g = remove_free_block lo h

  rest_list : FreeList g h.heap_listp (erase lo fs)
  unfolding g
  rest_list = remove-FreeList lo p.list member

  rest_words : SameButLinks (h.heap_listp ∷ fs) h g
  unfolding g
  rest_words = remove-SameButLinks lo p.list member

  rest :
      (f : ℕ)
      → has f (erase lo fs)
        ≡ (if ltb f lo then is_free (h.heap_listp + 16) ws f else is_free (lo + k + n) ys f)
  rest f = ground (
    arith,
    marked f,
    b.large,
    c.large,
    has-erase h.heap_listp lo f fs p.list.nodes,
    is_free-below (lo + k + n) ys f,
  )

  rest_Away : Away (h.heap_listp ∷ erase lo fs) lo (lo + k + n)
  rest_Away f m = ground (
    arith,
    rest f,
    is_free-below (lo + k + n) ys f,
    c.start,
    free_range (h.heap_listp + 16) ws f (Sized-append ws (pair ++ ys) laid.sized.2).0,
  )

  joined : Heap
  joined = put (lo - 4) (k + n) (put (lo + k + n - 8) (k + n) g)

  joined-Tagged : Tagged lo (k + n) false g joined
  unfolding joined
  joined-Tagged = record {
    header = ground arith;
    footer = ground (arith, b.large, c.large, c.start);
    others = λ x l m. ground arith;
    mem = refl;
    listp = refl;
    head = refl;
  }

  joined-Changed : Changed fs lo (lo + total pair) h joined
  joined-Changed =
      let t = joined-Tagged in
      record {
        words = λ x l o.
            t.others x (ground (arith, c.start, b.large)) (ground (arith, c.start, b.large))
            ∙ rest_words.words x l;
        mem = t.mem ∙ rest_words.mem;
        listp = t.listp ∙ rest_words.listp;
      }

  joined-Joined : Joined h (ws ++ (block k false ∷ block n false ∷ ys)) n joined lo
  joined-Joined =
      let t = joined-Tagged in
      let s = h.heap_listp in
      let sum : total pair ≡ k + n = omega arith in
      let spaces =
        Spaced-append true ws (block k false ∷ block n true ∷ ys)
          (subst (Spaced true) (shape true) p.spaced) in
      let list =
        FreeList-frame joined lo (lo + k + n) rest_list rest_Away
          (λ x o. t.others x (ground (arith, c.start, b.large)) (ground (arith, c.start, b.large)))
          t.head in
      let (left, right) = Sized-append ws (pair ++ ys) laid.sized.2 in
      let sized : Sized (ws ++ (block (total pair) true ∷ ys)) =
        Sized-join ws (block (total pair) true ∷ ys) left
          (omega (arith, b.large), omega (arith, b.even, c.even), right.2.2) in
      merge ws pair ys lo (erase lo fs) n laid among joined-Changed here (omega (arith, b.large))
        (λ q. ground arith) (t.header ∙ sym sum) (rw sum (t.footer)) list
        (λ f. ground (
          arith,
          rest f,
          b.start,
          b.large,
          c.start,
          is_free-below (lo + k + n) ys f,
          is_free-below (s + 16) ws f,
          is_free_parts (s + 16) ws (block (total pair) true ∷ []) ys lo (lo + k + n) f sized here
              (omega arith),
        ))
        spaces.0 (ground (arith, spaces.1.0)) right_used (omega arith)

  -- The words that `coalesce` reads again after the removal.
  tags_kept : (g.word (lo + k - 4) ≡ n) × (g.word (lo + k - 8) ≡ k)
  tags_kept =
      let spot =
        tags_not_link fs (ws ++ (block k false ∷ [])) (block n false) ys (lo + k) p.laid p.here
          (Pending-Among (ws ++ (block k false ∷ [])) n ys (lo + k) p) in
      let spot' = tags_not_link fs ws (block k false) (block n false ∷ ys) lo laid here among in
      (
        rest_words.words (lo + k - 4) spot.0 ∙ b.header,
        rest_words.words (lo + k - 8) spot'.1 ∙ c.footer,
      )

  join_prev-joined : join_prev (lo + k) h ≡ (joined, lo)
  unfolding join_prev joined g
  join_prev-joined =
      let (header, footer) = tags_kept in
      let prev : prev_blkp h.word (lo + k) ≡ lo = omega (arith, c.footer, c.even) in
      let size : (size_at h.word (lo + k) + size_at h.word lo) % 2 ^ 32 ≡ k + n =
        omega (arith, b.header, b.even, c.header, c.even, b.end, b.small) in
      let foot : ftrp (remove_free_block lo h).word (lo + k) ≡ lo + k + n - 8 =
        omega (arith, header, b.even) in
      let back : prev_blkp (put (lo + k + n - 8) (k + n) (remove_free_block lo h)).word (lo + k)
          ≡ lo =
        ground (arith, footer, c.even, b.large) in
      let again : prev_blkp
            (put (lo - 4) (k + n) (put (lo + k + n - 8) (k + n) (remove_free_block lo h))).word
            (lo + k)
          ≡ lo =
        ground (arith, footer, c.even, b.large, c.large, c.start) in
      rw (prev, size, foot, back, again)

  pub prev-Joined :
      Joined h
        (ws ++ (block k false ∷ block n false ∷ ys))
        n
        (join_prev (lo + k) h).0
        (join_prev (lo + k) h).1
  prev-Joined = rw join_prev-joined joined-Joined

-- ===== src/Malloc/Coalesce/Both.antt =====
-- Case 4 of `coalesce`: both neighbours are free.
use s_system_programmin.Common.{
  ℕ, ◌+◌, ◌-◌, ◌%◌, ◌^◌, ◌≡◌, refl, sym, subst, ◌∙◌, Bool, true, false, List, [], ◌∷◌, ◌++◌,
  append_assoc, arith, ltb, ◌==◌, if◌then◌else◌,
}
use s_system_programmin.Malloc.Words.{Heap, put, ftrp, size_of, size_at, prev_blkp, next_blkp}
use s_system_programmin.Malloc.{remove_free_block, join_both}
use s_system_programmin.Malloc.Links.{has, erase, has-erase}
use s_system_programmin.Malloc.FreeList.{
  FreeList, SameButLinks, remove-FreeList, remove-SameButLinks,
}
use s_system_programmin.Malloc.Layout.{
  Block, block, total, is_free, is_free-below, free_range, Sized, Sized-append, Sized-join, Spaced,
  Spaced-append, total-append,
}
use s_system_programmin.Malloc.Invariant.{prologue, Laid, Changed, Among, is_free_parts}
use s_system_programmin.Malloc.Region.{FreeList-frame, Tagged, Away, not_link-erase}
use s_system_programmin.Malloc.Stands.{Stands, stands, tags_not_link}
use s_system_programmin.Malloc.Coalesce.Merge.{Pending, Joined, Pending-Among, merge}

module _ {h : Heap} {fs : List ℕ} (ws : List Block) (j n k : ℕ) (ys : List Block) (lo : ℕ)
    (p : Pending h (ws ++ (block j false ∷ [])) n (block k false ∷ ys) fs (lo + j))
    (here : lo ≡ h.heap_listp + 16 + total ws) where
  abbrev trio : List Block
  trio = block j false ∷ block n false ∷ block k false ∷ []

  shape :
      (u : Bool)
      → (ws ++ (block j false ∷ [])) ++ (block n u ∷ block k false ∷ ys)
        ≡ ws ++ (block j false ∷ block n u ∷ block k false ∷ ys)
  shape u = append_assoc ws (block j false ∷ []) (block n u ∷ block k false ∷ ys)

  laid : Laid h (ws ++ (trio ++ ys))
  laid = subst (Laid h) (shape false) p.laid

  among : Among fs h.heap_listp (prologue ∷ ws ++ (trio ++ ys))
  among =
      subst (λ zs. Among fs h.heap_listp (prologue ∷ zs)) (shape false)
        (Pending-Among (ws ++ (block j false ∷ [])) n (block k false ∷ ys) (lo + j) p)

  listed :
      (f : ℕ)
      → has f fs
        ≡ is_free h.heap_listp
            (prologue ∷ ws ++ (block j false ∷ block n true ∷ block k false ∷ ys))
            f
  listed =
      subst (λ zs. (f : ℕ) → has f fs ≡ is_free h.heap_listp (prologue ∷ zs) f) (shape true)
        p.listed

  b : Stands h (block n false) (lo + j)
  b =
      stands (ws ++ (block j false ∷ [])) (block n false) (block k false ∷ ys) (lo + j) p.laid
        p.here

  a : Stands h (block j false) lo
  a = stands ws (block j false) (block n false ∷ block k false ∷ ys) lo laid here

  -- The row cut behind the pending block.
  front : List Block
  front = ws ++ (block j false ∷ block n false ∷ [])

  Laid-front : Laid h (front ++ (block k false ∷ ys))
  unfolding front
  Laid-front =
      subst (Laid h)
        (sym (append_assoc ws (block j false ∷ block n false ∷ []) (block k false ∷ ys))) laid

  Among-front : Among fs h.heap_listp (prologue ∷ front ++ (block k false ∷ ys))
  unfolding front
  Among-front =
      subst (λ zs. Among fs h.heap_listp (prologue ∷ zs))
        (sym (append_assoc ws (block j false ∷ block n false ∷ []) (block k false ∷ ys))) among

  here_front : lo + j + n ≡ h.heap_listp + 16 + total front
  unfolding front
  here_front = omega (arith, here, total-append ws (block j false ∷ block n false ∷ []))

  c : Stands h (block k false) (lo + j + n)
  c = stands front (block k false) ys (lo + j + n) Laid-front here_front

  -- The same row with the pending block allocated, as the free list has it.
  marked :
      (f : ℕ)
      → has f fs ≡ (
          if ltb f lo
          then is_free (h.heap_listp + 16) ws f
          else if f == lo
          then true
          else if f == lo + j + n
          then true
          else is_free (lo + j + n + k) ys f)
  marked f =
      let s = h.heap_listp in
      let row = block j false ∷ block n true ∷ block k false ∷ [] in
      let (left, right) = Sized-append ws (trio ++ ys) laid.sized.2 in
      let sized = Sized-join ws (row ++ ys) left right in
      ground (
        arith,
        listed f,
        a.start,
        a.large,
        b.large,
        c.large,
        is_free_parts (s + 16) ws row ys lo (lo + j + n + k) f sized here (omega arith),
        is_free-below (lo + j + n + k) ys f,
        is_free-below (s + 16) ws f,
      )

  frees : List ℕ
  frees = erase (lo + j + n) (erase lo fs)

  member : has lo fs ≡ true
  member = ground (arith, marked lo)

  g : Heap
  g = remove_free_block lo h

  first_list : FreeList g h.heap_listp (erase lo fs)
  unfolding g
  first_list = remove-FreeList lo p.list member

  first_words : SameButLinks (h.heap_listp ∷ fs) h g
  unfolding g
  first_words = remove-SameButLinks lo p.list member

  member' : has (lo + j + n) (erase lo fs) ≡ true
  member' = ground (
    arith,
    marked (lo + j + n),
    a.large,
    b.large,
    has-erase h.heap_listp lo (lo + j + n) fs p.list.nodes,
  )

  g' : Heap
  g' = remove_free_block (lo + j + n) g

  rest_list : FreeList g' h.heap_listp frees
  unfolding g' frees
  rest_list = remove-FreeList (lo + j + n) first_list member'

  rest_words : SameButLinks (h.heap_listp ∷ fs) h g'
  unfolding g'
  rest_words =
      let r = remove-SameButLinks (lo + j + n) first_list member' in
      record {
        words = λ x l. r.words x (ground (arith, not_link-erase x lo fs)) ∙ first_words.words x l;
        mem = r.mem ∙ first_words.mem;
        listp = r.listp ∙ first_words.listp;
      }

  rest :
      (f : ℕ)
      → has f frees
        ≡ (if ltb f lo then is_free (h.heap_listp + 16) ws f else is_free (lo + j + n + k) ys f)
  unfolding frees
  rest f = ground (
    arith,
    marked f,
    a.large,
    b.large,
    c.large,
    has-erase h.heap_listp lo f fs p.list.nodes,
    has-erase h.heap_listp (lo + j + n) f (erase lo fs) first_list.nodes,
    is_free-below (lo + j + n + k) ys f,
  )

  rest_Away : Away (h.heap_listp ∷ frees) lo (lo + j + n + k)
  rest_Away f m = ground (
    arith,
    rest f,
    is_free-below (lo + j + n + k) ys f,
    a.start,
    free_range (h.heap_listp + 16) ws f (Sized-append ws (trio ++ ys) laid.sized.2).0,
  )

  joined : Heap
  joined = put (lo + j + n + k - 8) (j + n + k) (put (lo - 4) (j + n + k) g')

  joined-Tagged : Tagged lo (j + n + k) false g' joined
  unfolding joined
  joined-Tagged = record {
    header = ground (arith, a.large, b.large, a.start);
    footer = ground arith;
    others = λ x l m. ground arith;
    mem = refl;
    listp = refl;
    head = refl;
  }

  joined-Changed : Changed fs lo (lo + total trio) h joined
  joined-Changed =
      let t = joined-Tagged in
      record {
        words = λ x l o.
            t.others x (ground (arith, a.start, b.large)) (ground (arith, a.start, b.large))
            ∙ rest_words.words x l;
        mem = t.mem ∙ rest_words.mem;
        listp = t.listp ∙ rest_words.listp;
      }

  joined-Joined : Joined h (ws ++ (trio ++ ys)) n joined lo
  joined-Joined =
      let t = joined-Tagged in
      let s = h.heap_listp in
      let sum : total trio ≡ j + n + k = omega arith in
      let spaces =
        Spaced-append true ws (block j false ∷ block n true ∷ block k false ∷ ys)
          (subst (Spaced true) (shape true) p.spaced) in
      let list =
        FreeList-frame joined lo (lo + j + n + k) rest_list rest_Away
          (λ x o. t.others x (ground (arith, a.start, b.large)) (ground (arith, a.start, b.large)))
          t.head in
      let (left, right) = Sized-append ws (trio ++ ys) laid.sized.2 in
      let sized : Sized (ws ++ (block (total trio) true ∷ ys)) =
        Sized-join ws (block (total trio) true ∷ ys) left
          (omega (arith, b.large), omega (arith, a.even, b.even, c.even), right.2.2.2) in
      merge ws trio ys lo frees n laid among joined-Changed here (omega (arith, b.large))
        (λ q. ground arith) (t.header ∙ sym sum) (rw sum (ground (arith, t.footer))) list
        (λ f. ground (
          arith,
          rest f,
          b.large,
          a.start,
          is_free-below (lo + j + n + k) ys f,
          is_free-below (s + 16) ws f,
          is_free_parts (s + 16) ws (block (total trio) true ∷ []) ys lo (lo + j + n + k) f sized
              here (omega arith),
        ))
        spaces.0 (ground (arith, spaces.1.0)) spaces.1.1.1.1 (omega arith)

  -- The words that `coalesce` reads again after the removals.
  tags_kept :
      (g.word (lo + j - 4) ≡ n)
      × (g'.word (lo + j - 8) ≡ j)
      × (g'.word (lo + j - 4) ≡ n)
      × (g'.word (lo + j + n - 4) ≡ k)
  tags_kept =
      let spot =
        tags_not_link fs (ws ++ (block j false ∷ [])) (block n false) (block k false ∷ ys) (lo + j)
          p.laid p.here
          (Pending-Among (ws ++ (block j false ∷ [])) n (block k false ∷ ys) (lo + j) p) in
      let spot' =
        tags_not_link fs ws (block j false) (block n false ∷ block k false ∷ ys) lo laid here
          among in
      let spot'' =
        tags_not_link fs front (block k false) ys (lo + j + n) Laid-front here_front Among-front in
      (
        first_words.words (lo + j - 4) spot.0 ∙ b.header,
        rest_words.words (lo + j - 8) spot'.1 ∙ a.footer,
        rest_words.words (lo + j - 4) spot.0 ∙ b.header,
        rest_words.words (lo + j + n - 4) spot''.0 ∙ c.header,
      )

  -- What `join_both` computes, read by read.
  prev_read : prev_blkp h.word (lo + j) ≡ lo
  prev_read = omega (arith, a.footer, a.even)

  next_read : next_blkp h.word (lo + j) ≡ lo + j + n
  next_read = omega (arith, b.header, b.even)

  size_read :
      (size_at h.word (lo + j) + (size_at h.word lo + size_of (h.word (ftrp h.word (lo + j + n)))))
        % 2 ^ 32
      ≡ j + n + k
  size_read =
      let foot : ftrp h.word (lo + j + n) ≡ lo + j + n + k - 8 = omega (arith, c.header, c.even) in
      rw foot (omega (arith, a.header, a.even, b.header, b.even, c.footer, c.even, c.end, c.small))

  back_read : prev_blkp joined.word (lo + j) ≡ lo
  unfolding joined
  back_read = ground (arith, tags_kept.1, a.even, a.large, b.large, c.large, a.start)

  join_both-joined : join_both (lo + j) h ≡ (joined, lo)
  unfolding join_both
  join_both-joined =
      let (mid, foot, head, head') = tags_kept in
      let size = j + n + k in
      let after : next_blkp g.word (lo + j) ≡ lo + j + n = omega (arith, mid, b.even) in
      let back : prev_blkp g'.word (lo + j) ≡ lo = omega (arith, foot, a.even) in
      let w = (put (lo - 4) size g').word in
      let after' : next_blkp w (lo + j) ≡ lo + j + n =
        ground (arith, head, b.even, a.large, a.start) in
      let end : ftrp w (lo + j + n) ≡ lo + j + n + k - 8 =
        ground (arith, head', c.even, a.large, b.large, a.start) in
      let back' : prev_blkp joined.word (lo + j) ≡ lo = unfold joined in back_read in
      rw (prev_read, next_read, size_read)
        (unfold g g' joined in rw (after, back, after', end, back'))

  pub both-Joined :
      Joined h (ws ++ (trio ++ ys)) n (join_both (lo + j) h).0 (join_both (lo + j) h).1
  both-Joined = rw join_both-joined joined-Joined

-- ===== src/Malloc/FreeList.antt =====
-- `insert_free_block` and `remove_free_block` of mm.c against the list that memory holds.
use s_system_programmin.Common.{
  ℕ, ◌+◌, ◌%◌, ◌<◌, ◌≡◌, refl, ◌≢◌, ◌⊎◌, true, false, ◌&&◌, List, [], ◌∷◌, arith, ltb, ◌==◌,
  if◌then◌else◌,
}
use s_system_programmin.Malloc.Words.{Heap}
use s_system_programmin.Malloc.{insert_free_block, remove_free_block}
use s_system_programmin.Malloc.Links.{
  has, erase, Nodes, Linked, is_link, prev_cases, next_cases, Nodes-mem, Nodes-sentinel,
  Nodes-erase, relink, unlink,
}

-- The free list of `h` holds the blocks `fs`, first the head, and ends at the sentinel `s`.
pub record FreeList (h : Heap) (s : ℕ) (fs : List ℕ) : Type 0 where
  pub linked : Linked h.word 0 h.freelist_head fs s
  pub nodes : Nodes s fs

-- `g` differs from `h` at most in link words of the blocks `fs`, and in the head of the list.
pub record SameButLinks (fs : List ℕ) (h g : Heap) : Type 0 where
  pub words : (x : ℕ) → is_link x fs ≡ false → g.word x ≡ h.word x
  pub mem : g.mem ≡ h.mem
  pub listp : g.heap_listp ≡ h.heap_listp

head_cases :
    (w : ℕ → ℕ) (p : ℕ) (fs : List ℕ) (s : ℕ)
    → Linked w 0 p fs s
    → Nodes s fs
    → (has p (s ∷ fs) ≡ true) × (0 < p) × (p % 8 ≡ 0)
head_cases w p [] s l n = ground arith
head_cases w p (f ∷ fs) s l n = ground arith

is_link_mem :
    (x q : ℕ) (fs : List ℕ) → has q fs ≡ true → is_link x fs ≡ false → (x ≢ q) × (x ≢ q + 4)
is_link_mem x q [] m o = cc
is_link_mem x q (f ∷ fs) m o = ground (arith, is_link_mem x q fs)

zero_not_node : (s : ℕ) (fs : List ℕ) → Nodes s fs → has 0 (s ∷ fs) ≡ false
zero_not_node s [] n = ground arith
zero_not_node s (f ∷ fs) n = ground (arith, zero_not_node s fs)

-- What `remove_free_block` writes, where the block and its neighbours are apart.
record Removed (bp : ℕ) (h g : Heap) : Type 0 where
  forward : 0 < h.word (bp + 4) → g.word (h.word (bp + 4)) ≡ h.word bp
  back : g.word (h.word bp + 4) ≡ h.word (bp + 4)
  others :
      (x : ℕ)
      → ((x == h.word (bp + 4)) && ltb 0 x) ≡ false
      → x ≢ h.word bp + 4
      → g.word x ≡ h.word x
  head : g.freelist_head ≡ (if h.word (bp + 4) == 0 then h.word bp else h.freelist_head)

remove-Removed :
    (bp : ℕ) (h : Heap)
    → h.word (bp + 4) ≢ bp + 4
    → 0 < h.word bp
    → h.word (bp + 4) ≢ h.word bp + 4
    → Removed bp h (remove_free_block bp h)
unfolding remove_free_block
remove-Removed bp h a b c = record {
  forward = λ p. ground arith;
  back = ground arith;
  others = λ x n m. ground arith;
  head = ground arith;
}

remove_keeps :
    (bp : ℕ) (h : Heap)
    → ((remove_free_block bp h).mem ≡ h.mem) × ((remove_free_block bp h).heap_listp ≡ h.heap_listp)
unfolding remove_free_block
remove_keeps bp h = ground arith

module _ {h : Heap} {s : ℕ} {fs : List ℕ} (bp : ℕ) (l : FreeList h s fs) where
  -- Inserting an aligned address above 0 that is neither in the free list nor its sentinel puts it
  -- at the front of the list, which stays linked in both directions.
  pub insert-FreeList :
      bp % 8 ≡ 0 → 0 < bp → has bp (s ∷ fs) ≡ false → FreeList (insert_free_block bp h) s (bp ∷ fs)
  unfolding insert_free_block
  insert-FreeList a p out =
      let first = head_cases h.word h.freelist_head fs s l.linked l.nodes in
      let g = insert_free_block bp h in
      let forward : g.word bp ≡ h.freelist_head = ground arith in
      let rest : Linked g.word bp h.freelist_head fs s =
        relink h.word g.word 0 bp h.freelist_head fs s l.linked l.nodes a out (ground arith)
          λ x n m k. ground arith in
      record { linked = (refl, ground arith, rw forward rest); nodes = ground arith }

  pub insert-SameButLinks : SameButLinks (s ∷ bp ∷ fs) h (insert_free_block bp h)
  unfolding insert_free_block
  insert-SameButLinks = record {
    words = λ x o. ground (
      arith,
      head_cases h.word h.freelist_head fs s l.linked l.nodes,
      is_link_mem x h.freelist_head (s ∷ fs),
    );
    mem = ground arith;
    listp = ground arith;
  }

  neighbours :
      has bp fs ≡ true
      → ((h.word (bp + 4) ≡ 0) ⊎ (has (h.word (bp + 4)) fs ≡ true))
        × (has (h.word bp) (s ∷ fs) ≡ true)
        × (h.word (bp + 4) % 8 ≡ 0)
        × (h.word bp % 8 ≡ 0)
        × (0 < h.word bp)
  neighbours m = grind (
    arith,
    prev_cases h.word 0 h.freelist_head fs s bp l.linked m,
    next_cases h.word 0 h.freelist_head fs s bp l.linked m,
    Nodes-mem s fs (h.word (bp + 4)) l.nodes,
    Nodes-mem s fs (h.word bp) l.nodes,
    Nodes-sentinel s fs l.nodes,
  )

  removed : has bp fs ≡ true → Removed bp h (remove_free_block bp h)
  removed m =
      let near = neighbours m in
      let node = Nodes-mem s fs bp l.nodes m in
      remove-Removed bp h (ground arith) near.4 (ground arith)

  -- Removing a member of the free list leaves the other members, in the same order and linked in
  -- both directions.
  pub remove-FreeList : has bp fs ≡ true → FreeList (remove_free_block bp h) s (erase bp fs)
  remove-FreeList m =
      let g = remove_free_block bp h in
      let r = removed m in
      let out = zero_not_node s fs l.nodes in
      let list =
        unlink h.word g.word 0 h.freelist_head fs s bp l.linked l.nodes m (ground arith) out
          (λ k. r.forward (Nodes-mem s fs _ l.nodes k).1) r.back
          (λ x n. r.others x (ground arith)) in
      let before = prev_cases h.word 0 h.freelist_head fs s bp l.linked m in
      let head : g.freelist_head ≡ (if h.freelist_head == bp then h.word bp else h.freelist_head) =
        ground (arith, r.head, Nodes-mem s fs (h.word (bp + 4)) l.nodes) in
      record { linked = rw head list; nodes = Nodes-erase s bp fs l.nodes }

  pub remove-SameButLinks : has bp fs ≡ true → SameButLinks (s ∷ fs) h (remove_free_block bp h)
  remove-SameButLinks m =
      let near = neighbours m in
      let (mem, listp) = remove_keeps bp h in
      record {
        words = λ x o.
            (removed m).others x (ground (arith, near.0, is_link_mem x (h.word (bp + 4)) (s ∷ fs)))
              (ground (arith, near.1, is_link_mem x (h.word bp) (s ∷ fs)));
        mem = mem;
        listp = listp;
      }

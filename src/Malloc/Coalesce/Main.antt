-- ===== src/Malloc/Coalesce/Main.antt =====
-- `coalesce` as a whole: from a heap with one unlisted free block to a well-formed heap.
use s_system_programmin.Common.{
  ℕ, ◌+◌, ◌-◌, ◌≤◌, ◌≡◌, refl, sym, subst, ◌∙◌, inl, inr, Bool, true, false, List, [], ◌∷◌, ◌++◌,
  append_assoc, arith,
}
use s_system_programmin.Malloc.Words.{Heap}
use s_system_programmin.Malloc.{insert_free_block, join, coalesce}
use s_system_programmin.Malloc.Links.{has}
use s_system_programmin.Malloc.FreeList.{FreeList, insert-FreeList, insert-SameButLinks}
use s_system_programmin.Malloc.Layout.{
  Block, block, total, is_free-below, last_used, Sized, Sized-append, Sized-join, Spaced,
  Spaced-append, Spaced-join, total-append,
}
use s_system_programmin.Malloc.Invariant.{
  prologue, Inv, live, KeepsPayload, Changed, Among, replace, is_free_parts, Changed-KeepsPayload,
}
use s_system_programmin.Malloc.Stands.{stands, tags_not_link}
use s_system_programmin.Malloc.Coalesce.Around.{
  Snoc-cases, last_used-snoc, first_used, join-by_neighbours,
}
use s_system_programmin.Malloc.Coalesce.Merge.{Pending, Joined, Pending-Among}
use s_system_programmin.Malloc.Coalesce.Next.{next-Joined}
use s_system_programmin.Malloc.Coalesce.Prev.{prev-Joined}
use s_system_programmin.Malloc.Coalesce.Both.{both-Joined}

-- What every caller of `coalesce` is given.
pub record Coalesced (h : Heap) (bs : List Block) (m : ℕ) (g : Heap) (p : ℕ) : Type 0 where
  pub before : List Block
  pub size : ℕ
  pub after : List Block
  pub frees : List ℕ
  pub inv : Inv g (before ++ (block size false ∷ after)) frees
  pub here : p ≡ g.heap_listp + 16 + total before
  pub grown : m ≤ size
  pub live_lem : (q : ℕ) → live g (before ++ (block size false ∷ after)) q ≡ live h bs q
  pub payload : KeepsPayload h bs g
  pub first : g.freelist_head ≡ p

Spaced-first :
    (prev : Bool) (bs : List Block) → first_used bs ≡ true → Spaced prev bs → Spaced false bs
Spaced-first prev [] f s = tt
Spaced-first prev (b ∷ bs) f s = ground arith

-- No neighbour is free.
none-Joined :
    {h : Heap} {fs : List ℕ} (xs : List Block) (n : ℕ) (ys : List Block) (bp : ℕ)
    → Pending h xs n ys fs bp
    → last_used true xs ≡ true
    → first_used ys ≡ true
    → Joined h (xs ++ (block n false ∷ ys)) n h bp
none-Joined {fs} xs n ys bp p last first =
    let spaces = Spaced-append true xs (block n true ∷ ys) p.spaced in
    record {
      before = xs;
      size = n;
      after = ys;
      frees = fs;
      pending = p;
      isolated =
          Spaced-join true xs (block n false ∷ ys) spaces.0
            (rw last refl, Spaced-first true ys first spaces.1.1);
      live_lem = λ q. refl;
      payload = λ q m x u a b. refl;
      grown = omega arith;
    }

-- Whether the block behind is free.
by_next :
    {h : Heap} {fs : List ℕ} (xs : List Block) (n k : ℕ) (u : Bool) (ys : List Block) (bp : ℕ)
    → Pending h xs n (block k u ∷ ys) fs bp
    → last_used true xs ≡ true
    → Joined h (xs ++ (block n false ∷ block k u ∷ ys)) n (join bp h).0 (join bp h).1
by_next xs n k true ys bp p last =
    rw (join-by_neighbours xs n (block k true ∷ ys) bp p.laid p.here, last)
      (none-Joined xs n (block k true ∷ ys) bp p last refl)
by_next xs n k false ys bp p last =
    rw (join-by_neighbours xs n (block k false ∷ ys) bp p.laid p.here, last)
      (next-Joined xs n k ys bp p last)

with_next :
    {h : Heap} {fs : List ℕ} (xs : List Block) (n : ℕ) (ys : List Block) (bp : ℕ)
    → Pending h xs n ys fs bp
    → last_used true xs ≡ true
    → Joined h (xs ++ (block n false ∷ ys)) n (join bp h).0 (join bp h).1
with_next xs n [] bp p last =
    rw (join-by_neighbours xs n [] bp p.laid p.here, last) (none-Joined xs n [] bp p last refl)
with_next xs n (d ∷ ys) bp p last = by_next xs n d.size d.used ys bp p last

abbrev front : List Block → ℕ → List Block
front ws j = ws ++ (block j false ∷ [])

last_free : (ws : List Block) (j : ℕ) → last_used true (front ws j) ≡ false
last_free ws j = last_used-snoc true ws (block j false)

-- The block before is free: so is the one behind, or it is not.
module _ {h : Heap} {fs : List ℕ} (ws : List Block) (j n : ℕ) (lo : ℕ)
    (here : lo ≡ h.heap_listp + 16 + total ws) where
  by_next_free :
      (k : ℕ) (u : Bool) (ys : List Block)
      → Pending h (front ws j) n (block k u ∷ ys) fs (lo + j)
      → Joined h
          (front ws j ++ (block n false ∷ block k u ∷ ys))
          n
          (join (lo + j) h).0
          (join (lo + j) h).1
  by_next_free k true ys p =
      rw
        (
          join-by_neighbours (front ws j) n (block k true ∷ ys) (lo + j) p.laid p.here,
          last_free ws j,
        )
        (rw (append_assoc ws (block j false ∷ []) (block n false ∷ block k true ∷ ys)) (
          prev-Joined ws j n (block k true ∷ ys) lo p here (
            refl,
            (Spaced-append true (front ws j) (block n true ∷ block k true ∷ ys) p.spaced).1.1.1,
          )))
  by_next_free k false ys p =
      rw
        (
          join-by_neighbours (front ws j) n (block k false ∷ ys) (lo + j) p.laid p.here,
          last_free ws j,
        )
        (rw (append_assoc ws (block j false ∷ []) (block n false ∷ block k false ∷ ys))
          (both-Joined ws j n k ys lo p here))

  with_next_free :
      (ys : List Block)
      → Pending h (front ws j) n ys fs (lo + j)
      → Joined h (front ws j ++ (block n false ∷ ys)) n (join (lo + j) h).0 (join (lo + j) h).1
  with_next_free [] p =
      rw (join-by_neighbours (front ws j) n [] (lo + j) p.laid p.here, last_free ws j)
        (rw (append_assoc ws (block j false ∷ []) (block n false ∷ []))
          (prev-Joined ws j n [] lo p here tt))
  with_next_free (d ∷ ys) p = by_next_free d.size d.used ys p

-- Whether the block before is free.
by_prev :
    {h : Heap} {fs : List ℕ} (ws : List Block) (j : ℕ) (u : Bool) (n : ℕ) (ys : List Block) (bp : ℕ)
    → Pending h (ws ++ (block j u ∷ [])) n ys fs bp
    → Joined h ((ws ++ (block j u ∷ [])) ++ (block n false ∷ ys)) n (join bp h).0 (join bp h).1
by_prev ws j true n ys bp p =
    with_next (ws ++ (block j true ∷ [])) n ys bp p (last_used-snoc true ws (block j true))
by_prev {h} {fs} ws j false n ys bp p =
    let lo = h.heap_listp + 16 + total ws in
    let e : lo + j ≡ bp = omega (arith, p.here, total-append ws (block j false ∷ [])) in
    subst
      (λ a.
        Joined h ((ws ++ (block j false ∷ [])) ++ (block n false ∷ ys)) n (join a h).0 (join a h).1)
      e
      (with_next_free ws j n lo refl ys
        (subst (Pending h (ws ++ (block j false ∷ [])) n ys fs) (sym e) p))

join-Joined :
    {h : Heap} {fs : List ℕ} (xs : List Block) (n : ℕ) (ys : List Block) (bp : ℕ)
    → Pending h xs n ys fs bp
    → Joined h (xs ++ (block n false ∷ ys)) n (join bp h).0 (join bp h).1
join-Joined {h} {fs} xs n ys bp p = elim (Snoc-cases xs) [
  | inl e ↦ with_next xs n ys bp p (rw e refl)
  | inr (ws, b, e) ↦
      subst (λ zs. Joined h (zs ++ (block n false ∷ ys)) n (join bp h).0 (join bp h).1) (sym e)
        (by_prev ws b.size b.used n ys bp (subst (λ zs. Pending h zs n ys fs bp) e p))
]

-- `coalesce` joins the block with its free neighbours and puts the result at the head of the list.
insert-Coalesced :
    {h g : Heap} {bs : List Block} {m : ℕ} (p : ℕ)
    → Joined h bs m g p
    → Coalesced h bs m (insert_free_block p g) p
insert-Coalesced {h} {g} p j =
    let s = g.heap_listp in
    let q = j.pending in
    let xs = j.before in
    let n = j.size in
    let ys = j.after in
    let b = stands xs (block n false) ys p q.laid q.here in
    let ms = block n false ∷ [] in
    let old = Sized-append xs (block n false ∷ ys) q.laid.sized.2 in
    let sized : Sized (xs ++ (block n true ∷ ys)) =
      Sized-join xs (block n true ∷ ys) old.0 (b.large, b.even, old.1.2) in
    let parts =
      λ (f : ℕ). is_free_parts (s + 16) xs ms ys p (p + n) f q.laid.sized.2 q.here (omega arith) in
    let parts' = λ (f : ℕ).
      is_free_parts (s + 16) xs (block n true ∷ []) ys p (p + n) f sized q.here (omega arith) in
    let out : has p (s ∷ j.frees) ≡ false =
      ground (arith, q.listed p, parts' p, b.start, b.large, is_free-below (p + n) ys p) in
    let k = insert_free_block p g in
    let list = insert-FreeList p q.list (omega (arith, b.bp_mod)) (omega (arith, b.start)) out in
    let words = insert-SameButLinks p q.list in
    let among : Among (p ∷ j.frees) s (prologue ∷ xs ++ (block n false ∷ ys)) =
      λ f m. ground (arith, Pending-Among xs n ys p q f, parts p, b.start, b.large) in
    let change : Changed (p ∷ j.frees) p (p + n) g k = record {
      words = λ x l o. words.words x l;
      mem = words.mem;
      listp = words.listp;
    } in
    let spot = tags_not_link (p ∷ j.frees) xs (block n false) ys p q.laid q.here among in
    let laid =
      replace xs ms ms ys q.laid among change (omega (arith, q.here)) (omega arith)
        (words.words (p - 4) spot.0 ∙ b.header, words.words (p + n - 8) spot.1 ∙ b.footer, tt) refl
        (b.large, b.even, tt) in
    record {
      before = xs;
      size = n;
      after = ys;
      frees = p ∷ j.frees;
      inv = record {
        laid = laid;
        list = subst (λ a. FreeList k a (p ∷ j.frees)) (sym words.listp) list;
        listed = λ f. rw words.listp (
            ground
              (arith, q.listed f, parts f, parts' f, b.start, b.large, is_free-below (p + n) ys f));
        spaced = j.isolated;
      };
      live_lem = λ f. rw words.listp (j.live_lem f);
      payload = λ f m x u a c.
          Changed-KeepsPayload xs ms ys q.laid among change (omega (arith, q.here)) (omega arith)
            (λ y. ground arith) f m x (j.live_lem f ∙ u) a c
          ∙ j.payload f m x u a c;
      first = unfold insert_free_block in refl;
      here = rw words.listp q.here;
      grown = j.grown;
    }

-- `coalesce` of a free block that is not in the list yet joins it with its free neighbours, and puts
-- the joined block, of no fewer bytes, at the front of the list: the heap is well-formed again, with
-- the same allocations and contents.
pub coalesce-Coalesced :
    {h : Heap} {fs : List ℕ} (xs : List Block) (n : ℕ) (ys : List Block) (bp : ℕ)
    → Pending h xs n ys fs bp
    → Coalesced h (xs ++ (block n false ∷ ys)) n (coalesce bp h).0 (coalesce bp h).1
unfolding coalesce
coalesce-Coalesced {h} xs n ys bp p =
    insert-Coalesced {g = (join bp h).0} (join bp h).1 (join-Joined xs n ys bp p)

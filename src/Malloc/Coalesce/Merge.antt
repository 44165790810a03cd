-- ===== src/Malloc/Coalesce/Merge.antt =====
-- A stretch of the heap with no allocated block becomes one free block, not yet in the free list.
use s_system_programmin.Common.{
  ℕ, ◌+◌, ◌-◌, ◌≤◌, ◌≡◌, refl, sym, subst, true, false, none, List, [], ◌∷◌, ◌++◌, arith,
}
use s_system_programmin.Malloc.Words.{Heap}
use s_system_programmin.Malloc.Links.{has}
use s_system_programmin.Malloc.FreeList.{FreeList}
use s_system_programmin.Malloc.Layout.{
  Block, block, total, last_used, Sized, used_at, is_free, Spaced, Sized-append, Sized-join,
  total_mod, Spaced-join, Spaced-true,
}
use s_system_programmin.Malloc.Stands.{stands}
use s_system_programmin.Malloc.Invariant.{
  prologue, Laid, live, KeepsPayload, Changed, Among, replace, used_at_parts, is_free_parts,
  Changed-KeepsPayload,
}

-- The block at `bp` is marked free and not yet listed: the list is that of the same row with this
-- block allocated.
pub record Pending (h : Heap) (xs : List Block) (n : ℕ) (ys : List Block) (fs : List ℕ) (bp : ℕ)
    : Type 0 where
  pub laid : Laid h (xs ++ (block n false ∷ ys))
  pub list : FreeList h h.heap_listp fs
  pub listed : (q : ℕ) → has q fs ≡ is_free h.heap_listp (prologue ∷ xs ++ (block n true ∷ ys)) q
  pub spaced : Spaced true (xs ++ (block n true ∷ ys))
  pub here : bp ≡ h.heap_listp + 16 + total xs

-- The outcome: a block pointer `p` whose block has no free neighbour, with the allocations and their
-- contents as in `h`, and `m` bytes at least.
pub record Joined (h : Heap) (bs : List Block) (m : ℕ) (g : Heap) (p : ℕ) : Type 0 where
  pub before : List Block
  pub size : ℕ
  pub after : List Block
  pub frees : List ℕ
  pub pending : Pending g before size after frees p
  pub isolated : Spaced true (before ++ (block size false ∷ after))
  pub live_lem : (q : ℕ) → live g (before ++ (block size false ∷ after)) q ≡ live h bs q
  pub payload : KeepsPayload h bs g
  pub grown : m ≤ size

pub Pending-Among :
    {h : Heap} {fs : List ℕ} (xs : List Block) (n : ℕ) (ys : List Block) (bp : ℕ)
    → Pending h xs n ys fs bp
    → Among fs h.heap_listp (prologue ∷ xs ++ (block n false ∷ ys))
Pending-Among {h} xs n ys bp p f m =
    let s = h.heap_listp in
    let b = stands xs (block n false) ys bp p.laid p.here in
    let old = Sized-append xs (block n false ∷ ys) p.laid.sized.2 in
    let sized : Sized (xs ++ (block n true ∷ ys)) =
      Sized-join xs (block n true ∷ ys) old.0 (b.large, b.even, old.1.2) in
    ground (
      arith,
      p.listed f,
      b.start,
      b.large,
      is_free_parts (s + 16) xs (block n false ∷ []) ys bp (bp + n) f p.laid.sized.2 p.here
          (omega arith),
      is_free_parts (s + 16) xs (block n true ∷ []) ys bp (bp + n) f sized p.here (omega arith),
    )

pub merge :
    {h g : Heap} {fs : List ℕ} (xs ms ys : List Block) (lo : ℕ) (frees : List ℕ) (m : ℕ)
    → Laid h (xs ++ (ms ++ ys))
    → Among fs h.heap_listp (prologue ∷ xs ++ (ms ++ ys))
    → Changed fs lo (lo + total ms) h g
    → lo ≡ h.heap_listp + 16 + total xs
    → 16 ≤ total ms
    → ((q : ℕ) → used_at lo ms q ≡ none)
    → g.word (lo - 4) ≡ total ms
    → g.word (lo + total ms - 8) ≡ total ms
    → FreeList g h.heap_listp frees
    → ((q : ℕ)
        → has q frees ≡ is_free h.heap_listp (prologue ∷ xs ++ (block (total ms) true ∷ ys)) q)
    → Spaced true xs
    → last_used true xs ≡ true
    → Spaced false ys
    → m ≤ total ms
    → Joined h (xs ++ (ms ++ ys)) m g lo
merge {h} {g} {fs} xs ms ys lo frees m l among c e large quiet header footer list listed left last
      right grown =
    let s = h.heap_listp in
    let n = total ms in
    let (sized_left, sized_right) = Sized-append xs (ms ++ ys) l.sized.2 in
    let even = total_mod ms (Sized-append ms ys sized_right).0 in
    let laid : Laid g (xs ++ (block n false ∷ ys)) =
      replace xs ms (block n false ∷ []) ys l among c (omega arith) (omega arith)
        (header, footer, tt) (omega arith) (large, even, tt) in
    record {
      before = xs;
      size = n;
      after = ys;
      frees = frees;
      pending = record {
        laid = laid;
        list = subst (λ a. FreeList g a frees) (sym c.listp) list;
        listed = λ q. rw c.listp (listed q);
        spaced =
            Spaced-join true xs (block n true ∷ ys) left (rw last refl, Spaced-true false ys right);
        here = rw c.listp e;
      };
      isolated = Spaced-join true xs (block n false ∷ ys) left (rw last (ground arith), right);
      live_lem = λ q. rw c.listp (
          ground (
            arith,
            quiet q,
            used_at_parts (s + 16) xs ms ys lo (lo + n) q l.sized.2 e (omega arith),
            used_at_parts (s + 16) xs (block n false ∷ []) ys lo (lo + n) q laid.sized.2 e
                (omega arith),
          ));
      payload = Changed-KeepsPayload xs ms ys l among c (omega arith) (omega arith) quiet;
      grown = grown;
    }

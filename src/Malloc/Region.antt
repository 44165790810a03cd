-- ===== src/Malloc/Region.antt =====
-- Work of mm.c inside one stretch of the heap, from the header of its first block (`lo`) to the
-- footer of its last one (before `hi`): the free blocks elsewhere keep their links.
use s_system_programmin.Common.{
  ℕ, ◌+◌, ◌≤◌, ◌<◌, ◌-◌, ◌%◌, ◌≡◌, ◌≢◌, refl, ◌⊎◌, Bool, true, false, ◌||◌, List, [], ◌∷◌, ◌++◌,
  arith, ltb, leb,
}
use s_system_programmin.Malloc.Words.{Heap, pack, put_tags}
use s_system_programmin.Malloc.Links.{has, erase, is_link, Linked-frame}
use s_system_programmin.Malloc.FreeList.{FreeList}
use s_system_programmin.Malloc.Layout.{Block, total, Sized, is_free, Sized-append, free_range}
use s_system_programmin.Malloc.Invariant.{is_free_parts}

-- The blocks `fs` lie outside the stretch.
abbrev pub Away : List ℕ → (lo hi : ℕ) → Type 0
Away fs lo hi = (f : ℕ) → has f fs ≡ true → (f + 16 ≤ lo) ⊎ (hi ≤ f)

pub Away-not_link :
    (fs : List ℕ) (lo hi x : ℕ) → Away fs lo hi → lo ≤ x + 4 → x + 4 < hi → is_link x fs ≡ false
Away-not_link [] lo hi x away a b = refl
Away-not_link (f ∷ fs) lo hi x away a b =
    ground (arith, away f, Away-not_link fs lo hi x (λ q m. away q (ground arith)))

pub Away-not_mem : (fs : List ℕ) (lo hi x : ℕ) → Away fs lo hi → lo ≤ x → x < hi → has x fs ≡ false
Away-not_mem fs lo hi x away a b = ground (arith, away x)

pub not_link-erase : (x q : ℕ) (fs : List ℕ) → is_link x fs ≡ false → is_link x (erase q fs) ≡ false
not_link-erase x q [] n = refl
not_link-erase x q (f ∷ fs) n = ground (arith, not_link-erase x q fs)

-- The list of free blocks outside survives a change inside.
pub FreeList-frame :
    {h : Heap} {s : ℕ} {fs : List ℕ} (g : Heap) (lo hi : ℕ)
    → FreeList h s fs
    → Away (s ∷ fs) lo hi
    → ((x : ℕ) → (ltb (x + 4) lo || leb hi (x + 4)) ≡ true → g.word x ≡ h.word x)
    → g.freelist_head ≡ h.freelist_head
    → FreeList g s fs
FreeList-frame {h} {s} {fs} g lo hi l away same head =
    let list =
      Linked-frame h.word g.word 0 h.freelist_head fs s l.linked
        λ x k. same x (ground (arith, Away-not_link (s ∷ fs) lo hi x away)) in
    record { linked = rw head list; nodes = l.nodes }

-- In a row cut in three, the free blocks outside the middle part are away from it.
pub parts-Away :
    (s : ℕ) (xs ms ys : List Block) (lo hi : ℕ) (fs : List ℕ)
    → Sized (xs ++ (ms ++ ys))
    → lo ≡ s + 16 + total xs
    → hi ≡ lo + total ms
    → ((q : ℕ) → has q fs ≡ true → is_free (s + 16) (xs ++ (ms ++ ys)) q ≡ true)
    → ((q : ℕ) → has q fs ≡ true → is_free lo ms q ≡ false)
    → Away (s ∷ fs) lo hi
parts-Away s xs ms ys lo hi fs sized e e' among quiet f m = ground (
  arith,
  among f,
  quiet f,
  is_free_parts (s + 16) xs ms ys lo hi f sized e e',
  free_range (s + 16) xs f (Sized-append xs (ms ++ ys) sized).0,
)

-- What `PUT(HDRP(bp), PACK(n, u)); PUT(FTRP(bp), PACK(n, u))` does.
pub record Tagged (bp n : ℕ) (u : Bool) (h g : Heap) : Type 0 where
  pub header : g.word (bp - 4) ≡ pack n u
  pub footer : g.word (bp + n - 8) ≡ pack n u
  pub others : (x : ℕ) → x ≢ bp - 4 → x ≢ bp + n - 8 → g.word x ≡ h.word x
  pub mem : g.mem ≡ h.mem
  pub listp : g.heap_listp ≡ h.heap_listp
  pub head : g.freelist_head ≡ h.freelist_head

pub put_tags-Tagged :
    (bp n : ℕ) (u : Bool) (h : Heap)
    → 8 ≤ bp
    → 16 ≤ n
    → n % 8 ≡ 0
    → Tagged bp n u h (put_tags bp (pack n u) h)
put_tags-Tagged bp n true h a b c = record {
  header = ground arith;
  footer = ground arith;
  others = λ x k l. ground arith;
  mem = refl;
  listp = refl;
  head = refl;
}
put_tags-Tagged bp n false h a b c = record {
  header = ground arith;
  footer = ground arith;
  others = λ x k l. ground arith;
  mem = refl;
  listp = refl;
  head = refl;
}

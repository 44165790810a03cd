-- ===== src/Malloc/Alloc.antt =====
-- `mm_malloc` of mm.c, from the rounding of the request to the block that is handed out.
use s_system_programmin.Common.{
  ℕ, ◌+◌, ◌/◌, ◌%◌, ◌^◌, ◌≤◌, ◌<◌, ◌≡◌, refl, ap, sym, subst, ◌∙◌, true, false, Bool-cases, inl,
  inr, Option, none, some, List, [], ◌∷◌, ◌++◌, arith, leb, ◌==◌, if◌then◌else◌,
}
use s_system_programmin.Malloc.Words.{Heap, size_at, align, chunksize, wsize}
use s_system_programmin.Malloc.{place, extend_heap, mm_malloc, malloc_found, place_extended, max_of}
use s_system_programmin.Malloc.Links.{has}
use s_system_programmin.Malloc.Layout.{Block, block, total, is_free, used_at, Sized, free_range}
use s_system_programmin.Malloc.Invariant.{Inv, live, used_at_parts}
use s_system_programmin.Malloc.Stands.{stands}
use s_system_programmin.Malloc.Place.{Placed, place-Placed}
use s_system_programmin.Malloc.Extend.{
  extend_size, refused, Extends, exhausted, extends, extend_heap-Extends,
}
use s_system_programmin.Malloc.Fit.{
  first_fit, Found, no_fit, fits, first_fit-Found, find_fit-first_fit,
}

-- A free block cuts its row in two.
record FreeCut (p : ℕ) (bs : List Block) (q : ℕ) : Type 0 where
  pub before : List Block
  pub size : ℕ
  pub after : List Block
  pub row : bs ≡ before ++ (block size false ∷ after)
  pub here : q ≡ p + total before

free_cut : (p : ℕ) (bs : List Block) (q : ℕ) → is_free p bs q ≡ true → FreeCut p bs q
free_cut p [] q u = cc
free_cut p (b ∷ bs) q u = elim (Bool-cases (q == p)) [
  | inl hit ↦ record {
    before = [];
    size = b.size;
    after = bs;
    row = ground arith;
    here = ground arith;
  }
  | inr miss ↦
      let rest = free_cut (p + b.size) bs q (rw miss at u) in
      record {
        before = b ∷ rest.before;
        size = rest.size;
        after = rest.after;
        row = ap (λ zs. b ∷ zs) rest.row;
        here = omega (arith, rest.here);
      }
]

free-not_used :
    (p : ℕ) (bs : List Block) (q : ℕ) → Sized bs → is_free p bs q ≡ true → used_at p bs q ≡ none
free-not_used p [] q s f = refl
free-not_used p (b ∷ bs) q s f = ground (arith, free-not_used (p + b.size) bs q)

-- The bytes of a block that serves a request: header and footer are added, and the sum is rounded
-- up to a multiple of 8.
abbrev pub block_size : ℕ → ℕ
block_size size = align ((size + align 4) % 2 ^ 32)

-- A new allocation: an 8-aligned pointer to `size` bytes at least that was no allocation before.
pub record Allocated (h : Heap) (bs : List Block) (size : ℕ) (g : Heap) (p : ℕ) : Type 0 where
  pub bytes : ℕ
  pub enough : size + 8 ≤ bytes
  pub placed : Placed h bs p bytes g
  pub fresh : live h bs p ≡ none
  pub aligned : p % 8 ≡ 0
  pub not_null : 0 < p

-- The bytes that the heap is extended by when no free block is large enough.
abbrev pub asked : ℕ → ℕ
asked size = if leb (block_size size) 4096 then 4096 else block_size size

-- No free block is large enough, and the memory has no room for another one.
pub record Exhausted (h : Heap) (fs : List ℕ) (size : ℕ) : Type 0 where
  pub all_small : (f : ℕ) → has f fs ≡ true → size_at h.word f < block_size size
  pub no_room : refused (asked size) h ≡ true

-- What `mm_malloc` returns. NULL stands for a heap that is left as it was, when no free block is
-- large enough and the memory has no room for another one.
pub data Allocates (h : Heap) (bs : List Block) (fs : List ℕ) (size : ℕ)
    : Option (Heap × ℕ) → Type 0 where
  refuses : Exhausted h fs size → Allocates h bs fs size (some (h, 0))
  allocates : {g : Heap} {p : ℕ} → Allocated h bs size g p → Allocates h bs fs size (some (g, p))

module _ {h : Heap} {bs : List Block} {fs : List ℕ} (inv : Inv h bs fs) (size : ℕ)
    (some_bytes : 0 < size) (below : size + 15 < 2 ^ 32) where
  fresh_at :
      {g : Heap} {gs : List ℕ} (xs : List Block) (n : ℕ) (ys : List Block) (p : ℕ)
      → Inv g (xs ++ (block n false ∷ ys)) gs
      → p ≡ g.heap_listp + 16 + total xs
      → live g (xs ++ (block n false ∷ ys)) p ≡ none
  fresh_at {g} xs n ys p i here =
      let b = stands xs (block n false) ys p i.laid here in
      ground (
        arith,
        b.large,
        used_at_parts (g.heap_listp + 16) xs (block n false ∷ []) ys p (p + n) p i.laid.sized.2 here
            (omega arith),
      )

  -- From a free block that is large enough, in a heap with the allocations of `h`.
  from_block :
      {g : Heap} {gs : List ℕ} (xs : List Block) (n : ℕ) (ys : List Block) (p : ℕ)
      → Inv g (xs ++ (block n false ∷ ys)) gs
      → p ≡ g.heap_listp + 16 + total xs
      → block_size size ≤ n
      → ((q : ℕ) → live g (xs ++ (block n false ∷ ys)) q ≡ live h bs q)
      → ((q m x : ℕ) → live h bs q ≡ some m → q ≤ x → x + 8 < q + m → g.word x ≡ h.word x)
      → Allocated h bs size (place p (block_size size) g) p
  from_block {g} {gs} xs n ys p i here fit same payload =
      let a = block_size size in
      let r = place-Placed xs ys n p a i here (omega arith) (omega arith) fit in
      let b = stands xs (block n false) ys p i.laid here in
      record {
        bytes = if leb (a + 16) n then a else n;
        enough = ground arith;
        placed = record {
          blocks = r.blocks;
          frees = r.frees;
          inv = r.inv;
          live_lem = λ q.
              r.live_lem q
              ∙ ap (λ o. if q == p then some (if leb (a + 16) n then a else n) else o) (same q);
          payload = λ q m x u c d. r.payload q m x (same q ∙ u) c d ∙ payload q m x u c d;
        };
        fresh = sym (same p) ∙ fresh_at xs n ys p i here;
        aligned = b.bp_mod;
        not_null = omega (arith, b.start);
      }

  from_list :
      (r : ℕ)
      → has r fs ≡ true
      → block_size size ≤ size_at h.word r
      → Allocated h bs size (place r (block_size size) h) r
  from_list r m fit =
      let s = h.heap_listp in
      let f : is_free (s + 16) bs r ≡ true = ground (arith, inv.listed r) in
      let c = free_cut (s + 16) bs r f in
      let i : Inv h (c.before ++ (block c.size false ∷ c.after)) fs =
        subst (λ zs. Inv h zs fs) c.row inv in
      let b = stands c.before (block c.size false) c.after r i.laid c.here in
      from_block c.before c.size c.after r i c.here (omega (arith, b.header, b.even))
        (λ q. ap (λ zs. live h zs q) (sym c.row)) (λ q m x u a d. refl)

  from_memory :
      (o : Option (Heap × ℕ))
      → ((f : ℕ) → has f fs ≡ true → size_at h.word f < block_size size)
      → Extends h bs (asked size) o
      → Allocates h bs fs size (some (place_extended (block_size size) h o))
  unfolding place_extended
  from_memory none all_small (exhausted e) = refuses (record { all_small = all_small; no_room = e })
  from_memory (some (g, p)) all_small (extends _ c) = allocates (
      from_block c.before c.size c.after p c.inv c.here (ground (arith, c.grown)) c.live_lem
        c.payload)

  Found-Allocates :
      (r : ℕ)
      → Found h.word (block_size size) fs r
      → Allocates h bs fs size (malloc_found (block_size size) h (some r))
  unfolding malloc_found
  Found-Allocates _ (no_fit all_small) =
      let words = max_of (block_size size) chunksize / wsize in
      let rounded : extend_size words ≡ asked size = ground arith in
      from_memory (extend_heap words h) all_small (
        subst (λ m. Extends h bs m (extend_heap words h)) rounded
          (extend_heap-Extends words inv (ground arith)))
  Found-Allocates r (fits m l) =
      let positive : (r == 0) ≡ false =
        ground (arith, inv.listed r, free_range (h.heap_listp + 16) bs r inv.laid.sized.2) in
      rw positive (allocates (from_list r m l))

-- `mm_malloc` on a well-formed heap, of a positive size at least 16 below 2 ^ 32, ends, and either
-- hands out a new allocation of 8 bytes more at least, header and footer included, at a multiple of
-- 8 in a well-formed heap, with all other allocations and their contents as before, or returns NULL
-- and leaves the heap alone because no free block and no new one has room for the request.
pub mm_malloc-Allocates :
    {h : Heap} {bs : List Block} {fs : List ℕ} (size : ℕ)
    → Inv h bs fs
    → 0 < size
    → size + 15 < 2 ^ 32
    → Allocates h bs fs size (mm_malloc size h)
unfolding mm_malloc
mm_malloc-Allocates {h} {bs} {fs} size inv some_bytes below =
    let positive : (size == 0) ≡ false = ground arith in
    let r = first_fit h.word (block_size size) fs in
    rw (find_fit-first_fit (block_size size) inv, positive)
      (Found-Allocates inv size some_bytes below r (first_fit-Found h.word (block_size size) fs))

-- A request for which header, footer and rounding do not fit into 32 bits is taken for one of at
-- most 8 bytes.
pub block_size-wraps : (size : ℕ) → size < 2 ^ 32 → 2 ^ 32 ≤ size + 15 → block_size size ≤ 8
block_size-wraps size small large = omega arith

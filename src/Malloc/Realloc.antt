-- ===== src/Malloc/Realloc.antt =====
-- `mm_realloc` of mm.c: a new allocation, a copy of the contents, and the release of the old one.
use s_system_programmin.Common.{
  ℕ, ◌+◌, ◌*◌, ◌/◌, ◌%◌, ◌^◌, ◌≤◌, ◌<◌, ◌≡◌, ap, subst, ◌∙◌, true, false, Bool-cases, inl, inr,
  Option, none, some, List, arith, ltb, ◌==◌, if◌then◌else◌,
}
use native.Mathlib.Nat.{add-mul-mod_self_right, mod-mod}
use s_system_programmin.Malloc.Words.{Heap, size_at}
use s_system_programmin.Malloc.{mm_free, mm_malloc, mm_realloc, realloc_new, copy_words}
use s_system_programmin.Malloc.Layout.{Block, block, used_range}
use s_system_programmin.Malloc.Invariant.{Laid, Inv, live}
use s_system_programmin.Malloc.Stands.{Stands, stands}
use s_system_programmin.Malloc.Free.{used_cut, Freed, mm_free-Freed}
use s_system_programmin.Malloc.Alloc.{
  Exhausted, Allocated, Allocates, refuses, allocates, mm_malloc-Allocates,
}
use s_system_programmin.Malloc.Payload.{used_apart, Writes, write-Inv}

-- An allocation stands in its row.
pub used-Stands :
    {h : Heap} {bs : List Block} {fs : List ℕ} (q n : ℕ)
    → Inv h bs fs
    → live h bs q ≡ some n
    → Stands h (block n true) q
used-Stands {h} {bs} q n inv u =
    let c = used_cut (h.heap_listp + 16) bs q n u in
    stands c.before (block n true) c.after q (subst (λ zs. Laid h zs) c.row inv.laid) c.here

-- The header of an allocation holds its size.
pub used-size_at :
    {h : Heap} {bs : List Block} {fs : List ℕ} (q n : ℕ)
    → Inv h bs fs
    → live h bs q ≡ some n
    → size_at h.word q ≡ n
used-size_at q n inv u = let b = used-Stands q n inv u in omega (arith, b.header, b.even)

-- The outcome for the allocation of `n` bytes at `ptr`: it has moved to `p`, with the part of its
-- contents that fits, and all other allocations and their contents are as before.
pub record Moved (h : Heap) (bs : List Block) (ptr n size : ℕ) (g : Heap) (p : ℕ) : Type 0 where
  pub bytes : ℕ
  pub enough : size + 8 ≤ bytes
  pub blocks : List Block
  pub frees : List ℕ
  pub inv : Inv g blocks frees
  pub live_lem :
      (q : ℕ)
      → live g blocks q ≡ (if q == ptr then none else if q == p then some bytes else live h bs q)
  pub copied : (k : ℕ) → k + 4 ≤ size → k + 8 < n → g.word (p + k) ≡ h.word (ptr + k)
  pub copied_rest :
      (k : ℕ)
      → k < size
      → size < k + 4
      → k + 8 < n
      → g.word (p + k) % 2 ^ (8 * (size % 4)) ≡ h.word (ptr + k) % 2 ^ (8 * (size % 4))
  pub payload :
      (q m x : ℕ)
      → (q == ptr) ≡ false
      → live h bs q ≡ some m
      → q ≤ x
      → x + 8 < q + m
      → g.word x ≡ h.word x
  pub fresh : live h bs p ≡ none
  pub aligned : p % 8 ≡ 0
  pub not_null : 0 < p

-- What `mm_realloc` returns: NULL with the heap as it was, or the allocation at its new place.
pub data Reallocates (h : Heap) (bs : List Block) (fs : List ℕ) (ptr n size : ℕ)
    : Option (Heap × ℕ) → Type 0 where
  stays : Exhausted h fs size → Reallocates h bs fs ptr n size (some (h, 0))
  moves :
      {g : Heap} {p : ℕ} → Moved h bs ptr n size g p → Reallocates h bs fs ptr n size (some (g, p))

module _ {h : Heap} {bs : List Block} {fs : List ℕ} (inv : Inv h bs fs) (ptr n size : ℕ)
    (old : live h bs ptr ≡ some n) (some_bytes : 0 < size) {g : Heap} {p : ℕ}
    (a : Allocated h bs size g p) where
  copied_bytes : ℕ
  copied_bytes = if ltb size n then size else n

  full : Heap
  full = record g { word = copy_words copied_bytes p ptr g.word }

  large : 16 ≤ n
  large = (used_range (h.heap_listp + 16) bs ptr n inv.laid.sized.2 old).2

  writes : Writes g p a.bytes full.word
  unfolding full copied_bytes copy_words
  writes x out = ground (arith, a.enough, large)

  new : (q m : ℕ) → live h bs q ≡ some m → (q == p) ≡ false
  new q m u = elim (Bool-cases (q == p)) [ inl e ↦ absurd (ground (arith, a.fresh)) | inr e ↦ e ]

  full-Inv : Inv full a.placed.blocks a.placed.frees
  unfolding full
  full-Inv =
      let r = a.placed in write-Inv p a.bytes full.word r.inv (ground (arith, r.live_lem p)) writes

  full-live : (q : ℕ) → live full a.placed.blocks q ≡ (if q == p then some a.bytes else live h bs q)
  unfolding full
  full-live q = a.placed.live_lem q

  -- The copy leaves the contents of the older allocations alone.
  full-payload : (q m x : ℕ) → live h bs q ≡ some m → q ≤ x → x + 8 < q + m → full.word x ≡ h.word x
  full-payload q m x u b c =
      let r = a.placed in
      let s = g.heap_listp + 16 in
      let other : (q == p) ≡ false = new q m u in
      let disjoint =
        used_apart s r.blocks q m p a.bytes r.inv.laid.sized.2 (ground (arith, r.live_lem q))
          (ground (arith, r.live_lem p)) other in
      let room : 16 ≤ a.bytes =
        (used_range s r.blocks p a.bytes r.inv.laid.sized.2 (ground (arith, r.live_lem p))).2 in
      writes x (ground (arith, disjoint)) ∙ r.payload q m x u b c

  full-copied : (k : ℕ) → k + 4 ≤ size → k + 8 < n → full.word (p + k) ≡ h.word (ptr + k)
  unfolding full copied_bytes copy_words
  full-copied k b c =
      let same = a.placed.payload ptr n (ptr + k) old (omega arith) (omega arith) in
      ground (arith, same, large)

  full-copied_rest :
      (k : ℕ)
      → k < size
      → size < k + 4
      → k + 8 < n
      → full.word (p + k) % 2 ^ (8 * (size % 4)) ≡ h.word (ptr + k) % 2 ^ (8 * (size % 4))
  unfolding full copied_bytes copy_words
  full-copied_rest k b c d =
      let same = a.placed.payload ptr n (ptr + k) old (omega arith) (omega arith) in
      let m : ℕ = 2 ^ (8 * (size % 4)) in
      let merged : full.word (p + k) ≡ g.word (ptr + k) % m + g.word (p + k) / m * m =
        ground (arith, large) in
      ap (λ x. x % m) merged
      ∙ add-mul-mod_self_right (g.word (ptr + k) % m) (g.word (p + k) / m) m
      ∙ mod-mod (g.word (ptr + k)) m
      ∙ ap (λ x. x % m) same

  moved : Moved h bs ptr n size (mm_free ptr full) p
  unfolding full copied_bytes
  moved =
      let f : Freed full a.placed.blocks ptr (mm_free ptr full) =
        mm_free-Freed ptr n full-Inv (full-live ptr ∙ rw (new ptr n old) old) in
      let back : (p == ptr) ≡ false = ground (arith, new ptr n old) in
      record {
        bytes = a.bytes;
        enough = a.enough;
        blocks = f.blocks;
        frees = f.frees;
        inv = f.inv;
        live_lem = λ q. f.live_lem q ∙ ap (λ o. if q == ptr then none else o) (full-live q);
        copied = λ k b c.
            f.payload p a.bytes (p + k) (f.live_lem p ∙ rw (back) (full-live p ∙ ground arith))
              (omega arith) (omega (arith, a.enough))
            ∙ full-copied k b c;
        copied_rest = λ k b c d.
            ap (λ x. x % 2 ^ (8 * (size % 4)))
              (f.payload p a.bytes (p + k) (f.live_lem p ∙ rw (back) (full-live p ∙ ground arith))
                (omega arith) (omega (arith, a.enough)))
            ∙ full-copied_rest k b c d;
        payload = λ q m x e u b c.
            f.payload q m x (f.live_lem q ∙ rw e (full-live q ∙ rw (new q m u) u)) b c
            ∙ full-payload q m x u b c;
        fresh = a.fresh;
        aligned = a.aligned;
        not_null = a.not_null;
      }

realloc_new-Reallocates :
    {h : Heap} {bs : List Block} {fs : List ℕ} (ptr n size : ℕ) (o : Option (Heap × ℕ))
    → Inv h bs fs
    → live h bs ptr ≡ some n
    → 0 < size
    → Allocates h bs fs size o
    → Reallocates h bs fs ptr n size (realloc_new ptr size o)
unfolding realloc_new full copied_bytes
realloc_new-Reallocates ptr n size none inv u some_bytes a = elim a [ ]
realloc_new-Reallocates ptr n size (some (g, p)) inv u some_bytes (refuses e) = stays e
realloc_new-Reallocates ptr n size (some (g, p)) inv u some_bytes (allocates a) =
    let positive : (p == 0) ≡ false = ground (arith, a.not_null) in
    let r = a.placed in
    let kept = r.live_lem ptr ∙ rw (new inv ptr n size u some_bytes a ptr n u) u in
    let header : size_at g.word ptr ≡ n = used-size_at ptr n r.inv kept in
    rw (positive, header) (moves (moved inv ptr n size u some_bytes a))

-- `mm_realloc` of an allocation in a well-formed heap to a positive size at least 16 below 2 ^ 32
-- ends, and either returns NULL and leaves the heap alone because nothing has room for the request,
-- or moves the allocation to a place that was no allocation before, with the words that lie both in
-- the old contents and in the new size, and releases the old block. The heap is well-formed, and all
-- other allocations and their contents are as before. This holds of a smaller size, too, for which the
-- comment in the source says that the block shrinks and keeps its pointer.
pub mm_realloc-Reallocates :
    {h : Heap} {bs : List Block} {fs : List ℕ} (ptr n size : ℕ)
    → Inv h bs fs
    → live h bs ptr ≡ some n
    → 0 < size
    → size + 15 < 2 ^ 32
    → Reallocates h bs fs ptr n size (mm_realloc ptr size h)
unfolding mm_realloc
mm_realloc-Reallocates {h} {bs} ptr n size inv u some_bytes below =
    let used = used_range (h.heap_listp + 16) bs ptr n inv.laid.sized.2 u in
    let not_null : (ptr == 0) ≡ false = ground arith in
    let positive : (size == 0) ≡ false = ground arith in
    rw (not_null, positive)
      (realloc_new-Reallocates ptr n size (mm_malloc size h) inv u some_bytes
        (mm_malloc-Allocates size inv some_bytes below))

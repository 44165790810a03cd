-- ===== src/Malloc/Free.antt =====
-- `mm_free` of mm.c on a pointer to an allocated block.
use s_system_programmin.Common.{
  ℕ, ◌+◌, ◌≤◌, ◌<◌, ◌≡◌, refl, ap, sym, subst, ◌∙◌, true, false, Bool-cases, inl, inr, none, some,
  List, [], ◌∷◌, ◌++◌, arith, ◌==◌, if◌then◌else◌,
}
use s_system_programmin.Malloc.Words.{Heap, pack, put_tags, size_at}
use s_system_programmin.Malloc.{coalesce, mm_free}
use s_system_programmin.Malloc.FreeList.{FreeList}
use s_system_programmin.Malloc.Layout.{Block, block, total, used_at, used_range, Sized-append}
use s_system_programmin.Malloc.Invariant.{
  prologue, Laid, Inv, live, Changed, Among, replace, used_at_parts,
}
use s_system_programmin.Malloc.Region.{FreeList-frame, Tagged, put_tags-Tagged, Away, parts-Away}
use s_system_programmin.Malloc.Stands.{Stands, stands}
use s_system_programmin.Malloc.Coalesce.Merge.{Pending}
use s_system_programmin.Malloc.Coalesce.Main.{Coalesced, coalesce-Coalesced}

-- An allocated block cuts its row in two.
pub record UsedCut (p : ℕ) (bs : List Block) (q n : ℕ) : Type 0 where
  pub before : List Block
  pub after : List Block
  pub row : bs ≡ before ++ (block n true ∷ after)
  pub here : q ≡ p + total before

pub used_cut : (p : ℕ) (bs : List Block) (q n : ℕ) → used_at p bs q ≡ some n → UsedCut p bs q n
used_cut p [] q n u = cc
used_cut p (b ∷ bs) q n u = elim (Bool-cases (q == p)) [
  | inl hit ↦ record { before = []; after = bs; row = ground arith; here = ground arith }
  | inr miss ↦
      let rest = used_cut (p + b.size) bs q n (rw miss at u) in
      record {
        before = b ∷ rest.before;
        after = rest.after;
        row = ap (λ zs. b ∷ zs) rest.row;
        here = omega (arith, rest.here);
      }
]

-- The outcome: the block is no allocation any more, and all other allocations and their contents
-- are as before.
pub record Freed (h : Heap) (bs : List Block) (ptr : ℕ) (g : Heap) : Type 0 where
  pub blocks : List Block
  pub frees : List ℕ
  pub inv : Inv g blocks frees
  pub live_lem : (q : ℕ) → live g blocks q ≡ (if q == ptr then none else live h bs q)
  pub payload : (q n x : ℕ) → live g blocks q ≡ some n → q ≤ x → x + 8 < q + n → g.word x ≡ h.word x

module _ {h : Heap} {fs : List ℕ} (xs : List Block) (n : ℕ) (ys : List Block) (ptr : ℕ)
    (inv : Inv h (xs ++ (block n true ∷ ys)) fs) (here : ptr ≡ h.heap_listp + 16 + total xs) where
  b : Stands h (block n true) ptr
  b = stands xs (block n true) ys ptr inv.laid here

  g : Heap
  g = put_tags ptr (pack n false) h

  tagged : Tagged ptr n false h g
  unfolding g
  tagged = put_tags-Tagged ptr n false h (omega (arith, b.start)) b.large b.even

  among : Among fs h.heap_listp (prologue ∷ xs ++ (block n true ∷ ys))
  among q m = sym (inv.listed q) ∙ m

  changed : Changed fs ptr (ptr + n) h g
  changed =
      let t = tagged in
      record {
        words = λ x l o.
            t.others x (ground (arith, b.start, b.large)) (ground (arith, b.start, b.large));
        mem = t.mem;
        listp = t.listp;
      }

  laid : Laid g (xs ++ (block n false ∷ ys))
  laid =
      let t = tagged in
      replace xs (block n true ∷ []) (block n false ∷ []) ys inv.laid among changed
        (omega (arith, here)) (omega arith) (t.header, t.footer, tt) refl (b.large, b.even, tt)

  away : Away (h.heap_listp ∷ fs) ptr (ptr + n)
  away =
      parts-Away h.heap_listp xs (block n true ∷ []) ys ptr (ptr + n) fs inv.laid.sized.2 here
        (omega arith) (λ q m. ground (arith, inv.listed q)) (λ q m. ground arith)

  pending : Pending g xs n ys fs ptr
  pending =
      let t = tagged in
      record {
        laid = laid;
        list =
            subst (λ a. FreeList g a fs) (sym t.listp)
              (FreeList-frame g ptr (ptr + n) inv.list away
                (λ x o.
                  t.others x (ground (arith, b.start, b.large)) (ground (arith, b.start, b.large)))
                t.head);
        listed = λ q. rw t.listp (inv.listed q);
        spaced = inv.spaced;
        here = rw t.listp here;
      }

  -- Where the row is cut, the live allocations before and after the tags change.
  live_cut :
      (q : ℕ)
      → live g (xs ++ (block n false ∷ ys)) q
        ≡ (if q == ptr then none else live h (xs ++ (block n true ∷ ys)) q)
  live_cut q =
      let s = h.heap_listp in
      rw tagged.listp (
        ground (
          arith,
          b.start,
          b.large,
          used_at_parts (s + 16) xs (block n false ∷ []) ys ptr (ptr + n) q laid.sized.2 here
              (omega arith),
          used_at_parts (s + 16) xs (block n true ∷ []) ys ptr (ptr + n) q inv.laid.sized.2 here
              (omega arith),
        ))

  -- No payload of another allocation holds one of the two tags.
  payload_cut :
      (q m x : ℕ)
      → live g (xs ++ (block n false ∷ ys)) q ≡ some m
      → q ≤ x
      → x + 8 < q + m
      → g.word x ≡ h.word x
  payload_cut q m x u a c =
      let s = h.heap_listp in
      let t = tagged in
      let u' : used_at (s + 16) (xs ++ (block n false ∷ ys)) q ≡ some m = rw (sym t.listp) u in
      let parts =
        used_at_parts (s + 16) xs (block n false ∷ []) ys ptr (ptr + n) q laid.sized.2 here
          (omega arith) in
      let (left, right) = Sized-append xs (block n true ∷ ys) inv.laid.sized.2 in
      let range = used_range (s + 16) xs q m left in
      let range' = used_range (ptr + n) ys q m right.2 in
      t.others x (ground (arith, parts, range, range', b.start, b.large))
        (ground (arith, parts, range, range', b.start, b.large))

  Freed-at :
      (r : Heap × ℕ)
      → Coalesced g (xs ++ (block n false ∷ ys)) n r.0 r.1
      → Freed h (xs ++ (block n true ∷ ys)) ptr r.0
  Freed-at r c = record {
    blocks = c.before ++ (block c.size false ∷ c.after);
    frees = c.frees;
    inv = c.inv;
    live_lem = λ q. c.live_lem q ∙ live_cut q;
    payload = λ q m x u a d.
        let u' = sym (c.live_lem q) ∙ u in c.payload q m x u' a d ∙ payload_cut q m x u' a d;
  }

  free-Freed : Freed h (xs ++ (block n true ∷ ys)) ptr (mm_free ptr h)
  unfolding mm_free g coalesce
  free-Freed =
      let size : size_at h.word ptr ≡ n = omega (arith, b.header, b.even) in
      rw size (Freed-at (coalesce ptr g) (coalesce-Coalesced xs n ys ptr pending))

-- `mm_free` of an allocated block keeps a well-formed heap well-formed, takes exactly this block out of
-- the allocations, and leaves the contents of the others alone.
pub mm_free-Freed :
    {h : Heap} {bs : List Block} {fs : List ℕ} (ptr n : ℕ)
    → Inv h bs fs
    → live h bs ptr ≡ some n
    → Freed h bs ptr (mm_free ptr h)
mm_free-Freed {h} {bs} {fs} ptr n inv u =
    let c = used_cut (h.heap_listp + 16) bs ptr n u in
    subst (λ zs. Freed h zs ptr (mm_free ptr h)) (sym c.row)
      (free-Freed c.before n c.after ptr (subst (λ zs. Inv h zs fs) c.row inv) c.here)

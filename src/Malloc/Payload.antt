-- ===== src/Malloc/Payload.antt =====
-- What the callers of mm.c may do: the words of an allocation are theirs to write.
use s_system_programmin.Common.{
  ℕ, ◌+◌, ◌-◌, ◌≤◌, ◌<◌, ◌≡◌, refl, ◌∙◌, true, false, ◌&&◌, ◌||◌, some, List, [], ◌∷◌, arith, ltb,
  leb, ◌==◌,
}
use s_system_programmin.Malloc.Words.{Heap}
use s_system_programmin.Malloc.Links.{Linked-frame}
use s_system_programmin.Malloc.Layout.{
  Block, Sized, is_tag, used_at, used_range, tag_range, Tags-frame, payload_not_link,
}
use s_system_programmin.Malloc.Invariant.{prologue, Inv, live}

payload_not_tag :
    (p : ℕ) (bs : List Block) (q n x : ℕ)
    → 8 ≤ p
    → Sized bs
    → used_at p bs q ≡ some n
    → q ≤ x
    → x + 8 < q + n
    → is_tag p bs x ≡ false
payload_not_tag p [] q n x big s u a b = refl
payload_not_tag p (b ∷ bs) q n x big s u c d = ground (
  arith,
  payload_not_tag (p + b.size) bs q n x,
  used_range (p + b.size) bs q n,
  tag_range (p + b.size) bs x,
)

-- Two allocations do not overlap.
pub used_apart :
    (p : ℕ) (bs : List Block) (q n r m : ℕ)
    → Sized bs
    → used_at p bs q ≡ some n
    → used_at p bs r ≡ some m
    → (q == r) ≡ false
    → (leb (q + n) r || leb (r + m) q) ≡ true
used_apart p [] q n r m s u v e = cc
used_apart p (b ∷ bs) q n r m s u v e = ground (
  arith,
  used_apart (p + b.size) bs q n r m,
  used_range (p + b.size) bs q n,
  used_range (p + b.size) bs r m,
)

-- `w` differs from the words of the heap only in the payload of the allocation at `q`.
abbrev pub Writes : Heap → ℕ → ℕ → (ℕ → ℕ) → Type 0
Writes h q n w = (x : ℕ) → (leb q x && ltb (x + 8) (q + n)) ≡ false → w x ≡ h.word x

-- Whatever is written to the payload of an allocation, the heap stays well-formed.
pub write-Inv :
    {h : Heap} {bs : List Block} {fs : List ℕ} (q n : ℕ) (w : ℕ → ℕ)
    → Inv h bs fs
    → live h bs q ≡ some n
    → Writes h q n w
    → Inv (record h { word = w }) bs fs
write-Inv {h} {bs} {fs} q n w inv u c =
    let l = inv.laid in
    let s = h.heap_listp in
    let row = prologue ∷ bs in
    let big : 8 ≤ s = omega (arith, l.start) in
    let range = used_range (s + 16) bs q n l.sized.2 u in
    let full : used_at s row q ≡ some n = ground (arith, range) in
    record {
      laid = record {
        tags =
            Tags-frame h.word w s row l.tags
              λ x t. c x (ground (arith, payload_not_tag s row q n x big l.sized full));
        sized = l.sized;
        ends = l.ends;
        epilogue = c (h.brk - 4) (ground (arith, range, l.ends)) ∙ l.epilogue;
        start = l.start;
        aligned = l.aligned;
        not_null = l.not_null;
        below = l.below;
        small = l.small;
      };
      list = record {
        linked =
            Linked-frame h.word w 0 h.freelist_head fs s inv.list.linked
              λ x k. c x (ground (arith, payload_not_link s row q n x fs l.sized full, inv.listed));
        nodes = inv.list.nodes;
      };
      listed = inv.listed;
      spaced = inv.spaced;
    }

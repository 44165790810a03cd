-- ===== src/Driver/Replay/Tracked.antt =====
-- What mdriver.c knows of the blocks that a trace holds, and how the calls of the allocator keep it
-- true.
use s_system_programmin.Common.{
  ℕ, ◌+◌, ◌%◌, ◌^◌, ◌≤◌, ◌<◌, ◌≡◌, ◌∙◌, Bool, true, false, some, List, ◌∷◌, has, erase, Distinct,
  erase-has, Distinct-erase, ◌==◌, Bool-cases, inl, inr, arith,
}
use s_system_programmin.Malloc.Words.{Heap}
use s_system_programmin.Malloc.{mm_free}
use s_system_programmin.Malloc.Layout.{Block}
use s_system_programmin.Malloc.Invariant.{Inv, live}
use s_system_programmin.Malloc.Alloc.{Allocated}
use s_system_programmin.Malloc.Free.{Freed}
use s_system_programmin.Malloc.Payload.{used_apart, write-Inv}
use s_system_programmin.Malloc.Realloc.{Moved}
use s_system_programmin.Driver.Replay.{memset, byte_at, set}
use s_system_programmin.Driver.Replay.Bytes.{memset-Writes, memset_byte, other_byte}

-- The block of an id has room for its payload. In a run that fills the blocks, the payload holds the
-- low byte of the id.
pub record Owned (fills : Bool) (h : Heap) (bs : List Block) (p size index : ℕ) : Type 0 where
  pub bytes : ℕ
  pub used : live h bs p ≡ some bytes
  pub room : size + 8 ≤ bytes
  pub positive : 0 < size
  pub filled : fills ≡ true → (j : ℕ) → j < size → byte_at h.word p j ≡ index % 2 ^ 8

-- The ids own different blocks.
pub record Tracked (fills : Bool) (h : Heap) (bs : List Block) (blocks sizes : ℕ → ℕ) (ids : List ℕ)
    : Type 0 where
  pub owned : (i : ℕ) → has i ids ≡ true → Owned fills h bs (blocks i) (sizes i) i
  pub apart :
      (i j : ℕ)
      → has i ids ≡ true
      → has j ids ≡ true
      → (blocks i == blocks j) ≡ true
      → (i == j) ≡ true
  pub distinct : Distinct ids

-- The block of an id in another heap that leaves its contents alone
Owned-frame :
    {fills : Bool} {h g : Heap} {bs cs : List Block} {p size index : ℕ}
    (o : Owned fills h bs p size index)
    → live g cs p ≡ some o.bytes
    → ((x : ℕ) → p ≤ x → x + 8 < p + o.bytes → g.word x ≡ h.word x)
    → Owned fills g cs p size index
Owned-frame {h = h} {g = g} {p = p} {size = size} o l same = record {
  bytes = o.bytes;
  used = l;
  room = o.room;
  positive = o.positive;
  filled = λ f j b. other_byte h g.word p o.bytes size j same o.room b ∙ o.filled f j b;
}

pub Allocated-Tracked :
    {fills : Bool} {h g : Heap} {bs : List Block} {blocks sizes : ℕ → ℕ} {ids : List ℕ} {size p : ℕ}
    (a : Allocated h bs size g p)
    → Tracked fills h bs blocks sizes ids
    → Tracked fills g a.placed.blocks blocks sizes ids
      × ((i : ℕ) → has i ids ≡ true → (blocks i == p) ≡ false)
Allocated-Tracked {blocks = blocks} {ids = ids} {p = p} a t =
    let other : (i : ℕ) → has i ids ≡ true → (blocks i == p) ≡ false =
      λ i m. let o = t.owned i m in ground (arith, a.fresh, o.used) in
    (
      record {
        owned = λ i m.
            let o = t.owned i m in
            Owned-frame o (a.placed.live_lem (blocks i) ∙ rw (other i m) o.used)
              (λ x b c. a.placed.payload (blocks i) o.bytes x o.used b c);
        apart = t.apart;
        distinct = t.distinct;
      },
      other,
    )

-- Another id than the one that is dropped has another block.
erased-apart :
    {fills : Bool} {h : Heap} {bs : List Block} {blocks sizes : ℕ → ℕ} {ids : List ℕ} (i j : ℕ)
    → Tracked fills h bs blocks sizes ids
    → has i ids ≡ true
    → has j (erase i ids) ≡ true
    → (has j ids ≡ true) × ((blocks j == blocks i) ≡ false)
erased-apart {blocks = blocks} {ids = ids} i j t m k =
    let e = erase-has j i ids t.distinct in
    elim (Bool-cases (blocks j == blocks i)) [
      | inl c ↦ absurd (ground (arith, t.apart j i (ground arith) m c))
      | inr c ↦ (ground arith, c)
    ]

pub Freed-Tracked :
    {fills : Bool} {h : Heap} {bs : List Block} {fs : List ℕ} {blocks sizes : ℕ → ℕ} {ids : List ℕ}
    (i : ℕ) (inv : Inv h bs fs) (t : Tracked fills h bs blocks sizes ids)
    (f : Freed h bs (blocks i) (mm_free (blocks i) h))
    → has i ids ≡ true
    → Tracked fills (mm_free (blocks i) h) f.blocks blocks sizes (erase i ids)
Freed-Tracked {blocks = blocks} {ids = ids} i inv t f m = record {
  owned = λ j k.
      let (old, other) = erased-apart i j t m k in
      let o = t.owned j old in
      let kept = f.live_lem (blocks j) ∙ rw other o.used in
      Owned-frame o kept (λ x b c. f.payload (blocks j) o.bytes x kept b c);
  apart = λ j k a b c. t.apart j k (erased-apart i j t m a).0 (erased-apart i k t m b).0 c;
  distinct = Distinct-erase i ids t.distinct;
}

pub Moved-Tracked :
    {fills : Bool} {h g : Heap} {bs : List Block} {blocks sizes : ℕ → ℕ} {ids : List ℕ}
    {n size p : ℕ} (i : ℕ) (a : Moved h bs (blocks i) n size g p)
    → Tracked fills h bs blocks sizes ids
    → has i ids ≡ true
    → Tracked fills g a.blocks blocks sizes (erase i ids)
      × ((j : ℕ) → has j (erase i ids) ≡ true → (blocks j == p) ≡ false)
Moved-Tracked {blocks = blocks} {ids = ids} {p = p} i a t m =
    let fresh : (j : ℕ) → has j (erase i ids) ≡ true → (blocks j == p) ≡ false =
      λ j k. let o = t.owned j (erased-apart i j t m k).0 in ground (arith, a.fresh, o.used) in
    (
      record {
        owned = λ j k.
            let (old, other) = erased-apart i j t m k in
            let o = t.owned j old in
            Owned-frame o (a.live_lem (blocks j) ∙ rw (other, fresh j k) o.used)
              (λ x b c. a.payload (blocks j) o.bytes x other o.used b c);
        apart = λ j k a b c. t.apart j k (erased-apart i j t m a).0 (erased-apart i k t m b).0 c;
        distinct = Distinct-erase i ids t.distinct;
      },
      fresh,
    )

-- The heap after `memset` over the block at `p`
abbrev pub filled : (p index size : ℕ) → Heap → Heap
filled p index size g = record g { word = memset p (index % 2 ^ 8) size g.word }

-- A new block that no id owns is given to an id and filled.
pub remember-Tracked :
    {g : Heap} {bs : List Block} {fs : List ℕ} {blocks sizes : ℕ → ℕ} {ids : List ℕ}
    (i n size p : ℕ)
    → Inv g bs fs
    → Tracked true g bs blocks sizes ids
    → has i ids ≡ false
    → ((j : ℕ) → has j ids ≡ true → (blocks j == p) ≡ false)
    → live g bs p ≡ some n
    → size + 8 ≤ n
    → 0 < size
    → Tracked true (filled p i size g) bs (set i p blocks) (set i size sizes) (i ∷ ids)
      × Inv (filled p i size g) bs fs
remember-Tracked {g} {bs} {fs} {blocks} {sizes} {ids} i n size p inv t new other u room l =
    let writes = memset-Writes g p (i % 2 ^ 8) size n room l in
    (
      record {
        owned = λ j m. elim (Bool-cases (j == i)) [
          | inl e ↦ rw e (record {
            bytes = n;
            used = u;
            room = room;
            positive = l;
            filled =
                λ _ k b. memset_byte g.word p (i % 2 ^ 8) size k (omega arith) b ∙ ground arith;
          })
          | inr e ↦
              let o = t.owned j (ground arith) in
              let disjoint =
                used_apart (g.heap_listp + 16) bs (blocks j) o.bytes p n inv.laid.sized.2 o.used u
                  (other j (ground arith)) in
              rw e (Owned-frame o o.used (λ x b c. writes x (ground (arith, disjoint, room))))
        ];
        apart = λ j k a b c. ground (arith, t.apart j k, other j, other k);
        distinct = (new, t.distinct);
      },
      write-Inv p n (memset p (i % 2 ^ 8) size g.word) inv u writes,
    )

-- A new block that no id owns is given to an id in a run that does not fill it.
pub hold-Tracked :
    {g : Heap} {bs : List Block} {blocks sizes : ℕ → ℕ} {ids : List ℕ} (i n size p : ℕ)
    → Tracked false g bs blocks sizes ids
    → has i ids ≡ false
    → ((j : ℕ) → has j ids ≡ true → (blocks j == p) ≡ false)
    → live g bs p ≡ some n
    → size + 8 ≤ n
    → 0 < size
    → Tracked false g bs (set i p blocks) (set i size sizes) (i ∷ ids)
hold-Tracked i n size p t new other u room l = record {
  owned = λ j m. elim (Bool-cases (j == i)) [
    | inl e ↦ rw e (record { bytes = n; used = u; room = room; positive = l; filled = λ e j b. cc })
    | inr e ↦ rw e (t.owned j (ground arith))
  ];
  apart = λ j k a b c. ground (arith, t.apart j k, other j, other k);
  distinct = (new, t.distinct);
}

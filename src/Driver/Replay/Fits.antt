-- ===== src/Driver/Replay/Fits.antt =====
-- The payload that a trace holds has room in the heap.
use s_system_programmin.Common.{
  ℕ, ◌+◌, ◌-◌, ◌≤◌, ◌≡◌, ◌⊎◌, refl, sym, ap, ◌∙◌, Bool, true, false, some, List, [], ◌∷◌, has,
  erase, Distinct, erase-has, Distinct-erase, ◌==◌, Bool-cases, inl, inr, arith,
}
use s_system_programmin.Memlib.{mem_heapsize, mem_heapsize_lem}
use s_system_programmin.Malloc.Words.{Heap}
use s_system_programmin.Malloc.Layout.{Block, total, used_at, Sized}
use s_system_programmin.Malloc.Invariant.{Inv}
use s_system_programmin.Driver.Replay.{set}
use s_system_programmin.Driver.Replay.Traces.{payload}
use s_system_programmin.Driver.Replay.Tracked.{Tracked}

pub payload-erase :
    (z : ℕ → ℕ) (i : ℕ) (ids : List ℕ)
    → has i ids ≡ true
    → z i + payload z (erase i ids) ≡ payload z ids
payload-erase z i [] m = cc
payload-erase z i (j ∷ ids) m = elim (Bool-cases (j == i)) [
  | inl e ↦ let same : j ≡ i = ground arith in rw e (ap (λ k. z k + payload z ids) (sym same))
  | inr e ↦ rw e (omega (arith, payload-erase z i ids (ground arith)))
]

pub set-payload :
    (i size : ℕ) (z : ℕ → ℕ) (ids : List ℕ)
    → has i ids ≡ false
    → payload (set i size z) ids ≡ payload z ids
set-payload i size z [] m = refl
set-payload i size z (j ∷ ids) m =
    let other : (j == i) ≡ false = ground arith in
    rw other (ap (λ x. z j + x) (set-payload i size z ids (ground arith)))

-- An id whose block is at a given place, if there is one
owner :
    (b : ℕ → ℕ) (p : ℕ) (ids : List ℕ)
    → ((i : ℕ) × (has i ids ≡ true) × ((b i == p) ≡ true))
      ⊎ ((i : ℕ) → has i ids ≡ true → (b i == p) ≡ false)
owner b p [] = inr (λ i m. cc)
owner b p (j ∷ ids) = elim (Bool-cases (b j == p)) [
  | inl e ↦ inl (j, ground arith, e)
  | inr e ↦ elim (owner b p ids) [
    | inl (i, m, f) ↦ inl (i, ground arith, f)
    | inr none_at ↦ inr (λ i m. elim (Bool-cases (i == j)) [
      | inl s ↦ ap (λ k. b k == p) (ground arith) ∙ e
      | inr s ↦ none_at i (ground arith)
    ])
  ]
]

-- The ids have blocks of their own in a row, with room for their sizes.
record Housed (p : ℕ) (row : List Block) (b z : ℕ → ℕ) (ids : List ℕ) : Type 0 where
  pub housed : (i : ℕ) → has i ids ≡ true → (n : ℕ) × (used_at p row (b i) ≡ some n) × (z i ≤ n)
  pub apart :
      (i j : ℕ) → has i ids ≡ true → has j ids ≡ true → (b i == b j) ≡ true → (i == j) ≡ true
  pub distinct : Distinct ids

no_blocks : (z : ℕ → ℕ) (ids : List ℕ) → ((i : ℕ) → has i ids ≡ false) → payload z ids ≡ 0
no_blocks z [] f = refl
no_blocks z (i ∷ ids) f = absurd (ground (arith, f i))

Housed-payload :
    (p : ℕ) (row : List Block) (b z : ℕ → ℕ) (ids : List ℕ)
    → Sized row
    → Housed p row b z ids
    → payload z ids ≤ total row
Housed-payload p [] b z ids s h = omega (
  arith,
  no_blocks z ids (λ i. elim (Bool-cases (has i ids)) [
    | inl m ↦ absurd (ground (arith, (h.housed i m).1))
    | inr m ↦ m
  ]),
)
Housed-payload p (c ∷ row) b z ids s h = elim (owner b p ids) [
  | inl (i, m, e) ↦
      let rest : Housed (p + c.size) row b z (erase i ids) = record {
        housed = λ j k.
            let member = erase-has j i ids h.distinct in
            let (n, u, r) = h.housed j (ground arith) in
            let other : (b j == p) ≡ false = elim (Bool-cases (b j == p)) [
              | inl f ↦ absurd (ground (arith, h.apart j i (ground arith) m (ground arith)))
              | inr f ↦ f
            ] in
            (n, rw other at u, r);
        apart = λ j k a d f.
            h.apart j k (ground (arith, erase-has j i ids h.distinct))
              (ground (arith, erase-has k i ids h.distinct)) f;
        distinct = Distinct-erase i ids h.distinct;
      } in
      let (n, u, r) = h.housed i m in
      let here : z i ≤ c.size = ground (arith, u, r) in
      omega (
        arith,
        payload-erase z i ids m,
        Housed-payload (p + c.size) row b z (erase i ids) s.2 rest,
        here,
      )
  | inr none_at ↦
      let rest : Housed (p + c.size) row b z ids = record {
        housed = λ j k. let (n, u, r) = h.housed j k in (n, rw (none_at j k) at u, r);
        apart = h.apart;
        distinct = h.distinct;
      } in
      omega (arith, Housed-payload (p + c.size) row b z ids s.2 rest)
]

-- The payload of ids that own different blocks is at most the size of the heap.
pub payload_bound :
    {fills : Bool} {h : Heap} {bs : List Block} {fs : List ℕ} {blocks sizes : ℕ → ℕ} {ids : List ℕ}
    → Inv h bs fs
    → Tracked fills h bs blocks sizes ids
    → payload sizes ids ≤ mem_heapsize h.mem
payload_bound {h = h} {bs = bs} {blocks = blocks} {sizes = sizes} {ids = ids} inv t =
    let laid = inv.laid in
    let bound = Housed-payload (h.heap_listp + 16) bs blocks sizes ids laid.sized.2 (record {
      housed = λ i m. let o = t.owned i m in (o.bytes, o.used, omega (arith, o.room));
      apart = t.apart;
      distinct = t.distinct;
    }) in
    let size : mem_heapsize h.mem ≡ h.brk - h.start_brk = mem_heapsize_lem h.mem in
    omega (arith, bound, laid.ends, laid.start, size)

-- ===== src/Driver/Replay/Bytes.antt =====
-- The bytes that mdriver.c writes and reads, within the words of the memory.
use s_system_programmin.Common.{
  ℕ, zero, suc, ◌+◌, ◌*◌, ◌/◌, ◌%◌, ◌^◌, ◌≤◌, ◌<◌, ◌≡◌, ap, sym, ◌∙◌, List, Bool-cases, inl, inr,
  leb, arith,
}
use native.Mathlib.Nat.{add-mul-mod_self_right, mod-mod}
use s_system_programmin.Malloc.Words.{Heap}
use s_system_programmin.Malloc.Layout.{Block}
use s_system_programmin.Malloc.Payload.{Writes}
use s_system_programmin.Malloc.Realloc.{Moved}
use s_system_programmin.Driver.Replay.{memset, byte_at}

-- A word that holds a byte four times
pub pattern_byte : (c t : ℕ) → c < 256 → t < 4 → c * 16843009 / 2 ^ (8 * t) % 2 ^ 8 ≡ c
pattern_byte c zero b l = omega arith
pattern_byte c (suc zero) b l = omega arith
pattern_byte c (suc (suc zero)) b l = omega arith
pattern_byte c (suc (suc (suc zero))) b l = omega arith
pattern_byte c (suc (suc (suc (suc t)))) b l = absurd (omega arith)

-- The low bytes of a word
pub low_byte :
    (x r t : ℕ) → t < r → r < 4 → x % 2 ^ (8 * r) / 2 ^ (8 * t) % 2 ^ 8 ≡ x / 2 ^ (8 * t) % 2 ^ 8
low_byte x zero t a b = absurd (omega arith)
low_byte x (suc zero) zero a b = omega arith
low_byte x (suc (suc zero)) zero a b = omega arith
low_byte x (suc (suc zero)) (suc zero) a b = omega arith
low_byte x (suc (suc (suc zero))) zero a b = omega arith
low_byte x (suc (suc (suc zero))) (suc zero) a b = omega arith
low_byte x (suc (suc (suc zero))) (suc (suc zero)) a b = omega arith
low_byte x (suc r) (suc (suc (suc t))) a b = absurd (omega arith)
low_byte x (suc (suc (suc (suc r)))) t a b = absurd (omega arith)
low_byte x (suc zero) (suc (suc zero)) a b = absurd (omega arith)
low_byte x (suc (suc zero)) (suc (suc zero)) a b = absurd (omega arith)
low_byte x (suc zero) (suc zero) a b = absurd (omega arith)

pub same_low_byte :
    (x y r t : ℕ)
    → t < r
    → r < 4
    → x % 2 ^ (8 * r) ≡ y % 2 ^ (8 * r)
    → x / 2 ^ (8 * t) % 2 ^ 8 ≡ y / 2 ^ (8 * t) % 2 ^ 8
same_low_byte x y r t a b e =
    sym (low_byte x r t a b) ∙ ap (λ z. z / 2 ^ (8 * t) % 2 ^ 8) e ∙ low_byte y r t a b

-- `memset` of `size` bytes stays in the payload of an allocation that has room for them.
pub memset-Writes :
    (h : Heap) (p c size n : ℕ) → size + 8 ≤ n → 0 < size → Writes h p n (memset p c size h.word)
unfolding memset
memset-Writes h p c size n b l x out = ground arith

-- What is read behind it is the byte that was set.
pub memset_byte :
    (w : ℕ → ℕ) (p c size j : ℕ) → c < 256 → j < size → byte_at (memset p c size w) p j ≡ c
unfolding memset
memset_byte w p c size j b l = elim (Bool-cases (leb (j / 4 * 4 + 4) size)) [
  | inl whole ↦
      let e : memset p c size w (p + j / 4 * 4) ≡ c * 16843009 = ground arith in
      ap (λ x. x / 2 ^ (8 * (j % 4)) % 2 ^ 8) e ∙ pattern_byte c (j % 4) b (omega arith)
  | inr last ↦
      let m : ℕ = 2 ^ (8 * (size % 4)) in
      let v : ℕ = w (p + j / 4 * 4) in
      let e : memset p c size w (p + j / 4 * 4) ≡ c * 16843009 % m + v / m * m = ground arith in
      same_low_byte (memset p c size w (p + j / 4 * 4)) (c * 16843009) (size % 4) (j % 4)
        (ground arith) (omega arith)
        (ap (λ x. x % m) e
          ∙ add-mul-mod_self_right (c * 16843009 % m) (v / m) m
          ∙ mod-mod (c * 16843009) m)
      ∙ pattern_byte c (j % 4) b (omega arith)
]

-- The bytes of an allocation that has room for them are the caller's, whatever is written outside.
pub other_byte :
    (h : Heap) (w : ℕ → ℕ) (q m size j : ℕ)
    → ((x : ℕ) → q ≤ x → x + 8 < q + m → w x ≡ h.word x)
    → size + 8 ≤ m
    → j < size
    → byte_at w q j ≡ byte_at h.word q j
other_byte h w q m size j same room l =
    ap (λ x. x / 2 ^ (8 * (j % 4)) % 2 ^ 8) (same (q + j / 4 * 4) (omega arith) (omega arith))

-- The bytes that `mm_realloc` copies
pub moved_byte :
    {h g : Heap} {bs : List Block} (ptr n size p j : ℕ)
    → Moved h bs ptr n size g p
    → j < size
    → j + 8 < n
    → byte_at g.word p j ≡ byte_at h.word ptr j
moved_byte {h} {g} ptr n size p j a l k = elim (Bool-cases (leb (j / 4 * 4 + 4) size)) [
  | inl whole ↦
      ap (λ x. x / 2 ^ (8 * (j % 4)) % 2 ^ 8) (a.copied (j / 4 * 4) (ground arith) (omega arith))
  | inr last ↦
      same_low_byte (g.word (p + j / 4 * 4)) (h.word (ptr + j / 4 * 4)) (size % 4) (j % 4)
        (ground arith) (omega arith)
        (a.copied_rest (j / 4 * 4) (omega arith) (ground arith) (omega arith))
]

-- ===== src/Kernel/Bits.antt =====
-- The bit operations on masks of neighbouring ones, as arithmetic.
use Prim.Native.Nat.{max, bit_and, bit_or, digits, bitwise, bit_and-bitwise, bit_or-bitwise}
use s_system_programmin.Common.{
  inl, inr, Bool-cases, leb, sym, ◌∙◌, ℕ, zero, suc, ◌+◌, ◌*◌, ◌/◌, ◌%◌, ◌^◌, ◌≤◌, min, ◌≡◌, refl,
  ap, arith,
}

-- An operation digit by digit, as the native ones are defined: the count of digits does not matter if
-- it is large enough, and so the lowest digits can be split off.
module _ (z : ℕ → ℕ) (f : ℕ → ℕ → ℕ) (at_zero : (b : ℕ) → z b ≡ z (b / 2) * 2 + f 0 (b % 2)) where
  one_more : (count x y : ℕ) → x ≤ count → digits z f (suc count) x y ≡ digits z f count x y
  one_more zero zero y le = refl
  one_more zero (suc x) y le = absurd (omega arith)
  one_more (suc count) zero y le = refl
  one_more (suc count) (suc x) y le =
      ap (λ d. d * 2 + f (suc x % 2) (y % 2)) (one_more count (suc x / 2) (y / 2) (omega arith))

  own_count : (count x y : ℕ) → x ≤ count → digits z f count x y ≡ bitwise z f x y
  own_count zero zero y le = refl
  own_count zero (suc x) y le = absurd (omega arith)
  own_count (suc count) x y le = elim (Bool-cases (leb x count)) [
    | inl e ↦
        let smaller : x ≤ count = ground (arith, e) in
        one_more count x y smaller ∙ own_count count x y smaller
    | inr e ↦ let same : x ≡ suc count = ground (arith, e) in ap (λ n. digits z f n x y) (sym same)
  ]

  bitwise_lowest : (x y : ℕ) → bitwise z f x y ≡ bitwise z f (x / 2) (y / 2) * 2 + f (x % 2) (y % 2)
  bitwise_lowest zero y = at_zero y
  bitwise_lowest (suc x) y =
      ap (λ d. d * 2 + f (suc x % 2) (y % 2)) (own_count x (suc x / 2) (y / 2) (omega arith))

bit_and_lowest : (x y : ℕ) → bit_and x y ≡ bit_and (x / 2) (y / 2) * 2 + min (x % 2) (y % 2)
bit_and_lowest x y =
    let split = bitwise_lowest (λ b. zero) min (λ b. omega arith) x y in
    omega (arith, split, bit_and-bitwise x y, bit_and-bitwise (x / 2) (y / 2))

bit_or_lowest : (x y : ℕ) → bit_or x y ≡ bit_or (x / 2) (y / 2) * 2 + max (x % 2) (y % 2)
bit_or_lowest x y =
    let split = bitwise_lowest (λ b. b) max (λ b. omega arith) x y in
    omega (arith, split, bit_or-bitwise x y, bit_or-bitwise (x / 2) (y / 2))

-- The lowest `k` bits, the number without them, and the number behind `k` zeros
abbrev pub low : (k a : ℕ) → ℕ
low zero a = 0
low (suc k) a = low k (a / 2) * 2 + a % 2

abbrev pub shr : (k a : ℕ) → ℕ
shr zero a = a
shr (suc k) a = shr k (a / 2)

abbrev pub shl : (k a : ℕ) → ℕ
shl zero a = a
shl (suc k) a = shl k a * 2

abbrev pub ones : (k : ℕ) → ℕ
ones zero = 0
ones (suc k) = ones k * 2 + 1

-- By recursion on a bound
bit_and-zero : (bound x : ℕ) → x ≤ bound → bit_and x 0 ≡ 0
bit_and-zero bound zero le = refl
bit_and-zero zero (suc x) le = absurd (omega arith)
bit_and-zero (suc bound) (suc x) le =
    let half = bit_and-zero bound (suc x / 2) (omega arith) in
    omega (arith, half, bit_and_lowest (suc x) 0)

pub bit_and-ones : (k a : ℕ) → bit_and a (ones k) ≡ low k a
bit_and-ones zero a = bit_and-zero a a (omega arith)
bit_and-ones (suc k) a =
    let half : (ones k * 2 + 1) / 2 ≡ ones k = omega arith in
    omega
      (arith, bit_and_lowest a (ones (suc k)), ap (bit_and (a / 2)) half, bit_and-ones k (a / 2))

pub bit_and-shl : (k a m : ℕ) → bit_and a (shl k m) ≡ shl k (bit_and (shr k a) m)
bit_and-shl zero a m = refl
bit_and-shl (suc k) a m =
    let half : shl k m * 2 / 2 ≡ shl k m = omega arith in
    omega
      (arith, bit_and_lowest a (shl (suc k) m), ap (bit_and (a / 2)) half, bit_and-shl k (a / 2) m)

bit_or-zero : (bound x : ℕ) → x ≤ bound → bit_or x 0 ≡ x
bit_or-zero bound zero le = refl
bit_or-zero zero (suc x) le = absurd (omega arith)
bit_or-zero (suc bound) (suc x) le =
    let half = bit_or-zero bound (suc x / 2) (omega arith) in
    omega (arith, half, bit_or_lowest (suc x) 0)

pub bit_or-low : (k a b : ℕ) → bit_or (shl k a) (low k b) ≡ shl k a + low k b
bit_or-low zero a b = omega (arith, bit_or-zero a a (omega arith))
bit_or-low (suc k) a b =
    let half : shl k a * 2 / 2 ≡ shl k a = omega arith in
    let half' : (low k (b / 2) * 2 + b % 2) / 2 ≡ low k (b / 2) = omega arith in
    omega (
      arith,
      bit_or_lowest (shl (suc k) a) (low (suc k) b),
      ap (λ x. bit_or x ((low k (b / 2) * 2 + b % 2) / 2)) half,
      ap (bit_or (shl k a)) half',
      bit_or-low k a (b / 2),
    )

pub shr-twelve : (a : ℕ) → shr 12 a ≡ a / 4096
shr-twelve a = omega arith

pub shl-twelve : (a : ℕ) → shl 12 a ≡ a * 4096
shl-twelve a = omega arith

pub low-twelve : (a : ℕ) → low 12 a ≡ a % 4096
low-twelve a = omega arith

pub low-48 : (a : ℕ) → low 48 a ≡ a % 2 ^ 48
low-48 a = omega arith

pub low-52 : (a : ℕ) → low 52 a ≡ a % 2 ^ 52
low-52 a = omega arith

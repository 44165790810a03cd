-- ===== src/Driver/Tracefile/Spelling.antt =====
-- Trace files by a grammar, and `read_trace` on them.
use s_system_programmin.Common.{
  is_digit, ℕ, zero, suc, ◌+◌, ◌-◌, ◌*◌, ◌^◌, ◌≤◌, ◌<◌, ◌≡◌, refl, ap, ◌∙◌, inl, inr, true, false,
  Bool-cases, Option, some, List, [], ◌∷◌, ◌++◌, ltb, leb, ◌||◌, ◌==◌, if◌then◌else◌, arith, length,
  length-append, all, drop_while, is_space, is_empty, take_while_before, drop_while_before,
}
use s_system_programmin.Driver.Replay.{TraceOp, alloc, realloc, free}
use s_system_programmin.Driver.Tracefile.{
  Conversion, signed, unsigned, converted, minus_sign, skip_sign, number, scan_number, scan_size,
  scan_two, scan_ud, Read, done, out_of_bounds, Reading, larger_id, store_sized, store_free,
  request, read_requests, ◌>>=◌,
}

-- The value of decimal digits, by their places
abbrev pub decimal_value : List ℕ → ℕ
decimal_value [] = 0
decimal_value (c ∷ cs) = (c - b'0') * 10 ^ length cs + decimal_value cs

-- Digits that spell a number, with leading zeros or without, which an int can hold
pub record Spells (n : ℕ) (digits : List ℕ) : Type 0 where
  pub some_digit : is_empty digits ≡ false
  pub only_digits : all is_digit digits ≡ true
  pub value : decimal_value digits ≡ n
  pub fits : n < 2 ^ 31

shifted : (n d p v : ℕ) → (n * 10 + d) * p + v ≡ n * (p * 10) + (d * p + v)
shifted n d p v = grind arith

number-decimal_value : (n : ℕ) (cs : List ℕ) → number n cs ≡ n * 10 ^ length cs + decimal_value cs
number-decimal_value n [] = omega arith
number-decimal_value n (c ∷ cs) =
    let next : 10 ^ length cs * 10 ≡ 10 ^ suc (length cs) = omega arith in
    number-decimal_value (n * 10 + (c - b'0')) cs
    ∙ shifted n (c - b'0') (10 ^ length cs) (decimal_value cs)
    ∙ ap (λ p. n * p + ((c - b'0') * 10 ^ length cs + decimal_value cs)) next

-- The lines of requests
pub data Requests : List TraceOp → List ℕ → Type 0 where
  no_requests : Requests [] []
  alloc_line :
      {i s : ℕ} {xs ys text : List ℕ} {ops : List TraceOp}
      → Spells i xs
      → Spells s ys
      → Requests ops text
      → Requests (alloc i s ∷ ops) (b'a' ∷ 32 ∷ (xs ++ (32 ∷ (ys ++ (b'\n' ∷ text)))))
  realloc_line :
      {i s : ℕ} {xs ys text : List ℕ} {ops : List TraceOp}
      → Spells i xs
      → Spells s ys
      → Requests ops text
      → Requests (realloc i s ∷ ops) (b'r' ∷ 32 ∷ (xs ++ (32 ∷ (ys ++ (b'\n' ∷ text)))))
  free_line :
      {i : ℕ} {xs text : List ℕ} {ops : List TraceOp}
      → Spells i xs
      → Requests ops text
      → Requests (free i ∷ ops) (b'f' ∷ 32 ∷ (xs ++ (b'\n' ∷ text)))

converted_fits : (k : Conversion) (n : ℕ) → n < 2 ^ 31 → converted k false n ≡ n
unfolding converted
converted_fits signed n l = ground (arith, l)
converted_fits unsigned n l = ground (arith, l)

-- Behind a space, or at the start of the file, up to a byte that ends the number
module _ (n : ℕ) (digits : List ℕ) (s : Spells n digits) (y : ℕ) (rest : List ℕ)
    (e : is_digit y ≡ false) where
  digits_first : drop_while is_space (digits ++ (y ∷ rest)) ≡ digits ++ (y ∷ rest)
  digits_first =
      elim digits
          as (λ ds.
            is_empty ds ≡ false
            → all is_digit ds ≡ true
            → drop_while is_space (ds ++ (y ∷ rest)) ≡ ds ++ (y ∷ rest)) [
              | [] ↦ λ n a. cc
              | x ∷ xs ↦ λ n a. let first : is_space x ≡ false = ground arith in rw first refl
            ]
        s.some_digit s.only_digits

  no_sign :
      (skip_sign (digits ++ (y ∷ rest)) ≡ digits ++ (y ∷ rest))
      × (minus_sign (digits ++ (y ∷ rest)) ≡ false)
  no_sign =
      elim digits
          as (λ ds.
            is_empty ds ≡ false
            → all is_digit ds ≡ true
            → (skip_sign (ds ++ (y ∷ rest)) ≡ ds ++ (y ∷ rest))
              × (minus_sign (ds ++ (y ∷ rest)) ≡ false)) [
                | [] ↦ λ n a. cc
                | x ∷ xs ↦ λ n a.
                    let none_there : ((x == b'-') || (x == b'+')) ≡ false = ground arith in
                    (rw none_there refl, ground arith)
              ]
        s.some_digit s.only_digits

  pub scan_number_start :
      (k : Conversion) → scan_number k (digits ++ (y ∷ rest)) ≡ some (n, y ∷ rest)
  unfolding scan_number
  scan_number_start k =
      let (skipped, no_minus) = no_sign in
      let taken = take_while_before is_digit digits y rest s.only_digits e in
      let left = drop_while_before is_digit digits y rest s.only_digits e in
      rw (scan_number, digits_first, skipped, no_minus, taken, left, s.some_digit)
        (ap (λ m. some (converted k false m, y ∷ rest))
            (number-decimal_value 0 digits ∙ omega (arith, s.value))
          ∙ ap (λ m. some (m, y ∷ rest)) (converted_fits k n s.fits))

  pub scan_number_behind :
      (k : Conversion) (z : ℕ)
      → is_space z ≡ true
      → scan_number k (z ∷ (digits ++ (y ∷ rest))) ≡ some (n, y ∷ rest)
  unfolding scan_number
  scan_number_behind k z b =
      let skipped : scan_number k (z ∷ (digits ++ (y ∷ rest)))
          ≡ scan_number k (digits ++ (y ∷ rest)) =
        rw (scan_number, b) refl in
      skipped ∙ scan_number_start k

module _ {i s : ℕ} {xs ys : List ℕ} (text : List ℕ) (index size : Option ℕ) (a : Spells i xs)
    (b : Spells s ys) where
  scan_two-Spells :
      scan_two index size (32 ∷ (xs ++ (32 ∷ (ys ++ (b'\n' ∷ text)))))
      ≡ (some i, some s, b'\n' ∷ text)
  unfolding scan_two scan_size
  scan_two-Spells =
      let first = scan_number_behind i xs a 32 (ys ++ (b'\n' ∷ text)) refl unsigned 32 refl in
      let second = scan_number_behind s ys b b'\n' text refl unsigned 32 refl in
      rw (scan_two, first, scan_size, second) refl

scan_ud-Spells :
    {i : ℕ} {xs : List ℕ} (text : List ℕ) (index : Option ℕ)
    → Spells i xs
    → scan_ud index (32 ∷ (xs ++ (b'\n' ∷ text))) ≡ (some i, b'\n' ∷ text)
unfolding scan_ud
scan_ud-Spells {i} {xs} text index a =
    let first = scan_number_behind i xs a b'\n' text refl unsigned 32 refl in
    rw (scan_ud, first) refl

-- The variables behind a request
abbrev pub after : TraceOp → Reading → Reading
after (alloc i s) r = record {
  index = some i;
  size = some s;
  max_index = larger_id i r.max_index;
  ops = r.ops ++ (alloc i s ∷ []);
}
after (realloc i s) r = record {
  index = some i;
  size = some s;
  max_index = larger_id i r.max_index;
  ops = r.ops ++ (realloc i s ∷ []);
}
after (free i) r = record r { index = some i; ops = r.ops ++ (free i ∷ []) }

abbrev stored : (num_ops : ℕ) → TraceOp → Reading → Read Reading
stored num_ops op r = if ltb (length r.ops) num_ops then done (after op r) else out_of_bounds

read_requests-alloc :
    (fuel num_ops : ℕ) {i s : ℕ} {xs ys : List ℕ} (text : List ℕ) (r : Reading)
    → Spells i xs
    → Spells s ys
    → read_requests (suc fuel) num_ops (b'\n' ∷ b'a' ∷ 32 ∷ (xs ++ (32 ∷ (ys ++ (b'\n' ∷ text))))) r
      ≡ (stored num_ops (alloc i s) r >>= read_requests fuel num_ops (b'\n' ∷ text))
unfolding read_requests request store_sized
read_requests-alloc fuel num_ops text r a b = rw (scan_two-Spells text r.index r.size a b) refl

read_requests-realloc :
    (fuel num_ops : ℕ) {i s : ℕ} {xs ys : List ℕ} (text : List ℕ) (r : Reading)
    → Spells i xs
    → Spells s ys
    → read_requests (suc fuel) num_ops (b'\n' ∷ b'r' ∷ 32 ∷ (xs ++ (32 ∷ (ys ++ (b'\n' ∷ text))))) r
      ≡ (stored num_ops (realloc i s) r >>= read_requests fuel num_ops (b'\n' ∷ text))
unfolding read_requests request store_sized
read_requests-realloc fuel num_ops text r a b = rw (scan_two-Spells text r.index r.size a b) refl

read_requests-free :
    (fuel num_ops : ℕ) {i : ℕ} {xs : List ℕ} (text : List ℕ) (r : Reading)
    → Spells i xs
    → read_requests (suc fuel) num_ops (b'\n' ∷ b'f' ∷ 32 ∷ (xs ++ (b'\n' ∷ text))) r
      ≡ (stored num_ops (free i) r >>= read_requests fuel num_ops (b'\n' ∷ text))
unfolding read_requests request store_free
read_requests-free fuel num_ops text r a = rw (scan_ud-Spells text r.index a) refl

abbrev pub after_all : List TraceOp → Reading → Reading
after_all [] r = r
after_all (op ∷ ops) r = after_all ops (after op r)

abbrev pub all_stored : (num_ops : ℕ) → List TraceOp → Reading → Read Reading
all_stored num_ops ops r =
    if leb (length r.ops + length ops) num_ops then done (after_all ops r) else out_of_bounds

length-after : (op : TraceOp) (r : Reading) → length (after op r).ops ≡ suc (length r.ops)
length-after (alloc i s) r = omega (arith, length-append r.ops (alloc i s ∷ []))
length-after (realloc i s) r = omega (arith, length-append r.ops (realloc i s ∷ []))
length-after (free i) r = omega (arith, length-append r.ops (free i ∷ []))

-- One request, and then the others
stored_then :
    (num_ops : ℕ) (op : TraceOp) (ops : List TraceOp) (r : Reading) (f : Reading → Read Reading)
    → (length r.ops < num_ops → f (after op r) ≡ all_stored num_ops ops (after op r))
    → (stored num_ops op r >>= f) ≡ all_stored num_ops (op ∷ ops) r
stored_then num_ops op ops r f later = elim (Bool-cases (ltb (length r.ops) num_ops)) [
  | inl e ↦
      let longer : length (after op r).ops + length ops ≡ length r.ops + suc (length ops) =
        omega (arith, length-after op r) in
      rw e (
        later (ground (arith, e))
        ∙ ap (λ n. if leb n num_ops then done (after_all ops (after op r)) else out_of_bounds)
            longer)
  | inr e ↦
      let over : leb (length r.ops + suc (length ops)) num_ops ≡ false = ground (arith, e) in
      rw (e, over) refl
]

pub read_requests-Requests :
    (fuel num_ops : ℕ) (ops : List TraceOp) (text : List ℕ) (r : Reading)
    → Requests ops text
    → length ops < fuel
    → length r.ops ≤ num_ops
    → read_requests fuel num_ops (b'\n' ∷ text) r ≡ all_stored num_ops ops r
unfolding read_requests
read_requests-Requests zero num_ops ops text r q l f = absurd (omega (arith, l))
read_requests-Requests (suc fuel) num_ops _ _ r no_requests l f =
    let fits : leb (length r.ops + 0) num_ops ≡ true = ground arith in rw fits refl
read_requests-Requests (suc fuel) num_ops _ _ r (alloc_line {i} {s} {text = text} {ops} a b more) l
      f =
    read_requests-alloc fuel num_ops text r a b
    ∙ stored_then num_ops (alloc i s) ops r (read_requests fuel num_ops (b'\n' ∷ text)) (λ e.
      read_requests-Requests fuel num_ops ops text (after (alloc i s) r) more (omega (arith, l))
        (omega (arith, e, length-after (alloc i s) r)))
read_requests-Requests (suc fuel) num_ops _ _ r (realloc_line {i} {s} {text = text} {ops} a b more)
      l f =
    read_requests-realloc fuel num_ops text r a b
    ∙ stored_then num_ops (realloc i s) ops r (read_requests fuel num_ops (b'\n' ∷ text)) (λ e.
      read_requests-Requests fuel num_ops ops text (after (realloc i s) r) more (omega (arith, l))
        (omega (arith, e, length-after (realloc i s) r)))
read_requests-Requests (suc fuel) num_ops _ _ r (free_line {i} {text = text} {ops} a more) l f =
    read_requests-free fuel num_ops text r a
    ∙ stored_then num_ops (free i) ops r (read_requests fuel num_ops (b'\n' ∷ text)) (λ e.
      read_requests-Requests fuel num_ops ops text (after (free i) r) more (omega (arith, l))
        (omega (arith, e, length-after (free i) r)))

-- ===== src/Driver/Tracefile/Ends.antt =====
-- The loop of `read_trace` ends on every file.
use s_system_programmin.Common.{
  is_digit, ℕ, zero, suc, ◌+◌, ◌-◌, ◌%◌, ◌^◌, ◌≤◌, ◌<◌, ◌≡◌, ◌≢◌, refl, ap, Bool-cases,
  Option-cases, inl, inr, Option, none, some, List, [], ◌∷◌, leb, ltb, ◌==◌, arith, length,
  drop_while, take_while, is_space, no_space, scan_word, behind_word, length-drop_while_le,
  length-append, take_while-drop_while, ◌&&◌, ◌⊎◌,
}
use s_system_programmin.Driver.Replay.{TraceOp}
use s_system_programmin.Driver.Tracefile.{
  ops_room, Conversion, unsigned, unsigned_part, skip_sign, scan_number, scan_size, scan_two,
  scan_ud, skip_d, Read, bogus, unset, too_long, out_of_bounds, asserts, out_of_fuel, done, Reading,
  store_sized, store_free, as_alloc, as_realloc, request, read_requests, checked, read_body,
  read_trace, ◌>>=◌, maxline,
}

length-skip_sign : (text : List ℕ) → length (skip_sign text) ≤ length text
length-skip_sign [] = omega arith
length-skip_sign (c ∷ cs) = ground arith

length-unsigned_part : (text : List ℕ) → length (unsigned_part text) ≤ length text
length-unsigned_part text =
    let s = drop_while is_space text in
    omega (arith, length-skip_sign s, length-drop_while_le is_space text)

length-scan_number :
    (k : Conversion) (text : List ℕ) (n : ℕ) (rest : List ℕ)
    → scan_number k text ≡ some (n, rest)
    → length rest ≤ length text
unfolding scan_number
length-scan_number k text n rest e =
    let s = unsigned_part text in
    ground (arith, e, length-drop_while_le is_digit s, length-unsigned_part text)

length-skip_d : (text : List ℕ) → length (skip_d text) ≤ length text
length-skip_d [] = omega arith
length-skip_d (c ∷ cs) = ground arith

length-scan_size : (old : Option ℕ) (text : List ℕ) → length (scan_size old text).1 ≤ length text
unfolding scan_size
length-scan_size old text = elim (Option-cases (scan_number unsigned text)) [
  | inl e ↦ rw (scan_size, e) (length-unsigned_part text)
  | inr ((n, rest), e) ↦ rw (scan_size, e) (length-scan_number unsigned text n rest e)
]

length-scan_two :
    (index size : Option ℕ) (text : List ℕ) → length (scan_two index size text).2 ≤ length text
unfolding scan_two
length-scan_two index size text = elim (Option-cases (scan_number unsigned text)) [
  | inl e ↦ rw (scan_two, e) (length-unsigned_part text)
  | inr ((n, rest), e) ↦
      rw (scan_two, e)
        (omega (arith, length-scan_number unsigned text n rest e, length-scan_size size rest))
]

length-scan_ud : (index : Option ℕ) (text : List ℕ) → length (scan_ud index text).1 ≤ length text
unfolding scan_ud
length-scan_ud index text = elim (Option-cases (scan_number unsigned text)) [
  | inl e ↦ rw (scan_ud, e) (length-unsigned_part text)
  | inr ((n, rest), e) ↦
      rw (scan_ud, e) (omega (arith, length-scan_number unsigned text n rest e, length-skip_d rest))
]

length-request :
    (num_ops type : ℕ) (text : List ℕ) (r : Reading)
    → length (request num_ops type text r).1 ≤ length text
unfolding request
length-request num_ops type text r =
    ground (arith, length-scan_two r.index r.size text, length-scan_ud r.index text)

List-cases : (xs : List ℕ) → (xs ≡ []) ⊎ ((c : ℕ) × (cs : List ℕ) × (xs ≡ c ∷ cs))
List-cases [] = inl refl
List-cases (c ∷ cs) = inr (c, cs, refl)

-- A word takes a byte.
length-behind_word :
    (text : List ℕ) (c : ℕ) (cs : List ℕ)
    → scan_word text ≡ c ∷ cs
    → length (behind_word text) < length text
length-behind_word text c cs e =
    let s = drop_while is_space text in
    let runs = ap length (take_while-drop_while no_space s) in
    omega (
      arith,
      runs,
      ap length e,
      length-append (take_while no_space s) (drop_while no_space s),
      length-drop_while_le is_space text,
    )

-- A result other than the end of the fuel
abbrev Ended : {A : Type 0} → Read A → Type 0
Ended o = o ≢ out_of_fuel

bind-Ended :
    {A B : Type 0} (o : Read A) (f : A → Read B)
    → Ended o
    → ((a : A) → Ended (f a))
    → Ended (o >>= f)
bind-Ended bogus f e g = λ h. cc
bind-Ended unset f e g = λ h. cc
bind-Ended too_long f e g = λ h. cc
bind-Ended out_of_bounds f e g = λ h. cc
bind-Ended asserts f e g = λ h. cc
bind-Ended out_of_fuel f e g = absurd (e refl)
bind-Ended (done a) f e g = g a

store_sized-Ended :
    (f : TraceOp → TraceOp) (num_ops : ℕ) (index size : Option ℕ) (r : Reading)
    → Ended (store_sized f num_ops index size r)
unfolding store_sized
store_sized-Ended f num_ops none size r = λ h. cc
store_sized-Ended f num_ops (some index) none r = λ h. cc
store_sized-Ended f num_ops (some index) (some size) r =
    elim (Bool-cases (ltb (length r.ops) num_ops)) [
      | inl e ↦ rw e (λ h. cc)
      | inr e ↦ rw e (λ h. cc)
    ]

store_free-Ended :
    (num_ops : ℕ) (index : Option ℕ) (r : Reading) → Ended (store_free num_ops index r)
unfolding store_free
store_free-Ended num_ops none r = λ h. cc
store_free-Ended num_ops (some index) r = elim (Bool-cases (ltb (length r.ops) num_ops)) [
  | inl e ↦ rw e (λ h. cc)
  | inr e ↦ rw e (λ h. cc)
]

request-Ended :
    (num_ops type : ℕ) (text : List ℕ) (r : Reading) → Ended (request num_ops type text r).0
unfolding request
request-Ended num_ops type text r =
    let (i, s, rest) = scan_two r.index r.size text in
    let (j, after) = scan_ud r.index text in
    elim (Bool-cases (type == b'a')) [
      | inl e ↦ rw e (store_sized-Ended as_alloc num_ops i s r)
      | inr e ↦ elim (Bool-cases (type == b'r')) [
        | inl e' ↦ rw (e, e') (store_sized-Ended as_realloc num_ops i s r)
        | inr e' ↦ elim (Bool-cases (type == b'f')) [
          | inl g ↦ rw (e, e', g) (store_free-Ended num_ops j r)
          | inr g ↦ rw (e, e', g) (λ h. cc)
        ]
      ]
    ]

read_requests-Ended :
    (fuel num_ops : ℕ) (text : List ℕ) (r : Reading)
    → length text < fuel
    → Ended (read_requests fuel num_ops text r)
unfolding read_requests
read_requests-Ended zero num_ops text r l = absurd (omega (arith, l))
read_requests-Ended (suc fuel) num_ops text r l = elim (List-cases (scan_word text)) [
  | inl e ↦ rw (read_requests, e) (λ h. cc)
  | inr (type, more, e) ↦ elim (Bool-cases (leb maxline (length (type ∷ more)))) [
    | inl long ↦ rw (read_requests, e, long) (λ h. cc)
    | inr short ↦
        let left = behind_word text in
        rw (read_requests, e, short)
          (bind-Ended (request num_ops type left r).0
            (read_requests fuel num_ops (request num_ops type left r).1)
            (request-Ended num_ops type left r)
            (λ r'. read_requests-Ended fuel num_ops (request num_ops type left r).1 r' (
              omega (
                arith,
                l,
                length-request num_ops type left r,
                length-behind_word text type more e,
              ))))
  ]
]

checked-Ended :
    (num_ids num_ops : ℕ) (sugg_heapsize weight : Option ℕ) (r : Reading)
    → Ended (checked num_ids num_ops sugg_heapsize weight r)
unfolding checked
checked-Ended num_ids num_ops sugg_heapsize weight r =
    elim (Bool-cases
      ((r.max_index == (num_ids + 2 ^ 32 - 1) % 2 ^ 32) && (num_ops == length r.ops))) [
        | inl e ↦ rw e (λ h. cc)
        | inr e ↦ rw e (λ h. cc)
      ]

read_body-Ended :
    (sugg_heapsize num_ids num_ops weight : Option ℕ) (text : List ℕ)
    → Ended (read_body sugg_heapsize num_ids num_ops weight text)
unfolding read_body
read_body-Ended sugg_heapsize none num_ops weight text = λ h. cc
read_body-Ended sugg_heapsize (some num_ids) none weight text = λ h. cc
read_body-Ended sugg_heapsize (some num_ids) (some num_ops) weight text =
    bind-Ended (read_requests (length text + 1) (ops_room num_ops) text _)
      (checked num_ids num_ops sugg_heapsize weight)
      (read_requests-Ended (length text + 1) (ops_room num_ops) text _ (omega arith))
      (checked-Ended num_ids num_ops sugg_heapsize weight)

-- `read_trace` ends on every file, whatever its bytes, with numbers that have a sign or do not fit
-- included: each round of its loop takes one of them.
pub read_trace-ends : (file : List ℕ) → read_trace file ≢ out_of_fuel
unfolding read_trace
read_trace-ends file = read_body-Ended _ _ _ _ _

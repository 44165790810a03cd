-- ===== src/Driver/Tracefile.antt =====
-- `read_trace` of mdriver.c on the bytes of a trace file, with what it uses of `fscanf`. Numbers are
-- those of a 32-bit machine, modulo 2 ^ 32. A `malloc` or an `fopen` that fails is left out.
pub mod Spelling
pub mod Files
pub mod Ends
mod Tests
use s_system_programmin.Common.{
  ℕ, zero, suc, ◌+◌, ◌-◌, ◌*◌, ◌/◌, ◌%◌, ◌^◌, Bool, true, false, ◌&&◌, ◌||◌, Option, none, some,
  List, [], ◌∷◌, ◌++◌, ltb, leb, ◌==◌, if◌then◌else◌, length, take_while, drop_while, is_space,
  is_digit, is_empty, scan_word, behind_word,
}
use s_system_programmin.Driver.Replay.{TraceOp, alloc, realloc, free}

abbrev pub maxline : ℕ
maxline = 1024

-- The number with the digits behind those of `n`
abbrev pub number : (n : ℕ) → List ℕ → ℕ
number n [] = n
number n (c ∷ cs) = number (n * 10 + (c - b'0')) cs

-- A conversion of `fscanf`: "%d", or "%u" and the "%u" in "%ud"
pub data Conversion : Type 0 where
  signed unsigned : Conversion

-- What the C library of a 32-bit machine stores for the digits of `n`, with a minus sign or without, as a
-- number modulo 2 ^ 32: the nearest number that fits, where a negative one is negated for "%u".
pub converted : Conversion → (minus : Bool) → (n : ℕ) → ℕ
converted signed false n = if ltb n (2 ^ 31) then n else 2 ^ 31 - 1
converted signed true n = if leb n (2 ^ 31) then (2 ^ 32 - n) % 2 ^ 32 else 2 ^ 31
converted unsigned false n = if ltb n (2 ^ 32) then n else 2 ^ 32 - 1
converted unsigned true n = if ltb n (2 ^ 32) then (2 ^ 32 - n) % 2 ^ 32 else 2 ^ 32 - 1

abbrev pub minus_sign : List ℕ → Bool
minus_sign [] = false
minus_sign (c ∷ cs) = c == b'-'

abbrev pub skip_sign : List ℕ → List ℕ
skip_sign [] = []
skip_sign (c ∷ cs) = if (c == b'-') || (c == b'+') then cs else c ∷ cs

-- The text behind spaces and a sign
abbrev pub unsigned_part : List ℕ → List ℕ
unsigned_part text = skip_sign (drop_while is_space text)

-- The number and the rest of the text, or no match. A number that is not there leaves the variable as
-- it was; `none` is a variable that nothing has been written to.
pub scan_number : Conversion → List ℕ → Option (ℕ × List ℕ)
scan_number conversion text =
    let s = unsigned_part text in
    let digits = take_while is_digit s in
    let minus = minus_sign (drop_while is_space text) in
    if is_empty digits
    then none
    else some (converted conversion minus (number 0 digits), drop_while is_digit s)

-- "%d"
pub scan_into : Option ℕ → List ℕ → Option ℕ × List ℕ
scan_into old text = elim (scan_number signed text) [
  | none ↦ (old, unsigned_part text)
  | some (n, rest) ↦ (some n, rest)
]

-- The second "%u" of "%u %u"
pub scan_size : Option ℕ → List ℕ → Option ℕ × List ℕ
scan_size old text = elim (scan_number unsigned text) [
  | none ↦ (old, unsigned_part text)
  | some (n, rest) ↦ (some n, rest)
]

-- `fscanf` with "%u %u", which stops at the first number that is not there
pub scan_two : (index size : Option ℕ) → List ℕ → Option ℕ × Option ℕ × List ℕ
scan_two index size text = elim (scan_number unsigned text) [
  | none ↦ (index, size, unsigned_part text)
  | some (n, rest) ↦ let (m, more) = scan_size size rest in (some n, m, more)
]

-- The `d` of "%ud"
abbrev pub skip_d : List ℕ → List ℕ
skip_d [] = []
skip_d (c ∷ cs) = if c == b'd' then cs else c ∷ cs

pub scan_ud : Option ℕ → List ℕ → Option ℕ × List ℕ
scan_ud index text = elim (scan_number unsigned text) [
  | none ↦ (index, unsigned_part text)
  | some (n, rest) ↦ (some n, skip_d rest)
]

-- What reading comes to: an exit for a bogus type character, a use of a variable that nothing has been
-- written to, a word that does not fit into `type`, a request behind the end of `ops`, an assertion
-- that fails, no end on the fuel, or a result.
pub data Read (A : Type 0) : Type 0 where
  bogus : Read A
  unset : Read A
  too_long : Read A
  out_of_bounds : Read A
  asserts : Read A
  out_of_fuel : Read A
  done : A → Read A

-- The variables of the loop; `ops` has the first `op_index` entries of the array.
pub record Reading : Type 0 where
  pub index : Option ℕ
  pub size : Option ℕ
  pub max_index : ℕ
  pub ops : List TraceOp

abbrev pub larger_id : ℕ → ℕ → ℕ
larger_id index max_index = if ltb max_index index then index else max_index

-- A request for `index` and `size` is stored, where there is room.
pub store_sized : (TraceOp → TraceOp) → (num_ops : ℕ) → Option ℕ → Option ℕ → Reading → Read Reading
store_sized f num_ops none size r = unset
store_sized f num_ops (some index) none r = unset
store_sized f num_ops (some index) (some size) r =
    if ltb (length r.ops) num_ops
    then done (record {
      index = some index;
      size = some size;
      max_index = larger_id index r.max_index;
      ops = r.ops ++ (f (alloc index size) ∷ []);
    })
    else out_of_bounds

abbrev pub as_alloc : TraceOp → TraceOp
as_alloc op = op

abbrev pub as_realloc : TraceOp → TraceOp
as_realloc (alloc index size) = realloc index size
as_realloc op = op

pub store_free : (num_ops : ℕ) → Option ℕ → Reading → Read Reading
store_free num_ops none r = unset
store_free num_ops (some index) r =
    if ltb (length r.ops) num_ops
    then done (record r { index = some index; ops = r.ops ++ (free index ∷ []) })
    else out_of_bounds

-- The switch on the first byte of a word, with the text behind the word
pub request : (num_ops type : ℕ) → List ℕ → Reading → Read Reading × List ℕ
request num_ops type text r =
    let (i, s, rest) = scan_two r.index r.size text in
    let (j, after) = scan_ud r.index text in
    if type == b'a'
    then (store_sized as_alloc num_ops i s r, rest)
    else if type == b'r'
    then (store_sized as_realloc num_ops i s r, rest)
    else if type == b'f'
    then (store_free num_ops j r, after)
    else (bogus, text)

infixl 5 ◌>>=◌
abbrev pub ◌>>=◌ : {A B : Type 0} → Read A → (A → Read B) → Read B
bogus >>= f = bogus
unset >>= f = unset
too_long >>= f = too_long
out_of_bounds >>= f = out_of_bounds
asserts >>= f = asserts
out_of_fuel >>= f = out_of_fuel
done a >>= f = f a

-- The loop, with fuel; each word takes a byte of the text at least.
pub read_requests : (fuel num_ops : ℕ) → List ℕ → Reading → Read Reading
read_requests zero num_ops text r = out_of_fuel
read_requests (suc fuel) num_ops text r = elim (scan_word text) [
  | [] ↦ done r
  | type ∷ more ↦
      let (stored, rest) = request num_ops type (behind_word text) r in
      if leb maxline (length (type ∷ more))
      then too_long
      else stored >>= read_requests fuel num_ops rest
]

pub record Trace : Type 0 where
  pub sugg_heapsize : Option ℕ
  pub num_ids : ℕ
  pub num_ops : ℕ
  pub weight : Option ℕ
  pub ops : List TraceOp

-- The two assertions
pub checked : (num_ids num_ops : ℕ) → (sugg_heapsize weight : Option ℕ) → Reading → Read Trace
checked num_ids num_ops sugg_heapsize weight r =
    if (r.max_index == (num_ids + 2 ^ 32 - 1) % 2 ^ 32) && (num_ops == length r.ops)
    then done (record {
      sugg_heapsize = sugg_heapsize;
      num_ids = num_ids;
      num_ops = num_ops;
      weight = weight;
      ops = r.ops;
    })
    else asserts

-- The entries of the array `ops`, of 12 bytes each, whose size in bytes is modulo 2 ^ 32
abbrev pub ops_room : (num_ops : ℕ) → ℕ
ops_room num_ops = num_ops * 12 % 2 ^ 32 / 12

-- Behind the header
pub read_body : (sugg_heapsize num_ids num_ops weight : Option ℕ) → List ℕ → Read Trace
read_body sugg_heapsize none num_ops weight text = unset
read_body sugg_heapsize (some num_ids) none weight text = unset
read_body sugg_heapsize (some num_ids) (some num_ops) weight text =
    let start : Reading = record { index = some 0; size = none; max_index = 0; ops = [] } in
    read_requests (length text + 1) (ops_room num_ops) text start
    >>= checked num_ids num_ops sugg_heapsize weight

pub read_trace : List ℕ → Read Trace
read_trace file =
    let (sugg_heapsize, a) = scan_into none file in
    let (num_ids, b) = scan_into none a in
    let (num_ops, c) = scan_into none b in
    let (weight, d) = scan_into none c in read_body sugg_heapsize num_ids num_ops weight d

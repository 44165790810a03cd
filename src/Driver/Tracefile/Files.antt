-- ===== src/Driver/Tracefile/Files.antt =====
-- `read_trace` on whole trace files.
use s_system_programmin.Common.{
  ℕ, suc, ◌+◌, ◌-◌, ◌*◌, ◌%◌, ◌^◌, ◌≤◌, ◌<◌, ◌≡◌, refl, sym, ap, ◌∙◌, Bool-cases, inl, inr, ◌&&◌,
  Option, none, some, List, [], ◌∷◌, ◌++◌, append_assoc, append-nil, leb, ◌==◌, if◌then◌else◌,
  arith, length, length-append,
}
use s_system_programmin.Driver.Replay.{TraceOp, alloc, realloc, free}
use s_system_programmin.Driver.Tracefile.{
  ops_room, read_requests, signed, scan_into, Read, done, asserts, out_of_bounds, Reading,
  larger_id, Trace, checked, read_body, read_trace, ◌>>=◌,
}
use s_system_programmin.Driver.Tracefile.Spelling.{
  Spells, Requests, no_requests, alloc_line, realloc_line, free_line, scan_number_start,
  scan_number_behind, after, after_all, read_requests-Requests,
}

-- The largest id that is asked for, and not below `m`
abbrev pub largest_id : (m : ℕ) → List TraceOp → ℕ
largest_id m [] = m
largest_id m (alloc i s ∷ ops) = largest_id (if leb i m then m else i) ops
largest_id m (realloc i s ∷ ops) = largest_id (if leb i m then m else i) ops
largest_id m (free i ∷ ops) = largest_id m ops

larger_id-larger : (i m : ℕ) → larger_id i m ≡ (if leb i m then m else i)
larger_id-larger i m = ground arith

after_all-largest_id :
    (ops : List TraceOp) (r : Reading) → (after_all ops r).max_index ≡ largest_id r.max_index ops
after_all-largest_id [] r = refl
after_all-largest_id (alloc i s ∷ ops) r =
    after_all-largest_id ops (after (alloc i s) r)
    ∙ ap (λ m. largest_id m ops) (larger_id-larger i r.max_index)
after_all-largest_id (realloc i s ∷ ops) r =
    after_all-largest_id ops (after (realloc i s) r)
    ∙ ap (λ m. largest_id m ops) (larger_id-larger i r.max_index)
after_all-largest_id (free i ∷ ops) r = after_all-largest_id ops (after (free i) r)

after_all-ops : (ops : List TraceOp) (r : Reading) → (after_all ops r).ops ≡ r.ops ++ ops
after_all-ops [] r = sym (append-nil r.ops)
after_all-ops (alloc i s ∷ ops) r =
    after_all-ops ops (after (alloc i s) r) ∙ append_assoc r.ops (alloc i s ∷ []) ops
after_all-ops (realloc i s ∷ ops) r =
    after_all-ops ops (after (realloc i s) r) ∙ append_assoc r.ops (realloc i s ∷ []) ops
after_all-ops (free i ∷ ops) r =
    after_all-ops ops (after (free i) r) ∙ append_assoc r.ops (free i ∷ []) ops

length-Requests :
    {ops : List TraceOp} {text : List ℕ} → Requests ops text → length ops ≤ length text
length-Requests no_requests = omega arith
length-Requests (alloc_line {xs = xs} {ys} {text} a b more) = omega (
  arith,
  length-Requests more,
  length-append xs (32 ∷ (ys ++ (b'\n' ∷ text))),
  length-append ys (b'\n' ∷ text),
)
length-Requests (realloc_line {xs = xs} {ys} {text} a b more) = omega (
  arith,
  length-Requests more,
  length-append xs (32 ∷ (ys ++ (b'\n' ∷ text))),
  length-append ys (b'\n' ∷ text),
)
length-Requests (free_line {xs = xs} {text} a more) =
    omega (arith, length-Requests more, length-append xs (b'\n' ∷ text))

-- What the header and the requests come to
abbrev pub expected : (sugg_heapsize num_ids num_ops weight : ℕ) → List TraceOp → Read Trace
expected sugg_heapsize num_ids num_ops weight ops =
    if leb (length ops) num_ops
    then (if (suc (largest_id 0 ops) == num_ids) && (num_ops == length ops)
        then done (record {
          sugg_heapsize = some sugg_heapsize;
          num_ids = num_ids;
          num_ops = num_ops;
          weight = some weight;
          ops = ops;
        })
        else asserts)
    else out_of_bounds

abbrev start : Reading
start = record { index = some 0; size = none; max_index = 0; ops = [] }

largest_id-fits :
    {ops : List TraceOp} {text : List ℕ} (m : ℕ)
    → m < 2 ^ 31
    → Requests ops text
    → largest_id m ops < 2 ^ 31
largest_id-fits m l no_requests = l
largest_id-fits m l (alloc_line {i = i} a b more) =
    largest_id-fits (if leb i m then m else i) (ground (arith, l, a.fits)) more
largest_id-fits m l (realloc_line {i = i} a b more) =
    largest_id-fits (if leb i m then m else i) (ground (arith, l, a.fits)) more
largest_id-fits m l (free_line a more) = largest_id-fits m l more

-- The assertion on the ids, without wrap
ids_test :
    (largest num_ids : ℕ)
    → largest < 2 ^ 31
    → num_ids < 2 ^ 31
    → (largest == (num_ids + 2 ^ 32 - 1) % 2 ^ 32) ≡ (suc largest == num_ids)
ids_test largest num_ids a b = ground arith

checked-eq :
    (sugg_heapsize num_ids num_ops weight : ℕ) (ops : List TraceOp) (r : Reading)
    → r.ops ≡ ops
    → r.max_index ≡ largest_id 0 ops
    → largest_id 0 ops < 2 ^ 31
    → num_ids < 2 ^ 31
    → checked num_ids num_ops (some sugg_heapsize) (some weight) r ≡ (
        if (suc (largest_id 0 ops) == num_ids) && (num_ops == length ops)
        then done (record {
          sugg_heapsize = some sugg_heapsize;
          num_ids = num_ids;
          num_ops = num_ops;
          weight = some weight;
          ops = ops;
        })
        else asserts)
unfolding checked
checked-eq sugg_heapsize num_ids num_ops weight ops r e m a b =
    rw (e, m, ids_test (largest_id 0 ops) num_ids a b) refl

read_body-Requests :
    (sugg_heapsize num_ids num_ops weight : ℕ) (ops : List TraceOp) (text : List ℕ)
    → Requests ops text
    → num_ids < 2 ^ 31
    → num_ops * 12 < 2 ^ 32
    → read_body (some sugg_heapsize) (some num_ids) (some num_ops) (some weight) (b'\n' ∷ text)
      ≡ expected sugg_heapsize num_ids num_ops weight ops
unfolding read_body
read_body-Requests sugg_heapsize num_ids num_ops weight ops text q l m =
    let all_ops : ops_room num_ops ≡ num_ops = omega (arith, m) in
    let read =
      read_requests-Requests (suc (length text) + 1) num_ops ops text start q
        (omega (arith, length-Requests q)) (omega arith) in
    let none_before : length start.ops + length ops ≡ length ops = omega arith in
    let check = checked num_ids num_ops (some sugg_heapsize) (some weight) in
    let whole =
      checked-eq sugg_heapsize num_ids num_ops weight ops (after_all ops start)
        (after_all-ops ops start) (after_all-largest_id ops start)
        (largest_id-fits 0 (omega arith) q) l in
    ap (λ n. read_requests (suc (length text) + 1) n (b'\n' ∷ text) start >>= check) all_ops
    ∙ ap (λ o. o >>= check) read
    ∙ ap (λ n. (if leb n num_ops then done (after_all ops start) else out_of_bounds) >>= check)
        none_before
    ∙ elim (Bool-cases (leb (length ops) num_ops)) [ inl e ↦ rw e whole | inr e ↦ rw e refl ]

module _ {n : ℕ} {xs : List ℕ} (old : Option ℕ) (text : List ℕ) (a : Spells n xs) where
  scan_into-start : scan_into old (xs ++ (b'\n' ∷ text)) ≡ (some n, b'\n' ∷ text)
  unfolding scan_into
  scan_into-start =
      let first = scan_number_start n xs a b'\n' text refl signed in rw (scan_into, first) refl

  scan_into-behind : scan_into old (b'\n' ∷ (xs ++ (b'\n' ∷ text))) ≡ (some n, b'\n' ∷ text)
  unfolding scan_into
  scan_into-behind =
      let first = scan_number_behind n xs a b'\n' text refl signed b'\n' refl in
      rw (scan_into, first) refl

-- A trace file: the digits of the four numbers of the header, then the lines of the requests.
abbrev pub file : (ws xs ys zs text : List ℕ) → List ℕ
file ws xs ys zs text = ws ++ (b'\n' ∷ (xs ++ (b'\n' ∷ (ys ++ (b'\n' ∷ (zs ++ (b'\n' ∷ text)))))))

-- `read_trace` on a trace file whose numbers have no sign and are below 2 ^ 31, and whose header
-- announces `num_ids` and `num_ops`, where the array `ops` has fewer than 2 ^ 32 bytes: it writes past the end
-- of the array `ops` if there are more requests than announced; otherwise it ends with the requests
-- in their order, if there are as many as announced and the ids go up to `num_ids - 1`, and if not, an
-- assertion fails.
pub read_trace-Requests :
    (sugg_heapsize num_ids num_ops weight : ℕ) (ops : List TraceOp) (ws xs ys zs text : List ℕ)
    → Spells sugg_heapsize ws
    → Spells num_ids xs
    → Spells num_ops ys
    → Spells weight zs
    → Requests ops text
    → num_ops * 12 < 2 ^ 32
    → read_trace (file ws xs ys zs text) ≡ expected sugg_heapsize num_ids num_ops weight ops
unfolding read_trace
read_trace-Requests sugg_heapsize num_ids num_ops weight ops ws xs ys zs text a b c d q m =
    let fourth = scan_into-behind none text d in
    let third = scan_into-behind none (zs ++ (b'\n' ∷ text)) c in
    let second = scan_into-behind none (ys ++ (b'\n' ∷ (zs ++ (b'\n' ∷ text)))) b in
    let first = scan_into-start none (xs ++ (b'\n' ∷ (ys ++ (b'\n' ∷ (zs ++ (b'\n' ∷ text)))))) a in
    rw (read_trace, first, second, third, fourth)
      (read_body-Requests sugg_heapsize num_ids num_ops weight ops text q b.fits m)

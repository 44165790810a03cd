-- ===== src/Timing/Tuning/Clear.antt =====
-- What `clear` of fcyc.c reads.
use s_system_programmin.Common.{
  ℕ, zero, suc, ◌+◌, ◌/◌, ◌≤◌, ◌<◌, ◌≡◌, refl, if◌then◌else◌, ℤ, pos, negsuc, subst, sym, Bool,
  true, false, ◌&&◌, ◌||◌, Bool-cases, inl, inr, Option, none, some, List, [], ◌∷◌, ltb, leb, arith,
  all,
}
use s_system_programmin.Timing.Tuning.{
  Settings, defaults, set_fcyc_clear_cache, set_fcyc_cache_size, set_fcyc_cache_block,
  set_fcyc_compensate, set_fcyc_k, set_fcyc_maxsamples, read_ints, Clearing, fatal, endless,
  outside, read_through, sweep, with_buffer, clear, after_clear, prepared,
}

-- The settings behind any sequence of the setters and of `clear`
pub data Tuned : Settings → Type 0 where
  by_default : Tuned defaults
  clear_cache_set : {s : Settings} (b : Bool) → Tuned s → Tuned (set_fcyc_clear_cache b s)
  cache_size_set : {s : Settings} (n : ℤ) → Tuned s → Tuned (set_fcyc_cache_size n s)
  cache_block_set : {s : Settings} (n : ℤ) → Tuned s → Tuned (set_fcyc_cache_block n s)
  compensate_set : {s : Settings} (b : Bool) → Tuned s → Tuned (set_fcyc_compensate b s)
  k_set : {s : Settings} (k : ℕ) → Tuned s → Tuned (set_fcyc_k k s)
  maxsamples_set : {s : Settings} (n : ℕ) → Tuned s → Tuned (set_fcyc_maxsamples n s)
  clears :
      {s t : Settings} (got : Bool) (reads : List ℕ)
      → Tuned s
      → clear got s ≡ read_through reads t
      → Tuned t

number_in : Option ℕ → ℕ
number_in none = 0
number_in (some n) = n

absolute : ℤ → ℕ
absolute (pos n) = n
absolute (negsuc n) = n

-- The buffer, if there is one, has the size that is set.
abbrev Sized : Settings → Type 0
Sized s = (n : ℕ) → s.cache_buf ≡ some n → s.cache_bytes ≡ pos n

abbrev SizedEnd : Clearing → Type 0
SizedEnd fatal = Unit {0}
SizedEnd endless = Unit {0}
SizedEnd outside = Unit {0}
SizedEnd (read_through reads t) = Sized t

-- One of the ints that were read is less than `incr` in front of `w`.
abbrev pub near : (incr w : ℕ) → List ℕ → Bool
near incr w [] = false
near incr w (p ∷ ps) = (leb p w && ltb w (p + incr)) || near incr w ps

module _ (incr cend : ℕ) (l : 0 < incr) where
  near_next :
      (p : ℕ) (ps : List ℕ) (w : ℕ)
      → (p + incr ≤ w → near incr w ps ≡ true)
      → p ≤ w
      → near incr w (p ∷ ps) ≡ true
  near_next p ps w c b = elim (Bool-cases (ltb w (p + incr))) [
    | inl e ↦ ground arith
    | inr e ↦ ground (arith, c (ground arith))
  ]

  read_ints-Reads :
      (fuel p : ℕ)
      → 0 < fuel
      → cend < fuel + p
      → (ps : List ℕ) × (read_ints fuel incr cend p ≡ some ps)
        × (all (λ q. ltb q cend) ps ≡ true)
        × ((w : ℕ) → p ≤ w → w < cend → near incr w ps ≡ true)
  read_ints-Reads zero p m n = absurd (omega (arith, m))
  read_ints-Reads (suc fuel) p m n = elim (Bool-cases (ltb p cend)) [
    | inl e ↦
        let (ps, f, a, c) = read_ints-Reads fuel (p + incr) (ground arith) (omega arith) in
        (p ∷ ps, rw (e, f) refl, ground arith, (λ w b d. near_next p ps w (λ g. c w g d) b))
    | inr e ↦ ([], rw e refl, refl, (λ w b d. absurd (ground arith)))
  ]

-- How `clear` ends on settings `s` if `malloc` succeeds: with reads of ints in a buffer of `cache_bytes`
-- bytes, one in every `cache_block` bytes; or never, whatever the fuel, as it reads the first int again
-- and again; or with a read in front of the buffer; or as the size is negative.
pub data Sweeps (s : Settings) : (bytes block : ℤ) → Clearing → Type 0 where
  sweeps :
      (n b : ℕ) (reads : List ℕ)
      → all (λ p. ltb p (n / 4)) reads ≡ true
      → ((w : ℕ) → w < n / 4 → near (b / 4) w reads ≡ true)
      → Sweeps s (pos n) (pos b) (read_through reads (record s { cache_buf = some n }))
  never :
      (n b : ℕ)
      → b < 4
      → 4 ≤ n
      → ((fuel : ℕ) → read_ints fuel (b / 4) (n / 4) 0 ≡ none)
      → Sweeps s (pos n) (pos b) endless
  in_front : (n b : ℕ) → 4 ≤ n → Sweeps s (pos n) (negsuc b) outside
  no_int :
      (n b : ℕ)
      → n < 4
      → Sweeps s (pos n) (negsuc b) (read_through [] (record s { cache_buf = some n }))
  no_buffer : (n : ℕ) (block : ℤ) → Sweeps s (negsuc n) block fatal

-- `clear` is not called, or its loop ends.
pub data Returns (s : Settings) : Type 0 where
  not_called : s.clear_cache ≡ false → Returns s
  ends : (n b : ℕ) → s.cache_bytes ≡ pos n → s.cache_block ≡ pos b → 4 ≤ b → Returns s

sweep-after_clear : (s : Settings) (n b : ℕ) → 4 ≤ b → after_clear (sweep s n (pos b)) ≡ some s
sweep-after_clear s n b l =
    let (ps, f, a, c) =
      read_ints-Reads (b / 4) (n / 4) (omega arith) (n / 4 + 1) 0 (omega arith) (omega arith) in
    rw f refl

with_buffer-after_clear :
    (s : Settings) (o : Option ℕ) (n b : ℕ)
    → 4 ≤ b
    → (o' : Option ℕ) × (after_clear
          (with_buffer true (record s { cache_buf = o }) o (pos n) (pos b))
        ≡ some (record s { cache_buf = o' }))
with_buffer-after_clear s none n b l =
    (some n, sweep-after_clear (record s { cache_buf = some n }) n b l)
with_buffer-after_clear s (some m) n b l =
    (some m, sweep-after_clear (record s { cache_buf = some m }) n b l)

-- A call that returns changes nothing but the buffer, whatever the buffer was.
pub prepared-Returns :
    (s : Settings)
    → Returns s
    → (o : Option ℕ)
    → (o' : Option ℕ) × (prepared true (record s { cache_buf = o })
        ≡ some (record s { cache_buf = o' }))
unfolding prepared clear
prepared-Returns s (not_called e) o = (o, rw e refl)
prepared-Returns s (ends n b e f l) o = elim (Bool-cases s.clear_cache) [
  | inl c ↦
      let (o', g) = with_buffer-after_clear s o n b l in
      let t : Settings = record s { cache_buf = o } in
      let after : Option Settings = some (record s { cache_buf = o' }) in
      let g' = subst (λ y. after_clear (with_buffer true t o (pos n) y) ≡ after) (sym f) g in
      let g'' =
        subst (λ x. after_clear (with_buffer true t o x s.cache_block) ≡ after) (sym e) g' in
      (o', subst (λ v. (if v then after_clear (clear true t) else some t) ≡ after) (sym c) g'')
  | inr c ↦
      let t : Settings = record s { cache_buf = o } in
      (o, subst (λ v. (if v then after_clear (clear true t) else some t) ≡ some t) (sym c) refl)
]

-- ===== src/Timing/Tuning.antt =====
-- The settings of fcyc.c, and `clear`, which reads a buffer to displace the cache. `kbest` and
-- `maxsamples` are not negative. `epsilon` keeps its default, as in Timing.antt; the sum that `clear` stores in `sink` is left out.
pub mod Clear
use s_system_programmin.Common.{
  ℕ, zero, suc, ◌+◌, ◌/◌, ◌^◌, Bool, true, false, ℤ, pos, negsuc, Option, none, some, List, [], ◌∷◌,
  ltb, ◌==◌, if◌then◌else◌,
}

-- The buffer is the number of bytes that `malloc` was asked for, or NULL.
pub record Settings : Type 0 where
  pub kbest : ℕ
  pub maxsamples : ℕ
  pub compensate : Bool
  pub clear_cache : Bool
  pub cache_bytes : ℤ
  pub cache_block : ℤ
  pub cache_buf : Option ℕ

abbrev pub defaults : Settings
defaults = record {
  kbest = 3;
  maxsamples = 20;
  compensate = false;
  clear_cache = false;
  cache_bytes = pos (2 ^ 19);
  cache_block = pos 32;
  cache_buf = none;
}

abbrev pub set_fcyc_clear_cache : Bool → Settings → Settings
set_fcyc_clear_cache clear s = record s { clear_cache = clear }

abbrev pub same_int : ℤ → ℤ → Bool
same_int (pos m) (pos n) = m == n
same_int (pos m) (negsuc n) = false
same_int (negsuc m) (pos n) = false
same_int (negsuc m) (negsuc n) = m == n

abbrev pub set_fcyc_cache_size : (bytes : ℤ) → Settings → Settings
set_fcyc_cache_size bytes s =
    if same_int bytes s.cache_bytes then s else record s { cache_bytes = bytes; cache_buf = none }

abbrev pub set_fcyc_cache_block : (bytes : ℤ) → Settings → Settings
set_fcyc_cache_block bytes s = record s { cache_block = bytes }

abbrev pub set_fcyc_compensate : Bool → Settings → Settings
set_fcyc_compensate compensate s = record s { compensate = compensate }

abbrev pub set_fcyc_k : ℕ → Settings → Settings
set_fcyc_k k s = record s { kbest = k }

abbrev pub set_fcyc_maxsamples : ℕ → Settings → Settings
set_fcyc_maxsamples maxsamples s = record s { maxsamples = maxsamples }

-- The loop of `clear`: the indices of the ints that it reads; `none` is out of fuel.
abbrev pub read_ints : (fuel incr cend cptr : ℕ) → Option (List ℕ)
read_ints zero incr cend cptr = none
read_ints (suc fuel) incr cend cptr =
    let rest = read_ints fuel incr cend (cptr + incr) in
    if ltb cptr cend then elim rest [ none ↦ none | some ps ↦ some (cptr ∷ ps) ] else some []

-- How `clear` ends: by `exit` where `malloc` fails, not at all, with a read in front of the buffer, or
-- with the ints it has read.
pub data Clearing : Type 0 where
  fatal endless outside : Clearing
  read_through : (reads : List ℕ) → Settings → Clearing

abbrev pub clearing_of : Settings → Option (List ℕ) → Clearing
clearing_of s none = endless
clearing_of s (some reads) = read_through reads s

-- `sizeof` makes the quotient unsigned. A negative block of -1 - n bytes becomes a step that moves the
-- pointer back by 4 + n / 4 * 4 bytes, modulo 2 ^ 32: the second read is in front of the buffer.
abbrev pub sweep : Settings → (bytes : ℕ) → (block : ℤ) → Clearing
sweep s bytes (pos n) = clearing_of s (read_ints (bytes / 4 + 1) (n / 4) (bytes / 4) 0)
sweep s bytes (negsuc n) = if ltb 0 (bytes / 4) then outside else read_through [] s

-- A negative size is one of 2 ^ 31 bytes or more for `malloc`, which refuses it.
abbrev pub with_buffer : (got : Bool) → Settings → Option ℕ → (bytes block : ℤ) → Clearing
with_buffer got s buffer (negsuc n) block = fatal
with_buffer got s (some n) (pos bytes) block = sweep s bytes block
with_buffer false s none (pos bytes) block = fatal
with_buffer true s none (pos bytes) block = sweep (record s { cache_buf = some bytes }) bytes block

-- `got` says whether `malloc` succeeds on a size that is not negative.
unfoldable pub clear : (got : Bool) → Settings → Clearing
clear got s = with_buffer got s s.cache_buf s.cache_bytes s.cache_block

abbrev pub after_clear : Clearing → Option Settings
after_clear fatal = none
after_clear endless = none
after_clear outside = none
after_clear (read_through reads s) = some s

-- `if (clear_cache) clear();`: the settings behind it, or `none` if it does not return or reads outside
-- the buffer.
unfoldable pub prepared : (got : Bool) → Settings → Option Settings
prepared got s = if s.clear_cache then after_clear (clear got s) else some s

-- ===== src/Timing/Tests.antt =====
-- A run of the sampling in fcyc.c, and of `clear` on a small buffer.
use s_system_programmin.Common.{pos, true, refl, [], ◌∷◌, ℕ, ◌≡◌, some, ◌%◌, ◌+◌}
use s_system_programmin.Timing.Tuning.{
  Settings, defaults, set_fcyc_clear_cache, set_fcyc_cache_size, set_fcyc_cache_block, clear,
  read_through,
}

-- Running times that go up and down
abbrev times : ℕ → ℕ
times i = (i + 1) % 3 + 100

abbrev small : Settings
small = set_fcyc_cache_block (pos 16) (set_fcyc_cache_size (pos 60) defaults)

small_reads :
    clear true small ≡ read_through (0 ∷ 4 ∷ 8 ∷ 12 ∷ []) (record small { cache_buf = some 60 })
unfolding clear
small_reads = refl

-- The settings of the driver, with a small buffer
abbrev clearing : Settings
clearing = set_fcyc_clear_cache true small

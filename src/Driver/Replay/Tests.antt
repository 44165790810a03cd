-- ===== src/Driver/Replay/Tests.antt =====
-- Runs of the replay of mdriver.c on a cold memory.
use s_system_programmin.Common.{◌+◌, refl, List, [], ◌∷◌, ◌++◌, arith}
use s_system_programmin.Memlib.{mem_reset_brk, max_heap}
use s_system_programmin.Malloc.Init.{Fresh}
use s_system_programmin.Driver.Replay.{
  TraceOp, alloc, realloc, free, Replay, Usage, eval_mm_valid, eval_mm_util, util_steps,
  speed_steps,
}
use s_system_programmin.Driver.Replay.Traces.{WellFormed}
use s_system_programmin.Driver.Replay.Full.{valid_start, util_start}
use s_system_programmin.Driver.Replay.Valid.{Faultless, eval_mm_valid-Faultless}
use s_system_programmin.Driver.Replay.HighIds.{Blamed, eval_mm_valid-Blamed}
use s_system_programmin.Driver.Replay.Util.{Measures, eval_mm_util-Measures}
use s_system_programmin.Driver.Replay.Speed.{Same, util_steps-Same}

abbrev cold : Replay
cold = record {
  heap = record {
    word = λ _. 0;
    mem = record { start_brk = 4096; brk = 4096; max_addr = 4096 + max_heap };
    heap_listp = 0;
    freelist_head = 0;
  };
  ranges = [];
  blocks = λ _. 0;
  block_sizes = λ _. 0;
}

Fresh-cold : Fresh (mem_reset_brk cold.heap.mem)
unfolding mem_reset_brk
Fresh-cold = record { empty = refl; aligned = refl; not_null = ground arith; small = ground arith }

abbrev trace : List TraceOp
trace = alloc 0 100 ∷ alloc 1 50 ∷ realloc 0 201 ∷ free 1 ∷ alloc 1 8 ∷ []

trace-WellFormed : WellFormed [] trace
trace-WellFormed = (
  refl,
  (ground arith, ground arith),
  (
    refl,
    (ground arith, ground arith),
    (refl, (ground arith, ground arith), (refl, (refl, (ground arith, ground arith), tt))),
  ),
)

eval_mm_valid-Faultless_example :
    Faultless (valid_start cold) trace (1 ∷ 0 ∷ []) (eval_mm_valid trace cold)
unfolding mem_reset_brk
eval_mm_valid-Faultless_example =
    eval_mm_valid-Faultless trace cold Fresh-cold (ground arith) trace-WellFormed (ground arith, tt)

eval_mm_util-Measures_example : Measures (util_start cold) trace 251 (eval_mm_util trace cold)
unfolding mem_reset_brk
eval_mm_util-Measures_example =
    eval_mm_util-Measures trace cold Fresh-cold (ground arith) trace-WellFormed

abbrev high_trace : List TraceOp
high_trace = alloc 128 8 ∷ []

eval_mm_valid-Blamed_example :
    Blamed
      (valid_start cold)
      high_trace
      128
      16
      (realloc 128 16 ∷ [])
      (eval_mm_valid (high_trace ++ (realloc 128 16 ∷ [])) cold)
unfolding mem_reset_brk
eval_mm_valid-Blamed_example =
    eval_mm_valid-Blamed high_trace 128 16 [] cold Fresh-cold (ground arith)
      (refl, (ground arith, ground arith), tt) tt refl (ground arith) (ground arith) (ground arith)

abbrev counting : Usage
counting = record { run = cold; total_size = 0; max_total_size = 0 }

same_run_lem : Same (util_steps trace counting) (speed_steps trace cold)
same_run_lem = util_steps-Same trace counting cold refl refl

-- ===== src/Kernel/Ptree/Tests.antt =====
-- Four tasks: init, a shell below it, the task 0 that is its own parent, and a kernel thread below it.
use s_system_programmin.Common.{
  decimal, digits_before, ℕ, zero, suc, ◌≡◌, refl, false, Option, none, some, List, [], ◌∷◌, codes,
  arith,
}
use s_system_programmin.Kernel.Ptree.{Kernel, overflow, task_line, write_pid_to_input}
use s_system_programmin.Kernel.Ptree.Paths.{
  PathTo, at_init, below, Stuck, own_parent, above, lines, fitting, write_pid_to_input-PathTo,
  write_pid_to_input-Stuck,
}

-- Task `n + 1` has process ID `n`, as if the text were its length in unary.
abbrev comm_of : ℕ → List ℕ
comm_of zero = []
comm_of (suc zero) = codes "swapper/0"
comm_of (suc (suc zero)) = codes "systemd"
comm_of (suc (suc (suc n))) = codes "bash"

abbrev pid_of : ℕ → ℕ
pid_of zero = 0
pid_of (suc n) = n

abbrev parent_of : ℕ → ℕ
parent_of zero = 0
parent_of (suc zero) = 1
parent_of (suc (suc zero)) = 1
parent_of (suc (suc (suc zero))) = 1
parent_of (suc (suc (suc (suc n)))) = 2

abbrev unary : List ℕ → Option ℕ
unary [] = none
unary (x ∷ xs) = some (elim (unary xs) [ none ↦ 0 | some n ↦ suc n ])

abbrev machine : Kernel
machine = record {
  scan_pid = unary;
  pid_task = suc;
  comm = comm_of;
  pid = pid_of;
  parent = parent_of;
}

shell_path : PathTo machine 4 (2 ∷ 4 ∷ [])
shell_path = below {path = 2 ∷ []} (ground arith) (ground arith) (at_init (ground arith) refl)

shell_lines : lines machine (2 ∷ 4 ∷ []) ≡ codes "systemd (1)\nbash (3)\n"
unfolding task_line decimal digits_before
shell_lines = refl

write_pid_to_input-PathTo_example :
    write_pid_to_input machine 2 false 4 (codes "nnnn") ≡ fitting 4 (lines machine (2 ∷ 4 ∷ []))
write_pid_to_input-PathTo_example =
    write_pid_to_input-PathTo machine 2 4 (codes "nnnn") 3 (2 ∷ 4 ∷ []) (ground arith) refl
      shell_path (ground arith)

kthread-Stuck : Stuck machine 3
kthread-Stuck = above (ground arith) (ground arith) (own_parent (ground arith) (ground arith) refl)

write_pid_to_input-Stuck_example : write_pid_to_input machine 1024 false 3 (codes "nnn") ≡ overflow
write_pid_to_input-Stuck_example =
    write_pid_to_input-Stuck machine 1024 3 (codes "nnn") 2 (ground arith) refl kthread-Stuck
      (ground arith)

ten_digits : decimal 2147483647 ≡ codes "2147483647"
unfolding decimal digits_before
ten_digits = refl

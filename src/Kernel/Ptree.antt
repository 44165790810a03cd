-- ===== src/Kernel/Ptree.antt =====
-- Lab/lab4/2019-11730_kernellab/ptree/dbfs_ptree.c: the path of a process from init, as text. A task
-- is a number, NULL is 0; what the kernel's functions return, and the fields of its tasks, are a
-- parameter. Process IDs are not negative.
pub mod Paths
mod Load
mod Tests
use s_system_programmin.Common.{
  ℕ, zero, suc, ◌+◌, ◌/◌, ◌%◌, Bool, true, false, Option, none, some, List, [], ◌∷◌, ◌++◌, ltb,
  ◌==◌, if◌then◌else◌, length, codes, decimal,
}

-- The kernel as `write_pid_to_input` calls it. `scan_pid` is `sscanf` with "%u", where `none` leaves
-- `input_pid` as it is.
pub record Kernel : Type 0 where
  pub scan_pid : List ℕ → Option ℕ
  pub pid_task : ℕ → ℕ
  pub comm : ℕ → List ℕ
  pub pid : ℕ → ℕ
  pub parent : ℕ → ℕ

-- What a write comes to: a copy past the end of `buffer`; -EFAULT; -EINVAL; a read of the `input_pid`
-- that nothing has written; a text that does not fit into `temp_buffer`; no end on the fuel; or the
-- number of bytes and the text in the blob.
pub data Reply : Type 0 where
  overrun : Reply
  efault : Reply
  einval : Reply
  unset_pid : Reply
  overflow : Reply
  out_of_fuel : Reply
  written : (length : ℕ) → (blob : List ℕ) → Reply

abbrev pub buffer_size : ℕ
buffer_size = 256

abbrev pub blob_size : ℕ
blob_size = 1024

module _ (k : Kernel) where
  -- `sprintf` with "%s (%d)\n"
  pub task_line : (curr : ℕ) → List ℕ
  task_line curr = k.comm curr ++ (codes " (" ++ (decimal (k.pid curr) ++ codes ")\n"))

  -- The loop, with fuel. `temp_buffer` is as long as the blob.
  pub trace : (fuel length curr : ℕ) → (blob : List ℕ) → Reply
  trace zero n curr blob = out_of_fuel
  trace (suc fuel) n curr blob =
      let temp_buffer = task_line curr ++ blob in
      let rest = trace fuel n (k.parent curr) temp_buffer in
      if curr == 0
      then written n blob
      else if ltb (length temp_buffer) blob_size
      then (if k.pid curr == 1 then written n temp_buffer else rest)
      else overflow

  pub find_task : (fuel length : ℕ) → Option ℕ → Reply
  find_task fuel n none = unset_pid
  find_task fuel n (some input_pid) =
      let curr = k.pid_task input_pid in if curr == 0 then einval else trace fuel n curr []

  -- `n` bytes are copied to `buffer`, which then holds the string `text`.
  pub write_pid_to_input : (fuel : ℕ) → (from_fails : Bool) → (n : ℕ) → (text : List ℕ) → Reply
  write_pid_to_input fuel from_fails n text =
      if ltb buffer_size n
      then overrun
      else if from_fails
      then efault
      else find_task fuel n (k.scan_pid text)

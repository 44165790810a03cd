-- ===== src/Kernel/Ptree/Paths.antt =====
-- The paths of tasks from init.
use s_system_programmin.Common.{
  ℕ, zero, suc, ◌+◌, ◌≤◌, ◌<◌, ◌≡◌, ◌≢◌, refl, sym, ap, subst, ◌∙◌, true, false, Bool-cases, inl,
  inr, some, List, [], ◌∷◌, ◌++◌, append_assoc, append-nil, ltb, ◌==◌, if◌then◌else◌, arith, length,
  length-append,
}
use s_system_programmin.Kernel.Ptree.{
  Kernel, Reply, overflow, written, blob_size, buffer_size, task_line, trace, find_task,
  write_pid_to_input,
}

-- The tasks from init down to a task.
pub data PathTo (k : Kernel) : (curr : ℕ) → List ℕ → Type 0 where
  at_init : {curr : ℕ} → curr ≢ 0 → k.pid curr ≡ 1 → PathTo k curr (curr ∷ [])
  below :
      {curr : ℕ} {path : List ℕ}
      → curr ≢ 0
      → k.pid curr ≢ 1
      → PathTo k (k.parent curr) path
      → PathTo k curr (path ++ (curr ∷ []))

-- A line for each task
abbrev pub lines : Kernel → List ℕ → List ℕ
lines k [] = []
lines k (task ∷ path) = task_line k task ++ lines k path

lines-append :
    (k : Kernel) (path more : List ℕ) → lines k (path ++ more) ≡ lines k path ++ lines k more
lines-append k [] more = refl
lines-append k (task ∷ path) more =
    ap (λ xs. task_line k task ++ xs) (lines-append k path more)
    ∙ sym (append_assoc (task_line k task) (lines k path) (lines k more))

-- What the blob can hold.
abbrev pub fitting : (n : ℕ) → List ℕ → Reply
fitting n text = if ltb (length text) blob_size then written n text else overflow

lines_last :
    (k : Kernel) (path : List ℕ) (curr : ℕ) (blob : List ℕ)
    → lines k (path ++ (curr ∷ [])) ++ blob ≡ lines k path ++ (task_line k curr ++ blob)
lines_last k path curr blob =
    ap (λ xs. xs ++ blob)
      (lines-append k path (curr ∷ [])
        ∙ ap (λ xs. lines k path ++ xs) (append-nil (task_line k curr)))
    ∙ append_assoc (lines k path) (task_line k curr) blob

fitting-append :
    (n : ℕ) (xs ys : List ℕ)
    → (if ltb (length ys) blob_size then fitting n (xs ++ ys) else overflow) ≡ fitting n (xs ++ ys)
fitting-append n xs ys = ground (arith, length-append xs ys)

trace-PathTo :
    (k : Kernel) (fuel n curr : ℕ) (path blob : List ℕ)
    → PathTo k curr path
    → length path ≤ fuel
    → trace k fuel n curr blob ≡ fitting n (lines k path ++ blob)
unfolding trace
trace-PathTo k zero n curr _ blob (at_init c p) l = absurd (omega (arith, l))
trace-PathTo k zero n curr _ blob (below {path = path} c p up) l =
    absurd (omega (arith, l, length-append path (curr ∷ [])))
trace-PathTo k (suc fuel) n curr _ blob (at_init c p) l =
    let live : (curr == 0) ≡ false = ground (arith, c) in
    let top : (k.pid curr == 1) ≡ true = ground (arith, p) in
    rw (live, top, append-nil (task_line k curr)) refl
trace-PathTo k (suc fuel) n curr _ blob (below {path = path} c p up) l =
    let live : (curr == 0) ≡ false = ground (arith, c) in
    let top : (k.pid curr == 1) ≡ false = ground (arith, p) in
    let rest =
      trace-PathTo k fuel n (k.parent curr) path (task_line k curr ++ blob) up
        (omega (arith, l, length-append path (curr ∷ []))) in
    rw (live, top, rest, lines_last k path curr blob)
      (fitting-append n (lines k path) (task_line k curr ++ blob))

PathTo-live : {k : Kernel} {curr : ℕ} {path : List ℕ} → PathTo k curr path → (curr == 0) ≡ false
PathTo-live (at_init c p) = ground (arith, c)
PathTo-live (below c p up) = ground (arith, c)

-- A write of the ID of a process below init, in at most 256 bytes: if the lines of the tasks on the
-- path from init to the process, each with the command and the ID in parentheses, have fewer than
-- 1024 bytes together, the blob holds them in that order and the number of bytes is returned;
-- otherwise they overflow `temp_buffer`.
pub write_pid_to_input-PathTo :
    (k : Kernel) (fuel n : ℕ) (text : List ℕ) (input_pid : ℕ) (path : List ℕ)
    → n ≤ buffer_size
    → k.scan_pid text ≡ some input_pid
    → PathTo k (k.pid_task input_pid) path
    → length path ≤ fuel
    → write_pid_to_input k fuel false n text ≡ fitting n (lines k path)
unfolding write_pid_to_input find_task
write_pid_to_input-PathTo k fuel n text input_pid path s e p l =
    let fits : ltb buffer_size n ≡ false = ground (arith, s) in
    let live : (k.pid_task input_pid == 0) ≡ false = PathTo-live p in
    rw (fits, e, live)
      (trace-PathTo k fuel n (k.pid_task input_pid) path [] p l
        ∙ ap (fitting n) (append-nil (lines k path)))

-- A task that has no path from init: it or one above it is its own parent.
pub data Stuck (k : Kernel) : (curr : ℕ) → Type 0 where
  own_parent : {curr : ℕ} → curr ≢ 0 → k.pid curr ≢ 1 → k.parent curr ≡ curr → Stuck k curr
  above : {curr : ℕ} → curr ≢ 0 → k.pid curr ≢ 1 → Stuck k (k.parent curr) → Stuck k curr

Stuck-parent :
    (k : Kernel) (curr : ℕ) → Stuck k curr → (curr ≢ 0) × (k.pid curr ≢ 1) × Stuck k (k.parent curr)
Stuck-parent k curr (own_parent c p e) = (c, p, subst (Stuck k) (sym e) (own_parent c p e))
Stuck-parent k curr (above c p s) = (c, p, s)

length-task_line : (k : Kernel) (curr : ℕ) → 0 < length (task_line k curr)
unfolding task_line
length-task_line k curr = omega (arith, length-append (k.comm curr) _)

trace-Stuck :
    (k : Kernel) (fuel n curr : ℕ) (blob : List ℕ)
    → Stuck k curr
    → length blob < blob_size
    → blob_size ≤ fuel + length blob
    → trace k fuel n curr blob ≡ overflow
unfolding trace
trace-Stuck k zero n curr blob s l f = absurd (omega (arith, l, f))
trace-Stuck k (suc fuel) n curr blob s l f =
    let (c, p, up) = Stuck-parent k curr s in
    let live : (curr == 0) ≡ false = ground (arith, c) in
    let top : (k.pid curr == 1) ≡ false = ground (arith, p) in
    let temp_buffer = task_line k curr ++ blob in
    let longer = length-append (task_line k curr) blob in
    elim (Bool-cases (ltb (length temp_buffer) blob_size)) [
      | inl e ↦
          rw (live, top, e)
            (trace-Stuck k fuel n (k.parent curr) temp_buffer up (ground (arith, e))
              (omega (arith, f, longer, length-task_line k curr)))
      | inr e ↦ rw (live, top, e) refl
    ]

-- A write of the ID of a task that is not below init, as a kernel thread is not: the walk goes round
-- at the task that is its own parent, until the text overflows `temp_buffer`.
pub write_pid_to_input-Stuck :
    (k : Kernel) (fuel n : ℕ) (text : List ℕ) (input_pid : ℕ)
    → n ≤ buffer_size
    → k.scan_pid text ≡ some input_pid
    → Stuck k (k.pid_task input_pid)
    → blob_size ≤ fuel
    → write_pid_to_input k fuel false n text ≡ overflow
unfolding write_pid_to_input find_task
write_pid_to_input-Stuck k fuel n text input_pid s e p l =
    let fits : ltb buffer_size n ≡ false = ground (arith, s) in
    let (c, _, _) = Stuck-parent k (k.pid_task input_pid) p in
    let live : (k.pid_task input_pid == 0) ≡ false = ground (arith, c) in
    rw (fits, e, live)
      (trace-Stuck k fuel n (k.pid_task input_pid) [] p (omega arith) (omega (arith, l)))

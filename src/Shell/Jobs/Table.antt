-- ===== src/Shell/Jobs/Table.antt =====
-- The job list as a finite map from process IDs to jobs: `addjob` inserts and `deletejob` removes.
use s_system_programmin.Common.{
  ℕ, ◌+◌, ◌<◌, ◌≡◌, ◌≢◌, ◌⊎◌, inl, inr, refl, Bool, true, false, Bool-cases, none, some,
  Option-cases, List, [], ◌∷◌, pos, ltb, ◌==◌, if◌then◌else◌, arith, length,
}
use s_system_programmin.Shell.Jobs.{
  State, undef, Job, Shell, cleared, fill_slot, clear_slot, with_pid, addjob, add_filled, deletejob,
  delete_cleared, following, maxjid,
}

-- A slot is cleared, or holds a process with a job ID and a state.
abbrev pub Slot : Job → Type 0
Slot k = (k ≡ cleared) ⊎ ((0 < k.pid) × (0 < k.jid) × (k.state ≢ undef))

-- No process is in two slots.
abbrev pub Table : List Job → Type 0
Table [] = Unit {0}
Table (k ∷ ks) = Slot k × ((0 < k.pid) → with_pid k.pid ks ≡ none) × Table ks

-- `fill_slot` and `clear_slot` replace the first slot with a given process ID.
abbrev pub replaced : (pid : ℕ) → Job → List Job → List Job
replaced pid j [] = []
replaced pid j (k ∷ ks) = if k.pid == pid then j ∷ ks else k ∷ replaced pid j ks

pub fill_slot-replaced :
    (j : Job) (ks : List Job)
    → fill_slot j ks ≡ elim (with_pid 0 ks) [ none ↦ none | some _ ↦ some (replaced 0 j ks) ]
fill_slot-replaced j [] = refl
fill_slot-replaced j (k ∷ ks) = elim (Bool-cases (k.pid == 0)) [
  | inl e ↦ rw (e, e) refl
  | inr e ↦
      rw (e, fill_slot-replaced j ks)
        (elim (Option-cases (with_pid 0 ks)) [ inl n ↦ rw n refl | inr (_, m) ↦ rw (m, e) refl ])
]

pub clear_slot-replaced :
    (pid : ℕ) (ks : List Job)
    → clear_slot pid ks
      ≡ elim (with_pid pid ks) [ none ↦ none | some _ ↦ some (replaced pid cleared ks) ]
clear_slot-replaced pid [] = refl
clear_slot-replaced pid (k ∷ ks) = elim (Bool-cases (k.pid == pid)) [
  | inl e ↦ rw (e, e) refl
  | inr e ↦
      rw (e, clear_slot-replaced pid ks)
        (elim (Option-cases (with_pid pid ks)) [ inl n ↦ rw n refl | inr (_, m) ↦ rw (m, e) refl ])
]

length-replaced : (pid : ℕ) (j : Job) (ks : List Job) → length (replaced pid j ks) ≡ length ks
length-replaced pid j [] = refl
length-replaced pid j (k ∷ ks) = ground (arith, length-replaced pid j ks)

-- Another process is in no slot of the list if it was in none.
replaced-absent :
    (pid : ℕ) (j : Job) (ks : List Job) (p : ℕ)
    → (p == j.pid) ≡ false
    → with_pid p ks ≡ none
    → with_pid p (replaced pid j ks) ≡ none
replaced-absent pid j [] p a b = refl
replaced-absent pid j (k ∷ ks) p a b = ground (arith, replaced-absent pid j ks p)

-- Filling an empty slot inserts into the map.
replaced-inserts :
    (j old : Job) (ks : List Job) (p : ℕ)
    → 0 < p
    → with_pid 0 ks ≡ some old
    → with_pid j.pid ks ≡ none
    → with_pid p (replaced 0 j ks) ≡ (if p == j.pid then some j else with_pid p ks)
replaced-inserts j old [] p a b c = cc
replaced-inserts j old (k ∷ ks) p a b c = ground (arith, replaced-inserts j old ks p)

-- Clearing the slot of a process removes from the map.
replaced-removes :
    (pid : ℕ) (ks : List Job) (p : ℕ)
    → 0 < p
    → Table ks
    → with_pid p (replaced pid cleared ks) ≡ (if p == pid then none else with_pid p ks)
replaced-removes pid [] p a t = ground arith
replaced-removes pid (k ∷ ks) p a t = ground (arith, replaced-removes pid ks p)

replaced-Table :
    (pid : ℕ) (j : Job) (ks : List Job)
    → Slot j
    → ((0 < j.pid) → with_pid j.pid ks ≡ none)
    → Table ks
    → Table (replaced pid j ks)
replaced-Table pid j [] s o t = tt
replaced-Table pid j (k ∷ ks) s o t = elim (Bool-cases (k.pid == pid)) [
  | inl e ↦ rw e (s, (λ l. ground (arith, o l)), t.2)
  | inr e ↦ rw e (
    t.0,
    (λ l. replaced-absent pid j ks k.pid (ground (arith, o)) (t.1 l)),
    replaced-Table pid j ks s (λ l. ground (arith, o l)) t.2,
  )
]

-- What `addjob` of a process ID above 0 does: nothing if no slot is empty, or one job more.
pub data Adds (s : Shell) (pid : ℕ) (state : State) (cmdline : List ℕ) : Shell × Bool → Type 0 where
  no_slot : with_pid 0 s.jobs ≡ none → Adds s pid state cmdline (s, false)
  adds :
      {t : Shell}
      → Table t.jobs
      → ((p : ℕ)
          → 0 < p
          → with_pid p t.jobs ≡ (
              if p == pid
              then some (record { pid = pid; jid = s.nextjid; state = state; cmdline = cmdline })
              else with_pid p s.jobs))
      → length t.jobs ≡ length s.jobs
      → t.nextjid ≡ following s.nextjid
      → Adds s pid state cmdline (t, true)

-- `addjob` of a new process, with a state other than UNDEF, on a well-formed list whose next job ID
-- is positive: the list stays well-formed, and the job is inserted with that ID while all other
-- jobs stay; or no slot is empty, and nothing changes.
pub addjob-Adds :
    (s : Shell) (pid : ℕ) (state : State) (cmdline : List ℕ)
    → Table s.jobs
    → 0 < s.nextjid
    → 0 < pid
    → with_pid pid s.jobs ≡ none
    → state ≢ undef
    → Adds s pid state cmdline (addjob (pos pid) state cmdline s)
unfolding addjob add_filled
addjob-Adds s pid state cmdline t n l out d =
    let positive : ltb pid 1 ≡ false = ground arith in
    let j : Job = record { pid = pid; jid = s.nextjid; state = state; cmdline = cmdline } in
    rw (positive, fill_slot-replaced j s.jobs)
      (elim (Option-cases (with_pid 0 s.jobs)) [
        | inl e ↦ rw e (no_slot e)
        | inr (old, e) ↦ rw e (
            adds (replaced-Table 0 j s.jobs (inr (l, n, d)) (λ _. out) t)
              (λ p a. replaced-inserts j old s.jobs p a e out) (length-replaced 0 j s.jobs) refl)
      ])

-- What `deletejob` of a process ID above 0 does: nothing if no slot has it, or one job less.
pub data Deletes (s : Shell) (pid : ℕ) : Shell × Bool → Type 0 where
  no_job : with_pid pid s.jobs ≡ none → Deletes s pid (s, false)
  deletes :
      {t : Shell}
      → Table t.jobs
      → ((p : ℕ) → 0 < p → with_pid p t.jobs ≡ (if p == pid then none else with_pid p s.jobs))
      → length t.jobs ≡ length s.jobs
      → t.nextjid ≡ maxjid t.jobs + 1
      → Deletes s pid (t, true)

-- `deletejob` of a process ID above 0 on a well-formed list removes the job of this process and no
-- other, the list stays well-formed, and the next job ID is one above the largest; or the list has
-- no such job, and nothing changes.
pub deletejob-Deletes :
    (s : Shell) (pid : ℕ) → Table s.jobs → 0 < pid → Deletes s pid (deletejob (pos pid) s)
unfolding deletejob delete_cleared
deletejob-Deletes s pid t l =
    let positive : ltb pid 1 ≡ false = ground arith in
    rw (positive, clear_slot-replaced pid s.jobs)
      (elim (Option-cases (with_pid pid s.jobs)) [
        | inl e ↦ rw e (no_job e)
        | inr (_, e) ↦ rw e (
            deletes (replaced-Table pid cleared s.jobs (inl refl) (λ a. ground arith) t)
              (λ p a. replaced-removes pid s.jobs p a t) (length-replaced pid cleared s.jobs) refl)
      ])

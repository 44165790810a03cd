-- ===== src/Shell/Jobs/Foreground.antt =====
-- The foreground jobs of the job list of tsh.c.
use s_system_programmin.Common.{
  ℕ, suc, ◌+◌, ◌≤◌, ◌<◌, ◌≡◌, refl, ap, Bool, true, false, not, ◌&&◌, ◌||◌, Bool-cases,
  Option-cases, inl, inr, Option, none, some, List, [], ◌∷◌, ℤ, pos, negsuc, ltb, ◌==◌,
  if◌then◌else◌, arith,
}
use s_system_programmin.Shell.Jobs.{
  State, Job, Shell, cleared, is_fg, add_filled, delete_cleared, addjob, deletejob, fgpid,
  getjobpid, getjobjid, with_pid, with_jid,
}
use s_system_programmin.Shell.Jobs.Table.{replaced, fill_slot-replaced, clear_slot-replaced}

-- The number of foreground jobs, and whether all of them are the process `p`
abbrev pub fg_count : List Job → ℕ
fg_count [] = 0
fg_count (k ∷ ks) = if is_fg k.state then suc (fg_count ks) else fg_count ks

abbrev pub fg_only : (p : ℕ) → List Job → Bool
fg_only p [] = true
fg_only p (k ∷ ks) = (not (is_fg k.state) || k.pid == p) && fg_only p ks

abbrev pub one_if : Bool → ℕ
one_if true = 1
one_if false = 0

pub replaced-fg_count :
    (pid : ℕ) (j : Job) (ks : List Job)
    → fg_count (replaced pid j ks) ≤ fg_count ks + one_if (is_fg j.state)
replaced-fg_count pid j [] = omega arith
replaced-fg_count pid j (k ∷ ks) = ground (arith, replaced-fg_count pid j ks)

pub replaced-fg_only :
    (p pid : ℕ) (j : Job) (ks : List Job)
    → (not (is_fg j.state) || j.pid == p) ≡ true
    → fg_only p ks ≡ true
    → fg_only p (replaced pid j ks) ≡ true
replaced-fg_only p pid j [] a b = refl
replaced-fg_only p pid j (k ∷ ks) a b = ground (arith, replaced-fg_only p pid j ks a)

-- `addjob` and `deletejob`, whether they succeed or not
pub addjob-fg_count :
    (pid : ℤ) (state : State) (cmdline : List ℕ) (s : Shell)
    → fg_count (addjob pid state cmdline s).0.jobs ≤ fg_count s.jobs + one_if (is_fg state)
unfolding addjob add_filled
addjob-fg_count (negsuc n) state cmdline s = omega arith
addjob-fg_count (pos pid) state cmdline s =
    let j : Job = record { pid = pid; jid = s.nextjid; state = state; cmdline = cmdline } in
    elim (Bool-cases (ltb pid 1)) [
      | inl e ↦ rw e (omega arith)
      | inr e ↦
          rw (e, fill_slot-replaced j s.jobs)
            (elim (Option-cases (with_pid 0 s.jobs)) [
              | inl n ↦ rw n (omega arith)
              | inr (old, m) ↦ rw m (replaced-fg_count 0 j s.jobs)
            ])
    ]

pub addjob-fg_only :
    (p : ℕ) (state : State) (cmdline : List ℕ) (s : Shell)
    → fg_only p s.jobs ≡ true
    → fg_only p (addjob (pos p) state cmdline s).0.jobs ≡ true
unfolding addjob add_filled
addjob-fg_only p state cmdline s o =
    let j : Job = record { pid = p; jid = s.nextjid; state = state; cmdline = cmdline } in
    elim (Bool-cases (ltb p 1)) [
      | inl e ↦ rw e o
      | inr e ↦
          rw (e, fill_slot-replaced j s.jobs)
            (elim (Option-cases (with_pid 0 s.jobs)) [
              | inl n ↦ rw n o
              | inr (old, m) ↦ rw m (replaced-fg_only p 0 j s.jobs (ground arith) o)
            ])
    ]

pub addjob_failed :
    (n : ℕ) (state : State) (cmdline : List ℕ) (s : Shell)
    → (addjob (negsuc n) state cmdline s).0 ≡ s
unfolding addjob
addjob_failed n state cmdline s = refl

pub deletejob_zero : (s : Shell) → (deletejob (pos 0) s).0 ≡ s
unfolding deletejob
deletejob_zero s = refl

pub deletejob-fg_count : (pid : ℤ) (s : Shell) → fg_count (deletejob pid s).0.jobs ≤ fg_count s.jobs
unfolding deletejob delete_cleared
deletejob-fg_count (negsuc n) s = omega arith
deletejob-fg_count (pos pid) s = elim (Bool-cases (ltb pid 1)) [
  | inl e ↦ rw e (omega arith)
  | inr e ↦
      rw (e, clear_slot-replaced pid s.jobs)
        (elim (Option-cases (with_pid pid s.jobs)) [
          | inl n ↦ rw n (omega arith)
          | inr (old, m) ↦ rw m (omega (arith, replaced-fg_count pid cleared s.jobs))
        ])
]

pub deletejob-fg_only :
    (p : ℕ) (pid : ℤ) (s : Shell)
    → fg_only p s.jobs ≡ true
    → fg_only p (deletejob pid s).0.jobs ≡ true
unfolding deletejob delete_cleared
deletejob-fg_only p (negsuc n) s o = o
deletejob-fg_only p (pos pid) s o = elim (Bool-cases (ltb pid 1)) [
  | inl e ↦ rw e o
  | inr e ↦
      rw (e, clear_slot-replaced pid s.jobs)
        (elim (Option-cases (with_pid pid s.jobs)) [
          | inl n ↦ rw n o
          | inr (old, m) ↦ rw m (replaced-fg_only p pid cleared s.jobs refl o)
        ])
]

pub fgpid_none : (ks : List Job) → fg_count ks ≡ 0 → fgpid ks ≡ 0
unfolding fgpid
fgpid_none [] n = refl
fgpid_none (k ∷ ks) n = ground (arith, fgpid_none ks)

pub fg_only_none : (p : ℕ) (ks : List Job) → fg_count ks ≡ 0 → fg_only p ks ≡ true
fg_only_none p [] n = refl
fg_only_none p (k ∷ ks) n = ground (arith, fg_only_none p ks)

-- The foreground process is another one than the only one that may be there: there is none.
pub fgpid_gone :
    (p : ℕ) (ks : List Job) → fg_only p ks ≡ true → (p == fgpid ks) ≡ false → fg_count ks ≡ 0
unfolding fgpid
fgpid_gone p [] o n = refl
fgpid_gone p (k ∷ ks) o n = ground (arith, fgpid_gone p ks)

-- The process that `fgpid` finds
pub fgpid_only : (p : ℕ) (ks : List Job) → fg_only p ks ≡ true → 0 < fgpid ks → fgpid ks ≡ p
unfolding fgpid
fgpid_only p [] o l = absurd (omega arith)
fgpid_only p (k ∷ ks) o l = ground (arith, fgpid_only p ks)

-- The first job that a test finds
abbrev pub first_of : (Job → Bool) → List Job → Option Job
first_of is [] = none
first_of is (k ∷ ks) = if is k then some k else first_of is ks

with_pid-first_of : (p : ℕ) (ks : List Job) → with_pid p ks ≡ first_of (λ k. k.pid == p) ks
with_pid-first_of p [] = refl
with_pid-first_of p (k ∷ ks) = ap (λ o. if k.pid == p then some k else o) (with_pid-first_of p ks)

with_jid-first_of : (j : ℕ) (ks : List Job) → with_jid j ks ≡ first_of (λ k. k.jid == j) ks
with_jid-first_of j [] = refl
with_jid-first_of j (k ∷ ks) = ap (λ o. if k.jid == j then some k else o) (with_jid-first_of j ks)

first_pid :
    (p : ℕ) (ks : List Job) (job : Job) → first_of (λ k. k.pid == p) ks ≡ some job → job.pid ≡ p
first_pid p [] job e = cc
first_pid p (k ∷ ks) job e = ground (arith, first_pid p ks job)

first_jid :
    (j : ℕ) (ks : List Job) (job : Job) → first_of (λ k. k.jid == j) ks ≡ some job → job.jid ≡ j
first_jid j [] job e = cc
first_jid j (k ∷ ks) job e = ground (arith, first_jid j ks job)

pub getjobpid-first_of :
    (p : ℕ) (ks : List Job) (job : Job)
    → getjobpid (pos p) ks ≡ some job
    → (first_of (λ k. k.pid == p) ks ≡ some job) × (0 < job.pid + job.jid)
unfolding getjobpid
getjobpid-first_of p ks job e =
    let f : first_of (λ k. k.pid == p) ks ≡ some job = ground (arith, with_pid-first_of p ks) in
    (f, ground (arith, first_pid p ks job f))

pub getjobjid-first_of :
    (j : ℕ) (ks : List Job) (job : Job)
    → getjobjid (pos j) ks ≡ some job
    → (first_of (λ k. k.jid == j) ks ≡ some job) × (0 < job.pid + job.jid)
unfolding getjobjid
getjobjid-first_of j ks job e =
    let f : first_of (λ k. k.jid == j) ks ≡ some job = ground (arith, with_jid-first_of j ks) in
    (f, ground (arith, first_jid j ks job f))

pub getjobpid_absent :
    (p : ℕ) (ks : List Job) → 0 < p → getjobpid (pos p) ks ≡ none → with_pid p ks ≡ none
unfolding getjobpid
getjobpid_absent p ks l e = ground arith

pub getjobpid_negative : (n : ℕ) (ks : List Job) → getjobpid (negsuc n) ks ≡ none
unfolding getjobpid
getjobpid_negative n ks = refl

pub getjobjid_negative : (n : ℕ) (ks : List Job) → getjobjid (negsuc n) ks ≡ none
unfolding getjobjid
getjobjid_negative n ks = refl

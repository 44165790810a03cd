-- ===== src/Shell/Control/Listed.antt =====
-- What the built-in command "jobs" prints in the shell under every sequence of command lines and
-- signals.
use s_system_programmin.Common.{
  ℕ, suc, ◌<◌, ◌≡◌, ◌≢◌, refl, subst, sym, false, inl, inr, List, [], ◌∷◌, ◌++◌, ◌==◌,
  if◌then◌else◌, arith, codes, decimal,
}
use s_system_programmin.Shell.Jobs.{State, undef, fg, bg, st, Job, cleared, is_fg}
use s_system_programmin.Shell.Jobs.Table.{Table}
use s_system_programmin.Shell.Jobs.Foreground.{fg_count}
use s_system_programmin.Shell.Jobs.Listing.{listjobs, listed_from, job_text}
use s_system_programmin.Shell.Control.{Control, prompt}
use s_system_programmin.Shell.Control.Foreground.{Foreground, Reach, Reach-Foreground}
use s_system_programmin.Shell.Control.Waiting.{Reach-Tabled}

-- The text says of a job in the background that it runs, of a stopped one that it is stopped.
pub data Listed : List Job → List ℕ → Type 0 where
  nothing : Listed [] []
  empty_slot : {ks : List Job} {text : List ℕ} → Listed ks text → Listed (cleared ∷ ks) text
  running_slot :
      {ks : List Job} {text : List ℕ} (pid jid : ℕ) (cmdline : List ℕ)
      → (0 < pid) × (0 < jid)
      → Listed ks text
      → Listed (record { pid = pid; jid = jid; state = bg; cmdline = cmdline } ∷ ks) (
          (codes "["
            ++ decimal jid
            ++ codes "] ("
            ++ decimal pid
            ++ codes ") "
            ++ codes "Running "
            ++ cmdline)
          ++ text)
  stopped_slot :
      {ks : List Job} {text : List ℕ} (pid jid : ℕ) (cmdline : List ℕ)
      → (0 < pid) × (0 < jid)
      → Listed ks text
      → Listed (record { pid = pid; jid = jid; state = st; cmdline = cmdline } ∷ ks) (
          (codes "["
            ++ decimal jid
            ++ codes "] ("
            ++ decimal pid
            ++ codes ") "
            ++ codes "Stopped "
            ++ cmdline)
          ++ text)

job-Listed :
    (i pid jid : ℕ) (state : State) (cmdline : List ℕ) (ks : List Job) (text : List ℕ)
    → (0 < pid) × (0 < jid)
    → state ≢ undef
    → is_fg state ≡ false
    → Listed ks text
    → Listed
        (record { pid = pid; jid = jid; state = state; cmdline = cmdline } ∷ ks)
        (job_text i (record { pid = pid; jid = jid; state = state; cmdline = cmdline }) ++ text)
job-Listed i pid jid undef cmdline ks text p d f l = absurd (d refl)
job-Listed i pid jid fg cmdline ks text p d f l = cc
job-Listed i pid jid bg cmdline ks text p d f l = running_slot pid jid cmdline p l
job-Listed i pid jid st cmdline ks text p d f l = stopped_slot pid jid cmdline p l

listed_from-Listed :
    (i : ℕ) (ks : List Job) → Table ks → fg_count ks ≡ 0 → Listed ks (listed_from i ks)
listed_from-Listed i [] t f = nothing
listed_from-Listed i (k ∷ ks) t f =
    let rest = listed_from-Listed (suc i) ks t.2 (ground arith) in
    elim t.0 [
      | inl e ↦
          subst
            (λ j. Listed (j ∷ ks) (
              if j.pid == 0
              then listed_from (suc i) ks
              else job_text i j ++ listed_from (suc i) ks))
            (sym e) (empty_slot rest)
      | inr (p, j, d) ↦
          let full : (k.pid == 0) ≡ false = ground arith in
          rw full (
            job-Listed i k.pid k.jid k.state k.cmdline ks (listed_from (suc i) ks) (p, j) d
              (ground arith) rest)
    ]

-- In every shell that command lines and signals lead to, if `fork` only returns processes that are no
-- jobs yet, "jobs" at the prompt prints for each job, in the order of the slots, its job ID, its process
-- ID, "Running" or "Stopped", and its command line. It says of no job that it is in the foreground,
-- and reports no internal error.
pub Reach-Listed : (c : Control) → Reach c → c.mode ≡ prompt → Listed c.jobs (listjobs c.jobs)
unfolding listjobs
Reach-Listed c r e =
    listed_from-Listed 0 c.jobs (Reach-Tabled r).0
      (subst (λ m. Foreground m c.jobs) e (Reach-Foreground r))

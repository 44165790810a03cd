-- ===== src/Shell/Control/Waiting.antt =====
-- The job list of the shell under every sequence of command lines and signals.
use s_system_programmin.Common.{
  ℕ, zero, suc, ◌+◌, ◌<◌, ◌≡◌, ◌≢◌, refl, ap, subst, ◌∙◌, Bool, true, false, Bool-cases, inl, inr,
  Option, none, some, List, [], ◌∷◌, ℤ, pos, negsuc, ltb, if◌then◌else◌, arith,
}
use s_system_programmin.Shell.Jobs.{
  State, undef, fg, bg, st, Job, Shell, maxjobs, initjobs, addjob, deletejob, fgpid, getjobpid,
  with_pid,
}
use s_system_programmin.Shell.Jobs.Table.{
  Slot, Table, Adds, no_slot, adds, addjob-Adds, Deletes, no_job, deletes, deletejob-Deletes,
}
use s_system_programmin.Shell.Jobs.Foreground.{
  first_of, addjob_failed, deletejob_zero, getjobpid-first_of,
}
use s_system_programmin.Shell.Parse.{Line, line, out_of_bounds, parseline}
use s_system_programmin.Shell.Control.{
  Signal, sigint, sigtstp, Control, Status, start, set_state, has_pid, find_target, resume, do_bgfg,
  builtin_cmd, argument, launch, eval, eval_line, runs, reported, sigchld_handler, forward,
  sigint_handler, sigtstp_handler, sigquit_handler, stopped, signaled, normal, Target, target,
  refused,
}
use s_system_programmin.Shell.Control.Foreground.{
  New, Reach, starts, types, child, int, tstp, quit, wakes, Aims, aims, find_target-Aims, Built,
  done, no_builtin, builtin_cmd-Built,
}

-- The job list is well-formed, and the next job ID positive.
abbrev pub Tabled : Shell → Type 0
Tabled s = Table s.jobs × (0 < s.nextjid)

added-Tabled :
    (p : ℕ) (state : State) (cmdline : List ℕ) (s : Shell) (r : Shell × Bool)
    → Tabled s
    → Adds s p state cmdline r
    → Tabled r.0
added-Tabled p state cmdline s (_, _) t (no_slot _) = t
added-Tabled p state cmdline s (r, _) t (adds table _ _ next) = (table, ground (arith, next))

initjobs-Table : (n : ℕ) → Table (initjobs n)
initjobs-Table zero = tt
initjobs-Table (suc n) = (inl refl, (λ l. absurd (omega (arith, l))), initjobs-Table n)

addjob-Tabled :
    (pid : ℤ) (state : State) (cmdline : List ℕ) (s : Shell)
    → Tabled s
    → New pid s.jobs
    → state ≢ undef
    → Tabled (addjob pid state cmdline s).0
addjob-Tabled (negsuc n) state cmdline s t new d = rw (addjob_failed n state cmdline s) t
addjob-Tabled (pos p) state cmdline s t new d =
    added-Tabled p state cmdline s (addjob (pos p) state cmdline s) t
      (addjob-Adds s p state cmdline t.0 t.1 new.0 new.1 d)

-- What `deletejob` of a process leaves: a well-formed list without it
deleted-Tabled :
    (p : ℕ) (s : Shell) (r : Shell × Bool)
    → 0 < p
    → Tabled s
    → Deletes s p r
    → Tabled r.0 × (with_pid p r.0.jobs ≡ none)
deleted-Tabled p s (_, _) l t (no_job e) = (t, e)
deleted-Tabled p s (_, _) l t (deletes table same _ next) =
    ((table, ground (arith, next)), same p l ∙ ground arith)

pub deletejob_gone :
    (p : ℕ) (s : Shell)
    → 0 < p
    → Tabled s
    → Tabled (deletejob (pos p) s).0 × (with_pid p (deletejob (pos p) s).0.jobs ≡ none)
deletejob_gone p s l t = deleted-Tabled p s (deletejob (pos p) s) l t (deletejob-Deletes s p t.0 l)

deletejob-Tabled : (p : ℕ) (s : Shell) → Tabled s → Tabled (deletejob (pos p) s).0
deletejob-Tabled zero s t = rw (deletejob_zero s) t
deletejob-Tabled (suc p) s t = let (kept, _) = deletejob_gone (suc p) s (omega arith) t in kept

set_state-other :
    (is : Job → Bool) (state : State) (p : ℕ) (ks : List Job)
    → with_pid p ks ≡ none
    → with_pid p (set_state is state ks) ≡ none
set_state-other is state p [] e = refl
set_state-other is state p (k ∷ ks) e = elim (Bool-cases (is k)) [
  | inl a ↦ rw a (ground arith)
  | inr a ↦ rw a (ground (arith, set_state-other is state p ks))
]

set_state-Table :
    (is : Job → Bool) (state : State) (ks : List Job) (job : Job)
    → state ≢ undef
    → first_of is ks ≡ some job
    → 0 < job.pid + job.jid
    → Table ks
    → Table (set_state is state ks)
set_state-Table is state [] job d f l t = tt
set_state-Table is state (k ∷ ks) job d f l t = elim (Bool-cases (is k)) [
  | inl a ↦
      let same : some k ≡ some job =
        subst (λ b. (if b then some k else first_of is ks) ≡ some job) a f in
      let positive : 0 < k.pid + k.jid = ground (arith, same) in
      let slot : Slot (record k { state = state }) = elim t.0 [
        | inl c ↦ absurd (omega (arith, ap (λ j. j.pid) c, ap (λ j. j.jid) c, positive))
        | inr (p, j, _) ↦ inr (p, j, d)
      ] in
      rw a (slot, t.1, t.2)
  | inr a ↦
      let rest = subst (λ b. (if b then some k else first_of is ks) ≡ some job) a f in
      rw a (
        t.0,
        (λ p. set_state-other is state k.pid ks (t.1 p)),
        set_state-Table is state ks job d rest l t.2,
      )
]

resume-Tabled :
    (ok background : Bool) (c : Control) (t : Target)
    → Aims c.jobs t
    → Tabled c.shell
    → Tabled (resume ok background t c).0.shell
resume-Tabled ok background c (refused m) a t = t
resume-Tabled false background c (target is job) a t = t
resume-Tabled true true c (target _ _) (aims is job f l) t =
    (set_state-Table is bg c.jobs job (λ e. cc) f l t.0, t.1)
resume-Tabled true false c (target _ _) (aims is job f l) t =
    (set_state-Table is fg c.jobs job (λ e. cc) f l t.0, t.1)

do_bgfg-Tabled :
    (ok background : Bool) (id : Option (List ℕ)) (c : Control)
    → Tabled c.shell
    → Tabled (do_bgfg ok background id c).0.shell
unfolding do_bgfg
do_bgfg-Tabled ok background id c t =
    resume-Tabled ok background c (find_target id c.jobs) (find_target-Aims id c.jobs) t

abbrev TabledShell : Control → Type 0
TabledShell c = Tabled c.shell

command-Tabled :
    (background : Bool) (pid : ℤ) (cmdline : List ℕ) (c : Control) (r : Control × Bool)
    → Built TabledShell c r
    → Tabled c.shell
    → New pid c.jobs
    → Tabled (if r.1 then r.0 else launch background pid cmdline r.0).shell
command-Tabled background pid cmdline c (d, true) (done _ k) t new = k
command-Tabled true pid cmdline c (d, false) no_builtin t new =
    addjob-Tabled pid bg cmdline d.shell t new (λ e. cc)
command-Tabled false pid cmdline c (d, false) no_builtin t new =
    addjob-Tabled pid fg cmdline d.shell t new (λ e. cc)

abbrev TabledSome : Option Control → Type 0
TabledSome none = Unit {0}
TabledSome (some d) = Tabled d.shell

eval-Tabled :
    (ok : Bool) (pid : ℤ) (cmdline : List ℕ) (o : Option Line) (c : Control)
    → Tabled c.shell
    → New pid c.jobs
    → TabledSome (eval_line ok pid cmdline o c)
unfolding eval_line
eval-Tabled ok pid cmdline none c t new = tt
eval-Tabled ok pid cmdline (some out_of_bounds) c t new = t
eval-Tabled ok pid cmdline (some (line [] background)) c t new = t
eval-Tabled ok pid cmdline (some (line (cmd ∷ args) background)) c t new =
    command-Tabled background pid cmdline c (builtin_cmd ok cmd args c)
      (builtin_cmd-Built TabledShell ok cmd args c t t
        (λ background. do_bgfg-Tabled ok background (argument args) c t))
      t new

pub reported-Tabled :
    (pid : ℕ) (status : Status) (o : Option Job) (c : Control)
    → getjobpid (pos pid) c.jobs ≡ o
    → Tabled c.shell
    → Tabled (reported pid status o c).shell
reported-Tabled pid stopped none c e t = t
reported-Tabled pid stopped (some job) c e t =
    let (f, l) = getjobpid-first_of pid c.jobs job e in
    (set_state-Table (has_pid (pos pid)) st c.jobs job (λ d. cc) f l t.0, t.1)
reported-Tabled pid signaled o c e t = deletejob-Tabled pid c.shell t
reported-Tabled pid normal o c e t = deletejob-Tabled pid c.shell t

if-Tabled :
    (b : Bool) (c d : Control) → Tabled c.shell → Tabled d.shell → Tabled (if b then c else d).shell
if-Tabled true c d a b = a
if-Tabled false c d a b = b

sigchld_handler-Tabled :
    (reports : List (ℕ × Status)) (c : Control)
    → Tabled c.shell
    → Tabled (sigchld_handler reports c).shell
unfolding sigchld_handler
sigchld_handler-Tabled [] c t = t
sigchld_handler-Tabled ((pid, status) ∷ more) c t =
    let d = reported pid status (getjobpid (pos pid) c.jobs) c in
    let kept = reported-Tabled pid status (getjobpid (pos pid) c.jobs) c refl t in
    if-Tabled (runs d.mode) (sigchld_handler more d) d (sigchld_handler-Tabled more d kept) kept

forward-Tabled :
    (ok : Bool) (signal : Signal) (c : Control)
    → Tabled c.shell
    → Tabled (forward ok signal c).shell
forward-Tabled ok signal c t = elim (Bool-cases (ltb 0 (fgpid c.jobs))) [
  | inl e ↦ elim (Bool-cases ok) [ inl o ↦ rw (e, o) t | inr o ↦ rw (e, o) t ]
  | inr e ↦ rw e t
]

-- Whatever is typed and whatever signals arrive between the commands and in the loop of `waitfg`, if
-- `fork` only returns processes that are no jobs yet, the job list stays well-formed (each slot is cleared
-- or holds a process, a job ID and a state, and no process is in two slots), and the next job ID
-- positive.
pub Reach-Tabled : {c : Control} → Reach c → Tabled c.shell
unfolding start eval sigint_handler sigtstp_handler sigquit_handler
Reach-Tabled starts = (initjobs-Table maxjobs, omega arith)
Reach-Tabled (types {c} ok pid cmdline r e new f) =
    subst TabledSome f (eval-Tabled ok pid cmdline (parseline cmdline) c (Reach-Tabled r) new)
Reach-Tabled (child {c} reports r e) = sigchld_handler-Tabled reports c (Reach-Tabled r)
Reach-Tabled (int {c} ok r e) = forward-Tabled ok sigint c (Reach-Tabled r)
Reach-Tabled (tstp {c} ok r e) = forward-Tabled ok sigtstp c (Reach-Tabled r)
Reach-Tabled (quit r e) = Reach-Tabled r
Reach-Tabled (wakes pid r e f) = Reach-Tabled r

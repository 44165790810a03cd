-- ===== src/Shell/Control/Foreground.antt =====
-- The foreground job of the shell under every sequence of command lines, signals and turns of the loop
-- in `waitfg`.
use s_system_programmin.Common.{
  is_digit, ℕ, ◌+◌, ◌≤◌, ◌<◌, ◌≡◌, refl, subst, Bool, true, false, Bool-cases, inl, inr, Option,
  none, some, List, [], ◌∷◌, ℤ, pos, negsuc, ltb, ◌==◌, if◌then◌else◌, arith, same_string,
}
use s_system_programmin.Shell.Jobs.{
  State, fg, bg, st, Job, is_fg, deletejob, fgpid, getjobpid, getjobjid, with_pid,
}
use s_system_programmin.Shell.Jobs.Foreground.{
  fg_count, fg_only, one_if, addjob-fg_count, addjob-fg_only, addjob_failed, deletejob-fg_count,
  deletejob-fg_only, fgpid_none, fg_only_none, fgpid_gone, fgpid_only, first_of, getjobpid-first_of,
  getjobjid-first_of, getjobpid_negative, getjobjid_negative,
}
use s_system_programmin.Shell.Parse.{Line, line, out_of_bounds, parseline}
use s_system_programmin.Shell.Control.{
  Signal, sigint, sigtstp, Mode, prompt, waiting, exited, crashed, Control, Status, start,
  set_state, has_pid, has_jid, find_target, resume, do_bgfg, needs_argument, no_such_job,
  no_such_process, bad_argument, percent, atoi, builtin_cmd, argument, quit_word, jobs_word,
  bg_word, fg_word, launch, eval, eval_line, waits_on, runs, reported, sigchld_handler, forward,
  kill, sigint_handler, sigtstp_handler, sigquit_handler, stopped, signaled, normal, Target, target,
  refused, found, Message,
}

-- No job is in the foreground at the prompt; at most one is in the loop of `waitfg`, the one that the
-- shell waits for.
abbrev pub Foreground : Mode → List Job → Type 0
Foreground prompt js = fg_count js ≡ 0
Foreground (waiting (pos p)) js = (fg_count js ≤ 1) × (fg_only p js ≡ true)
Foreground (waiting (negsuc _)) js = fg_count js ≡ 0
Foreground exited js = Unit {0}
Foreground crashed js = Unit {0}

-- A process that `fork` returns is no job yet; or `fork` has failed.
abbrev pub New : ℤ → List Job → Type 0
New (pos p) js = (0 < p) × (with_pid p js ≡ none)
New (negsuc _) js = Unit {0}

-- What can happen to the shell. A signal arrives between two commands or in the loop of `waitfg`, as
-- `eval` blocks signals around `fork`; `do_bgfg`, which does not, is taken as one step, too.
pub data Reach : Control → Type 0 where
  starts : Reach start
  types :
      {c d : Control} (ok : Bool) (pid : ℤ) (cmdline : List ℕ)
      → Reach c
      → c.mode ≡ prompt
      → New pid c.jobs
      → eval ok pid cmdline c ≡ some d
      → Reach d
  child :
      {c : Control} (reports : List (ℕ × Status))
      → Reach c
      → runs c.mode ≡ true
      → Reach (sigchld_handler reports c)
  int : {c : Control} (ok : Bool) → Reach c → runs c.mode ≡ true → Reach (sigint_handler ok c)
  tstp : {c : Control} (ok : Bool) → Reach c → runs c.mode ≡ true → Reach (sigtstp_handler ok c)
  quit : {c : Control} → Reach c → runs c.mode ≡ true → Reach (sigquit_handler c)
  wakes :
      {c : Control} (pid : ℤ)
      → Reach c
      → c.mode ≡ waiting pid
      → waits_on pid c.jobs ≡ false
      → Reach (record c { mode = prompt })

-- What `job->state = state` does to the foreground
pub set_state-fg_count :
    (is : Job → Bool) (state : State) (ks : List Job)
    → fg_count (set_state is state ks) ≤ fg_count ks + one_if (is_fg state)
set_state-fg_count is state [] = omega arith
set_state-fg_count is state (k ∷ ks) = elim (Bool-cases (is k)) [
  | inl e ↦ rw e (ground arith)
  | inr e ↦ rw e (ground (arith, set_state-fg_count is state ks))
]

pub set_state-fg_only :
    (is : Job → Bool) (state : State) (p : ℕ) (ks : List Job)
    → is_fg state ≡ false
    → fg_only p ks ≡ true
    → fg_only p (set_state is state ks) ≡ true
set_state-fg_only is state p [] n o = refl
set_state-fg_only is state p (k ∷ ks) n o = elim (Bool-cases (is k)) [
  | inl e ↦ rw e (ground arith)
  | inr e ↦ rw e (ground (arith, set_state-fg_only is state p ks n))
]

raise-fg_only :
    (is : Job → Bool) (job : Job) (ks : List Job)
    → first_of is ks ≡ some job
    → fg_only job.pid ks ≡ true
    → fg_only job.pid (set_state is fg ks) ≡ true
raise-fg_only is job [] e o = refl
raise-fg_only is job (k ∷ ks) e o = elim (Bool-cases (is k)) [
  | inl f ↦
      rw f (ground (arith, (subst (λ b. (if b then some k else first_of is ks) ≡ some job) f e)))
  | inr f ↦ rw f (
      ground (
        arith,
        raise-fg_only is job ks
            (subst (λ b. (if b then some k else first_of is ks) ≡ some job) f e),
      ))
]

-- A target of `do_bgfg` is the first job that its test finds.
pub data Aims (js : List Job) : Target → Type 0 where
  refuses : (m : Message) → Aims js (refused m)
  aims :
      (is : Job → Bool) (job : Job)
      → first_of is js ≡ some job
      → 0 < job.pid + job.jid
      → Aims js (target is job)

found-Aims :
    (m : Message) (is : Job → Bool) (js : List Job) (o : Option Job)
    → ((job : Job) → o ≡ some job → (first_of is js ≡ some job) × (0 < job.pid + job.jid))
    → Aims js (found m is o)
found-Aims m is js none f = refuses m
found-Aims m is js (some job) f = let (a, b) = f job refl in aims is job a b

pid-Aims : (m : Message) (p : ℤ) (js : List Job) → Aims js (found m (has_pid p) (getjobpid p js))
pid-Aims m (pos p) js =
    found-Aims m (has_pid (pos p)) js (getjobpid (pos p) js) (getjobpid-first_of p js)
pid-Aims m (negsuc n) js = rw (getjobpid_negative n js) (refuses m)

jid-Aims : (m : Message) (j : ℤ) (js : List Job) → Aims js (found m (has_jid j) (getjobjid j js))
jid-Aims m (pos j) js =
    found-Aims m (has_jid (pos j)) js (getjobjid (pos j) js) (getjobjid-first_of j js)
jid-Aims m (negsuc n) js = rw (getjobjid_negative n js) (refuses m)

if-Aims :
    {js : List Job} (b : Bool) {t u : Target} → Aims js t → Aims js u → Aims js (if b then t else u)
if-Aims true x y = x
if-Aims false x y = y

pub find_target-Aims : (id : Option (List ℕ)) (js : List Job) → Aims js (find_target id js)
unfolding find_target
find_target-Aims none js = refuses needs_argument
find_target-Aims (some []) js = refuses bad_argument
find_target-Aims (some (c ∷ cs)) js =
    if-Aims (c == percent) (jid-Aims no_such_job (atoi cs) js)
      (if-Aims (is_digit c) (pid-Aims no_such_process (atoi (c ∷ cs)) js) (refuses bad_argument))

-- The shell keeps its foreground.
abbrev Keeps : Control → Type 0
Keeps c = Foreground c.mode c.jobs

resume-Keeps :
    (ok background : Bool) (c : Control) (t : Target)
    → Aims c.jobs t
    → c.mode ≡ prompt
    → fg_count c.jobs ≡ 0
    → Keeps (resume ok background t c).0
resume-Keeps ok background c (refused m) a e n = rw e n
resume-Keeps false background c (target is job) a e n = tt
resume-Keeps true true c (target is job) a e n =
    rw e (omega (arith, n, set_state-fg_count is bg c.jobs))
resume-Keeps true false c (target _ _) (aims is job f _) e n = (
  omega (arith, n, set_state-fg_count is fg c.jobs),
  raise-fg_only is job c.jobs f (fg_only_none job.pid c.jobs n),
)

do_bgfg-Keeps :
    (ok background : Bool) (id : Option (List ℕ)) (c : Control)
    → c.mode ≡ prompt
    → fg_count c.jobs ≡ 0
    → Keeps (do_bgfg ok background id c).0
unfolding do_bgfg
do_bgfg-Keeps ok background id c e n =
    resume-Keeps ok background c (find_target id c.jobs) (find_target-Aims id c.jobs) e n

-- What a command comes to: a built-in one is done, another one leaves the shell alone.
pub data Built (P : Control → Type 0) (c : Control) : Control × Bool → Type 0 where
  done : (d : Control) → P d → Built P c (d, true)
  no_builtin : Built P c (c, false)

if-Built :
    (b : Bool) {P : Control → Type 0} {c : Control} {r q : Control × Bool}
    → Built P c r
    → Built P c q
    → Built P c (if b then r else q)
if-Built true x y = x
if-Built false x y = y

pub builtin_cmd-Built :
    (P : Control → Type 0) (ok : Bool) (cmd : List ℕ) (args : List (List ℕ)) (c : Control)
    → P (record c { mode = exited })
    → P c
    → ((background : Bool) → P (do_bgfg ok background (argument args) c).0)
    → Built P c (builtin_cmd ok cmd args c)
unfolding builtin_cmd
builtin_cmd-Built P ok cmd args c quits stays job =
    if-Built (same_string cmd quit_word) (done (record c { mode = exited }) quits) (
      if-Built (same_string cmd jobs_word) (done c stays) (
        if-Built (same_string cmd bg_word) (done (do_bgfg ok true (argument args) c).0 (job true)) (
          if-Built (same_string cmd fg_word)
            (done (do_bgfg ok false (argument args) c).0 (job false)) no_builtin)))

launch-Keeps :
    (background : Bool) (pid : ℤ) (cmdline : List ℕ) (c : Control)
    → c.mode ≡ prompt
    → fg_count c.jobs ≡ 0
    → Keeps (launch background pid cmdline c)
launch-Keeps true pid cmdline c e n =
    rw e (omega (arith, n, addjob-fg_count pid bg cmdline c.shell))
launch-Keeps false (pos p) cmdline c e n = (
  omega (arith, n, addjob-fg_count (pos p) fg cmdline c.shell),
  addjob-fg_only p fg cmdline c.shell (fg_only_none p c.jobs n),
)
launch-Keeps false (negsuc k) cmdline c e n = rw (addjob_failed k fg cmdline c.shell) n

abbrev KeepsSome : Option Control → Type 0
KeepsSome none = Unit {0}
KeepsSome (some d) = Keeps d

command-Keeps :
    (background : Bool) (pid : ℤ) (cmdline : List ℕ) (c : Control) (r : Control × Bool)
    → Built Keeps c r
    → c.mode ≡ prompt
    → fg_count c.jobs ≡ 0
    → Keeps (if r.1 then r.0 else launch background pid cmdline r.0)
command-Keeps background pid cmdline c (d, true) (done _ k) e n = k
command-Keeps background pid cmdline c (d, false) no_builtin e n =
    launch-Keeps background pid cmdline d e n

eval-Keeps :
    (ok : Bool) (pid : ℤ) (cmdline : List ℕ) (o : Option Line) (c : Control)
    → c.mode ≡ prompt
    → fg_count c.jobs ≡ 0
    → KeepsSome (eval_line ok pid cmdline o c)
unfolding eval_line
eval-Keeps ok pid cmdline none c e n = tt
eval-Keeps ok pid cmdline (some out_of_bounds) c e n = tt
eval-Keeps ok pid cmdline (some (line [] background)) c e n = tt
eval-Keeps ok pid cmdline (some (line (cmd ∷ args) background)) c e n =
    command-Keeps background pid cmdline c (builtin_cmd ok cmd args c)
      (builtin_cmd-Built Keeps ok cmd args c tt (rw e n)
        (λ background. do_bgfg-Keeps ok background (argument args) c e n))
      e n

-- The foreground shrinks, or stays as it is.
fewer :
    (m : Mode) (js ks : List Job)
    → fg_count ks ≤ fg_count js
    → ((p : ℕ) → fg_only p js ≡ true → fg_only p ks ≡ true)
    → Foreground m js
    → Foreground m ks
fewer prompt js ks l o f = omega arith
fewer (waiting (pos p)) js ks l o (n, a) = (omega arith, o p a)
fewer (waiting (negsuc _)) js ks l o f = omega arith
fewer exited js ks l o f = tt
fewer crashed js ks l o f = tt

reported-Keeps :
    (pid : ℕ) (status : Status) (o : Option Job) (c : Control)
    → Keeps c
    → Keeps (reported pid status o c)
reported-Keeps pid stopped none c k = tt
reported-Keeps pid stopped (some job) c k =
    fewer c.mode c.jobs (set_state (has_pid (pos pid)) st c.jobs)
      (omega (arith, set_state-fg_count (has_pid (pos pid)) st c.jobs))
      (λ p o. set_state-fg_only (has_pid (pos pid)) st p c.jobs refl o) k
reported-Keeps pid signaled o c k =
    fewer c.mode c.jobs (deletejob (pos pid) c.shell).0.jobs (deletejob-fg_count (pos pid) c.shell)
      (λ p a. deletejob-fg_only p (pos pid) c.shell a) k
reported-Keeps pid normal o c k =
    fewer c.mode c.jobs (deletejob (pos pid) c.shell).0.jobs (deletejob-fg_count (pos pid) c.shell)
      (λ p a. deletejob-fg_only p (pos pid) c.shell a) k

if-Keeps : (b : Bool) (c d : Control) → Keeps c → Keeps d → Keeps (if b then c else d)
if-Keeps true c d a b = a
if-Keeps false c d a b = b

sigchld_handler-Keeps :
    (reports : List (ℕ × Status)) (c : Control) → Keeps c → Keeps (sigchld_handler reports c)
unfolding sigchld_handler
sigchld_handler-Keeps [] c k = k
sigchld_handler-Keeps ((pid, status) ∷ more) c k =
    let d = reported pid status (getjobpid (pos pid) c.jobs) c in
    let kept = reported-Keeps pid status (getjobpid (pos pid) c.jobs) c k in
    if-Keeps (runs d.mode) (sigchld_handler more d) d (sigchld_handler-Keeps more d kept) kept

kill-Keeps :
    (ok : Bool) (signal : Signal) (pid : ℕ) (c : Control) → Keeps c → Keeps (kill ok signal pid c)
kill-Keeps true signal pid c k = k
kill-Keeps false signal pid c k = tt

forward-Keeps : (ok : Bool) (signal : Signal) (c : Control) → Keeps c → Keeps (forward ok signal c)
forward-Keeps ok signal c k = elim (Bool-cases (ltb 0 (fgpid c.jobs))) [
  | inl e ↦ rw e (kill-Keeps ok signal (fgpid c.jobs) c k)
  | inr e ↦ rw e k
]

-- The loop of `waitfg` ends when no job is in the foreground.
woken :
    (pid : ℤ) (ks : List Job)
    → Foreground (waiting pid) ks
    → waits_on pid ks ≡ false
    → fg_count ks ≡ 0
unfolding waits_on
woken (pos p) ks f e = fgpid_gone p ks f.1 e
woken (negsuc _) ks f e = f

-- Whatever is typed and whatever signals arrive between the commands and in the loop of `waitfg`, if
-- `fork` only returns processes that are no jobs yet, the shell has no foreground job at the prompt,
-- and at most one in that loop, which is the process that it waits for.
pub Reach-Foreground : {c : Control} → Reach c → Foreground c.mode c.jobs
unfolding start eval sigint_handler sigtstp_handler sigquit_handler
Reach-Foreground starts = refl
Reach-Foreground (types {c} ok pid cmdline r e new f) = subst KeepsSome f (
    eval-Keeps ok pid cmdline (parseline cmdline) c e
      (subst (λ m. Foreground m c.jobs) e (Reach-Foreground r)))
Reach-Foreground (child {c} reports r e) = sigchld_handler-Keeps reports c (Reach-Foreground r)
Reach-Foreground (int {c} ok r e) = forward-Keeps ok sigint c (Reach-Foreground r)
Reach-Foreground (tstp {c} ok r e) = forward-Keeps ok sigtstp c (Reach-Foreground r)
Reach-Foreground (quit r e) = tt
Reach-Foreground (wakes {c} pid r e f) =
    woken pid c.jobs (subst (λ m. Foreground m c.jobs) e (Reach-Foreground r)) f

-- Where a signal from the keyboard goes: to nobody, or to the process that the shell waits for.
pub data Forwards (c : Control) (signal : Signal) : Control → Type 0 where
  to_nobody : Forwards c signal c
  to_job :
      {p : ℕ}
      → c.mode ≡ waiting (pos p)
      → fgpid c.jobs ≡ p
      → Forwards c signal (record c { sent = (signal, p) ∷ c.sent })

forward-Forwards :
    (c : Control) (signal : Signal) (m : Mode)
    → c.mode ≡ m
    → Foreground m c.jobs
    → runs m ≡ true
    → Forwards c signal (forward true signal c)
forward-Forwards c signal prompt e f a =
    let none_there : ltb 0 (fgpid c.jobs) ≡ false = ground (arith, fgpid_none c.jobs f) in
    rw none_there to_nobody
forward-Forwards c signal (waiting (pos p)) e f a = elim (Bool-cases (ltb 0 (fgpid c.jobs))) [
  | inl l ↦ let same = fgpid_only p c.jobs f.1 (ground arith) in rw (l, same) (to_job e same)
  | inr l ↦ rw l to_nobody
]
forward-Forwards c signal (waiting (negsuc _)) e f a =
    let none_there : ltb 0 (fgpid c.jobs) ≡ false = ground (arith, fgpid_none c.jobs f) in
    rw none_there to_nobody
forward-Forwards c signal exited e f a = cc
forward-Forwards c signal crashed e f a = cc

-- Behind every sequence of commands, and of signals between them and in the loop of `waitfg`, a SIGINT
-- or SIGTSTP that the keyboard sends to a shell that runs, if `kill` succeeds, is passed on
-- to nobody, or to the process that `waitfg` waits for, which is then the foreground job; nothing else
-- changes.
pub Reach-Forwards :
    (c : Control)
    → Reach c
    → runs c.mode ≡ true
    → Forwards c sigint (sigint_handler true c) × Forwards c sigtstp (sigtstp_handler true c)
unfolding sigint_handler sigtstp_handler
Reach-Forwards c r a =
    let f = Reach-Foreground r in
    (forward-Forwards c sigint c.mode refl f a, forward-Forwards c sigtstp c.mode refl f a)

-- ===== src/Shell/Control.antt =====
-- Process control of Lab/lab2/shlab/tsh.c: `eval` with the built-in commands, `waitfg`, and the signal
-- handlers. What the kernel returns is an argument: the process that `fork` made, whether `kill`
-- succeeded, and what `waitpid` reports. The child's side of `eval` and what is printed are left out,
-- but for the messages that end `do_bgfg`; the text of "jobs" is in Shell/Jobs/Listing.antt.
pub mod Foreground
pub mod Waiting
pub mod Wakes
pub mod Listed
mod Tests
use s_system_programmin.Common.{
  ℕ, zero, suc, ◌+◌, ◌-◌, ◌*◌, Bool, true, false, ◌&&◌, ◌||◌, Option, none, some, List, [], ◌∷◌, ℤ,
  pos, negsuc, ltb, leb, ◌==◌, if◌then◌else◌, same_string, is_digit, is_space,
}
use s_system_programmin.Shell.Jobs.{
  State, fg, bg, st, Job, Shell, maxjobs, initjobs, addjob, deletejob, fgpid, getjobpid, getjobjid,
}
use s_system_programmin.Shell.Parse.{Line, line, out_of_bounds, parseline, starts_with}

pub data Signal : Type 0 where
  sigint sigtstp sigcont : Signal

-- Where the shell is: at the prompt, in the loop of `waitfg`, ended by `exit`, or behind an access
-- through NULL or out of bounds.
pub data Mode : Type 0 where
  prompt : Mode
  waiting : (pid : ℤ) → Mode
  exited : Mode
  crashed : Mode

-- The job list, the mode, and the signals sent to process groups, the last one first
pub record Control : Type 0 where
  pub shell : Shell
  pub open shell use *
  pub mode : Mode
  pub sent : List (Signal × ℕ)

-- What `waitpid` says of a child
pub data Status : Type 0 where
  stopped signaled normal : Status

unfoldable pub start : Control
start = record { shell = record { jobs = initjobs maxjobs; nextjid = 1 }; mode = prompt; sent = [] }

-- The number in front of a string, as `atoi` reads it
abbrev pub digits : (value : ℕ) → List ℕ → ℕ
digits value [] = value
digits value (c ∷ cs) = if is_digit c then digits (value * 10 + (c - 48)) cs else value

abbrev pub negated : ℕ → ℤ
negated zero = pos 0
negated (suc n) = negsuc n

abbrev pub atoi : List ℕ → ℤ
atoi [] = pos 0
atoi (c ∷ cs) =
    let rest = atoi cs in
    if is_space c
    then rest
    else if c == 45
    then negated (digits 0 cs)
    else if c == 43
    then pos (digits 0 cs)
    else pos (digits 0 (c ∷ cs))

-- `job->state = state` for the first slot that the search finds
abbrev pub set_state : (Job → Bool) → State → List Job → List Job
set_state is state [] = []
set_state is state (k ∷ ks) =
    if is k then record k { state = state } ∷ ks else k ∷ set_state is state ks

abbrev pub has_pid : ℤ → Job → Bool
has_pid (pos p) k = k.pid == p
has_pid (negsuc _) k = false

abbrev pub has_jid : ℤ → Job → Bool
has_jid (pos j) k = k.jid == j
has_jid (negsuc _) k = false

pub data Message : Type 0 where
  needs_argument no_such_job no_such_process bad_argument : Message

-- The job that an argument of `do_bgfg` names, with the search that found it; or a message.
pub data Target : Type 0 where
  refused : Message → Target
  target : (Job → Bool) → Job → Target

abbrev pub found : Message → (Job → Bool) → Option Job → Target
found m is none = refused m
found m is (some job) = target is job

abbrev pub percent : ℕ
percent = 37

-- A string begins with a byte, and goes on behind it.
pub find_target : (id : Option (List ℕ)) → List Job → Target
find_target none js = refused needs_argument
find_target (some []) js = refused bad_argument
find_target (some (c ∷ cs)) js =
    let jid = atoi cs in
    let pid = atoi (c ∷ cs) in
    if c == percent
    then found no_such_job (has_jid jid) (getjobjid jid js)
    else if is_digit c
    then found no_such_process (has_pid pid) (getjobpid pid js)
    else refused bad_argument

-- `kill(-pid, signal)`; `unix_error` ends the shell if it fails.
abbrev pub kill : (ok : Bool) → Signal → (pid : ℕ) → Control → Control
kill true signal pid c = record c { sent = (signal, pid) ∷ c.sent }
kill false signal pid c = record c { mode = exited }

-- The end of `do_bgfg`, in the shell that has sent SIGCONT: the state of the job is set, and for
-- `fg` the shell waits.
abbrev pub continued : (ok background : Bool) → (Job → Bool) → Job → Control → Control
continued false background is job c = record c { mode = exited }
continued true true is job c = record c {
  sent = (sigcont, job.pid) ∷ c.sent;
  shell = record c.shell { jobs = set_state is bg c.jobs };
}
continued true false is job c = record c {
  sent = (sigcont, job.pid) ∷ c.sent;
  shell = record c.shell { jobs = set_state is fg c.jobs };
  mode = waiting (pos job.pid);
}

abbrev pub resume : (ok background : Bool) → Target → Control → Control × Option Message
resume ok background (refused m) c = (c, some m)
resume ok background (target is job) c = (continued ok background is job c, none)

-- The shell behind the call and the message, if there is one; `background` says that the command is
-- "bg" and not "fg".
pub do_bgfg : (ok background : Bool) → (id : Option (List ℕ)) → Control → Control × Option Message
do_bgfg ok background id c = resume ok background (find_target id c.jobs) c

abbrev pub argument : List (List ℕ) → Option (List ℕ)
argument [] = none
argument (a ∷ more) = some a

-- "quit", "jobs", "bg" and "fg"
abbrev pub quit_word : List ℕ
quit_word = 113 ∷ 117 ∷ 105 ∷ 116 ∷ []

abbrev pub jobs_word : List ℕ
jobs_word = 106 ∷ 111 ∷ 98 ∷ 115 ∷ []

abbrev pub bg_word : List ℕ
bg_word = 98 ∷ 103 ∷ []

abbrev pub fg_word : List ℕ
fg_word = 102 ∷ 103 ∷ []

-- The shell behind the command and `true` if it is a built-in one; `cmd` and `args` are argv.
unfoldable pub builtin_cmd :
    (ok : Bool) → (cmd : List ℕ) → (args : List (List ℕ)) → Control → Control × Bool
builtin_cmd ok cmd args c =
    if same_string cmd quit_word
    then (record c { mode = exited }, true)
    else if same_string cmd jobs_word
    then (c, true)
    else if same_string cmd bg_word
    then ((do_bgfg ok true (argument args) c).0, true)
    else if same_string cmd fg_word
    then ((do_bgfg ok false (argument args) c).0, true)
    else (c, false)

-- The parent's side of `eval` behind `fork`, whose result is `pid`
abbrev pub launch : (background : Bool) → (pid : ℤ) → (cmdline : List ℕ) → Control → Control
launch true pid cmdline c = record c { shell = (addjob pid bg cmdline c.shell).0 }
launch false pid cmdline c = record c {
  shell = (addjob pid fg cmdline c.shell).0;
  mode = waiting pid;
}

-- `eval` behind `parseline`. On a line without a command, `strcmp` reads argv[0], which is NULL.
unfoldable pub eval_line :
    (ok : Bool) → (pid : ℤ) → (cmdline : List ℕ) → Option Line → Control → Option Control
eval_line ok pid cmdline none c = none
eval_line ok pid cmdline (some out_of_bounds) c = some (record c { mode = crashed })
eval_line ok pid cmdline (some (line [] background)) c = some (record c { mode = crashed })
eval_line ok pid cmdline (some (line (cmd ∷ args) background)) c =
    let (d, builtin) = builtin_cmd ok cmd args c in
    some (if builtin then d else launch background pid cmdline d)

-- `none` is out of fuel.
unfoldable pub eval : (ok : Bool) → (pid : ℤ) → (cmdline : List ℕ) → Control → Option Control
eval ok pid cmdline c = eval_line ok pid cmdline (parseline cmdline) c

-- The test of the loop in `waitfg`
pub waits_on : ℤ → List Job → Bool
waits_on (pos pid) js = pid == fgpid js
waits_on (negsuc _) js = false

abbrev pub reported : ℕ → Status → Option Job → Control → Control
reported pid stopped none c = record c { mode = crashed }
reported pid stopped (some job) c = record c {
  shell = record c.shell { jobs = set_state (has_pid (pos pid)) st c.jobs };
}
reported pid signaled job c = record c { shell = (deletejob (pos pid) c.shell).0 }
reported pid normal job c = record c { shell = (deletejob (pos pid) c.shell).0 }

-- The shell has neither ended nor crashed.
abbrev pub runs : Mode → Bool
runs prompt = true
runs (waiting _) = true
runs exited = false
runs crashed = false

-- The children that `waitpid` reports before it returns 0 or -1, in order
pub sigchld_handler : List (ℕ × Status) → Control → Control
sigchld_handler [] c = c
sigchld_handler ((pid, status) ∷ more) c =
    let d = reported pid status (getjobpid (pos pid) c.jobs) c in
    let rest = sigchld_handler more d in if runs d.mode then rest else d

-- The signal goes on to the foreground process.
abbrev pub forward : (ok : Bool) → Signal → Control → Control
forward ok signal c = let pid = fgpid c.jobs in if ltb 0 pid then kill ok signal pid c else c

pub sigint_handler : (ok : Bool) → Control → Control
sigint_handler ok c = forward ok sigint c

pub sigtstp_handler : (ok : Bool) → Control → Control
sigtstp_handler ok c = forward ok sigtstp c

pub sigquit_handler : Control → Control
sigquit_handler c = record c { mode = exited }

-- ===== src/Shell/Jobs.antt =====
-- The job list of Lab/lab2/shlab/tsh.c: an array of MAXJOBS slots, where a slot with process ID 0 is
-- empty, and the next job ID. Command lines are lists of bytes, shorter than MAXLINE as `main` reads
-- them. What the functions print is left out, but for `listjobs` in Shell/Jobs/Listing.antt.
pub mod Table
pub mod Listing
pub mod Numbers
pub mod Foreground
mod Tests
use s_system_programmin.Common.{
  ℕ, zero, suc, ◌+◌, Bool, true, false, ◌&&◌, Option, none, some, List, [], ◌∷◌, ℤ, pos, negsuc,
  ltb, ◌==◌, if◌then◌else◌,
}

-- UNDEF, FG, BG and ST
pub data State : Type 0 where
  undef fg bg st : State

abbrev pub is_fg : State → Bool
is_fg fg = true
is_fg undef = false
is_fg bg = false
is_fg st = false

pub record Job : Type 0 where
  pub pid : ℕ
  pub jid : ℕ
  pub state : State
  pub cmdline : List ℕ

abbrev pub maxjobs : ℕ
maxjobs = 16

-- The globals `jobs` and `nextjid`.
pub record Shell : Type 0 where
  pub jobs : List Job
  pub nextjid : ℕ

-- What `clearjob` leaves.
abbrev pub cleared : Job
cleared = record { pid = 0; jid = 0; state = undef; cmdline = [] }

abbrev pub initjobs : (slots : ℕ) → List Job
initjobs zero = []
initjobs (suc n) = cleared ∷ initjobs n

abbrev pub max_from : (max : ℕ) → List Job → ℕ
max_from max [] = max
max_from max (k ∷ ks) = max_from (if ltb max k.jid then k.jid else max) ks

pub maxjid : List Job → ℕ
maxjid js = max_from 0 js

-- The loop of `addjob`: the job goes to the first empty slot; `none` if there is none.
abbrev pub fill_slot : Job → List Job → Option (List Job)
fill_slot j [] = none
fill_slot j (k ∷ ks) =
    if k.pid == 0
    then some (j ∷ ks)
    else elim (fill_slot j ks) [ none ↦ none | some rest ↦ some (k ∷ rest) ]

-- `nextjid++` and its wrap
abbrev pub following : ℕ → ℕ
following n = if ltb maxjobs (n + 1) then 1 else n + 1

add_filled : Shell → Option (List Job) → Shell × Bool
add_filled s none = (s, false)
add_filled s (some js) = (record { jobs = js; nextjid = following s.nextjid }, true)

-- The result is true for 1. A process ID is negative where `fork` failed.
pub addjob : (pid : ℤ) → State → (cmdline : List ℕ) → Shell → Shell × Bool
addjob (negsuc _) state cmdline s = (s, false)
addjob (pos pid) state cmdline s =
    let j : Job = record { pid = pid; jid = s.nextjid; state = state; cmdline = cmdline } in
    if ltb pid 1 then (s, false) else add_filled s (fill_slot j s.jobs)

-- The loop of `deletejob`: the first slot of the process is cleared; `none` if there is none.
abbrev pub clear_slot : (pid : ℕ) → List Job → Option (List Job)
clear_slot pid [] = none
clear_slot pid (k ∷ ks) =
    if k.pid == pid
    then some (cleared ∷ ks)
    else elim (clear_slot pid ks) [ none ↦ none | some rest ↦ some (k ∷ rest) ]

delete_cleared : Shell → Option (List Job) → Shell × Bool
delete_cleared s none = (s, false)
delete_cleared s (some js) = (record { jobs = js; nextjid = maxjid js + 1 }, true)

pub deletejob : (pid : ℤ) → Shell → Shell × Bool
deletejob (negsuc _) s = (s, false)
deletejob (pos pid) s = if ltb pid 1 then (s, false) else delete_cleared s (clear_slot pid s.jobs)

pub fgpid : List Job → ℕ
fgpid [] = 0
fgpid (k ∷ ks) = if is_fg k.state then k.pid else fgpid ks

-- The loops of `getjobpid` and `getjobjid`, which return a pointer to the slot: here the job in it.
abbrev pub with_pid : ℕ → List Job → Option Job
with_pid pid [] = none
with_pid pid (k ∷ ks) = if k.pid == pid then some k else with_pid pid ks

abbrev pub with_jid : ℕ → List Job → Option Job
with_jid jid [] = none
with_jid jid (k ∷ ks) = if k.jid == jid then some k else with_jid jid ks

unfoldable pub getjobpid : (pid : ℤ) → List Job → Option Job
getjobpid (negsuc _) js = none
getjobpid (pos pid) js = if ltb pid 1 then none else with_pid pid js

pub getjobjid : (jid : ℤ) → List Job → Option Job
getjobjid (negsuc _) js = none
getjobjid (pos jid) js = if ltb jid 1 then none else with_jid jid js

abbrev pub jid_of : Option Job → ℕ
jid_of none = 0
jid_of (some j) = j.jid

pub pid2jid : (pid : ℤ) → List Job → ℕ
pid2jid (negsuc _) js = 0
pid2jid (pos pid) js = if ltb pid 1 then 0 else jid_of (with_pid pid js)

-- ===== src/Shell/Control/Tests.antt =====
-- Runs of the shell: a foreground job, a blank line, and a stopped child that is no job.
use s_system_programmin.Common.{
  ◌⊎◌, ℕ, ◌≡◌, refl, true, false, some, List, [], ◌∷◌, pos, arith, codes, decimal, digits_before,
}
use s_system_programmin.Shell.Jobs.{undef, bg, cleared, getjobpid}
use s_system_programmin.Shell.Jobs.Listing.{listjobs}
use s_system_programmin.Shell.Parse.{parseline}
use s_system_programmin.Shell.Control.{
  Status, Control, waiting, crashed, start, launch, eval, eval_line, builtin_cmd, waits_on,
  sigchld_handler, sigint_handler, sigtstp_handler, sigint, sigtstp, stopped, normal,
}
use s_system_programmin.Shell.Control.Foreground.{
  Foreground, Reach, starts, types, Forwards, Reach-Foreground, Reach-Forwards,
}
use s_system_programmin.Shell.Control.Listed.{Listed, Reach-Listed}
use s_system_programmin.Shell.Control.Waiting.{Tabled, Reach-Tabled}
use s_system_programmin.Shell.Control.Wakes.{Crashes, waitfg-ends}

-- "ls" and a newline
abbrev ls : List ℕ
ls = 108 ∷ 115 ∷ 10 ∷ []

abbrev listing : Control
listing = launch false (pos 100) ls start

Reach-listing : Reach listing
unfolding eval eval_line parseline builtin_cmd start
Reach-listing = types true (pos 100) ls starts refl (ground arith, refl) refl

Reach-Foreground_example : Foreground (waiting (pos 100)) listing.jobs
Reach-Foreground_example = Reach-Foreground Reach-listing

Reach-Forwards_example :
    Forwards listing sigint (sigint_handler true listing)
    × Forwards listing sigtstp (sigtstp_handler true listing)
Reach-Forwards_example = Reach-Forwards listing Reach-listing refl

-- "ls &" and a newline
abbrev ls_background : List ℕ
ls_background = 108 ∷ 115 ∷ 32 ∷ 38 ∷ 10 ∷ []

abbrev running_job : Control
running_job = launch true (pos 100) ls_background start

Reach-running_job : Reach running_job
unfolding eval eval_line parseline builtin_cmd start
Reach-running_job = types true (pos 100) ls_background starts refl (ground arith, refl) refl

Reach-Listed_example : Listed running_job.jobs (listjobs running_job.jobs)
unfolding start
Reach-Listed_example = Reach-Listed running_job Reach-running_job refl

-- Two slots in use
listed_job :
    listjobs (
      record { pid = 100; jid = 1; state = bg; cmdline = ls_background }
      ∷ cleared
      ∷ record { pid = 70; jid = 0; state = undef; cmdline = [] }
      ∷ [])
    ≡ codes "[1] (100) Running ls &\n[0] (70) listjobs: Internal error: job[2].state=0 "
unfolding listjobs decimal digits_before
listed_job = refl

Reach-Tabled_example : Tabled listing.shell
Reach-Tabled_example = Reach-Tabled Reach-listing

abbrev both_reports : List (ℕ × Status)
both_reports = (100, stopped) ∷ (7, normal) ∷ []

waitfg-ends_example :
    (waits_on (pos 100) (sigchld_handler both_reports listing).jobs ≡ false)
    × (((sigchld_handler both_reports listing).mode ≡ waiting (pos 100))
        ⊎ (((sigchld_handler both_reports listing).mode ≡ crashed) × Crashes listing both_reports))
waitfg-ends_example =
    waitfg-ends listing 100 stopped ((7, normal) ∷ []) Reach-listing refl (ground arith)

-- A line without a command
blank_line : eval true (pos 100) (10 ∷ []) start ≡ some (record start { mode = crashed })
unfolding eval eval_line parseline
blank_line = refl

-- A stopped child that is no job, as `addjob` found no empty slot for it
unlisted_child : sigchld_handler ((117, stopped) ∷ []) start ≡ record start { mode = crashed }
unfolding sigchld_handler getjobpid start
unlisted_child = refl

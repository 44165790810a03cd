-- ===== src/Shell/Control/Wakes.antt =====
-- The end of the loop in `waitfg`, when `waitpid` reports the process that the shell waits for.
use s_system_programmin.Common.{
  ℕ, ◌≤◌, ◌<◌, ◌≡◌, refl, ap, ◌∙◌, ◌⊎◌, subst, true, false, Bool-cases, inl, inr, Option, none,
  some, List, [], ◌∷◌, pos, ◌==◌, arith,
}
use s_system_programmin.Shell.Jobs.{st, Job, Shell, is_fg, deletejob, getjobpid, with_pid}
use s_system_programmin.Shell.Jobs.Table.{Table}
use s_system_programmin.Shell.Jobs.Foreground.{
  fg_count, fg_only, fgpid_none, deletejob-fg_only, deletejob-fg_count, getjobpid_absent,
}
use s_system_programmin.Shell.Control.{
  waiting, crashed, Control, Status, set_state, has_pid, waits_on, runs, reported, sigchld_handler,
  stopped, signaled, normal,
}
use s_system_programmin.Shell.Control.Waiting.{
  Tabled, Reach-Tabled, reported-Tabled, deletejob_gone,
}
use s_system_programmin.Shell.Control.Foreground.{
  set_state-fg_only, set_state-fg_count, Reach, Reach-Foreground, Foreground,
}

-- A process whose slot is not in the foreground, and that is the only one that may be: no job is.
only_not_fg :
    (p : ℕ) (ks : List Job)
    → 0 < p
    → Table ks
    → fg_only p ks ≡ true
    → ((job : Job) → with_pid p ks ≡ some job → is_fg job.state ≡ false)
    → fg_count ks ≡ 0
only_not_fg p [] l t o f = refl
only_not_fg p (k ∷ ks) l t o f = elim (Bool-cases (k.pid == p)) [
  | inl e ↦
      let here = f k (ground arith) in
      let gone : with_pid p ks ≡ none = ground (arith, t.1) in
      let rest = only_not_fg p ks l t.2 (ground arith) (λ job m. absurd (ground arith)) in
      ground (arith, rest)
  | inr e ↦
      let rest = only_not_fg p ks l t.2 (ground arith) (λ job m. f job (ground arith)) in
      ground (arith, rest)
]

stopped_state :
    (p : ℕ) (ks : List Job) (job : Job)
    → with_pid p (set_state (has_pid (pos p)) st ks) ≡ some job
    → is_fg job.state ≡ false
stopped_state p [] job e = cc
stopped_state p (k ∷ ks) job e = elim (Bool-cases (k.pid == p)) [
  | inl f ↦ ground (arith, (rw f at e))
  | inr f ↦ stopped_state p ks job (ground (arith, (rw f at e)))
]

deleted-fg_count :
    (p : ℕ) (s : Shell)
    → 0 < p
    → Tabled s
    → fg_only p s.jobs ≡ true
    → fg_count (deletejob (pos p) s).0.jobs ≡ 0
deleted-fg_count p s l t o =
    let (kept, gone) = deletejob_gone p s l t in
    only_not_fg p (deletejob (pos p) s).0.jobs l kept.0 (deletejob-fg_only p (pos p) s o)
      (λ job m. absurd (ground (arith, gone, m)))

-- The report of the process that the shell waits for
report-fg_count :
    (p : ℕ) (status : Status) (o : Option Job) (c : Control)
    → 0 < p
    → getjobpid (pos p) c.jobs ≡ o
    → Tabled c.shell
    → fg_only p c.jobs ≡ true
    → fg_count (reported p status o c).jobs ≡ 0
report-fg_count p stopped none c l e t o =
    let gone = getjobpid_absent p c.jobs l e in
    only_not_fg p c.jobs l t.0 o (λ job m. absurd (ground (arith, gone, m)))
report-fg_count p stopped (some job) c l e t o =
    only_not_fg p (set_state (has_pid (pos p)) st c.jobs) l
      (reported-Tabled p stopped (some job) c e t).0
      (set_state-fg_only (has_pid (pos p)) st p c.jobs refl o) (stopped_state p c.jobs)
report-fg_count p signaled o' c l e t o = deleted-fg_count p c.shell l t o
report-fg_count p normal o' c l e t o = deleted-fg_count p c.shell l t o

reported-fg_count :
    (pid : ℕ) (status : Status) (o : Option Job) (c : Control)
    → fg_count (reported pid status o c).jobs ≤ fg_count c.jobs
reported-fg_count pid stopped none c = omega arith
reported-fg_count pid stopped (some job) c =
    omega (arith, set_state-fg_count (has_pid (pos pid)) st c.jobs)
reported-fg_count pid signaled o c = deletejob-fg_count (pos pid) c.shell
reported-fg_count pid normal o c = deletejob-fg_count (pos pid) c.shell

handler-fg_count :
    (reports : List (ℕ × Status)) (c : Control)
    → fg_count (sigchld_handler reports c).jobs ≤ fg_count c.jobs
unfolding sigchld_handler
handler-fg_count [] c = omega arith
handler-fg_count ((pid, status) ∷ more) c =
    let d = reported pid status (getjobpid (pos pid) c.jobs) c in
    let one = reported-fg_count pid status (getjobpid (pos pid) c.jobs) c in
    let rest = handler-fg_count more d in
    elim (Bool-cases (runs d.mode)) [ inl a ↦ rw a (omega (arith, one, rest)) | inr a ↦ rw a one ]

-- The handler meets a stopped child that is no job, and writes through NULL.
pub data Crashes : Control → List (ℕ × Status) → Type 0 where
  unlisted :
      {c : Control} (q : ℕ) (more : List (ℕ × Status))
      → getjobpid (pos q) c.jobs ≡ none
      → Crashes c ((q, stopped) ∷ more)
  behind :
      {c : Control} (q : ℕ) (status : Status) (more : List (ℕ × Status))
      → Crashes (reported q status (getjobpid (pos q) c.jobs) c) more
      → Crashes c ((q, status) ∷ more)

reported-mode :
    (q : ℕ) (status : Status) (more : List (ℕ × Status)) (o : Option Job) (c : Control)
    → getjobpid (pos q) c.jobs ≡ o
    → ((reported q status o c).mode ≡ c.mode)
      ⊎ (((reported q status o c).mode ≡ crashed) × Crashes c ((q, status) ∷ more))
reported-mode q stopped more none c e = inr (refl, unlisted q more e)
reported-mode q stopped more (some job) c e = inl refl
reported-mode q signaled more o c e = inl refl
reported-mode q normal more o c e = inl refl

handler-mode :
    (reports : List (ℕ × Status)) (c : Control)
    → runs c.mode ≡ true
    → ((sigchld_handler reports c).mode ≡ c.mode)
      ⊎ (((sigchld_handler reports c).mode ≡ crashed) × Crashes c reports)
unfolding sigchld_handler
handler-mode [] c a = inl refl
handler-mode ((q, status) ∷ more) c a =
    let o = getjobpid (pos q) c.jobs in
    let d = reported q status o c in
    elim (reported-mode q status more o c refl) [
      | inl e ↦
          let on : runs d.mode ≡ true = ap runs e ∙ a in
          rw on (elim (handler-mode more d on) [
            | inl f ↦ inl (f ∙ e)
            | inr (f, x) ↦ inr (f, behind q status more x)
          ])
      | inr (e, x) ↦ let off : runs d.mode ≡ false = ap runs e in rw off (inr (e, x))
    ]

test_fails :
    (c : Control) (p : ℕ) (status : Status) (more : List (ℕ × Status))
    → Reach c
    → c.mode ≡ waiting (pos p)
    → 0 < p
    → waits_on (pos p) (sigchld_handler ((p, status) ∷ more) c).jobs ≡ false
unfolding sigchld_handler waits_on
test_fails c p status more r e l =
    let f = subst (λ m. Foreground m c.jobs) e (Reach-Foreground r) in
    let d = reported p status (getjobpid (pos p) c.jobs) c in
    let none_left =
      report-fg_count p status (getjobpid (pos p) c.jobs) c l refl (Reach-Tabled r) f.1 in
    elim (Bool-cases (runs d.mode)) [
      | inl a ↦ rw a (
          ground (
            arith,
            fgpid_none (sigchld_handler more d).jobs
                (omega (arith, handler-fg_count more d, none_left)),
          ))
      | inr a ↦ rw a (ground (arith, fgpid_none d.jobs none_left))
    ]

-- Behind every sequence of commands, and of signals between them and in the loop of `waitfg`: when
-- `waitpid` reports the process that `waitfg` waits for, stopped or ended, whatever else is reported
-- after it, the loop's test fails behind the handler, and the shell is in the loop as before; or
-- it has crashed, and one of the reports is of a stopped child that is no job then.
pub waitfg-ends :
    (c : Control) (p : ℕ) (status : Status) (more : List (ℕ × Status))
    → Reach c
    → c.mode ≡ waiting (pos p)
    → 0 < p
    → (waits_on (pos p) (sigchld_handler ((p, status) ∷ more) c).jobs ≡ false)
      × (((sigchld_handler ((p, status) ∷ more) c).mode ≡ waiting (pos p))
          ⊎ (((sigchld_handler ((p, status) ∷ more) c).mode ≡ crashed)
              × Crashes c ((p, status) ∷ more)))
waitfg-ends c p status more r e l = (
  test_fails c p status more r e l,
  elim (handler-mode ((p, status) ∷ more) c (ap runs e)) [ inl f ↦ inl (f ∙ e) | inr x ↦ inr x ],
)

-- ===== src/Shell/Jobs/Numbers.antt =====
-- The job IDs that `addjob` and `deletejob` hand out.
use s_system_programmin.Common.{
  ℕ, ◌+◌, ◌≤◌, ◌<◌, ◌≡◌, inl, inr, refl, true, false, Bool-cases, none, Option-cases, List, [], ◌∷◌,
  ℤ, pos, negsuc, ltb, ◌==◌, if◌then◌else◌, arith,
}
use s_system_programmin.Shell.Jobs.{
  State, Job, Shell, cleared, maxjobs, with_pid, with_jid, addjob, add_filled, deletejob,
  delete_cleared, following, maxjid, max_from,
}
use s_system_programmin.Shell.Jobs.Table.{replaced, fill_slot-replaced, clear_slot-replaced}

-- No two jobs have the same ID.
abbrev pub Numbers : List Job → Type 0
Numbers [] = Unit {0}
Numbers (k ∷ ks) = ((0 < k.jid) → with_jid k.jid ks ≡ none) × Numbers ks

abbrev pub Below : ℕ → List Job → Type 0
Below n [] = Unit {0}
Below n (k ∷ ks) = (k.jid < n) × Below n ks

Below-mono : (m n : ℕ) (ks : List Job) → m ≤ n → Below m ks → Below n ks
Below-mono m n [] l b = tt
Below-mono m n (k ∷ ks) l b = (omega (arith, b.0), Below-mono m n ks l b.1)

max_from-le : (m : ℕ) (ks : List Job) → m ≤ max_from m ks
max_from-le m [] = omega arith
max_from-le m (k ∷ ks) = ground (arith, max_from-le (if ltb m k.jid then k.jid else m) ks)

max_from-Below : (m : ℕ) (ks : List Job) → Below (max_from m ks + 1) ks
max_from-Below m [] = tt
max_from-Below m (k ∷ ks) = (
  ground (arith, max_from-le (if ltb m k.jid then k.jid else m) ks),
  max_from-Below (if ltb m k.jid then k.jid else m) ks,
)

Below-absent : (n : ℕ) (ks : List Job) → Below n ks → with_jid n ks ≡ none
Below-absent n [] b = refl
Below-absent n (k ∷ ks) b = ground (arith, Below-absent n ks)

replaced-Below :
    (n pid : ℕ) (j : Job) (ks : List Job) → j.jid < n → Below n ks → Below n (replaced pid j ks)
replaced-Below n pid j [] l b = tt
replaced-Below n pid j (k ∷ ks) l b = elim (Bool-cases (k.pid == pid)) [
  | inl e ↦ rw e (l, b.1)
  | inr e ↦ rw e (b.0, replaced-Below n pid j ks l b.1)
]

replaced-absent_jid :
    (pid : ℕ) (j : Job) (ks : List Job) (n : ℕ)
    → (n == j.jid) ≡ false
    → with_jid n ks ≡ none
    → with_jid n (replaced pid j ks) ≡ none
replaced-absent_jid pid j [] n a b = refl
replaced-absent_jid pid j (k ∷ ks) n a b = ground (arith, replaced-absent_jid pid j ks n)

replaced-Numbers :
    (pid : ℕ) (j : Job) (ks : List Job)
    → ((0 < j.jid) → with_jid j.jid ks ≡ none)
    → Numbers ks
    → Numbers (replaced pid j ks)
replaced-Numbers pid j [] o t = tt
replaced-Numbers pid j (k ∷ ks) o t = elim (Bool-cases (k.pid == pid)) [
  | inl e ↦ rw e ((λ l. ground (arith, o l)), t.1)
  | inr e ↦ rw e (
    (λ l. replaced-absent_jid pid j ks k.jid (ground (arith, o)) (t.0 l)),
    replaced-Numbers pid j ks (λ l. ground (arith, o l)) t.1,
  )
]

-- The IDs of the jobs are different, and the next one is above them.
pub record Numbered (s : Shell) : Type 0 where
  pub numbers : Numbers s.jobs
  pub below : Below s.nextjid s.jobs
  pub positive : 0 < s.nextjid

-- As long as the next job ID is below MAXJOBS, `addjob` keeps the job IDs different and below the
-- next one, whatever process it is called for.
pub addjob-Numbered :
    (s : Shell) (pid : ℤ) (state : State) (cmdline : List ℕ)
    → Numbered s
    → s.nextjid < maxjobs
    → Numbered (addjob pid state cmdline s).0
unfolding addjob add_filled
addjob-Numbered s (negsuc _) state cmdline i l = i
addjob-Numbered s (pos pid) state cmdline i l =
    let j : Job = record { pid = pid; jid = s.nextjid; state = state; cmdline = cmdline } in
    let next : following s.nextjid ≡ s.nextjid + 1 = ground arith in
    elim (Bool-cases (ltb pid 1)) [
      | inl e ↦ rw e i
      | inr e ↦
          rw (e, fill_slot-replaced j s.jobs)
            (elim (Option-cases (with_pid 0 s.jobs)) [
              | inl e' ↦ rw e' i
              | inr (_, e') ↦
                  rw (e', next)
                    (record {
                      numbers =
                          replaced-Numbers 0 j s.jobs (λ _. Below-absent s.nextjid s.jobs i.below)
                            i.numbers;
                      below =
                          replaced-Below (s.nextjid + 1) 0 j s.jobs (omega arith)
                            (Below-mono s.nextjid (s.nextjid + 1) s.jobs (omega arith) i.below);
                      positive = omega arith;
                    })
            ])
    ]

-- If the job IDs are different, they are so after a `deletejob` that returns 1, and the next one is
-- above them again, whether or not it was before.
pub deletejob-Numbered :
    (s : Shell) (pid : ℤ)
    → Numbers s.jobs
    → (deletejob pid s).1 ≡ true
    → Numbered (deletejob pid s).0
unfolding deletejob delete_cleared maxjid
deletejob-Numbered s (negsuc _) n r = cc
deletejob-Numbered s (pos pid) n r = elim (Bool-cases (ltb pid 1)) [
  | inl e ↦ cc
  | inr e ↦ elim (Option-cases (with_pid pid s.jobs)) [
    | inl e' ↦
        let absurd_result : false ≡ true = rw (e, clear_slot-replaced pid s.jobs, e') at r in cc
    | inr (_, e') ↦
        let js = replaced pid cleared s.jobs in
        rw (e, clear_slot-replaced pid s.jobs, e')
          (record {
            numbers = replaced-Numbers pid cleared s.jobs (λ l. absurd (omega arith)) n;
            below = max_from-Below 0 js;
            positive = omega arith;
          })
  ]
]

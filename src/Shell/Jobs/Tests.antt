-- ===== src/Shell/Jobs/Tests.antt =====
-- The job list of tsh.c on concrete jobs.
use s_system_programmin.Common.{ℕ, zero, suc, ◌+◌, ◌≡◌, ◌≢◌, refl, List, [], ◌∷◌, pos, arith}
use s_system_programmin.Shell.Jobs.{
  fg, bg, undef, Job, Shell, addjob, add_filled, deletejob, delete_cleared, initjobs, maxjid,
}
use s_system_programmin.Shell.Jobs.Table.{Table, Adds, addjob-Adds, Deletes, deletejob-Deletes}
use s_system_programmin.Shell.Jobs.Numbers.{Numbered, addjob-Numbered, deletejob-Numbered}

abbrev running : ℕ → Job
running n = record { pid = 100 + n; jid = n; state = bg; cmdline = 97 ∷ [] }

abbrev one_job : Shell
one_job = record { jobs = running 1 ∷ initjobs 15; nextjid = 2 }

bg_not_undef : bg ≢ undef
bg_not_undef e = cc

one_job-Table : Table one_job.jobs
one_job-Table = ground (arith, bg_not_undef)

one_job-Numbered : Numbered one_job
one_job-Numbered = record { numbers = ground arith; below = ground arith; positive = ground arith }

addjob-Adds_example : Adds one_job 200 bg [] (addjob (pos 200) bg [] one_job)
addjob-Adds_example =
    addjob-Adds one_job 200 bg [] one_job-Table (ground arith) (ground arith) refl bg_not_undef

deletejob-Deletes_example : Deletes one_job 101 (deletejob (pos 101) one_job)
deletejob-Deletes_example = deletejob-Deletes one_job 101 one_job-Table (ground arith)

addjob_numbers : Numbered (addjob (pos 200) fg [] one_job).0
addjob_numbers = addjob-Numbered one_job (pos 200) fg [] one_job-Numbered (ground arith)

deletejob_numbers : Numbered (deletejob (pos 101) one_job).0
unfolding deletejob delete_cleared
deletejob_numbers = deletejob-Numbered one_job (pos 101) one_job-Numbered.numbers refl

-- Sixteen jobs, two of them deleted, and two new ones: the second new job gets the ID 1 of a job
-- that is still there.
abbrev many : ℕ → Shell → Shell
many zero s = s
many (suc n) s = (addjob (pos (100 + n)) bg [] (many n s)).0

abbrev reused : Shell
reused =
    let full = many 16 (record { jobs = initjobs 16; nextjid = 1 }) in
    let fewer = (deletejob (pos 102) (deletejob (pos 101) full).0).0 in
    (addjob (pos 301) bg [] (addjob (pos 300) bg [] fewer).0).0

abbrev ids : List Job → List ℕ
ids [] = []
ids (k ∷ ks) = k.jid ∷ ids ks

reused_ids :
    ids reused.jobs ≡ 1 ∷ 17 ∷ 1 ∷ 4 ∷ 5 ∷ 6 ∷ 7 ∷ 8 ∷ 9 ∷ 10 ∷ 11 ∷ 12 ∷ 13 ∷ 14 ∷ 15 ∷ 16 ∷ []
unfolding addjob add_filled deletejob delete_cleared maxjid
reused_ids = refl

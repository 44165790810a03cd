-- ===== src/Shell/Jobs/Listing.antt =====
-- What `listjobs` of Lab/lab2/shlab/tsh.c prints, as bytes.
use s_system_programmin.Common.{ℕ, suc, List, [], ◌∷◌, ◌++◌, ◌==◌, if◌then◌else◌, codes, decimal}
use s_system_programmin.Shell.Jobs.{State, undef, fg, bg, st, Job}

-- The text for the state of the job in slot `i`; UNDEF is 0.
abbrev pub state_text : (i : ℕ) → State → List ℕ
state_text i bg = codes "Running "
state_text i fg = codes "Foreground "
state_text i st = codes "Stopped "
state_text i undef =
    codes "listjobs: Internal error: job["
    ++ decimal i
    ++ codes "].state="
    ++ decimal 0
    ++ codes " "

abbrev pub job_text : (i : ℕ) → Job → List ℕ
job_text i k =
    codes "["
    ++ decimal k.jid
    ++ codes "] ("
    ++ decimal k.pid
    ++ codes ") "
    ++ state_text i k.state
    ++ k.cmdline

-- The loop of `listjobs`, from slot `i` on
abbrev pub listed_from : (i : ℕ) → List Job → List ℕ
listed_from i [] = []
listed_from i (k ∷ ks) =
    let rest = listed_from (suc i) ks in if k.pid == 0 then rest else job_text i k ++ rest

unfoldable pub listjobs : List Job → List ℕ
listjobs js = listed_from 0 js

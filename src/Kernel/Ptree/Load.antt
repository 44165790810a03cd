-- ===== src/Kernel/Ptree/Load.antt =====
-- `dbfs_module_init` and `dbfs_module_exit` of the two modules: what they create and remove. Whether
-- a call of debugfs returns NULL is an argument; the results of `kmalloc` are not tested.
use s_system_programmin.Common.{◌≡◌, Bool, true, false, not, List, [], ◌∷◌, if◌then◌else◌, arith}

pub data Resource : Type 0 where
  ptree_dir : Resource
  input_file : Resource
  ptree_file : Resource
  data_buffer : Resource
  blob_wrapper : Resource
  paddr_dir : Resource
  output_file : Resource

-- What an init creates, the latest first, and whether it returns 0.
pub record Loaded : Type 0 where
  pub created : List Resource
  pub succeeded : Bool

abbrev pub loaded : Bool → List Resource → Loaded
loaded ok rs = record { created = rs; succeeded = ok }

pub ptree_init : (dir inputdir ptreedir : Bool) → Loaded
ptree_init dir inputdir ptreedir =
    if not dir
    then loaded false []
    else if not inputdir
    then loaded false (ptree_dir ∷ [])
    else if not ptreedir
    then loaded false (blob_wrapper ∷ data_buffer ∷ input_file ∷ ptree_dir ∷ [])
    else loaded true (ptree_file ∷ blob_wrapper ∷ data_buffer ∷ input_file ∷ ptree_dir ∷ [])

pub paddr_init : (dir output : Bool) → Loaded
paddr_init dir output =
    if not dir
    then loaded false []
    else if not output
    then loaded false (paddr_dir ∷ [])
    else loaded true (output_file ∷ paddr_dir ∷ [])

-- `debugfs_remove_recursive(dir)` removes the files in it too.
abbrev pub removed_by_ptree : Resource → Bool
removed_by_ptree ptree_dir = true
removed_by_ptree input_file = true
removed_by_ptree ptree_file = true
removed_by_ptree data_buffer = true
removed_by_ptree blob_wrapper = true
removed_by_ptree _ = false

abbrev pub removed_by_paddr : Resource → Bool
removed_by_paddr paddr_dir = true
removed_by_paddr output_file = true
removed_by_paddr _ = false

abbrev pub without : (Resource → Bool) → List Resource → List Resource
without p [] = []
without p (r ∷ rs) = let rest = without p rs in if p r then rest else r ∷ rest

pub ptree_exit : List Resource → List Resource
ptree_exit = without removed_by_ptree

pub paddr_exit : List Resource → List Resource
paddr_exit = without removed_by_paddr

-- What an init has created its exit removes; but the kernel calls the exit of a module only if its
-- init returned 0.
ptree_exit-ptree_init :
    (dir inputdir ptreedir : Bool) → ptree_exit (ptree_init dir inputdir ptreedir).created ≡ []
unfolding ptree_exit ptree_init
ptree_exit-ptree_init dir inputdir ptreedir = ground arith

paddr_exit-paddr_init : (dir output : Bool) → paddr_exit (paddr_init dir output).created ≡ []
unfolding paddr_exit paddr_init
paddr_exit-paddr_init dir output = ground arith

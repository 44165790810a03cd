-- ===== src/Kernel/Paddr.antt =====
-- Lab/lab4/2019-11730_kernellab/paddr/dbfs_paddr.c: the physical address of a virtual one, by the
-- walk over the page tables of a process. Pointers are numbers, NULL is 0; what the kernel's
-- functions and macros return is a parameter. `unsigned long` has 64 bits.
pub mod Walk
mod Tests
use Prim.Native.Nat.{bit_and, bit_or}
use s_system_programmin.Common.{
  ℕ, ◌-◌, ◌^◌, Bool, true, false, ◌||◌, Option, none, some, ltb, ◌==◌, if◌then◌else◌,
}

-- The kernel as `read_output` calls it: tasks and their `mm`, the five levels of page tables with
-- the tests of their entries, and PAGE_MASK.
pub record Kernel : Type 0 where
  pub pid_task : ℕ → ℕ
  pub mm : ℕ → ℕ
  pub pgd_offset : ℕ → ℕ → ℕ
  pub pgd_none : ℕ → Bool
  pub pgd_bad : ℕ → Bool
  pub p4d_offset : ℕ → ℕ → ℕ
  pub p4d_none : ℕ → Bool
  pub p4d_bad : ℕ → Bool
  pub pud_offset : ℕ → ℕ → ℕ
  pub pud_none : ℕ → Bool
  pub pud_bad : ℕ → Bool
  pub pmd_offset : ℕ → ℕ → ℕ
  pub pmd_none : ℕ → Bool
  pub pmd_bad : ℕ → Bool
  pub pte_offset_kernel : ℕ → ℕ → ℕ
  pub pte_none : ℕ → Bool
  pub pte_val : ℕ → ℕ
  pub page_mask : ℕ

pub record Packet : Type 0 where
  pub pid : ℕ
  pub vaddr : ℕ
  pub paddr : ℕ

-- What a read comes to: -EFAULT, -EINVAL, a copy past the end of `pckt`, an access to a NULL `mm`, or
-- the number of bytes returned and the packet that the user gets.
pub data Reply : Type 0 where
  efault : Reply
  einval : Reply
  overrun : Reply
  null_mm : Reply
  copied : (length : ℕ) → Packet → Reply

-- `sizeof(struct packet)`
abbrev pub packet_size : ℕ
packet_size = 24

-- `~` on an unsigned long
abbrev pub complement : ℕ → ℕ
complement x = 2 ^ 64 - 1 - x

module _ (k : Kernel) where
  -- (pte & PAGE_MASK) | (vaddr & ~PAGE_MASK), below the mask of 48 bits
  pub physical : (pte vaddr : ℕ) → ℕ
  physical pte vaddr =
      let paddr = bit_or (bit_and pte k.page_mask) (bit_and vaddr (complement k.page_mask)) in
      bit_and paddr (2 ^ 48 - 1)

  -- The walk from the `mm` on; `none` is an entry that the tests of its level refuse.
  pub page_walk : (mm vaddr : ℕ) → Option ℕ
  page_walk mm vaddr =
      let pgd = k.pgd_offset mm vaddr in
      let p4d = k.p4d_offset pgd vaddr in
      let pud = k.pud_offset p4d vaddr in
      let pmd = k.pmd_offset pud vaddr in
      let pte = k.pte_offset_kernel pmd vaddr in
      if k.pgd_none pgd || k.pgd_bad pgd
      then none
      else if k.p4d_none p4d || k.p4d_bad p4d
      then none
      else if k.pud_none pud || k.pud_bad pud
      then none
      else if k.pmd_none pmd || k.pmd_bad pmd
      then none
      else if k.pte_none pte
      then none
      else some (k.pte_val pte)

  abbrev pub with_paddr : Packet → (paddr : ℕ) → Packet
  with_paddr pckt paddr = record pckt { paddr = paddr }

  -- The end of the read; `copy_to_user` fails or not.
  pub answer : (to_fails : Bool) → Packet → Option ℕ → Reply
  answer to_fails pckt none = einval
  answer to_fails pckt (some pte) =
      if to_fails then efault else copied packet_size (with_paddr pckt (physical pte pckt.vaddr))

  -- `length` bytes are copied to `pckt`, which then is the argument of that name.
  pub read_output : (from_fails to_fails : Bool) → (length : ℕ) → (pckt : Packet) → Reply
  read_output from_fails to_fails length pckt =
      let task = k.pid_task pckt.pid in
      let mm = k.mm task in
      if ltb packet_size length
      then overrun
      else if from_fails
      then efault
      else if task == 0
      then einval
      else if mm == 0
      then null_mm
      else answer to_fails pckt (page_walk mm pckt.vaddr)

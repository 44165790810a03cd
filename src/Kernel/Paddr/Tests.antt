-- ===== src/Kernel/Paddr/Tests.antt =====
-- A walk whose entries are all good, to an entry with the flags 0x67 and the top bit set.
use s_system_programmin.Common.{◌≡◌, ◌-◌, ◌^◌, refl, false, true}
use s_system_programmin.Kernel.Paddr.{
  Kernel, Packet, physical, page_walk, answer, read_output, copied,
}
use s_system_programmin.Kernel.Paddr.Walk.{Replies, read_output-Replies}

abbrev flat : Kernel
flat = record {
  pid_task = λ pid. pid;
  mm = λ task. task;
  pgd_offset = λ mm vaddr. mm;
  pgd_none = λ pgd. false;
  pgd_bad = λ pgd. false;
  p4d_offset = λ pgd vaddr. pgd;
  p4d_none = λ p4d. false;
  p4d_bad = λ p4d. false;
  pud_offset = λ p4d vaddr. p4d;
  pud_none = λ pud. false;
  pud_bad = λ pud. false;
  pmd_offset = λ pud vaddr. pud;
  pmd_none = λ pmd. false;
  pmd_bad = λ pmd. false;
  pte_offset_kernel = λ pmd vaddr. pmd;
  pte_none = λ pte. false;
  pte_val = λ pte. 0x8000_0001_2345_6067;
  page_mask = 2 ^ 64 - 2 ^ 12;
}

abbrev packet : Packet
packet = record { pid = 7; vaddr = 0x7fff_1234_5abc; paddr = 0 }

translated_packet :
    read_output flat false false 24 packet
    ≡ copied 24 (record { pid = 7; vaddr = 0x7fff_1234_5abc; paddr = 0x1_2345_6abc })
unfolding read_output answer page_walk physical
translated_packet = refl

read_output-Replies_example :
    Replies flat false true 24 packet (read_output flat false true 24 packet)
read_output-Replies_example = read_output-Replies flat false true 24 packet refl

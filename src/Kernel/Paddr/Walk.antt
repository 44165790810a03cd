-- ===== src/Kernel/Paddr/Walk.antt =====
-- The replies of `read_output`, and the address that it computes.
use Prim.Native.Nat.{bit_and}
use s_system_programmin.Common.{
  ℕ, ◌+◌, ◌-◌, ◌*◌, ◌/◌, ◌%◌, ◌^◌, ◌≤◌, ◌<◌, ◌≡◌, ◌≢◌, refl, sym, ap, ◌∙◌, inl, inr, Bool, true,
  false, Bool-cases, Option, none, some, ltb, ◌==◌, arith,
}
use s_system_programmin.Kernel.Bits.{
  low, shr, shl, ones, bit_and-ones, bit_and-shl, bit_or-low, shr-twelve, shl-twelve, low-twelve,
  low-48, low-52,
}
use s_system_programmin.Kernel.Paddr.{
  Kernel, Packet, Reply, efault, einval, overrun, null_mm, copied, packet_size, complement,
  physical, page_walk, answer, read_output,
}

truncated :
    (frame vaddr : ℕ)
    → ((frame % 2 ^ 52) * 4096 + vaddr % 4096) % 2 ^ 48 ≡ (frame % 2 ^ 36) * 2 ^ 12 + vaddr % 2 ^ 12
truncated frame vaddr = omega arith

-- The frame of the page table entry, 36 bits behind the 12 lowest, and the offset in the page.
pub physical-frame :
    (k : Kernel) (pte vaddr : ℕ)
    → k.page_mask ≡ 2 ^ 64 - 2 ^ 12
    → physical k pte vaddr ≡ (pte / 2 ^ 12 % 2 ^ 36) * 2 ^ 12 + vaddr % 2 ^ 12
unfolding physical
physical-frame k pte vaddr e =
    let frame : bit_and pte (2 ^ 64 - 2 ^ 12) ≡ shl 12 (low 52 (shr 12 pte)) =
      bit_and-shl 12 pte (ones 52) ∙ ap (shl 12) (bit_and-ones 52 (shr 12 pte)) in
    let offset : bit_and vaddr (complement (2 ^ 64 - 2 ^ 12)) ≡ low 12 vaddr =
      bit_and-ones 12 vaddr in
    let joined = bit_or-low 12 (low 52 (shr 12 pte)) vaddr in
    let address = shl 12 (low 52 (shr 12 pte)) + low 12 vaddr in
    let masked : bit_and address (2 ^ 48 - 1) ≡ low 48 address = bit_and-ones 48 address in
    let high : shl 12 (low 52 (shr 12 pte)) ≡ (pte / 4096 % 2 ^ 52) * 4096 =
      shl-twelve (low 52 (shr 12 pte))
      ∙ ap (λ x. x * 4096) (low-52 (shr 12 pte) ∙ ap (λ x. x % 2 ^ 52) (shr-twelve pte)) in
    let sum : address ≡ (pte / 4096 % 2 ^ 52) * 4096 + vaddr % 4096 =
      ap (λ x. x + low 12 vaddr) high
      ∙ ap (λ x. (pte / 4096 % 2 ^ 52) * 4096 + x) (low-twelve vaddr) in
    rw (e, frame, offset, joined, masked)
      (low-48 address ∙ ap (λ x. x % 2 ^ 48) sum ∙ truncated (pte / 4096) vaddr)

-- The lines of a walk in which no level refuses its entry.
pub record Mapped (k : Kernel) (mm vaddr pte : ℕ) : Type 0 where
  pub pgd : ℕ
  pub p4d : ℕ
  pub pud : ℕ
  pub pmd : ℕ
  pub entry : ℕ
  pub pgd_at : k.pgd_offset mm vaddr ≡ pgd
  pub p4d_at : k.p4d_offset pgd vaddr ≡ p4d
  pub pud_at : k.pud_offset p4d vaddr ≡ pud
  pub pmd_at : k.pmd_offset pud vaddr ≡ pmd
  pub entry_at : k.pte_offset_kernel pmd vaddr ≡ entry
  pub pgd_good : (k.pgd_none pgd ≡ false) × (k.pgd_bad pgd ≡ false)
  pub p4d_good : (k.p4d_none p4d ≡ false) × (k.p4d_bad p4d ≡ false)
  pub pud_good : (k.pud_none pud ≡ false) × (k.pud_bad pud ≡ false)
  pub pmd_good : (k.pmd_none pmd ≡ false) × (k.pmd_bad pmd ≡ false)
  pub entry_good : k.pte_none entry ≡ false
  pub value : k.pte_val entry ≡ pte

page_walk-Mapped :
    (k : Kernel) (mm vaddr pte : ℕ) → page_walk k mm vaddr ≡ some pte → Mapped k mm vaddr pte
unfolding page_walk
page_walk-Mapped k mm vaddr pte e = record {
  pgd = _;
  p4d = _;
  pud = _;
  pmd = _;
  entry = _;
  pgd_at = refl;
  p4d_at = refl;
  pud_at = refl;
  pmd_at = refl;
  entry_at = refl;
  pgd_good = ground (arith, e);
  p4d_good = ground (arith, e);
  pud_good = ground (arith, e);
  pmd_good = ground (arith, e);
  entry_good = ground (arith, e);
  value = ground (arith, e);
}

Mapped-page_walk :
    (k : Kernel) (mm vaddr pte : ℕ) → Mapped k mm vaddr pte → page_walk k mm vaddr ≡ some pte
unfolding page_walk
Mapped-page_walk k mm vaddr pte m =
    let (a, b) = m.pgd_good in
    let (c, d) = m.p4d_good in
    let (f, g) = m.pud_good in
    let (h, i) = m.pmd_good in
    rw (m.pgd_at, m.p4d_at, m.pud_at, m.pmd_at, m.entry_at, a, b, c, d, f, g, h, i, m.entry_good)
      (ap some m.value)

-- What a read comes to, and when.
pub data Replies (k : Kernel) (from_fails to_fails : Bool) (length : ℕ) (pckt : Packet)
    : Reply → Type 0 where
  too_long : packet_size < length → Replies k from_fails to_fails length pckt overrun
  not_read :
      length ≤ packet_size → from_fails ≡ true → Replies k from_fails to_fails length pckt efault
  no_task :
      length ≤ packet_size
      → from_fails ≡ false
      → k.pid_task pckt.pid ≡ 0
      → Replies k from_fails to_fails length pckt einval
  no_mm :
      length ≤ packet_size
      → from_fails ≡ false
      → k.pid_task pckt.pid ≢ 0
      → k.mm (k.pid_task pckt.pid) ≡ 0
      → Replies k from_fails to_fails length pckt null_mm
  not_mapped :
      length ≤ packet_size
      → from_fails ≡ false
      → k.pid_task pckt.pid ≢ 0
      → k.mm (k.pid_task pckt.pid) ≢ 0
      → ((pte : ℕ) → ¬ Mapped k (k.mm (k.pid_task pckt.pid)) pckt.vaddr pte)
      → Replies k from_fails to_fails length pckt einval
  not_written :
      {pte : ℕ}
      → length ≤ packet_size
      → from_fails ≡ false
      → k.pid_task pckt.pid ≢ 0
      → k.mm (k.pid_task pckt.pid) ≢ 0
      → Mapped k (k.mm (k.pid_task pckt.pid)) pckt.vaddr pte
      → to_fails ≡ true
      → Replies k from_fails to_fails length pckt efault
  translated :
      {pte : ℕ} {reply : Packet}
      → length ≤ packet_size
      → from_fails ≡ false
      → k.pid_task pckt.pid ≢ 0
      → k.mm (k.pid_task pckt.pid) ≢ 0
      → Mapped k (k.mm (k.pid_task pckt.pid)) pckt.vaddr pte
      → to_fails ≡ false
      → reply.pid ≡ pckt.pid
      → reply.vaddr ≡ pckt.vaddr
      → reply.paddr ≡ (pte / 2 ^ 12 % 2 ^ 36) * 2 ^ 12 + pckt.vaddr % 2 ^ 12
      → Replies k from_fails to_fails length pckt (copied packet_size reply)

module _ (k : Kernel) (e : k.page_mask ≡ 2 ^ 64 - 2 ^ 12) (to_fails : Bool) (length : ℕ)
    (pckt : Packet) (l : length ≤ packet_size) (t : k.pid_task pckt.pid ≢ 0)
    (m : k.mm (k.pid_task pckt.pid) ≢ 0) where
  answer-Replies :
      (o : Option ℕ)
      → page_walk k (k.mm (k.pid_task pckt.pid)) pckt.vaddr ≡ o
      → Replies k false to_fails length pckt (answer k to_fails pckt o)
  unfolding answer
  answer-Replies none w = not_mapped l refl t m (λ pte mapped.
      let no : none ≡ some pte = sym w ∙ Mapped-page_walk k _ pckt.vaddr pte mapped in cc)
  answer-Replies (some pte) w =
      let mapped = page_walk-Mapped k (k.mm (k.pid_task pckt.pid)) pckt.vaddr pte w in
      elim (Bool-cases to_fails) [
        | inl f ↦ rw f (not_written l refl t m mapped refl)
        | inr f ↦
            rw f (translated l refl t m mapped refl refl refl (physical-frame k pte pckt.vaddr e))
      ]

-- `read_output` on a machine with pages of 2 ^ 12 bytes. More bytes than a packet has overrun it. If
-- the packet cannot be read or the answer not be written, the reply is -EFAULT; if there is no such
-- task, or the walk meets an entry that is missing or bad, -EINVAL; a task without an mm, as a kernel
-- thread is, makes it follow NULL. Otherwise the user gets the packet back with the physical address,
-- 36 bits of the last entry behind its 12 lowest, and below them the offset in the page.
pub read_output-Replies :
    (k : Kernel) (from_fails to_fails : Bool) (length : ℕ) (pckt : Packet)
    → k.page_mask ≡ 2 ^ 64 - 2 ^ 12
    → Replies k from_fails to_fails length pckt (read_output k from_fails to_fails length pckt)
unfolding read_output
read_output-Replies k from_fails to_fails length pckt e =
    elim (Bool-cases (ltb packet_size length)) [
      | inl long ↦ rw long (too_long (ground (arith, long)))
      | inr short ↦
          let l : length ≤ packet_size = ground (arith, short) in
          elim (Bool-cases from_fails) [
            | inl f ↦ rw (short, f) (not_read l refl)
            | inr f ↦ elim (Bool-cases (k.pid_task pckt.pid == 0)) [
              | inl z ↦ rw (short, f, z) (no_task l refl (ground (arith, z)))
              | inr z ↦
                  let task : k.pid_task pckt.pid ≢ 0 = ground (arith, z) in
                  elim (Bool-cases (k.mm (k.pid_task pckt.pid) == 0)) [
                    | inl y ↦ rw (short, f, z, y) (no_mm l refl task (ground (arith, y)))
                    | inr y ↦
                        let mm : k.mm (k.pid_task pckt.pid) ≢ 0 = ground (arith, y) in
                        rw (short, f, z, y)
                          (answer-Replies k e to_fails length pckt l task mm _ refl)
                  ]
            ]
          ]
    ]

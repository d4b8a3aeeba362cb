-- ===== src/Sbi/Feature/Fence.antt =====
-- What `emulate_sfence_vma` of feature/sfence_vma.rs does to the hart.
use upstream_oreboot.Prelude.{ℕ, ◌+◌, ◌*◌, ◌/◌, ◌%◌, ◌^◌, ◌<◌, ◌≡◌, ◌≢◌, refl, arith, Bool, true}
use upstream_oreboot.Prelude.{false, bit_and, bit_or, ◌==◌, wrapping_add, ==_iff, ◌∙◌}
use upstream_oreboot.Prelude.Bits.{bit_and_split, bit_and_mask, bit_or_fields}
use upstream_oreboot.Prelude.Bits.{bit_or_split, bit_or-zero}
use upstream_oreboot.Sbi.Csr
use upstream_oreboot.Sbi.Riscv.{Hart}
use upstream_oreboot.Sbi.Feature.{with_vm_sv39, emulate_sfence_vma}
use upstream_oreboot.Sbi.Feature.Decode.{fence_mask}

without_vm :
    (m : ℕ) → m < 2 ^ 64 → bit_and m 0xffff_ffff_e0ff_ffff ≡ m / 2 ^ 29 * 2 ^ 29 + m % 2 ^ 24
without_vm m h = omega (
  arith,
  bit_and_split 29 m 0xffff_ffff_e0ff_ffff,
  bit_and_mask 35 (m / 2 ^ 29),
  bit_and_mask 24 (m % 2 ^ 29),
)

or_vm : (q r : ℕ) → r < 2 ^ 24 → bit_or (q * 2 ^ 29 + r) (9 * 2 ^ 24) ≡ q * 2 ^ 29 + 9 * 2 ^ 24 + r
or_vm q r h =
    let high : (q * 2 ^ 29 + r) / 2 ^ 24 ≡ q * 2 ^ 5 = omega arith in
    let low : (q * 2 ^ 29 + r) % 2 ^ 24 ≡ r = omega arith in
    bit_or_split 24 (q * 2 ^ 29 + r) (9 * 2 ^ 24)
    ∙ rw (high, low) (omega (arith, bit_or_fields 5 q 9 (omega arith), bit_or-zero r))

-- The new status word: the five bits of VM (28 to 24) are 9, for Sv39, and the others are kept.
pub with_vm_sv39_fields :
    (m : ℕ) → m < 2 ^ 64 → with_vm_sv39 m ≡ m / 2 ^ 29 * 2 ^ 29 + 9 * 2 ^ 24 + m % 2 ^ 24
with_vm_sv39_fields m h = rw (without_vm m h) (or_vm (m / 2 ^ 29) (m % 2 ^ 24) (omega arith))

-- The physical page number that is written back.
ppn_mask : (w : ℕ) → bit_and (bit_and w 0xfff_ffff_ffff) 0x3f_ffff_ffff ≡ w % 2 ^ 38
ppn_mask w = rw (bit_and_mask 44 w) (omega (arith, bit_and_mask 38 (w % 2 ^ 44)))

-- The encoding of `sfence.vma rs1, rs2`, where `rs` is the ten bits of the two registers.
abbrev pub sfence_vma : ℕ → ℕ
sfence_vma rs = 0x12000073 + rs * 2 ^ 15

-- `result` is the emulated fence: satp keeps 38 bits of the page number, mstatus selects Sv39 and
-- is copied to the context, the instruction is skipped, every other CSR is as it was.
pub record IsFenced (h : Hart) (result : Hart × Bool) : Type 0 where
  pub done : result.1 ≡ true
  pub satp : result.0.csr Csr.satp ≡ h.csr Csr.satp % 2 ^ 38
  pub status :
      result.0.csr Csr.mstatus
      ≡ h.csr Csr.mstatus / 2 ^ 29 * 2 ^ 29 + 9 * 2 ^ 24 + h.csr Csr.mstatus % 2 ^ 24
  pub context : result.0.context ≡ record h.context {
    mstatus = result.0.csr Csr.mstatus;
    mepc = wrapping_add h.context.mepc 4;
  }
  pub others : (n : ℕ) → n ≢ Csr.satp → n ≢ Csr.mstatus → result.0.csr n ≡ h.csr n

-- `sfence.vma` on any two registers is emulated: satp keeps its low 38 bits, the field of mstatus
-- from bit 24 on becomes 9 and its other bits are kept, also in the context, the instruction is
-- skipped, and no other CSR is written. mstatus is a word of 64 bits.
pub emulate_sfence_vma-IsFenced :
    (h : Hart) (rs : ℕ)
    → rs < 2 ^ 10
    → h.csr Csr.mstatus < 2 ^ 64
    → IsFenced h (emulate_sfence_vma h (sfence_vma rs))
unfolding emulate_sfence_vma
emulate_sfence_vma-IsFenced h rs fits word =
    let test : (bit_and (sfence_vma rs) 0xfe007fff == 0x12000073) ≡ true =
      (==_iff (bit_and (sfence_vma rs) 0xfe007fff) 0x12000073).1
        (omega (arith, fence_mask (sfence_vma rs))) in
    rw test (record {
      done = refl;
      satp = ppn_mask (h.csr Csr.satp);
      status = with_vm_sv39_fields (h.csr Csr.mstatus) word;
      context = refl;
      others = λ n no_satp no_mstatus. ground arith;
    })

-- Any other 32-bit word is refused, and the hart is left as it was.
pub emulate_sfence_vma_refuses :
    (h : Hart) (ins : ℕ)
    → ins < 2 ^ 32
    → ((rs : ℕ) → rs < 2 ^ 10 → ins ≢ sfence_vma rs)
    → emulate_sfence_vma h ins ≡ (h, false)
unfolding emulate_sfence_vma
emulate_sfence_vma_refuses h ins fits no_fence =
    let test : (bit_and ins 0xfe007fff == 0x12000073) ≡ false =
      ground (arith, no_fence (ins / 2 ^ 15 % 2 ^ 10), fence_mask ins) in
    rw test refl

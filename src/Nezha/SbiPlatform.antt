-- ===== src/Nezha/SbiPlatform.antt =====
-- src/mainboard/sunxi/nezha/main/src/sbi_platform.rs and src/soc/src/sunxi/d1/clint.rs: the handlers
-- that the board registers with the SBI.
pub mod Reset
pub mod Timer
use upstream_oreboot.Prelude.{ℕ, ◌+◌, ◌-◌, ◌*◌, ◌/◌, ◌%◌, ◌^◌, Bool, true, false, List, [], ◌∷◌}
use upstream_oreboot.Prelude.{ltb, ◌==◌, if◌then◌else◌, u32, ◌>>>◌, bit_and, bit_or}
use upstream_oreboot.Sbi.Csr
use upstream_oreboot.Sbi.Riscv.{Hart, update, write_csr, Riscv, SbiRet}

abbrev pub reset_magic : ℕ
reset_magic = 0x114514 * 2 ^ 32

-- Both parameters are words of 32 bits.
unfoldable pub system_reset : ℕ → ℕ → SbiRet
system_reset reset_type reset_reason = record {
  error = bit_or (u32 reset_type) reset_magic;
  value = u32 reset_reason;
}

-- The board: the hart, the memory-mapped words of the CLINT, and the physical bytes of the PLIC.
pub record Board : Type 0 where
  pub hart : Hart
  pub mmio : ℕ → ℕ

abbrev pub clint_base : ℕ
clint_base = 0x04000000

abbrev pub msip0 : ℕ
msip0 = 0

abbrev pub mtimecmpl : ℕ
mtimecmpl = 0x4000

abbrev pub write_reg : ℕ → ℕ → ℕ → (ℕ → ℕ) → ℕ → ℕ
write_reg addr offset val m = update m (addr + offset) val

-- `mtimecmp::write`: the low word, then the high word.
unfoldable pub mtimecmp_write : ℕ → (ℕ → ℕ) → ℕ → ℕ
mtimecmp_write word m =
    write_reg clint_base (mtimecmpl + 4) (u32 (word >>> 32))
      (write_reg clint_base mtimecmpl (u32 (bit_and word (2 ^ 64 - 1))) m)

-- `set_ipi` writes 64 bits, so it also clears the word behind MSIP0; `clear_ipi` writes an `i32`.
unfoldable pub set_ipi : (ℕ → ℕ) → ℕ → ℕ
set_ipi m = write_reg clint_base (msip0 + 4) 0 (write_reg clint_base msip0 1 m)

unfoldable pub clear_ipi : (ℕ → ℕ) → ℕ → ℕ
clear_ipi m = write_reg clint_base msip0 0 m

-- `max_hart_id()` is 0, so the loop has the one round of hart 0.
unfoldable pub send_ipi : (ℕ → Bool) → Board → SbiRet × Board
unfolding set_ipi clear_ipi
send_ipi has_bit b = (
  record { error = 0; value = 0 },
  (if has_bit 0 then record b { mmio = clear_ipi (set_ipi b.mmio) } else b),
)

module _ ⦃api : Riscv⦄ where
  unfoldable pub set_timer : ℕ → Board → Board
  unfolding mtimecmp_write
  set_timer stime_value b =
      let time = b.hart.csr Csr.time in
      let mmio = mtimecmp_write stime_value b.mmio in
      let mip = b.hart.csr Csr.mip in
      let mie = b.hart.csr Csr.mie in
      if ltb stime_value time
      then record { hart = write_csr Csr.mip (api.set_stimer mip) b.hart; mmio = mmio }
      else record {
        hart =
            write_csr Csr.mie (api.set_mtimer mie)
              (write_csr Csr.mip (api.clear_stimer mip) b.hart);
        mmio = mmio;
      }

-- `init_pmp`: the configuration words and the five addresses that are written.
unfoldable pub init_pmp : Hart → Hart
init_pmp h = write_csr 0x3b4 (0xffffffff >>> 2) (
    write_csr 0x3b3 (0x80200000 >>> 2) (
      write_csr 0x3b2 (0x80000000 >>> 2) (
        write_csr 0x3b1 (0x40200000 >>> 2) (
          write_csr 0x3b0 (0x40000000 >>> 2)
            (write_csr 0x3a2 0 (write_csr 0x3a0 0x0f090f090f h))))))

-- `init_plic`: the CSR 0xfc1 is the base of the PLIC.
unfoldable pub init_plic : Board → Board
init_plic b = record b { mmio = update b.mmio (b.hart.csr 0xfc1 + 0x001ffffc) 1 }

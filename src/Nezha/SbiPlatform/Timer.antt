-- ===== src/Nezha/SbiPlatform/Timer.antt =====
-- What the timer and the software interrupts of the board do.
use upstream_oreboot.Prelude.{ℕ, ◌+◌, ◌*◌, ◌^◌, ◌≤◌, ◌<◌, ◌≡◌, ◌≢◌, arith, true, false}
use upstream_oreboot.Prelude.Bits.{bit_and_mask}
use upstream_oreboot.Sbi.Csr
use upstream_oreboot.Sbi.Riscv.{Riscv}
use upstream_oreboot.Nezha.SbiPlatform.{Board, clint_base, mtimecmpl, set_timer}

-- The 64-bit comparator, read back from its two words.
abbrev pub mtimecmp : Board → ℕ
mtimecmp b = b.mmio (clint_base + mtimecmpl) + b.mmio (clint_base + mtimecmpl + 4) * 2 ^ 32

module _ ⦃api : Riscv⦄ where
  -- The comparator holds the deadline; the supervisor's timer is pending exactly when the deadline
  -- has passed; the machine's timer interrupt is enabled in mie if it has not, and mie is kept if it
  -- has. No other CSR and no other word of the memory-mapped registers is written, and the context is
  -- kept.
  pub set_timer_lem :
      (stime : ℕ) (b : Board)
      → stime < 2 ^ 64
      → (mtimecmp (set_timer stime b) ≡ stime)
        × (stime < b.hart.csr Csr.time
            → api.stimer_pending ((set_timer stime b).hart.csr Csr.mip) ≡ true)
        × (b.hart.csr Csr.time ≤ stime
            → api.stimer_pending ((set_timer stime b).hart.csr Csr.mip) ≡ false)
        × (stime < b.hart.csr Csr.time → (set_timer stime b).hart.csr Csr.mie ≡ b.hart.csr Csr.mie)
        × (b.hart.csr Csr.time ≤ stime
            → (set_timer stime b).hart.csr Csr.mie ≡ api.set_mtimer (b.hart.csr Csr.mie))
        × ((set_timer stime b).hart.context ≡ b.hart.context)
        × ((n : ℕ) → n ≢ Csr.mip → n ≢ Csr.mie → (set_timer stime b).hart.csr n ≡ b.hart.csr n)
        × ((a : ℕ)
            → a ≢ clint_base + mtimecmpl
            → a ≢ clint_base + mtimecmpl + 4
            → (set_timer stime b).mmio a ≡ b.mmio a)
  unfolding set_timer
  set_timer_lem stime b fits = (
    ground (arith, bit_and_mask 64 stime),
    (λ late. ground (arith, api.stimer-set_stimer (b.hart.csr Csr.mip))),
    (λ early. ground (arith, api.stimer-clear_stimer (b.hart.csr Csr.mip))),
    (λ late. ground arith),
    (λ early. ground arith),
    ground arith,
    (λ n p q. ground arith),
    (λ a p q. ground arith),
  )

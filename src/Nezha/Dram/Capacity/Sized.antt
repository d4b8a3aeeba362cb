-- ===== src/Nezha/Dram/Capacity/Sized.antt =====
-- The size that is read back from the controller, src/mainboard/sunxi/nezha/bt0/src/mctl.rs.
use upstream_oreboot.Prelude.{
  ℕ, zero, suc, ◌+◌, ◌-◌, ◌*◌, ◌^◌, ◌≤◌, ◌≡◌, ◌≢◌, ◌∙◌, refl, sym, ap, arith, ◌==◌, if◌then◌else◌,
  ◌&&&◌, ◌|||◌,
}
use native.Mathlib.Nat.{pow-suc, mul_assoc}
use upstream_oreboot.Nezha.Dram.Bus.{Bus, Board, done, ◌>>◌, for_range}
use upstream_oreboot.Nezha.Dram.Params.{DramParameters}
use upstream_oreboot.Nezha.Dram.Setup.{type_mode, rank_count, rank_mode, mctl_com_init}
use upstream_oreboot.Nezha.Dram.Size.{dramc_get_dram_size}
use upstream_oreboot.Nezha.Dram.Registers.{unknown1, unknown9, mc_work_mode_rank0_1}
use upstream_oreboot.Nezha.Dram.Capacity.{geometry, rank_size-rank_mode, rank_mode_single}

pow_add : (a b : ℕ) → 2 ^ (a + b) ≡ 2 ^ a * 2 ^ b
pow_add zero b = let e : 0 + b ≡ b = omega arith in rw e (omega arith)
pow_add (suc a) b =
    let e : suc a + b ≡ suc (a + b) = omega arith in
    rw e (
      omega (
        arith,
        pow-suc 2 (a + b),
        ap (λ (t : ℕ). t * 2 ^ b) (pow-suc 2 a),
        mul_assoc (2 ^ a) 2 (2 ^ b),
        ap (λ (t : ℕ). 2 * t) (pow_add a b),
        pow_add a b,
        mul_assoc 2 (2 ^ a) (2 ^ b),
      ))

capacity :
    (p rows bank : ℕ)
    → 9 ≤ rows
    → 2 ^ (p + rows + bank - 8) * 2 ^ 20 ≡ 2 ^ (p + 10) * 2 ^ rows * 2 ^ (bank + 2)
capacity p rows bank many =
    sym (pow_add (p + rows + bank - 8) 20)
    ∙ ap (λ (t : ℕ). 2 ^ t) (omega arith)
    ∙ pow_add (p + 10 + rows) (bank + 2)
    ∙ ap (λ (t : ℕ). t * 2 ^ (bank + 2)) (pow_add (p + 10) rows)

module _ {S : Type 0} (bus : Bus S) where
  -- The mode register keeps what is written to it, and nothing else changes it.
  pub record IsHeld (reg : ℕ) : Type 0 where
    pub own : (v : ℕ) (w : S) → bus.value reg (bus.after_write reg v w) ≡ v
    pub other :
        (r v : ℕ) (w : S) → r ≢ reg → bus.value reg (bus.after_write r v w) ≡ bus.value reg w
    pub reads : (r : ℕ) (w : S) → bus.value reg (bus.after_read r w) ≡ bus.value reg w

  module _ (para : DramParameters) (one_rank : para.dram_para2 ≡ 0)
      (plain : para.dram_tpr4 ≡ 0) where
    one_round : rank_count para ≡ 1
    unfolding rank_count
    one_round = rw one_rank refl

    -- The mode of rank 0 once the addresses are configured.
    mctl_com_init-mode :
        (b : Board S)
        → IsHeld mc_work_mode_rank0_1
        → (v : ℕ) × (b1 : Board S) × (mctl_com_init bus para b ≡ done tt b1)
          × (bus.value mc_work_mode_rank0_1 b1.world ≡ rank_mode para 0 v)
    unfolding mctl_com_init for_range
    mctl_com_init-mode b held =
        let reg = mc_work_mode_rank0_1 in
        let w0 = b.world in
        let w1 =
          bus.after_write unknown1 ((bus.value unknown1 w0 &&& 0xffffc0ff) ||| 0x2000)
            (bus.after_read unknown1 w0) in
        let w2 = bus.after_write reg (type_mode para (bus.value reg w1)) (bus.after_read reg w1) in
        let w3 =
          bus.after_write reg (rank_mode para 0 (bus.value reg w2)) (bus.after_read reg w2) in
        let w4 =
          bus.after_write unknown9 (if (bus.value reg w3 &&& 0x1) == 0 then 0x201 else 0x303)
            (bus.after_read reg w3) in
        (
          bus.value reg w2,
          record b { world = w4 },
          rw (one_round, one_rank, plain) refl,
          held.other unknown9 _ _ (λ e. absurd (omega (arith, e)))
              ∙ held.reads reg w3
              ∙ held.own (rank_mode para 0 (bus.value reg w2)) (bus.after_read reg w2),
        )

  -- When a single rank is configured with pages of 2 ^ p KB, at least nine rows of addresses and 4 or
  -- 8 banks, `dram_tpr4` being zero, the size that is then read back from the mode register, in MB, is
  -- the product of the bytes of a page, the rows and the banks.
  pub dramc_get_dram_size-mctl_com_init :
      (para : DramParameters) (p rows bank : ℕ) (b : Board S)
      → IsHeld mc_work_mode_rank0_1
      → p ≤ 3
      → 9 ≤ rows
      → rows ≤ 16
      → bank ≤ 1
      → para.dram_para1 ≡ geometry p rows bank
      → para.dram_para2 ≡ 0
      → para.dram_tpr4 ≡ 0
      → (size : ℕ) × (b' : Board S) × ((mctl_com_init bus para >> dramc_get_dram_size bus) b
          ≡ done size b')
        × (size * 2 ^ 20 ≡ 2 ^ (p + 10) * 2 ^ rows * 2 ^ (bank + 2))
  unfolding dramc_get_dram_size
  dramc_get_dram_size-mctl_com_init para p rows bank b held page_fits many rows_fit bank_fits shape
        one_rank plain =
      let c = mctl_com_init-mode para one_rank plain b held in
      let size =
        rank_size-rank_mode para p rows bank page_fits (omega arith) rows_fit bank_fits shape
          one_rank c.0 many in
      let single =
        rank_mode_single para p rows bank page_fits (omega arith) rows_fit bank_fits shape one_rank
          c.0 in
      (
        2 ^ (p + rows + bank - 8),
        record c.1 { world = bus.after_read mc_work_mode_rank0_1 c.1.world },
        rw (c.2, c.3, single, size) refl,
        capacity p rows bank many,
      )

-- ===== src/Nezha/Dram/Clock.antt =====
-- The voltage, the clocks and the masters of the DRAM controller, src/mainboard/sunxi/nezha/bt0/src/mctl.rs.
use upstream_oreboot.Prelude.{ℕ, ◌*◌, ◌/◌}
use upstream_oreboot.Prelude.{
  ◌==◌, if◌then◌else◌, ◌>>>◌, ◌&&&◌, ◌|||◌, any_of, not32, shl32, sub32, u32,
}
use upstream_oreboot.Nezha.Dram.Bus.{
  Bus, Step, Proc, pure, ◌>>=◌, ◌>>◌, readl, writel, sdelay, change, poll,
}
use upstream_oreboot.Nezha.Dram.Params.{DramParameters}
use upstream_oreboot.Nezha.Dram.Registers.{
  pll_cpu_ctrl, pll_ddr_ctrl, mbus_clk, dram_clk, dram_bgr, sys_ldo_ctrl_reg, dram_master_ctl1,
  dram_master_ctl2, dram_master_ctl3, mctl_clk,
}

module _ {S : Type 0} (bus : Bus S) where
  unfoldable pub dram_vol_set : Proc S
  dram_vol_set = do
    reg ← readl bus sys_ldo_ctrl_reg
    writel bus sys_ldo_ctrl_reg (((reg &&& not32 0xff00) ||| shl32 25 8) &&& not32 0x200000)
    sdelay bus 1

  unfoldable pub dram_enable_all_master : Proc S
  dram_enable_all_master = do
    writel bus dram_master_ctl1 0xffffffff
    writel bus dram_master_ctl2 0xff
    writel bus dram_master_ctl3 0xffff
    sdelay bus 10

  unfoldable pub dram_disable_all_master : Proc S
  dram_disable_all_master = do
    writel bus dram_master_ctl1 1
    writel bus dram_master_ctl2 0
    writel bus dram_master_ctl3 0
    sdelay bus 10

-- The multiplier of the 24 MHz clock.
unfoldable pub pll_factor : DramParameters → ℕ
pll_factor para =
    let clk = (if any_of para.dram_tpr13 0x40 then para.dram_tpr9 else para.dram_clk) in
    u32 (clk * 2) / 24

module _ {S : Type 0} (bus : Bus S) (fuel : ℕ) where
  unfoldable pub ccm_set_pll_ddr_clk : DramParameters → Step S ℕ
  unfolding pll_factor
  ccm_set_pll_ddr_clk para = do
    let n = pll_factor para
    val ← readl bus pll_ddr_ctrl
    let val1 = (val &&& 0xfff800fc) ||| shl32 (sub32 n 1) 8 ||| 0xc0000000
    writel bus pll_ddr_ctrl val1
    let val2 = (val1 &&& 0xdfffffff) ||| 0xc0000000
    writel bus pll_ddr_ctrl val2
    writel bus pll_ddr_ctrl (val2 ||| 0xe0000000)
    poll bus fuel pll_ddr_ctrl (λ v. v == 0)
    sdelay bus 20
    change bus pll_cpu_ctrl (λ v. v ||| 0x08000000)
    change bus dram_clk (λ v. (v &&& 0xfcfffcfc) ||| 0x80000000)
    pure (n * 24)

  -- Up to the choice of the clock.
  unfoldable pub stop_clocks : Proc S
  stop_clocks = do
    change bus mbus_clk (λ v. v &&& 0xbfffffff)
    gate ← readl bus dram_bgr
    let gate1 = gate &&& 0xfffffffe
    writel bus dram_bgr gate1
    writel bus dram_bgr (gate1 &&& 0xfffefffe)
    clk ← readl bus dram_clk
    writel bus dram_clk (clk &&& 0xbfffffff)
    let clk1 = clk &&& 0x7fffffff
    writel bus dram_clk clk1
    writel bus dram_clk (clk1 ||| 0x08000000)
    sdelay bus 10

  -- From the release of the resets on.
  unfoldable pub start_clocks : Proc S
  start_clocks = do
    change bus dram_bgr (λ v. v ||| 0x00010000)
    change bus mbus_clk (λ v. v ||| 0x40000000)
    change bus dram_clk (λ v. v ||| 0x40000000)
    sdelay bus 5
    change bus dram_bgr (λ v. v ||| 0x0000001)
    clk ← readl bus dram_clk
    writel bus dram_clk (clk ||| 0x80000000)
    writel bus dram_clk ((clk ||| 0x80000000) ||| 0x88000000)
    sdelay bus 5
    writel bus mctl_clk 0x00008000
    sdelay bus 10

  unfoldable pub mctl_sys_init : DramParameters → Step S DramParameters
  unfolding stop_clocks start_clocks ccm_set_pll_ddr_clk dram_disable_all_master
  mctl_sys_init para = do
    stop_clocks
    clk ← ccm_set_pll_ddr_clk para
    let para1 = record para { dram_clk = clk >>> 1 }
    sdelay bus 100
    dram_disable_all_master bus
    start_clocks
    pure para1

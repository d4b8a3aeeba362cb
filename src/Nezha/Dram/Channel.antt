-- ===== src/Nezha/Dram/Channel.antt =====
-- The channel of the controller and the core, src/mainboard/sunxi/nezha/bt0/src/mctl.rs.
use upstream_oreboot.Prelude.{ℕ, ◌+◌, ◌*◌, Bool, not, ◌&&◌}
use upstream_oreboot.Prelude.{
  ◌==◌, ltb, if◌then◌else◌, ◌>>>◌, ◌&&&◌, ◌|||◌, any_of, not32, shl32, sub32,
}
use upstream_oreboot.Nezha.Dram.Bus.{
  Bus, Step, Proc, pure, throw, ◌>>=◌, ◌>>◌, for_range, when, readl, writel, sdelay, change, poll,
}
use upstream_oreboot.Nezha.Dram.Params.{DramParameters}
use upstream_oreboot.Nezha.Dram.Clock.{mctl_sys_init}
use upstream_oreboot.Nezha.Dram.Setup.{mctl_vrefzq_init, mctl_com_init, mctl_phy_ac_remapping}
use upstream_oreboot.Nezha.Dram.Modes.{auto_set_timing_para}
use upstream_oreboot.Nezha.Dram.Bus.{zq_calibration}
use upstream_oreboot.Nezha.Dram.Registers.{
  some_status, some_other, unknown7, unknown12, pir, unknown15, pgsr0, statr_x, unknown13,
  unknown16, pgcr0, mrctrl0, unknown14, dqs_gating_x, zq_cfg, undoc1, dat00iocr, dx0gcr0, dx1gcr0,
  dat01iocr,
}

-- The delays of a lane, from the fields of the parameters at `shift`.
unfoldable pub lane_delay : DramParameters → ℕ → ℕ → ℕ
lane_delay para shift v =
    v
    ||| (shl32 (para.dram_tpr11 >>> shift) 9 &&& 0x1e00)
    ||| (shl32 (para.dram_tpr12 >>> shift) 1 &&& 0x001e)

module _ {S : Type 0} (bus : Bus S) where
  unfoldable pub eye_delay_compensation : DramParameters → Proc S
  unfolding lane_delay
  eye_delay_compensation para = do
    for_range 9 0 (λ i. change bus (dat00iocr + i * 4) (lane_delay para 0))
    for_range 9 0 (λ i. change bus (dat01iocr + i * 4) (lane_delay para 4))
    change bus pgcr0 (λ v. v &&& 0xfbffffff)
    change bus 0x3103334 (lane_delay para 16)
    change bus 0x3103338 (lane_delay para 16)
    change bus 0x31033b4 (lane_delay para 20)
    change bus 0x31033b8 (lane_delay para 20)
    change bus 0x310333c (λ v. v ||| (shl32 (para.dram_tpr11 >>> 16) 25 &&& 0x1e000000))
    change bus 0x31033bc (λ v. v ||| (shl32 (para.dram_tpr11 >>> 20) 25 &&& 0x1e000000))
    change bus pgcr0 (λ v. v ||| 0x04000000)
    sdelay bus 1
    for_range 15 0 (λ i.
        change bus (0x3103240 + i * 4) (λ v. v ||| (shl32 (para.dram_tpr10 >>> 4) 8 &&& 0x0f00)))
    for_range 6 0 (λ i.
        change bus (0x3103228 + i * 4) (λ v. v ||| (shl32 (para.dram_tpr10 >>> 4) 8 &&& 0x0f00)))
    change bus 0x3103218 (λ v. v ||| (shl32 para.dram_tpr10 8 &&& 0x0f00))
    change bus 0x310321c (λ v. v ||| (shl32 para.dram_tpr10 8 &&& 0x0f00))
    change bus 0x3103280 (λ v. v ||| (shl32 (para.dram_tpr10 >>> 12) 8 &&& 0x0f00))

-- The probe mode of the data strobes.
abbrev pub dqs_gating_mode : DramParameters → ℕ
dqs_gating_mode para = (para.dram_tpr13 >>> 2) &&& 0x3

-- The training has failed.
abbrev pub untrained : ℕ → Bool
untrained val = not (((val >>> 20) &&& 0xff) == 0) && any_of val 0x100000

-- The termination and the drive of a data lane.
unfoldable pub lane_config : DramParameters → ℕ → ℕ
lane_config para v =
    let val = (v &&& 0xffffffcf) ||| (shl32 (not32 para.dram_odt_en) 5 &&& 0x20) in
    if ltb 672 para.dram_clk then (val &&& 0xffff09f1) ||| 0x00000400 else val &&& 0xffff0ff1

module _ {S : Type 0} (bus : Bus S) where
  -- `match dqs_gating_mode`, with the value of MRCTRL0; 0x31030bc is PLL_SSCG_X.
  unfoldable pub set_gating : DramParameters → ℕ → Proc S
  set_gating para val =
      if dqs_gating_mode para == 1
      then (do
        writel bus mrctrl0 (val &&& not32 0xc0)
        change bus 0x31030bc (λ v. v &&& 0xfffffef8))
      else if dqs_gating_mode para == 2
      then (do
        writel bus mrctrl0 ((val &&& not32 0xc0) ||| 0x80)
        change bus 0x31030bc
            (λ v. (v &&& 0xfffffef8) ||| sub32 ((para.dram_tpr13 >>> 16) &&& 0x1f) 2 ||| 0x100)
        change bus dqs_gating_x (λ v. (v &&& 0x7fffffff) ||| 0x08000000))
      else (do
        writel bus mrctrl0 (val &&& not32 0x40)
        sdelay bus 10
        change bus mrctrl0 (λ v. v ||| 0xc0))

  -- Before the controller is started.
  unfoldable pub prepare_channel : DramParameters → Proc S
  unfolding lane_config set_gating eye_delay_compensation
  prepare_channel para = do
    change bus unknown7 (λ v. (v &&& 0xfffff000) ||| sub32 (para.dram_clk >>> 1) 1)
    change bus mrctrl0 (λ v. (v &&& 0xfffff0ff) ||| 0x300)
    change bus dx0gcr0 (lane_config para)
    change bus dx1gcr0 (lane_config para)
    change bus undoc1 (λ v. v ||| 0x2)
    eye_delay_compensation bus para
    gating ← readl bus mrctrl0
    set_gating para gating
    change bus unknown16 (λ v.
        (v &&& 0xf0000000) ||| (if any_of para.dram_para2 0x1000 then 0x03000001 else 0x01000007))
    status ← readl bus some_status
    when (any_of status 0x10000) (do change bus some_other (λ v. v &&& 0xfffffffd); sdelay bus 10)
    change bus zq_cfg (λ v. (v &&& 0xfc000000) ||| (para.dram_zq &&& 0x00ffffff) ||| 0x02000000)

module _ {S : Type 0} (bus : Bus S) (fuel : ℕ) where
  -- `while (readl(PGSR0) & 0x1) == 0 {}`
  abbrev pub wait_for_idone : Proc S
  wait_for_idone = poll bus fuel pgsr0 (λ v. (v &&& 0x1) == 0)

  -- The command that starts the training.
  unfoldable pub start_command : DramParameters → Step S ℕ
  start_command para =
      if dqs_gating_mode para == 1
      then (do
        writel bus pir 0x52
        writel bus pir 0x53
        wait_for_idone
        sdelay bus 10
        pure (if para.dram_type == 3 then 0x5a0 else 0x520))
      else (do
        status ← readl bus some_status
        pure (
            if (status &&& 0x10000) == 0
            then (if para.dram_type == 3 then 0x1f2 else 0x172)
            else 0x62))

  -- The way out of a standby.
  unfoldable pub leave_standby : DramParameters → Proc S
  leave_standby para = do
    change bus unknown14 (λ v. (v &&& 0xf9ffffff) ||| 0x04000000)
    sdelay bus 10
    change bus unknown15 (λ v. v ||| 0x1)
    poll bus fuel statr_x (λ v. not ((v &&& 0x7) == 0x3))
    change bus some_other (λ v. v &&& 0xfffffffe)
    sdelay bus 10
    change bus unknown15 (λ v. v &&& 0xfffffffe)
    poll bus fuel statr_x (λ v. not ((v &&& 0x7) == 0x1))
    sdelay bus 15
    when (dqs_gating_mode para == 1) (do
      change bus mrctrl0 (λ v. v &&& 0xffffff3f)
      change bus unknown14 (λ v. (v &&& 0xf9ffffff) ||| 0x02000000)
      sdelay bus 1
      writel bus pir 0x401
      wait_for_idone)

  -- The controller is started.
  unfoldable pub start_channel : DramParameters → Proc S
  unfolding start_command leave_standby
  start_channel para = do
    val ← start_command para
    writel bus pir val
    writel bus pir (val ||| 1)
    sdelay bus 10
    wait_for_idone
    status ← readl bus some_status
    when (any_of status 0x10000) (leave_standby para)

  -- After the training has gone well.
  unfoldable pub finish_channel : DramParameters → Proc S
  finish_channel para = do
    poll bus fuel statr_x (λ v. (v &&& 0x1) == 0)
    change bus unknown13 (λ v. v ||| 0x80000000)
    sdelay bus 10
    change bus unknown13 (λ v. v &&& 0x7fffffff)
    sdelay bus 10
    change bus unknown12 (λ v. v ||| 0x80000000)
    sdelay bus 10
    change bus unknown14 (λ v. v &&& 0xf9ffffff)
    when (dqs_gating_mode para == 1)
        (change bus dqs_gating_x (λ v. (v &&& 0xffffff3f) ||| 0x00000040))

  unfoldable pub mctl_channel_init : DramParameters → Proc S
  unfolding prepare_channel start_channel finish_channel
  mctl_channel_init para = do
    prepare_channel bus para
    start_channel para
    val ← readl bus pgsr0
    if untrained val then throw zq_calibration else finish_channel para

  -- The parameters come back with the clock, the timings and the mode registers in use.
  unfoldable pub mctl_core_init : DramParameters → Step S DramParameters
  mctl_core_init para = do
    para1 ← mctl_sys_init bus fuel para
    mctl_vrefzq_init bus para1
    mctl_com_init bus para1
    mctl_phy_ac_remapping bus para1
    para2 ← auto_set_timing_para bus para1
    mctl_channel_init para2
    pure para2

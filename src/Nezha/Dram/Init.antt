-- ===== src/Nezha/Dram/Init.antt =====
-- The initialisation as a whole, src/mainboard/sunxi/nezha/bt0/src/mctl.rs.
use upstream_oreboot.Prelude.{ℕ, not}
use upstream_oreboot.Prelude.{◌==◌, if◌then◌else◌, ◌>>>◌, ◌&&&◌, ◌|||◌, any_of, not32, shl32}
use upstream_oreboot.Nezha.Dram.Bus.{
  Bus, Run, Step, Proc, pure, ◌>>=◌, ◌>>◌, when, readl, writel, sdelay, change,
}
use upstream_oreboot.Nezha.Dram.Params.{DramParameters}
use upstream_oreboot.Nezha.Dram.Clock.{dram_vol_set, dram_enable_all_master}
use upstream_oreboot.Nezha.Dram.Channel.{mctl_core_init}
use upstream_oreboot.Nezha.Dram.Size.{dramc_get_dram_size, dramc_simple_wr_test}
use upstream_oreboot.Nezha.Dram.Scan.{auto_scan_dram_config}
use upstream_oreboot.Nezha.Dram.Bus.{done, failed, waiting}
use upstream_oreboot.Nezha.Dram.Registers.{
  res_cal_ctrl_reg, res240_ctrl_reg, some_status, analog_sys_pwroff_gating_reg, unknown15, unknown8,
  unknown10, unknown11, pgcr0, mrctrl0, zq_cfg,
}

module _ {S : Type 0} (bus : Bus S) where
  -- The calibration of the resistor.
  unfoldable pub calibrate : DramParameters → Proc S
  calibrate para =
      if any_of para.dram_tpr13 0x10000
      then (do
        change bus res_cal_ctrl_reg (λ v. v ||| 0x100)
        writel bus res240_ctrl_reg 0
        sdelay bus 10)
      else (do
        writel bus analog_sys_pwroff_gating_reg 0
        change bus res_cal_ctrl_reg (λ v. v &&& not32 0x003)
        sdelay bus 10
        change bus res_cal_ctrl_reg (λ v. v &&& not32 0x108)
        sdelay bus 10
        change bus res_cal_ctrl_reg (λ v. v ||| 0x001)
        sdelay bus 20)

  -- The size in megabytes, and the parameters with the size in them.
  unfoldable pub memory_size : DramParameters → Step S (ℕ × DramParameters)
  unfolding dramc_get_dram_size
  memory_size para =
      if not (para.dram_para2 == 0)
      then pure ((para.dram_para2 &&& 0x7fff0000) >>> 16, para)
      else (do
        rc ← dramc_get_dram_size bus
        pure (rc, record para { dram_para2 = (para.dram_para2 &&& 0xffff) ||| shl32 rc 16 }))

  -- Refresh, gating and calibration of the running memory.
  unfoldable pub tune : DramParameters → Proc S
  tune para = do
    (if any_of para.dram_tpr13 0x40000000
        then (do
          rc ← readl bus para.dram_tpr8
          writel bus unknown11 (if rc == 0 then 0x10000200 else rc)
          writel bus unknown10 0x40a
          change bus unknown15 (λ v. v ||| 1))
        else (do
          change bus unknown11 (λ v. v &&& 0xffff0000)
          change bus unknown15 (λ v. v &&& not32 0x1)))
    rc ← readl bus pgcr0
    let gate = rc &&& not32 0xf000
    (if (para.dram_tpr13 &&& 0x200) == 0
        then when (not (para.dram_type == 6)) (writel bus pgcr0 gate)
        else writel bus pgcr0 (gate ||| 0x5000))
    change bus zq_cfg (λ v. v ||| shl32 1 31)
    when (any_of para.dram_tpr13 0x100)
        (do zq ← readl bus zq_cfg; writel bus 0x31030b8 (zq ||| 0x300))
    change bus mrctrl0
        (λ v. if any_of para.dram_tpr13 0x10000 then v &&& 0xffffdfff else v ||| 0x00002000)
    when (para.dram_type == 7) (change bus unknown8 (λ v. (v &&& 0xfff0ffff) ||| 0x0001000))

module _ {S : Type 0} where
  -- `if let Err(msg) = step { return 0; }`: an error ends `init_dram` with 0.
  abbrev pub zero_on_error : Run S ℕ → Run S ℕ
  zero_on_error (done size b) = done size b
  zero_on_error (failed e b) = done 0 b
  zero_on_error waiting = waiting

module _ {S : Type 0} (bus : Bus S) where
  -- The test of the memory, behind its bit of the parameters; twice 4096 words.
  unfoldable pub final_test : DramParameters → ℕ → Step S ℕ
  unfolding dramc_simple_wr_test
  final_test para mem_size =
      if any_of para.dram_tpr13 0x10000000
      then (do
        status ← readl bus some_status
        if any_of status 0x10000
            then pure 0
            else (do dramc_simple_wr_test bus mem_size 4096; pure mem_size))
      else pure mem_size

-- `get_pmu_exists` is false, and `handler_super_standby` does nothing.
module _ {S : Type 0} (bus : Bus S) (fuel : ℕ) where
  -- `init_dram` with its errors.
  unfoldable pub try_init_dram : DramParameters → Step S ℕ
  unfolding calibrate dram_vol_set auto_scan_dram_config mctl_core_init memory_size tune
      dram_enable_all_master final_test
  try_init_dram para = do
    calibrate bus para
    dram_vol_set bus
    para1 ←
        (if (para.dram_tpr13 &&& 0x1) == 0 then auto_scan_dram_config bus fuel para else pure para)
    para2 ← mctl_core_init bus fuel para1
    sized ← memory_size bus para2
    tune bus sized.1
    dram_enable_all_master bus
    final_test bus sized.1 sized.0

  unfoldable pub init_dram : DramParameters → Step S ℕ
  unfolding try_init_dram
  init_dram para b = zero_on_error (try_init_dram para b)

-- The features of the crate.
pub data Feature : Type 0 where
  nezha lichee : Feature

abbrev by_feature : Feature → ℕ → ℕ → ℕ
by_feature nezha a b = a
by_feature lichee a b = b

unfoldable pub board_parameters : Feature → DramParameters
board_parameters feature = record {
  dram_clk = 792;
  dram_type = 0x00000003;
  dram_zq = 0x007b7bfb;
  dram_odt_en = 0x00000001;
  dram_para1 = by_feature feature 0x000010f2 0x000010d2;
  dram_para2 = 0x00000000;
  dram_mr0 = 0x00001c70;
  dram_mr1 = 0x00000042;
  dram_mr2 = by_feature feature 0x00000000 0x00000018;
  dram_mr3 = 0x00000000;
  dram_tpr0 = 0x004a2195;
  dram_tpr1 = 0x02423190;
  dram_tpr2 = 0x0008b061;
  dram_tpr3 = 0xb4787896;
  dram_tpr4 = 0x00000000;
  dram_tpr5 = 0x48484848;
  dram_tpr6 = 0x00000048;
  dram_tpr7 = 0x1620121e;
  dram_tpr8 = 0x00000000;
  dram_tpr9 = 0x00000000;
  dram_tpr10 = 0x00000000;
  dram_tpr11 = by_feature feature 0x00760000 0x00870000;
  dram_tpr12 = by_feature feature 0x00000035 0x00000024;
  dram_tpr13 = by_feature feature 0x34050101 0x34050100;
}

module _ {S : Type 0} (bus : Bus S) (fuel : ℕ) where
  unfoldable pub init : Feature → Step S ℕ
  unfolding init_dram board_parameters
  init feature = init_dram bus fuel (board_parameters feature)

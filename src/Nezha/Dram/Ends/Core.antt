-- ===== src/Nezha/Dram/Ends/Core.antt =====
-- The set-up of the core ends, src/mainboard/sunxi/nezha/bt0/src/mctl.rs.
use upstream_oreboot.Prelude.{ℕ, not}
use upstream_oreboot.Prelude.{◌==◌, ◌&&◌, ◌>>>◌, ◌&&&◌, any_of}
use upstream_oreboot.Nezha.Dram.Bus.{Bus, Board, throw, zq_calibration}
use upstream_oreboot.Nezha.Dram.Clock.{
  ccm_set_pll_ddr_clk, mctl_sys_init, stop_clocks, start_clocks, dram_disable_all_master,
}
use upstream_oreboot.Nezha.Dram.Setup.{
  mctl_vrefzq_init, mctl_com_init, rank_count, mctl_phy_ac_remapping, fuse_table, write_phy_map,
  remap,
}
use upstream_oreboot.Nezha.Dram.Modes.{
  auto_set_timing_para, write_modes, write_timings, write_phy_times,
}
use upstream_oreboot.Nezha.Dram.Channel.{
  eye_delay_compensation, set_gating, prepare_channel, dqs_gating_mode, start_command,
  leave_standby, start_channel, finish_channel, untrained, mctl_channel_init, mctl_core_init,
}
use upstream_oreboot.Nezha.Dram.Scan.{}
use upstream_oreboot.Prelude.{ltb, ◌||◌}
use upstream_oreboot.Nezha.Dram.Params.{DramParameters}
use upstream_oreboot.Nezha.Dram.Registers.{pgsr0, some_status, sid_info}
use upstream_oreboot.Nezha.Dram.Ends.{
  Ends, and_then-Ends, branch-Ends, for_range-Ends, when-Ends, seen, poll-Ends, Responsive,
}

module _ {S : Type 0} (bus : Bus S) (fuel : ℕ) (h : Responsive bus fuel) where
  pub ccm_set_pll_ddr_clk-Ends :
      (para : DramParameters) (b : Board S) → Ends (ccm_set_pll_ddr_clk bus fuel para b)
  unfolding ccm_set_pll_ddr_clk
  ccm_set_pll_ddr_clk-Ends para b =
      and_then-Ends _ _ (poll-Ends bus fuel _ _ _ (h.locks _)) (λ _ b'. tt)

  pub mctl_sys_init-Ends :
      (para : DramParameters) (b : Board S) → Ends (mctl_sys_init bus fuel para b)
  unfolding mctl_sys_init stop_clocks start_clocks dram_disable_all_master
  mctl_sys_init-Ends para b = and_then-Ends _ _ (ccm_set_pll_ddr_clk-Ends para _) (λ _ b'. tt)

module _ {S : Type 0} (bus : Bus S) where
  pub mctl_vrefzq_init-Ends :
      (para : DramParameters) (b : Board S) → Ends (mctl_vrefzq_init bus para b)
  unfolding mctl_vrefzq_init
  mctl_vrefzq_init-Ends para b =
      when-Ends _ _ (λ b'. when-Ends (not (any_of para.dram_tpr13 0x10000)) _ (λ _. tt) _) b

  pub mctl_com_init-Ends : (para : DramParameters) (b : Board S) → Ends (mctl_com_init bus para b)
  unfolding mctl_com_init
  mctl_com_init-Ends para b =
      and_then-Ends _ _ (for_range-Ends (rank_count para) 0 _ (λ _ _. tt) _) (λ _ b1.
        and_then-Ends _ _ (when-Ends (any_of para.dram_para2 0x1) _ (λ _. tt) _)
          (λ _ b2. when-Ends (ltb 0 para.dram_tpr4) _ (λ _. tt) _))

  fuse_table-Ends : (fuse : ℕ) (b : Board S) → Ends (fuse_table fuse b)
  unfolding fuse_table
  fuse_table-Ends fuse b = branch-Ends (fuse == 8) _ _ b tt (
      branch-Ends (fuse == 9) _ _ b tt (
        branch-Ends (fuse == 10) _ _ b tt
          (branch-Ends (fuse == 11) _ _ b tt (branch-Ends (fuse == 13 || fuse == 14) _ _ b tt tt))))

  remap-Ends : (para : DramParameters) (fuse : ℕ) (b : Board S) → Ends (remap bus para fuse b)
  unfolding remap write_phy_map
  remap-Ends para fuse b =
      and_then-Ends _ _
        (branch-Ends (ltb 0 ((para.dram_tpr13 >>> 18) &&& 0x3)) _ _ b tt (fuse_table-Ends fuse b))
        (λ _ b1.
          when-Ends (not (para.dram_type == 2 && fuse == 15)) _
            (λ b2.
              and_then-Ends _ _ (when-Ends (para.dram_type == 2) _ (λ _. tt) b2)
                (λ _ b3. when-Ends (para.dram_type == 2 || para.dram_type == 3) _ (λ _. tt) b3))
            b1)

  pub mctl_phy_ac_remapping-Ends :
      (para : DramParameters) (b : Board S) → Ends (mctl_phy_ac_remapping bus para b)
  unfolding mctl_phy_ac_remapping
  mctl_phy_ac_remapping-Ends para b =
      remap-Ends para ((bus.value sid_info b.world >>> 8) &&& 0x4) (seen bus sid_info b)

  pub auto_set_timing_para-Ends :
      (para : DramParameters) (b : Board S) → Ends (auto_set_timing_para bus para b)
  unfolding auto_set_timing_para write_modes write_timings write_phy_times
  auto_set_timing_para-Ends para b = tt

  eye_delay_compensation-Ends :
      (para : DramParameters) (b : Board S) → Ends (eye_delay_compensation bus para b)
  unfolding eye_delay_compensation
  eye_delay_compensation-Ends para b =
      and_then-Ends _ _ (for_range-Ends 9 0 _ (λ _ _. tt) _) (λ _ b1.
        and_then-Ends _ _ (for_range-Ends 9 0 _ (λ _ _. tt) _) (λ _ b2.
          and_then-Ends _ _ (for_range-Ends 15 0 _ (λ _ _. tt) _)
            (λ _ b3. and_then-Ends _ _ (for_range-Ends 6 0 _ (λ _ _. tt) _) (λ _ b4. tt))))

  set_gating-Ends :
      (para : DramParameters) (val : ℕ) (b : Board S) → Ends (set_gating bus para val b)
  unfolding set_gating
  set_gating-Ends para val b =
      branch-Ends (dqs_gating_mode para == 1) _ _ b tt
        (branch-Ends (dqs_gating_mode para == 2) _ _ b tt tt)

  pub prepare_channel-Ends :
      (para : DramParameters) (b : Board S) → Ends (prepare_channel bus para b)
  unfolding prepare_channel
  prepare_channel-Ends para b = and_then-Ends _ _ (eye_delay_compensation-Ends para _) (λ _ b1.
      and_then-Ends _ _ (set_gating-Ends para _ _) (λ _ b2.
        and_then-Ends _ _ (when-Ends (any_of (bus.value some_status _) 0x10000) _ (λ _. tt) _)
          (λ _ b3. tt)))

module _ {S : Type 0} (bus : Bus S) (fuel : ℕ) (h : Responsive bus fuel) where
  start_command-Ends : (para : DramParameters) (b : Board S) → Ends (start_command bus fuel para b)
  unfolding start_command
  start_command-Ends para b =
      branch-Ends (dqs_gating_mode para == 1) _ _ b
        (and_then-Ends _ _ (poll-Ends bus fuel _ _ _ (h.trains _)) (λ _ _. tt)) tt

  leave_standby-Ends : (para : DramParameters) (b : Board S) → Ends (leave_standby bus fuel para b)
  unfolding leave_standby
  leave_standby-Ends para b = and_then-Ends _ _ (poll-Ends bus fuel _ _ _ (h.enters _ _)) (λ _ b1.
      and_then-Ends _ _ (poll-Ends bus fuel _ _ _ (h.leaves _ _)) (λ _ b2.
        when-Ends (dqs_gating_mode para == 1) _ (λ b3. poll-Ends bus fuel _ _ _ (h.trains _)) _))

  start_channel-Ends : (para : DramParameters) (b : Board S) → Ends (start_channel bus fuel para b)
  unfolding start_channel
  start_channel-Ends para b = and_then-Ends _ _ (start_command-Ends para b) (λ val b1.
      and_then-Ends _ _ (poll-Ends bus fuel _ _ _ (h.trains _)) (λ _ b2.
        when-Ends (any_of (bus.value some_status b2.world) 0x10000) _ (leave_standby-Ends para) _))

  finish_channel-Ends :
      (para : DramParameters) (b : Board S) → Ends (finish_channel bus fuel para b)
  unfolding finish_channel
  finish_channel-Ends para b =
      and_then-Ends _ _ (poll-Ends bus fuel _ _ _ (h.settles _))
        (λ _ b1. when-Ends (dqs_gating_mode para == 1) _ (λ _. tt) _)

  mctl_channel_init-Ends :
      (para : DramParameters) (b : Board S) → Ends (mctl_channel_init bus fuel para b)
  unfolding mctl_channel_init
  mctl_channel_init-Ends para b = and_then-Ends _ _ (prepare_channel-Ends bus para b) (λ _ b1.
      and_then-Ends _ _ (start_channel-Ends para b1) (λ _ b2.
        branch-Ends (untrained (bus.value pgsr0 b2.world)) (throw zq_calibration)
          (finish_channel bus fuel para) (seen bus pgsr0 b2) tt (finish_channel-Ends para _)))

  pub mctl_core_init-Ends :
      (para : DramParameters) (b : Board S) → Ends (mctl_core_init bus fuel para b)
  unfolding mctl_core_init
  mctl_core_init-Ends para b = and_then-Ends _ _ (mctl_sys_init-Ends bus fuel h para b) (λ para1 b1.
      and_then-Ends _ _ (mctl_vrefzq_init-Ends bus para1 b1) (λ _ b2.
        and_then-Ends _ _ (mctl_com_init-Ends bus para1 b2) (λ _ b3.
          and_then-Ends _ _ (mctl_phy_ac_remapping-Ends bus para1 b3) (λ _ b4.
            and_then-Ends _ _ (auto_set_timing_para-Ends bus para1 b4)
              (λ para2 b5. and_then-Ends _ _ (mctl_channel_init-Ends para2 b5) (λ _ _. tt))))))

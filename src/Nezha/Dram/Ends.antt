-- ===== src/Nezha/Dram/Ends.antt =====
-- Runs that end, and hardware that answers, src/mainboard/sunxi/nezha/bt0/src/mctl.rs.
pub mod Core
pub mod Scan
use upstream_oreboot.Prelude.{
  ℕ, zero, suc, ◌+◌, ◌*◌, ◌<◌, ◌^◌, ◌≡◌, Bool, true, false, not, arith, Bool-cases, if_ind, inl,
  inr,
}
use upstream_oreboot.Prelude.{◌==◌, if◌then◌else◌, ◌&&◌, ◌>>>◌, ◌&&&◌, ◌|||◌, any_of, not32}
use upstream_oreboot.Nezha.Dram.Bus.{
  Bus, Board, Run, Step, Proc, done, failed, waiting, and_then, ◌>>=◌, ◌>>◌, when, for_range, poll,
  throw, zq_calibration,
}
use upstream_oreboot.Nezha.Dram.Clock.{
  ccm_set_pll_ddr_clk, mctl_sys_init, stop_clocks, start_clocks, dram_disable_all_master,
}
use upstream_oreboot.Nezha.Dram.Setup.{
  mctl_vrefzq_init, mctl_com_init, rank_count, mctl_phy_ac_remapping, fuse_table, write_phy_map,
  remap,
}
use upstream_oreboot.Nezha.Dram.Modes.{
  auto_set_timing_para, write_modes, write_timings, write_phy_times,
}
use upstream_oreboot.Nezha.Dram.Channel.{
  eye_delay_compensation, set_gating, prepare_channel, dqs_gating_mode, start_command,
  leave_standby, start_channel, finish_channel, untrained, mctl_channel_init, mctl_core_init,
}
use upstream_oreboot.Nezha.Dram.Scan.{
  pattern_word, mirror_loop, scan_loop, scan_for_addr_wrap, scan_for_addr_wrap2, set_mode,
  set_rank_mode, scan_bank, scan_rank, rank_loop, auto_scan_dram_size, probe_parameters,
  auto_scan_dram_rank_width, auto_scan_dram_config,
}
use upstream_oreboot.Prelude.{refl, ltb, ◌||◌}
use upstream_oreboot.Nezha.Dram.Params.{DramParameters}
use upstream_oreboot.Nezha.Dram.Registers.{
  pll_ddr_ctrl, ram_base, pgsr0, some_status, sid_info, statr_x, unknown15, mc_work_mode_rank0_1,
}

-- A run that has not been left waiting.
abbrev pub Ends : {S A : Type 0} → Run S A → Type 0
Ends (done a b) = Unit {0}
Ends (failed e b) = Unit {0}
Ends waiting = ⊥

module _ {S A B : Type 0} where
  pub and_then-Ends :
      (r : Run S A) (k : A → Step S B)
      → Ends r
      → ((a : A) (b : Board S) → Ends (k a b))
      → Ends (and_then r k)
  and_then-Ends (done a b) k h rest = rest a b
  and_then-Ends (failed e b) k h rest = tt
  and_then-Ends waiting k h rest = h

module _ {S A : Type 0} where
  pub branch-Ends :
      (test : Bool) (m n : Step S A) (b : Board S)
      → Ends (m b)
      → Ends (n b)
      → Ends ((if test then m else n) b)
  branch-Ends true m n b p q = p
  branch-Ends false m n b p q = q

module _ {S : Type 0} where
  pub for_range-Ends :
      (count i : ℕ) (body : ℕ → Proc S)
      → ((k : ℕ) (b : Board S) → Ends (body k b))
      → (b : Board S) → Ends (for_range count i body b)
  unfolding for_range
  for_range-Ends zero i body h b = tt
  for_range-Ends (suc count) i body h b =
      and_then-Ends _ _ (h i b) (λ _ b'. for_range-Ends count (suc i) body h b')

  pub when-Ends :
      (test : Bool) (body : Proc S)
      → ((b : Board S) → Ends (body b))
      → (b : Board S) → Ends (when test body b)
  when-Ends true body h b = h b
  when-Ends false body h b = tt

module _ {S : Type 0} (bus : Bus S) where
  -- The world after `k` reads of a register.
  abbrev pub after_reads : ℕ → ℕ → S → S
  after_reads zero reg w = w
  after_reads (suc k) reg w = after_reads k reg (bus.after_read reg w)

  -- The board after a read.
  abbrev pub seen : ℕ → Board S → Board S
  seen reg b = record b { world = bus.after_read reg b.world }

  -- Within the fuel a read of the register shows the end of the wait.
  abbrev pub Answers : ℕ → ℕ → (ℕ → Bool) → S → Type 0
  Answers fuel reg busy w =
      (k : ℕ) × (k < fuel) × (busy (bus.value reg (after_reads k reg w)) ≡ false)

  pub poll-Ends :
      (fuel reg : ℕ) (busy : ℕ → Bool) (b : Board S)
      → Answers fuel reg busy b.world
      → Ends (poll bus fuel reg busy b)
  unfolding poll
  poll-Ends zero reg busy b (k, less, free) = elim less [ ]
  poll-Ends (suc fuel) reg busy b (zero, less, free) = rw free tt
  poll-Ends (suc fuel) reg busy b (suc k, less, free) =
      if_ind Ends (busy (bus.value reg b.world))
        (poll-Ends fuel reg busy (seen reg b) (k, omega arith, free)) tt

  -- The hardware that the waits rely on: the clock locks, the controller finishes its training and
  -- becomes normal, its status follows the bit of a standby, and a mode is read back once written.
  pub record Responsive (fuel : ℕ) : Type 0 where
    pub locks : (w : S) → Answers fuel pll_ddr_ctrl (λ v. v == 0) w
    pub trains : (w : S) → Answers fuel pgsr0 (λ v. (v &&& 0x1) == 0) w
    pub settles : (w : S) → Answers fuel statr_x (λ v. (v &&& 0x1) == 0) w
    pub enters :
        (v : ℕ) (w : S)
        → Answers fuel statr_x
            (λ v. not ((v &&& 0x7) == 0x3))
            (bus.after_write unknown15 (v ||| 0x1) w)
    pub leaves :
        (v : ℕ) (w : S)
        → Answers fuel statr_x
            (λ v. not ((v &&& 0x7) == 0x1))
            (bus.after_write unknown15 (v &&& 0xfffffffe) w)
    pub holds :
        (rank val : ℕ) (w : S)
        → rank < 2
        → Answers fuel
            (mc_work_mode_rank0_1 + rank * 4)
            (λ v. not (v == val))
            (bus.after_write (mc_work_mode_rank0_1 + rank * 4) val w)

-- ===== src/Tests/DramRuns.antt =====
-- Runs of the initialisation of the DRAM at concrete boards, src/mainboard/sunxi/nezha/bt0/src/mctl.rs.
use upstream_oreboot.Prelude.{
  ℕ, zero, suc, ◌+◌, ◌*◌, ◌%◌, ◌^◌, ◌<◌, ◌≡◌, refl, arith, true, false, [], ◌∷◌, ◌==◌,
  if◌then◌else◌, if_ind, not, eqb_refl, ◌|||◌, ◌&&&◌,
}
use upstream_oreboot.Prelude.{◌⊎◌}
use upstream_oreboot.Prelude.Bits.{bit_or_step, bit_and_step}
use upstream_oreboot.Nezha.Dram.Bus.{Bus, Board, done, for_range, poll, ◌>>◌}
use upstream_oreboot.Nezha.Dram.Params.{DramParameters}
use upstream_oreboot.Nezha.Dram.Registers.{
  pll_ddr_ctrl, pgsr0, statr_x, unknown15, mc_work_mode_rank0_1,
}
use upstream_oreboot.Nezha.Dram.Init.{nezha, board_parameters, init_dram, memory_size}
use upstream_oreboot.Nezha.Dram.Ends.{Responsive}
use upstream_oreboot.Nezha.Dram.Ends.Scan.{init_dram_returns}
use upstream_oreboot.Prelude.{any_of, replicate}
use upstream_oreboot.Nezha.Dram.Probe.{probed, IsProbed, auto_scan_dram_rank_width-IsProbed}
use upstream_oreboot.Nezha.Dram.Reported.{memory_size-probed}
use upstream_oreboot.Nezha.Dram.Clock.{mctl_sys_init}
use upstream_oreboot.Nezha.Dram.Modes.{auto_set_timing_para}
use upstream_oreboot.Nezha.Dram.Channel.{mctl_core_init, mctl_channel_init}
use upstream_oreboot.Nezha.Dram.Memory.Test.{
  dramc_simple_wr_test_passes, dramc_simple_wr_test_blind, half_line,
}
use upstream_oreboot.Nezha.Dram.Mirrors.{IsFirst, scan_for_addr_wrap_first}
use upstream_oreboot.Nezha.Dram.Scan.{
  scan_for_addr_wrap, scan_for_addr_wrap2, auto_scan_dram_rank_width,
}
use upstream_oreboot.Nezha.Dram.Size.{rank_size, dramc_simple_wr_test, dramc_get_dram_size}
use upstream_oreboot.Nezha.Dram.Setup.{
  rank_mode, mctl_com_init, mctl_vrefzq_init, mctl_phy_ac_remapping,
}
use upstream_oreboot.Nezha.Dram.Timing.{read_timings, choose_timings}
use upstream_oreboot.Nezha.Dram.Packing.{choose_timings_again}
use upstream_oreboot.Nezha.Dram.Capacity.Sized.{dramc_get_dram_size-mctl_com_init}
use upstream_oreboot.Nezha.Dram.Tested.{IsTested, init_dram-IsTested}

abbrev update : ℕ → ℕ → (ℕ → ℕ) → ℕ → ℕ
update a v w a' = if a == a' then v else w a'

-- A memory at every address.
abbrev plain : Bus (ℕ → ℕ)
plain = record {
  value = λ a w. w a;
  after_read = λ a w. w;
  after_write = update;
  after_delay = λ n w. w;
}

-- A controller that answers at once, with a memory at all other addresses.
abbrev answering : Bus (ℕ → ℕ)
answering = record plain {
  value = λ a w.
      if a == pll_ddr_ctrl
      then 1
      else if a == pgsr0
      then 1
      else if a == statr_x
      then (if w unknown15 % 2 == 1 then 3 else 1)
      else w a;
}

abbrev start : Board (ℕ → ℕ)
start = record { world = λ a. 0; phy_cfg0 = [] }

held :
    (rank val : ℕ) (w : ℕ → ℕ)
    → rank < 2
    → not (
        answering.value
          (mc_work_mode_rank0_1 + rank * 4)
          (update (mc_work_mode_rank0_1 + rank * 4) val w)
        == val)
      ≡ false
held zero val w less = rw (eqb_refl val) refl
held (suc zero) val w less = rw (eqb_refl val) refl
held (suc (suc rank)) val w less = absurd (omega arith)

answering-Responsive : Responsive answering 1
answering-Responsive = record {
  locks = λ w. (0, omega arith, refl);
  trains = λ w. (0, omega arith, refl);
  settles = λ w. (
    0,
    omega arith,
    if_ind (λ (n : ℕ). ((n &&& 1) == 0) ≡ false) (w unknown15 % 2 == 1) refl refl,
  );
  enters = λ v w. (
    0,
    omega arith,
    let odd : (v ||| 0x1) % 2 ≡ 1 = omega (arith, bit_or_step v 1) in rw odd refl,
  );
  leaves = λ v w. (
    0,
    omega arith,
    let even : (v &&& 0xfffffffe) % 2 ≡ 0 = omega (arith, bit_and_step v 0xfffffffe) in
        rw even refl,
  );
  holds = λ rank val w less. (0, omega arith, held rank val w less);
}

init_dram_returns_example :
    (size : ℕ) × (b : Board (ℕ → ℕ)) × (init_dram answering 1 (board_parameters nezha) start
      ≡ done size b)
init_dram_returns_example =
    init_dram_returns answering 1 answering-Responsive (board_parameters nezha) start

nezha_known : ((board_parameters nezha).dram_tpr13 &&& 0x1 == 0) ≡ false
unfolding board_parameters
nezha_known = refl

nezha_tested : any_of (board_parameters nezha).dram_tpr13 0x10000000 ≡ true
unfolding board_parameters
nezha_tested = refl

init_dram-IsTested_example :
    IsTested answering init_dram_returns_example.0 init_dram_returns_example.1
init_dram-IsTested_example =
    init_dram-IsTested answering 1 (board_parameters nezha) start nezha_known nezha_tested
      init_dram_returns_example.2

-- Two words at the beginning and two at an eighth of 2 MB.
dramc_simple_wr_test_passes_example :
    (b : Board (ℕ → ℕ)) × (dramc_simple_wr_test plain 2 2 start ≡ done tt b)
dramc_simple_wr_test_passes_example =
    dramc_simple_wr_test_passes plain (λ a. a) 2 2 start
      (record { reads = λ a a' w p q. refl; writes = λ a a' v w p q. refl })
      (record {
        low = λ i j p q e. omega arith;
        high = λ i j p q e. omega arith;
        apart = λ i j p q e. absurd (omega arith);
      })

-- A memory of 1 MiB where 2 MiB are expected, seen twice.
abbrev folded : Bus (ℕ → ℕ)
folded = record plain {
  value = λ a w. w (half_line 2 a);
  after_write = λ a v w. update (half_line 2 a) v w;
}

dramc_simple_wr_test_blind_example :
    (b : Board (ℕ → ℕ)) × (dramc_simple_wr_test folded 2 4096 start ≡ done tt b)
dramc_simple_wr_test_blind_example =
    dramc_simple_wr_test_blind folded 2 4096 start (omega arith) (omega arith)
      (record { reads = λ a a' w p q. refl; writes = λ a a' v w p q. refl })

scan_for_addr_wrap_first_example :
    ((rows : ℕ) × (b : Board (ℕ → ℕ)) × (scan_for_addr_wrap plain start ≡ done rows b)
      × IsFirst plain 11 16 6 11 start.world rows)
    × ((columns : ℕ) × (b : Board (ℕ → ℕ)) × (scan_for_addr_wrap2 plain start ≡ done columns b)
        × IsFirst plain 0 13 6 9 start.world columns)
scan_for_addr_wrap_first_example = scan_for_addr_wrap_first plain (λ a a' w p q. refl) start

-- The parameters of the Nezha board, before the first set-up and after the scan.
abbrev fresh : DramParameters
fresh = record (board_parameters nezha) { dram_tpr13 = 0x34050100 }

abbrev scanned : DramParameters
scanned = record (choose_timings fresh).1 { dram_tpr13 = 0x34056103 }

choose_timings_again_example : (choose_timings scanned).0 ≡ (choose_timings fresh).0
unfolding board_parameters
choose_timings_again_example =
    choose_timings_again fresh scanned refl (omega arith) refl refl refl refl refl

dramc_get_dram_size-mctl_com_init_example :
    (size : ℕ) × (b : Board (ℕ → ℕ)) × ((mctl_com_init plain (board_parameters nezha)
          >> dramc_get_dram_size plain)
        start
      ≡ done size b)
    × (size * 2 ^ 20 ≡ 2 ^ (1 + 10) * 2 ^ 15 * 2 ^ (1 + 2))
unfolding board_parameters
dramc_get_dram_size-mctl_com_init_example =
    dramc_get_dram_size-mctl_com_init plain (board_parameters nezha) 1 15 1 start
      (record { own = λ v w. refl; other = λ r v w ne. ground arith; reads = λ r w. refl })
      (omega arith) (omega arith) (omega arith) (omega arith) refl refl refl

-- A controller that answers at once and finds two ranks of full width.
abbrev quiet : Bus ℕ
quiet = record {
  value = λ a w.
      if a == pll_ddr_ctrl then 1 else if a == pgsr0 then 1 else if a == statr_x then 1 else 0;
  after_read = λ a w. w;
  after_write = λ a v w. w;
  after_delay = λ n w. w;
}

abbrev found : DramParameters
found = record (choose_timings fresh).1 { dram_mr2 = 24; dram_para2 = 0x1000 }

abbrev before_probe : Board ℕ
before_probe = record { world = 0; phy_cfg0 = replicate 22 0 }

abbrev after_probe : Board ℕ
after_probe = record {
  world = 0;
  phy_cfg0 =
      3 ∷ 2 ∷ 4 ∷ 7 ∷ 9 ∷ 1 ∷ 17 ∷ 12 ∷ 18 ∷ 14 ∷ 13 ∷ 8 ∷ 15 ∷ 6 ∷ 10 ∷ 5 ∷ 19 ∷ 22 ∷ 16 ∷ 21 ∷ 20
      ∷ 11 ∷ [];
}

probe_runs : auto_scan_dram_rank_width quiet 1 fresh before_probe ≡ done found after_probe
unfolding auto_scan_dram_rank_width mctl_core_init mctl_sys_init mctl_vrefzq_init mctl_com_init
    mctl_phy_ac_remapping auto_set_timing_para mctl_channel_init for_range poll board_parameters
    choose_timings
probe_runs = refl

auto_scan_dram_rank_width-IsProbed_example : IsProbed quiet 1 fresh before_probe found
auto_scan_dram_rank_width-IsProbed_example =
    auto_scan_dram_rank_width-IsProbed quiet 1 fresh before_probe probe_runs

small : fresh.dram_para2 < 2 ^ 16
unfolding board_parameters
small = omega arith

memory_size-probed_example :
    (found.dram_para2 ≡ probed fresh.dram_para2 &&& 0xffff0ff0)
    ⊎ ((b : Board ℕ) → memory_size quiet found b ≡ done (0, found) b)
memory_size-probed_example = memory_size-probed quiet 1 fresh before_probe probe_runs small

-- The Nezha board has 512 MB.
nezha_timings : (read_timings (board_parameters nezha)).trefi ≡ 0x61
unfolding read_timings board_parameters
nezha_timings = refl

nezha_size : rank_size (rank_mode (board_parameters nezha) 0 0) ≡ 512
unfolding rank_size rank_mode board_parameters
nezha_size = refl

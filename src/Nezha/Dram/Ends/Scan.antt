-- ===== src/Nezha/Dram/Ends/Scan.antt =====
-- The scans, and the initialisation as a whole, end, src/mainboard/sunxi/nezha/bt0/src/mctl.rs.
use upstream_oreboot.Prelude.{◌≤◌, ℕ, zero, suc, ◌+◌, ◌*◌, ◌<◌, ◌^◌, ◌≡◌, not, arith, if_ind}
use upstream_oreboot.Prelude.{◌==◌, ◌>>>◌, ◌&&&◌, any_of}
use upstream_oreboot.Nezha.Dram.Bus.{Bus, Board, Run, done, failed, waiting, throw}
use upstream_oreboot.Nezha.Dram.Clock.{}
use upstream_oreboot.Nezha.Dram.Setup.{}
use upstream_oreboot.Nezha.Dram.Modes.{}
use upstream_oreboot.Nezha.Dram.Channel.{}
use upstream_oreboot.Nezha.Dram.Scan.{
  pattern_word, mirror_loop, scan_loop, scan_for_addr_wrap, scan_for_addr_wrap2, set_mode,
  set_rank_mode, scan_bank, scan_rank, rank_loop, auto_scan_dram_size, probe_parameters,
  auto_scan_dram_rank_width, auto_scan_dram_config,
}
use upstream_oreboot.Prelude.{refl}
use upstream_oreboot.Nezha.Dram.Params.{DramParameters}
use upstream_oreboot.Nezha.Dram.Registers.{ram_base, pgsr0, some_status, mc_work_mode_rank0_1}
use upstream_oreboot.Nezha.Dram.Ends.{
  Ends, and_then-Ends, branch-Ends, for_range-Ends, when-Ends, seen, poll-Ends, Responsive,
}
use upstream_oreboot.Nezha.Dram.Ends.Core.{mctl_core_init-Ends}
use upstream_oreboot.Nezha.Dram.Size.{
  dqs_gate_detect, dramc_get_dram_size, dramc_simple_wr_test, write_patterns, check_patterns,
  check_word, with_detected,
}
use upstream_oreboot.Nezha.Dram.Init.{
  calibrate, memory_size, tune, final_test, try_init_dram, init_dram, zero_on_error,
}
use upstream_oreboot.Prelude.{u32, Option, some, none}
use upstream_oreboot.Nezha.Dram.Bus.{rank_width}
use upstream_oreboot.Nezha.Dram.Clock.{dram_vol_set, dram_enable_all_master}

module _ {S : Type 0} where
  returned : (r : Run S ℕ) → Ends r → (size : ℕ) × (b' : Board S) × (zero_on_error r ≡ done size b')
  returned (done size b) h = (size, b, refl)
  returned (failed e b) h = (0, b, refl)
  returned waiting h = absurd h

module _ {S : Type 0} (bus : Bus S) where
  with_detected-Ends :
      (para : DramParameters) (found : Option ℕ) (b : Board S)
      → Ends (with_detected bus para found b)
  with_detected-Ends para none b = tt
  with_detected-Ends para (some para2) b = tt

  check_word-Ends : (offs i : ℕ) (b : Board S) → Ends (check_word bus offs i b)
  unfolding check_word
  check_word-Ends offs i b =
      branch-Ends (not (bus.value (ram_base + 4 * i) b.world == u32 (0x01234567 + i))) _ _
        (seen bus (ram_base + 4 * i) b) tt
        (branch-Ends (not (bus.value (ram_base + 4 * i + offs) _ == u32 (0xfedcba98 + i))) _ _ _ tt
          tt)

module _ {S : Type 0} (bus : Bus S) where
  dqs_gate_detect-Ends : (para : DramParameters) (b : Board S) → Ends (dqs_gate_detect bus para b)
  unfolding dqs_gate_detect
  dqs_gate_detect-Ends para b =
      branch-Ends (any_of (bus.value pgsr0 b.world) 0x400000) _ _ (seen bus pgsr0 b)
        (with_detected-Ends bus para _ _) tt

  calibrate-Ends : (para : DramParameters) (b : Board S) → Ends (calibrate bus para b)
  unfolding calibrate
  calibrate-Ends para b = branch-Ends (any_of para.dram_tpr13 0x10000) _ _ b tt tt

  memory_size-Ends : (para : DramParameters) (b : Board S) → Ends (memory_size bus para b)
  unfolding memory_size dramc_get_dram_size
  memory_size-Ends para b = branch-Ends (not (para.dram_para2 == 0)) _ _ b tt (
      and_then-Ends _ _
        (branch-Ends ((bus.value mc_work_mode_rank0_1 b.world &&& 0x3) == 0) _ _
          (seen bus mc_work_mode_rank0_1 b) tt tt)
        (λ _ _. tt))

  tune-Ends : (para : DramParameters) (b : Board S) → Ends (tune bus para b)
  unfolding tune
  tune-Ends para b =
      and_then-Ends _ _ (branch-Ends (any_of para.dram_tpr13 0x40000000) _ _ b tt tt) (λ _ b1.
        and_then-Ends _ _
          (branch-Ends ((para.dram_tpr13 &&& 0x200) == 0) _ _ _
            (when-Ends (not (para.dram_type == 6)) _ (λ _. tt) _) tt)
          (λ _ b2.
            and_then-Ends _ _ (when-Ends (any_of para.dram_tpr13 0x100) _ (λ _. tt) _)
              (λ _ b3. when-Ends (para.dram_type == 7) _ (λ _. tt) _)))

  final_test-Ends :
      (para : DramParameters) (size : ℕ) (b : Board S) → Ends (final_test bus para size b)
  unfolding final_test dramc_simple_wr_test write_patterns check_patterns
  final_test-Ends para size b =
      branch-Ends (any_of para.dram_tpr13 0x10000000) _ _ b
        (branch-Ends (any_of (bus.value some_status b.world) 0x10000) _ _ (seen bus some_status b)
          tt
          (and_then-Ends _ _
            (and_then-Ends _ _ (for_range-Ends 4096 0 _ (λ _ _. tt) _)
              (λ _ b1. for_range-Ends 4096 0 _ (check_word-Ends bus ((size >>> 1) * 2 ^ 18)) b1))
            (λ _ _. tt)))
        tt

module _ {S : Type 0} (bus : Bus S) where
  mirror_loop-Ends : (offset count j : ℕ) (b : Board S) → Ends (mirror_loop bus offset count j b)
  unfolding mirror_loop
  mirror_loop-Ends offset zero j b = tt
  mirror_loop-Ends offset (suc count) j b =
      branch-Ends (not (bus.value (ram_base + j * 4 + offset) b.world == pattern_word j)) _ _ _ tt
        (mirror_loop-Ends offset count (suc j) _)

  scan_loop-Ends :
      (low otherwise count i : ℕ) (b : Board S) → Ends (scan_loop bus low otherwise count i b)
  unfolding scan_loop
  scan_loop-Ends low otherwise zero i b = tt
  scan_loop-Ends low otherwise (suc count) i b =
      and_then-Ends _ _ (mirror_loop-Ends (2 ^ (i + low)) 64 0 b) (λ mirrored b1.
        branch-Ends mirrored _ _ b1 tt (scan_loop-Ends low otherwise count (suc i) b1))

module _ {S : Type 0} (bus : Bus S) (fuel : ℕ) (h : Responsive bus fuel) where
  set_mode-Ends :
      (rank mask bits : ℕ) (b : Board S)
      → rank < 2
      → Ends (set_mode bus fuel (mc_work_mode_rank0_1 + rank * 4) mask bits b)
  unfolding set_mode
  set_mode-Ends rank mask bits b less = poll-Ends bus fuel _ _ _ (h.holds rank _ _ less)

  set_rank_mode-Ends :
      (rank bits : ℕ) (b : Board S)
      → rank < 2
      → Ends (set_rank_mode bus fuel rank (mc_work_mode_rank0_1 + rank * 4) bits b)
  unfolding set_rank_mode
  set_rank_mode-Ends rank bits b less =
      and_then-Ends _ _ (when-Ends (rank == 1) _ (λ _. tt) b)
        (λ _ b1. set_mode-Ends rank _ bits b1 less)

  scan_rank-Ends :
      (rank offs : ℕ) (para : DramParameters) (b : Board S)
      → rank < 2
      → Ends (scan_rank bus fuel rank (mc_work_mode_rank0_1 + rank * 4) offs para b)
  unfolding scan_rank scan_for_addr_wrap scan_for_addr_wrap2 scan_bank
  scan_rank-Ends rank offs para b less = and_then-Ends _ _ (set_mode-Ends rank _ _ b less) (λ _ b1.
      and_then-Ends _ _ (scan_loop-Ends bus 11 16 6 11 b1) (λ rows b2.
        and_then-Ends _ _ (set_rank_mode-Ends rank _ b2 less) (λ _ b3.
          and_then-Ends _ _ (and_then-Ends _ _ (mirror_loop-Ends bus (2 ^ 22) 63 0 b3) (λ _ _. tt))
            (λ bank b4. and_then-Ends _ _ (set_rank_mode-Ends rank _ b4 less) (λ _ b5.
              and_then-Ends _ _ (scan_loop-Ends bus 0 13 6 9 b5) (λ line b6.
                and_then-Ends _ _ (when-Ends (rank == 1) _ (λ _. tt) _) (λ _ _. tt)))))))

  rank_loop-Ends :
      (count rank mode offs : ℕ) (para : DramParameters) (b : Board S)
      → mode ≡ mc_work_mode_rank0_1 + rank * 4
      → rank + count ≤ 2
      → Ends (rank_loop bus fuel count rank mode offs para b)
  unfolding rank_loop
  rank_loop-Ends zero rank mode offs para b e fits = tt
  rank_loop-Ends (suc count) rank mode offs para b e fits =
      and_then-Ends _ _ (rw e (scan_rank-Ends rank offs para b (omega arith))) (λ para1 b1.
        rank_loop-Ends count (suc rank) (mode + 4) (offs + 16) para1 b1 (omega arith) (omega arith))

  auto_scan_dram_size-Ends :
      (para : DramParameters) (b : Board S) → Ends (auto_scan_dram_size bus fuel para b)
  unfolding auto_scan_dram_size
  auto_scan_dram_size-Ends para b =
      and_then-Ends _ _ (mctl_core_init-Ends bus fuel h para b) (λ para1 b1.
        and_then-Ends _ _ (for_range-Ends 64 0 _ (λ _ _. tt) b1) (λ _ b2.
          rank_loop-Ends _ 0 _ 0 para1 b2 refl (
            if_ind (λ (n : ℕ). 0 + n ≤ 2) ((para1.dram_para2 &&& 0xf000) == 0) (omega arith)
              (omega arith))))

  auto_scan_dram_rank_width-Ends :
      (para : DramParameters) (b : Board S) → Ends (auto_scan_dram_rank_width bus fuel para b)
  unfolding auto_scan_dram_rank_width
  auto_scan_dram_rank_width-Ends para b =
      and_then-Ends _ _ (mctl_core_init-Ends bus fuel h (probe_parameters para) b) (λ para1 b1.
        branch-Ends (any_of (bus.value pgsr0 b1.world) 0x100000) (throw rank_width) _
          (seen bus pgsr0 b1) tt (and_then-Ends _ _ (dqs_gate_detect-Ends bus para1 _) (λ _ _. tt)))

  auto_scan_dram_config-Ends :
      (para : DramParameters) (b : Board S) → Ends (auto_scan_dram_config bus fuel para b)
  unfolding auto_scan_dram_config
  auto_scan_dram_config-Ends para b =
      and_then-Ends _ _
        (branch-Ends (any_of para.dram_tpr13 0x4000) _ _ b tt
          (auto_scan_dram_rank_width-Ends para b))
        (λ para1 b1.
          and_then-Ends _ _
            (branch-Ends (any_of para1.dram_tpr13 0x1) _ _ b1 tt
              (auto_scan_dram_size-Ends para1 b1))
            (λ _ _. tt))

  try_init_dram-Ends : (para : DramParameters) (b : Board S) → Ends (try_init_dram bus fuel para b)
  unfolding try_init_dram dram_vol_set dram_enable_all_master
  try_init_dram-Ends para b = and_then-Ends _ _ (calibrate-Ends bus para b) (λ _ b1.
      and_then-Ends _ _
        (branch-Ends ((para.dram_tpr13 &&& 0x1) == 0) _ _ _ (auto_scan_dram_config-Ends para _) tt)
        (λ para1 b2. and_then-Ends _ _ (mctl_core_init-Ends bus fuel h para1 b2) (λ para2 b3.
          and_then-Ends _ _ (memory_size-Ends bus para2 b3) (λ sized b4.
            and_then-Ends _ _ (tune-Ends bus sized.1 b4)
              (λ _ b5. final_test-Ends bus sized.1 sized.0 _)))))

  -- On hardware that answers within the fuel, `init_dram` returns, whatever the parameters are.
  pub init_dram_returns :
      (para : DramParameters) (b : Board S)
      → (size : ℕ) × (b' : Board S) × (init_dram bus fuel para b ≡ done size b')
  unfolding init_dram
  init_dram_returns para b = returned (try_init_dram bus fuel para b) (try_init_dram-Ends para b)

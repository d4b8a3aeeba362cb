-- ===== src/Nezha/Dram/Size.antt =====
-- The size of the memory, its ranks and width, and its test, src/mainboard/sunxi/nezha/bt0/src/mctl.rs.
use upstream_oreboot.Prelude.{ℕ, ◌+◌, ◌*◌, ◌%◌, ◌^◌, not}
use upstream_oreboot.Prelude.{◌==◌, if◌then◌else◌, ◌>>>◌, ◌&&&◌, ◌|||◌, any_of, sub32, u32}
use upstream_oreboot.Nezha.Dram.Bus.{
  Bus, DramError, Step, Proc, pure, throw, ◌>>=◌, ◌>>◌, for_range, readl, writel,
}
use upstream_oreboot.Nezha.Dram.Params.{DramParameters}
use upstream_oreboot.Prelude.{Option, none, some}
use upstream_oreboot.Nezha.Dram.Bus.{base, dqs_gate}
use upstream_oreboot.Nezha.Dram.Registers.{
  ram_base, mc_work_mode_rank0_1, mc_work_mode_rank0_2, pgsr0, unknown4, unknown5,
}

-- The megabytes of the rank that a mode register describes; a shift counts modulo 32.
unfoldable pub rank_size : ℕ → ℕ
rank_size mode =
    let temp =
      sub32 (((mode >>> 8) &&& 0xf) + ((mode >>> 4) &&& 0xf) + ((mode >>> 2) &&& 0x3)) 14 in
    2 ^ (temp % 32)

module _ {S : Type 0} (bus : Bus S) where
  unfoldable pub dramc_get_dram_size : Step S ℕ
  unfolding rank_size
  dramc_get_dram_size = do
    low ← readl bus mc_work_mode_rank0_1
    if (low &&& 0x3) == 0 then pure (rank_size low) else (do
      high ← readl bus mc_work_mode_rank0_2
      pure (
          if (high &&& 0x3) == 0
          then u32 (2 * rank_size low)
          else u32 (rank_size low + rank_size high)))

-- What the strobe gates of the two lanes say of the ranks and the width; `none` is an error.
unfoldable pub detected : ℕ → ℕ → ℕ → Option ℕ
detected para2 dx0 dx1 =
    if dx0 == 2
    then some (if not (dx0 == dx1) then (para2 &&& 0xffff0ff0) ||| 0x1 else para2 &&& 0xffff0ff0)
    else if dx0 == 0
    then some ((para2 &&& 0xfffffff0) ||| 0x00001001)
    else none

module _ {S : Type 0} (bus : Bus S) where
  abbrev pub with_detected : DramParameters → Option ℕ → Step S DramParameters
  with_detected para none = throw dqs_gate
  with_detected para (some para2) = pure (record para { dram_para2 = para2 })

  unfoldable pub dqs_gate_detect : DramParameters → Step S DramParameters
  unfolding detected
  dqs_gate_detect para = do
    status ← readl bus pgsr0
    (if any_of status 0x400000
        then (do
          lane0 ← readl bus unknown4
          lane1 ← readl bus unknown5
          with_detected para
              (detected para.dram_para2 ((lane0 >>> 24) &&& 0x3) ((lane1 >>> 24) &&& 0x3)))
        else pure (record para { dram_para2 = (para.dram_para2 &&& 0xfffffff0) ||| 0x00001000 }))

  -- The bodies of the two loops of the test.
  unfoldable pub write_word : ℕ → ℕ → Proc S
  write_word offs i = do
    writel bus (ram_base + 4 * i) (u32 (0x01234567 + i))
    writel bus (ram_base + 4 * i + offs) (u32 (0xfedcba98 + i))

  unfoldable pub check_word : ℕ → ℕ → Proc S
  check_word offs i = do
    low ← readl bus (ram_base + 4 * i)
    if not (low == u32 (0x01234567 + i)) then throw base else (do
      high ← readl bus (ram_base + 4 * i + offs)
      if not (high == u32 (0xfedcba98 + i)) then throw DramError.offs else pure tt)

  unfoldable pub write_patterns : ℕ → ℕ → ℕ → Proc S
  unfolding write_word
  write_patterns offs count i = for_range count i (write_word offs)

  unfoldable pub check_patterns : ℕ → ℕ → ℕ → Proc S
  unfolding check_word
  check_patterns offs count i = for_range count i (check_word offs)

  -- `offs` is a number of bytes, an eighth of the size of the memory.
  unfoldable pub dramc_simple_wr_test : ℕ → ℕ → Proc S
  unfolding write_patterns check_patterns
  dramc_simple_wr_test mem_mb len = do
    let offs = (mem_mb >>> 1) * 2 ^ 18
    write_patterns offs len 0
    check_patterns offs len 0

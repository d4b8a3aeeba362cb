-- ===== src/Nezha/Dram/Scan.antt =====
-- The scan for the size, the ranks and the width of the memory, src/mainboard/sunxi/nezha/bt0/src/mctl.rs.
use upstream_oreboot.Prelude.{ℕ, zero, suc, ◌+◌, ◌-◌, ◌*◌, ◌^◌, Bool, true, false, not}
use upstream_oreboot.Prelude.{◌==◌, if◌then◌else◌, ◌&&&◌, ◌|||◌, any_of, not32, shl32, u32}
use upstream_oreboot.Nezha.Dram.Bus.{
  Bus, Step, Proc, pure, throw, ◌>>=◌, ◌>>◌, for_range, when, readl, writel, change, poll,
}
use upstream_oreboot.Nezha.Dram.Params.{DramParameters}
use upstream_oreboot.Nezha.Dram.Channel.{mctl_core_init}
use upstream_oreboot.Nezha.Dram.Size.{dqs_gate_detect}
use upstream_oreboot.Nezha.Dram.Bus.{rank_width}
use upstream_oreboot.Nezha.Dram.Registers.{
  ram_base, mc_work_mode_rank0_1, pgsr0, mc_work_mode_rank1_1, mc_work_mode_rank1_2,
}

-- The word that the test pattern has at word `j`.
unfoldable pub pattern_word : ℕ → ℕ
pattern_word j = let ptr = u32 (ram_base + 4 * j) in if any_of j 1 then ptr else not32 ptr

module _ {S : Type 0} (bus : Bus S) where
  -- `j` from `j` on: whether the `count` words at `offset` mirror the pattern. Ends at the first
  -- one that does not.
  unfoldable pub mirror_loop : ℕ → ℕ → ℕ → Step S Bool
  unfolding pattern_word
  mirror_loop offset zero j = pure true
  mirror_loop offset (suc count) j = do
    val ← readl bus (ram_base + j * 4 + offset)
    let rest = mirror_loop offset count (suc j)
    if not (val == pattern_word j) then pure false else rest

  -- `i` from `i` on: the first line whose address mirrors the pattern, else `otherwise`.
  unfoldable pub scan_loop : ℕ → ℕ → ℕ → ℕ → Step S ℕ
  unfolding mirror_loop
  scan_loop low otherwise zero i = pure otherwise
  scan_loop low otherwise (suc count) i = do
    mirrored ← mirror_loop (2 ^ (i + low)) 64 0
    let rest = scan_loop low otherwise count (suc i)
    if mirrored then pure i else rest

  unfoldable pub scan_for_addr_wrap : Step S ℕ
  unfolding scan_loop
  scan_for_addr_wrap = scan_loop 11 16 6 11

  unfoldable pub scan_for_addr_wrap2 : Step S ℕ
  unfolding scan_loop
  scan_for_addr_wrap2 = scan_loop 0 13 6 9

  -- 1 if the address line of BA2 is connected, 0 if it mirrors.
  unfoldable pub scan_bank : Step S ℕ
  unfolding mirror_loop
  scan_bank = do mirrored ← mirror_loop (2 ^ 22) 63 0; pure (if mirrored then 0 else 1)

  abbrev reset_rank1_modes : Proc S
  reset_rank1_modes = do
    change bus mc_work_mode_rank1_1 (λ v. (v &&& 0xfffff003) ||| 0x000006f0)
    change bus mc_work_mode_rank1_2 (λ v. (v &&& 0xfffff003) ||| 0x000006f0)

-- The parameters of the probe of the data strobes.
unfoldable pub probe_parameters : DramParameters → DramParameters
probe_parameters para = record para {
  dram_para1 = 0x00b000b0;
  dram_para2 = (para.dram_para2 &&& 0xfffffff0) ||| 0x1000;
  dram_tpr13 = (para.dram_tpr13 &&& 0xfffffff7) ||| 0x5;
}

-- `(para & !(mask << shft)) | val << shft`
abbrev pub store_field : ℕ → ℕ → ℕ → ℕ → ℕ
store_field mask shft val para1 = (para1 &&& not32 (shl32 mask shft)) ||| shl32 val shft

module _ {S : Type 0} (bus : Bus S) (fuel : ℕ) where
  -- A mode is written until it is read back.
  unfoldable pub set_mode : ℕ → ℕ → ℕ → Proc S
  set_mode reg mask bits = do
    val ← readl bus reg
    let rval = (val &&& mask) ||| bits
    writel bus reg rval
    poll bus fuel reg (λ v. not (v == rval))

  -- A mode of both ranks, the second one at `mc_work_mode`.
  unfoldable pub set_rank_mode : ℕ → ℕ → ℕ → Proc S
  unfolding set_mode
  set_rank_mode rank mc_work_mode bits = do
    when (rank == 1) (change bus mc_work_mode_rank0_1 (λ v. (v &&& 0xfffff003) ||| bits))
    set_mode mc_work_mode 0xfffff003 bits

  -- The rows, the banks and the page size of a rank, stored at `offs` of `dram_para1`.
  unfoldable pub scan_rank : ℕ → ℕ → ℕ → DramParameters → Step S DramParameters
  unfolding set_mode set_rank_mode scan_bank scan_for_addr_wrap scan_for_addr_wrap2
  scan_rank rank mc_work_mode offs para = do
    set_mode mc_work_mode 0xfffff0f3 0x000006f0
    rows ← scan_for_addr_wrap bus
    let para1_rows = store_field 0xff (4 + offs) rows para.dram_para1
    set_rank_mode rank mc_work_mode 0x000006a4
    bank ← scan_bank bus
    let para1_banks = store_field 0xf (12 + offs) bank para1_rows
    set_rank_mode rank mc_work_mode 0x00000aa0
    line ← scan_for_addr_wrap2 bus
    let pgsize = (if line == 9 then 0 else 2 ^ (line - 10))
    reset_rank1_modes bus
    when (rank == 1) (reset_rank1_modes bus)
    pure (record para { dram_para1 = store_field 0xf offs pgsize para1_banks })

  -- `for rank in 0..maxrank`, from `rank` on.
  unfoldable pub rank_loop : ℕ → ℕ → ℕ → ℕ → DramParameters → Step S DramParameters
  unfolding scan_rank
  rank_loop zero rank mc_work_mode offs para = pure para
  rank_loop (suc count) rank mc_work_mode offs para =
      scan_rank rank mc_work_mode offs para >>= λ para1.
      rank_loop count (suc rank) (mc_work_mode + 4) (offs + 16) para1

  unfoldable pub auto_scan_dram_size : DramParameters → Step S DramParameters
  unfolding mctl_core_init rank_loop pattern_word
  auto_scan_dram_size para = do
    para1 ← mctl_core_init bus fuel para
    for_range 64 0 (λ i. writel bus (ram_base + 4 * i) (pattern_word i))
    let maxrank = (if (para1.dram_para2 &&& 0xf000) == 0 then 1 else 2)
    rank_loop maxrank 0 mc_work_mode_rank0_1 0 para1

  unfoldable pub auto_scan_dram_rank_width : DramParameters → Step S DramParameters
  unfolding mctl_core_init dqs_gate_detect probe_parameters
  auto_scan_dram_rank_width para = do
    para1 ← mctl_core_init bus fuel (probe_parameters para)
    status ← readl bus pgsr0
    if any_of status 0x100000 then throw rank_width else (do
      para2 ← dqs_gate_detect bus para1
      pure (record para2 { dram_tpr13 = para.dram_tpr13; dram_para1 = para.dram_para1 }))

  unfoldable pub auto_scan_dram_config : DramParameters → Step S DramParameters
  unfolding auto_scan_dram_rank_width auto_scan_dram_size
  auto_scan_dram_config para = do
    para1 ← (if any_of para.dram_tpr13 0x4000 then pure para else auto_scan_dram_rank_width para)
    para2 ← (if any_of para1.dram_tpr13 0x1 then pure para1 else auto_scan_dram_size para1)
    pure (
        if any_of para2.dram_tpr13 0x8000
        then para2
        else record para2 { dram_tpr13 = para2.dram_tpr13 ||| 0x6003 })

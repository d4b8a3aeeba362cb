-- ===== src/Nezha/Dram/Modes.antt =====
-- The mode registers and the timing registers of the memory, src/mainboard/sunxi/nezha/bt0/src/mctl.rs.
use upstream_oreboot.Prelude.{ℕ, ◌+◌, ◌*◌, ◌/◌, ◌||◌}
use upstream_oreboot.Prelude.{
  ◌==◌, ltb, leb, if◌then◌else◌, ◌>>>◌, ◌&&&◌, ◌|||◌, any_of, shl32, u32,
}
use upstream_oreboot.Nezha.Dram.Bus.{Bus, Step, Proc, pure, ◌>>◌, writel, change}
use upstream_oreboot.Nezha.Dram.Params.{DramParameters}
use upstream_oreboot.Nezha.Dram.Timing.{Timings, choose_timings}
use upstream_oreboot.Nezha.Dram.Registers
use upstream_oreboot.Nezha.Dram.Registers.{
  dram_odtx, ptr3, ptr4, dramtmg0, dramtmg1, dramtmg2, dramtmg3, dramtmg4, dramtmg5, dramtmg8,
  pitmg0, rfshtmg, rfshctl1,
}

-- The variables that are chosen by the type of the memory.
pub record Modes : Type 0 where
  pub tcksrx : ℕ
  pub tckesr : ℕ
  pub trd2wr : ℕ
  pub trasmax : ℕ
  pub twtp : ℕ
  pub tcke : ℕ
  pub tmod : ℕ
  pub tmrd : ℕ
  pub tmrw : ℕ
  pub t_rdata_en : ℕ
  pub tcl : ℕ
  pub wr_latency : ℕ
  pub tcwl : ℕ
  pub mr3 : ℕ
  pub mr2 : ℕ
  pub mr1 : ℕ
  pub mr0 : ℕ
  pub twr2rd : ℕ
  pub tdinit3 : ℕ
  pub tdinit2 : ℕ
  pub tdinit1 : ℕ
  pub tdinit0 : ℕ

-- DDR3, at the frequency `dfreq`.
unfoldable pub ddr3_modes : DramParameters → ℕ → ℕ → Modes
ddr3_modes para twtr twr =
    let dfreq = para.dram_clk in
    let slow = leb dfreq 800 in
    let tcwl = (if slow then 4 else 5) in
    record {
      trasmax = dfreq / 30;
      mr0 = if slow then 0x1c70 else 0x1e14;
      tcl = if slow then 6 else 7;
      wr_latency = if slow then 2 else 3;
      tcwl = tcwl;
      mr2 = if slow then 24 else 32;
      twtp = u32 (tcwl + 2 + twtr);
      twr2rd = u32 (tcwl + twtr);
      tdinit0 = u32 (500 * dfreq + 1);
      tdinit1 = u32 (360 * dfreq) / 1000 + 1;
      tdinit2 = u32 (200 * dfreq + 1);
      tdinit3 = u32 (1 * dfreq + 1);
      mr1 = para.dram_mr1;
      t_rdata_en = tcwl;
      tcksrx = 5;
      tckesr = 4;
      trd2wr = if ((para.dram_tpr13 >>> 2) &&& 0x03) == 0x01 || ltb dfreq 912 then 5 else 6;
      tcke = 3;
      tmod = 12;
      tmrd = 4;
      tmrw = 0;
      mr3 = 0;
    }

-- Any other type.
unfoldable pub default_modes : Modes
default_modes = record {
  twr2rd = 8;
  tcksrx = 4;
  tckesr = 3;
  trd2wr = 4;
  trasmax = 27;
  twtp = 12;
  tcke = 2;
  tmod = 6;
  tmrd = 2;
  tmrw = 0;
  tcwl = 3;
  tcl = 3;
  wr_latency = 1;
  t_rdata_en = 1;
  mr3 = 0;
  mr2 = 0;
  mr1 = 0;
  mr0 = 0;
  tdinit3 = 0;
  tdinit2 = 0;
  tdinit1 = 0;
  tdinit0 = 0;
}

abbrev permitted : ℕ → ℕ → ℕ
permitted old new = if any_of old 0xffff0000 then old else new

unfoldable pub update_modes : Modes → DramParameters → DramParameters
update_modes m para = record para {
  dram_mr0 = permitted para.dram_mr0 m.mr0;
  dram_mr1 = permitted para.dram_mr1 m.mr1;
  dram_mr2 = permitted para.dram_mr2 m.mr2;
  dram_mr3 = permitted para.dram_mr3 m.mr3;
}

module _ {S : Type 0} (bus : Bus S) where
  unfoldable pub write_modes : DramParameters → Proc S
  write_modes para = do
    writel bus Registers.dram_mr0 para.dram_mr0
    writel bus Registers.dram_mr1 para.dram_mr1
    writel bus Registers.dram_mr2 para.dram_mr2
    writel bus Registers.dram_mr3 para.dram_mr3
    writel bus dram_odtx ((para.dram_odt_en >>> 4) &&& 0x3)

  -- The registers DRAMTMG0 to DRAMTMG5; `trtp` is 4 by now.
  unfoldable pub write_timings : Timings → Modes → Proc S
  write_timings t m = do
    writel bus dramtmg0
        (shl32 m.twtp 24 ||| shl32 t.tfaw 16 ||| shl32 m.trasmax 8 ||| shl32 t.tras 0)
    writel bus dramtmg1 (shl32 t.txp 16 ||| shl32 4 8 ||| shl32 t.trc 0)
    writel bus dramtmg2
        (shl32 m.tcwl 24 ||| shl32 m.tcl 16 ||| shl32 m.trd2wr 8 ||| shl32 m.twr2rd 0)
    writel bus dramtmg3 (shl32 m.tmrw 16 ||| shl32 m.tmrd 12 ||| shl32 m.tmod 0)
    writel bus dramtmg4 (shl32 t.trcd 24 ||| shl32 t.tccd 16 ||| shl32 t.trrd 8 ||| shl32 t.trp 0)
    writel bus dramtmg5
        (shl32 m.tcksrx 24 ||| shl32 m.tcksrx 16 ||| shl32 m.tckesr 8 ||| shl32 m.tcke 0)

  unfoldable pub write_phy_times : DramParameters → Timings → Modes → Proc S
  write_phy_times para t m = do
    change bus dramtmg8 (λ v.
        (v &&& 0x0fff0000) ||| (if ltb para.dram_clk 800 then 0xf0006600 else 0xf0007600) ||| 0x10)
    writel bus pitmg0
        (shl32 0x2 24 ||| shl32 m.t_rdata_en 16 ||| shl32 0x1 8 ||| shl32 m.wr_latency 0)
    writel bus ptr3 (shl32 m.tdinit0 0 ||| shl32 m.tdinit1 20)
    writel bus ptr4 (shl32 m.tdinit2 0 ||| shl32 m.tdinit3 20)
    writel bus rfshtmg (shl32 t.trefi 16 ||| shl32 t.trfc 0)
    writel bus rfshctl1 (0x0fff0000 &&& shl32 t.trefi 15)

  unfoldable pub auto_set_timing_para : DramParameters → Step S DramParameters
  unfolding choose_timings ddr3_modes default_modes update_modes write_modes write_timings
      write_phy_times
  auto_set_timing_para para = do
    let t = (choose_timings para).0
    let para1 = (choose_timings para).1
    let m = (if para.dram_type == 3 then ddr3_modes para1 t.twtr t.twr else default_modes)
    let para2 = update_modes m para1
    write_modes para2
    write_timings t m
    write_phy_times para2 t m
    pure para2

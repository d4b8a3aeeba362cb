-- ===== src/Nezha/Dram/Timing.antt =====
-- The timings of the memory, src/mainboard/sunxi/nezha/bt0/src/mctl.rs.
use upstream_oreboot.Prelude.{ℕ, ◌+◌, ◌*◌, ◌/◌, ◌%◌, not}
use upstream_oreboot.Prelude.{
  ◌==◌, ltb, leb, if◌then◌else◌, ◌>>>◌, ◌&&&◌, ◌|||◌, any_of, shl32, u32,
}
use upstream_oreboot.Nezha.Dram.Bus.{}
use upstream_oreboot.Nezha.Dram.Params.{DramParameters}

unfoldable pub auto_cal_timing : ℕ → ℕ → ℕ
auto_cal_timing time freq =
    let t = u32 (time * freq) in t / 1000 + (if not (t % 1000 == 0) then 1 else 0)

-- The variables that are assigned before the mode registers are chosen.
pub record Timings : Type 0 where
  pub tccd : ℕ
  pub trrd : ℕ
  pub trcd : ℕ
  pub trc : ℕ
  pub tfaw : ℕ
  pub tras : ℕ
  pub trp : ℕ
  pub twtr : ℕ
  pub twr : ℕ
  pub trtp : ℕ
  pub txp : ℕ
  pub trefi : ℕ
  pub trfc : ℕ

abbrev pub zero_timings : Timings
zero_timings = record {
  tccd = 0;
  trrd = 0;
  trcd = 0;
  trc = 0;
  tfaw = 0;
  tras = 0;
  trp = 0;
  twtr = 0;
  twr = 0;
  trtp = 0;
  txp = 0;
  trefi = 0;
  trfc = 0;
}

-- The timings that the parameters hold.
unfoldable pub read_timings : DramParameters → Timings
read_timings para = record {
  tccd = (para.dram_tpr0 >>> 21) &&& 0x7;
  tfaw = (para.dram_tpr0 >>> 15) &&& 0x3f;
  trrd = (para.dram_tpr0 >>> 11) &&& 0xf;
  trcd = (para.dram_tpr0 >>> 6) &&& 0x1f;
  trc = (para.dram_tpr0 >>> 0) &&& 0x3f;
  txp = (para.dram_tpr1 >>> 23) &&& 0x1f;
  twtr = (para.dram_tpr1 >>> 20) &&& 0x7;
  trtp = (para.dram_tpr1 >>> 15) &&& 0x1f;
  twr = (para.dram_tpr1 >>> 11) &&& 0xf;
  trp = (para.dram_tpr1 >>> 6) &&& 0x1f;
  tras = (para.dram_tpr1 >>> 0) &&& 0x3f;
  trfc = (para.dram_tpr2 >>> 12) &&& 0x1ff;
  trefi = (para.dram_tpr2 >>> 0) &&& 0xfff;
}

-- The timings of DDR3 memory; `trrd` is still zero when it is tested.
unfoldable pub ddr3_timings : ℕ → Timings → Timings
unfolding auto_cal_timing
ddr3_timings dfreq t0 =
    let frq2 = dfreq >>> 1 in
    let twr8 = auto_cal_timing 8 frq2 in
    let trcd15 = auto_cal_timing 15 frq2 in
    let trrdc = auto_cal_timing 10 frq2 in
    let trrd = (if ltb t0.trrd 2 then 2 else trrdc) in
    let t1 = record t0 {
      trfc = auto_cal_timing 350 frq2;
      trefi = auto_cal_timing 7800 frq2 / 32 + 1;
      twtr = if ltb twr8 2 then 2 else twr8 + 2;
      trcd = trcd15;
      twr = if ltb trcd15 2 then 2 else trcd15;
    } in
    if leb dfreq 800
    then record t1 {
      tfaw = auto_cal_timing 50 frq2;
      trrd = trrd;
      trc = auto_cal_timing 53 frq2;
      tras = auto_cal_timing 38 frq2;
      txp = trrd;
      trp = trcd15;
    }
    else t1

unfoldable pub pack_tpr0 : Timings → ℕ
pack_tpr0 t =
    shl32 t.trc 0 ||| shl32 t.trcd 6 ||| shl32 t.trrd 11 ||| shl32 t.tfaw 15 ||| shl32 t.tccd 21

unfoldable pub pack_tpr1 : Timings → ℕ
pack_tpr1 t =
    shl32 t.tras 0
    ||| shl32 t.trp 6
    ||| shl32 t.twr 11
    ||| shl32 t.trtp 15
    ||| shl32 t.twtr 20
    ||| shl32 t.txp 23

unfoldable pub pack_tpr2 : Timings → ℕ
pack_tpr2 t = shl32 t.trefi 0 ||| shl32 t.trfc 12

-- The timings that are computed, for want of timings in the parameters.
unfoldable pub new_timings : DramParameters → Timings
new_timings para =
    let t =
      (if para.dram_type == 3 then ddr3_timings para.dram_clk zero_timings else zero_timings) in
    record t { tccd = 2; trtp = 4 }

unfoldable pub store_timings : Timings → DramParameters → DramParameters
store_timings t para = record para {
  dram_tpr0 = pack_tpr0 t;
  dram_tpr1 = pack_tpr1 t;
  dram_tpr2 = pack_tpr2 t;
}

-- The timings, and the parameters with the timings in them.
unfoldable pub choose_timings : DramParameters → Timings × DramParameters
unfolding read_timings new_timings store_timings
choose_timings para =
    if any_of para.dram_tpr13 0x2
    then (read_timings para, para)
    else (new_timings para, store_timings (new_timings para) para)

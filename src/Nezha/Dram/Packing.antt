-- ===== src/Nezha/Dram/Packing.antt =====
-- Timings that are packed and read back, src/mainboard/sunxi/nezha/bt0/src/mctl.rs.
use upstream_oreboot.Prelude.{ℕ, ◌+◌, ◌*◌, ◌/◌, ◌^◌, ◌<◌, ◌≤◌, ◌≡◌, ◌∙◌, refl, arith, true, false}
use upstream_oreboot.Prelude.{u32, shl32, any_of, ◌|||◌}
use upstream_oreboot.Prelude.Bits.{bit_or_fields, bit_or_comm, bit_and_mask}
use upstream_oreboot.Nezha.Dram.Params.{DramParameters}
use upstream_oreboot.Nezha.Dram.Timing.{
  auto_cal_timing, Timings, read_timings, ddr3_timings, pack_tpr0, pack_tpr1, pack_tpr2,
  new_timings, store_timings, choose_timings,
}

-- The product, divided by 1000 and rounded up.
pub auto_cal_timing_ceiling :
    (time freq : ℕ)
    → time * freq < 2 ^ 32
    → (time * freq ≤ 1000 * auto_cal_timing time freq)
      × (1000 * auto_cal_timing time freq < time * freq + 1000)
unfolding auto_cal_timing
auto_cal_timing_ceiling time freq fits = ground arith

-- A field put above a word that is below it.
pub add_field : (k q r : ℕ) → r < 2 ^ k → q * 2 ^ k < 2 ^ 32 → r ||| shl32 q k ≡ q * 2 ^ k + r
add_field k q r below fits =
    let whole : u32 (q * 2 ^ k) ≡ q * 2 ^ k = omega arith in
    rw whole (bit_or_comm r (q * 2 ^ k) ∙ bit_or_fields k q r below)

-- The timings fit their fields.
pub record Fit (t : Timings) : Type 0 where
  pub tccd : t.tccd < 2 ^ 3
  pub tfaw : t.tfaw < 2 ^ 6
  pub trrd : t.trrd < 2 ^ 4
  pub trcd : t.trcd < 2 ^ 5
  pub trc : t.trc < 2 ^ 6
  pub txp : t.txp < 2 ^ 5
  pub twtr : t.twtr < 2 ^ 3
  pub trtp : t.trtp < 2 ^ 5
  pub twr : t.twr < 2 ^ 4
  pub trp : t.trp < 2 ^ 5
  pub tras : t.tras < 2 ^ 6
  pub trfc : t.trfc < 2 ^ 9
  pub trefi : t.trefi < 2 ^ 12

module _ (t : Timings) (fit : Fit t) where
  open fit use {tccd, tfaw, trrd, trcd, trc, txp, twtr, trtp, twr, trp, tras, trfc, trefi}

  pack_tpr0-sum :
      pack_tpr0 t
      ≡ t.tccd * 2 ^ 21 + (t.tfaw * 2 ^ 15 + (t.trrd * 2 ^ 11 + (t.trcd * 2 ^ 6 + t.trc)))
  unfolding pack_tpr0
  pack_tpr0-sum =
      let first : shl32 t.trc 0 ≡ t.trc = omega arith in
      rw
        (
          first,
          add_field 6 t.trcd t.trc (omega arith) (omega arith),
          add_field 11 t.trrd (t.trcd * 2 ^ 6 + t.trc) (omega arith) (omega arith),
          add_field 15 t.tfaw (t.trrd * 2 ^ 11 + (t.trcd * 2 ^ 6 + t.trc)) (omega arith)
              (omega arith),
        )
        (add_field 21 t.tccd (t.tfaw * 2 ^ 15 + (t.trrd * 2 ^ 11 + (t.trcd * 2 ^ 6 + t.trc)))
          (omega arith) (omega arith))

  pack_tpr1-sum :
      pack_tpr1 t
      ≡ t.txp * 2 ^ 23
        + (t.twtr * 2 ^ 20 + (t.trtp * 2 ^ 15 + (t.twr * 2 ^ 11 + (t.trp * 2 ^ 6 + t.tras))))
  unfolding pack_tpr1
  pack_tpr1-sum =
      let first : shl32 t.tras 0 ≡ t.tras = omega arith in
      let low = t.twr * 2 ^ 11 + (t.trp * 2 ^ 6 + t.tras) in
      rw
        (
          first,
          add_field 6 t.trp t.tras (omega arith) (omega arith),
          add_field 11 t.twr (t.trp * 2 ^ 6 + t.tras) (omega arith) (omega arith),
          add_field 15 t.trtp low (omega arith) (omega arith),
          add_field 20 t.twtr (t.trtp * 2 ^ 15 + low) (omega arith) (omega arith),
        )
        (add_field 23 t.txp (t.twtr * 2 ^ 20 + (t.trtp * 2 ^ 15 + low)) (omega arith) (omega arith))

  pack_tpr2-sum : pack_tpr2 t ≡ t.trfc * 2 ^ 12 + t.trefi
  unfolding pack_tpr2
  pack_tpr2-sum =
      let first : shl32 t.trefi 0 ≡ t.trefi = omega arith in
      rw first (add_field 12 t.trfc t.trefi (omega arith) (omega arith))

  -- What is stored is read back.
  read_timings-store_timings : (para : DramParameters) → read_timings (store_timings t para) ≡ t
  unfolding read_timings store_timings
  read_timings-store_timings para = ground (
    arith,
    pack_tpr0-sum,
    pack_tpr1-sum,
    pack_tpr2-sum,
    bit_and_mask 3 (pack_tpr0 t / 2 ^ 21),
    bit_and_mask 6 (pack_tpr0 t / 2 ^ 15),
    bit_and_mask 4 (pack_tpr0 t / 2 ^ 11),
    bit_and_mask 5 (pack_tpr0 t / 2 ^ 6),
    bit_and_mask 6 (pack_tpr0 t / 2 ^ 0),
    bit_and_mask 5 (pack_tpr1 t / 2 ^ 23),
    bit_and_mask 3 (pack_tpr1 t / 2 ^ 20),
    bit_and_mask 5 (pack_tpr1 t / 2 ^ 15),
    bit_and_mask 4 (pack_tpr1 t / 2 ^ 11),
    bit_and_mask 5 (pack_tpr1 t / 2 ^ 6),
    bit_and_mask 6 (pack_tpr1 t / 2 ^ 0),
    bit_and_mask 9 (pack_tpr2 t / 2 ^ 12),
    bit_and_mask 12 (pack_tpr2 t / 2 ^ 0),
  )

-- The timings of DDR3 memory at up to 800 MHz fit.
new_timings-Fit :
    (para : DramParameters) → para.dram_type ≡ 3 → para.dram_clk ≤ 800 → Fit (new_timings para)
unfolding new_timings ddr3_timings
new_timings-Fit para ddr3 slow =
    let frq2 = para.dram_clk / 2 in
    let c = λ (time : ℕ) (p : time * frq2 < 2 ^ 32). auto_cal_timing_ceiling time frq2 p in
    rw (ddr3) (
      ground (
        arith,
        c 350 (omega arith),
        c 7800 (omega arith),
        c 8 (omega arith),
        c 15 (omega arith),
        c 50 (omega arith),
        c 53 (omega arith),
        c 38 (omega arith),
      ))

read_timings-eq :
    (p q : DramParameters)
    → p.dram_tpr0 ≡ q.dram_tpr0
    → p.dram_tpr1 ≡ q.dram_tpr1
    → p.dram_tpr2 ≡ q.dram_tpr2
    → read_timings p ≡ read_timings q
unfolding read_timings
read_timings-eq p q e f g = rw (e, f, g) refl

-- DDR3 memory at up to 800 MHz: the timings that a first set-up computes and packs into the
-- parameters, since bit 1 of `dram_tpr13` is clear, are the ones that a later set-up uses, if it
-- finds these three words and that bit set.
pub choose_timings_again :
    (para later : DramParameters)
    → para.dram_type ≡ 3
    → para.dram_clk ≤ 800
    → any_of para.dram_tpr13 0x2 ≡ false
    → any_of later.dram_tpr13 0x2 ≡ true
    → later.dram_tpr0 ≡ (choose_timings para).1.dram_tpr0
    → later.dram_tpr1 ≡ (choose_timings para).1.dram_tpr1
    → later.dram_tpr2 ≡ (choose_timings para).1.dram_tpr2
    → (choose_timings later).0 ≡ (choose_timings para).0
unfolding choose_timings
choose_timings_again para later ddr3 slow clear set0 e f g =
    rw (clear, set0)
      (read_timings-eq later (store_timings (new_timings para) para) (e ∙ rw clear refl)
          (f ∙ rw clear refl) (g ∙ rw clear refl)
        ∙ read_timings-store_timings (new_timings para) (new_timings-Fit para ddr3 slow) para)

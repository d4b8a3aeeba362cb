-- ===== src/Tests/PllRuns.antt =====
-- The clocks that the first stage of the VisionFive 2 sets.
use upstream_oreboot.Prelude.{◌≡◌, refl, arith}
use upstream_oreboot.Visionfive2.Pll.{
  Words, pll0_1000000000, pll1_ddr2133_1066000000, pll2_1188000000, sys_syscon_36, pll0_set_freq,
  pll1_set_freq, pll2_set_freq,
}
use upstream_oreboot.Visionfive2.Pll.Set.{HasClock, pll0_places, pll1_places, pll2_places}
use upstream_oreboot.Visionfive2.Pll.Together.{together, pll_set_freq_together}

abbrev all_ones : Words
all_ones a = 0xffffffff

booted :
    together pll0_1000000000 pll1_ddr2133_1066000000 pll2_1188000000 all_ones sys_syscon_36
    ≡ 0xe42bffc3
unfolding pll0_set_freq pll1_set_freq pll2_set_freq
booted = refl

pll_set_freq_together_example :
    HasClock pll0_places pll0_1000000000
      (together pll0_1000000000 pll1_ddr2133_1066000000 pll2_1188000000 all_ones)
    × HasClock pll1_places pll1_ddr2133_1066000000
        (together pll0_1000000000 pll1_ddr2133_1066000000 pll2_1188000000 all_ones)
    × HasClock pll2_places pll2_1188000000
        (together pll0_1000000000 pll1_ddr2133_1066000000 pll2_1188000000 all_ones)
pll_set_freq_together_example =
    pll_set_freq_together pll0_1000000000 pll1_ddr2133_1066000000 pll2_1188000000 all_ones
      (record {
        prediv = omega arith;
        fbdiv = omega arith;
        postdiv1 = omega arith;
        dacpd = omega arith;
        dsmpd = omega arith;
      })
      (record {
        prediv = omega arith;
        fbdiv = omega arith;
        postdiv1 = omega arith;
        dacpd = omega arith;
        dsmpd = omega arith;
      })
      (record {
        prediv = omega arith;
        fbdiv = omega arith;
        postdiv1 = omega arith;
        dacpd = omega arith;
        dsmpd = omega arith;
      })
      (λ a. omega arith)

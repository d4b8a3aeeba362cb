-- ===== src/Visionfive2/Pll/Together.antt =====
-- The three clocks of pll.rs of src/mainboard/starfive/visionfive2/bt0/src, which share registers.
use upstream_oreboot.Prelude.{◌∙◌, arith}
use upstream_oreboot.Prelude.{◌>>>◌, shl32}
use upstream_oreboot.Visionfive2.Pll.{
  PllFreq, Words, modify, pd_mask, pd_off, pd_on, syscon24_pll0_dacpd_mask,
  syscon24_pll0_dsmpd_mask, syscon28_pll0_fbdiv_mask, syscon32_pll0_postdiv1_mask,
  syscon36_pll0_prediv_mask, syscon44_pll2_dacpd_mask, syscon44_pll2_dsmpd_mask,
  syscon44_pll2_fbdiv_mask, syscon48_pll2_postdiv1_mask, syscon52_pll2_prediv_mask, sys_syscon_24,
  sys_syscon_28, sys_syscon_32, sys_syscon_36, sys_syscon_44, sys_syscon_48, sys_syscon_52,
  pll0_set_freq, pll1_set_freq, pll2_set_freq,
}
use upstream_oreboot.Visionfive2.Pll.Set.{
  Fits, HasClock, AreWords, pll0_places, pll1_places, pll2_places,
}
use upstream_oreboot.Visionfive2.Pll.Powered.{modify-AreWords}
use upstream_oreboot.Visionfive2.Pll.Each.{
  pll0_set_freq-HasClock, pll1_set_freq-HasClock, pll2_set_freq-HasClock,
}

pll0_set_freq-AreWords :
    (f : PllFreq) (w : Words) → Fits 11 f → AreWords w → AreWords (pll0_set_freq f w)
unfolding pll0_set_freq
pll0_set_freq-AreWords f w fits words =
    let w1 = modify sys_syscon_32 pd_mask (shl32 pd_off 27) w in
    let words1 = modify-AreWords sys_syscon_32 pd_mask (shl32 pd_off 27) w (omega arith) words in
    let w2 = modify sys_syscon_24 syscon24_pll0_dacpd_mask (shl32 f.dacpd 24) w1 in
    let words2 =
      modify-AreWords sys_syscon_24 syscon24_pll0_dacpd_mask (shl32 f.dacpd 24) w1 (omega arith)
        words1 in
    let w3 = modify sys_syscon_24 syscon24_pll0_dsmpd_mask (shl32 f.dsmpd 25) w2 in
    let words3 =
      modify-AreWords sys_syscon_24 syscon24_pll0_dsmpd_mask (shl32 f.dsmpd 25) w2 (omega arith)
        words2 in
    let w4 = modify sys_syscon_36 syscon36_pll0_prediv_mask f.prediv w3 in
    let words4 =
      modify-AreWords sys_syscon_36 syscon36_pll0_prediv_mask f.prediv w3
        (omega (arith, fits.prediv)) words3 in
    let w5 = modify sys_syscon_28 syscon28_pll0_fbdiv_mask f.fbdiv w4 in
    let words5 =
      modify-AreWords sys_syscon_28 syscon28_pll0_fbdiv_mask f.fbdiv w4 (omega (arith, fits.fbdiv))
        words4 in
    let w6 = modify sys_syscon_32 syscon32_pll0_postdiv1_mask (shl32 (f.postdiv1 >>> 1) 28) w5 in
    let words6 =
      modify-AreWords sys_syscon_32 syscon32_pll0_postdiv1_mask (shl32 (f.postdiv1 >>> 1) 28) w5
        (omega arith) words5 in
    modify-AreWords sys_syscon_32 pd_mask (shl32 pd_on 27) w6 (omega arith) words6

pll2_set_freq-AreWords :
    (f : PllFreq) (w : Words) → Fits 12 f → AreWords w → AreWords (pll2_set_freq f w)
unfolding pll2_set_freq
pll2_set_freq-AreWords f w fits words =
    let w1 = modify sys_syscon_48 pd_mask (shl32 pd_off 27) w in
    let words1 = modify-AreWords sys_syscon_48 pd_mask (shl32 pd_off 27) w (omega arith) words in
    let w2 = modify sys_syscon_44 syscon44_pll2_dacpd_mask (shl32 f.dacpd 15) w1 in
    let words2 =
      modify-AreWords sys_syscon_44 syscon44_pll2_dacpd_mask (shl32 f.dacpd 15) w1 (omega arith)
        words1 in
    let w3 = modify sys_syscon_44 syscon44_pll2_dsmpd_mask (shl32 f.dsmpd 16) w2 in
    let words3 =
      modify-AreWords sys_syscon_44 syscon44_pll2_dsmpd_mask (shl32 f.dsmpd 16) w2 (omega arith)
        words2 in
    let w4 = modify sys_syscon_52 syscon52_pll2_prediv_mask f.prediv w3 in
    let words4 =
      modify-AreWords sys_syscon_52 syscon52_pll2_prediv_mask f.prediv w3
        (omega (arith, fits.prediv)) words3 in
    let w5 = modify sys_syscon_44 syscon44_pll2_fbdiv_mask (shl32 f.fbdiv 17) w4 in
    let words5 =
      modify-AreWords sys_syscon_44 syscon44_pll2_fbdiv_mask (shl32 f.fbdiv 17) w4 (omega arith)
        words4 in
    let w6 = modify sys_syscon_48 syscon48_pll2_postdiv1_mask (shl32 (f.postdiv1 >>> 1) 28) w5 in
    let words6 =
      modify-AreWords sys_syscon_48 syscon48_pll2_postdiv1_mask (shl32 (f.postdiv1 >>> 1) 28) w5
        (omega arith) words5 in
    modify-AreWords sys_syscon_48 pd_mask (shl32 pd_on 27) w6 (omega arith) words6

module _ (f0 f1 f2 : PllFreq) (w : Words) where
  abbrev pub together : Words
  together = pll1_set_freq f1 (pll2_set_freq f2 (pll0_set_freq f0 w))

-- When pll0, pll2 and pll1 are set one after the other, the order of the first stage, from registers of 32 bits and to clocks
-- whose numbers fit their fields, all three have their numbers and are powered, although the
-- divider of pll0 shares a register with pll1, and the modes of pll2 share one with pll1.
pub pll_set_freq_together :
    (f0 f1 f2 : PllFreq) (w : Words)
    → Fits 11 f0
    → Fits 12 f1
    → Fits 12 f2
    → AreWords w
    → HasClock pll0_places f0 (together f0 f1 f2 w)
      × HasClock pll1_places f1 (together f0 f1 f2 w)
      × HasClock pll2_places f2 (together f0 f1 f2 w)
pll_set_freq_together f0 f1 f2 w fits0 fits1 fits2 words =
    let w0 = pll0_set_freq f0 w in
    let w2 = pll2_set_freq f2 w0 in
    let words0 = pll0_set_freq-AreWords f0 w fits0 words in
    let words2 = pll2_set_freq-AreWords f2 w0 fits2 words0 in
    let r0 = pll0_set_freq-HasClock f0 w fits0 words in
    let r2 = pll2_set_freq-HasClock f2 w0 fits2 words0 in
    let r1 = pll1_set_freq-HasClock f1 w2 fits1 words2 in
    let s0 = r0.0 in
    let s2 = r2.0 in
    let k2 = r2.1 in
    let k1 = r1.1 in
    let modes0 =
      k1.others sys_syscon_24 (omega arith) (omega arith) (omega arith) (omega arith)
      ∙ k2.others sys_syscon_24 (omega arith) (omega arith) (omega arith) (omega arith) in
    let feedback0 =
      k1.others sys_syscon_28 (omega arith) (omega arith) (omega arith) (omega arith)
      ∙ k2.others sys_syscon_28 (omega arith) (omega arith) (omega arith) (omega arith) in
    let power0 =
      k1.others sys_syscon_32 (omega arith) (omega arith) (omega arith) (omega arith)
      ∙ k2.others sys_syscon_32 (omega arith) (omega arith) (omega arith) (omega arith) in
    let front0 = k2.others sys_syscon_36 (omega arith) (omega arith) (omega arith) (omega arith) in
    let power2 = k1.others sys_syscon_48 (omega arith) (omega arith) (omega arith) (omega arith) in
    let front2 = k1.others sys_syscon_52 (omega arith) (omega arith) (omega arith) (omega arith) in
    (
      record {
        dacpd = omega (arith, modes0, s0.dacpd);
        dsmpd = omega (arith, modes0, s0.dsmpd);
        fbdiv = omega (arith, feedback0, s0.fbdiv);
        prediv = omega (arith, front0, k1.below_modes, s0.prediv);
        postdiv1 = omega (arith, power0, s0.postdiv1);
        powered = omega (arith, power0, s0.powered);
      },
      r1.0,
      record {
        dacpd = omega (arith, k1.above_prediv, s2.dacpd);
        dsmpd = omega (arith, k1.above_prediv, s2.dsmpd);
        fbdiv = omega (arith, k1.above_prediv, s2.fbdiv);
        prediv = omega (arith, front2, s2.prediv);
        postdiv1 = omega (arith, power2, s2.postdiv1);
        powered = omega (arith, power2, s2.powered);
      },
    )

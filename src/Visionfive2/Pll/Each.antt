-- ===== src/Visionfive2/Pll/Each.antt =====
-- What each function of pll.rs of src/mainboard/starfive/visionfive2/bt0/src sets.
use upstream_oreboot.Prelude.{◌/◌, ◌^◌, arith}
use upstream_oreboot.Prelude.{◌&&&◌, ◌|||◌, not32, shl32}
use upstream_oreboot.Visionfive2.Pll.{
  PllFreq, Words, sys_syscon_24, sys_syscon_28, sys_syscon_32, sys_syscon_36, sys_syscon_40,
  sys_syscon_44, sys_syscon_48, sys_syscon_52, pll0_set_freq, pll1_set_freq, pll2_set_freq,
}
use upstream_oreboot.Visionfive2.Pll.Fields.{set_bit24, set_bit25, set_low_fbdiv, set_prediv}
use upstream_oreboot.Visionfive2.Pll.Set.{
  Fits, HasClock, IsKept, AreWords, pll0_places, pll1_places, pll2_places,
}
use upstream_oreboot.Visionfive2.Pll.Powered.{
  power_word-IsPowered, frac_word-HasFrac, modes_word-HasModes,
}

pub pll0_set_freq-HasClock :
    (f : PllFreq) (w : Words)
    → Fits 11 f
    → AreWords w
    → HasClock pll0_places f (pll0_set_freq f w) × IsKept pll0_places w (pll0_set_freq f w)
unfolding pll0_set_freq
pll0_set_freq-HasClock f w fits words =
    let a1 = (w sys_syscon_24 &&& not32 (2 ^ 24)) ||| shl32 f.dacpd 24 in
    let e1 = set_bit24 f.dacpd (w sys_syscon_24) fits.dacpd (words sys_syscon_24) in
    let e2 = set_bit25 f.dsmpd a1 fits.dsmpd (omega (arith, e1, words sys_syscon_24, fits.dacpd)) in
    let e3 = set_low_fbdiv f.fbdiv (w sys_syscon_28) fits.fbdiv (words sys_syscon_28) in
    let e4 = set_prediv f.prediv (w sys_syscon_36) fits.prediv (words sys_syscon_36) in
    let power =
      power_word-IsPowered (f.postdiv1 / 2) (w sys_syscon_32) (omega (arith, fits.postdiv1))
        (words sys_syscon_32) in
    (
      record {
        dacpd = omega (arith, e1, e2, fits.dacpd, fits.dsmpd);
        dsmpd = omega (arith, e1, e2, fits.dacpd, fits.dsmpd);
        fbdiv = omega (arith, e3, fits.fbdiv);
        prediv = omega (arith, e4, fits.prediv);
        postdiv1 = power.divider;
        powered = power.powered;
      },
      record {
        below_modes = omega (arith, e1, e2);
        above_fbdiv = omega (arith, e3, fits.fbdiv);
        above_prediv = omega (arith, e4, fits.prediv);
        above_postdiv1 = power.above;
        others = λ a h1 h2 h3 h4. ground arith;
      },
    )

pub pll1_set_freq-HasClock :
    (f : PllFreq) (w : Words)
    → Fits 12 f
    → AreWords w
    → HasClock pll1_places f (pll1_set_freq f w) × IsKept pll1_places w (pll1_set_freq f w)
unfolding pll1_set_freq
pll1_set_freq-HasClock f w fits words =
    let m =
      modes_word-HasModes f.dacpd f.dsmpd f.fbdiv (w sys_syscon_36) fits.dacpd fits.dsmpd fits.fbdiv
        (words sys_syscon_36) in
    let e = set_prediv f.prediv (w sys_syscon_44) fits.prediv (words sys_syscon_44) in
    let power =
      frac_word-HasFrac (f.postdiv1 / 2) (w sys_syscon_40) (omega (arith, fits.postdiv1))
        (words sys_syscon_40) in
    (
      record {
        dacpd = m.dacpd;
        dsmpd = m.dsmpd;
        fbdiv = m.fbdiv;
        prediv = omega (arith, e, fits.prediv);
        postdiv1 = power.divider;
        powered = power.powered;
      },
      record {
        below_modes = m.below;
        above_fbdiv = m.above;
        above_prediv = omega (arith, e, fits.prediv);
        above_postdiv1 = power.above;
        others = λ a h1 h2 h3 h4. ground arith;
      },
    )

pub pll2_set_freq-HasClock :
    (f : PllFreq) (w : Words)
    → Fits 12 f
    → AreWords w
    → HasClock pll2_places f (pll2_set_freq f w) × IsKept pll2_places w (pll2_set_freq f w)
unfolding pll2_set_freq
pll2_set_freq-HasClock f w fits words =
    let m =
      modes_word-HasModes f.dacpd f.dsmpd f.fbdiv (w sys_syscon_44) fits.dacpd fits.dsmpd fits.fbdiv
        (words sys_syscon_44) in
    let e = set_prediv f.prediv (w sys_syscon_52) fits.prediv (words sys_syscon_52) in
    let power =
      power_word-IsPowered (f.postdiv1 / 2) (w sys_syscon_48) (omega (arith, fits.postdiv1))
        (words sys_syscon_48) in
    (
      record {
        dacpd = m.dacpd;
        dsmpd = m.dsmpd;
        fbdiv = m.fbdiv;
        prediv = omega (arith, e, fits.prediv);
        postdiv1 = power.divider;
        powered = power.powered;
      },
      record {
        below_modes = m.below;
        above_fbdiv = m.above;
        above_prediv = omega (arith, e, fits.prediv);
        above_postdiv1 = power.above;
        others = λ a h1 h2 h3 h4. ground arith;
      },
    )

-- ===== src/Visionfive2/Pll/Set.antt =====
-- What the three functions of pll.rs of src/mainboard/starfive/visionfive2/bt0/src set.
use upstream_oreboot.Prelude.{ℕ, ◌+◌, ◌/◌, ◌%◌, ◌^◌, ◌<◌, ◌≡◌, ◌≢◌}
use upstream_oreboot.Visionfive2.Pll.{
  PllFreq, Words, sys_syscon_24, sys_syscon_28, sys_syscon_32, sys_syscon_36, sys_syscon_40,
  sys_syscon_44, sys_syscon_48, sys_syscon_52,
}
use upstream_oreboot.Visionfive2.Pll.Fields.{}

-- A clock of which every number fits its field, with `n` bits for the feedback divider.
pub record Fits (n : ℕ) (f : PllFreq) : Type 0 where
  pub prediv : f.prediv < 2 ^ 6
  pub fbdiv : f.fbdiv < 2 ^ n
  pub postdiv1 : f.postdiv1 < 2 ^ 3
  pub dacpd : f.dacpd < 2
  pub dsmpd : f.dsmpd < 2

-- Where the fields of a generator are: the registers of its modes, its feedback divider, its power and
-- its divider in front, the lowest bits of the modes and of the feedback divider and the bits of the latter.
pub record Places : Type 0 where
  pub modes : ℕ
  pub feedback : ℕ
  pub power : ℕ
  pub front : ℕ
  pub mode_bit : ℕ
  pub fbdiv_bit : ℕ
  pub fbdiv_bits : ℕ

-- Every number of the clock is in its field, and the power bit, which switches off, is clear.
pub record HasClock (p : Places) (f : PllFreq) (w : Words) : Type 0 where
  pub dacpd : w p.modes / 2 ^ p.mode_bit % 2 ≡ f.dacpd
  pub dsmpd : w p.modes / 2 ^ (p.mode_bit + 1) % 2 ≡ f.dsmpd
  pub fbdiv : w p.feedback / 2 ^ p.fbdiv_bit % 2 ^ p.fbdiv_bits ≡ f.fbdiv
  pub prediv : w p.front % 2 ^ 6 ≡ f.prediv
  pub postdiv1 : w p.power / 2 ^ 28 % 4 ≡ f.postdiv1 / 2
  pub powered : w p.power / 2 ^ 27 % 2 ≡ 0

-- The bits around the fields and all other registers are as before.
pub record IsKept (p : Places) (w w' : Words) : Type 0 where
  pub below_modes : w' p.modes % 2 ^ p.mode_bit ≡ w p.modes % 2 ^ p.mode_bit
  pub above_fbdiv :
      w' p.feedback / 2 ^ (p.fbdiv_bit + p.fbdiv_bits)
      ≡ w p.feedback / 2 ^ (p.fbdiv_bit + p.fbdiv_bits)
  pub above_prediv : w' p.front / 2 ^ 6 ≡ w p.front / 2 ^ 6
  pub above_postdiv1 : w' p.power / 2 ^ 30 ≡ w p.power / 2 ^ 30
  pub others : (a : ℕ) → a ≢ p.modes → a ≢ p.feedback → a ≢ p.power → a ≢ p.front → w' a ≡ w a

abbrev pub pll0_places : Places
pll0_places = record {
  modes = sys_syscon_24;
  feedback = sys_syscon_28;
  power = sys_syscon_32;
  front = sys_syscon_36;
  mode_bit = 24;
  fbdiv_bit = 0;
  fbdiv_bits = 11;
}

abbrev pub pll2_places : Places
pll2_places = record {
  modes = sys_syscon_44;
  feedback = sys_syscon_44;
  power = sys_syscon_48;
  front = sys_syscon_52;
  mode_bit = 15;
  fbdiv_bit = 17;
  fbdiv_bits = 12;
}

abbrev pub pll1_places : Places
pll1_places = record {
  modes = sys_syscon_36;
  feedback = sys_syscon_36;
  power = sys_syscon_40;
  front = sys_syscon_44;
  mode_bit = 15;
  fbdiv_bit = 17;
  fbdiv_bits = 12;
}

-- The registers hold words of 32 bits.
abbrev pub AreWords : Words → Type 0
AreWords w = (a : ℕ) → w a < 2 ^ 32

-- ===== src/Visionfive2/Pll.antt =====
-- The clock generators, src/mainboard/starfive/visionfive2/bt0/src/pll.rs, and the registers of init.rs.
pub mod Fields
pub mod Set
pub mod Powered
pub mod Each
pub mod Together
use upstream_oreboot.Prelude.{ℕ, ◌+◌, ◌^◌, ◌-◌, Bool, ◌==◌, if◌then◌else◌}
use upstream_oreboot.Prelude.{◌&&&◌, ◌|||◌, ◌>>>◌, not32, shl32}

-- `PllFreq`; fbdiv is the feedback divider.
pub record PllFreq : Type 0 where
  pub prediv : ℕ
  pub fbdiv : ℕ
  pub postdiv1 : ℕ
  pub dacpd : ℕ
  pub dsmpd : ℕ

abbrev pub pll0_1000000000 : PllFreq
pll0_1000000000 = record { prediv = 3; fbdiv = 125; postdiv1 = 1; dacpd = 1; dsmpd = 1 }

abbrev pub pll1_ddr2133_1066000000 : PllFreq
pll1_ddr2133_1066000000 = record { prediv = 12; fbdiv = 533; postdiv1 = 1; dacpd = 1; dsmpd = 1 }

abbrev pub pll1_ddr_low_speed : PllFreq
pll1_ddr_low_speed = record { prediv = 1; fbdiv = 533; postdiv1 = 1; dacpd = 0; dsmpd = 0 }

abbrev pub pll2_1188000000 : PllFreq
pll2_1188000000 = record { prediv = 2; fbdiv = 99; postdiv1 = 1; dacpd = 1; dsmpd = 1 }

-- The words of the registers, by their addresses.
abbrev pub Words : Type 0
Words = ℕ → ℕ

abbrev pub write32 : ℕ → ℕ → Words → Words
write32 reg val w a = if reg == a then val else w a

abbrev pub sys_syscon_24 : ℕ
sys_syscon_24 = 0x13030000 + 0x0018

abbrev pub sys_syscon_28 : ℕ
sys_syscon_28 = 0x13030000 + 0x001c

abbrev pub sys_syscon_32 : ℕ
sys_syscon_32 = 0x13030000 + 0x0020

abbrev pub sys_syscon_36 : ℕ
sys_syscon_36 = 0x13030000 + 0x0024

abbrev pub sys_syscon_40 : ℕ
sys_syscon_40 = 0x13030000 + 0x0028

abbrev pub sys_syscon_44 : ℕ
sys_syscon_44 = 0x13030000 + 0x002c

abbrev pub sys_syscon_48 : ℕ
sys_syscon_48 = 0x13030000 + 0x0030

abbrev pub sys_syscon_52 : ℕ
sys_syscon_52 = 0x13030000 + 0x0034

-- `write32(reg, read32(reg) & mask | bits)`
abbrev pub modify : ℕ → ℕ → ℕ → Words → Words
modify reg mask bits w = write32 reg ((w reg &&& mask) ||| bits) w

abbrev pub pd_mask : ℕ
pd_mask = not32 (2 ^ 27)

abbrev pub pd_off : ℕ
pd_off = 1

abbrev pub pd_on : ℕ
pd_on = 0

abbrev pub syscon24_pll0_dacpd_mask : ℕ
syscon24_pll0_dacpd_mask = not32 (2 ^ 24)

abbrev pub syscon24_pll0_dsmpd_mask : ℕ
syscon24_pll0_dsmpd_mask = not32 (2 ^ 25)

abbrev pub syscon28_pll0_fbdiv_mask : ℕ
syscon28_pll0_fbdiv_mask = not32 0x7ff

abbrev pub syscon32_pll0_postdiv1_mask : ℕ
syscon32_pll0_postdiv1_mask = not32 0x30000000

abbrev pub syscon36_pll0_prediv_mask : ℕ
syscon36_pll0_prediv_mask = not32 0x3f

unfoldable pub pll0_set_freq : PllFreq → Words → Words
pll0_set_freq f w0 =
    let w1 = modify sys_syscon_32 pd_mask (shl32 pd_off 27) w0 in
    let w2 = modify sys_syscon_24 syscon24_pll0_dacpd_mask (shl32 f.dacpd 24) w1 in
    let w3 = modify sys_syscon_24 syscon24_pll0_dsmpd_mask (shl32 f.dsmpd 25) w2 in
    let w4 = modify sys_syscon_36 syscon36_pll0_prediv_mask f.prediv w3 in
    let w5 = modify sys_syscon_28 syscon28_pll0_fbdiv_mask f.fbdiv w4 in
    let w6 = modify sys_syscon_32 syscon32_pll0_postdiv1_mask (shl32 (f.postdiv1 >>> 1) 28) w5 in
    modify sys_syscon_32 pd_mask (shl32 pd_on 27) w6

abbrev pub syscon36_pll1_dacpd_mask : ℕ
syscon36_pll1_dacpd_mask = not32 (2 ^ 15)

abbrev pub syscon36_pll1_dsmpd_mask : ℕ
syscon36_pll1_dsmpd_mask = not32 (2 ^ 16)

abbrev pub syscon36_pll1_fbdiv_mask : ℕ
syscon36_pll1_fbdiv_mask = not32 0x1ffe0000

abbrev pub syscon40_pll1_postdiv1_mask : ℕ
syscon40_pll1_postdiv1_mask = not32 0x30000000

abbrev pub syscon40_pll1_frac_mask : ℕ
syscon40_pll1_frac_mask = not32 0x00ffffff

abbrev pub syscon44_pll1_prediv_mask : ℕ
syscon44_pll1_prediv_mask = not32 0x3f

unfoldable pub pll1_set_freq : PllFreq → Words → Words
pll1_set_freq f w0 =
    let w1 = modify sys_syscon_40 pd_mask (shl32 pd_off 27) w0 in
    let w2 = modify sys_syscon_36 syscon36_pll1_dacpd_mask (shl32 f.dacpd 15) w1 in
    let w3 = modify sys_syscon_36 syscon36_pll1_dsmpd_mask (shl32 f.dsmpd 16) w2 in
    let frac : ℕ = 0xe00000 in
    let w4 = modify sys_syscon_40 syscon40_pll1_frac_mask frac w3 in
    let w5 = modify sys_syscon_44 syscon44_pll1_prediv_mask f.prediv w4 in
    let w6 = modify sys_syscon_36 syscon36_pll1_fbdiv_mask (shl32 f.fbdiv 17) w5 in
    let w7 = modify sys_syscon_40 syscon40_pll1_postdiv1_mask (shl32 (f.postdiv1 >>> 1) 28) w6 in
    modify sys_syscon_40 pd_mask (shl32 pd_on 27) w7

abbrev pub syscon44_pll2_dacpd_mask : ℕ
syscon44_pll2_dacpd_mask = not32 (2 ^ 15)

abbrev pub syscon44_pll2_dsmpd_mask : ℕ
syscon44_pll2_dsmpd_mask = not32 (2 ^ 16)

abbrev pub syscon44_pll2_fbdiv_mask : ℕ
syscon44_pll2_fbdiv_mask = not32 0x1ffe0000

abbrev pub syscon48_pll2_postdiv1_mask : ℕ
syscon48_pll2_postdiv1_mask = not32 0x30000000

abbrev pub syscon52_pll2_prediv_mask : ℕ
syscon52_pll2_prediv_mask = not32 0x3f

unfoldable pub pll2_set_freq : PllFreq → Words → Words
pll2_set_freq f w0 =
    let w1 = modify sys_syscon_48 pd_mask (shl32 pd_off 27) w0 in
    let w2 = modify sys_syscon_44 syscon44_pll2_dacpd_mask (shl32 f.dacpd 15) w1 in
    let w3 = modify sys_syscon_44 syscon44_pll2_dsmpd_mask (shl32 f.dsmpd 16) w2 in
    let w4 = modify sys_syscon_52 syscon52_pll2_prediv_mask f.prediv w3 in
    let w5 = modify sys_syscon_44 syscon44_pll2_fbdiv_mask (shl32 f.fbdiv 17) w4 in
    let w6 = modify sys_syscon_48 syscon48_pll2_postdiv1_mask (shl32 (f.postdiv1 >>> 1) 28) w5 in
    modify sys_syscon_48 pd_mask (shl32 pd_on 27) w6

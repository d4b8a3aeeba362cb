-- ===== src/Visionfive2/Pll/Powered.antt =====
-- The registers that pll.rs of src/mainboard/starfive/visionfive2/bt0/src writes several times.
use upstream_oreboot.Prelude.{ℕ, ◌/◌, ◌%◌, ◌^◌, ◌<◌, ◌≡◌, arith}
use upstream_oreboot.Prelude.{◌&&&◌, ◌|||◌, not32, shl32}
use upstream_oreboot.Visionfive2.Pll.{Words, modify}
use upstream_oreboot.Visionfive2.Pll.Fields.{
  set_pd, set_postdiv, set_bit15, set_bit16, set_fbdiv, set_frac,
}
use upstream_oreboot.Prelude.Bits.{bit_and-le, bit_or-lt}
use upstream_oreboot.Visionfive2.Pll.Set.{AreWords}

-- The register of the power, once it has been switched off and on again around the divider.
abbrev pub power_word : (p x : ℕ) → ℕ
power_word p x =
    let x1 = (x &&& not32 (2 ^ 27)) ||| shl32 1 27 in
    let x2 = (x1 &&& not32 0x30000000) ||| shl32 p 28 in (x2 &&& not32 (2 ^ 27)) ||| shl32 0 27

pub record IsPowered (p x y : ℕ) : Type 0 where
  pub divider : y / 2 ^ 28 % 4 ≡ p
  pub powered : y / 2 ^ 27 % 2 ≡ 0
  pub above : y / 2 ^ 30 ≡ x / 2 ^ 30
  pub below : y % 2 ^ 27 ≡ x % 2 ^ 27

pub power_word-IsPowered : (p x : ℕ) → p < 4 → x < 2 ^ 32 → IsPowered p x (power_word p x)
power_word-IsPowered p x fits whole =
    let x1 = (x &&& not32 (2 ^ 27)) ||| shl32 1 27 in
    let x2 = (x1 &&& not32 0x30000000) ||| shl32 p 28 in
    let e1 = set_pd 1 x (omega arith) whole in
    let e2 = set_postdiv p x1 fits (omega (arith, e1)) in
    let e3 = set_pd 0 x2 (omega arith) (omega (arith, e1, e2)) in
    record {
      divider = omega (arith, e1, e2, e3);
      powered = omega (arith, e1, e2, e3);
      above = omega (arith, e1, e2, e3);
      below = omega (arith, e1, e2, e3);
    }

-- The register of the power of pll1, with its fraction.
abbrev pub frac_word : (p x : ℕ) → ℕ
frac_word p x =
    let x1 = (x &&& not32 (2 ^ 27)) ||| shl32 1 27 in
    let x2 = (x1 &&& not32 0x00ffffff) ||| 0xe00000 in
    let x3 = (x2 &&& not32 0x30000000) ||| shl32 p 28 in (x3 &&& not32 (2 ^ 27)) ||| shl32 0 27

pub record HasFrac (p x y : ℕ) : Type 0 where
  pub divider : y / 2 ^ 28 % 4 ≡ p
  pub powered : y / 2 ^ 27 % 2 ≡ 0
  pub above : y / 2 ^ 30 ≡ x / 2 ^ 30

pub frac_word-HasFrac : (p x : ℕ) → p < 4 → x < 2 ^ 32 → HasFrac p x (frac_word p x)
frac_word-HasFrac p x fits whole =
    let x1 = (x &&& not32 (2 ^ 27)) ||| shl32 1 27 in
    let x2 = (x1 &&& not32 0x00ffffff) ||| 0xe00000 in
    let x3 = (x2 &&& not32 0x30000000) ||| shl32 p 28 in
    let e1 = set_pd 1 x (omega arith) whole in
    let e2 = set_frac 0xe00000 x1 (omega arith) (omega (arith, e1)) in
    let e3 = set_postdiv p x2 fits (omega (arith, e1, e2)) in
    let e4 = set_pd 0 x3 (omega arith) (omega (arith, e1, e2, e3)) in
    record {
      divider = omega (arith, e1, e2, e3, e4);
      powered = omega (arith, e1, e2, e3, e4);
      above = omega (arith, e1, e2, e3, e4);
    }

-- The register of the modes of pll1 and pll2, with their feedback divider.
abbrev pub modes_word : (d s v x : ℕ) → ℕ
modes_word d s v x =
    let x1 = (x &&& not32 (2 ^ 15)) ||| shl32 d 15 in
    let x2 = (x1 &&& not32 (2 ^ 16)) ||| shl32 s 16 in (x2 &&& not32 0x1ffe0000) ||| shl32 v 17

pub record HasModes (d s v x y : ℕ) : Type 0 where
  pub dacpd : y / 2 ^ 15 % 2 ≡ d
  pub dsmpd : y / 2 ^ 16 % 2 ≡ s
  pub fbdiv : y / 2 ^ 17 % 2 ^ 12 ≡ v
  pub below : y % 2 ^ 15 ≡ x % 2 ^ 15
  pub above : y / 2 ^ 29 ≡ x / 2 ^ 29

pub modes_word-HasModes :
    (d s v x : ℕ) → d < 2 → s < 2 → v < 2 ^ 12 → x < 2 ^ 32 → HasModes d s v x (modes_word d s v x)
modes_word-HasModes d s v x d_fits s_fits v_fits whole =
    let x1 = (x &&& not32 (2 ^ 15)) ||| shl32 d 15 in
    let x2 = (x1 &&& not32 (2 ^ 16)) ||| shl32 s 16 in
    let e1 = set_bit15 d x d_fits whole in
    let e2 = set_bit16 s x1 s_fits (omega (arith, e1)) in
    let e3 = set_fbdiv v x2 v_fits (omega (arith, e1, e2)) in
    record {
      dacpd = omega (arith, e1, e2, e3);
      dsmpd = omega (arith, e1, e2, e3);
      fbdiv = omega (arith, e1, e2, e3);
      below = omega (arith, e1, e2, e3);
      above = omega (arith, e1, e2, e3);
    }

pub modify-AreWords :
    (reg mask bits : ℕ) (w : Words) → bits < 2 ^ 32 → AreWords w → AreWords (modify reg mask bits w)
modify-AreWords reg mask bits w fits words a =
    let cleared : (w reg &&& mask) < 2 ^ 32 = omega (arith, bit_and-le (w reg) mask, words reg) in
    ground (arith, words a, bit_or-lt 32 (w reg &&& mask) bits cleared fits)

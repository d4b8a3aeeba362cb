-- ===== src/Nezha/Dram/Reported.antt =====
-- The size that is reported after a probe, src/mainboard/sunxi/nezha/bt0/src/mctl.rs.
use upstream_oreboot.Prelude.{ℕ, ◌/◌, ◌^◌, ◌<◌, ◌≡◌, ◌≢◌, ◌⊎◌, inl, inr, ◌∙◌, refl, ap, arith}
use upstream_oreboot.Prelude.{differing, ◌>>>◌, ◌|||◌, ◌&&&◌}
use upstream_oreboot.Prelude.Bits.{bit_and-le, bit_or-lt, le-bit_or, bit_or_comm, bit_and_shift}
use upstream_oreboot.Nezha.Dram.Bus.{Bus, Board, Step, done}
use upstream_oreboot.Nezha.Dram.Params.{DramParameters}
use upstream_oreboot.Nezha.Dram.Scan.{auto_scan_dram_rank_width}
use upstream_oreboot.Nezha.Dram.Init.{memory_size}
use upstream_oreboot.Nezha.Dram.Probe.{probed, auto_scan_dram_rank_width-IsProbed}

-- The field of the size, when only the lower half of the word is set.
no_size : (para2 : ℕ) → para2 < 2 ^ 16 → (para2 &&& 0x7fff0000) >>> 16 ≡ 0
no_size para2 fits =
    let none_above : para2 / 2 ^ 16 ≡ 0 = omega arith in
    omega (arith, bit_and_shift 16 para2 0x7fff, bit_and-le (para2 / 2 ^ 16) 0x7fff)

flagged_bounds :
    (old mask flag : ℕ)
    → old < 2 ^ 16
    → 0 < flag
    → flag < 2 ^ 16
    → ((probed old &&& mask) ||| flag ≢ 0) × ((probed old &&& mask) ||| flag < 2 ^ 16)
flagged_bounds old mask flag fits pos small =
    let p = probed old in
    let p_small : p < 2 ^ 16 =
      bit_or-lt 16 (old &&& 0xfffffff0) 0x1000 (omega (arith, bit_and-le old 0xfffffff0))
        (omega arith) in
    (
      (λ e. absurd (omega (arith, e, bit_or_comm (p &&& mask) flag, le-bit_or flag (p &&& mask)))),
      bit_or-lt 16 (p &&& mask) flag (omega (arith, bit_and-le p mask)) small,
    )

module _ {S : Type 0} (bus : Bus S) where
  memory_size_zero :
      (para : DramParameters) (b : Board S)
      → (para.dram_para2 ≢ 0) × (para.dram_para2 < 2 ^ 16)
      → memory_size bus para b ≡ done (0, para) b
  unfolding memory_size
  memory_size_zero para b (ne, fits) =
      ap (λ (m : Step S (ℕ × DramParameters)). m b) (differing para.dram_para2 0 _ _ ne)
      ∙ rw (no_size para.dram_para2 fits) refl

  -- Where `dram_para2` had no size in its upper half, after a successful probe of the ranks and of the
  -- width either a single rank of full width was found, or the size of the memory is then
  -- reported as 0, whatever the mode registers say.
  pub memory_size-probed :
      (fuel : ℕ) (para : DramParameters) (b : Board S) {para' : DramParameters} {b' : Board S}
      → auto_scan_dram_rank_width bus fuel para b ≡ done para' b'
      → para.dram_para2 < 2 ^ 16
      → (para'.dram_para2 ≡ probed para.dram_para2 &&& 0xffff0ff0)
        ⊎ ((b1 : Board S) → memory_size bus para' b1 ≡ done (0, para') b1)
  memory_size-probed fuel para b {para'} e fits =
      let probe = auto_scan_dram_rank_width-IsProbed bus fuel para b e in
      elim probe.para2 [
        | inl single ↦ inl single
        | inr (inl half) ↦ inr (λ b1. memory_size_zero para' b1 (
            rw half
              (flagged_bounds para.dram_para2 0xffff0ff0 0x1 fits (omega arith) (omega arith))))
        | inr (inr (inl dual_half)) ↦ inr (λ b1. memory_size_zero para' b1 (
            rw dual_half
              (flagged_bounds para.dram_para2 0xfffffff0 0x1001 fits (omega arith) (omega arith))))
        | inr (inr (inr dual)) ↦ inr (λ b1. memory_size_zero para' b1 (
            rw dual
              (flagged_bounds para.dram_para2 0xfffffff0 0x1000 fits (omega arith) (omega arith))))
      ]

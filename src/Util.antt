-- ===== src/Util.antt =====
-- Rounding to pages, src/lib/util/src/lib.rs, with `usize` of 64 bits.
use upstream_oreboot.Prelude.{ℕ, ◌+◌, ◌-◌, ◌*◌, ◌/◌, ◌%◌, ◌^◌, ◌≤◌, ◌<◌, ◌≡◌, ◌∙◌, arith, ap}
use upstream_oreboot.Prelude.{Option, none, some, ltb, if◌then◌else◌, bit_and, ◌⊎◌, inl, inr}
use upstream_oreboot.Prelude.Bits.{bit_and_shift, bit_and_mask}

-- `!0xfff`
abbrev page_mask : ℕ
page_mask = 2 ^ 64 - 1 - 0xfff

-- `none` is the panic on an overflow of the sum.
unfoldable pub round_up_4k : ℕ → Option ℕ
round_up_4k num =
    if ltb (num + 0xfff) (2 ^ 64) then some (bit_and (num + 0xfff) page_mask) else none

unfoldable pub round_down_4k : ℕ → ℕ
round_down_4k num = bit_and num page_mask

bit_and-page_mask : (a : ℕ) → a < 2 ^ 64 → bit_and a page_mask ≡ a / 4096 * 4096
bit_and-page_mask a fits =
    bit_and_shift 12 a (2 ^ 52 - 1)
    ∙ ap (λ (x : ℕ). x * 2 ^ 12) (bit_and_mask 52 (a / 2 ^ 12) ∙ omega arith)

too_high : (a : ℕ) → (a < 2 ^ 64) ⊎ (2 ^ 64 ≤ a)
too_high a = omega arith

-- An address either lies too high for a page boundary above it, and rounding it up panics; or it
-- is rounded up to the least multiple of 4096 that is not below it. It is rounded down to the
-- greatest one that is not above it.
pub round_4k_lem :
    (num : ℕ)
    → num < 2 ^ 64
    → (((2 ^ 64 - 4096 < num) × (round_up_4k num ≡ none))
        ⊎ ((up : ℕ) × (round_up_4k num ≡ some up)
            × (up % 4096 ≡ 0)
            × (num ≤ up)
            × (up < num + 4096)
            × (up < 2 ^ 64)))
      × (round_down_4k num % 4096 ≡ 0)
      × (round_down_4k num ≤ num)
      × (num < round_down_4k num + 4096)
unfolding round_up_4k round_down_4k
round_4k_lem num fits = (
  elim (too_high (num + 0xfff)) [
    | inl low ↦
        let up = bit_and (num + 0xfff) page_mask in
        let value : bit_and (num + 0xfff) page_mask ≡ (num + 0xfff) / 4096 * 4096 =
          bit_and-page_mask (num + 0xfff) low in
        inr (
          (num + 0xfff) / 4096 * 4096,
          rw value (ground arith),
          omega arith,
          omega arith,
          omega arith,
          omega arith,
        )
    | inr high ↦ inl (omega arith, ground arith)
  ],
  omega (arith, bit_and-page_mask num fits),
  omega (arith, bit_and-page_mask num fits),
  omega (arith, bit_and-page_mask num fits),
)

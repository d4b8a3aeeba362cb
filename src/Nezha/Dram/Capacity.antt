-- ===== src/Nezha/Dram/Capacity.antt =====
-- The size that follows from the configured addresses, src/mainboard/sunxi/nezha/bt0/src/mctl.rs.
pub mod Sized
use upstream_oreboot.Prelude.{
  ℕ, zero, suc, ◌+◌, ◌-◌, ◌*◌, ◌/◌, ◌%◌, ◌^◌, ◌<◌, ◌≤◌, ◌≡◌, ◌≢◌, ◌∙◌, refl, sym, ap, arith, Bool,
  true, false, not, ◌==◌,
}
use upstream_oreboot.Prelude.{if◌then◌else◌, ◌>>>◌, ◌|||◌, ◌&&&◌, shl32, sub32, u32}
use upstream_oreboot.Prelude.Bits.{
  bit_or_split, bit_or-lt, bit_or-zero, bit_or_comm, bit_and_shift, bit_and_bit, bit_and_mask,
  bit_and-zero,
}
use native.Mathlib.Nat.{
  pow-suc, one-le-pow, mod-lt, mul-add-div_right, mul-add-mod_self_right, div-eq_of_lt,
  mod-eq_of_lt, add-zero,
}
use upstream_oreboot.Nezha.Dram.Bus.{Bus, Board, Run, Step, done, and_then, ◌>>◌, ◌>>=◌, for_range}
use upstream_oreboot.Nezha.Dram.Params.{DramParameters}
use upstream_oreboot.Nezha.Dram.Setup.{page_code, type_mode, rank_count, rank_mode, mctl_com_init}
use upstream_oreboot.Nezha.Dram.Size.{rank_size, dramc_get_dram_size}
use upstream_oreboot.Nezha.Dram.Registers.{mc_work_mode_rank0_1}

sum_parts : (n q r : ℕ) → r < n → ((q * n + r) / n ≡ q) × ((q * n + r) % n ≡ r)
sum_parts n q r fits =
    let pos : 0 < n = omega arith in
    (
      mul-add-div_right pos q r ∙ rw (div-eq_of_lt fits) (add-zero q),
      mul-add-mod_self_right q n r ∙ mod-eq_of_lt fits,
    )

-- A field of a disjunction.
or_div : (k x y : ℕ) → (x ||| y) / 2 ^ k ≡ (x / 2 ^ k) ||| (y / 2 ^ k)
or_div k x y =
    let pos : 0 < 2 ^ k = omega (arith, one-le-pow k 2) in
    ap (λ (t : ℕ). t / 2 ^ k) (bit_or_split k x y)
    ∙ (sum_parts (2 ^ k) ((x / 2 ^ k) ||| (y / 2 ^ k)) ((x % 2 ^ k) ||| (y % 2 ^ k))
        (bit_or-lt k (x % 2 ^ k) (y % 2 ^ k) (mod-lt x pos) (mod-lt y pos))).0

or_mod : (m x y : ℕ) → (x ||| y) % 2 ^ m ≡ (x % 2 ^ m) ||| (y % 2 ^ m)
or_mod m x y =
    let pos : 0 < 2 ^ m = omega (arith, one-le-pow m 2) in
    ap (λ (t : ℕ). t % 2 ^ m) (bit_or_split m x y)
    ∙ (sum_parts (2 ^ m) ((x / 2 ^ m) ||| (y / 2 ^ m)) ((x % 2 ^ m) ||| (y % 2 ^ m))
        (bit_or-lt m (x % 2 ^ m) (y % 2 ^ m) (mod-lt x pos) (mod-lt y pos))).1

or_field : (k m x y : ℕ) → (x ||| y) / 2 ^ k % 2 ^ m ≡ (x / 2 ^ k % 2 ^ m) ||| (y / 2 ^ k % 2 ^ m)
or_field k m x y = ap (λ (t : ℕ). t % 2 ^ m) (or_div k x y) ∙ or_mod m (x / 2 ^ k) (y / 2 ^ k)

five_fields :
    (k m a b c d e : ℕ)
    → (a ||| b ||| c ||| d ||| e) / 2 ^ k % 2 ^ m
      ≡ (a / 2 ^ k % 2 ^ m)
        ||| (b / 2 ^ k % 2 ^ m)
        ||| (c / 2 ^ k % 2 ^ m)
        ||| (d / 2 ^ k % 2 ^ m)
        ||| (e / 2 ^ k % 2 ^ m)
five_fields k m a b c d e =
    rw
      (
        or_field k m (a ||| b ||| c ||| d) e,
        or_field k m (a ||| b ||| c) d,
        or_field k m (a ||| b) c,
        or_field k m a b,
      )
      refl

zero-bit_or : (x : ℕ) → 0 ||| x ≡ x
zero-bit_or x = bit_or_comm 0 x ∙ bit_or-zero x

-- The geometry of a rank in the parameters: pages of 2 ^ p KB, rows, and 4 or 8 banks.
abbrev pub geometry : ℕ → ℕ → ℕ → ℕ
geometry p rows bank = 2 ^ p + rows * 16 + bank * 4096

page_code_pow : (p : ℕ) → p ≤ 3 → page_code (2 ^ p) ≡ (p + 7) * 256
unfolding page_code
page_code_pow zero h = refl
page_code_pow (suc zero) h = refl
page_code_pow (suc (suc zero)) h = refl
page_code_pow (suc (suc (suc zero))) h = refl
page_code_pow (suc (suc (suc (suc p)))) h = absurd (omega arith)

pow_below : (p : ℕ) → p ≤ 3 → 2 ^ p < 16
pow_below zero h = omega arith
pow_below (suc zero) h = omega arith
pow_below (suc (suc zero)) h = omega arith
pow_below (suc (suc (suc zero))) h = omega arith
pow_below (suc (suc (suc (suc p)))) h = absurd (omega arith)

module _ (para : DramParameters) (p rows bank : ℕ) (page_fits : p ≤ 3) (some_rows : 1 ≤ rows)
    (rows_fit : rows ≤ 16) (bank_fits : bank ≤ 1) (shape : para.dram_para1 ≡ geometry p rows bank)
    (one_rank : para.dram_para2 ≡ 0) (v : ℕ) where
  high_part : v &&& 0xfffff000 ≡ (v / 2 ^ 12 &&& 0xfffff) * 2 ^ 12
  high_part = bit_and_shift 12 v 0xfffff

  bank_part : shl32 (para.dram_para1 >>> 12) 2 &&& 0x4 ≡ bank * 4
  bank_part =
      omega (arith, bit_and_bit 2 (shl32 (para.dram_para1 >>> 12) 2), shape, pow_below p page_fits)

  row_part : shl32 (sub32 (para.dram_para1 >>> 4) 1) 4 &&& 0xff ≡ (rows - 1) * 16
  row_part = omega (
    arith,
    bit_and_mask 8 (shl32 (sub32 (para.dram_para1 >>> 4) 1) 4),
    shape,
    pow_below p page_fits,
  )

  page_part : page_code ((para.dram_para1 >>> 0) &&& 0xf) ≡ (p + 7) * 256
  page_part =
      let e : (para.dram_para1 >>> 0) &&& 0xf ≡ 2 ^ p =
        omega (arith, bit_and_mask 4 (para.dram_para1 >>> 0), shape, pow_below p page_fits) in
      rw e (page_code_pow p page_fits)

  -- The fields of the mode, as they are read back.
  mode_parts :
      (k m : ℕ)
      → rank_mode para 0 v / 2 ^ k % 2 ^ m
        ≡ ((v / 2 ^ 12 &&& 0xfffff) * 2 ^ 12 / 2 ^ k % 2 ^ m)
          ||| (0 / 2 ^ k % 2 ^ m)
          ||| (bank * 4 / 2 ^ k % 2 ^ m)
          ||| ((rows - 1) * 16 / 2 ^ k % 2 ^ m)
          ||| ((p + 7) * 256 / 2 ^ k % 2 ^ m)
  unfolding rank_mode
  mode_parts k m =
      let no_rank : (para.dram_para2 >>> 12) &&& 0x3 ≡ 0 = rw one_rank refl in
      rw (no_rank, high_part, bank_part, row_part, page_part)
        (five_fields k m ((v / 2 ^ 12 &&& 0xfffff) * 2 ^ 12) 0 (bank * 4) ((rows - 1) * 16)
          ((p + 7) * 256))

  page_field : rank_mode para 0 v / 2 ^ 8 % 2 ^ 4 ≡ p + 7
  page_field =
      let a : (v / 2 ^ 12 &&& 0xfffff) * 2 ^ 12 / 2 ^ 8 % 2 ^ 4 ≡ 0 = omega arith in
      let b : bank * 4 / 2 ^ 8 % 2 ^ 4 ≡ 0 = omega arith in
      let c : (rows - 1) * 16 / 2 ^ 8 % 2 ^ 4 ≡ 0 = omega arith in
      let d : (p + 7) * 256 / 2 ^ 8 % 2 ^ 4 ≡ p + 7 = omega arith in
      mode_parts 8 4 ∙ rw (a, b, c, d) (zero-bit_or (p + 7))

  row_field : rank_mode para 0 v / 2 ^ 4 % 2 ^ 4 ≡ rows - 1
  row_field =
      let a : (v / 2 ^ 12 &&& 0xfffff) * 2 ^ 12 / 2 ^ 4 % 2 ^ 4 ≡ 0 = omega arith in
      let b : bank * 4 / 2 ^ 4 % 2 ^ 4 ≡ 0 = omega arith in
      let c : (rows - 1) * 16 / 2 ^ 4 % 2 ^ 4 ≡ rows - 1 = omega arith in
      let d : (p + 7) * 256 / 2 ^ 4 % 2 ^ 4 ≡ 0 = omega arith in
      mode_parts 4 4 ∙ rw (a, b, c, d) (bit_or-zero (0 ||| rows - 1) ∙ zero-bit_or (rows - 1))

  bank_field : rank_mode para 0 v / 2 ^ 2 % 2 ^ 2 ≡ bank
  bank_field =
      let a : (v / 2 ^ 12 &&& 0xfffff) * 2 ^ 12 / 2 ^ 2 % 2 ^ 2 ≡ 0 = omega arith in
      let b : bank * 4 / 2 ^ 2 % 2 ^ 2 ≡ bank = omega arith in
      let c : (rows - 1) * 16 / 2 ^ 2 % 2 ^ 2 ≡ 0 = omega arith in
      let d : (p + 7) * 256 / 2 ^ 2 % 2 ^ 2 ≡ 0 = omega arith in
      mode_parts 2 2
      ∙ rw (a, b, c, d)
          (bit_or-zero (0 ||| bank ||| 0) ∙ bit_or-zero (0 ||| bank) ∙ zero-bit_or bank)

  rank_field : rank_mode para 0 v / 2 ^ 0 % 2 ^ 2 ≡ 0
  rank_field =
      let a : (v / 2 ^ 12 &&& 0xfffff) * 2 ^ 12 / 2 ^ 0 % 2 ^ 2 ≡ 0 = omega arith in
      let b : bank * 4 / 2 ^ 0 % 2 ^ 2 ≡ 0 = omega arith in
      let c : (rows - 1) * 16 / 2 ^ 0 % 2 ^ 2 ≡ 0 = omega arith in
      let d : (p + 7) * 256 / 2 ^ 0 % 2 ^ 2 ≡ 0 = omega arith in
      mode_parts 0 2 ∙ rw (a, b, c, d) refl

  pub rank_size-rank_mode : 9 ≤ rows → rank_size (rank_mode para 0 v) ≡ 2 ^ (p + rows + bank - 8)
  unfolding rank_size
  rank_size-rank_mode many =
      let mode = rank_mode para 0 v in
      let total : ((mode >>> 8) &&& 0xf) + ((mode >>> 4) &&& 0xf) + ((mode >>> 2) &&& 0x3)
          ≡ p + 7 + (rows - 1) + bank =
        omega (
          arith,
          bit_and_mask 4 (mode >>> 8),
          bit_and_mask 4 (mode >>> 4),
          bit_and_mask 2 (mode >>> 2),
          page_field,
          row_field,
          bank_field,
        ) in
      rw total (ap (λ (t : ℕ). 2 ^ t) (omega arith))

  pub rank_mode_single : rank_mode para 0 v &&& 0x3 ≡ 0
  rank_mode_single = omega (arith, bit_and_mask 2 (rank_mode para 0 v), rank_field)

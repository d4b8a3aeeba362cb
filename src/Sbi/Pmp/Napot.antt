-- ===== src/Sbi/Pmp/Napot.antt =====
-- How hart_csr_utils.rs decodes a naturally aligned range (NAPOT).
use upstream_oreboot.Prelude.{
  ℕ, zero, suc, ◌+◌, ◌-◌, ◌*◌, ◌/◌, ◌%◌, ◌^◌, ◌≤◌, ◌<◌, ◌≡◌, ◌≢◌, refl, arith,
}
use upstream_oreboot.Prelude.{bit_and, bit_or, u64, leb, ◌==◌, ap, ◌∙◌}
use upstream_oreboot.Prelude.{some, Bool-cases, inl, inr, false, true}
use native.Mathlib.Nat.{pow-succ', one-le-pow}
use upstream_oreboot.Prelude.Bits.{bit_and-one, bit_and_mask, bit_of_bit_or, bit_or-lt, two_pow}
use upstream_oreboot.Sbi.Riscv.{Hart}
use upstream_oreboot.Sbi.Pmp.{
  ctz_loop, ctz, usize_max, bit_not, PmpEntry, napot_entry, pmp_get, pmp_port, pmpaddr, pmp_a,
  pmp_a_napot, pmp_count,
}

ctz_loop-total : (f x ret : ℕ) → x < 2 ^ f → (r : ℕ) × (ctz_loop (suc f) x ret ≡ some r)
unfolding ctz_loop
ctz_loop-total zero x ret h = let e : x ≡ 0 = omega arith in (ret, rw e refl)
ctz_loop-total (suc f) x ret h = elim (Bool-cases (bit_and x 1 == 0)) [
  | inl e ↦ (ret, rw e refl)
  | inr e ↦ rw e (ctz_loop-total f (x / 2) (ret + 1) (omega (arith, pow-succ' 2 f)))
]

-- The loop ends on every 64-bit word within its 65 rounds.
pub ctz-total : (x : ℕ) → x < 2 ^ 64 → (r : ℕ) × (ctz x ≡ some r)
unfolding ctz
ctz-total x h = ctz_loop-total 64 x 0 h

ctz_loop_ones :
    (k f q ret : ℕ) → k < f → ctz_loop f (q * 2 ^ suc k + (2 ^ k - 1)) ret ≡ some (ret + k)
unfolding ctz_loop
ctz_loop_ones zero zero q ret h = absurd (omega arith)
ctz_loop_ones zero (suc f) q ret h = ground (arith, bit_and-one (q * 2 ^ 1 + (2 ^ 0 - 1)))
ctz_loop_ones (suc k) zero q ret h = absurd (omega arith)
ctz_loop_ones (suc k) (suc f) q ret h =
    let w = q * 2 ^ suc (suc k) + (2 ^ suc k - 1) in
    let half : w / 2 ≡ q * 2 ^ suc k + (2 ^ k - 1) =
      omega (arith, two_pow q (suc k), pow-succ' 2 k, one-le-pow k 2) in
    let odd : (bit_and w 1 == 0) ≡ false =
      ground (arith, bit_and-one w, two_pow q (suc k), pow-succ' 2 k, one-le-pow k 2) in
    rw (odd, half) (ctz_loop_ones k f q (ret + 1) (omega arith) ∙ ap some (omega arith))

-- The loop counts the ones at the low end: `k` of them, if bit `k` is 0.
pub ctz_ones : (k q : ℕ) → k ≤ 64 → ctz (q * 2 ^ suc k + (2 ^ k - 1)) ≡ some k
unfolding ctz
ctz_ones k q h = ctz_loop_ones k 65 q 0 (omega arith) ∙ ap some (omega arith)

-- The address word of a NAPOT entry is odd, so its complement is even and nothing is counted.
ctz_even : (x : ℕ) → x % 2 ≡ 0 → ctz x ≡ some 0
ctz_even x h = ap ctz (omega arith) ∙ ctz_ones 0 (x / 2) (omega arith)

low_bits_set : (a : ℕ) → a < 2 ^ 64 → (bit_or a 0x1ff % 2 ≡ 1) × (bit_or a 0x1ff < 2 ^ 64)
low_bits_set a h = (omega (arith, bit_of_bit_or 0 a 0x1ff), bit_or-lt 64 a 0x1ff h (omega arith))

napot_entry_odd :
    (port a : ℕ)
    → a % 2 ≡ 1
    → a < 2 ^ 64
    → a ≢ usize_max
    → napot_entry port a ≡ some (record { port = port; addr = u64 (a * 4); log2len = 3 })
unfolding napot_entry
napot_entry_odd port a odd fits not_all =
    let test : (a == usize_max) ≡ false = ground arith in
    let count : ctz (bit_not a) ≡ some 0 = ctz_even (bit_not a) (omega arith) in
    let base : u64 (bit_and a (2 ^ 64 - 1) * 4) ≡ u64 (a * 4) = omega (arith, bit_and_mask 64 a) in
    rw (test, count) (ap (λ w. some (record { port = port; addr = w; log2len = 3 })) base)

-- Every NAPOT entry, but for one whose address word has only its low nine bits to clear before it
-- is all ones, is reported with the size 2 ^ 3, at the start of its address word.
pub pmp_get_napot :
    (h : Hart) (n : ℕ)
    → n < 16
    → bit_and (pmp_port h n) pmp_a ≡ pmp_a_napot
    → pmpaddr h n < 2 ^ 64
    → bit_or (pmpaddr h n) 0x1ff ≢ usize_max
    → pmp_get h n
      ≡ some
          (record { port = pmp_port h n; addr = u64 (bit_or (pmpaddr h n) 0x1ff * 4); log2len = 3 })
unfolding pmp_get
pmp_get_napot h n small mode fits not_all =
    let below : leb pmp_count n ≡ false = ground arith in
    let test : (bit_and (pmp_port h n) pmp_a == pmp_a_napot) ≡ true = ground arith in
    let odd = low_bits_set (pmpaddr h n) fits in
    rw (below, test)
      (napot_entry_odd (pmp_port h n) (bit_or (pmpaddr h n) 0x1ff) odd.0 odd.1 not_all)

-- The size of the range whose address word ends in a 0 and `k` ones, as a power of two.
abbrev pub napot_log2len : ℕ → ℕ
napot_log2len k = k + 3

-- The size that is reported for a NAPOT entry is wrong if its address word ends in a 0 and `k`
-- ones, at least one, so that the range has 2 ^ (k + 3) bytes, and if the word has a 0 above its
-- low nine bits.
pub pmp_get_napot_wrong :
    (h : Hart) (n k q : ℕ) (e : PmpEntry)
    → n < 16
    → bit_and (pmp_port h n) pmp_a ≡ pmp_a_napot
    → pmpaddr h n ≡ q * 2 ^ suc k + (2 ^ k - 1)
    → 1 ≤ k
    → pmpaddr h n < 2 ^ 64
    → bit_or (pmpaddr h n) 0x1ff ≢ usize_max
    → pmp_get h n ≡ some e
    → e.log2len ≢ napot_log2len k
pmp_get_napot_wrong h n k q e small mode word pos fits not_all found same =
    three (pmp_get_napot h n small mode fits not_all)
  where
    three :
        pmp_get h n
          ≡ some (record {
            port = pmp_port h n;
            addr = u64 (bit_or (pmpaddr h n) 0x1ff * 4);
            log2len = 3;
          })
        → ⊥
    three r = ground arith

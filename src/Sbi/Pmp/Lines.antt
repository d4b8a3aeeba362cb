-- ===== src/Sbi/Pmp/Lines.antt =====
-- What hart_csr_utils.rs prints of the entries.
use upstream_oreboot.Prelude.{ℕ, suc, ◌*◌, ◌/◌, ◌%◌, ◌^◌, ◌≤◌, ◌<◌, ◌≡◌, refl, arith}
use upstream_oreboot.Prelude.{bit_and, u64, ◌≢◌, ◌==◌, true, false, not, zero, some, leb}
use upstream_oreboot.Prelude.{[], ◌∷◌, ap, ◌∙◌}
use upstream_oreboot.Prelude.Bits.{bit_and-one, bit_and_bit, bit_and_mask, bit_and_shift}
use native.Mathlib.Nat.{one-le-pow}
use upstream_oreboot.Sbi.Riscv.{Hart}
use upstream_oreboot.Sbi.Pmp.Ports.{cfg_byte, pmp_port-cfg_byte}
use upstream_oreboot.Sbi.Pmp.{
  PmpEntry, pmp_get, pmp_port, pmpaddr, pmp_a, pmp_a_tor, pmp_a_napot, pmp_count, pmp_line,
  pmp_round, PmpLine, entry_lines,
}

-- The two mode bits of a configuration byte.
mode_bits : (p : ℕ) → bit_and p pmp_a ≡ p / 8 % 4 * 8
mode_bits p = omega (arith, bit_and_shift 3 p 3, bit_and_mask 2 (p / 8))

tor_bit : (p : ℕ) → bit_and p pmp_a_tor ≡ p / 8 % 2 * 8
tor_bit p = bit_and_bit 3 p

-- The test for TOR also passes for NAPOT: of the modes that are on, it fails for NA4 alone.
pub tor_test_iff :
    (h : Hart) (i : ℕ) (e : PmpEntry)
    → ((e.port / 8 % 4 ≡ 1) → (pmp_line h i e).is_tor ≡ true)
      × ((e.port / 8 % 4 ≡ 3) → (pmp_line h i e).is_tor ≡ true)
      × ((e.port / 8 % 4 ≡ 2) → (pmp_line h i e).is_tor ≡ false)
unfolding pmp_line
tor_test_iff h i e = (
  (λ m. ground (arith, tor_bit e.port)),
  (λ m. ground (arith, tor_bit e.port)),
  (λ m. ground (arith, tor_bit e.port)),
)

tor_get :
    (h : Hart) (n : ℕ)
    → n < 16
    → pmp_port h n / 8 % 4 ≡ 1
    → pmp_get h n ≡ some (record { port = pmp_port h n; addr = u64 (pmpaddr h n * 4); log2len = 2 })
unfolding pmp_get
tor_get h n small mode =
    let below : leb pmp_count n ≡ false = ground arith in
    let test : (bit_and (pmp_port h n) pmp_a == pmp_a_napot) ≡ false =
      ground (arith, mode_bits (pmp_port h n)) in
    rw (below, test) refl

-- What the specification prints for a TOR entry above the first: from the address of the entry
-- before it to its own, with the flags that are set in its own configuration byte.
abbrev pub tor_line : Hart → ℕ → PmpLine
tor_line h i = record {
  index = suc i;
  is_tor = true;
  low = u64 (pmpaddr h i * 4);
  high = u64 (pmpaddr h (suc i) * 4);
  locked = cfg_byte h (suc i) / 2 ^ 7 % 2 == 1;
  readable = cfg_byte h (suc i) % 2 == 1;
  writable = cfg_byte h (suc i) / 2 % 2 == 1;
  executable = cfg_byte h (suc i) / 4 % 2 == 1;
}

flag_of : (m t : ℕ) → m < 2 → 1 ≤ t → not (m * t == 0) ≡ (m == 1)
flag_of zero t h pos = ground arith
flag_of (suc zero) t h pos = ground arith
flag_of (suc (suc m)) t h pos = absurd (omega arith)

flag : (k p : ℕ) → (not (bit_and p (2 ^ k) == 0)) ≡ (p / 2 ^ k % 2 == 1)
flag k p =
    rw (bit_and_bit k p)
      (flag_of (p / 2 ^ k % 2) (2 ^ k) (omega arith) (one-le-pow k 2 (omega arith)))

flag_zero : (p : ℕ) → not (bit_and p 1 == 0) ≡ (p % 2 == 1)
flag_zero p = ground (arith, bit_and-one p)

-- An entry from 1 to 15 other than 8, in the mode TOR, is printed in one line, from the address of
-- the entry before it to its own, with the flags of its own configuration byte, which is one of the
-- eight bytes of pmpcfg0 below entry 8 and of pmpcfg2 above it.
pub pmp_round_tor :
    (h : Hart) (i : ℕ)
    → suc i < 16
    → suc i ≢ 8
    → cfg_byte h (suc i) / 8 % 4 ≡ 1
    → pmp_round h (suc i) ≡ tor_line h i ∷ []
unfolding pmp_round pmp_line
pmp_round_tor h i small own is_tor =
    let p = pmp_port h (suc i) in
    let byte : p ≡ cfg_byte h (suc i) = pmp_port-cfg_byte h (suc i) own in
    let mode : p / 8 % 4 ≡ 1 = omega (arith, byte, is_tor) in
    let on : (bit_and p pmp_a == 0) ≡ false = ground (arith, mode_bits p) in
    let tor : (bit_and p pmp_a_tor == pmp_a_tor) ≡ true = ground (arith, tor_bit p) in
    ap (entry_lines h (suc i)) (tor_get h (suc i) small mode)
    ∙ rw (on, tor, flag 7 p, flag_zero p, flag 1 p, flag 2 p, byte) refl

-- An entry that is off prints nothing.
pub pmp_round_off : (h : Hart) (i : ℕ) → i < 16 → pmp_port h i / 8 % 4 ≡ 0 → pmp_round h i ≡ []
unfolding pmp_round pmp_get
pmp_round_off h i small mode =
    let p = pmp_port h i in
    let below : leb pmp_count i ≡ false = ground arith in
    let off : (bit_and p pmp_a == 0) ≡ true = ground (arith, mode_bits p) in
    let no_napot : (bit_and p pmp_a == pmp_a_napot) ≡ false = ground (arith, mode_bits p) in
    rw (below, no_napot, off) refl

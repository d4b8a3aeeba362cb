-- ===== src/Sbi/Feature/Decode.antt =====
-- Which instruction words feature/emulate_rdtime.rs and feature/sfence_vma.rs recognise.
use upstream_oreboot.Prelude.{ℕ, ◌+◌, ◌*◌, ◌/◌, ◌%◌, ◌^◌, ◌<◌, ◌≡◌, ◌↔◌, bit_and, u8, ◌>>>◌, arith}
use upstream_oreboot.Prelude.Bits.{bit_and_split, bit_and_mask, bit_and-zero}

-- The mask of `csrrs rd, csr, x0` clears the five bits of `rd` and keeps the others.
pub read_mask :
    (ins : ℕ) → ins < 2 ^ 32 → bit_and ins 0xfffff07f ≡ ins / 2 ^ 12 * 2 ^ 12 + ins % 2 ^ 7
read_mask ins h = omega (
  arith,
  bit_and_split 12 ins 0xfffff07f,
  bit_and_split 7 (ins % 2 ^ 12) 0x07f,
  bit_and_mask 20 (ins / 2 ^ 12),
  bit_and_mask 7 (ins % 2 ^ 12 % 2 ^ 7),
  bit_and-zero (ins % 2 ^ 12 / 2 ^ 7),
)

-- The target register of a word.
pub read_target : (ins : ℕ) → u8 (bit_and (ins >>> 7) 0x1f) ≡ ins / 2 ^ 7 % 2 ^ 5
read_target ins = omega (arith, bit_and_mask 5 (ins / 2 ^ 7))

-- A word passes the test exactly when it is the read of the CSR into some register.
pub read_mask_iff :
    (csr ins : ℕ)
    → ins < 2 ^ 32
    → (bit_and ins 0xfffff07f ≡ csr * 2 ^ 20 + 0x2073)
      ↔ (ins ≡ csr * 2 ^ 20 + 0x2073 + ins / 2 ^ 7 % 2 ^ 5 * 2 ^ 7)
read_mask_iff csr ins h = (λ e. omega (arith, read_mask ins h), λ e. omega (arith, read_mask ins h))

-- The mask of `sfence.vma` clears the ten bits of `rs1` and `rs2` and keeps the others.
pub fence_mask :
    (ins : ℕ) → ins < 2 ^ 32 → bit_and ins 0xfe007fff ≡ ins / 2 ^ 25 * 2 ^ 25 + ins % 2 ^ 15
fence_mask ins h = omega (
  arith,
  bit_and_split 25 ins 0xfe007fff,
  bit_and_split 15 (ins % 2 ^ 25) 0x7fff,
  bit_and_mask 7 (ins / 2 ^ 25),
  bit_and_mask 15 (ins % 2 ^ 25 % 2 ^ 15),
  bit_and-zero (ins % 2 ^ 25 / 2 ^ 15),
)

-- ===== src/Sbi/Pmp/Ports.antt =====
-- Which configuration byte hart_csr_utils.rs reads for each entry.
use upstream_oreboot.Prelude.{ℕ, ◌*◌, ◌/◌, ◌%◌, ◌^◌, ◌≤◌, ◌<◌, ◌≡◌, ◌≢◌, arith, ap, ◌∙◌}
use upstream_oreboot.Prelude.{bit_and, u64, ◌<<<◌, ◌>>>◌, leb, if◌then◌else◌, sym}
use native.Mathlib.Nat.{pow-le-pow_right, mul-div_cancel, one-le-pow}
use upstream_oreboot.Prelude.Bits.{bit_and_mask, bit_and_shift}
use upstream_oreboot.Sbi.Riscv.{Hart}
use upstream_oreboot.Sbi.Pmp.{pmp_port, pmpcfg0, pmpcfg2}

-- The byte of `w` that begins at bit `s`.
byte_at_shift : (w s : ℕ) → s ≤ 56 → bit_and w (u64 (0xff <<< s)) >>> s ≡ w / 2 ^ s % 2 ^ 8
byte_at_shift w s h =
    let small : 0xff * 2 ^ s < 2 ^ 64 =
      omega (arith, pow-le-pow_right {n = 2} (omega arith) {i = s} {j = 56} h) in
    let mask : u64 (0xff <<< s) ≡ 0xff * 2 ^ s = omega arith in
    rw (mask, bit_and_shift s w 0xff, bit_and_mask 8 (w / 2 ^ s))
      (mul-div_cancel (w / 2 ^ s % 2 ^ 8) (one-le-pow s 2 (omega arith)))

-- Entry `n` is decoded with byte `n % 8` of pmpcfg0 up to entry 8, and of pmpcfg2 above.
pub pmp_port_lem :
    (h : Hart) (n : ℕ)
    → pmp_port h n ≡ (if leb n 8 then h.csr pmpcfg0 else h.csr pmpcfg2) / 2 ^ (n % 8 * 8) % 2 ^ 8
unfolding pmp_port
pmp_port_lem h n = rw (bit_and_mask 3 n) (byte_at_shift _ (n % 8 * 8) (omega arith))

-- The configuration byte of entry `n` in the privileged architecture: eight entries to a word.
abbrev pub cfg_byte : Hart → ℕ → ℕ
cfg_byte h n = (if leb n 7 then h.csr pmpcfg0 else h.csr pmpcfg2) / 2 ^ (n % 8 * 8) % 2 ^ 8

leb_pred :
    {A : Type 0} (n : ℕ) (x y : A) → n ≢ 8 → (if leb n 8 then x else y) ≡ (if leb n 7 then x else y)
leb_pred n x y h = ground arith

-- Every entry but entry 8 is decoded with its own configuration byte.
pub pmp_port-cfg_byte : (h : Hart) (n : ℕ) → n ≢ 8 → pmp_port h n ≡ cfg_byte h n
pmp_port-cfg_byte h n ne =
    pmp_port_lem h n
    ∙ ap (λ (w : ℕ). w / 2 ^ (n % 8 * 8) % 2 ^ 8) (leb_pred n (h.csr pmpcfg0) (h.csr pmpcfg2) ne)

-- Entry 8 is decoded with the byte of entry 0, so it is wrong wherever the two bytes differ.
pub pmp_port_eighth :
    (h : Hart)
    → (pmp_port h 8 ≡ cfg_byte h 0) × (cfg_byte h 8 ≢ cfg_byte h 0 → pmp_port h 8 ≢ cfg_byte h 8)
pmp_port_eighth h =
    let e : pmp_port h 8 ≡ cfg_byte h 0 = pmp_port_lem h 8 in (e, λ ne f. ne (sym f ∙ e))

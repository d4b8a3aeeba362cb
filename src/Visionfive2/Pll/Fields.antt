-- ===== src/Visionfive2/Pll/Fields.antt =====
-- A field of a word is set, as pll.rs of src/mainboard/starfive/visionfive2/bt0/src does it.
use upstream_oreboot.Prelude.{ℕ, ◌+◌, ◌-◌, ◌*◌, ◌/◌, ◌%◌, ◌^◌, ◌<◌, ◌≡◌, ◌∙◌, refl, arith}
use upstream_oreboot.Prelude.{◌&&&◌, ◌|||◌, not32, shl32}
use upstream_oreboot.Prelude.Bits.{
  bit_or_fields, bit_or_comm, bit_or-zero, bit_and_mask, bit_and_split, bit_or_split,
}

-- A field of `mask` between bit `k` and bit `top`, cleared and filled with `v`.
module _ (top k r mask w : ℕ) where
  clear_field :
      mask / 2 ^ top ≡ 2 ^ r - 1
      → mask % 2 ^ top ≡ 2 ^ k - 1
      → w / 2 ^ top % 2 ^ r ≡ w / 2 ^ top
      → w % 2 ^ top % 2 ^ k ≡ w % 2 ^ k
      → (w &&& mask) ≡ w / 2 ^ top * 2 ^ top + w % 2 ^ k
  clear_field high low fits narrow =
      bit_and_split top w mask
      ∙ rw (high, low, bit_and_mask r (w / 2 ^ top), bit_and_mask k (w % 2 ^ top), fits, narrow)
          refl

fill_field :
    (top k h v l : ℕ)
    → (h * 2 ^ top + l) / 2 ^ top ≡ h
    → (h * 2 ^ top + l) % 2 ^ top ≡ l
    → v * 2 ^ k / 2 ^ top ≡ 0
    → v * 2 ^ k % 2 ^ top ≡ v * 2 ^ k
    → l < 2 ^ k
    → (h * 2 ^ top + l ||| v * 2 ^ k) ≡ h * 2 ^ top + (v * 2 ^ k + l)
fill_field top k h v l e1 e2 e3 e4 below =
    bit_or_split top (h * 2 ^ top + l) (v * 2 ^ k)
    ∙ rw (e1, e2, e3, e4, bit_or-zero h, bit_or_comm l (v * 2 ^ k), bit_or_fields k v l below) refl

set_field :
    (top k r mask bits v w : ℕ)
    → mask / 2 ^ top ≡ 2 ^ r - 1
    → mask % 2 ^ top ≡ 2 ^ k - 1
    → bits ≡ v * 2 ^ k
    → w / 2 ^ top % 2 ^ r ≡ w / 2 ^ top
    → w % 2 ^ top % 2 ^ k ≡ w % 2 ^ k
    → (w / 2 ^ top * 2 ^ top + w % 2 ^ k) / 2 ^ top ≡ w / 2 ^ top
    → (w / 2 ^ top * 2 ^ top + w % 2 ^ k) % 2 ^ top ≡ w % 2 ^ k
    → v * 2 ^ k / 2 ^ top ≡ 0
    → v * 2 ^ k % 2 ^ top ≡ v * 2 ^ k
    → w % 2 ^ k < 2 ^ k
    → ((w &&& mask) ||| bits) ≡ w / 2 ^ top * 2 ^ top + (v * 2 ^ k + w % 2 ^ k)
set_field top k r mask bits v w high low whole fits narrow e1 e2 e3 e4 below =
    rw (clear_field top k r mask w high low fits narrow, whole)
      (fill_field top k (w / 2 ^ top) v (w % 2 ^ k) e1 e2 e3 e4 below)

pub set_pd :
    (v w : ℕ)
    → v < 2
    → w < 2 ^ 32
    → ((w &&& not32 (2 ^ 27)) ||| shl32 v 27) ≡ w / 2 ^ 28 * 2 ^ 28 + (v * 2 ^ 27 + w % 2 ^ 27)
set_pd v w fits whole =
    set_field 28 27 4 (not32 (2 ^ 27)) (shl32 v 27) v w refl refl (omega arith) (omega arith)
      (omega arith) (omega arith) (omega arith) (omega arith) (omega arith) (omega arith)

pub set_postdiv :
    (v w : ℕ)
    → v < 4
    → w < 2 ^ 32
    → ((w &&& not32 0x30000000) ||| shl32 v 28) ≡ w / 2 ^ 30 * 2 ^ 30 + (v * 2 ^ 28 + w % 2 ^ 28)
set_postdiv v w fits whole =
    set_field 30 28 2 (not32 0x30000000) (shl32 v 28) v w refl refl (omega arith) (omega arith)
      (omega arith) (omega arith) (omega arith) (omega arith) (omega arith) (omega arith)

pub set_bit24 :
    (v w : ℕ)
    → v < 2
    → w < 2 ^ 32
    → ((w &&& not32 (2 ^ 24)) ||| shl32 v 24) ≡ w / 2 ^ 25 * 2 ^ 25 + (v * 2 ^ 24 + w % 2 ^ 24)
set_bit24 v w fits whole =
    set_field 25 24 7 (not32 (2 ^ 24)) (shl32 v 24) v w refl refl (omega arith) (omega arith)
      (omega arith) (omega arith) (omega arith) (omega arith) (omega arith) (omega arith)

pub set_bit25 :
    (v w : ℕ)
    → v < 2
    → w < 2 ^ 32
    → ((w &&& not32 (2 ^ 25)) ||| shl32 v 25) ≡ w / 2 ^ 26 * 2 ^ 26 + (v * 2 ^ 25 + w % 2 ^ 25)
set_bit25 v w fits whole =
    set_field 26 25 6 (not32 (2 ^ 25)) (shl32 v 25) v w refl refl (omega arith) (omega arith)
      (omega arith) (omega arith) (omega arith) (omega arith) (omega arith) (omega arith)

pub set_bit15 :
    (v w : ℕ)
    → v < 2
    → w < 2 ^ 32
    → ((w &&& not32 (2 ^ 15)) ||| shl32 v 15) ≡ w / 2 ^ 16 * 2 ^ 16 + (v * 2 ^ 15 + w % 2 ^ 15)
set_bit15 v w fits whole =
    set_field 16 15 16 (not32 (2 ^ 15)) (shl32 v 15) v w refl refl (omega arith) (omega arith)
      (omega arith) (omega arith) (omega arith) (omega arith) (omega arith) (omega arith)

pub set_bit16 :
    (v w : ℕ)
    → v < 2
    → w < 2 ^ 32
    → ((w &&& not32 (2 ^ 16)) ||| shl32 v 16) ≡ w / 2 ^ 17 * 2 ^ 17 + (v * 2 ^ 16 + w % 2 ^ 16)
set_bit16 v w fits whole =
    set_field 17 16 15 (not32 (2 ^ 16)) (shl32 v 16) v w refl refl (omega arith) (omega arith)
      (omega arith) (omega arith) (omega arith) (omega arith) (omega arith) (omega arith)

pub set_fbdiv :
    (v w : ℕ)
    → v < 4096
    → w < 2 ^ 32
    → ((w &&& not32 0x1ffe0000) ||| shl32 v 17) ≡ w / 2 ^ 29 * 2 ^ 29 + (v * 2 ^ 17 + w % 2 ^ 17)
set_fbdiv v w fits whole =
    set_field 29 17 3 (not32 0x1ffe0000) (shl32 v 17) v w refl refl (omega arith) (omega arith)
      (omega arith) (omega arith) (omega arith) (omega arith) (omega arith) (omega arith)

pub set_low_fbdiv :
    (v w : ℕ)
    → v < 2048
    → w < 2 ^ 32
    → ((w &&& not32 0x7ff) ||| v) ≡ w / 2 ^ 11 * 2 ^ 11 + (v * 2 ^ 0 + w % 2 ^ 0)
set_low_fbdiv v w fits whole =
    set_field 11 0 21 (not32 0x7ff) (v) v w refl refl (omega arith) (omega arith) (omega arith)
      (omega arith) (omega arith) (omega arith) (omega arith) (omega arith)

pub set_prediv :
    (v w : ℕ)
    → v < 64
    → w < 2 ^ 32
    → ((w &&& not32 0x3f) ||| v) ≡ w / 2 ^ 6 * 2 ^ 6 + (v * 2 ^ 0 + w % 2 ^ 0)
set_prediv v w fits whole =
    set_field 6 0 26 (not32 0x3f) (v) v w refl refl (omega arith) (omega arith) (omega arith)
      (omega arith) (omega arith) (omega arith) (omega arith) (omega arith)

pub set_frac :
    (v w : ℕ)
    → v < 16777216
    → w < 2 ^ 32
    → ((w &&& not32 0x00ffffff) ||| v) ≡ w / 2 ^ 24 * 2 ^ 24 + (v * 2 ^ 0 + w % 2 ^ 0)
set_frac v w fits whole =
    set_field 24 0 8 (not32 0x00ffffff) (v) v w refl refl (omega arith) (omega arith) (omega arith)
      (omega arith) (omega arith) (omega arith) (omega arith) (omega arith)

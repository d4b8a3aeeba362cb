-- ===== src/D1/Smhc/Idmac.antt =====
-- The descriptors of the internal DMA controller, src/soc/src/sunxi/d1/smhc/idmac.rs.
use upstream_oreboot.Prelude.{ℕ, ◌^◌, Bool, not}
use upstream_oreboot.Prelude.{
  ◌==◌, ◌&&◌, if◌then◌else◌, ltb, ◌>>>◌, u32, bit_and, bit_or, Option, none, some,
}

pub record Descriptor : Type 0 where
  pub des0 : ℕ
  pub des1 : ℕ
  pub des2 : ℕ
  pub des3 : ℕ

unfoldable pub is_owned : Descriptor → Bool
is_owned d = not (bit_and d.des0 (2 ^ 31) == 0)

unfoldable pub is_err : Descriptor → Bool
is_err d = not (bit_and d.des0 (2 ^ 30) == 0)

-- Addresses stand for the pointers.
pub record DescriptorConfig : Type 0 where
  pub disable_int_on_complete : Bool
  pub first : Bool
  pub last : Bool
  pub buff_size : ℕ
  pub buff_addr : ℕ
  pub next_desc : Option ℕ

-- Left is the only error, `InvalidBufferSize`.
pub data Prepared : Type 0 where
  ok : Descriptor → Prepared
  invalid_buffer_size : Prepared

abbrev or_bit : Bool → ℕ → ℕ → ℕ
or_bit test bit word = if test then bit_or word bit else word

abbrev pub next_word : Option ℕ → ℕ
next_word none = 0
next_word (some next) = u32 next >>> 2

unfoldable pub try_from : DescriptorConfig → Prepared
try_from value =
    let flags =
      or_bit value.first (2 ^ 3)
        (or_bit value.last (2 ^ 2) (or_bit value.disable_int_on_complete (2 ^ 1) 0)) in
    let des0 = bit_or (bit_or flags (2 ^ 4)) (2 ^ 31) in
    if ltb value.buff_size (2 ^ 13) && (bit_and value.buff_size 3 == 0)
    then Prepared.ok (record {
      des0 = des0;
      des1 = value.buff_size;
      des2 = u32 value.buff_addr >>> 2;
      des3 = next_word value.next_desc;
    })
    else Prepared.invalid_buffer_size

-- ===== src/Nezha/Flash.antt =====
-- The drivers of the flash chips, src/mainboard/sunxi/nezha/bt0/src/flash.rs, on the transfers of
-- src/soc/src/sunxi/d1/spi.rs.
pub mod Pages
use upstream_oreboot.Prelude.{
  ℕ, zero, suc, ◌+◌, ◌-◌, ◌*◌, ◌/◌, ◌%◌, ◌^◌, min, List, [], ◌∷◌, ◌++◌, Option, none, some, Bool,
  ◌==◌, if◌then◌else◌, u8, u32, ◌>>>◌, ◌&&&◌, get_or,
}

-- `Spi::transfer`: the bytes sent, the number of dummy bytes and the number of bytes received.
pub record Spi (S : Type 0) : Type 0 where
  pub received : List ℕ → ℕ → ℕ → S → List ℕ
  pub after : List ℕ → ℕ → ℕ → S → S

abbrev pub cmd_get_feature : ℕ
cmd_get_feature = 0x0f

abbrev pub cmd_read_id : ℕ
cmd_read_id = 0x9f

abbrev pub cmd_read_page : ℕ
cmd_read_page = 0x13

abbrev pub cmd_read_cache : ℕ
cmd_read_cache = 0x03

abbrev pub feat_status : ℕ
feat_status = 0xc0

abbrev pub len_page_bits : ℕ
len_page_bits = 11

abbrev pub len_page : ℕ
len_page = 2 ^ len_page_bits

abbrev pub len_page_mask : ℕ
len_page_mask = len_page - 1

abbrev pub cmd_nor_read : ℕ
cmd_nor_read = 0x03

-- The commands of `SpiNand::copy_into`: bytes 1 to 3 of a big-endian word, behind the command, and
-- bytes 2 and 3.
abbrev pub page_command : ℕ → List ℕ
page_command row = cmd_read_page ∷ u8 (row / 2 ^ 16) ∷ u8 (row / 2 ^ 8) ∷ u8 row ∷ []

abbrev pub cache_command : ℕ → List ℕ
cache_command ca = cmd_read_cache ∷ u8 (ca / 2 ^ 8) ∷ u8 ca ∷ []

module _ {A B : Type 0} where
  infixl 5 ◌>>=◌
  abbrev pub ◌>>=◌ : Option A → (A → Option B) → Option B
  none >>= k = none
  some a >>= k = k a

-- A result and the chip after it; `none` is a wait that has not ended within the fuel.
module _ {S : Type 0} (spi : Spi S) where
  -- `SpiNand::get_feature`
  abbrev pub get_feature : ℕ → S → ℕ
  get_feature key s = get_or (spi.received (cmd_get_feature ∷ key ∷ []) 0 1 s) 0 0

  -- `SpiNand::wait`
  unfoldable pub wait : ℕ → S → Option S
  wait zero s = none
  wait (suc fuel) s =
      let s1 = spi.after (cmd_get_feature ∷ feat_status ∷ []) 0 1 s in
      let again = wait fuel s1 in if (get_feature feat_status s &&& 1) == 1 then again else some s1

  -- `SpiNand::read_id`
  unfoldable pub nand_read_id : ℕ → S → Option (List ℕ × S)
  unfolding wait
  nand_read_id fuel s = do
    s1 ← wait fuel s
    some (spi.received (cmd_read_id ∷ []) 1 3 s1, spi.after (cmd_read_id ∷ []) 1 3 s1)

  -- `SpiNand::copy_into` of `len` bytes, with as many turns as `turns`.
  unfoldable pub copy_into : ℕ → ℕ → ℕ → ℕ → S → Option (List ℕ × S)
  unfolding wait
  copy_into fuel zero base len s = if len == 0 then some ([], s) else none
  copy_into fuel (suc turns) base len s =
      let rest = λ (base1 : ℕ) (len1 : ℕ) (s1 : S). copy_into fuel turns base1 len1 s1 in
      if len == 0 then some ([], s) else (do
        s1 ← wait fuel s
        let s2 = spi.after (page_command (base >>> len_page_bits)) 0 0 s1
        let ca = base &&& len_page_mask
        let n = min len (len_page - ca)
        s3 ← wait fuel s2
        let head = spi.received (cache_command ca) 1 n s3
        tail ← rest (u32 (base + n)) (len - n) (spi.after (cache_command ca) 1 n s3)
        some (head ++ tail.0, tail.1))

  -- `SpiNor::read_id` and `SpiNor::copy_into`
  abbrev pub nor_read_id : S → List ℕ × S
  nor_read_id s = (spi.received (cmd_read_id ∷ []) 0 3 s, spi.after (cmd_read_id ∷ []) 0 3 s)

  unfoldable pub nor_copy_into : ℕ → ℕ → ℕ → S → List ℕ × S
  nor_copy_into a b c s =
      let cmd = cmd_nor_read ∷ a ∷ b ∷ c ∷ [] in (spi.received cmd 0 64 s, spi.after cmd 0 64 s)

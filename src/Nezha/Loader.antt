-- ===== src/Nezha/Loader.antt =====
-- The images that the first stage loads from a NOR flash, src/mainboard/sunxi/nezha/bt0/src/main.rs.
pub mod Words
pub mod Images
pub mod Mmc
use upstream_oreboot.Prelude.{
  ℕ, zero, suc, ◌+◌, ◌*◌, ◌/◌, ◌^◌, Option, List, ◌==◌, if◌then◌else◌, u8, get_or,
}
use upstream_oreboot.Nezha.Dram.Registers.{ram_base}
use upstream_oreboot.Nezha.Flash.{Spi, nor_copy_into, nor_read_id, nand_read_id, copy_into, ◌>>=◌}

abbrev pub lin_addr : ℕ
lin_addr = ram_base + 0x04000000

abbrev pub dtb_addr : ℕ
dtb_addr = ram_base + 0x01a00000

abbrev pub ore_addr : ℕ
ore_addr = ram_base

abbrev pub ore_size : ℕ
ore_size = 0x18000

abbrev pub dtf_size : ℕ
dtf_size = 0x10000

abbrev pub lin_size : ℕ
lin_size = 0x00fc0000

abbrev pub dtb_size : ℕ
dtb_size = 0x00010000

-- The words of the memory, by their addresses.
abbrev pub Memory : Type 0
Memory = ℕ → ℕ

abbrev pub store : ℕ → ℕ → Memory → Memory
store a v mem a' = if a == a' then v else mem a'

-- `u32::from_le_bytes` of the four bytes at `jw`.
abbrev pub word_of : List ℕ → ℕ → ℕ
word_of buf jw =
    get_or buf jw 0
    + get_or buf (jw + 1) 0 * 2 ^ 8
    + get_or buf (jw + 2) 0 * 2 ^ 16
    + get_or buf (jw + 3) 0 * 2 ^ 24

-- `for j in 0..chunks`, from `j` on, at the address of the chunk.
unfoldable pub chunk_loop : ℕ → ℕ → ℕ → List ℕ → Memory → Memory
chunk_loop zero j addr buf mem = mem
chunk_loop (suc count) j addr buf mem =
    chunk_loop count (suc j) addr buf (store (addr + 4 * j) (word_of buf (4 * j)) mem)

module _ {S : Type 0} (spi : Spi S) where
  -- `for i in 0..sz / chunks`, from `i` on.
  unfoldable pub load_loop : ℕ → ℕ → ℕ → ℕ → Memory → S → Memory × S
  load_loop zero i skip base mem s = (mem, s)
  load_loop (suc count) i skip base mem s =
      let off = skip + i * 4 * 16 in
      let read = nor_copy_into spi (u8 (off / 2 ^ 16)) (u8 (off / 2 ^ 8)) (u8 off) s in
      load_loop count (suc i) skip base (chunk_loop 16 0 (base + i * 4 * 16) read.0 mem) read.1

  -- `load` of the feature `nor`.
  unfoldable pub load : ℕ → ℕ → ℕ → Memory → S → Memory × S
  load skip base size mem s = load_loop (size / 4 / 16) 0 skip base mem s

  -- The part of `main` of the feature `nor`.
  unfoldable pub load_images : Memory → S → Memory × S
  load_images mem s =
      let skip = 2 ^ 15 in
      let ore = load skip ore_addr ore_size mem (nor_read_id spi s).1 in
      let lin = load (skip + ore_size + dtf_size) lin_addr lin_size ore.0 ore.1 in
      load (skip + ore_size + dtf_size + lin_size) dtb_addr dtb_size lin.0 lin.1

  -- The part of `main` of the feature `nand`: the bytes of the main stage, whose place and length stand
  -- in the head of the main stage.
  unfoldable pub load_main_stage : ℕ → S → Option (List ℕ × S)
  load_main_stage fuel s = do
    id ← nand_read_id spi fuel s
    head ← copy_into spi fuel 8 0x60 8 id.1
    copy_into spi fuel (word_of head.0 4) (word_of head.0 0) (word_of head.0 4) head.1

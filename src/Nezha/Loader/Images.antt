-- ===== src/Nezha/Loader/Images.antt =====
-- The images that are in the memory when the main stage starts, src/mainboard/sunxi/nezha/bt0/src/main.rs.
use upstream_oreboot.Prelude.{ℕ, ◌+◌, ◌*◌, ◌/◌, ◌^◌, ◌<◌, ◌≤◌, ◌≡◌, ◌≢◌, ◌∙◌, arith, some}
use upstream_oreboot.Nezha.Flash.{Spi, nor_read_id}
use upstream_oreboot.Nezha.Flash.Pages.{bytes, IsNand, nand_read_id_ends, copy_into-bytes}
use upstream_oreboot.Nezha.Loader.{
  Memory, load, load_images, load_main_stage, word_of, ore_addr, lin_addr, dtb_addr, ore_size,
  dtf_size, lin_size, dtb_size,
}
use upstream_oreboot.Nezha.Loader.Words.{
  word_of-bytes, flash_word, IsNor, load_loop_frame, load_loop_hit,
}

module _ {S : Type 0} (spi : Spi S) (flash : ℕ → ℕ) (chip : IsNor spi flash) where
  load_hit :
      (skip base size k : ℕ) (mem : Memory) (s : S)
      → k < 16 * (size / 4 / 16)
      → skip + size ≤ 2 ^ 24
      → (load spi skip base size mem s).0 (base + 4 * k) ≡ flash_word flash (skip + 4 * k)
  unfolding load
  load_hit skip base size k mem s p fits =
      load_loop_hit spi flash chip (size / 4 / 16) 0 skip base k mem s (omega arith) (omega arith)
        (omega arith)

  load_frame :
      (skip base size a : ℕ) (mem : Memory) (s : S)
      → ((k : ℕ) → k < 16 * (size / 4 / 16) → base + 4 * k ≢ a)
      → (load spi skip base size mem s).0 a ≡ mem a
  unfolding load
  load_frame skip base size a mem s h =
      load_loop_frame spi flash (size / 4 / 16) 0 skip base a mem s (λ k p q. h k (omega arith))

  -- When the flash is a NOR chip, the loads of `main` leave in the memory, each at its address, the
  -- words of oreboot from 32 KB of the flash on, of Linux from behind oreboot and its dtfs, and of the
  -- device tree from behind Linux: no load overwrites what an earlier one has loaded.
  pub load_images-flash_word :
      (mem : Memory) (s : S)
      → ((k : ℕ)
          → 4 * k < ore_size
          → (load_images spi mem s).0 (ore_addr + 4 * k) ≡ flash_word flash (2 ^ 15 + 4 * k))
        × ((k : ℕ)
            → 4 * k < lin_size
            → (load_images spi mem s).0 (lin_addr + 4 * k)
              ≡ flash_word flash (2 ^ 15 + ore_size + dtf_size + 4 * k))
        × ((k : ℕ)
            → 4 * k < dtb_size
            → (load_images spi mem s).0 (dtb_addr + 4 * k)
              ≡ flash_word flash (2 ^ 15 + ore_size + dtf_size + lin_size + 4 * k))
  unfolding load_images
  load_images-flash_word mem s = (
    (λ k p.
        load_frame (2 ^ 15 + ore_size + dtf_size + lin_size) dtb_addr dtb_size (ore_addr + 4 * k) _
          _ (λ m r same. absurd (omega arith))
        ∙ load_frame (2 ^ 15 + ore_size + dtf_size) lin_addr lin_size (ore_addr + 4 * k) _ _
            (λ m r same. absurd (omega arith))
        ∙ load_hit (2 ^ 15) ore_addr ore_size k mem (nor_read_id spi s).1 (omega arith)
            (omega arith)),
    (λ k p.
        load_frame (2 ^ 15 + ore_size + dtf_size + lin_size) dtb_addr dtb_size (lin_addr + 4 * k) _
          _ (λ m r same. absurd (omega arith))
        ∙ load_hit (2 ^ 15 + ore_size + dtf_size) lin_addr lin_size k _ _ (omega arith)
            (omega arith)),
    (λ k p.
        load_hit (2 ^ 15 + ore_size + dtf_size + lin_size) dtb_addr dtb_size k _ _ (omega arith)
          (omega arith)),
  )

-- On a NAND chip, which stays readable within 32 bits, the first stage loads exactly the bytes of the
-- main stage: as many as the second word of its head at 0x60 says, from where the first word says.
pub load_main_stage-bytes :
    {S : Type 0} (spi : Spi S) (flash : ℕ → ℕ) (page : S → ℕ) (fuel : ℕ) (s : S)
    → IsNand spi flash page fuel
    → flash_word flash 0x60 + flash_word flash 0x64 ≤ 2 ^ 32
    → (s' : S) × (load_main_stage spi fuel s
        ≡ some (bytes flash (flash_word flash 0x60) (flash_word flash 0x64), s'))
unfolding load_main_stage
load_main_stage-bytes spi flash page fuel s chip fits =
    let id = nand_read_id_ends spi flash page fuel s chip in
    let head = copy_into-bytes spi flash page fuel 0x60 8 id.0.1 chip (omega arith) in
    let offset : word_of (bytes flash 0x60 8) 0 ≡ flash_word flash 0x60 =
      word_of-bytes flash 0x60 8 0 (omega arith) in
    let length : word_of (bytes flash 0x60 8) 4 ≡ flash_word flash 0x64 =
      word_of-bytes flash 0x60 8 4 (omega arith) in
    let rest =
      copy_into-bytes spi flash page fuel (flash_word flash 0x60) (flash_word flash 0x64) head.0
        chip fits in
    (rest.0, rw (id.1, head.1, offset, length) rest.1)
